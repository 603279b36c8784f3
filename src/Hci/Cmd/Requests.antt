-- ===== src/Hci/Cmd/Requests.antt =====
-- Every command that the package can marshal, with its arguments.
use ble.Base.{ℕ, List}
use ble.Hci.Cmd.Wire.{Command}
use ble.Hci.Cmd.Control.{
  disconnect, read_remote_version_information, write_default_link_policy_settings, set_event_mask,
  reset, write_page_timeout, write_class_of_device, read_transmit_power_level, host_buffer_size,
  set_event_mask_page2, write_le_host_support, read_authenticated_payload_timeout,
  write_authenticated_payload_timeout,
}
use ble.Hci.Cmd.Info.{
  read_local_version_information, read_local_supported_commands, read_local_supported_features,
  read_buffer_size, read_bd_addr, read_rssi,
}
use ble.Hci.Cmd.LeSetup.{
  le_set_event_mask, le_read_buffer_size, le_read_local_supported_features, le_set_random_address,
  le_set_advertising_parameters, le_read_advertising_channel_tx_power, le_set_advertising_data,
  le_set_scan_response_data, le_set_advertise_enable, le_set_scan_parameters, le_set_scan_enable,
  le_create_connection, le_create_connection_cancel, le_read_white_list_size, le_clear_white_list,
  le_add_device_to_white_list, le_remove_device_from_white_list,
}
use ble.Hci.Cmd.LeLink.{
  le_connection_update, le_set_host_channel_classification, le_read_channel_map,
  le_read_remote_used_features, le_encrypt, le_rand, le_start_encryption,
  le_long_term_key_request_reply, le_long_term_key_request_negative_reply, le_read_supported_states,
  le_receiver_test, le_transmitter_test, le_test_end, le_remote_connection_parameter_request_reply,
  le_remote_connection_parameter_request_negative_reply, le_set_data_length,
  le_read_maximum_data_length,
}

pub data Request : Type 0 where
  of_disconnect : ℕ → ℕ → Request
  of_read_remote_version_information : ℕ → Request
  of_write_default_link_policy_settings : ℕ → Request
  of_set_event_mask : ℕ → Request
  of_reset : Request
  of_write_page_timeout : ℕ → Request
  of_write_class_of_device : List ℕ → Request
  of_read_transmit_power_level : ℕ → ℕ → Request
  of_host_buffer_size : ℕ → ℕ → ℕ → ℕ → Request
  of_set_event_mask_page2 : ℕ → Request
  of_write_le_host_support : ℕ → ℕ → Request
  of_read_authenticated_payload_timeout : ℕ → Request
  of_write_authenticated_payload_timeout : ℕ → ℕ → Request
  of_read_local_version_information : Request
  of_read_local_supported_commands : Request
  of_read_local_supported_features : Request
  of_read_buffer_size : Request
  of_read_bd_addr : Request
  of_read_rssi : ℕ → Request
  of_le_set_event_mask : ℕ → Request
  of_le_read_buffer_size : Request
  of_le_read_local_supported_features : Request
  of_le_set_random_address : List ℕ → Request
  of_le_set_advertising_parameters : ℕ → ℕ → ℕ → ℕ → ℕ → List ℕ → ℕ → ℕ → Request
  of_le_read_advertising_channel_tx_power : Request
  of_le_set_advertising_data : ℕ → List ℕ → Request
  of_le_set_scan_response_data : ℕ → List ℕ → Request
  of_le_set_advertise_enable : ℕ → Request
  of_le_set_scan_parameters : ℕ → ℕ → ℕ → ℕ → ℕ → Request
  of_le_set_scan_enable : ℕ → ℕ → Request
  of_le_create_connection : ℕ → ℕ → ℕ → ℕ → List ℕ → ℕ → ℕ → ℕ → ℕ → ℕ → ℕ → ℕ → Request
  of_le_create_connection_cancel : Request
  of_le_read_white_list_size : Request
  of_le_clear_white_list : Request
  of_le_add_device_to_white_list : ℕ → List ℕ → Request
  of_le_remove_device_from_white_list : ℕ → List ℕ → Request
  of_le_connection_update : ℕ → ℕ → ℕ → ℕ → ℕ → ℕ → ℕ → Request
  of_le_set_host_channel_classification : List ℕ → Request
  of_le_read_channel_map : ℕ → Request
  of_le_read_remote_used_features : ℕ → Request
  of_le_encrypt : List ℕ → List ℕ → Request
  of_le_rand : Request
  of_le_start_encryption : ℕ → ℕ → ℕ → List ℕ → Request
  of_le_long_term_key_request_reply : ℕ → List ℕ → Request
  of_le_long_term_key_request_negative_reply : ℕ → Request
  of_le_read_supported_states : Request
  of_le_receiver_test : ℕ → Request
  of_le_transmitter_test : ℕ → ℕ → ℕ → Request
  of_le_test_end : Request
  of_le_remote_connection_parameter_request_reply : ℕ → ℕ → ℕ → ℕ → ℕ → ℕ → ℕ → Request
  of_le_remote_connection_parameter_request_negative_reply : ℕ → ℕ → Request
  of_le_set_data_length : ℕ → ℕ → ℕ → Request
  of_le_read_maximum_data_length : Request

unfoldable pub command : Request → Command
command (of_disconnect x0 x1) = disconnect x0 x1
command (of_read_remote_version_information x0) = read_remote_version_information x0
command (of_write_default_link_policy_settings x0) = write_default_link_policy_settings x0
command (of_set_event_mask x0) = set_event_mask x0
command of_reset = reset
command (of_write_page_timeout x0) = write_page_timeout x0
command (of_write_class_of_device x0) = write_class_of_device x0
command (of_read_transmit_power_level x0 x1) = read_transmit_power_level x0 x1
command (of_host_buffer_size x0 x1 x2 x3) = host_buffer_size x0 x1 x2 x3
command (of_set_event_mask_page2 x0) = set_event_mask_page2 x0
command (of_write_le_host_support x0 x1) = write_le_host_support x0 x1
command (of_read_authenticated_payload_timeout x0) = read_authenticated_payload_timeout x0
command (of_write_authenticated_payload_timeout x0 x1) = write_authenticated_payload_timeout x0 x1
command of_read_local_version_information = read_local_version_information
command of_read_local_supported_commands = read_local_supported_commands
command of_read_local_supported_features = read_local_supported_features
command of_read_buffer_size = read_buffer_size
command of_read_bd_addr = read_bd_addr
command (of_read_rssi x0) = read_rssi x0
command (of_le_set_event_mask x0) = le_set_event_mask x0
command of_le_read_buffer_size = le_read_buffer_size
command of_le_read_local_supported_features = le_read_local_supported_features
command (of_le_set_random_address x0) = le_set_random_address x0
command (of_le_set_advertising_parameters x0 x1 x2 x3 x4 x5 x6 x7) =
    le_set_advertising_parameters x0 x1 x2 x3 x4 x5 x6 x7
command of_le_read_advertising_channel_tx_power = le_read_advertising_channel_tx_power
command (of_le_set_advertising_data x0 x1) = le_set_advertising_data x0 x1
command (of_le_set_scan_response_data x0 x1) = le_set_scan_response_data x0 x1
command (of_le_set_advertise_enable x0) = le_set_advertise_enable x0
command (of_le_set_scan_parameters x0 x1 x2 x3 x4) = le_set_scan_parameters x0 x1 x2 x3 x4
command (of_le_set_scan_enable x0 x1) = le_set_scan_enable x0 x1
command (of_le_create_connection x0 x1 x2 x3 x4 x5 x6 x7 x8 x9 x10 x11) =
    le_create_connection x0 x1 x2 x3 x4 x5 x6 x7 x8 x9 x10 x11
command of_le_create_connection_cancel = le_create_connection_cancel
command of_le_read_white_list_size = le_read_white_list_size
command of_le_clear_white_list = le_clear_white_list
command (of_le_add_device_to_white_list x0 x1) = le_add_device_to_white_list x0 x1
command (of_le_remove_device_from_white_list x0 x1) = le_remove_device_from_white_list x0 x1
command (of_le_connection_update x0 x1 x2 x3 x4 x5 x6) = le_connection_update x0 x1 x2 x3 x4 x5 x6
command (of_le_set_host_channel_classification x0) = le_set_host_channel_classification x0
command (of_le_read_channel_map x0) = le_read_channel_map x0
command (of_le_read_remote_used_features x0) = le_read_remote_used_features x0
command (of_le_encrypt x0 x1) = le_encrypt x0 x1
command of_le_rand = le_rand
command (of_le_start_encryption x0 x1 x2 x3) = le_start_encryption x0 x1 x2 x3
command (of_le_long_term_key_request_reply x0 x1) = le_long_term_key_request_reply x0 x1
command (of_le_long_term_key_request_negative_reply x0) = le_long_term_key_request_negative_reply x0
command of_le_read_supported_states = le_read_supported_states
command (of_le_receiver_test x0) = le_receiver_test x0
command (of_le_transmitter_test x0 x1 x2) = le_transmitter_test x0 x1 x2
command of_le_test_end = le_test_end
command (of_le_remote_connection_parameter_request_reply x0 x1 x2 x3 x4 x5 x6) =
    le_remote_connection_parameter_request_reply x0 x1 x2 x3 x4 x5 x6
command (of_le_remote_connection_parameter_request_negative_reply x0 x1) =
    le_remote_connection_parameter_request_negative_reply x0 x1
command (of_le_set_data_length x0 x1 x2) = le_set_data_length x0 x1 x2
command of_le_read_maximum_data_length = le_read_maximum_data_length

-- The number of a command, in the order of the file.
unfoldable pub number : Request → ℕ
number (of_disconnect x0 x1) = 0
number (of_read_remote_version_information x0) = 1
number (of_write_default_link_policy_settings x0) = 2
number (of_set_event_mask x0) = 3
number of_reset = 4
number (of_write_page_timeout x0) = 5
number (of_write_class_of_device x0) = 6
number (of_read_transmit_power_level x0 x1) = 7
number (of_host_buffer_size x0 x1 x2 x3) = 8
number (of_set_event_mask_page2 x0) = 9
number (of_write_le_host_support x0 x1) = 10
number (of_read_authenticated_payload_timeout x0) = 11
number (of_write_authenticated_payload_timeout x0 x1) = 12
number of_read_local_version_information = 13
number of_read_local_supported_commands = 14
number of_read_local_supported_features = 15
number of_read_buffer_size = 16
number of_read_bd_addr = 17
number (of_read_rssi x0) = 18
number (of_le_set_event_mask x0) = 19
number of_le_read_buffer_size = 20
number of_le_read_local_supported_features = 21
number (of_le_set_random_address x0) = 22
number (of_le_set_advertising_parameters x0 x1 x2 x3 x4 x5 x6 x7) = 23
number of_le_read_advertising_channel_tx_power = 24
number (of_le_set_advertising_data x0 x1) = 25
number (of_le_set_scan_response_data x0 x1) = 26
number (of_le_set_advertise_enable x0) = 27
number (of_le_set_scan_parameters x0 x1 x2 x3 x4) = 28
number (of_le_set_scan_enable x0 x1) = 29
number (of_le_create_connection x0 x1 x2 x3 x4 x5 x6 x7 x8 x9 x10 x11) = 30
number of_le_create_connection_cancel = 31
number of_le_read_white_list_size = 32
number of_le_clear_white_list = 33
number (of_le_add_device_to_white_list x0 x1) = 34
number (of_le_remove_device_from_white_list x0 x1) = 35
number (of_le_connection_update x0 x1 x2 x3 x4 x5 x6) = 36
number (of_le_set_host_channel_classification x0) = 37
number (of_le_read_channel_map x0) = 38
number (of_le_read_remote_used_features x0) = 39
number (of_le_encrypt x0 x1) = 40
number of_le_rand = 41
number (of_le_start_encryption x0 x1 x2 x3) = 42
number (of_le_long_term_key_request_reply x0 x1) = 43
number (of_le_long_term_key_request_negative_reply x0) = 44
number of_le_read_supported_states = 45
number (of_le_receiver_test x0) = 46
number (of_le_transmitter_test x0 x1 x2) = 47
number of_le_test_end = 48
number (of_le_remote_connection_parameter_request_reply x0 x1 x2 x3 x4 x5 x6) = 49
number (of_le_remote_connection_parameter_request_negative_reply x0 x1) = 50
number (of_le_set_data_length x0 x1 x2) = 51
number of_le_read_maximum_data_length = 52
