-- ===== src/Hci/Cmd/Sizes.antt =====
-- linux/hci/cmd: the number of bytes of a command against its Len, command by command.
use ble.Base.{
  ℕ, ◌+◌, ◌≡◌, refl, ap, true, List, [], ◌∷◌, ◌++◌, length, length-take, length-append, leb, arith,
  zero, suc,
}
use ble.Hci.Cmd.Wire.{Field, u8, u16, u64, array, zeros, encode_field, encode_fields}
use ble.Hci.Cmd.Requests.{
  Request, command, of_disconnect, of_read_remote_version_information,
  of_write_default_link_policy_settings, of_set_event_mask, of_reset, of_write_page_timeout,
  of_write_class_of_device, of_read_transmit_power_level, of_host_buffer_size,
  of_set_event_mask_page2, of_write_le_host_support, of_read_authenticated_payload_timeout,
  of_write_authenticated_payload_timeout, of_read_local_version_information,
  of_read_local_supported_commands, of_read_local_supported_features, of_read_buffer_size,
  of_read_bd_addr, of_read_rssi, of_le_set_event_mask, of_le_read_buffer_size,
  of_le_read_local_supported_features, of_le_set_random_address, of_le_set_advertising_parameters,
  of_le_read_advertising_channel_tx_power, of_le_set_advertising_data, of_le_set_scan_response_data,
  of_le_set_advertise_enable, of_le_set_scan_parameters, of_le_set_scan_enable,
  of_le_create_connection, of_le_create_connection_cancel, of_le_read_white_list_size,
  of_le_clear_white_list, of_le_add_device_to_white_list, of_le_remove_device_from_white_list,
  of_le_connection_update, of_le_set_host_channel_classification, of_le_read_channel_map,
  of_le_read_remote_used_features, of_le_encrypt, of_le_rand, of_le_start_encryption,
  of_le_long_term_key_request_reply, of_le_long_term_key_request_negative_reply,
  of_le_read_supported_states, of_le_receiver_test, of_le_transmitter_test, of_le_test_end,
  of_le_remote_connection_parameter_request_reply,
  of_le_remote_connection_parameter_request_negative_reply, of_le_set_data_length,
  of_le_read_maximum_data_length,
}

unfoldable pub width : Field → ℕ
width (u8 v) = 1
width (u16 v) = 2
width (u64 v) = 8
width (array n ds) = n

unfoldable pub widths : List Field → ℕ
unfolding width
widths [] = 0
widths (f ∷ fs) = width f + widths fs

length-zeros : (n : ℕ) → length (zeros n) ≡ n
unfolding zeros
length-zeros zero = refl
length-zeros (suc n) = ap suc (length-zeros n)

pub length-encode_field : (f : Field) → length (encode_field f) ≡ width f
unfolding encode_field width
length-encode_field (u8 v) = refl
length-encode_field (u16 v) = refl
length-encode_field (u64 v) = refl
length-encode_field (array n ds) =
    let cut = length-take n (ds ++ zeros n) in
    let total = length-append ds (zeros n) in let room = length-zeros n in omega arith

pub length-encode_fields : (fs : List Field) → length (encode_fields fs) ≡ widths fs
unfolding encode_fields widths
length-encode_fields [] = refl
length-encode_fields (f ∷ fs) =
    let sum = length-append (encode_field f) (encode_fields fs) in
    let head = length-encode_field f in let tail = length-encode_fields fs in omega arith

-- Len is the size of the struct.
pub widths-command : (r : Request) → widths (command r).fields ≡ (command r).len
unfolding command widths
widths-command (of_disconnect x0 x1) = refl
widths-command (of_read_remote_version_information x0) = refl
widths-command (of_write_default_link_policy_settings x0) = refl
widths-command (of_set_event_mask x0) = refl
widths-command of_reset = refl
widths-command (of_write_page_timeout x0) = refl
widths-command (of_write_class_of_device x0) = refl
widths-command (of_read_transmit_power_level x0 x1) = refl
widths-command (of_host_buffer_size x0 x1 x2 x3) = refl
widths-command (of_set_event_mask_page2 x0) = refl
widths-command (of_write_le_host_support x0 x1) = refl
widths-command (of_read_authenticated_payload_timeout x0) = refl
widths-command (of_write_authenticated_payload_timeout x0 x1) = refl
widths-command of_read_local_version_information = refl
widths-command of_read_local_supported_commands = refl
widths-command of_read_local_supported_features = refl
widths-command of_read_buffer_size = refl
widths-command of_read_bd_addr = refl
widths-command (of_read_rssi x0) = refl
widths-command (of_le_set_event_mask x0) = refl
widths-command of_le_read_buffer_size = refl
widths-command of_le_read_local_supported_features = refl
widths-command (of_le_set_random_address x0) = refl
widths-command (of_le_set_advertising_parameters x0 x1 x2 x3 x4 x5 x6 x7) = refl
widths-command of_le_read_advertising_channel_tx_power = refl
widths-command (of_le_set_advertising_data x0 x1) = refl
widths-command (of_le_set_scan_response_data x0 x1) = refl
widths-command (of_le_set_advertise_enable x0) = refl
widths-command (of_le_set_scan_parameters x0 x1 x2 x3 x4) = refl
widths-command (of_le_set_scan_enable x0 x1) = refl
widths-command (of_le_create_connection x0 x1 x2 x3 x4 x5 x6 x7 x8 x9 x10 x11) = refl
widths-command of_le_create_connection_cancel = refl
widths-command of_le_read_white_list_size = refl
widths-command of_le_clear_white_list = refl
widths-command (of_le_add_device_to_white_list x0 x1) = refl
widths-command (of_le_remove_device_from_white_list x0 x1) = refl
widths-command (of_le_connection_update x0 x1 x2 x3 x4 x5 x6) = refl
widths-command (of_le_set_host_channel_classification x0) = refl
widths-command (of_le_read_channel_map x0) = refl
widths-command (of_le_read_remote_used_features x0) = refl
widths-command (of_le_encrypt x0 x1) = refl
widths-command of_le_rand = refl
widths-command (of_le_start_encryption x0 x1 x2 x3) = refl
widths-command (of_le_long_term_key_request_reply x0 x1) = refl
widths-command (of_le_long_term_key_request_negative_reply x0) = refl
widths-command of_le_read_supported_states = refl
widths-command (of_le_receiver_test x0) = refl
widths-command (of_le_transmitter_test x0 x1 x2) = refl
widths-command of_le_test_end = refl
widths-command (of_le_remote_connection_parameter_request_reply x0 x1 x2 x3 x4 x5 x6) = refl
widths-command (of_le_remote_connection_parameter_request_negative_reply x0 x1) = refl
widths-command (of_le_set_data_length x0 x1 x2) = refl
widths-command of_le_read_maximum_data_length = refl

pub small_len : (r : Request) → leb (command r).len 60 ≡ true
unfolding command
small_len (of_disconnect x0 x1) = refl
small_len (of_read_remote_version_information x0) = refl
small_len (of_write_default_link_policy_settings x0) = refl
small_len (of_set_event_mask x0) = refl
small_len of_reset = refl
small_len (of_write_page_timeout x0) = refl
small_len (of_write_class_of_device x0) = refl
small_len (of_read_transmit_power_level x0 x1) = refl
small_len (of_host_buffer_size x0 x1 x2 x3) = refl
small_len (of_set_event_mask_page2 x0) = refl
small_len (of_write_le_host_support x0 x1) = refl
small_len (of_read_authenticated_payload_timeout x0) = refl
small_len (of_write_authenticated_payload_timeout x0 x1) = refl
small_len of_read_local_version_information = refl
small_len of_read_local_supported_commands = refl
small_len of_read_local_supported_features = refl
small_len of_read_buffer_size = refl
small_len of_read_bd_addr = refl
small_len (of_read_rssi x0) = refl
small_len (of_le_set_event_mask x0) = refl
small_len of_le_read_buffer_size = refl
small_len of_le_read_local_supported_features = refl
small_len (of_le_set_random_address x0) = refl
small_len (of_le_set_advertising_parameters x0 x1 x2 x3 x4 x5 x6 x7) = refl
small_len of_le_read_advertising_channel_tx_power = refl
small_len (of_le_set_advertising_data x0 x1) = refl
small_len (of_le_set_scan_response_data x0 x1) = refl
small_len (of_le_set_advertise_enable x0) = refl
small_len (of_le_set_scan_parameters x0 x1 x2 x3 x4) = refl
small_len (of_le_set_scan_enable x0 x1) = refl
small_len (of_le_create_connection x0 x1 x2 x3 x4 x5 x6 x7 x8 x9 x10 x11) = refl
small_len of_le_create_connection_cancel = refl
small_len of_le_read_white_list_size = refl
small_len of_le_clear_white_list = refl
small_len (of_le_add_device_to_white_list x0 x1) = refl
small_len (of_le_remove_device_from_white_list x0 x1) = refl
small_len (of_le_connection_update x0 x1 x2 x3 x4 x5 x6) = refl
small_len (of_le_set_host_channel_classification x0) = refl
small_len (of_le_read_channel_map x0) = refl
small_len (of_le_read_remote_used_features x0) = refl
small_len (of_le_encrypt x0 x1) = refl
small_len of_le_rand = refl
small_len (of_le_start_encryption x0 x1 x2 x3) = refl
small_len (of_le_long_term_key_request_reply x0 x1) = refl
small_len (of_le_long_term_key_request_negative_reply x0) = refl
small_len of_le_read_supported_states = refl
small_len (of_le_receiver_test x0) = refl
small_len (of_le_transmitter_test x0 x1 x2) = refl
small_len of_le_test_end = refl
small_len (of_le_remote_connection_parameter_request_reply x0 x1 x2 x3 x4 x5 x6) = refl
small_len (of_le_remote_connection_parameter_request_negative_reply x0 x1) = refl
small_len (of_le_set_data_length x0 x1 x2) = refl
small_len of_le_read_maximum_data_length = refl
