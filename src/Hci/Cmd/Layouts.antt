-- ===== src/Hci/Cmd/Layouts.antt =====
-- linux/hci/cmd/cmd_gen.go: the layout of each command, by its number.
use ble.Base.{◌≡◌, refl, sym, ap, ◌∙◌, List, [], ◌∷◌, map, get_or}
use ble.Hci.Cmd.Wire.{Kind, byte, word, quad, block}
use ble.Hci.Cmd.RoundTrip.{kind_of}
use ble.Hci.Cmd.Requests.{
  Request, command, number, of_disconnect, of_read_remote_version_information,
  of_write_default_link_policy_settings, of_set_event_mask, of_reset, of_write_page_timeout,
  of_write_class_of_device, of_read_transmit_power_level, of_host_buffer_size,
  of_set_event_mask_page2, of_write_le_host_support, of_read_authenticated_payload_timeout,
  of_write_authenticated_payload_timeout, of_read_local_version_information,
  of_read_local_supported_commands, of_read_local_supported_features, of_read_buffer_size,
  of_read_bd_addr, of_read_rssi, of_le_set_event_mask, of_le_read_buffer_size,
  of_le_read_local_supported_features, of_le_set_random_address, of_le_set_advertising_parameters,
  of_le_read_advertising_channel_tx_power, of_le_set_advertising_data, of_le_set_scan_response_data,
  of_le_set_advertise_enable, of_le_set_scan_parameters, of_le_set_scan_enable,
  of_le_create_connection, of_le_create_connection_cancel, of_le_read_white_list_size,
  of_le_clear_white_list, of_le_add_device_to_white_list, of_le_remove_device_from_white_list,
  of_le_connection_update, of_le_set_host_channel_classification, of_le_read_channel_map,
  of_le_read_remote_used_features, of_le_encrypt, of_le_rand, of_le_start_encryption,
  of_le_long_term_key_request_reply, of_le_long_term_key_request_negative_reply,
  of_le_read_supported_states, of_le_receiver_test, of_le_transmitter_test, of_le_test_end,
  of_le_remote_connection_parameter_request_reply,
  of_le_remote_connection_parameter_request_negative_reply, of_le_set_data_length,
  of_le_read_maximum_data_length,
}

abbrev layouts : List (List Kind)
layouts =
    (word ∷ byte ∷ [])
    ∷ (word ∷ [])
    ∷ (word ∷ [])
    ∷ (quad ∷ [])
    ∷ ([])
    ∷ (word ∷ [])
    ∷ (block 3 ∷ [])
    ∷ (word ∷ byte ∷ [])
    ∷ (word ∷ byte ∷ word ∷ word ∷ [])
    ∷ (quad ∷ [])
    ∷ (byte ∷ byte ∷ [])
    ∷ (word ∷ [])
    ∷ (word ∷ word ∷ [])
    ∷ ([])
    ∷ ([])
    ∷ ([])
    ∷ ([])
    ∷ ([])
    ∷ (word ∷ [])
    ∷ (quad ∷ [])
    ∷ ([])
    ∷ ([])
    ∷ (block 6 ∷ [])
    ∷ (word ∷ word ∷ byte ∷ byte ∷ byte ∷ block 6 ∷ byte ∷ byte ∷ [])
    ∷ ([])
    ∷ (byte ∷ block 31 ∷ [])
    ∷ (byte ∷ block 31 ∷ [])
    ∷ (byte ∷ [])
    ∷ (byte ∷ word ∷ word ∷ byte ∷ byte ∷ [])
    ∷ (byte ∷ byte ∷ [])
    ∷ (word ∷ word ∷ byte ∷ byte ∷ block 6 ∷ byte ∷ word ∷ word ∷ word ∷ word ∷ word ∷ word ∷ [])
    ∷ ([])
    ∷ ([])
    ∷ ([])
    ∷ (byte ∷ block 6 ∷ [])
    ∷ (byte ∷ block 6 ∷ [])
    ∷ (word ∷ word ∷ word ∷ word ∷ word ∷ word ∷ word ∷ [])
    ∷ (block 5 ∷ [])
    ∷ (word ∷ [])
    ∷ (word ∷ [])
    ∷ (block 16 ∷ block 16 ∷ [])
    ∷ ([])
    ∷ (word ∷ quad ∷ word ∷ block 16 ∷ [])
    ∷ (word ∷ block 16 ∷ [])
    ∷ (word ∷ [])
    ∷ ([])
    ∷ (byte ∷ [])
    ∷ (byte ∷ byte ∷ byte ∷ [])
    ∷ ([])
    ∷ (word ∷ word ∷ word ∷ word ∷ word ∷ word ∷ word ∷ [])
    ∷ (word ∷ byte ∷ [])
    ∷ (word ∷ word ∷ word ∷ [])
    ∷ ([])
    ∷ []

layout-number : (r : Request) → map kind_of (command r).fields ≡ get_or layouts (number r) []
unfolding command number
layout-number (of_disconnect x0 x1) = refl
layout-number (of_read_remote_version_information x0) = refl
layout-number (of_write_default_link_policy_settings x0) = refl
layout-number (of_set_event_mask x0) = refl
layout-number of_reset = refl
layout-number (of_write_page_timeout x0) = refl
layout-number (of_write_class_of_device x0) = refl
layout-number (of_read_transmit_power_level x0 x1) = refl
layout-number (of_host_buffer_size x0 x1 x2 x3) = refl
layout-number (of_set_event_mask_page2 x0) = refl
layout-number (of_write_le_host_support x0 x1) = refl
layout-number (of_read_authenticated_payload_timeout x0) = refl
layout-number (of_write_authenticated_payload_timeout x0 x1) = refl
layout-number of_read_local_version_information = refl
layout-number of_read_local_supported_commands = refl
layout-number of_read_local_supported_features = refl
layout-number of_read_buffer_size = refl
layout-number of_read_bd_addr = refl
layout-number (of_read_rssi x0) = refl
layout-number (of_le_set_event_mask x0) = refl
layout-number of_le_read_buffer_size = refl
layout-number of_le_read_local_supported_features = refl
layout-number (of_le_set_random_address x0) = refl
layout-number (of_le_set_advertising_parameters x0 x1 x2 x3 x4 x5 x6 x7) = refl
layout-number of_le_read_advertising_channel_tx_power = refl
layout-number (of_le_set_advertising_data x0 x1) = refl
layout-number (of_le_set_scan_response_data x0 x1) = refl
layout-number (of_le_set_advertise_enable x0) = refl
layout-number (of_le_set_scan_parameters x0 x1 x2 x3 x4) = refl
layout-number (of_le_set_scan_enable x0 x1) = refl
layout-number (of_le_create_connection x0 x1 x2 x3 x4 x5 x6 x7 x8 x9 x10 x11) = refl
layout-number of_le_create_connection_cancel = refl
layout-number of_le_read_white_list_size = refl
layout-number of_le_clear_white_list = refl
layout-number (of_le_add_device_to_white_list x0 x1) = refl
layout-number (of_le_remove_device_from_white_list x0 x1) = refl
layout-number (of_le_connection_update x0 x1 x2 x3 x4 x5 x6) = refl
layout-number (of_le_set_host_channel_classification x0) = refl
layout-number (of_le_read_channel_map x0) = refl
layout-number (of_le_read_remote_used_features x0) = refl
layout-number (of_le_encrypt x0 x1) = refl
layout-number of_le_rand = refl
layout-number (of_le_start_encryption x0 x1 x2 x3) = refl
layout-number (of_le_long_term_key_request_reply x0 x1) = refl
layout-number (of_le_long_term_key_request_negative_reply x0) = refl
layout-number of_le_read_supported_states = refl
layout-number (of_le_receiver_test x0) = refl
layout-number (of_le_transmitter_test x0 x1 x2) = refl
layout-number of_le_test_end = refl
layout-number (of_le_remote_connection_parameter_request_reply x0 x1 x2 x3 x4 x5 x6) = refl
layout-number (of_le_remote_connection_parameter_request_negative_reply x0 x1) = refl
layout-number (of_le_set_data_length x0 x1 x2) = refl
layout-number of_le_read_maximum_data_length = refl

pub same_layout :
    (r s : Request)
    → number r ≡ number s
    → map kind_of (command r).fields ≡ map kind_of (command s).fields
same_layout r s same = layout-number r ∙ ap (λ n. get_or layouts n []) same ∙ sym (layout-number s)
