-- ===== src/Hci/Cmd/OpCodes.antt =====
-- linux/hci/cmd/cmd_gen.go: the op codes tell the commands apart.
use ble.Base.{ℕ, ◌≡◌, refl, sym, ap, ◌∙◌, true, List, [], ◌∷◌, leb, suc, ◌==◌, if◌then◌else◌}
use ble.Hci.Cmd.Requests.{
  Request, command, number, of_disconnect, of_read_remote_version_information,
  of_write_default_link_policy_settings, of_set_event_mask, of_reset, of_write_page_timeout,
  of_write_class_of_device, of_read_transmit_power_level, of_host_buffer_size,
  of_set_event_mask_page2, of_write_le_host_support, of_read_authenticated_payload_timeout,
  of_write_authenticated_payload_timeout, of_read_local_version_information,
  of_read_local_supported_commands, of_read_local_supported_features, of_read_buffer_size,
  of_read_bd_addr, of_read_rssi, of_le_set_event_mask, of_le_read_buffer_size,
  of_le_read_local_supported_features, of_le_set_random_address, of_le_set_advertising_parameters,
  of_le_read_advertising_channel_tx_power, of_le_set_advertising_data, of_le_set_scan_response_data,
  of_le_set_advertise_enable, of_le_set_scan_parameters, of_le_set_scan_enable,
  of_le_create_connection, of_le_create_connection_cancel, of_le_read_white_list_size,
  of_le_clear_white_list, of_le_add_device_to_white_list, of_le_remove_device_from_white_list,
  of_le_connection_update, of_le_set_host_channel_classification, of_le_read_channel_map,
  of_le_read_remote_used_features, of_le_encrypt, of_le_rand, of_le_start_encryption,
  of_le_long_term_key_request_reply, of_le_long_term_key_request_negative_reply,
  of_le_read_supported_states, of_le_receiver_test, of_le_transmitter_test, of_le_test_end,
  of_le_remote_connection_parameter_request_reply,
  of_le_remote_connection_parameter_request_negative_reply, of_le_set_data_length,
  of_le_read_maximum_data_length,
}

abbrev op_codes : List ℕ
op_codes =
    1030 ∷ 1053 ∷ 2061 ∷ 3073 ∷ 3075 ∷ 3096 ∷ 3108 ∷ 3117 ∷ 3123 ∷ 3171 ∷ 3181 ∷ 3195 ∷ 1148 ∷ 4097
    ∷ 4098 ∷ 4099 ∷ 4101 ∷ 4105 ∷ 5125 ∷ 8193 ∷ 8194 ∷ 8195 ∷ 8197 ∷ 8198 ∷ 8199 ∷ 8200 ∷ 8201
    ∷ 8202 ∷ 8203 ∷ 8204 ∷ 8205 ∷ 8206 ∷ 8207 ∷ 8208 ∷ 8209 ∷ 8210 ∷ 8211 ∷ 8212 ∷ 8213 ∷ 8214
    ∷ 8215 ∷ 8216 ∷ 8217 ∷ 8218 ∷ 8219 ∷ 8220 ∷ 8221 ∷ 8222 ∷ 8223 ∷ 8224 ∷ 8225 ∷ 8226 ∷ 8239 ∷ []

unfoldable position : ℕ → List ℕ → ℕ
position c [] = 0
position c (d ∷ ds) = let rest = position c ds in if c == d then 0 else suc rest

position-op_code : (r : Request) → position (command r).op_code op_codes ≡ number r
unfolding command number position
position-op_code (of_disconnect x0 x1) = refl
position-op_code (of_read_remote_version_information x0) = refl
position-op_code (of_write_default_link_policy_settings x0) = refl
position-op_code (of_set_event_mask x0) = refl
position-op_code of_reset = refl
position-op_code (of_write_page_timeout x0) = refl
position-op_code (of_write_class_of_device x0) = refl
position-op_code (of_read_transmit_power_level x0 x1) = refl
position-op_code (of_host_buffer_size x0 x1 x2 x3) = refl
position-op_code (of_set_event_mask_page2 x0) = refl
position-op_code (of_write_le_host_support x0 x1) = refl
position-op_code (of_read_authenticated_payload_timeout x0) = refl
position-op_code (of_write_authenticated_payload_timeout x0 x1) = refl
position-op_code of_read_local_version_information = refl
position-op_code of_read_local_supported_commands = refl
position-op_code of_read_local_supported_features = refl
position-op_code of_read_buffer_size = refl
position-op_code of_read_bd_addr = refl
position-op_code (of_read_rssi x0) = refl
position-op_code (of_le_set_event_mask x0) = refl
position-op_code of_le_read_buffer_size = refl
position-op_code of_le_read_local_supported_features = refl
position-op_code (of_le_set_random_address x0) = refl
position-op_code (of_le_set_advertising_parameters x0 x1 x2 x3 x4 x5 x6 x7) = refl
position-op_code of_le_read_advertising_channel_tx_power = refl
position-op_code (of_le_set_advertising_data x0 x1) = refl
position-op_code (of_le_set_scan_response_data x0 x1) = refl
position-op_code (of_le_set_advertise_enable x0) = refl
position-op_code (of_le_set_scan_parameters x0 x1 x2 x3 x4) = refl
position-op_code (of_le_set_scan_enable x0 x1) = refl
position-op_code (of_le_create_connection x0 x1 x2 x3 x4 x5 x6 x7 x8 x9 x10 x11) = refl
position-op_code of_le_create_connection_cancel = refl
position-op_code of_le_read_white_list_size = refl
position-op_code of_le_clear_white_list = refl
position-op_code (of_le_add_device_to_white_list x0 x1) = refl
position-op_code (of_le_remove_device_from_white_list x0 x1) = refl
position-op_code (of_le_connection_update x0 x1 x2 x3 x4 x5 x6) = refl
position-op_code (of_le_set_host_channel_classification x0) = refl
position-op_code (of_le_read_channel_map x0) = refl
position-op_code (of_le_read_remote_used_features x0) = refl
position-op_code (of_le_encrypt x0 x1) = refl
position-op_code of_le_rand = refl
position-op_code (of_le_start_encryption x0 x1 x2 x3) = refl
position-op_code (of_le_long_term_key_request_reply x0 x1) = refl
position-op_code (of_le_long_term_key_request_negative_reply x0) = refl
position-op_code of_le_read_supported_states = refl
position-op_code (of_le_receiver_test x0) = refl
position-op_code (of_le_transmitter_test x0 x1 x2) = refl
position-op_code of_le_test_end = refl
position-op_code (of_le_remote_connection_parameter_request_reply x0 x1 x2 x3 x4 x5 x6) = refl
position-op_code (of_le_remote_connection_parameter_request_negative_reply x0 x1) = refl
position-op_code (of_le_set_data_length x0 x1 x2) = refl
position-op_code of_le_read_maximum_data_length = refl

pub small_op_code : (r : Request) → leb (command r).op_code 65535 ≡ true
unfolding command
small_op_code (of_disconnect x0 x1) = refl
small_op_code (of_read_remote_version_information x0) = refl
small_op_code (of_write_default_link_policy_settings x0) = refl
small_op_code (of_set_event_mask x0) = refl
small_op_code of_reset = refl
small_op_code (of_write_page_timeout x0) = refl
small_op_code (of_write_class_of_device x0) = refl
small_op_code (of_read_transmit_power_level x0 x1) = refl
small_op_code (of_host_buffer_size x0 x1 x2 x3) = refl
small_op_code (of_set_event_mask_page2 x0) = refl
small_op_code (of_write_le_host_support x0 x1) = refl
small_op_code (of_read_authenticated_payload_timeout x0) = refl
small_op_code (of_write_authenticated_payload_timeout x0 x1) = refl
small_op_code of_read_local_version_information = refl
small_op_code of_read_local_supported_commands = refl
small_op_code of_read_local_supported_features = refl
small_op_code of_read_buffer_size = refl
small_op_code of_read_bd_addr = refl
small_op_code (of_read_rssi x0) = refl
small_op_code (of_le_set_event_mask x0) = refl
small_op_code of_le_read_buffer_size = refl
small_op_code of_le_read_local_supported_features = refl
small_op_code (of_le_set_random_address x0) = refl
small_op_code (of_le_set_advertising_parameters x0 x1 x2 x3 x4 x5 x6 x7) = refl
small_op_code of_le_read_advertising_channel_tx_power = refl
small_op_code (of_le_set_advertising_data x0 x1) = refl
small_op_code (of_le_set_scan_response_data x0 x1) = refl
small_op_code (of_le_set_advertise_enable x0) = refl
small_op_code (of_le_set_scan_parameters x0 x1 x2 x3 x4) = refl
small_op_code (of_le_set_scan_enable x0 x1) = refl
small_op_code (of_le_create_connection x0 x1 x2 x3 x4 x5 x6 x7 x8 x9 x10 x11) = refl
small_op_code of_le_create_connection_cancel = refl
small_op_code of_le_read_white_list_size = refl
small_op_code of_le_clear_white_list = refl
small_op_code (of_le_add_device_to_white_list x0 x1) = refl
small_op_code (of_le_remove_device_from_white_list x0 x1) = refl
small_op_code (of_le_connection_update x0 x1 x2 x3 x4 x5 x6) = refl
small_op_code (of_le_set_host_channel_classification x0) = refl
small_op_code (of_le_read_channel_map x0) = refl
small_op_code (of_le_read_remote_used_features x0) = refl
small_op_code (of_le_encrypt x0 x1) = refl
small_op_code of_le_rand = refl
small_op_code (of_le_start_encryption x0 x1 x2 x3) = refl
small_op_code (of_le_long_term_key_request_reply x0 x1) = refl
small_op_code (of_le_long_term_key_request_negative_reply x0) = refl
small_op_code of_le_read_supported_states = refl
small_op_code (of_le_receiver_test x0) = refl
small_op_code (of_le_transmitter_test x0 x1 x2) = refl
small_op_code of_le_test_end = refl
small_op_code (of_le_remote_connection_parameter_request_reply x0 x1 x2 x3 x4 x5 x6) = refl
small_op_code (of_le_remote_connection_parameter_request_negative_reply x0 x1) = refl
small_op_code (of_le_set_data_length x0 x1 x2) = refl
small_op_code of_le_read_maximum_data_length = refl

pub op_code-Distinct :
    (r s : Request) → (command r).op_code ≡ (command s).op_code → number r ≡ number s
op_code-Distinct r s same =
    sym (position-op_code r) ∙ ap (λ c. position c op_codes) same ∙ position-op_code s
