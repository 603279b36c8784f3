-- ===== src/Hci/Cmd/Control.antt =====
-- linux/hci/cmd/cmd_gen.go: the link control, link policy and baseband commands, and the layout of what they return.
use ble.Base.{ℕ, ◌+◌, ◌*◌, List, [], ◌∷◌}
use ble.Hci.Cmd.Wire.{Command, Kind, u8, u16, u64, array, byte, word}

abbrev pub disconnect : ℕ → ℕ → Command
disconnect connection_handle reason = record {
  text = "Disconnect (0x01|0x0006)";
  op_code = 0x01 * 1024 + 0x0006;
  len = 3;
  fields = u16 connection_handle ∷ u8 reason ∷ [];
}

abbrev pub read_remote_version_information : ℕ → Command
read_remote_version_information connection_handle = record {
  text = "Read Remote Version Information (0x01|0x001D)";
  op_code = 0x01 * 1024 + 0x001d;
  len = 2;
  fields = u16 connection_handle ∷ [];
}

abbrev pub write_default_link_policy_settings : ℕ → Command
write_default_link_policy_settings default_link_policy_settings = record {
  text = "Write Default Link Policy Settings (0x02|0x000D)";
  op_code = 0x02 * 1024 + 0x000d;
  len = 2;
  fields = u16 default_link_policy_settings ∷ [];
}

abbrev pub write_default_link_policy_settings_rp : List Kind
write_default_link_policy_settings_rp = byte ∷ []

abbrev pub set_event_mask : ℕ → Command
set_event_mask event_mask = record {
  text = "Set Event Mask (0x03|0x0001)";
  op_code = 0x03 * 1024 + 0x0001;
  len = 8;
  fields = u64 event_mask ∷ [];
}

abbrev pub set_event_mask_rp : List Kind
set_event_mask_rp = byte ∷ []

abbrev pub reset : Command
reset = record { text = "Reset (0x03|0x003)"; op_code = 0x03 * 1024 + 0x003; len = 0; fields = [] }

abbrev pub reset_rp : List Kind
reset_rp = byte ∷ []

abbrev pub write_page_timeout : ℕ → Command
write_page_timeout page_timeout = record {
  text = "Write Page Timeout (0x03|0x0018)";
  op_code = 0x03 * 1024 + 0x0018;
  len = 2;
  fields = u16 page_timeout ∷ [];
}

abbrev pub write_page_timeout_rp : List Kind
write_page_timeout_rp = byte ∷ []

abbrev pub write_class_of_device : List ℕ → Command
write_class_of_device class_of_device = record {
  text = "Write Class Of Device (0x03|0x0024)";
  op_code = 0x03 * 1024 + 0x0024;
  len = 3;
  fields = array 3 class_of_device ∷ [];
}

abbrev pub write_class_of_device_rp : List Kind
write_class_of_device_rp = byte ∷ []

abbrev pub read_transmit_power_level : ℕ → ℕ → Command
read_transmit_power_level connection_handle type = record {
  text = "Read Transmit Power Level (0x03|0x002D)";
  op_code = 0x03 * 1024 + 0x002d;
  len = 3;
  fields = u16 connection_handle ∷ u8 type ∷ [];
}

abbrev pub read_transmit_power_level_rp : List Kind
read_transmit_power_level_rp = byte ∷ word ∷ []

abbrev pub host_buffer_size : ℕ → ℕ → ℕ → ℕ → Command
host_buffer_size host_acl_data_packet_length host_synchronous_data_packet_length
      host_total_num_acl_data_packets host_total_num_synchronous_data_packets =
    record {
      text = "Host Buffer Size (0x03|0x0033)";
      op_code = 0x03 * 1024 + 0x0033;
      len = 7;
      fields =
          u16 host_acl_data_packet_length
          ∷ u8 host_synchronous_data_packet_length
          ∷ u16 host_total_num_acl_data_packets
          ∷ u16 host_total_num_synchronous_data_packets
          ∷ [];
    }

abbrev pub host_buffer_size_rp : List Kind
host_buffer_size_rp = byte ∷ []

abbrev pub set_event_mask_page2 : ℕ → Command
set_event_mask_page2 event_mask_page2 = record {
  text = "Set Event Mask Page 2 (0x03|0x0063)";
  op_code = 0x03 * 1024 + 0x0063;
  len = 8;
  fields = u64 event_mask_page2 ∷ [];
}

abbrev pub set_event_mask_page2_rp : List Kind
set_event_mask_page2_rp = byte ∷ []

abbrev pub write_le_host_support : ℕ → ℕ → Command
write_le_host_support le_supported_host simultaneous_le_host = record {
  text = "Write LE Host Support (0x03|0x006D)";
  op_code = 0x03 * 1024 + 0x006d;
  len = 2;
  fields = u8 le_supported_host ∷ u8 simultaneous_le_host ∷ [];
}

abbrev pub write_le_host_support_rp : List Kind
write_le_host_support_rp = byte ∷ []

abbrev pub read_authenticated_payload_timeout : ℕ → Command
read_authenticated_payload_timeout connection_handle = record {
  text = "Read Authenticated Payload Timeout (0x03|0x007B)";
  op_code = 0x03 * 1024 + 0x007b;
  len = 2;
  fields = u16 connection_handle ∷ [];
}

abbrev pub read_authenticated_payload_timeout_rp : List Kind
read_authenticated_payload_timeout_rp = byte ∷ word ∷ word ∷ []

abbrev pub write_authenticated_payload_timeout : ℕ → ℕ → Command
write_authenticated_payload_timeout connection_handle authenticated_payload_timeout = record {
  text = "Write Authenticated Payload Timeout (0x01|0x007C)";
  op_code = 0x01 * 1024 + 0x007c;
  len = 4;
  fields = u16 connection_handle ∷ u16 authenticated_payload_timeout ∷ [];
}

abbrev pub write_authenticated_payload_timeout_rp : List Kind
write_authenticated_payload_timeout_rp = byte ∷ word ∷ []
