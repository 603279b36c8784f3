-- ===== src/Hci/Cmd/LeSetup.antt =====
-- linux/hci/cmd/cmd_gen.go: the LE commands, the first half, and the layout of what they return.
use ble.Base.{ℕ, ◌+◌, ◌*◌, List, [], ◌∷◌}
use ble.Hci.Cmd.Wire.{Command, Kind, u8, u16, u64, array, byte, word, quad}

abbrev pub le_set_event_mask : ℕ → Command
le_set_event_mask le_event_mask = record {
  text = "LE Set Event Mask (0x08|0x0001)";
  op_code = 0x08 * 1024 + 0x0001;
  len = 8;
  fields = u64 le_event_mask ∷ [];
}

abbrev pub le_set_event_mask_rp : List Kind
le_set_event_mask_rp = byte ∷ []

abbrev pub le_read_buffer_size : Command
le_read_buffer_size = record {
  text = "LE Read Buffer Size (0x08|0x0002)";
  op_code = 0x08 * 1024 + 0x0002;
  len = 0;
  fields = [];
}

abbrev pub le_read_buffer_size_rp : List Kind
le_read_buffer_size_rp = byte ∷ word ∷ byte ∷ []

abbrev pub le_read_local_supported_features : Command
le_read_local_supported_features = record {
  text = "LE Read Local Supported Features (0x08|0x0003)";
  op_code = 0x08 * 1024 + 0x0003;
  len = 0;
  fields = [];
}

abbrev pub le_read_local_supported_features_rp : List Kind
le_read_local_supported_features_rp = byte ∷ quad ∷ []

abbrev pub le_set_random_address : List ℕ → Command
le_set_random_address random_address = record {
  text = "LE Set Random Address (0x08|0x0005)";
  op_code = 0x08 * 1024 + 0x0005;
  len = 6;
  fields = array 6 random_address ∷ [];
}

abbrev pub le_set_random_address_rp : List Kind
le_set_random_address_rp = byte ∷ []

abbrev pub le_set_advertising_parameters : ℕ → ℕ → ℕ → ℕ → ℕ → List ℕ → ℕ → ℕ → Command
le_set_advertising_parameters advertising_interval_min advertising_interval_max advertising_type
      own_address_type direct_address_type direct_address advertising_channel_map
      advertising_filter_policy =
    record {
      text = "LE Set Advertising Parameters (0x08|0x0006)";
      op_code = 0x08 * 1024 + 0x0006;
      len = 15;
      fields =
          u16 advertising_interval_min
          ∷ u16 advertising_interval_max
          ∷ u8 advertising_type
          ∷ u8 own_address_type
          ∷ u8 direct_address_type
          ∷ array 6 direct_address
          ∷ u8 advertising_channel_map
          ∷ u8 advertising_filter_policy
          ∷ [];
    }

abbrev pub le_set_advertising_parameters_rp : List Kind
le_set_advertising_parameters_rp = byte ∷ []

abbrev pub le_read_advertising_channel_tx_power : Command
le_read_advertising_channel_tx_power = record {
  text = "LE Read Advertising Channel Tx Power (0x08|0x0007)";
  op_code = 0x08 * 1024 + 0x0007;
  len = 0;
  fields = [];
}

abbrev pub le_read_advertising_channel_tx_power_rp : List Kind
le_read_advertising_channel_tx_power_rp = byte ∷ byte ∷ []

abbrev pub le_set_advertising_data : ℕ → List ℕ → Command
le_set_advertising_data advertising_data_length advertising_data = record {
  text = "LE Set Advertising Data (0x08|0x0008)";
  op_code = 0x08 * 1024 + 0x0008;
  len = 32;
  fields = u8 advertising_data_length ∷ array 31 advertising_data ∷ [];
}

abbrev pub le_set_advertising_data_rp : List Kind
le_set_advertising_data_rp = byte ∷ word ∷ byte ∷ []

abbrev pub le_set_scan_response_data : ℕ → List ℕ → Command
le_set_scan_response_data scan_response_data_length scan_response_data = record {
  text = "LE Set Scan Response Data (0x08|0x0009)";
  op_code = 0x08 * 1024 + 0x0009;
  len = 32;
  fields = u8 scan_response_data_length ∷ array 31 scan_response_data ∷ [];
}

abbrev pub le_set_scan_response_data_rp : List Kind
le_set_scan_response_data_rp = byte ∷ []

abbrev pub le_set_advertise_enable : ℕ → Command
le_set_advertise_enable advertising_enable = record {
  text = "LE Set Advertise Enable (0x08|0x000A)";
  op_code = 0x08 * 1024 + 0x000a;
  len = 1;
  fields = u8 advertising_enable ∷ [];
}

abbrev pub le_set_advertise_enable_rp : List Kind
le_set_advertise_enable_rp = byte ∷ []

abbrev pub le_set_scan_parameters : ℕ → ℕ → ℕ → ℕ → ℕ → Command
le_set_scan_parameters le_scan_type le_scan_interval le_scan_window own_address_type
      scanning_filter_policy =
    record {
      text = "LE Set Scan Parameters (0x08|0x000B)";
      op_code = 0x08 * 1024 + 0x000b;
      len = 7;
      fields =
          u8 le_scan_type
          ∷ u16 le_scan_interval
          ∷ u16 le_scan_window
          ∷ u8 own_address_type
          ∷ u8 scanning_filter_policy
          ∷ [];
    }

abbrev pub le_set_scan_parameters_rp : List Kind
le_set_scan_parameters_rp = byte ∷ []

abbrev pub le_set_scan_enable : ℕ → ℕ → Command
le_set_scan_enable le_scan_enable filter_duplicates = record {
  text = "LE Set Scan Enable (0x08|0x000C)";
  op_code = 0x08 * 1024 + 0x000c;
  len = 2;
  fields = u8 le_scan_enable ∷ u8 filter_duplicates ∷ [];
}

abbrev pub le_set_scan_enable_rp : List Kind
le_set_scan_enable_rp = byte ∷ []

abbrev pub le_create_connection : ℕ → ℕ → ℕ → ℕ → List ℕ → ℕ → ℕ → ℕ → ℕ → ℕ → ℕ → ℕ → Command
le_create_connection le_scan_interval le_scan_window initiator_filter_policy peer_address_type
      peer_address own_address_type conn_interval_min conn_interval_max conn_latency
      supervision_timeout minimum_ce_length maximum_ce_length =
    record {
      text = "LE Create Connection (0x08|0x000D)";
      op_code = 0x08 * 1024 + 0x000d;
      len = 25;
      fields =
          u16 le_scan_interval
          ∷ u16 le_scan_window
          ∷ u8 initiator_filter_policy
          ∷ u8 peer_address_type
          ∷ array 6 peer_address
          ∷ u8 own_address_type
          ∷ u16 conn_interval_min
          ∷ u16 conn_interval_max
          ∷ u16 conn_latency
          ∷ u16 supervision_timeout
          ∷ u16 minimum_ce_length
          ∷ u16 maximum_ce_length
          ∷ [];
    }

abbrev pub le_create_connection_cancel : Command
le_create_connection_cancel = record {
  text = "LE Create Connection Cancel (0x08|0x000E)";
  op_code = 0x08 * 1024 + 0x000e;
  len = 0;
  fields = [];
}

abbrev pub le_create_connection_cancel_rp : List Kind
le_create_connection_cancel_rp = byte ∷ []

abbrev pub le_read_white_list_size : Command
le_read_white_list_size = record {
  text = "LE Read White List Size (0x08|0x000F)";
  op_code = 0x08 * 1024 + 0x000f;
  len = 0;
  fields = [];
}

abbrev pub le_read_white_list_size_rp : List Kind
le_read_white_list_size_rp = byte ∷ byte ∷ []

abbrev pub le_clear_white_list : Command
le_clear_white_list = record {
  text = "LE Clear White List (0x08|0x0010)";
  op_code = 0x08 * 1024 + 0x0010;
  len = 0;
  fields = [];
}

abbrev pub le_clear_white_list_rp : List Kind
le_clear_white_list_rp = byte ∷ []

abbrev pub le_add_device_to_white_list : ℕ → List ℕ → Command
le_add_device_to_white_list address_type address = record {
  text = "LE Add Device To White List (0x08|0x0011)";
  op_code = 0x08 * 1024 + 0x0011;
  len = 7;
  fields = u8 address_type ∷ array 6 address ∷ [];
}

abbrev pub le_add_device_to_white_list_rp : List Kind
le_add_device_to_white_list_rp = byte ∷ []

abbrev pub le_remove_device_from_white_list : ℕ → List ℕ → Command
le_remove_device_from_white_list address_type address = record {
  text = "LE Remove Device From White List (0x08|0x0012)";
  op_code = 0x08 * 1024 + 0x0012;
  len = 7;
  fields = u8 address_type ∷ array 6 address ∷ [];
}

abbrev pub le_remove_device_from_white_list_rp : List Kind
le_remove_device_from_white_list_rp = byte ∷ []
