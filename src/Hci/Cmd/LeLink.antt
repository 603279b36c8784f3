-- ===== src/Hci/Cmd/LeLink.antt =====
-- linux/hci/cmd/cmd_gen.go: the LE commands, the second half, and the layout of what they return.
use ble.Base.{ℕ, ◌+◌, ◌*◌, List, [], ◌∷◌}
use ble.Hci.Cmd.Wire.{Command, Kind, u8, u16, u64, array, byte, word, quad, block}

abbrev pub le_connection_update : ℕ → ℕ → ℕ → ℕ → ℕ → ℕ → ℕ → Command
le_connection_update connection_handle conn_interval_min conn_interval_max conn_latency
      supervision_timeout minimum_ce_length maximum_ce_length =
    record {
      text = "LE Connection Update (0x08|0x0013)";
      op_code = 0x08 * 1024 + 0x0013;
      len = 14;
      fields =
          u16 connection_handle
          ∷ u16 conn_interval_min
          ∷ u16 conn_interval_max
          ∷ u16 conn_latency
          ∷ u16 supervision_timeout
          ∷ u16 minimum_ce_length
          ∷ u16 maximum_ce_length
          ∷ [];
    }

abbrev pub le_set_host_channel_classification : List ℕ → Command
le_set_host_channel_classification channel_map = record {
  text = "LE Set Host Channel Classification (0x08|0x0014)";
  op_code = 0x08 * 1024 + 0x0014;
  len = 5;
  fields = array 5 channel_map ∷ [];
}

abbrev pub le_set_host_channel_classification_rp : List Kind
le_set_host_channel_classification_rp = byte ∷ []

abbrev pub le_read_channel_map : ℕ → Command
le_read_channel_map connection_handle = record {
  text = "LE Read Channel Map (0x08|0x0015)";
  op_code = 0x08 * 1024 + 0x0015;
  len = 2;
  fields = u16 connection_handle ∷ [];
}

abbrev pub le_read_channel_map_rp : List Kind
le_read_channel_map_rp = byte ∷ word ∷ block 5 ∷ []

abbrev pub le_read_remote_used_features : ℕ → Command
le_read_remote_used_features connection_handle = record {
  text = "LE Read Remote Used Features (0x08|0x0016)";
  op_code = 0x08 * 1024 + 0x0016;
  len = 2;
  fields = u16 connection_handle ∷ [];
}

abbrev pub le_encrypt : List ℕ → List ℕ → Command
le_encrypt key plaintext_data = record {
  text = "LE Encrypt (0x08|0x0017)";
  op_code = 0x08 * 1024 + 0x0017;
  len = 32;
  fields = array 16 key ∷ array 16 plaintext_data ∷ [];
}

abbrev pub le_encrypt_rp : List Kind
le_encrypt_rp = byte ∷ block 16 ∷ []

abbrev pub le_rand : Command
le_rand = record {
  text = "LE Rand (0x08|0x0018)";
  op_code = 0x08 * 1024 + 0x0018;
  len = 0;
  fields = [];
}

abbrev pub le_rand_rp : List Kind
le_rand_rp = byte ∷ quad ∷ []

abbrev pub le_start_encryption : ℕ → ℕ → ℕ → List ℕ → Command
le_start_encryption connection_handle random_number encrypted_diversifier long_term_key = record {
  text = "LE Start Encryption (0x08|0x0019)";
  op_code = 0x08 * 1024 + 0x0019;
  len = 28;
  fields =
      u16 connection_handle
      ∷ u64 random_number
      ∷ u16 encrypted_diversifier
      ∷ array 16 long_term_key
      ∷ [];
}

abbrev pub le_long_term_key_request_reply : ℕ → List ℕ → Command
le_long_term_key_request_reply connection_handle long_term_key = record {
  text = "LE Long Term Key Request Reply (0x08|0x001A)";
  op_code = 0x08 * 1024 + 0x001a;
  len = 18;
  fields = u16 connection_handle ∷ array 16 long_term_key ∷ [];
}

abbrev pub le_long_term_key_request_reply_rp : List Kind
le_long_term_key_request_reply_rp = byte ∷ word ∷ []

abbrev pub le_long_term_key_request_negative_reply : ℕ → Command
le_long_term_key_request_negative_reply connection_handle = record {
  text = "LE Long Term Key Request Negative Reply (0x08|0x001B)";
  op_code = 0x08 * 1024 + 0x001b;
  len = 2;
  fields = u16 connection_handle ∷ [];
}

abbrev pub le_long_term_key_request_negative_reply_rp : List Kind
le_long_term_key_request_negative_reply_rp = byte ∷ word ∷ []

abbrev pub le_read_supported_states : Command
le_read_supported_states = record {
  text = "LE Read Supported States (0x08|0x001C)";
  op_code = 0x08 * 1024 + 0x001c;
  len = 0;
  fields = [];
}

abbrev pub le_read_supported_states_rp : List Kind
le_read_supported_states_rp = byte ∷ quad ∷ []

abbrev pub le_receiver_test : ℕ → Command
le_receiver_test rx_channel = record {
  text = "LE Receiver Test (0x08|0x001D)";
  op_code = 0x08 * 1024 + 0x001d;
  len = 1;
  fields = u8 rx_channel ∷ [];
}

abbrev pub le_receiver_test_rp : List Kind
le_receiver_test_rp = byte ∷ []

abbrev pub le_transmitter_test : ℕ → ℕ → ℕ → Command
le_transmitter_test tx_channel length_of_test_data packet_payload = record {
  text = "LE Transmitter Test (0x08|0x001E)";
  op_code = 0x08 * 1024 + 0x001e;
  len = 3;
  fields = u8 tx_channel ∷ u8 length_of_test_data ∷ u8 packet_payload ∷ [];
}

abbrev pub le_transmitter_test_rp : List Kind
le_transmitter_test_rp = byte ∷ []

abbrev pub le_test_end : Command
le_test_end = record {
  text = "LE Test End (0x08|0x001F)";
  op_code = 0x08 * 1024 + 0x001f;
  len = 0;
  fields = [];
}

abbrev pub le_test_end_rp : List Kind
le_test_end_rp = byte ∷ word ∷ []

abbrev pub le_remote_connection_parameter_request_reply : ℕ → ℕ → ℕ → ℕ → ℕ → ℕ → ℕ → Command
le_remote_connection_parameter_request_reply connection_handle interval_min interval_max latency
      timeout minimum_ce_length maximum_ce_length =
    record {
      text = "LE Remote Connection Parameter Request Reply (0x08|0x0020)";
      op_code = 0x08 * 1024 + 0x0020;
      len = 14;
      fields =
          u16 connection_handle
          ∷ u16 interval_min
          ∷ u16 interval_max
          ∷ u16 latency
          ∷ u16 timeout
          ∷ u16 minimum_ce_length
          ∷ u16 maximum_ce_length
          ∷ [];
    }

abbrev pub le_remote_connection_parameter_request_reply_rp : List Kind
le_remote_connection_parameter_request_reply_rp = byte ∷ word ∷ []

abbrev pub le_remote_connection_parameter_request_negative_reply : ℕ → ℕ → Command
le_remote_connection_parameter_request_negative_reply connection_handle reason = record {
  text = "LE Remote Connection Parameter Request Negative Reply (0x08|0x0021)";
  op_code = 0x08 * 1024 + 0x0021;
  len = 3;
  fields = u16 connection_handle ∷ u8 reason ∷ [];
}

abbrev pub le_remote_connection_parameter_request_negative_reply_rp : List Kind
le_remote_connection_parameter_request_negative_reply_rp = byte ∷ word ∷ []

abbrev pub le_set_data_length : ℕ → ℕ → ℕ → Command
le_set_data_length connection_handle tx_octets tx_time = record {
  text = "LE Set Data Length (0x08|0x0022)";
  op_code = 0x08 * 1024 + 0x0022;
  len = 6;
  fields = u16 connection_handle ∷ u16 tx_octets ∷ u16 tx_time ∷ [];
}

abbrev pub le_set_data_length_rp : List Kind
le_set_data_length_rp = byte ∷ word ∷ []

abbrev pub le_read_maximum_data_length : Command
le_read_maximum_data_length = record {
  text = "LE Read Maximum Data Length (0x08|0x002F)";
  op_code = 0x08 * 1024 + 0x002f;
  len = 0;
  fields = [];
}

abbrev pub le_read_maximum_data_length_rp : List Kind
le_read_maximum_data_length_rp = byte ∷ word ∷ word ∷ word ∷ word ∷ []
