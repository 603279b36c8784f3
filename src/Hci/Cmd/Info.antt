-- ===== src/Hci/Cmd/Info.antt =====
-- linux/hci/cmd/cmd_gen.go: the informational and status commands, and the layout of what they return.
use ble.Base.{ℕ, ◌+◌, ◌*◌, List, [], ◌∷◌}
use ble.Hci.Cmd.Wire.{Command, Kind, u16, byte, word, quad, block}

abbrev pub read_local_version_information : Command
read_local_version_information = record {
  text = "Read Local Version Information (0x04|0x0001)";
  op_code = 0x04 * 1024 + 0x0001;
  len = 0;
  fields = [];
}

abbrev pub read_local_version_information_rp : List Kind
read_local_version_information_rp = byte ∷ byte ∷ word ∷ byte ∷ word ∷ word ∷ []

abbrev pub read_local_supported_commands : Command
read_local_supported_commands = record {
  text = "Read Local Supported Commands (0x04|0x0002)";
  op_code = 0x04 * 1024 + 0x0002;
  len = 0;
  fields = [];
}

abbrev pub read_local_supported_commands_rp : List Kind
read_local_supported_commands_rp = byte ∷ quad ∷ []

abbrev pub read_local_supported_features : Command
read_local_supported_features = record {
  text = "Read Local Supported Features (0x04|0x0003)";
  op_code = 0x04 * 1024 + 0x0003;
  len = 0;
  fields = [];
}

abbrev pub read_local_supported_features_rp : List Kind
read_local_supported_features_rp = byte ∷ quad ∷ []

abbrev pub read_buffer_size : Command
read_buffer_size = record {
  text = "Read Buffer Size (0x04|0x0005)";
  op_code = 0x04 * 1024 + 0x0005;
  len = 0;
  fields = [];
}

abbrev pub read_buffer_size_rp : List Kind
read_buffer_size_rp = byte ∷ word ∷ byte ∷ word ∷ word ∷ []

abbrev pub read_bd_addr : Command
read_bd_addr = record {
  text = "Read BD_ADDR (0x04|0x0009)";
  op_code = 0x04 * 1024 + 0x0009;
  len = 0;
  fields = [];
}

abbrev pub read_bd_addr_rp : List Kind
read_bd_addr_rp = byte ∷ block 6 ∷ []

abbrev pub read_rssi : ℕ → Command
read_rssi handle = record {
  text = "Read RSSI (0x05|0x0005)";
  op_code = 0x05 * 1024 + 0x0005;
  len = 2;
  fields = u16 handle ∷ [];
}

abbrev pub read_rssi_rp : List Kind
read_rssi_rp = byte ∷ word ∷ byte ∷ []
