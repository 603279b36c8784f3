-- ===== src/Tests/Commands.antt =====
-- HCI commands in a buffer of 64 bytes, and the layout of a response.
use ble.Base.{All, ℕ, ◌<◌, ◌≡◌, ◌↔◌, refl, List, [], ◌∷◌, ◌++◌, length, map, some, none, arith}
use ble.Hci.Cmd.Wire.{Field, u8, u16, array, encode_fields, unmarshal, command_packet, zeros}
use ble.Hci.Cmd.Info.{read_bd_addr_rp}
use ble.Hci.Cmd.Requests.{command, number, of_disconnect}
use ble.Hci.Cmd.Fits.{header_of, command_packet_whole, command_packet_identifies}
use ble.Hci.Cmd.RoundTrip.{InRange, kind_of, sizes, unmarshal-encode_fields, unmarshal-none_iff}

abbrev clean : List ℕ
clean = zeros 64

command_packet_whole_example :
    (command_packet clean (command (of_disconnect 0x40 0x13))
      ≡ some (
          header_of (command (of_disconnect 0x40 0x13))
          ++ encode_fields (command (of_disconnect 0x40 0x13)).fields))
    × (length (encode_fields (command (of_disconnect 0x40 0x13)).fields)
        ≡ (command (of_disconnect 0x40 0x13)).len)
command_packet_whole_example = command_packet_whole clean (of_disconnect 0x40 0x13)

disconnect_packet :
    command_packet clean (command (of_disconnect 0x40 0x13))
    ≡ some (1 ∷ 6 ∷ 4 ∷ 3 ∷ 0x40 ∷ 0 ∷ 0x13 ∷ [])
unfolding command_packet zeros command
disconnect_packet = refl

same_packet :
    command_packet clean (command (of_disconnect 0x40 0x13))
    ≡ command_packet (1 ∷ clean) (command (of_disconnect 0x40 0x13))
unfolding command_packet zeros command
same_packet = refl

arguments : All InRange (command (of_disconnect 0x40 0x13)).fields
unfolding command
arguments = (omega arith, (omega arith, tt))

command_packet_identifies_example :
    (number (of_disconnect 0x40 0x13) ≡ number (of_disconnect 0x40 0x13))
    × ((command (of_disconnect 0x40 0x13)).fields ≡ (command (of_disconnect 0x40 0x13)).fields)
command_packet_identifies_example =
    command_packet_identifies clean (1 ∷ clean) (of_disconnect 0x40 0x13) (of_disconnect 0x40 0x13)
      arguments arguments same_packet

abbrev values : List Field
values = u8 0 ∷ u16 0x1234 ∷ array 2 (7 ∷ 8 ∷ []) ∷ []

unmarshal-encode_fields_example :
    unmarshal (map kind_of values) (encode_fields values ++ (9 ∷ [])) ≡ some (values, 9 ∷ [])
unmarshal-encode_fields_example =
    unmarshal-encode_fields values (9 ∷ []) (omega arith, (omega arith, (refl, tt)))

unmarshal-none_iff_example :
    (unmarshal read_bd_addr_rp (0 ∷ 1 ∷ []) ≡ none) ↔ (2 < sizes read_bd_addr_rp)
unmarshal-none_iff_example = unmarshal-none_iff read_bd_addr_rp (0 ∷ 1 ∷ [])
