-- ===== src/Hci/Cmd/Fits.antt =====
-- linux/hci/hci.go, send, and linux/hci/cmd/cmd.go, marshal: the packets of the commands.
use ble.Base.{
  All, map, ℕ, ◌+◌, ◌*◌, ◌/◌, ◌%◌, ◌≡◌, ◌≤◌, sym, ap, ◌∙◌, List, [], ◌∷◌, ◌++◌, length, drop,
  take-append_eq, Option, some, leb→le, arith,
}
use ble.Hci.Cmd.RoundTrip.{kind_of, InRange, unmarshal-encode_fields}
use ble.Hci.Cmd.Layouts.{same_layout}
use ble.Hci.Cmd.Wire.{Field, unmarshal, Command, encode_fields, marshal, command_packet}
use ble.Hci.Cmd.Requests.{Request, command, number}
use ble.Hci.Cmd.Sizes.{length-encode_fields, widths-command, small_len}
use ble.Hci.Cmd.OpCodes.{small_op_code, op_code-Distinct}

abbrev pub header_of : Command → List ℕ
header_of c = 1 ∷ c.op_code % 256 ∷ c.op_code / 256 % 256 ∷ c.len ∷ []

marshal_fits : (c : Command) → c.len ≤ 60 → marshal 60 c ≡ some (encode_fields c.fields)
unfolding marshal
marshal_fits c small = ground arith

whole_packet :
    (before : List ℕ) (c : Command)
    → length (encode_fields c.fields) ≡ c.len
    → c.len ≤ 60
    → command_packet before c ≡ some (header_of c ++ encode_fields c.fields)
unfolding command_packet
whole_packet before c exact small =
    let fits = marshal_fits c small in
    let byte : c.len % 256 ≡ c.len = omega arith in
    let ps = encode_fields c.fields in
    let rest = drop (4 + length ps) before in
    let four : length (header_of c ++ ps) ≡ 4 + c.len = omega (arith, exact) in
    let cut = take-append_eq (4 + c.len) (header_of c ++ ps) rest four in
    rw (fits, command_packet) (rw byte (ap some cut))

length-command : (r : Request) → length (encode_fields (command r).fields) ≡ (command r).len
length-command r = length-encode_fields (command r).fields ∙ widths-command r

-- Every command is sent whole, whatever the buffer holds: its type, its op code, its Len, and as
-- many bytes of parameters as Len says; marshalling never runs out of the buffer.
pub command_packet_whole :
    (before : List ℕ) (r : Request)
    → (command_packet before (command r)
        ≡ some (header_of (command r) ++ encode_fields (command r).fields))
      × (length (encode_fields (command r).fields) ≡ (command r).len)
command_packet_whole before r =
    let exact = length-command r in
    (whole_packet before (command r) exact (leb→le (command r).len 60 (small_len r)), exact)

-- The op code in a packet.
abbrev code_in : Option (List ℕ) → ℕ
code_in (some (_ ∷ low ∷ high ∷ _)) = low + 256 * high
code_in _ = 0

code_in-command_packet :
    (before : List ℕ) (r : Request)
    → code_in (command_packet before (command r)) ≡ (command r).op_code
code_in-command_packet before r =
    let whole = (command_packet_whole before r).0 in
    let small = leb→le (command r).op_code 65535 (small_op_code r) in ap code_in whole ∙ omega arith

-- The parameters in a packet.
abbrev params_in : Option (List ℕ) → List ℕ
params_in (some (_ ∷ _ ∷ _ ∷ _ ∷ ps)) = ps
params_in _ = []

params_in-command_packet :
    (before : List ℕ) (r : Request)
    → params_in (command_packet before (command r)) ≡ encode_fields (command r).fields
params_in-command_packet before r = ap params_in (command_packet_whole before r).0

abbrev fields_in : Option (List Field × List ℕ) → List Field
fields_in (some (fs, _)) = fs
fields_in _ = []

encode_fields-Injective :
    (fs gs : List Field)
    → All InRange fs
    → All InRange gs
    → map kind_of fs ≡ map kind_of gs
    → encode_fields fs ≡ encode_fields gs
    → fs ≡ gs
encode_fields-Injective fs gs in_f in_g kinds bytes = ap fields_in (
    sym (unmarshal-encode_fields fs [] in_f)
    ∙ ap (λ ks. unmarshal ks (encode_fields fs ++ [])) kinds
    ∙ ap (λ b. unmarshal (map kind_of gs) (b ++ [])) bytes
    ∙ unmarshal-encode_fields gs [] in_g)

-- Two commands whose arguments are of their types and that are sent as the same packet, whatever the
-- buffers held, are the same command of the file with the same arguments.
pub command_packet_identifies :
    (before after : List ℕ) (r s : Request)
    → All InRange (command r).fields
    → All InRange (command s).fields
    → command_packet before (command r) ≡ command_packet after (command s)
    → (number r ≡ number s) × ((command r).fields ≡ (command s).fields)
command_packet_identifies before after r s in_r in_s same =
    let name =
      op_code-Distinct r s (
        sym (code_in-command_packet before r) ∙ ap code_in same ∙ code_in-command_packet after s) in
    let bytes =
      sym (params_in-command_packet before r)
      ∙ ap params_in same
      ∙ params_in-command_packet after s in
    (
      name,
      encode_fields-Injective (command r).fields (command s).fields in_r in_s (same_layout r s name)
          bytes,
    )
