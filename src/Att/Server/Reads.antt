-- ===== src/Att/Server/Reads.antt =====
-- linux/att/server.go: the handlers of the requests that read, search, or set the MTU.
use ble.Base.{
  ℕ, ◌+◌, ◌-◌, ◌%◌, min, Bool, not, ◌&&◌, ◌||◌, List, [], ◌∷◌, Go, ok, ◌>>=◌, if_nil, length, drop,
  le16, put, copy, ltb, ◌==◌, if◌then◌else◌,
}
use ble.Att.Pdu.{
  exchange_mtu_response_code, find_information_response_code, find_by_type_value_response_code,
  read_by_type_response_code, read_response_code, read_blob_response_code,
  read_by_group_type_response_code, err_success, err_invalid_handle, err_invalid_pdu,
  err_invalid_offset, err_attr_not_found, attribute_opcode, client_rx_mtu, starting_handle,
  ending_handle, attribute_type16, find_value, attribute_type, attribute_handle, value_offset,
  error_response,
}
use ble.Att.Handler.{App, new_response_writer, written}
use ble.Att.Db.{Attr, at, subrange}
use ble.Att.Server.State.{Server}
use ble.Att.Server.Call.{handle_att}
use ble.Att.Server.Scan.{
  Scanned, done, refused, scan, make_buffer, Info, Entries, find_information_step,
  find_by_type_value_step, read_by_type_step, read_by_group_step,
}

-- ble.DefaultMTU and ble.MaxMTU
abbrev pub default_mtu : ℕ
default_mtu = 23

abbrev pub max_mtu : ℕ
max_mtu = 512 + 3

-- A response, and the server behind it.
abbrev pub Answer : Type 0
Answer = List ℕ × Server

-- newErrorResponse for the opcode of the request `r`.
abbrev pub reject : List ℕ → ℕ → ℕ → Server → Go Answer
reject r h e s = do op ← attribute_opcode r; ok (error_response op h e, s)

-- The checks that four handlers make on a range of handles before they use it.
abbrev pub with_range : List ℕ → Bool → Server → (ℕ → ℕ → Go Answer) → Go Answer
with_range r bad_length s k = if bad_length then reject r 0 err_invalid_pdu s else (do
  start ← starting_handle r
  end ← ending_handle r
  if start == 0 || ltb end start then reject r start err_invalid_handle s else k start end)

-- SetTxMTU, and the deferred exchange of the three buffers.
unfoldable pub adopt_mtu : Server → ℕ → Server
adopt_mtu s n =
    let conn = record (s.conn) { tx_mtu = n } in
    if n == s.tx_len
    then record s { conn = conn }
    else record s { conn = conn; tx_len = n; not_len = n; ind_len = n }

unfoldable pub handle_exchange_mtu_request : Server → List ℕ → Go Answer
handle_exchange_mtu_request s r = if not (length r == 3) then reject r 0 err_invalid_pdu s else (do
  client ← client_rx_mtu r
  if ltb client 23 then reject r 0 err_invalid_pdu s else (do
    let tx_mtu = min client max_mtu
    rsp ← put s.tx_len [] (exchange_mtu_response_code ∷ le16 s.rx_mtu)
    ok (rsp, adopt_mtu s tx_mtu)))

-- What the handlers that scan a range send back: the error that the loop returned with, Attribute
-- Not Found where `empty` says that nothing was found, or the response that `pack` makes.
abbrev pub conclude :
    {S : Type 0} → List ℕ → ℕ → (S → Bool) → (S → List ℕ) → Go (Scanned S × Server) → Go Answer
conclude r start empty pack m = do
  (found, s1) ← m
  elim found [
    | refused e ↦ reject r start e s1
    | done x ↦ if empty x then reject r start err_attr_not_found s1 else ok (pack x, s1)
  ]

-- The responses to what the loops have found, and the tests that they have found nothing.
abbrev pub no_format : Info → Bool
no_format x = x.0 == 0

abbrev pub pack_information : Info → List ℕ
pack_information x = find_information_response_code ∷ x.0 ∷ x.1

abbrev pub no_handles : List ℕ → Bool
no_handles out = length out == 0

abbrev pub pack_handles : List ℕ → List ℕ
pack_handles out = find_by_type_value_response_code ∷ out

abbrev pub no_entries : Entries → Bool
no_entries x = x.0 == 0

abbrev pub pack_entries : ℕ → Entries → List ℕ
pack_entries code x = code ∷ x.0 % 256 ∷ x.1

unfoldable pub handle_find_information_request : Server → List ℕ → Go Answer
handle_find_information_request s r = with_range r (not (length r == 5)) s λ start end. do
  _ ← put s.tx_len [] (find_information_response_code ∷ 0 ∷ [])
  range ← subrange s.db start end
  conclude r start no_format pack_information
      (scan (find_information_step (s.tx_len - 2)) range (0, []) s)

module _ (app : App) where
  unfoldable pub handle_find_by_type_value_request : Server → List ℕ → Go Answer
  handle_find_by_type_value_request s r = with_range r (ltb (length r) 7) s λ start end. do
    _ ← put s.tx_len [] (find_by_type_value_response_code ∷ [])
    range ← subrange s.db start end
    typ ← attribute_type16 r
    value ← find_value r
    conclude r start no_handles pack_handles
        (scan (find_by_type_value_step app r typ value (s.tx_len - 1)) range [] s)

  unfoldable pub handle_read_by_type_request : Server → List ℕ → Go Answer
  handle_read_by_type_request s r =
      with_range r (not (length r == 7) && not (length r == 21)) s λ start end. do
        _ ← put s.tx_len [] (read_by_type_response_code ∷ 0 ∷ [])
        range ← subrange s.db start end
        typ ← attribute_type r
        conclude r start no_entries (pack_entries read_by_type_response_code)
            (scan (read_by_type_step app r typ (s.tx_len - 2)) range (0, []) s)

  unfoldable pub handle_read_by_group_request : Server → List ℕ → Go Answer
  handle_read_by_group_request s r =
      with_range r (not (length r == 7) && not (length r == 21)) s λ start end. do
        _ ← put s.tx_len [] (read_by_group_type_response_code ∷ 0 ∷ [])
        range ← subrange s.db start end
        typ ← attribute_type r
        conclude r start no_entries (pack_entries read_by_group_type_response_code)
            (scan (read_by_group_step app r typ (s.tx_len - 2)) range (0, []) s)

  -- The value that a read handler writes behind the one-byte header of the transmit buffer.
  abbrev pub read_dynamic : Server → List ℕ → ℕ → Attr → List ℕ → Go Answer
  read_dynamic s r h a rsp = do
    buf ← make_buffer s.tx_len 1
    (e, (w, s1)) ← handle_att app a s r (new_response_writer buf)
    if not (e == err_success)
        then reject r h e s1
        else (do out ← put s1.tx_len rsp (written w); ok (out, s1))

  unfoldable pub handle_read_request : Server → List ℕ → Go Answer
  handle_read_request s r = if not (length r == 3) then reject r 0 err_invalid_pdu s else (do
    rsp ← put s.tx_len [] (read_response_code ∷ [])
    h ← attribute_handle r
    if_nil (at s.db h) (reject r h err_invalid_handle s)
        λ (i, a). if_nil a.v (read_dynamic s r h a rsp) λ v. ok (copy s.tx_len rsp v, s))

  -- The part of a static value from the offset of the request on.
  abbrev pub blob_of : Server → List ℕ → ℕ → List ℕ → List ℕ → Go Answer
  blob_of s r h rsp v = do
    off ← value_offset r
    if ltb (length v) off
        then reject r h err_invalid_offset s
        else ok (copy s.tx_len rsp (drop off v), s)

  unfoldable pub handle_read_blob_request : Server → List ℕ → Go Answer
  handle_read_blob_request s r = if not (length r == 5) then reject r 0 err_invalid_pdu s else (do
    h ← attribute_handle r
    if_nil (at s.db h) (reject r h err_invalid_handle s) λ (i, a). do
      rsp ← put s.tx_len [] (read_blob_response_code ∷ [])
      if_nil a.v (read_dynamic s r h a rsp) (blob_of s r h rsp))
