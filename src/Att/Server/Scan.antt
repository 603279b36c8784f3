-- ===== src/Att/Server/Scan.antt =====
-- The loop that the handlers of linux/att/server.go run over a range of attributes: each round
-- goes on, breaks, or returns from the handler with an error response. The four rounds.
use ble.Base.{
  ℕ, ◌+◌, ◌-◌, min, Bool, true, false, not, ◌&&◌, ◌||◌, Option, none, some, List, [], ◌∷◌, Go, ok,
  panic, ◌>>=◌, length, le16, put, copy, slice_to, ltb, leb, ◌==◌, if◌then◌else◌,
}
use ble.Uuid.{uuid16, equal}
use ble.Att.Pdu.{err_success, err_invalid_handle}
use ble.Att.Handler.{Buffer, App, new_response_writer, empty_buffer, written}
use ble.Att.Db.{Attr}
use ble.Att.Server.State.{Server}
use ble.Att.Server.Call.{handle_att}

pub data Verdict (S : Type 0) : Type 0 where
  next : S → Verdict S
  stop : S → Verdict S
  refuse : ℕ → Verdict S

pub data Scanned (S : Type 0) : Type 0 where
  done : S → Scanned S
  refused : ℕ → Scanned S

unfoldable pub scan :
    {S : Type 0}
    → (Attr → S → Server → Go (Verdict S × Server))
    → List Attr
    → S
    → Server
    → Go (Scanned S × Server)
scan step [] x s = ok (done x, s)
scan step (a ∷ xs) x s = do
  (r, s1) ← step a x s
  elim r [
    | next x1 ↦ scan step xs x1 s1
    | stop x1 ↦ ok (done x1, s1)
    | refuse e ↦ ok (refused e, s1)
  ]

-- make([]byte, 0, n-k), which panics where that is negative.
abbrev pub make_buffer : ℕ → ℕ → Go (Option Buffer)
make_buffer n k = if leb k n then ok (empty_buffer (n - k)) else panic

-- v[:dlen-k]
abbrev pub slice_less : List ℕ → ℕ → ℕ → Go (List ℕ)
slice_less v dlen k = if leb k dlen then slice_to v (dlen - k) else panic

-- The information data, with the format (0 until the first attribute decides it).
abbrev pub Info : Type 0
Info = ℕ × List ℕ

-- The round of handleFindInformationRequest.
unfoldable pub find_information_step : ℕ → Attr → Info → Server → Go (Verdict Info × Server)
find_information_step cap a (format, out) s =
    let n = length a.typ in
    let format' = if format == 0 then (if n == 16 then 2 else 1) else format in
    if format' == 1 && not (n == 2)
    then ok (stop (format', out), s)
    else if format' == 2 && not (n == 16)
    then ok (stop (format', out), s)
    else if ltb cap (length out + 2 + n)
    then ok (stop (format', out), s)
    else (do out1 ← put cap out (le16 a.h); ok (next (format', copy cap out1 a.typ), s))

-- The attribute data list, with the length of its entries (0 until the first one decides it).
abbrev pub Entries : Type 0
Entries = ℕ × List ℕ

-- v != nil
abbrev pub is_static : Attr → Bool
is_static a = elim a.v [ some v ↦ true | none ↦ false ]

-- What `fetch` returns: the status, the value, and the server after the call.
abbrev pub Fetched : Type 0
Fetched = ℕ × List ℕ × Server

-- The round of handleFindByTypeValueRequest on the value of an attribute of the type.
unfoldable pub find_entry : List ℕ → ℕ → Attr → List ℕ → Fetched → Go (Verdict (List ℕ) × Server)
find_entry value cap a out (e, v, s) =
    if not (is_static a) && (not (e == err_success) || ltb s.tx_len (length v + 7))
    then ok (refuse err_invalid_handle, s)
    else if not (equal v value)
    then ok (next out, s)
    else if ltb cap (length out + 4)
    then ok (stop out, s)
    else (do
      out1 ← put cap out (le16 a.h)
      out2 ← put cap out1 (le16 (if is_static a then a.endh else a.h))
      ok (next out2, s))

-- The round of handleReadByTypeRequest on the value of an attribute of the type.
unfoldable pub type_entry : ℕ → Attr → Entries → Fetched → Go (Verdict Entries × Server)
type_entry cap a (dlen, out) (e, v, s) =
    let dlen' = if dlen == 0 then min (min (2 + length v) 255) cap else dlen in
    if not (e == err_success)
    then ok (if dlen == 0 then refuse e else stop (dlen, out), s)
    else if not (dlen == 0) && not (2 + length v == dlen)
    then ok (stop (dlen, out), s)
    else if ltb cap (length out + dlen')
    then ok (stop (dlen', out), s)
    else (do
      out1 ← put cap out (le16 a.h)
      part ← slice_less v dlen' 2
      ok (next (dlen', copy cap out1 part), s))

-- The round of handleReadByGroupRequest on the value of an attribute of the group type.
unfoldable pub group_entry : ℕ → Attr → Entries → Fetched → Go (Verdict Entries × Server)
group_entry cap a (dlen, out) (e, v, s) =
    let dlen' = if dlen == 0 then min (min (4 + length v) 255) cap else dlen in
    if not (e == err_success)
    then ok (refuse e, s)
    else if not (dlen == 0) && not (4 + length v == dlen)
    then ok (stop (dlen, out), s)
    else if ltb cap (length out + dlen')
    then ok (stop (dlen', out), s)
    else (do
      out1 ← put cap out (le16 a.h)
      out2 ← put cap out1 (le16 a.endh)
      part ← slice_less v dlen' 4
      ok (next (dlen', copy cap out2 part), s))

module _ (app : App) where
  -- The value of an attribute: the static one, or what its read handler writes to a new buffer.
  unfoldable pub fetch : Attr → Server → List ℕ → Go (Option Buffer) → Go Fetched
  fetch a s r make = elim a.v [
    | some v ↦ ok (err_success, v, s)
    | none ↦ do
      buf ← make
      (e, (w, s1)) ← handle_att app a s r (new_response_writer buf)
      ok (e, written w, s1)
  ]

  -- The rounds of the three handlers, for the type (and the value) that the request asks for.
  unfoldable pub find_by_type_value_step :
      List ℕ → ℕ → List ℕ → ℕ → Attr → List ℕ → Server → Go (Verdict (List ℕ) × Server)
  find_by_type_value_step r typ value cap a out s =
      if not (equal a.typ (uuid16 typ))
      then ok (next out, s)
      else fetch a s r (make_buffer s.tx_len 6) >>= find_entry value cap a out

  unfoldable pub read_by_type_step :
      List ℕ → List ℕ → ℕ → Attr → Entries → Server → Go (Verdict Entries × Server)
  read_by_type_step r typ cap a x s =
      if not (equal a.typ typ)
      then ok (next x, s)
      else fetch a s r (make_buffer s.tx_len 2) >>= type_entry cap a x

  unfoldable pub read_by_group_step :
      List ℕ → List ℕ → ℕ → Attr → Entries → Server → Go (Verdict Entries × Server)
  read_by_group_step r typ cap a x s =
      if not (equal a.typ typ)
      then ok (next x, s)
      else if not (is_static a) && ltb cap (length x.1 + 4)
      then ok (stop x, s)
      else fetch a s r (make_buffer cap (length x.1 + 4)) >>= group_entry cap a x
