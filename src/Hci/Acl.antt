-- ===== src/Hci/Acl.antt =====
-- linux/hci/conn.go and the packet types of linux/hci/const.go: an L2CAP PDU is cut into ACL packets
-- that fit the controller's buffers, and put together again from the packets that arrive.
pub mod RoundTrip
use ble.Base.{
  ℕ, ◌+◌, ◌-◌, ◌*◌, ◌/◌, ◌%◌, Bool, true, false, List, [], ◌∷◌, ◌++◌, Go, ok, panic, ◌>>=◌, length,
  take, drop, ltb, leb, ◌==◌, ◌&&◌, if◌then◌else◌, u8_at, u16_at, slice_from, put, copy, le16,
  Option, none, some,
}

abbrev pub pkt_type_acl_data : ℕ
pkt_type_acl_data = 2

abbrev pub cid_le_att : ℕ
cid_le_att = 4

abbrev pub cid_le_signal : ℕ
cid_le_signal = 5

abbrev pub cid_smp : ℕ
cid_smp = 6

-- packet.pbf and packet.data (`packet_data`)
unfoldable pub pbf : List ℕ → Go ℕ
pbf a = u8_at a 1 >>= λ b. ok (b / 16 % 4)

unfoldable pub packet_data : List ℕ → Go (List ℕ)
packet_data a = slice_from a 4

-- pdu.dlen, pdu.cid and pdu.payload
unfoldable pub dlen : List ℕ → Go ℕ
dlen p = u16_at p 0

unfoldable pub cid : List ℕ → Go ℕ
cid p = u16_at p 2

unfoldable pub payload : List ℕ → Go (List ℕ)
payload p = slice_from p 4

-- The two values of `flags` in writePDU.
pub data Boundary : Type 0 where
  start continuing : Boundary

-- handle | flags << 8: nothing for a start, bit 12 for a continuing fragment.
unfoldable pub handle_flags : ℕ → Boundary → ℕ
handle_flags handle start = handle
handle_flags handle continuing = if handle / 4096 % 2 == 1 then handle else handle + 4096

-- writeACLData into an empty buffer.
unfoldable pub write_acl_data : ℕ → List ℕ → List ℕ
write_acl_data flags bs = pkt_type_acl_data ∷ le16 flags ++ le16 (length bs) ++ bs

-- What may come of one fragment: the buffer is there and the socket takes the packet, GetTimeout gives
-- up, the connection is found closed before the write, or the write fails.
pub data Attempt : Type 0 where
  granted get_failed closed write_failed : Attempt

-- How writePDU ends; `waiting`: still in GetTimeout. `crashed`: pkt.Cap()-1-4 is negative.
pub data Sent : Type 0 where
  finished failed : ℕ → Sent
  waiting crashed : Sent

pub record Train : Type 0 where
  pub packets : List (List ℕ)
  pub result : Sent

unfoldable pub end_train : Sent → Train
end_train r = record { packets = []; result = r }

unfoldable pub add_packet : List ℕ → Train → Train
add_packet p t = record { packets = p ∷ t.packets; result = t.result }

-- flen
unfoldable pub fragment_length : ℕ → ℕ → ℕ
fragment_length cap n = if ltb cap (n + 5) then cap - 5 else n

-- The loop of writePDU, on the outcomes of its attempts in order.
unfoldable pub write_loop : ℕ → ℕ → List Attempt → Boundary → ℕ → List ℕ → Train
unfolding fragment_length write_acl_data handle_flags end_train add_packet
write_loop cap handle attempts flags sent [] = end_train (finished sent)
write_loop cap handle [] flags sent (x ∷ xs) = end_train waiting
write_loop cap handle (get_failed ∷ attempts) flags sent (x ∷ xs) = end_train (failed sent)
write_loop cap handle (closed ∷ attempts) flags sent (x ∷ xs) =
    if ltb cap 5 then end_train crashed else end_train (failed 0)
write_loop cap handle (write_failed ∷ attempts) flags sent (x ∷ xs) =
    if ltb cap 5 then end_train crashed else end_train (failed sent)
write_loop cap handle (granted ∷ attempts) flags sent (x ∷ xs) =
    let n : ℕ = fragment_length cap (length (x ∷ xs)) in
    let packet : List ℕ = write_acl_data (handle_flags handle flags) (take n (x ∷ xs)) in
    let rest = write_loop cap handle attempts continuing (sent + n) (drop n (x ∷ xs)) in
    if ltb cap 5 then end_train crashed else add_packet packet rest

-- writePDU
unfoldable pub write_pdu : Bool → ℕ → ℕ → List Attempt → List ℕ → Train
unfolding end_train
write_pdu done cap handle attempts p =
    if done then end_train (failed 0) else write_loop cap handle attempts start 0 p

-- What recombine does with the packets that arrive before the channel is closed, and the packets it
-- leaves there.
pub data Recombined : Type 0 where
  eof unexpected_eof : Recombined
  too_large : ℕ → Recombined
  att signal smp unrecognized : List ℕ → List (List ℕ) → Recombined

-- for len(p) < 4+p.dlen()
unfoldable pub gather :
    ℕ → List (List ℕ) → List ℕ → (List ℕ → List (List ℕ) → Recombined) → Go Recombined
unfolding pbf packet_data
gather n [] p k = if ltb (length p) (4 + n) then ok eof else ok (k p [])
gather n (a ∷ rest) p k =
    let next = packet_data a >>= λ bs. gather n rest (p ++ bs) k in
    if ltb (length p) (4 + n)
    then (pbf a >>= λ f. if f % 2 == 0 then ok unexpected_eof else next)
    else ok (k p (a ∷ rest))

-- The dispatch on the channel identifier.
unfoldable pub deliver : ℕ → List ℕ → List (List ℕ) → Recombined
deliver c p rest =
    if c == cid_le_att
    then att p rest
    else if c == cid_le_signal
    then signal p rest
    else if c == cid_smp
    then smp p rest
    else unrecognized p rest

-- recombine, with rxMPS.
unfoldable pub recombine : ℕ → List (List ℕ) → Go Recombined
unfolding packet_data dlen cid payload gather deliver
recombine rx_mps [] = ok eof
recombine rx_mps (a ∷ rest) = packet_data a >>= λ p. cid p >>= λ c. dlen p >>= λ n.
    if c == cid_le_att && ltb rx_mps n
    then ok (too_large n)
    else (payload p >>= λ _. gather n rest p (deliver c))

-- Conn.Write up to writePDU: `none` is ErrShortWrite. The loop behind the first writePDU never runs, for
-- plen is len(sdu) there.
unfoldable pub write : Bool → ℕ → List ℕ → Go (Option (List ℕ))
unfolding put copy
write le_frame tx_mtu sdu =
    let header : List ℕ = le16 (length sdu) ++ le16 cid_le_att in
    let size : ℕ = 4 + length sdu in
    if ltb tx_mtu (length sdu)
    then ok none
    else if le_frame
    then (put size header (le16 (length sdu)) >>= λ b. ok (some (copy size b sdu)))
    else ok (some (copy size header sdu))

-- The buffer that Read writes to: all its bytes, and those that stand in the caller's slice. A write
-- beyond the slice's capacity moves the buffer away from it for good.
pub record Collected : Type 0 where
  pub bytes : List ℕ
  pub sdu : List ℕ

unfoldable pub collect : ℕ → Collected → List ℕ → Collected
collect cap b bs = record {
  bytes = b.bytes ++ bs;
  sdu = if ltb cap (length b.bytes + length bs) then b.sdu else b.sdu ++ bs;
}

pub data ReadResult : Type 0 where
  input_closed empty_packet short_buffer closed_in_reassembly : ReadResult
  received : ℕ → Collected → List (List ℕ) → ReadResult

-- for buf.Len() < slen
unfoldable pub read_loop : ℕ → ℕ → Collected → List (List ℕ) → Go ReadResult
unfolding collect payload
read_loop cap slen b [] =
    if ltb (length b.bytes) slen then ok closed_in_reassembly else ok (received slen b [])
read_loop cap slen b (p ∷ rest) =
    let next = payload p >>= λ bs. read_loop cap slen (collect cap b bs) rest in
    if ltb (length b.bytes) slen then next else ok (received slen b (p ∷ rest))

unfoldable pub read_from : ℕ → List (List ℕ) → ℕ → List ℕ → Go ReadResult
unfolding collect read_loop
read_from cap rest slen bs =
    if ltb cap slen
    then ok short_buffer
    else read_loop cap slen (collect cap (record { bytes = []; sdu = [] }) bs) rest

-- Conn.Read into a slice of capacity `cap`, from the PDUs that arrive before the channel is closed.
unfoldable pub read : Bool → ℕ → List (List ℕ) → Go ReadResult
unfolding dlen payload read_from
read le_frame cap [] = ok input_closed
read le_frame cap ([] ∷ rest) = ok empty_packet
read le_frame cap ((x ∷ xs) ∷ rest) = dlen (x ∷ xs) >>= λ n. payload (x ∷ xs) >>= λ bs.
    if le_frame
    then (u16_at (x ∷ xs) 4 >>= λ slen. slice_from (x ∷ xs) 6 >>= λ ds. read_from cap rest slen ds)
    else read_from cap rest n bs
