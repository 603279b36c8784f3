-- ===== src/Hci/Acl/RoundTrip.antt =====
-- What is written on one side of a link is read on the other.
use ble.Base.{
  ℕ, zero, suc, ◌+◌, ◌-◌, ◌/◌, ◌%◌, ◌≤◌, ◌<◌, true, false, List, [], ◌∷◌, ◌++◌, map, ok, length,
  take, drop, ◌≡◌, refl, ap, Bool-cases, inl, inr, ◌∙◌, arith, some, length-append, length-take,
  length-drop, take-append-drop, append_assoc, append-nil, le16, u8_at, u16_at, slice_from, ◌==◌,
  take_all, copy,
}
use ble.Hci.Acl.{
  Attempt, granted, Boundary, start, continuing, finished, write_loop, fragment_length, add_packet,
  write_pdu, gather, recombine, handle_flags, write_acl_data, Recombined, att, read, write,
  received, read_loop, read_from, collect, packet_data, pbf, cid, dlen, payload, deliver,
  cid_le_att,
}

-- n buffers are there when they are needed, and the socket takes the packets.
unfoldable pub grants : ℕ → List Attempt
grants zero = []
grants (suc n) = granted ∷ grants n

-- handlePkt strips the packet type from what came from the wire.
unfoldable pub strip : List (List ℕ) → List (List ℕ)
strip ps = map (drop 1) ps

fragment_length-bounds :
    (size n : ℕ) → 5 < size → 0 < n → (0 < fragment_length size n) × (fragment_length size n ≤ n)
unfolding fragment_length
fragment_length-bounds size n c h = ground arith

write_loop-granted :
    (size handle sent x : ℕ) (rest : List Attempt) (flags : Boundary) (xs : List ℕ)
    → 5 < size
    → write_loop size handle (granted ∷ rest) flags sent (x ∷ xs)
      ≡ add_packet
          (write_acl_data
            (handle_flags handle flags)
            (take (fragment_length size (length (x ∷ xs))) (x ∷ xs)))
          (write_loop size handle rest continuing
            (sent + fragment_length size (length (x ∷ xs)))
            (drop (fragment_length size (length (x ∷ xs))) (x ∷ xs)))
unfolding write_loop
write_loop-granted size handle sent x rest flags xs c = ground arith

write_loop-finished :
    (size handle m sent : ℕ) (flags : Boundary) (p : List ℕ)
    → 5 < size
    → length p ≤ m
    → (write_loop size handle (grants m) flags sent p).result ≡ finished (sent + length p)
unfolding write_loop grants add_packet
write_loop-finished size handle zero sent flags [] c h = ground arith
write_loop-finished size handle (suc m) sent flags [] c h = ground arith
write_loop-finished size handle zero sent flags (x ∷ xs) c h = absurd (omega arith)
write_loop-finished size handle (suc m) sent flags (x ∷ xs) c h =
    let n = fragment_length size (length (x ∷ xs)) in
    let b = fragment_length-bounds size (length (x ∷ xs)) c (omega arith) in
    let l = length-drop n (x ∷ xs) in
    rw (write_loop-granted size handle sent x (grants m) flags xs c) (
      write_loop-finished size handle m (sent + n) continuing (drop n (x ∷ xs)) c
        (omega (arith, b.0, b.1, l))
      ∙ ap finished (omega (arith, b.0, b.1, l)))

gather_complete :
    (n : ℕ) (acc : List ℕ) (rest : List (List ℕ)) (k : List ℕ → List (List ℕ) → Recombined)
    → length acc ≡ 4 + n
    → gather n rest acc k ≡ ok (k acc rest)
unfolding gather
gather_complete n acc [] k e = ground arith
gather_complete n acc (r ∷ rest) k e = ground arith

gather-fragment :
    (handle n : ℕ) (acc bs : List ℕ) (rest : List (List ℕ))
    (k : List ℕ → List (List ℕ) → Recombined)
    → handle < 4096
    → length acc < 4 + n
    → gather n (drop 1 (write_acl_data (handle_flags handle continuing) bs) ∷ rest) acc k
      ≡ gather n rest (acc ++ bs) k
unfolding gather write_acl_data handle_flags pbf packet_data u8_at slice_from
gather-fragment handle n acc bs rest k h l =
    let e : handle / 4096 % 2 ≡ 0 = omega arith in
    let f : (handle + 4096) / 256 % 256 / 16 % 4 % 2 ≡ 1 = omega arith in ground arith

gather-write_loop :
    (size handle n m sent : ℕ) (acc p : List ℕ) (rest : List (List ℕ))
    (k : List ℕ → List (List ℕ) → Recombined)
    → 5 < size
    → handle < 4096
    → length p ≤ m
    → length acc + length p ≡ 4 + n
    → gather n (strip (write_loop size handle (grants m) continuing sent p).packets ++ rest) acc k
      ≡ ok (k (acc ++ p) rest)
unfolding write_loop strip grants add_packet
gather-write_loop size handle n zero sent acc [] rest k c hh h e =
    rw (append-nil acc) (gather_complete n acc rest k (omega arith))
gather-write_loop size handle n (suc m) sent acc [] rest k c hh h e =
    rw (append-nil acc) (gather_complete n acc rest k (omega arith))
gather-write_loop size handle n zero sent acc (x ∷ xs) rest k c hh h e = absurd (omega arith)
gather-write_loop size handle n (suc m) sent acc (x ∷ xs) rest k c hh h e =
    let l = fragment_length size (length (x ∷ xs)) in
    let b = fragment_length-bounds size (length (x ∷ xs)) c (omega arith) in
    let d = length-drop l (x ∷ xs) in
    let t = length-take l (x ∷ xs) in
    rw
      (
        write_loop-granted size handle sent x (grants m) continuing xs c,
        gather-fragment handle n acc (take l (x ∷ xs))
            (strip
                (write_loop size handle (grants m) continuing (sent + l) (drop l (x ∷ xs))).packets
              ++ rest)
            k hh (omega arith),
        gather-write_loop size handle n m (sent + l) (acc ++ take l (x ∷ xs)) (drop l (x ∷ xs)) rest
            k c hh (omega (arith, b.0, b.1, d))
            (omega (arith, b.0, b.1, d, t, length-append acc (take l (x ∷ xs)))),
      )
      (ap (λ (z : List ℕ). ok (k z rest))
        (append_assoc acc (take l (x ∷ xs)) (drop l (x ∷ xs))
          ∙ ap (λ (z : List ℕ). acc ++ z) (take-append-drop l (x ∷ xs))))

-- The basic header of an L2CAP PDU on channel `c`, and its payload.
unfoldable pub frame : ℕ → List ℕ → List ℕ
frame c bs = le16 (length bs) ++ le16 c ++ bs

-- writePDU sends a PDU of up to m bytes whole, when the connection is open, every buffer holds a
-- fragment byte beyond its 5 bytes of header, m buffers come and the socket takes the packets.
pub write_pdu-finished :
    (size handle m : ℕ) (p : List ℕ)
    → 5 < size
    → length p ≤ m
    → (write_pdu false size handle (grants m) p).result ≡ finished (length p)
unfolding write_pdu
write_pdu-finished size handle m p c h =
    write_loop-finished size handle m 0 start p c h ∙ ap finished (omega arith)

packet_data_lem : (a b c d : ℕ) (bs : List ℕ) → packet_data (a ∷ b ∷ c ∷ d ∷ bs) ≡ ok bs
unfolding packet_data slice_from
packet_data_lem a b c d bs = ground arith

dlen-le16 : (n : ℕ) (bs : List ℕ) → n < 65536 → dlen (le16 n ++ bs) ≡ ok n
unfolding dlen u16_at
dlen-le16 n bs h = ground arith

cid-le16 : (a b c : ℕ) (bs : List ℕ) → c < 65536 → cid (a ∷ b ∷ le16 c ++ bs) ≡ ok c
unfolding cid u16_at
cid-le16 a b c bs h = ground arith

payload_lem : (a b c d : ℕ) (bs : List ℕ) → payload (a ∷ b ∷ c ∷ d ∷ bs) ≡ ok bs
unfolding payload slice_from
payload_lem a b c d bs = ground arith

eq_of : (c : ℕ) → (c == cid_le_att) ≡ true → c ≡ cid_le_att
eq_of c e = ground arith

recombine-first :
    (mps handle n c : ℕ) (bs : List ℕ) (rest : List (List ℕ))
    → n < 65536
    → c < 65536
    → (c ≡ cid_le_att → n ≤ mps)
    → recombine mps (drop 1 (write_acl_data handle (le16 n ++ le16 c ++ bs)) ∷ rest)
      ≡ gather n rest (le16 n ++ le16 c ++ bs) (deliver c)
unfolding recombine write_acl_data
recombine-first mps handle n c bs rest hn hc h =
    rw
      (
        packet_data_lem (handle % 256) (handle / 256 % 256) (length (le16 n ++ le16 c ++ bs) % 256)
            (length (le16 n ++ le16 c ++ bs) / 256 % 256) (le16 n ++ le16 c ++ bs),
        cid-le16 (n % 256) (n / 256 % 256) c bs hc,
        dlen-le16 n (le16 c ++ bs) hn,
      )
      (elim (Bool-cases (c == cid_le_att)) [
        | inl e ↦
            let g : n ≤ mps = h (eq_of c e) in
            ground (arith, payload_lem (n % 256) (n / 256 % 256) (c % 256) (c / 256 % 256) bs)
        | inr e ↦ ground (arith, payload_lem (n % 256) (n / 256 % 256) (c % 256) (c / 256 % 256) bs)
      ])

take-header :
    (a b c d l k : ℕ) (bs : List ℕ)
    → l ≡ suc (suc (suc (suc k)))
    → (take l (a ∷ b ∷ c ∷ d ∷ bs) ≡ a ∷ b ∷ c ∷ d ∷ take k bs)
      × (drop l (a ∷ b ∷ c ∷ d ∷ bs) ≡ drop k bs)
take-header a b c d l k bs e = (rw e refl, rw e refl)

-- recombine puts the packets of a PDU of writePDU together to that PDU, leaves the packets behind them,
-- and dispatches it by its channel.
pub recombine-write_pdu :
    (size handle m mps c : ℕ) (bs : List ℕ) (rest : List (List ℕ))
    → 8 < size
    → handle < 4096
    → length (frame c bs) ≤ m
    → length bs < 65536
    → c < 65536
    → (c ≡ cid_le_att → length bs ≤ mps)
    → recombine mps (strip (write_pdu false size handle (grants m) (frame c bs)).packets ++ rest)
      ≡ ok (deliver c (frame c bs) rest)
unfolding frame write_pdu strip grants add_packet
recombine-write_pdu size handle zero mps c bs rest hs hh hm hb hc h = absurd (omega arith)
recombine-write_pdu size handle (suc m) mps c bs rest hs hh hm hb hc h =
    let n : ℕ = length bs in
    let l : ℕ = fragment_length size (length (frame c bs)) in
    let b = fragment_length-bounds size (length (frame c bs)) (omega arith) (omega arith) in
    let g : 4 ≤ l = unfold fragment_length in ground arith in
    let t =
      take-header (n % 256) (n / 256 % 256) (c % 256) (c / 256 % 256) l (l - 4) bs
        (omega (arith, g)) in
    rw
      (
        write_loop-granted size handle 0 (n % 256) (grants m) start (n / 256 % 256 ∷ le16 c ++ bs)
            (omega arith),
        t.0,
        t.1,
        recombine-first mps (handle_flags handle start) n c (take (l - 4) bs)
            (strip (write_loop size handle (grants m) continuing (0 + l) (drop (l - 4) bs)).packets
              ++ rest)
            hb hc h,
        gather-write_loop size handle n m (0 + l) (le16 n ++ le16 c ++ take (l - 4) bs)
            (drop (l - 4) bs) rest (deliver c) (omega arith) hh
            (omega (arith, b.0, b.1, length-drop (l - 4) bs))
            (omega (arith, b.0, b.1, length-drop (l - 4) bs, length-take (l - 4) bs)),
      )
      (ap (λ (z : List ℕ). ok (deliver c (le16 n ++ le16 c ++ z) rest))
        (take-append-drop (l - 4) bs))

-- Write makes one frame on the ATT channel of an SDU that its MTU allows.
write-frame :
    (tx_mtu : ℕ) (sdu : List ℕ)
    → length sdu ≤ tx_mtu
    → write false tx_mtu sdu ≡ ok (some (frame cid_le_att sdu))
unfolding write copy frame
write-frame tx_mtu sdu h =
    let t : take (4 + length sdu - 4) sdu ≡ sdu = take_all (4 + length sdu - 4) sdu (omega arith) in
    rw t (ground arith)

read_from-whole :
    (room : ℕ) (sdu : List ℕ) (rest : List (List ℕ))
    → length sdu ≤ room
    → read_from room rest (length sdu) sdu
      ≡ ok (received (length sdu) (record { bytes = sdu; sdu = sdu }) rest)
unfolding read_from read_loop collect
read_from-whole room sdu [] k = ground arith
read_from-whole room sdu (p ∷ rest) k = ground arith

read-frame :
    (room c : ℕ) (sdu : List ℕ) (rest : List (List ℕ))
    → length sdu < 65536
    → length sdu ≤ room
    → read false room (frame c sdu ∷ rest)
      ≡ ok (received (length sdu) (record { bytes = sdu; sdu = sdu }) rest)
unfolding read frame
read-frame room c sdu rest h k =
    rw
      (
        dlen-le16 (length sdu) (le16 c ++ sdu) h,
        payload_lem (length sdu % 256) (length sdu / 256 % 256) (c % 256) (c / 256 % 256) sdu,
      )
      (read_from-whole room sdu rest k)

-- An SDU that Write takes is read by the peer's Read unchanged. Write makes one frame of it; writePDU
-- sends the whole frame in packets that fit the controller's buffers; recombine makes the frame of
-- those packets, whatever arrives behind them, and hands it to the ATT reader; and Read gives the
-- caller its length and, in the caller's slice, its bytes. The SDU is within the sender's MTU, the
-- receiver's MPS, the slice and 16 bits; the connection is open, its handle has 12 bits, a buffer has
-- room for four bytes beyond its header, and enough buffers come.
pub read-write :
    (size handle m tx_mtu mps room : ℕ) (sdu : List ℕ) (rest more : List (List ℕ))
    → 8 < size
    → handle < 4096
    → 4 + length sdu ≤ m
    → length sdu < 65536
    → length sdu ≤ tx_mtu
    → length sdu ≤ mps
    → length sdu ≤ room
    → (f : List ℕ) × (write false tx_mtu sdu ≡ ok (some f))
      × ((write_pdu false size handle (grants m) f).result ≡ finished (length f))
      × (recombine mps (strip (write_pdu false size handle (grants m) f).packets ++ rest)
          ≡ ok (att f rest))
      × (read false room (f ∷ more)
          ≡ ok (received (length sdu) (record { bytes = sdu; sdu = sdu }) more))
unfolding frame
read-write size handle m tx_mtu mps room sdu rest more hs hh hm hl ht hp hr =
    let l : length (frame cid_le_att sdu) ≤ m = omega arith in
    (
      frame cid_le_att sdu,
      write-frame tx_mtu sdu ht,
      write_pdu-finished size handle m (frame cid_le_att sdu) (omega arith) l,
      recombine-write_pdu size handle m mps cid_le_att sdu rest hs hh l hl (omega arith) (λ _. hp)
          ∙ (unfold deliver in refl),
      read-frame room cid_le_att sdu more hl hr,
    )
