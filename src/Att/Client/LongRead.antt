-- ===== src/Att/Client/LongRead.antt =====
-- A client's long read of a static value of the modelled server.
use ble.Base.{
  ℕ, zero, suc, ◌+◌, ◌-◌, ◌*◌, ◌/◌, ◌%◌, ◌≤◌, ◌<◌, false, some, List, [], ◌∷◌, ◌++◌, ok, done,
  length, take, drop, length-take, length-drop, length-append, drop_all, drop-append_length,
  take-append-drop, append_assoc, le16, u8_at, u16_at, slice_from, put-ok, copy, leb, ◌≡◌, refl,
  sym, ap, ◌∙◌, arith, Bool-cases, leb→le, le→leb, append-nil, inl, inr,
}
use ble.Att.Handler.{App}
use ble.Att.Db.{Attr, at}
use ble.Att.Server.State.{Server}
use ble.Att.Server.Reads.{handle_read_request, handle_read_blob_request}
use ble.Att.Server.Dispatch.{handle_request}
use ble.Att.Pdu.{read_response_code, read_blob_response_code}
use ble.Att.Client.{
  response, read, read_blob, read_long_loop, read_long_characteristic, round_trip, validate,
  value_of,
}

pub le_u16-le16 : (v : ℕ) → v < 65536 → v % 256 + 256 * (v / 256 % 256) ≡ v
le_u16-le16 v h = omega arith

lt→leb_false : (a b : ℕ) → b < a → leb a b ≡ false
lt→leb_false a b h = ground arith

leb_false→lt : (a b : ℕ) → leb a b ≡ false → b < a
leb_false→lt a b h = ground arith

module _ (app : App) (s : Server) (h i : ℕ) (a : Attr) (v : List ℕ) (small : h < 65536)
    (room : 1 < s.tx_len) (found : at s.db h ≡ some (i, a)) (static : a.v ≡ some v) where
  serves_read : handle_request app s (0x0a ∷ le16 h) ≡ ok (0x0b ∷ take (s.tx_len - 1) v, s)
  unfolding handle_request handle_read_request u8_at u16_at copy
  serves_read =
      rw (put-ok s.tx_len [] (0x0b ∷ []) (omega arith), le_u16-le16 h small, found, static) refl

  serves_blob :
      (off : ℕ)
      → off < 65536
      → off ≤ length v
      → handle_request app s (0x0c ∷ le16 h ++ le16 off)
        ≡ ok (0x0d ∷ take (s.tx_len - 1) (drop off v), s)
  unfolding handle_request handle_read_blob_request u8_at u16_at copy
  serves_blob off b l =
      rw
        (
          le_u16-le16 h small,
          found,
          put-ok s.tx_len [] (0x0d ∷ []) (omega arith),
          static,
          le_u16-le16 off b,
        )
        (ground arith)

  value_response : (op : ℕ) (ds : List ℕ) → value_of (response (op ∷ ds)) ≡ ok (response ds)
  unfolding value_of slice_from
  value_response op ds = ground arith

  validate-read :
      (ds : List ℕ) → validate read_response_code 1 (0x0b ∷ ds) ≡ ok (response (0x0b ∷ ds))
  unfolding validate u8_at
  validate-read ds = ground arith

  validate-read_blob :
      (ds : List ℕ) → validate read_blob_response_code 1 (0x0d ∷ ds) ≡ ok (response (0x0d ∷ ds))
  unfolding validate u8_at
  validate-read_blob ds = ground arith

  reads : read (handle_request app) h s ≡ ok (response (take (s.tx_len - 1) v), s)
  unfolding read round_trip
  reads =
      rw
        (
          serves_read,
          validate-read (take (s.tx_len - 1) v),
          value_response 0x0b (take (s.tx_len - 1) v),
        )
        refl

  reads_blob :
      (off : ℕ)
      → off < 65536
      → off ≤ length v
      → read_blob (handle_request app) h off s ≡ ok (response (take (s.tx_len - 1) (drop off v)), s)
  unfolding read_blob round_trip
  reads_blob off b l =
      rw
        (
          serves_blob off b l,
          validate-read_blob (take (s.tx_len - 1) (drop off v)),
          value_response 0x0d (take (s.tx_len - 1) (drop off v)),
        )
        refl

  module _ (n : ℕ) (large : 1 < n) (within : n ≤ s.tx_len) where
    -- What the loop has left to read: after a full part any rest, after a short one none.
    data Pending (fuel last : ℕ) (rest : List ℕ) : Type 0 where
      full : n - 1 ≤ last → length rest + 1 < fuel → Pending fuel last rest
      short : last < n - 1 → rest ≡ [] → 0 < fuel → Pending fuel last rest

    part-Pending :
        (fuel : ℕ) (rest : List ℕ)
        → length rest + 1 < suc fuel
        → Pending fuel (length (take (s.tx_len - 1) rest)) (drop (s.tx_len - 1) rest)
    part-Pending fuel rest f = elim (Bool-cases (leb (n - 1) (length rest))) [
      | inl e ↦
          let le = leb→le (n - 1) (length rest) e in
          full (omega (arith, length-take (s.tx_len - 1) rest))
            (omega (arith, length-drop (s.tx_len - 1) rest))
      | inr e ↦
          let lt = leb_false→lt (n - 1) (length rest) e in
          short (omega (arith, length-take (s.tx_len - 1) rest))
            (drop_all (s.tx_len - 1) rest (omega arith)) (omega arith)
    ]

    long_read_loop :
        (fuel last : ℕ) (buffer rest : List ℕ)
        → buffer ++ rest ≡ v
        → length v < 65536
        → Pending fuel last rest
        → read_long_loop (handle_request app) fuel n h last buffer s ≡ ok (done (response v, s))
    unfolding read_long_loop
    long_read_loop zero last buffer rest e b (full l f) = absurd (omega arith)
    long_read_loop zero last buffer rest e b (short l r f) = absurd (omega arith)
    long_read_loop (suc fuel) last buffer rest e b (short l r f) =
        rw (lt→leb_false (n - 1) last l) (ap (λ (x : List ℕ). ok (done (response x, s))) whole)
      where
        whole : buffer ≡ v
        whole = sym (append-nil buffer) ∙ ap (λ (x : List ℕ). buffer ++ x) (sym r) ∙ e
    long_read_loop (suc fuel) last buffer rest e b (full l f) =
        rw
          (
            le→leb (n - 1) last l,
            wrap,
            reads_blob (length buffer) (omega (arith, total)) (omega (arith, total)),
            behind,
          )
          (long_read_loop fuel (length part) (buffer ++ part) (drop (s.tx_len - 1) rest) whole b
            (part-Pending fuel rest f))
      where
        part : List ℕ
        part = take (s.tx_len - 1) rest

        total : length v ≡ length buffer + length rest
        total = ap length (sym e) ∙ length-append buffer rest

        wrap : length buffer % 65536 ≡ length buffer
        wrap = omega (arith, total)

        behind : drop (length buffer) v ≡ rest
        behind = ap (drop (length buffer)) (sym e) ∙ drop-append_length buffer rest

        whole : (buffer ++ part) ++ drop (s.tx_len - 1) rest ≡ v
        whole =
            append_assoc buffer part (drop (s.tx_len - 1) rest)
            ∙ ap (λ (x : List ℕ). buffer ++ x) (take-append-drop (s.tx_len - 1) rest)
            ∙ e

    -- ReadLongCharacteristic against the modelled server returns the whole of a static value and leaves the server
    -- as it was, with fuel over the value's length: where its handle is in the database, the client's TxMTU is over
    -- 1 and no larger than the server's responses may be, and the value is shorter than 65536 bytes.
    pub read_long-static :
        length v < 65536
        → (fuel : ℕ) → length v < fuel
        → read_long_characteristic (handle_request app) fuel n h s ≡ ok (done (response v, s))
    unfolding read_long_characteristic
    read_long-static b fuel f = rw (reads) (
        long_read_loop fuel (length (take (s.tx_len - 1) v)) (take (s.tx_len - 1) v)
          (drop (s.tx_len - 1) v) (take-append-drop (s.tx_len - 1) v) b
          (part-Pending fuel v (omega arith)))
