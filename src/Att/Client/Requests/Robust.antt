-- ===== src/Att/Client/Requests/Robust.antt =====
-- Whatever the peer answers, no request of the client panics, and what it returns is well formed.
use ble.Base.{
  ℕ, Bool, ◌+◌, ◌*◌, ◌%◌, ◌≤◌, ◌<◌, true, false, not, ◌&&◌, ◌||◌, List, [], ◌∷◌, Go, ok, panic,
  le16, ◌++◌, ◌>>=◌, Returns, >>=-Returns, length, ltb, ◌==◌, if◌then◌else◌, u8_at, u16_at,
  slice_from, put-ok, length-drop, ◌≡◌, refl, arith, ◌⊎◌,
}
use ble.Att.Client.{
  ClientError, invalid_argument, Reply, response, failed, validate, round_trip, read, read_blob,
  value_of,
}
use ble.Att.Client.Requests.{
  Value, bytes, entries, error, Room, judge, information, data_list, prepared_part, set_of_handles,
  transact, find_information, read_by_type, read_by_group_type, read_multiple, write, prepare_write,
  execute_write,
}

-- The entries of a response are whole: those of FindInformation have four or eighteen bytes by their
-- format, those of the other two have the size that is returned with them.
abbrev pub WholeInformation : Value → Type 0
WholeInformation (entries format ds) =
    ((format ≡ 1) × (length ds % 4 ≡ 0)) ⊎ ((format ≡ 2) × (length ds % 18 ≡ 0))
WholeInformation v = Unit {0}

abbrev pub WholeData : Value → Type 0
WholeData (entries size ds) = (1 ≤ size) × (2 ≤ length ds) × (length ds % size ≡ 0)
WholeData v = Unit {0}

abbrev pub AnyValue : Value → Type 0
AnyValue v = Unit {0}

information-Whole : (rsp : List ℕ) → 6 ≤ length rsp → Returns WholeInformation (information rsp)
unfolding information u8_at slice_from
information-Whole rsp h = ground (arith, length-drop 2 rsp)

data_list-Whole : (rsp : List ℕ) → 4 ≤ length rsp → Returns WholeData (data_list rsp)
unfolding data_list u8_at slice_from
data_list-Whole rsp h = ground (arith, length-drop 2 rsp)

prepared_part-Returns : (rsp : List ℕ) → 5 ≤ length rsp → Returns AnyValue (prepared_part rsp)
unfolding prepared_part u16_at slice_from
prepared_part-Returns rsp h = ground arith

length-set_of_handles : (hs : List ℕ) → length (set_of_handles hs) ≡ length hs * 2
length-set_of_handles [] = omega arith
length-set_of_handles (h ∷ hs) = omega (arith, length-set_of_handles hs)

-- A reply that has passed the validation.
abbrev pub Judged : ℕ → Reply → Type 0
Judged min_len (response rsp) = (1 ≤ length rsp) × (min_len ≤ length rsp)
Judged min_len (failed e) = Unit {0}

validate-Judged :
    (want min_len : ℕ) (rsp : List ℕ)
    → 0 < length rsp
    → Returns (Judged min_len) (validate want min_len rsp)
unfolding validate u8_at
validate-Judged want min_len rsp h = ground arith

-- A peer that answers every request of at most n bytes by one byte or more.
abbrev pub Answers {ℓ} : {S : Type ℓ} → ℕ → (S → List ℕ → Go (List ℕ × S)) → Type ℓ
Answers {S = S} n peer =
    (s : S) (req : List ℕ)
    → 0 < length req
    → length req ≤ n
    → Returns (λ (a : List ℕ × S). 0 < length a.0) (peer s req)

module _ {S : Type 0} (peer : S → List ℕ → Go (List ℕ × S)) (n : ℕ) (answers : Answers n peer) where
  round_trip-Judged :
      (want min_len : ℕ) (req : List ℕ) (s : S)
      → 0 < length req
      → length req ≤ n
      → Returns (λ (a : Reply × S). Judged min_len a.0) (round_trip peer want min_len req s)
  unfolding round_trip
  round_trip-Judged want min_len req s h k =
      >>=-Returns (λ (a : List ℕ × S). 0 < length a.0) (λ (a : Reply × S). Judged min_len a.0)
        (peer s req) (λ a. validate want min_len a.0 >>= λ r. ok (r, a.1)) (answers s req h k)
        (λ a l.
          >>=-Returns (Judged min_len) (λ (b : Reply × S). Judged min_len b.0)
            (validate want min_len a.0) (λ r. ok (r, a.1)) (validate-Judged want min_len a.0 l)
            (λ r j. j))

  transact-Returns :
      (P : Value → Type 0)
      → ((e : ClientError) → P (error e))
      → (pdu : List ℕ) (want min_len : ℕ) (check : List ℕ → Go Value) (s : S) → 0 < length pdu
      → length pdu ≤ n
      → ((rsp : List ℕ) → 1 ≤ length rsp → min_len ≤ length rsp → Returns P (check rsp))
      → Returns (λ (a : Value × S). P a.0) (transact peer n pdu want min_len check s)
  unfolding transact
  transact-Returns P err pdu want min_len check s h k c = rw (put-ok n [] pdu (omega arith)) (
      >>=-Returns (λ (a : Reply × S). Judged min_len a.0) (λ (b : Value × S). P b.0)
        (round_trip peer want min_len pdu s) (λ a. judge a.0 check >>= λ v. ok (v, a.1))
        (round_trip-Judged want min_len pdu s h k)
        (λ a j.
          >>=-Returns P (λ (b : Value × S). P b.0) (judge a.0 check) (λ v. ok (v, a.1))
            (judged a.0 j) (λ v q. q)))
    where
      judged : (r : Reply) → Judged min_len r → Returns P (judge r check)
      judged (response rsp) j = c rsp j.0 j.1
      judged (failed e) j = err e

uuid_small :
    (a b : ℕ) (u : List ℕ)
    → (ltb b a || not (length u == 2) && not (length u == 16)) ≡ false
    → length u ≤ 16
uuid_small a b u t = ground arith

handles_fit : (m n : ℕ) → (ltb n 2 || ltb m (n * 2 + 1)) ≡ false → n * 2 + 1 ≤ m
handles_fit m n t = ground arith

not_above : (m n : ℕ) → ltb m n ≡ false → n ≤ m
not_above m n t = ground arith

rest-Returns :
    (rsp : List ℕ) → 1 ≤ length rsp → Returns AnyValue (slice_from rsp 1 >>= λ ds. ok (bytes ds))
unfolding slice_from
rest-Returns rsp h = ground arith

-- What Read and ReadBlob return.
abbrev pub as_value : Reply → Value
as_value (failed e) = error e
as_value (response v) = bytes v

-- The requests with their arguments; Read and ReadBlob slice the txBuf for three and five bytes.
pub data Call : Type 0 where
  read_call : ℕ → Call
  read_blob_call : ℕ → ℕ → Call
  find_information_call : ℕ → ℕ → Call
  read_by_type_call : ℕ → ℕ → List ℕ → Call
  read_by_group_type_call : ℕ → ℕ → List ℕ → Call
  read_multiple_call : List ℕ → Call
  write_call : ℕ → List ℕ → Call
  prepare_write_call : ℕ → ℕ → List ℕ → Call
  execute_write_call : ℕ → Call

unfoldable pub perform :
    {S : Type 0} → (S → List ℕ → Go (List ℕ × S)) → Room → Call → S → Go (Value × S)
perform peer c (read_call h) s =
    if ltb c.tx_buf 3 then panic else (read peer h s >>= λ a. ok (as_value a.0, a.1))
perform peer c (read_blob_call h o) s =
    if ltb c.tx_buf 5 then panic else (read_blob peer h o s >>= λ a. ok (as_value a.0, a.1))
perform peer c (find_information_call a b) s = find_information peer c a b s
perform peer c (read_by_type_call a b u) s = read_by_type peer c a b u s
perform peer c (read_by_group_type_call a b u) s = read_by_group_type peer c a b u s
perform peer c (read_multiple_call hs) s = read_multiple peer c hs s
perform peer c (write_call h v) s = write peer c h v s
perform peer c (prepare_write_call h o v) s = prepare_write peer c h o v s
perform peer c (execute_write_call f) s = execute_write peer c f s

abbrev pub Whole : Call → Value → Type 0
Whole (find_information_call a b) v = WholeInformation v
Whole (read_by_type_call a b u) v = WholeData v
Whole (read_by_group_type_call a b u) v = WholeData v
Whole _ v = Unit {0}

module _ {S : Type 0} (peer : S → List ℕ → Go (List ℕ × S)) (c : Room) (large : 23 ≤ c.tx_buf)
    (agreed : c.tx_mtu ≤ c.tx_buf) (answers : Answers c.tx_buf peer) where
  enough : (n : ℕ) → n ≤ 23 → ltb c.tx_buf n ≡ false
  enough n h = ground arith

  -- A test in front of a request.
  guarded :
      (P : Value → Type 0) (t : Bool) (e : ClientError) (m : Go (Value × S)) (s : S)
      → P (error e)
      → (t ≡ false → Returns (λ (a : Value × S). P a.0) m)
      → Returns (λ (a : Value × S). P a.0) (if t then ok (error e, s) else m)
  guarded P true e m s h k = h
  guarded P false e m s h k = k refl

  value_of-Returns : (r : Reply) → Judged 1 r → Returns (λ v. Unit {0}) (value_of r)
  unfolding value_of slice_from
  value_of-Returns (failed e) j = tt
  value_of-Returns (response rsp) j = ground arith

  abbrev AnyReply : Reply × S → Type 0
  AnyReply a = Unit {0}

  value-Returns :
      (want : ℕ) (req : List ℕ) (s : S)
      → 0 < length req
      → length req ≤ c.tx_buf
      → Returns AnyReply
          (round_trip peer want 1 req s >>= λ (a : Reply × S). value_of a.0 >>= λ v. ok (v, a.1))
  value-Returns want req s h k =
      >>=-Returns (λ (a : Reply × S). Judged 1 a.0) AnyReply (round_trip peer want 1 req s)
        (λ a. value_of a.0 >>= λ v. ok (v, a.1))
        (round_trip-Judged peer c.tx_buf answers want 1 req s h k)
        (λ a j.
          >>=-Returns (λ v. Unit {0}) AnyReply (value_of a.0) (λ v. ok (v, a.1))
            (value_of-Returns a.0 j) (λ v _. tt))

  -- A read behind its slice of the txBuf.
  read_value :
      (m : Go (Reply × S))
      → Returns AnyReply m
      → Returns (λ (a : Value × S). Unit {0}) (m >>= λ (a : Reply × S). ok (as_value a.0, a.1))
  read_value (ok a) h = tt
  read_value panic h = h

  pub perform-Whole :
      (x : Call) (s : S) → Returns (λ (a : Value × S). Whole x a.0) (perform peer c x s)
  unfolding perform read read_blob find_information read_by_type read_by_group_type read_multiple
      write prepare_write execute_write
  perform-Whole (read_call h) s = rw (enough 3 (omega arith)) (
      read_value (read peer h s) (value-Returns 0x0b (0x0a ∷ le16 h) s (omega arith) (omega arith)))
  perform-Whole (read_blob_call h o) s = rw (enough 5 (omega arith)) (
      read_value (read_blob peer h o s)
        (value-Returns 0x0d (0x0c ∷ le16 h ++ le16 o) s (omega arith) (omega arith)))
  perform-Whole (find_information_call a b) s =
      guarded WholeInformation (a == 0 || ltb b a) invalid_argument _ s tt (λ t.
        transact-Returns peer c.tx_buf answers WholeInformation (λ e. tt) _ _ 6 information s
          (omega arith) (omega arith) (λ rsp l k. information-Whole rsp k))
  perform-Whole (read_by_type_call a b u) s =
      guarded WholeData (ltb b a || not (length u == 2) && not (length u == 16)) invalid_argument _
        s tt
        (λ t.
          transact-Returns peer c.tx_buf answers WholeData (λ e. tt) _ _ 4 data_list s (omega arith)
            (omega (arith, uuid_small a b u t)) (λ rsp l k. data_list-Whole rsp k))
  perform-Whole (read_by_group_type_call a b u) s =
      guarded WholeData (ltb b a || not (length u == 2) && not (length u == 16)) invalid_argument _
        s tt
        (λ t.
          transact-Returns peer c.tx_buf answers WholeData (λ e. tt) _ _ 4 data_list s (omega arith)
            (omega (arith, uuid_small a b u t)) (λ rsp l k. data_list-Whole rsp k))
  perform-Whole (read_multiple_call hs) s =
      guarded AnyValue (ltb (length hs) 2 || ltb c.tx_mtu (length hs * 2 + 1)) invalid_argument _ s
        tt
        (λ t.
          transact-Returns peer c.tx_buf answers AnyValue (λ e. tt) _ _ 1 _ s (omega arith)
            (omega (arith, length-set_of_handles hs, handles_fit c.tx_mtu (length hs) t))
            (λ rsp l k. rest-Returns rsp k))
  perform-Whole (write_call h v) s =
      guarded AnyValue (ltb c.tx_mtu (length v + 3)) invalid_argument _ s tt (λ t.
        transact-Returns peer c.tx_buf answers AnyValue (λ e. tt) _ _ 0 _ s (omega arith)
          (omega (arith, not_above c.tx_mtu (length v + 3) t)) (λ rsp l k. tt))
  perform-Whole (prepare_write_call h o v) s =
      guarded AnyValue (ltb c.tx_mtu (length v + 5)) invalid_argument _ s tt (λ t.
        transact-Returns peer c.tx_buf answers AnyValue (λ e. tt) _ _ 5 prepared_part s
          (omega arith) (omega (arith, not_above c.tx_mtu (length v + 5) t))
          (λ rsp l k. prepared_part-Returns rsp k))
  perform-Whole (execute_write_call f) s =
      transact-Returns peer c.tx_buf answers AnyValue (λ e. tt) _ _ 0 _ s (omega arith)
        (omega arith) (λ rsp l k. tt)
