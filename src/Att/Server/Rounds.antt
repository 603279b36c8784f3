-- ===== src/Att/Server/Rounds.antt =====
-- The loops over a range of attributes: no round panics, the response stays within the transmit
-- buffer, and the invariant of the server holds whatever the read handlers do.
use ble.Base.{
  ℕ, ◌+◌, ◌-◌, ◌≤◌, min, take, ◌==◌, if◌then◌else◌, false, not, ◌&&◌, ltb, List, [], ◌∷◌, ◌++◌, Go,
  ok, Returns, >>=-Returns, length, length-append, length-copy-le, ◌≡◌, ◌∙◌, arith, le16, put,
  slice_to, Option-cases, inl, inr, Bool-cases, le→leb,
}
use ble.Uuid.{equal, uuid16}
use ble.Att.Handler.{App, new_response_writer, empty_buffer}
use ble.Att.Db.{Attr}
use ble.Att.Server.State.{Server}
use ble.Att.Server.Scan.{
  Verdict, Scanned, next, stop, refuse, done, refused, scan, make_buffer, Info, Entries, Fetched,
  find_entry, type_entry, group_entry, fetch, find_information_step, find_by_type_value_step,
  read_by_type_step, read_by_group_step, is_static,
}
use ble.Att.Server.Inv.{Inv, same, Same, Subscribed, Inv-Same}
use ble.Att.Server.Calls.{Handles, Handled, handle_att-Kept}

-- The invariant, at a transmit buffer of `n` bytes.
abbrev pub Good : ℕ → Server → Type 0
Good n s = Inv s × (s.tx_len ≡ n)

module _ {S : Type 0} (n : ℕ) (P : S → Type 0) where
  abbrev pub RoundOk : Verdict S × Server → Type 0
  RoundOk (next x, s) = P x × Good n s
  RoundOk (stop x, s) = P x × Good n s
  RoundOk (refuse e, s) = Good n s

  abbrev pub ScanOk : Scanned S × Server → Type 0
  ScanOk (done x, s) = P x × Good n s
  ScanOk (refused e, s) = Good n s

  -- The rule of the loop: what every round keeps holds at the end.
  pub scan-Returns :
      (step : Attr → S → Server → Go (Verdict S × Server))
      → ((a : Attr) (x : S) (s : Server) → P x → Good n s → Returns RoundOk (step a x s))
      → (xs : List Attr) (x : S) (s : Server) → P x
      → Good n s
      → Returns ScanOk (scan step xs x s)
  unfolding scan
  scan-Returns step keep [] x s p g = (p, g)
  scan-Returns step keep (a ∷ xs) x s p g =
      >>=-Returns RoundOk ScanOk _ _ (keep a x s p g) (go (scan-Returns step keep xs))
    where
      go :
          ((x : S) (s : Server) → P x → Good n s → Returns ScanOk (scan step xs x s))
          → (r : Verdict S × Server) → RoundOk r
          → Returns ScanOk (elim r.0 [
            | next x1 ↦ scan step xs x1 r.1
            | stop x1 ↦ ok (done x1, r.1)
            | refuse e ↦ ok (refused e, r.1)
          ])
      go ih (next x1, s1) k = ih x1 s1 k.0 k.1
      go ih (stop x1, s1) k = k
      go ih (refuse e, s1) k = k

abbrev pub FitsIn : ℕ → List ℕ → Type 0
FitsIn cap out = length out ≤ cap

pub find_information_step-RoundOk :
    (cap n : ℕ) (a : Attr) (x : Info) (s : Server)
    → FitsIn cap x.1
    → Good n s
    → Returns (RoundOk n (λ (x : Info). FitsIn cap x.1)) (find_information_step cap a x s)
unfolding find_information_step put
find_information_step-RoundOk cap n a (format, out) s p g =
    ground (arith, length-append out (le16 a.h), length-copy-le cap (out ++ le16 a.h) a.typ)

abbrev pub EntriesFit : ℕ → Entries → Type 0
EntriesFit cap (dlen, out) = (dlen ≤ cap) × (length out ≤ cap)

find_entry-RoundOk :
    (value : List ℕ) (cap n : ℕ) (a : Attr) (out : List ℕ) (x : Fetched)
    → FitsIn cap out
    → Good n x.2
    → Returns (RoundOk n (FitsIn cap)) (find_entry value cap a out x)
unfolding find_entry put
find_entry-RoundOk value cap n a out (e, v, s) p g =
    let h = le16 (if is_static a then a.endh else a.h) in
    ground (arith, length-append out (le16 a.h), length-append (out ++ le16 a.h) h)

type_entry-RoundOk :
    (cap n : ℕ) (a : Attr) (y : Entries) (x : Fetched)
    → 4 ≤ cap
    → EntriesFit cap y
    → Good n x.2
    → Returns (RoundOk n (EntriesFit cap)) (type_entry cap a y x)
unfolding type_entry put slice_to
type_entry-RoundOk cap n a (dlen, out) (e, v, s) c p g =
    let dlen' = if dlen == 0 then min (min (2 + length v) 255) cap else dlen in
    ground (
      arith,
      length-append out (le16 a.h),
      length-copy-le cap (out ++ le16 a.h) (take (dlen' - 2) v),
    )

group_entry-RoundOk :
    (cap n : ℕ) (a : Attr) (y : Entries) (x : Fetched)
    → 4 ≤ cap
    → EntriesFit cap y
    → Good n x.2
    → Returns (RoundOk n (EntriesFit cap)) (group_entry cap a y x)
unfolding group_entry put slice_to
group_entry-RoundOk cap n a (dlen, out) (e, v, s) c p g =
    let dlen' = if dlen == 0 then min (min (4 + length v) 255) cap else dlen in
    ground (
      arith,
      length-append out (le16 a.h),
      length-append (out ++ le16 a.h) (le16 a.endh),
      length-copy-le cap ((out ++ le16 a.h) ++ le16 a.endh) (take (dlen' - 4) v),
    )

abbrev FetchOk : Server → Fetched → Type 0
FetchOk s x = Same s x.2 × Subscribed x.2.conn

Good-FetchOk : (n : ℕ) (s : Server) (x : Fetched) → Good n s → FetchOk s x → Good n x.2
Good-FetchOk n s x g k = (Inv-Same s x.2 g.0 k.0 k.1, k.0.tx_len ∙ g.1)

module _ (app : App) (r : List ℕ) (n : ℕ) where
  fetch-FetchOk :
      (a : Attr) (s : Server) (m k : ℕ)
      → (is_static a ≡ false → k ≤ m)
      → Handles app a r
      → Subscribed s.conn
      → Returns (FetchOk s) (fetch app a s r (make_buffer m k))
  unfolding fetch
  fetch-FetchOk a s m k l h b = elim (Option-cases a.v) [
    | inl e ↦
        rw (e, fetch, le→leb k m (l (rw e)))
          (>>=-Returns (Handled app (new_response_writer (empty_buffer (m - k))) s) (FetchOk s) _ _
            (handle_att-Kept app a s r _ h (omega arith) b) (λ x k. (k.0, k.1)))
    | inr (v, e) ↦ rw (e, fetch) (same s, b)
  ]

  pub find_by_type_value_step-RoundOk :
      (typ : ℕ) (value : List ℕ) (cap : ℕ) (a : Attr) (out : List ℕ) (s : Server)
      → Handles app a r
      → FitsIn cap out
      → Good n s
      → Returns (RoundOk n (FitsIn cap)) (find_by_type_value_step app r typ value cap a out s)
  unfolding find_by_type_value_step
  find_by_type_value_step-RoundOk typ value cap a out s h p g =
      elim (Bool-cases (equal a.typ (uuid16 typ))) [
        | inl e ↦ rw e (
            >>=-Returns (FetchOk s) (RoundOk n (FitsIn cap)) _ (find_entry value cap a out)
              (fetch-FetchOk a s s.tx_len 6 (λ d. omega arith) h g.0.subscribed)
              (λ x k. find_entry-RoundOk value cap n a out x p (Good-FetchOk n s x g k)))
        | inr e ↦ rw e (p, g)
      ]

  pub read_by_type_step-RoundOk :
      (typ : List ℕ) (cap : ℕ) (a : Attr) (y : Entries) (s : Server)
      → Handles app a r
      → 4 ≤ cap
      → EntriesFit cap y
      → Good n s
      → Returns (RoundOk n (EntriesFit cap)) (read_by_type_step app r typ cap a y s)
  unfolding read_by_type_step
  read_by_type_step-RoundOk typ cap a y s h c p g = elim (Bool-cases (equal a.typ typ)) [
    | inl e ↦ rw e (
        >>=-Returns (FetchOk s) (RoundOk n (EntriesFit cap)) _ (type_entry cap a y)
          (fetch-FetchOk a s s.tx_len 2 (λ d. omega arith) h g.0.subscribed)
          (λ x k. type_entry-RoundOk cap n a y x c p (Good-FetchOk n s x g k)))
    | inr e ↦ rw e (p, g)
  ]

  pub read_by_group_step-RoundOk :
      (typ : List ℕ) (cap : ℕ) (a : Attr) (y : Entries) (s : Server)
      → Handles app a r
      → 4 ≤ cap
      → EntriesFit cap y
      → Good n s
      → Returns (RoundOk n (EntriesFit cap)) (read_by_group_step app r typ cap a y s)
  unfolding read_by_group_step
  read_by_group_step-RoundOk typ cap a y s h c p g = elim (Bool-cases (equal a.typ typ)) [
    | inl e ↦ rw e (elim (Bool-cases (not (is_static a) && ltb cap (length y.1 + 4))) [
      | inl d ↦ rw d (p, g)
      | inr d ↦ rw d (
          >>=-Returns (FetchOk s) (RoundOk n (EntriesFit cap)) _ (group_entry cap a y)
            (fetch-FetchOk a s cap (length y.1 + 4) (λ b. ground arith) h g.0.subscribed)
            (λ x k. group_entry-RoundOk cap n a y x c p (Good-FetchOk n s x g k)))
    ])
    | inr e ↦ rw e (p, g)
  ]
