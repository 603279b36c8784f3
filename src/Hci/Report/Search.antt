-- ===== src/Hci/Report/Search.antt =====
-- The search of the advertisement history: what it finds, and where it never ends.
use ble.Base.{
  ℕ, zero, suc, ◌+◌, ◌-◌, ◌≤◌, ◌<◌, Bool, true, false, Option, none, some, List, [], ◌∷◌, ◌++◌, Go,
  ok, Loop, done, out_of_fuel, length, get_elem?, ◌==◌, if◌then◌else◌, bytes_eq, ◌≡◌, ◌≢◌, refl,
  ◌∙◌, arith,
}
use ble.Hci.Report.{Report, examine, round_index, search_hist}
use ble.Hci.Report.Valid.{IsReport, count_of, address_of, address-ok}

-- The entries hold reports that validAdvReport has accepted.
abbrev pub Holds : Option Report → Type 0
Holds none = Unit {0}
Holds (some a) = IsReport a.event × (a.index < count_of a.event)

abbrev pub AllHold : List (Option Report) → Type 0
AllHold [] = Unit {0}
AllHold (h ∷ hs) = Holds h × AllHold hs

-- The entry at an index, with none behind the end.
abbrev pub entry : List (Option Report) → ℕ → Option Report
entry [] i = none
entry (h ∷ hs) zero = h
entry (h ∷ hs) (suc i) = entry hs i

pub entry-Holds :
    (hist : List (Option Report)) (i : ℕ)
    → AllHold hist
    → i < length hist
    → (get_elem? hist i ≡ some (entry hist i)) × Holds (entry hist i)
entry-Holds [] i h l = absurd (omega arith)
entry-Holds (x ∷ hs) zero h l = (refl, h.0)
entry-Holds (x ∷ hs) (suc i) h l = entry-Holds hs i h.1 (omega arith)

-- The n entries from `base` on, the last first.
unfoldable pub downward : List (Option Report) → ℕ → ℕ → List (Option Report)
downward hist base zero = []
downward hist base (suc n) = entry hist (base + n) ∷ downward hist base n

abbrev pub matches : List ℕ → Report → Bool
matches addr a = bytes_eq (address_of a.event a.index) addr

-- The first report of an address before the first empty entry.
unfoldable pub first_match : List ℕ → List (Option Report) → Option Report
first_match addr [] = none
first_match addr (none ∷ hs) = none
first_match addr (some a ∷ hs) = if matches addr a then some a else first_match addr hs

not_same : (k l : ℕ) → k ≢ l → (k == l) ≡ false
not_same k l h = ground arith

same_self : (k : ℕ) → (k == k) ≡ true
same_self k = ground arith

wraps : (size : ℕ) → round_index size 0 ≡ size - 1
unfolding round_index
wraps size = refl

goes_down : (size k : ℕ) → round_index size (suc k) ≡ k
unfolding round_index
goes_down size k = ground arith

zero_plus : (n : ℕ) → 0 + n ≡ n
zero_plus n = omega arith

module _ (hist : List (Option Report)) (holds : AllHold hist) (addr : List ℕ) (last : ℕ) where
  examine-entry :
      (h : Option Report) (rest : Go (Loop (Option Report))) (tail : List (Option Report))
      → Holds h
      → rest ≡ ok (done (first_match addr tail))
      → examine (some h) addr rest ≡ ok (done (first_match addr (h ∷ tail)))
  unfolding first_match examine
  examine-entry none rest tail v e = refl
  examine-entry (some a) rest tail v e = rw (address-ok a.event v.0 a.index v.1, e) (ground arith)

  step_down :
      (fuel k idx : ℕ) (tail : List (Option Report))
      → k ≢ last + 1
      → round_index (length hist) k ≡ idx
      → idx < length hist
      → search_hist fuel idx last hist addr ≡ ok (done (first_match addr tail))
      → search_hist (suc fuel) k last hist addr
        ≡ ok (done (first_match addr (entry hist idx ∷ tail)))
  unfolding search_hist
  step_down fuel k idx tail n q l e =
      rw (not_same k (last + 1) n, q, (entry-Holds hist idx holds l).0)
        (examine-entry (entry hist idx) (search_hist fuel idx last hist addr) tail
          (entry-Holds hist idx holds l).1 e)

  -- From behind the last index down to `last`.
  search_above :
      (fuel n : ℕ)
      → n < fuel
      → last + 1 + n ≤ length hist
      → search_hist fuel (last + 1 + n) last hist addr
        ≡ ok (done (first_match addr (downward hist (last + 1) n)))
  unfolding downward search_hist first_match
  search_above zero n f l = absurd (omega arith)
  search_above (suc fuel) zero f l =
      let e : last + 1 + 0 ≡ last + 1 = omega arith in
      rw (e, search_hist, same_self (last + 1)) refl
  search_above (suc fuel) (suc n) f l =
      step_down fuel (last + 1 + suc n) (last + 1 + n) (downward hist (last + 1) n) (omega arith)
        (let e : last + 1 + suc n ≡ suc (last + 1 + n) = omega arith in
          rw e (goes_down (length hist) (last + 1 + n)))
        (omega arith) (search_above fuel n (omega arith) (omega arith))

  -- From before `last` down to the first entry, and on from the last one.
  search_below :
      (fuel n : ℕ)
      → n + length hist < fuel
      → n ≤ last
      → last + 1 < length hist
      → search_hist fuel n last hist addr
        ≡ ok (
            done (
              first_match addr
                (downward hist 0 n ++ downward hist (last + 1) (length hist - (last + 1)))))
  unfolding downward
  search_below zero n f l b = absurd (omega arith)
  search_below (suc fuel) zero f l b =
      let m : ℕ = length hist - (last + 1) - 1 in
      let e : length hist - (last + 1) ≡ suc m = omega arith in
      rw e (
        step_down fuel 0 (last + 1 + m) (downward hist (last + 1) m) (omega arith)
          (wraps (length hist) ∙ omega arith) (omega arith)
          (search_above fuel m (omega arith) (omega arith)))
  search_below (suc fuel) (suc n) f l b = rw (zero_plus n) (
      step_down fuel (suc n) n
        (downward hist 0 n ++ downward hist (last + 1) (length hist - (last + 1))) (omega arith)
        (goes_down (length hist) n) (omega arith)
        (search_below fuel n (omega arith) (omega arith) b))

-- Where the history has places behind `last`, the search for a scan response ends with fuel for twice its
-- places, and returns the first report of the address going back from `last`, through the start to the
-- end and down to behind `last`, unless an empty place comes first.
pub search_hist-first_match :
    (hist : List (Option Report)) (addr : List ℕ) (last fuel : ℕ)
    → AllHold hist
    → last + 1 < length hist
    → last + length hist < fuel
    → search_hist fuel last last hist addr
      ≡ ok (
          done (
            first_match addr
              (downward hist 0 last ++ downward hist (last + 1) (length hist - (last + 1)))))
search_hist-first_match hist addr last fuel h b f =
    search_below hist h addr last fuel last f (omega arith) b

-- No entry is empty or of the address.
abbrev pub NoMatch : List ℕ → List (Option Report) → Type 0
NoMatch addr [] = Unit {0}
NoMatch addr (none ∷ hs) = ⊥
NoMatch addr (some a ∷ hs) = (matches addr a ≡ false) × NoMatch addr hs

NoMatch-entry :
    (hist : List (Option Report)) (addr : List ℕ) (i : ℕ)
    → AllHold hist
    → NoMatch addr hist
    → i < length hist
    → (a : Report) × (get_elem? hist i ≡ some (some a)) × Holds (some a) × (matches addr a ≡ false)
NoMatch-entry [] addr i h n l = absurd (omega arith)
NoMatch-entry (none ∷ hs) addr i h n l = absurd n
NoMatch-entry (some a ∷ hs) addr zero h n l = (a, refl, h.0, n.0)
NoMatch-entry (some a ∷ hs) addr (suc i) h n l = NoMatch-entry hs addr i h.1 n.1 (omega arith)

examine-other :
    (a : Report) (addr : List ℕ) (rest : Go (Loop (Option Report)))
    → Holds (some a)
    → matches addr a ≡ false
    → examine (some (some a)) addr rest ≡ rest
unfolding examine
examine-other a addr rest v m = rw (address-ok a.event v.0 a.index v.1, m) refl

round_index-le : (size last k : ℕ) → last + 1 ≡ size → k ≤ last → round_index size k ≤ last
unfolding round_index
round_index-le size last k e h = ground arith

-- Where `last` is the last place of a full history without a report of the address, the search never
-- ends: no fuel is enough.
pub search_hist-diverges :
    (hist : List (Option Report)) (addr : List ℕ) (last k : ℕ)
    → AllHold hist
    → NoMatch addr hist
    → last + 1 ≡ length hist
    → k ≤ last
    → (fuel : ℕ) → search_hist fuel k last hist addr ≡ ok out_of_fuel
unfolding search_hist
search_hist-diverges hist addr last k h n e l zero = refl
search_hist-diverges hist addr last k h n e l (suc fuel) =
    let idx : ℕ = round_index (length hist) k in
    let r = round_index-le (length hist) last k e l in
    let (a, g, v, m) = NoMatch-entry hist addr idx h n (omega (arith, r)) in
    rw (not_same k (last + 1) (omega arith), g)
      (examine-other a addr (search_hist fuel idx last hist addr) v m
        ∙ search_hist-diverges hist addr last idx h n e r fuel)
