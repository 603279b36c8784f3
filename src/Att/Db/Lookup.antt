-- ===== src/Att/Db/Lookup.antt =====
-- What the lookups of the attribute database find, for a database whose handles count up from its
-- base, as the one that NewDB builds.
use ble.Base.{
  ℕ, zero, suc, ◌+◌, ◌-◌, ◌≤◌, ◌<◌, ◌&&◌, none, some, List, [], ◌∷◌, ok, length, ◌⊎◌, get_elem?,
  take, drop, leb, if◌then◌else◌, ◌≡◌, refl, ◌∙◌, arith, inl, inr, take_all, length-drop, sym,
}
use ble.Att.Db.{Attr, Db, at, subrange}

-- Handles are consecutive, from `n` on.
abbrev pub Numbered : ℕ → List Attr → Type 0
Numbered n [] = Unit {0}
Numbered n (a ∷ xs) = (a.h ≡ n) × Numbered (n + 1) xs

-- The attributes whose handle lies in [start, end], in order.
abbrev pub in_range : ℕ → ℕ → List Attr → List Attr
in_range start end [] = []
in_range start end (a ∷ xs) =
    if leb start a.h && leb a.h end then a ∷ in_range start end xs else in_range start end xs

in_range_above :
    (start end n : ℕ) (xs : List Attr) → Numbered n xs → end < n → in_range start end xs ≡ []
in_range_above start end n [] w h = refl
in_range_above start end n (a ∷ xs) w h = ground (arith, in_range_above start end (n + 1) xs w.1)

in_range_from :
    (k start end n : ℕ) (xs : List Attr)
    → Numbered n xs
    → start ≤ n
    → end + 1 ≡ n + k
    → in_range start end xs ≡ take k xs
in_range_from zero start end n xs w s e = in_range_above start end n xs w (omega arith)
in_range_from (suc k) start end n [] w s e = refl
in_range_from (suc k) start end n (a ∷ xs) w s e =
    ground (arith, in_range_from k start end (n + 1) xs w.1)

in_range_skip :
    (i k start end n : ℕ) (xs : List Attr)
    → Numbered n xs
    → start ≡ n + i
    → end + 1 ≡ start + k
    → in_range start end xs ≡ take k (drop i xs)
in_range_skip zero k start end n xs w s e =
    in_range_from k start end n xs w (omega arith) (omega arith)
in_range_skip (suc i) zero start end n [] w s e = refl
in_range_skip (suc i) (suc k) start end n [] w s e = refl
in_range_skip (suc i) k start end n (a ∷ xs) w s e =
    ground (arith, in_range_skip i k start end (n + 1) xs w.1)

take-nil : (k : ℕ) → take {A = Attr} k [] ≡ []
take-nil zero = refl
take-nil (suc k) = refl

take_more : (k : ℕ) (xs : List Attr) → length xs ≤ k → take k xs ≡ take (length xs) xs
take_more k xs h = take_all k xs h ∙ sym (take_all (length xs) xs (omega arith))

in_range_beyond :
    (start end n : ℕ) (xs : List Attr)
    → Numbered n xs
    → n + length xs ≤ start
    → in_range start end xs ≡ []
in_range_beyond start end n [] w h = refl
in_range_beyond start end n (a ∷ xs) w h = ground (arith, in_range_beyond start end (n + 1) xs w.1)

-- On a range that is not empty `subrange` never slices out of bounds, and returns exactly the
-- attributes whose handle lies in the range, in their order.
pub subrange-in_range :
    (r : Db) (start end : ℕ)
    → Numbered r.base r.attrs
    → start ≤ end
    → subrange r start end ≡ ok (in_range start end r.attrs)
unfolding subrange
subrange-in_range r start end w h =
    let i = start - r.base in
    let k = end + 1 - start in
    let m = end + 1 - r.base in
    ground (
      arith,
      in_range_above start end r.base r.attrs w,
      in_range_from m start end r.base r.attrs w,
      take_more m r.attrs,
      in_range_beyond start end r.base r.attrs w,
      in_range_skip i k start end r.base r.attrs w,
      take_more k (drop i r.attrs),
      length-drop i r.attrs,
    )

get_elem?-Numbered :
    (n i : ℕ) (xs : List Attr)
    → Numbered n xs
    → i < length xs
    → (a : Attr) × (get_elem? xs i ≡ some a) × (a.h ≡ n + i)
get_elem?-Numbered n i [] w h = absurd (omega arith)
get_elem?-Numbered n zero (a ∷ xs) w h = (a, refl, omega (arith, w.0))
get_elem?-Numbered n (suc i) (a ∷ xs) w h =
    let (b, e, d) = get_elem?-Numbered (n + 1) i xs w.1 (omega arith) in (b, e, omega arith)

-- `at` finds the attribute of every handle of the database, at its place, and of no other handle.
pub at_lem :
    (r : Db) (h : ℕ)
    → Numbered r.base r.attrs
    → ((r.base ≤ h)
        × (h < r.base + length r.attrs)
        × ((a : Attr) × (at r h ≡ some (h - r.base, a)) × (a.h ≡ h)))
      ⊎ (((h < r.base) ⊎ (r.base + length r.attrs ≤ h)) × (at r h ≡ none))
unfolding at
at_lem r h w = elim (cases h) [
  | inl lo ↦ inr (inl lo, ground arith)
  | inr (inl hi) ↦ inr (inr hi, ground arith)
  | inr (inr (lo, hi)) ↦
      let (a, e, d) = get_elem?-Numbered r.base (h - r.base) r.attrs w (omega arith) in
      inl (lo, hi, (a, ground arith, omega arith))
]
  where
    cases :
        (h : ℕ)
        → (h < r.base)
          ⊎ ((r.base + length r.attrs ≤ h) ⊎ ((r.base ≤ h) × (h < r.base + length r.attrs)))
    cases h = ground arith

-- The index that `at` returns is the place of the attribute.
pub get_elem?-at :
    (r : Db) (h i : ℕ) (a : Attr) → at r h ≡ some (i, a) → get_elem? r.attrs i ≡ some a
unfolding at
get_elem?-at r h i a e = ground arith
