-- ===== src/Adv/Structures.antt =====
-- The reading of a packet by its structures: every string of bytes is a series of well-formed
-- structures with a tail at which the walks stop, and each walk finds what that reading says.
use ble.Base.{
  ℕ, zero, suc, ◌+◌, ◌-◌, ◌≤◌, ◌<◌, Bool, true, false, ◌||◌, Option, none, some, List, [], ◌∷◌,
  ◌++◌, done, length, take, drop, ltb, ◌==◌, if◌then◌else◌, ◌≡◌, refl, sym, ap, ◌∙◌, inl, inr,
  arith, length-append, take-append_eq, drop-append_eq, length-drop, length-take, take-append-drop,
  append_assoc, Bool-cases,
}
use ble.Adv.{field, field_loop, broken, payload, rest_of}

-- A structure: its type and its data.
abbrev pub Structure : Type 0
Structure = ℕ × List ℕ

abbrev pub encode : List Structure → List ℕ
encode [] = []
encode ((t, d) ∷ ss) = (length d + 1) ∷ t ∷ (d ++ encode ss)

-- The walks stop at such a tail: there is no room for a header, or the structure is broken.
abbrev pub stops : List ℕ → Bool
stops b = ltb (length b) 2 || broken b

-- The data of the first structure of the type.
abbrev pub find_type : ℕ → List Structure → Option (List ℕ)
find_type typ [] = none
find_type typ ((t, d) ∷ ss) = if t == typ then some d else find_type typ ss

-- A string of bytes as its structures and the tail behind them.
pub record Reading (b : List ℕ) : Type 0 where
  pub structures : List Structure
  pub tail : List ℕ
  pub split : b ≡ encode structures ++ tail
  pub stopped : stops tail ≡ true

-- One structure off the front.
module _ (t : ℕ) (d rest : List ℕ) where
  abbrev front : List ℕ
  front = (length d + 1) ∷ t ∷ (d ++ rest)

  payload-front : payload front ≡ d
  payload-front = take-append_eq (length d + 1 - 1) d rest (omega arith)

  rest_of-front : rest_of front ≡ rest
  rest_of-front =
      let e : 1 + (length d + 1) ≡ suc (suc (length d)) = omega arith in
      rw e (drop-append_eq (length d) d rest refl)

  broken-front : broken front ≡ false
  broken-front = ground (arith, length-append d rest)

  field_loop-front :
      (fuel typ : ℕ)
      → field_loop (suc fuel) typ front
        ≡ (if t == typ then done (some d) else field_loop fuel typ rest)
  unfolding field_loop
  field_loop-front fuel typ = ground (arith, broken-front, payload-front, rest_of-front)

encode-append :
    (t : ℕ) (d : List ℕ) (ss : List Structure) (tail : List ℕ)
    → encode ((t, d) ∷ ss) ++ tail ≡ front t d (encode ss ++ tail)
encode-append t d ss tail =
    ap (λ (x : List ℕ). (length d + 1) ∷ t ∷ x) (append_assoc d (encode ss) tail)

read : (fuel : ℕ) (b : List ℕ) → length b ≤ fuel → Reading b
read fuel [] h = record { structures = []; tail = []; split = refl; stopped = refl }
read fuel (l ∷ []) h = record { structures = []; tail = l ∷ []; split = refl; stopped = refl }
read zero (l ∷ t ∷ rest) h = absurd (omega arith)
read (suc fuel) (l ∷ t ∷ rest) h = elim (Bool-cases (stops (l ∷ t ∷ rest))) [
  | inl e ↦ record { structures = []; tail = l ∷ t ∷ rest; split = refl; stopped = e }
  | inr e ↦
      let d : List ℕ = take (l - 1) rest in
      let r = read fuel (drop (l - 1) rest) (omega (arith, length-drop (l - 1) rest)) in
      let n : length d + 1 ≡ l = ground (arith, length-take (l - 1) rest) in
      record {
        structures = (t, d) ∷ r.structures;
        tail = r.tail;
        split = sym (
            encode-append t d r.structures r.tail
            ∙ rw (n, ← r.split) (ap (λ (x : List ℕ). l ∷ t ∷ x) (take-append-drop (l - 1) rest)));
        stopped = r.stopped;
      }
]

-- Every string of bytes has such a reading.
pub reading : (b : List ℕ) → Reading b
reading b = read (length b) b (omega arith)

field_loop-find_type :
    (fuel typ : ℕ) (ss : List Structure) (tail : List ℕ)
    → stops tail ≡ true
    → length (encode ss ++ tail) < fuel
    → field_loop fuel typ (encode ss ++ tail) ≡ done (find_type typ ss)
field_loop-find_type zero typ ss tail s h = absurd (omega arith)
field_loop-find_type (suc fuel) typ [] tail s h = unfold field_loop in ground arith
field_loop-find_type (suc fuel) typ ((t, d) ∷ ss) tail s h =
    let e = encode-append t d ss tail in
    let n : length (encode ((t, d) ∷ ss) ++ tail)
        ≡ suc (suc (length d + length (encode ss ++ tail))) =
      omega (arith, ap length e, length-append d (encode ss ++ tail)) in
    rw (e, field_loop-front t d (encode ss ++ tail) fuel typ)
      (ground (arith, field_loop-find_type fuel typ ss tail s (omega arith)))

-- On every string of bytes, however it was made, `Field` ends within its fuel and returns the data of
-- the first well-formed structure of the type, or nil where none before the tail has it.
pub field-find_type :
    (b : List ℕ) (r : Reading b) (typ : ℕ) → field b typ ≡ done (find_type typ r.structures)
unfolding field
field-find_type b r typ = go b r.split (suc (length b)) (omega arith)
  where
    go :
        (c : List ℕ)
        → c ≡ encode r.structures ++ r.tail
        → (fuel : ℕ) → length c < fuel
        → field_loop fuel typ c ≡ done (find_type typ r.structures)
    go c e fuel h =
        rw e
          (field_loop-find_type fuel typ r.structures r.tail r.stopped (omega (arith, ap length e)))
