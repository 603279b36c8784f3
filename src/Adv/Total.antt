-- ===== src/Adv/Total.antt =====
-- The readers of a packet end, whatever bytes a peer has sent.
use ble.Base.{
  ℕ, zero, suc, ◌+◌, ◌-◌, ◌<◌, Bool, true, false, Option, none, some, List, [], ◌∷◌, ◌++◌, Loop,
  done, out_of_fuel, length, length-drop, length-take, take, drop, All, get_or, ltb, leb, ltb→lt,
  ◌==◌, if◌then◌else◌, if_nil, ◌≡◌, refl, ◌⊎◌, arith, inl, inr, Bool-cases,
}
use ble.Adv.{
  broken, rest_of, field_pos_loop, field_pos, uuid_list_loop, uuid_list, and_then, uuids_loop,
  get_uuids_by_type,
}
use ble.Adv.Readers.{uuids}

-- The loop ends, with a value of `P`.
abbrev pub Ends {ℓ} : {A : Type ℓ} → (A → Type 0) → Loop A → Type 0
Ends P (done a) = P a
Ends P out_of_fuel = ⊥

and_then-Ends {ℓ κ} :
    {A : Type ℓ} {B : Type κ} (P : A → Type 0) (Q : B → Type 0) (m : Loop A) (f : A → Loop B)
    → Ends P m
    → ((a : A) → P a → Ends Q (f a))
    → Ends Q (and_then m f)
and_then-Ends P Q (done a) f h k = k a h
and_then-Ends P Q out_of_fuel f h k = h

if-Ends {ℓ} :
    {A : Type ℓ} (P : A → Type 0) (b : Bool) (m n : Loop A)
    → (b ≡ true → Ends P m)
    → (b ≡ false → Ends P n)
    → Ends P (if b then m else n)
if-Ends P true m n h k = h refl
if-Ends P false m n h k = k refl

Ends-mono {ℓ} :
    {A : Type ℓ} (P Q : A → Type 0) (m : Loop A) → Ends P m → ((a : A) → P a → Q a) → Ends Q m
Ends-mono P Q (done a) h k = k a h
Ends-mono P Q out_of_fuel h k = h

-- What fieldPos moves on by.
abbrev Beyond : ℕ → Option (List ℕ) × ℕ → Type 0
Beyond pos (b, pos') = pos < pos'

field_pos_loop-Ends :
    (fuel typ : ℕ) (b : List ℕ) (pos : ℕ)
    → 0 < length b
    → length b < fuel
    → Ends (Beyond pos) (field_pos_loop fuel typ b pos)
unfolding field_pos_loop
field_pos_loop-Ends zero typ b pos p h = absurd (omega arith)
field_pos_loop-Ends (suc fuel) typ b pos p h =
    if-Ends (Beyond pos) (length b == 0) _ _ (λ e. absurd (ground arith))
      λ _.
        if-Ends (Beyond pos) (broken b) _ _ (λ _. omega arith)
          λ e.
            if-Ends (Beyond pos) (get_or b 1 0 == typ) _ _ (λ _. omega arith)
              λ _.
                if-Ends (Beyond pos) (ltb (length (rest_of b)) 2) _ _ (λ _. omega arith)
                  λ f.
                    Ends-mono (Beyond (pos + 1 + get_or b 0 0)) (Beyond pos) _
                      (field_pos_loop-Ends fuel typ (rest_of b) (pos + 1 + get_or b 0 0)
                        (ground arith) (ground (arith, length-drop (1 + get_or b 0 0) b)))
                      (λ r q. omega (arith, q))

field_pos-Ends :
    (p : List ℕ) (typ offset : ℕ)
    → offset < length p
    → Ends (Beyond offset) (field_pos p typ offset)
unfolding field_pos
field_pos-Ends p typ offset h =
    let l = length-drop offset p in
    if-Ends (Beyond offset) (leb (length p) offset) _ _ (λ e. omega arith)
      λ _.
        if-Ends (Beyond offset) (ltb (length (drop offset p)) 2) _ _ (λ _. omega (arith, l))
          λ _.
            field_pos_loop-Ends (suc (length p)) typ (drop offset p) offset (omega (arith, l))
              (omega (arith, l))

All-snoc {ℓ} :
    {A : Type ℓ} (P : A → Type 0) (us : List A) (u : A) → All P us → P u → All P (us ++ (u ∷ []))
All-snoc P [] u h e = (e, tt)
All-snoc P (v ∷ us) u h e = (h.0, All-snoc P us u h.1 e)

-- Everything of `w` bytes satisfies `P`.
module _ (P : List ℕ → Type 0) (w : ℕ) (wide : 0 < w)
    (good : (u : List ℕ) → length u ≡ w → P u) where
  uuid_list_loop-Ends :
      (fuel : ℕ) (u : List (List ℕ)) (d : List ℕ)
      → length d < fuel
      → All P u
      → Ends (All P) (uuid_list_loop fuel u d w)
  unfolding uuid_list_loop
  uuid_list_loop-Ends zero u d h k = absurd (omega arith)
  uuid_list_loop-Ends (suc fuel) u d h k =
      if-Ends (All P) (leb w (length d)) _ _
        (λ e.
          uuid_list_loop-Ends fuel (u ++ (take w d ∷ [])) (drop w d)
            (ground (arith, length-drop w d))
            (All-snoc P u (take w d) k (good (take w d) (ground (arith, length-take w d)))))
        (λ _. k)

  add_uuids-Ends :
      (b : Option (List ℕ)) (u : List (List ℕ))
      → All P u
      → Ends (All P) (if_nil b (done u) λ d. uuid_list u d w)
  unfolding uuid_list
  add_uuids-Ends none u k = k
  add_uuids-Ends (some d) u k = uuid_list_loop-Ends (suc (length d)) u d (omega arith) k

  uuids_loop-Ends :
      (fuel : ℕ) (p : List ℕ) (typ : ℕ) (u : List (List ℕ)) (pos : ℕ)
      → length p - pos < fuel
      → All P u
      → Ends (All P) (uuids_loop fuel p typ u w pos)
  unfolding uuids_loop
  uuids_loop-Ends zero p typ u pos l k = absurd (omega arith)
  uuids_loop-Ends (suc fuel) p typ u pos l k = elim (Bool-cases (ltb pos (length p))) [
    | inr e ↦ rw (e, Ends, uuids_loop) k
    | inl e ↦
        rw (e, Ends, uuids_loop)
          (and_then-Ends (Beyond pos) (All P) (field_pos p typ pos) _
            (field_pos-Ends p typ pos (ltb→lt pos (length p) e))
            λ r q. and_then-Ends (All P) (All P) _ _ (add_uuids-Ends r.0 u k) (λ v j.
              uuids_loop-Ends fuel p typ v r.1 (omega (arith, q, ltb→lt pos (length p) e)) j))
  ]

  get_uuids_by_type-Ends :
      (p : List ℕ) (typ : ℕ) (u : List (List ℕ))
      → All P u
      → Ends (All P) (get_uuids_by_type p typ u w)
  unfolding get_uuids_by_type
  get_uuids_by_type-Ends p typ u k = uuids_loop-Ends (suc (length p)) p typ u 0 (omega arith) k

-- A UUID of one of the three lengths.
abbrev pub IsUuid : List ℕ → Type 0
IsUuid u = (length u ≡ 2) ⊎ ((length u ≡ 4) ⊎ (length u ≡ 16))

-- On every string of bytes, however a peer made it, UUIDs ends within its fuel, and each of the UUIDs it
-- returns has 2, 4 or 16 bytes.
pub uuids-Ends : (p : List ℕ) → Ends (All IsUuid) (uuids p)
unfolding uuids
uuids-Ends p =
    let two = get_uuids_by_type-Ends IsUuid 2 (omega arith) (λ u e. inl e) p in
    let four = get_uuids_by_type-Ends IsUuid 4 (omega arith) (λ u e. inr (inl e)) p in
    let sixteen = get_uuids_by_type-Ends IsUuid 16 (omega arith) (λ u e. inr (inr e)) p in
    let go = and_then-Ends (All IsUuid) (All IsUuid) in
    go _ _ (two 2 [] tt) λ a k. go _ _ (two 3 a k) λ b l.
      go _ _ (four 4 b l)
        λ c m. go _ _ (four 5 c m) λ d n. go _ _ (sixteen 6 d n) λ e q. sixteen 7 e q
