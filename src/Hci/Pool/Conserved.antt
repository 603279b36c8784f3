-- ===== src/Hci/Pool/Conserved.antt =====
-- No buffer is lost or in two places, and no send on a channel of the pool blocks.
use mathlib.Core.Path.{subst}
use ble.Base.{
  ℕ, zero, suc, ◌+◌, ◌≤◌, ◌<◌, ◌≢◌, some, List, [], ◌∷◌, ◌++◌, length, get_elem?, ◌==◌,
  if◌then◌else◌, ◌≡◌, refl, ◌∙◌, arith, length-append, append-nil, append_assoc, ◌⊎◌, inl, inr,
  Option-cases,
}
use ble.Hci.Pool.{
  Credits, Outcome, next, waits, gives_up, blocks, Op, get, acknowledge, reclaim, buffer, done,
  timer, perform, set_at, drain, send, get_timeout, get_buffer, put_back, reclaim_all, new_pool,
  buffers, new_sents,
}

-- How often a buffer stands in a list.
unfoldable pub copies : ℕ → List ℕ → ℕ
copies b [] = 0
copies b (x ∷ xs) = if x == b then suc (copies b xs) else copies b xs

copies-append : (b : ℕ) (xs ys : List ℕ) → copies b (xs ++ ys) ≡ copies b xs + copies b ys
unfolding copies
copies-append b [] ys = omega arith
copies-append b (x ∷ xs) ys = ground (arith, copies-append b xs ys)

module _ (μ : List ℕ → ℕ) where
  abbrev pub sum_by : List (List ℕ) → ℕ
  sum_by [] = 0
  sum_by (xs ∷ xss) = μ xs + sum_by xss

  sum_by-set_at :
      (xss : List (List ℕ)) (i : ℕ) (xs ys : List ℕ)
      → get_elem? xss i ≡ some xs
      → sum_by (set_at xss i ys) + μ xs ≡ sum_by xss + μ ys
  sum_by-set_at [] i xs ys e = cc
  sum_by-set_at (zs ∷ xss) zero xs ys e = ground arith
  sum_by-set_at (zs ∷ xss) (suc i) xs ys e = omega (arith, sum_by-set_at xss i xs ys e)

  le-sum_by :
      (xss : List (List ℕ)) (i : ℕ) (xs : List ℕ) → get_elem? xss i ≡ some xs → μ xs ≤ sum_by xss
  le-sum_by [] i xs e = cc
  le-sum_by (zs ∷ xss) zero xs e = ground arith
  le-sum_by (zs ∷ xss) (suc i) xs e = omega (arith, le-sum_by xss i xs e)

-- The buffers of a state, counted by length, and the copies of one of them.
abbrev pub total : Credits → ℕ
total s = length s.ch + sum_by length s.sents

abbrev pub everywhere : ℕ → Credits → ℕ
everywhere b s = copies b s.ch + sum_by (copies b) s.sents

send_lem : (cnt b : ℕ) (xs : List ℕ) → length xs < cnt → send cnt xs b ≡ some (xs ++ (b ∷ []))
unfolding send
send_lem cnt b xs h = ground arith

drain-all :
    (cnt : ℕ) (ch xs : List ℕ) → length ch + length xs ≤ cnt → drain cnt ch xs ≡ some (ch ++ xs)
unfolding drain
drain-all cnt ch [] h = rw (append-nil ch) refl
drain-all cnt ch (b ∷ bs) h =
    rw
      (
        send_lem cnt b ch (omega arith),
        drain-all cnt (ch ++ (b ∷ [])) bs (omega (arith, length-append ch (b ∷ []))),
        append_assoc ch (b ∷ []) bs,
        drain,
      )
      refl

-- The buffers are those of before, and nothing blocks.
abbrev pub Kept : ℕ → Credits → Outcome → Type 0
Kept cnt s (next t) = (total t ≡ cnt) × ((b : ℕ) → everywhere b t ≡ everywhere b s)
Kept cnt s waits = Unit {0}
Kept cnt s gives_up = Unit {0}
Kept cnt s blocks = ⊥

get_buffer-Kept :
    (cnt i : ℕ) (ch : List ℕ) (xss : List (List ℕ))
    → total (record { ch = ch; sents = xss }) ≡ cnt
    → Kept cnt
        (record { ch = ch; sents = xss })
        (get_buffer cnt i (record { ch = ch; sents = xss }))
unfolding get_buffer copies
get_buffer-Kept cnt i [] xss h = tt
get_buffer-Kept cnt i (b ∷ bs) xss h = elim (Option-cases (get_elem? xss i)) [
  | inl e ↦ rw (e, Kept, get_buffer) (h, λ b. refl)
  | inr (xs, e) ↦
      let l = le-sum_by length xss i xs e in
      rw (e, send_lem cnt b xs (omega (arith, l, h)), Kept, get_buffer)
        (
          omega (
            arith,
            h,
            sum_by-set_at length xss i xs (xs ++ (b ∷ [])) e,
            length-append xs (b ∷ []),
          ),
          λ c. ground (
            arith,
            sum_by-set_at (copies c) xss i xs (xs ++ (b ∷ [])) e,
            copies-append c xs (b ∷ []),
          ),
        )
]

put_back-Kept : (cnt i : ℕ) (s : Credits) → total s ≡ cnt → Kept cnt s (put_back cnt i s)
unfolding put_back copies
put_back-Kept cnt i s h = elim (Option-cases (get_elem? s.sents i)) [
  | inl e ↦ rw (e, Kept, put_back) (h, λ b. refl)
  | inr ([], e) ↦ rw (e, Kept, put_back) (h, λ b. refl)
  | inr (b ∷ bs, e) ↦
      let l = le-sum_by length s.sents i (b ∷ bs) e in
      rw (e, send_lem cnt b s.ch (omega (arith, l, h)), Kept, put_back)
        (
          omega
              (arith, h, sum_by-set_at length s.sents i (b ∷ bs) bs e, length-append s.ch (b ∷ [])),
          λ c. ground (
            arith,
            sum_by-set_at (copies c) s.sents i (b ∷ bs) bs e,
            copies-append c s.ch (b ∷ []),
          ),
        )
]

reclaim_all-Kept : (cnt i : ℕ) (s : Credits) → total s ≡ cnt → Kept cnt s (reclaim_all cnt i s)
unfolding reclaim_all copies
reclaim_all-Kept cnt i s h = elim (Option-cases (get_elem? s.sents i)) [
  | inl e ↦ rw (e, Kept, reclaim_all) (h, λ b. refl)
  | inr (xs, e) ↦
      let l = le-sum_by length s.sents i xs e in
      rw (e, drain-all cnt s.ch xs (omega (arith, l, h)), Kept, reclaim_all)
        (
          omega (arith, h, sum_by-set_at length s.sents i xs [] e, length-append s.ch xs),
          λ c. omega (arith, sum_by-set_at (copies c) s.sents i xs [] e, copies-append c s.ch xs),
        )
]

perform-Kept : (cnt : ℕ) (op : Op) (s : Credits) → total s ≡ cnt → Kept cnt s (perform cnt op s)
unfolding perform get_timeout
perform-Kept cnt (get buffer i) s h = get_buffer-Kept cnt i s.ch s.sents h
perform-Kept cnt (get done i) s h = tt
perform-Kept cnt (get timer i) s h = tt
perform-Kept cnt (acknowledge i) s h = put_back-Kept cnt i s h
perform-Kept cnt (reclaim i) s h = reclaim_all-Kept cnt i s h

-- The states that operations reach from a new pool of cnt buffers and n connections.
pub data Reachable (cnt n : ℕ) : Credits → Type 0 where
  fresh : Reachable cnt n (new_pool cnt n)
  after :
      (op : Op) (s t : Credits) → Reachable cnt n s → perform cnt op s ≡ next t → Reachable cnt n t

total-new_pool : (cnt n : ℕ) → total (new_pool cnt n) ≡ cnt
unfolding new_pool new_sents buffers
total-new_pool zero zero = refl
total-new_pool zero (suc n) = omega (arith, total-new_pool zero n)
total-new_pool (suc cnt) n = omega (arith, total-new_pool cnt n)

everywhere-new_pool : (b cnt n : ℕ) → everywhere b (new_pool cnt n) ≡ copies b (buffers cnt)
unfolding new_pool new_sents copies
everywhere-new_pool b cnt zero = omega arith
everywhere-new_pool b cnt (suc n) = omega (arith, everywhere-new_pool b cnt n)

copies-buffers :
    (b cnt : ℕ) → (copies b (buffers cnt) ≡ 1 × b < cnt) ⊎ (copies b (buffers cnt) ≡ 0 × cnt ≤ b)
unfolding copies buffers
copies-buffers b zero = inr (refl, omega arith)
copies-buffers b (suc n) = ground (arith, copies-buffers b n)

Kept-next :
    (cnt : ℕ) (s t : Credits) (o : Outcome) → Kept cnt s o → o ≡ next t → Kept cnt s (next t)
Kept-next cnt s t o k e = subst (λ x. Kept cnt s x) e k

Reachable-total : (cnt n : ℕ) (s : Credits) → Reachable cnt n s → total s ≡ cnt
Reachable-total cnt n s fresh = total-new_pool cnt n
Reachable-total cnt n _ (after op s t r e) =
    (Kept-next cnt s t (perform cnt op s) (perform-Kept cnt op s (Reachable-total cnt n s r)) e).0

Reachable-everywhere :
    (cnt n b : ℕ) (s : Credits) → Reachable cnt n s → everywhere b s ≡ copies b (buffers cnt)
Reachable-everywhere cnt n b s fresh = everywhere-new_pool b cnt n
Reachable-everywhere cnt n b _ (after op s t r e) =
    (Kept-next cnt s t (perform cnt op s) (perform-Kept cnt op s (Reachable-total cnt n s r)) e).1 b
    ∙ Reachable-everywhere cnt n b s r

Kept-blocks : (cnt : ℕ) (s : Credits) (o : Outcome) → Kept cnt s o → o ≡ blocks → ⊥
Kept-blocks cnt s o k e = subst (λ x. Kept cnt s x) e k

-- In every state that gets, acknowledgements and reclaims of any connections reach from a new pool,
-- each of its cnt buffers is in exactly one place, once: idle in the pool or in flight on one
-- connection. And no operation blocks on a full channel there, whichever comes next.
pub Reachable-conserved :
    (cnt n : ℕ) (s : Credits)
    → Reachable cnt n s
    → ((b : ℕ) → b < cnt → everywhere b s ≡ 1)
      × (total s ≡ cnt)
      × ((op : Op) → perform cnt op s ≢ blocks)
Reachable-conserved cnt n s r = (
  λ b h. Reachable-everywhere cnt n b s r ∙ once b h,
  Reachable-total cnt n s r,
  λ op e.
      Kept-blocks cnt s (perform cnt op s) (perform-Kept cnt op s (Reachable-total cnt n s r)) e,
)
  where
    once : (b : ℕ) → b < cnt → copies b (buffers cnt) ≡ 1
    once b h = elim (copies-buffers b cnt) [ inl (e, _) ↦ e | inr (_, k) ↦ absurd (omega arith) ]
