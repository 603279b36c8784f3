-- ===== src/Hci/Pool.antt =====
-- linux/hci/buffer.go: the pool of ACL buffers that all connections of an adapter share, and the
-- buffers that each has in flight. Buffers are numbered; a channel is the list of what it holds.
pub mod Conserved
use ble.Base.{
  ℕ, zero, suc, ◌+◌, Option, none, some, List, [], ◌∷◌, ◌++◌, length, get_elem?, ltb, if◌then◌else◌,
}

-- The pool's channel, and the `sent` channel of each connection.
pub record Credits : Type 0 where
  pub ch : List ℕ
  pub sents : List (List ℕ)

-- The buffers 0, 1, … of NewPool.
unfoldable pub buffers : ℕ → List ℕ
buffers zero = []
buffers (suc n) = n ∷ buffers n

unfoldable pub new_sents : ℕ → List (List ℕ)
new_sents zero = []
new_sents (suc n) = [] ∷ new_sents n

-- NewPool, and newTxCredits for each of n connections.
unfoldable pub new_pool : ℕ → ℕ → Credits
unfolding buffers new_sents
new_pool cnt n = record { ch = buffers cnt; sents = new_sents n }

abbrev pub set_at : List (List ℕ) → ℕ → List ℕ → List (List ℕ)
set_at [] i ys = []
set_at (xs ∷ xss) zero ys = ys ∷ xss
set_at (xs ∷ xss) (suc i) ys = xs ∷ set_at xss i ys

-- A send on a channel of capacity cnt: `none` blocks.
unfoldable pub send : ℕ → List ℕ → ℕ → Option (List ℕ)
send cnt xs b = if ltb (length xs) cnt then some (xs ++ (b ∷ [])) else none

-- A step goes on in a new state, waits for a buffer to come back, gives up with an error, or blocks on a
-- full channel. An operation of no connection does nothing.
pub data Outcome : Type 0 where
  next : Credits → Outcome
  waits gives_up blocks : Outcome

-- The arm of GetTimeout's select that is taken.
pub data Arm : Type 0 where
  buffer done timer : Arm

unfoldable pub get_buffer : ℕ → ℕ → Credits → Outcome
unfolding send
get_buffer cnt i s = elim s.ch [
  | [] ↦ waits
  | b ∷ bs ↦ elim (get_elem? s.sents i) [
    | none ↦ next s
    | some xs ↦ elim (send cnt xs b) [
      | none ↦ blocks
      | some ys ↦ next (record { ch = bs; sents = set_at s.sents i ys })
    ]
  ]
]

-- GetTimeout
unfoldable pub get_timeout : ℕ → ℕ → Arm → Credits → Outcome
unfolding get_buffer
get_timeout cnt i buffer s = get_buffer cnt i s
get_timeout cnt i done s = gives_up
get_timeout cnt i timer s = gives_up

-- Put
unfoldable pub put_back : ℕ → ℕ → Credits → Outcome
unfolding send
put_back cnt i s = elim (get_elem? s.sents i) [
  | none ↦ next s
  | some [] ↦ next s
  | some (b ∷ bs) ↦ elim (send cnt s.ch b) [
    | none ↦ blocks
    | some ys ↦ next (record { ch = ys; sents = set_at s.sents i bs })
  ]
]

-- The loop of ReclaimAll.
unfoldable pub drain : ℕ → List ℕ → List ℕ → Option (List ℕ)
unfolding send
drain cnt ch [] = some ch
drain cnt ch (b ∷ bs) = elim (send cnt ch b) [ none ↦ none | some ys ↦ drain cnt ys bs ]

-- ReclaimAll
unfoldable pub reclaim_all : ℕ → ℕ → Credits → Outcome
unfolding drain
reclaim_all cnt i s = elim (get_elem? s.sents i) [
  | none ↦ next s
  | some xs ↦ elim (drain cnt s.ch xs) [
    | none ↦ blocks
    | some ys ↦ next (record { ch = ys; sents = set_at s.sents i [] })
  ]
]

-- The operations on the pool, by connection.
pub data Op : Type 0 where
  get : Arm → ℕ → Op
  acknowledge reclaim : ℕ → Op

unfoldable pub perform : ℕ → Op → Credits → Outcome
unfolding get_timeout put_back reclaim_all
perform cnt (get arm i) s = get_timeout cnt i arm s
perform cnt (acknowledge i) s = put_back cnt i s
perform cnt (reclaim i) s = reclaim_all cnt i s
