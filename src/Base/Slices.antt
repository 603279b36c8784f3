-- ===== src/Base/Slices.antt =====
-- Go's run-time panic as an outcome, and the reads and slices of a byte slice that may raise it.
-- A byte slice is a list of numbers below 256; an out-of-range index or bound is `panic`.
use Prim.Native.Nat.{ℕ, ◌+◌, ◌-◌, ◌*◌, ◌/◌, ◌%◌, ◌≤◌, ◌<◌}
use mathlib.Core.Path.{◌≡◌, refl}
use mathlib.Core.Bool.{Bool, true, false}
use mathlib.Core.Option.{Option, none, some}
use mathlib.Core.List.{List, [], ◌∷◌, ◌++◌}
use native.Mathlib.Omega.{arith}
use ble.Base.Tests.{ltb, leb, if◌then◌else◌}
use ble.Base.Lists.{length, get_or, take, drop, All, length-append, length-take}

pub data Go {ℓ} (A : Type ℓ) : Type ℓ where
  ok : A → Go A
  panic : Go A

infixl 5 ◌>>◌ ◌>>=◌
abbrev pub ◌>>=◌ {ℓ κ} : {A : Type ℓ} {B : Type κ} → Go A → (A → Go B) → Go B
ok a >>= f = f a
panic >>= f = panic

abbrev pub ◌>>◌ {ℓ} : {B : Type ℓ} → Go (Unit {0}) → Go B → Go B
m >> k = m >>= λ _. k

-- The outcome is a value that satisfies `P`: the code ran to its end, and the result is right.
abbrev pub Returns {ℓ} : {A : Type ℓ} → (A → Type 0) → Go A → Type 0
Returns P (ok a) = P a
Returns P panic = ⊥

-- The rule for a bind: `m` returns a value of `P`, and from each of those `f` returns one of `Q`.
pub >>=-Returns {ℓ κ} :
    {A : Type ℓ} {B : Type κ} (P : A → Type 0) (Q : B → Type 0) (m : Go A) (f : A → Go B)
    → Returns P m
    → ((a : A) → P a → Returns Q (f a))
    → Returns Q (m >>= f)
>>=-Returns P Q (ok a) f h k = k a h
>>=-Returns P Q panic f h k = h

pub Returns-mono {ℓ} :
    {A : Type ℓ} (P Q : A → Type 0) (m : Go A) → Returns P m → ((a : A) → P a → Q a) → Returns Q m
Returns-mono P Q (ok a) h k = k a h
Returns-mono P Q panic h k = h

-- A loop on fuel: its value, or that the fuel ran out, which is no outcome of the program.
pub data Loop {ℓ} (A : Type ℓ) : Type ℓ where
  done : A → Loop A
  out_of_fuel : Loop A

-- A nil check: `d` for nil, `f` on what is there.
abbrev pub if_nil {ℓ κ} : {A : Type ℓ} {B : Type κ} → Option A → B → (A → B) → B
if_nil none d f = d
if_nil (some a) d f = f a

pub if_nil-Returns {ℓ κ} :
    {A : Type ℓ} {B : Type κ} (P : B → Type 0) (o : Option A) (d : Go B) (f : A → Go B)
    → Returns P d
    → ((a : A) → o ≡ some a → Returns P (f a))
    → Returns P (if_nil o d f)
if_nil-Returns P none d f h k = h
if_nil-Returns P (some a) d f h k = k a refl

-- The rules for a nil check and for a test: each side, under what the check has found.
pub if_nil-Rule {ℓ κ} :
    {A : Type ℓ} {B : Type κ} (P : B → Type 0) (o : Option A) (d : B) (f : A → B)
    → (o ≡ none → P d)
    → ((x : A) → o ≡ some x → P (f x))
    → P (if_nil o d f)
if_nil-Rule P none d f h k = h refl
if_nil-Rule P (some x) d f h k = k x refl

pub if-Rule {ℓ} :
    {B : Type ℓ} (P : B → Type 0) (t : Bool) (d f : B)
    → (t ≡ true → P d)
    → (t ≡ false → P f)
    → P (if t then d else f)
if-Rule P true d f h k = h refl
if-Rule P false d f h k = k refl

-- b[i]
unfoldable pub u8_at : List ℕ → ℕ → Go ℕ
u8_at b i = if ltb i (length b) then ok (get_or b i 0) else panic

-- binary.LittleEndian.Uint16(b[i:])
abbrev pub le_u16 : List ℕ → ℕ → ℕ
le_u16 b i = get_or b i 0 + 256 * get_or b (i + 1) 0

unfoldable pub u16_at : List ℕ → ℕ → Go ℕ
u16_at b i = if leb (i + 2) (length b) then ok (le_u16 b i) else panic

-- b[i:]
unfoldable pub slice_from : List ℕ → ℕ → Go (List ℕ)
slice_from b i = if leb i (length b) then ok (drop i b) else panic

-- b[:j], where the capacity of b is its length.
unfoldable pub slice_to : List ℕ → ℕ → Go (List ℕ)
slice_to b j = if leb j (length b) then ok (take j b) else panic

-- b[i:j]
unfoldable pub slice : List ℕ → ℕ → ℕ → Go (List ℕ)
slice b i j =
    if leb i j then (if leb j (length b) then ok (take (j - i) (drop i b)) else panic) else panic

-- The two bytes of a uint16, the low one first; the conversion to uint16 wraps.
abbrev pub le16 : ℕ → List ℕ
le16 v = v % 256 ∷ v / 256 % 256 ∷ []

-- A buffer of `cap` bytes of which the first ones, `out`, have been written: a fixed-size write
-- behind them panics where it does not fit, and Go's `copy` stops at the end of the buffer.
unfoldable pub put : ℕ → List ℕ → List ℕ → Go (List ℕ)
put cap out bs = if leb (length out + length bs) cap then ok (out ++ bs) else panic

unfoldable pub copy : ℕ → List ℕ → List ℕ → List ℕ
copy cap out bs = out ++ take (cap - length out) bs

abbrev pub IsByte : ℕ → Type 0
IsByte b = b < 256

abbrev pub IsU16 : ℕ → Type 0
IsU16 v = v < 65536

abbrev pub IsBytes : List ℕ → Type 0
IsBytes = All IsByte

pub u8_at-ok : (b : List ℕ) (i : ℕ) → i < length b → u8_at b i ≡ ok (get_or b i 0)
unfolding u8_at
u8_at-ok b i h = ground arith

pub u16_at-ok : (b : List ℕ) (i : ℕ) → i + 2 ≤ length b → u16_at b i ≡ ok (le_u16 b i)
unfolding u16_at
u16_at-ok b i h = ground arith

pub slice_from-ok : (b : List ℕ) (i : ℕ) → i ≤ length b → slice_from b i ≡ ok (drop i b)
unfolding slice_from
slice_from-ok b i h = ground arith

pub slice_to-ok : (b : List ℕ) (j : ℕ) → j ≤ length b → slice_to b j ≡ ok (take j b)
unfolding slice_to
slice_to-ok b j h = ground arith

pub put-ok :
    (cap : ℕ) (out bs : List ℕ) → length out + length bs ≤ cap → put cap out bs ≡ ok (out ++ bs)
unfolding put
put-ok cap out bs h = ground arith

pub length-copy-le : (cap : ℕ) (out bs : List ℕ) → length out ≤ cap → length (copy cap out bs) ≤ cap
unfolding copy
length-copy-le cap out bs h =
    omega (arith, length-append out (take (cap - length out) bs), length-take (cap - length out) bs)

pub get_or-IsByte : (b : List ℕ) (i : ℕ) → IsBytes b → IsByte (get_or b i 0)
get_or-IsByte [] i h = omega arith
get_or-IsByte (x ∷ xs) Prim.Native.Nat.zero h = h.0
get_or-IsByte (x ∷ xs) (Prim.Native.Nat.suc i) h = get_or-IsByte xs i h.1

pub le_u16-IsU16 : (b : List ℕ) (i : ℕ) → IsBytes b → IsU16 (le_u16 b i)
le_u16-IsU16 b i h = omega (arith, get_or-IsByte b i h, get_or-IsByte b (i + 1) h)
