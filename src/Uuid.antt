-- ===== src/Uuid.antt =====
-- uuid.go: a UUID is its bytes, the least significant one first.
use mathlib.Core.List.{reverse}
use ble.Base.{ℕ, Bool, false, ◌||◌, List, [], ◌∷◌, le16, bytes_eq, ◌==◌}

-- UUID16
unfoldable pub uuid16 : ℕ → List ℕ
uuid16 i = le16 i

-- lenErr: the lengths that are no error.
unfoldable pub len_ok : ℕ → Bool
len_ok n = n == 2 || n == 16

-- UUID.Equal
unfoldable pub equal : List ℕ → List ℕ → Bool
unfolding bytes_eq
equal u v = bytes_eq u v

-- Contains
unfoldable pub contains : List (List ℕ) → List ℕ → Bool
unfolding equal
contains [] u = false
contains (x ∷ xs) u = equal u x || contains xs u

-- Reverse
unfoldable pub reversed : List ℕ → List ℕ
reversed u = reverse u
