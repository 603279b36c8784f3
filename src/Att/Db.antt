-- ===== src/Att/Db.antt =====
-- linux/att/attr.go and the lookups of linux/att/db.go. An attribute pointer is its index in the
-- database; the handlers of an attribute are the application's, by number, or the two closures that
-- newCCCD makes.
pub mod Lookup
use ble.Base.{
  ℕ, ◌+◌, ◌-◌, Bool, Option, none, some, List, [], Go, ok, panic, length, get_elem?, take, drop,
  ltb, leb, if◌then◌else◌,
}

-- What the closures of newCCCD read of their characteristic.
pub record Cccd : Type 0 where
  pub handle : ℕ
  pub property : ℕ
  pub has_notify_handler : Bool
  pub has_indicate_handler : Bool

pub data Handler : Type 0 where
  custom : ℕ → Handler
  cccd : Cccd → Handler

pub record Attr : Type 0 where
  pub h : ℕ
  pub endh : ℕ
  pub typ : List ℕ
  pub v : Option (List ℕ)
  pub rh : Option Handler
  pub wh : Option Handler

pub record Db : Type 0 where
  pub attrs : List Attr
  pub base : ℕ

-- tooSmall and tooLarge are -1 and -2 in the source.
pub data Idx : Type 0 where
  too_small too_large : Idx
  found : ℕ → Idx

unfoldable pub idx : Db → ℕ → Idx
idx r h =
    if ltb h r.base
    then too_small
    else if leb (r.base + length r.attrs) h
    then too_large
    else found (h - r.base)

-- The index of the attribute, and the attribute.
unfoldable pub at : Db → ℕ → Option (ℕ × Attr)
unfolding idx
at r h = elim (idx r h) [
  | too_small ↦ none
  | too_large ↦ none
  | found i ↦ elim (get_elem? r.attrs i) [ none ↦ none | some a ↦ some (i, a) ]
]

-- The bounds of the slice that subrange returns, start below or at end.
start_idx : Db → ℕ → Option ℕ
unfolding idx
start_idx r start = elim (idx r start) [ too_small ↦ some 0 | too_large ↦ none | found i ↦ some i ]

end_idx : Db → ℕ → Option ℕ
unfolding idx
end_idx r end = elim (idx r (end + 1)) [
  | too_small ↦ none
  | too_large ↦ some (length r.attrs)
  | found i ↦ some i
]

-- r.attrs[startidx:endidx], which panics if startidx is beyond endidx.
unfoldable pub subrange : Db → ℕ → ℕ → Go (List Attr)
unfolding start_idx end_idx
subrange r start end = elim (start_idx r start) [
  | none ↦ ok []
  | some i ↦ elim (end_idx r end) [
    | none ↦ ok []
    | some j ↦ if leb i j then ok (take (j - i) (drop i r.attrs)) else panic
  ]
]
