-- ===== src/Att/Client/Requests/Signed.antt =====
-- What SignedWrite makes of its value.
use ble.Base.{
  ℕ, zero, suc, ◌+◌, ◌-◌, ◌≤◌, List, [], ◌∷◌, ◌++◌, length, take, drop, le16, leb, Bool-cases,
  leb→le, inl, inr, slice_to, ◌≡◌, refl, sym, ◌∙◌, arith, length-take, length-drop, length-append,
  take-append_eq, drop-append_eq, take_all, drop-drop,
}
use ble.Att.Client.Requests.{copy_at, signed_write}

drop-append :
    (n k : ℕ) (xs ys : List ℕ) → k ≡ n - length xs → drop n (xs ++ ys) ≡ drop n xs ++ drop k ys
drop-append zero k [] ys e = let z : k ≡ 0 = omega arith in rw z refl
drop-append zero k (x ∷ xs) ys e = let z : k ≡ 0 = omega arith in rw z refl
drop-append (suc n) k [] ys e = let z : k ≡ suc n = omega arith in rw z refl
drop-append (suc n) k (x ∷ xs) ys e = drop-append n k xs ys (omega arith)

length-copy_at :
    (i : ℕ) (v r : List ℕ) → i + length v ≤ length r → length (copy_at i v r) ≡ length r
unfolding copy_at
length-copy_at i v r h = omega (
  arith,
  length-append (take i r) (take (length r - i) v ++ drop (i + length v) r),
  length-append (take (length r - i) v) (drop (i + length v) r),
  length-take i r,
  length-take (length r - i) v,
  length-drop (i + length v) r,
)

-- A write at offset 3, and a second one of twelve bytes at the same offset.
written_at :
    (v r : List ℕ)
    → 3 + length v ≤ length r
    → copy_at 3 v r ≡ take 3 r ++ (v ++ drop (3 + length v) r)
unfolding copy_at
written_at v r h = rw (take_all (length r - 3) v (omega arith)) refl

overwritten :
    (sig v r : List ℕ)
    → length sig ≡ 12
    → length r ≡ 15 + length v
    → copy_at 3 sig (copy_at 3 v r)
      ≡ take 3 r ++ (sig ++ (drop 12 v ++ drop (12 - length v) (drop (3 + length v) r)))
overwritten sig v r s l =
    rw
      (
        written_at v r (omega arith),
        written_at sig (take 3 r ++ (v ++ drop (3 + length v) r)) (omega (arith, size)),
        take-append_eq 3 (take 3 r) (v ++ drop (3 + length v) r) three,
        s,
        ← drop-drop 3 12 (3 + 12) (take 3 r ++ (v ++ drop (3 + length v) r)) refl,
        drop-append_eq 3 (take 3 r) (v ++ drop (3 + length v) r) three,
        drop-append 12 (12 - length v) v (drop (3 + length v) r) refl,
      )
      refl
  where
    three : length (take 3 r) ≡ 3
    three = omega (arith, length-take 3 r)

    size : length (take 3 r ++ (v ++ drop (3 + length v) r)) ≡ length r
    size = omega (
      arith,
      length-append (take 3 r) (v ++ drop (3 + length v) r),
      length-append v (drop (3 + length v) r),
      length-drop (3 + length v) r,
      three,
    )

module _ (handle : ℕ) (v w sig : List ℕ) (s : length sig ≡ 12) (l : length v ≡ length w)
    (d : drop 12 v ≡ drop 12 w) where
  same_fields :
      (r : List ℕ)
      → length r ≡ 15 + length v
      → copy_at 3 sig (copy_at 3 v (copy_at 1 (le16 handle) (copy_at 0 (0xd2 ∷ []) r)))
        ≡ copy_at 3 sig (copy_at 3 w (copy_at 1 (le16 handle) (copy_at 0 (0xd2 ∷ []) r)))
  same_fields r e =
      overwritten sig v front s (omega (arith, size))
      ∙ rw (l, d) refl
      ∙ sym (overwritten sig w front s (omega (arith, size)))
    where
      front : List ℕ
      front = copy_at 1 (le16 handle) (copy_at 0 (0xd2 ∷ []) r)

      size : length front ≡ length r
      size =
          length-copy_at 1 (le16 handle) (copy_at 0 (0xd2 ∷ []) r)
            (omega (arith, length-copy_at 0 (0xd2 ∷ []) r (omega arith)))
          ∙ length-copy_at 0 (0xd2 ∷ []) r (omega arith)

  -- SignedWrite writes the signature over the first twelve bytes of the value, so that these are lost: two
  -- values of one length that differ only in them give the same PDU, for every signature of twelve bytes.
  pub signed_write-lost :
      (tx_mtu : ℕ) (buf : List ℕ)
      → signed_write tx_mtu buf handle v sig ≡ signed_write tx_mtu buf handle w sig
  unfolding signed_write slice_to
  signed_write-lost tx_mtu buf = elim (Bool-cases (leb (15 + length v) (length buf))) [
    | inl fits ↦
        rw
          (
            ← l,
            fits,
            same_fields (take (15 + length v) buf) (
                omega (
                  arith,
                  leb→le (15 + length v) (length buf) fits,
                  length-take (15 + length v) buf,
                )),
          )
          refl
    | inr no_room ↦ rw (← l, no_room) refl
  ]
