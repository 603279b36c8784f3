-- ===== src/Hci/Report/Valid.antt =====
-- A report that validAdvReport accepts can be read by every accessor, and no string makes it panic.
use native.Mathlib.Decide.{dec_lt}
use ble.Base.{
  ℕ, zero, suc, ◌+◌, ◌*◌, ◌≤◌, ◌<◌, Bool, true, List, [], ◌∷◌, ◌++◌, ok, Returns, Returns-mono,
  length, take, drop, get_or, u8_at-ok, slice_from-ok, slice_to-ok, length-drop, length-take, ◌≡◌,
  refl, arith,
}
use ble.Hci.Report.{
  num_reports, event_type, address_type, address, length_data, sum_lengths, report_data, rssi,
  valid_adv_report,
}

-- The reports of an event, the length of a report's data, and of the first ones together.
abbrev pub count_of : List ℕ → ℕ
count_of e = get_or e 1 0

abbrev pub size_of : List ℕ → ℕ → ℕ
size_of e i = get_or e (2 + count_of e * 8 + i) 0

unfoldable pub total : List ℕ → ℕ → ℕ
total e zero = 0
total e (suc j) = total e j + size_of e j

pub record IsReport (e : List ℕ) : Type 0 where
  pub some_reports : 1 ≤ count_of e
  pub fixed : 2 + 9 * count_of e ≤ length e
  pub exact : length e ≡ 2 + 9 * count_of e + total e (count_of e) + count_of e

length_data-ok :
    (e : List ℕ) (i : ℕ)
    → 2 + 9 * count_of e ≤ length e
    → i < count_of e
    → length_data e i ≡ ok (size_of e i)
unfolding length_data
length_data-ok e i h k =
    rw (u8_at-ok e 1 (omega arith), u8_at-ok e (2 + count_of e * 8 + i) (omega arith)) refl

sum_lengths-ok :
    (e : List ℕ) (j : ℕ)
    → 2 + 9 * count_of e ≤ length e
    → j ≤ count_of e
    → sum_lengths e j ≡ ok (total e j)
unfolding sum_lengths total
sum_lengths-ok e zero h k = refl
sum_lengths-ok e (suc j) h k =
    rw (sum_lengths-ok e j h (omega arith), length_data-ok e j h (omega arith)) refl

total_mono : (e : List ℕ) (i j : ℕ) → i ≤ j → total e i ≤ total e j
unfolding total
total_mono e i zero h = let z : i ≡ 0 = omega arith in rw z (omega arith)
total_mono e i (suc j) h = elim (dec_lt i (suc j)) [
  | yes l ↦ omega (arith, total_mono e i j (omega arith))
  | no l ↦ let z : i ≡ suc j = omega arith in rw z (omega arith)
]

-- validAdvReport never panics, and accepts exact reports only.
pub valid_adv_report_lem :
    (e : List ℕ) → Returns (λ (b : Bool). b ≡ true → IsReport e) (valid_adv_report e)
unfolding valid_adv_report
valid_adv_report_lem e = elim (dec_lt (length e) 2) [
  | yes l ↦ ground arith
  | no l ↦
      rw (u8_at-ok e 1 (omega arith)) (elim (dec_lt (length e) (2 + 9 * count_of e + count_of e)) [
        | yes k ↦ ground arith
        | no k ↦ rw (sum_lengths-ok e (count_of e) (omega arith) (omega arith)) (ground arith)
      ])
]

-- The six bytes of an address.
unfoldable pub address_of : List ℕ → ℕ → List ℕ
address_of e i = take 6 (drop (6 * i) (drop (2 + count_of e * 2) e) ++ (0 ∷ 0 ∷ 0 ∷ 0 ∷ 0 ∷ 0 ∷ []))

module _ (e : List ℕ) (v : IsReport e) (i : ℕ) (h : i < count_of e) where
  pub count-ok : num_reports e ≡ ok (count_of e)
  count-ok = u8_at-ok e 1 (omega (arith, v.some_reports, v.fixed))

  pub event_type-ok : event_type e i ≡ ok (get_or e (2 + i) 0)
  unfolding event_type
  event_type-ok = u8_at-ok e (2 + i) (omega (arith, v.fixed))

  address_type-ok : address_type e i ≡ ok (get_or e (2 + count_of e + i) 0)
  unfolding address_type
  address_type-ok = rw (count-ok, u8_at-ok e (2 + count_of e + i) (omega (arith, v.fixed))) refl

  pub address-ok : address e i ≡ ok (address_of e i)
  unfolding address address_of
  address-ok =
      rw
        (
          count-ok,
          slice_from-ok e (2 + count_of e * 2) (omega (arith, v.fixed)),
          slice_from-ok (drop (2 + count_of e * 2) e) (6 * i)
              (omega (arith, v.fixed, length-drop (2 + count_of e * 2) e)),
        )
        refl

  within : total e i + size_of e i ≤ total e (count_of e)
  unfolding total
  within = total_mono e (suc i) (count_of e) (omega arith)

  data-ok : Returns (λ (d : List ℕ). length d ≡ size_of e i) (report_data e i)
  unfolding report_data
  data-ok =
      rw
        (
          sum_lengths-ok e i v.fixed (omega arith),
          count-ok,
          slice_from-ok e (2 + count_of e * 9 + total e i) (omega (arith, v.exact, within)),
          length_data-ok e i v.fixed h,
          slice_to-ok (drop (2 + count_of e * 9 + total e i) e) (size_of e i)
              (omega (arith, v.exact, within, length-drop (2 + count_of e * 9 + total e i) e)),
        )
        (omega (
          arith,
          v.exact,
          within,
          length-drop (2 + count_of e * 9 + total e i) e,
          length-take (size_of e i) (drop (2 + count_of e * 9 + total e i) e),
        ))

  rssi-ok : rssi e i ≡ ok (get_or e (2 + count_of e * 9 + total e (count_of e) + i) 0)
  unfolding rssi
  rssi-ok =
      rw
        (
          count-ok,
          sum_lengths-ok e (count_of e) v.fixed (omega arith),
          u8_at-ok e (2 + count_of e * 9 + total e (count_of e) + i) (omega (arith, v.exact)),
        )
        refl

-- What every accessor of a report returns.
abbrev pub Readable : List ℕ → ℕ → Type 0
Readable e i =
    (event_type e i ≡ ok (get_or e (2 + i) 0))
    × (address_type e i ≡ ok (get_or e (2 + count_of e + i) 0))
    × (address e i ≡ ok (address_of e i))
    × Returns (λ (d : List ℕ). length d ≡ size_of e i) (report_data e i)
    × (rssi e i ≡ ok (get_or e (2 + count_of e * 9 + total e (count_of e) + i) 0))

-- On every string of bytes validAdvReport returns without a panic, and where it returns true every accessor
-- of each of its reports does so too, and Data returns as many bytes as the report declares.
pub valid_adv_report-Readable :
    (e : List ℕ)
    → Returns
        (λ (b : Bool). b ≡ true → (i : ℕ) → i < count_of e → Readable e i)
        (valid_adv_report e)
valid_adv_report-Readable e =
    Returns-mono (λ (b : Bool). b ≡ true → IsReport e)
      (λ (b : Bool). b ≡ true → (i : ℕ) → i < count_of e → Readable e i) (valid_adv_report e)
      (valid_adv_report_lem e)
      (λ b f q i h. (
        event_type-ok e (f q) i h,
        address_type-ok e (f q) i h,
        address-ok e (f q) i h,
        data-ok e (f q) i h,
        rssi-ok e (f q) i h,
      ))
