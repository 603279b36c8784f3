-- ===== src/Hci/Report.antt =====
-- The advertising reports of linux/hci/hci.go and linux/hci/evt/evt.go: the accessors of an LE Advertising
-- Report, its validation, the history in which a scan response finds its advertisement, and the queue of
-- the dispatcher. The advertisements of linux/hci/adv.go refer to an event and an index in it.
pub mod Valid
pub mod Search
pub mod Held
pub mod Kept
use ble.Base.{
  ℕ, zero, suc, ◌+◌, ◌-◌, ◌*◌, Bool, true, false, not, ◌||◌, Option, none, some, List, [], ◌∷◌,
  ◌++◌, Go, ok, panic, ◌>>=◌, Loop, done, out_of_fuel, length, take, drop, get_elem?, ltb, leb,
  ◌==◌, if◌then◌else◌, bytes_eq, u8_at, slice_from, slice_to,
}

abbrev pub num_reports : List ℕ → Go ℕ
num_reports e = u8_at e 1

unfoldable pub event_type : List ℕ → ℕ → Go ℕ
event_type e i = u8_at e (2 + i)

unfoldable pub address_type : List ℕ → ℕ → Go ℕ
address_type e i = num_reports e >>= λ n. u8_at e (2 + n + i)

-- Address: copy fills up to six bytes of an array of zeros.
unfoldable pub address : List ℕ → ℕ → Go (List ℕ)
address e i = num_reports e >>= λ n. slice_from e (2 + n * 2) >>= λ t.
    slice_from t (6 * i) >>= λ a. ok (take 6 (a ++ (0 ∷ 0 ∷ 0 ∷ 0 ∷ 0 ∷ 0 ∷ [])))

unfoldable pub length_data : List ℕ → ℕ → Go ℕ
length_data e i = num_reports e >>= λ n. u8_at e (2 + n * 8 + i)

-- The loops that sum the lengths of the first reports.
unfoldable pub sum_lengths : List ℕ → ℕ → Go ℕ
sum_lengths e zero = ok 0
sum_lengths e (suc j) = sum_lengths e j >>= λ l. length_data e j >>= λ m. ok (l + m)

-- Data
unfoldable pub report_data : List ℕ → ℕ → Go (List ℕ)
report_data e i = sum_lengths e i >>= λ l. num_reports e >>= λ n.
    slice_from e (2 + n * 9 + l) >>= λ b. length_data e i >>= λ m. slice_to b m

-- RSSI, as the byte of its two's complement.
unfoldable pub rssi : List ℕ → ℕ → Go ℕ
rssi e i = num_reports e >>= λ n. sum_lengths e n >>= λ l. u8_at e (2 + n * 9 + l + i)

-- validAdvReport
unfoldable pub valid_adv_report : List ℕ → Go Bool
valid_adv_report e =
    if ltb (length e) 2
    then ok false
    else num_reports e >>= λ n.
        if n == 0 || ltb (length e) (2 + 9 * n + n)
        then ok false
        else sum_lengths e n >>= λ total. ok (length e == 2 + 9 * n + total + n)

-- An Advertisement: an event, an index in it, and those of its scan response.
pub record Report : Type 0 where
  pub event : List ℕ
  pub index : ℕ
  pub response : Option (List ℕ × ℕ)

abbrev pub new_advertisement : List ℕ → ℕ → Report
new_advertisement e i = record { event = e; index = i; response = none }

-- The part of HCI that handles reports. `adv_tgt` numbers the target that is current.
pub record Scanner : Type 0 where
  pub ad_hist : List (Option Report)
  pub ad_last : ℕ
  pub adv_tgt : Option ℕ
  pub ch_adv : List (Report × ℕ)
  pub adv_dropped : ℕ
  pub sr_orphaned : ℕ

-- The capacity of chAdv.
abbrev pub ch_adv_cap : ℕ
ch_adv_cap = 64

unfoldable pub set_hist : List (Option Report) → ℕ → Report → Go (List (Option Report))
set_hist [] i a = panic
set_hist (h ∷ hs) zero a = ok (some a ∷ hs)
set_hist (h ∷ hs) (suc i) a = set_hist hs i a >>= λ rest. ok (h ∷ rest)

-- The arm of ADV_IND and ADV_SCAN_IND.
unfoldable pub remember : Report → Scanner → Go Scanner
unfolding set_hist
remember a s = set_hist s.ad_hist s.ad_last a >>= λ hist. ok (record s {
  ad_hist = hist;
  ad_last = if s.ad_last + 1 == length hist then 0 else s.ad_last + 1;
})

-- A round of the search at an entry, with the rounds behind it.
unfoldable pub examine :
    Option (Option Report) → List ℕ → Go (Loop (Option Report)) → Go (Loop (Option Report))
examine none addr rest = panic
examine (some none) addr rest = ok (done none)
examine (some (some a)) addr rest =
    address a.event a.index >>= λ b. if bytes_eq b addr then ok (done (some a)) else rest

-- The index of a round: `k` is idx + 1, so that 0 stands for -1, which becomes the last index.
unfoldable pub round_index : ℕ → ℕ → ℕ
round_index size k = if k == 0 then size - 1 else k - 1

-- The search for the advertisement of a scan response.
unfoldable pub search_hist : ℕ → ℕ → ℕ → List (Option Report) → List ℕ → Go (Loop (Option Report))
search_hist zero k last hist addr = ok out_of_fuel
search_hist (suc fuel) k last hist addr =
    let rest = search_hist fuel (round_index (length hist) k) last hist addr in
    if k == last + 1
    then ok (done none)
    else examine (get_elem? hist (round_index (length hist) k)) addr rest

unfoldable pub deliver_adv : ℕ → Report → Scanner → Scanner
deliver_adv t a s =
    if ltb (length s.ch_adv) ch_adv_cap
    then record s { ch_adv = s.ch_adv ++ ((a, t) ∷ []) }
    else record s { adv_dropped = s.adv_dropped + 1 }

-- What a search found: an advertisement, paired with the response in a new one, or an orphan.
unfoldable pub pair_response : ℕ → List ℕ → ℕ → Loop (Option Report) → Scanner → Loop Scanner
unfolding deliver_adv
pair_response t e i out_of_fuel s = out_of_fuel
pair_response t e i (done none) s = done (record s { sr_orphaned = s.sr_orphaned + 1 })
pair_response t e i (done (some a)) s =
    done (deliver_adv t (record (new_advertisement a.event a.index) { response = some (e, i) }) s)

-- A round of the loop of handleLEAdvertisingReport. The fuel is for the search.
unfoldable pub on_report : ℕ → ℕ → List ℕ → ℕ → Scanner → Go (Loop Scanner)
unfolding remember deliver_adv pair_response
on_report fuel t e i s = event_type e i >>= λ typ.
    if typ == 0 || typ == 2
    then (remember (new_advertisement e i) s >>= λ s1.
        ok (done (deliver_adv t (new_advertisement e i) s1)))
    else if typ == 4
    then (address e i >>= λ addr. search_hist fuel s.ad_last s.ad_last s.ad_hist addr >>= λ found.
        ok (pair_response t e i found s))
    else ok (done (deliver_adv t (new_advertisement e i) s))

abbrev pub continue_with : Loop Scanner → (Scanner → Go (Loop Scanner)) → Go (Loop Scanner)
continue_with out_of_fuel f = ok out_of_fuel
continue_with (done s) f = f s

-- The loop over the reports from `i` on.
unfoldable pub on_reports : ℕ → ℕ → List ℕ → ℕ → ℕ → Scanner → Go (Loop Scanner)
unfolding on_report
on_reports fuel t e i zero s = ok (done s)
on_reports fuel t e i (suc n) s =
    on_report fuel t e i s >>= λ r. continue_with r (on_reports fuel t e (i + 1) n)

-- handleLEAdvertisingReport; a malformed event, and one without a target, changes nothing.
unfoldable pub handle_adv_report : ℕ → List ℕ → Scanner → Go (Loop Scanner)
unfolding valid_adv_report on_reports
handle_adv_report fuel e s = valid_adv_report e >>= λ valid.
    if valid
    then elim s.adv_tgt [
      | none ↦ ok (done s)
      | some t ↦ num_reports e >>= λ n. on_reports fuel t e 0 n s
    ]
    else ok (done s)

-- resetAdHistory
unfoldable pub empty_hist : ℕ → List (Option Report)
empty_hist zero = []
empty_hist (suc n) = none ∷ empty_hist n

unfoldable pub reset_ad_history : Scanner → Scanner
unfolding empty_hist
reset_ad_history s = record s { ad_hist = empty_hist 128; ad_last = 0 }

-- advDispatcher: the next delivery reaches the handler only if its target is still current.
unfoldable pub dispatch_adv : Scanner → Scanner × Option (Report × ℕ)
dispatch_adv s = elim s.ch_adv [
  | [] ↦ (s, none)
  | d ∷ ds ↦ elim s.adv_tgt [
    | none ↦ (record s { ch_adv = ds }, none)
    | some t ↦ (record s { ch_adv = ds }, if t == d.1 then some d else none)
  ]
]
