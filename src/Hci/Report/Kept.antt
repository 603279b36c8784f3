-- ===== src/Hci/Report/Kept.antt =====
-- The handler of advertising reports never panics, keeps its history and its queue in order, and can fail
-- to end only near the end of the history.
use mathlib.Core.Path.{subst}
use native.Mathlib.Decide.{dec_lt}
use ble.Base.{
  ℕ, zero, suc, ◌+◌, ◌≤◌, ◌<◌, Bool, true, false, ◌||◌, Option, none, some, List, [], ◌∷◌, ok,
  ◌>>=◌, >>=-Returns, Returns, Returns-mono, Loop, done, out_of_fuel, length, length-append, get_or,
  ◌==◌, if◌then◌else◌, ◌≡◌, refl, arith, Bool-cases, Option-cases, inl, inr,
}
use ble.Hci.Report.{
  Report, Scanner, new_advertisement, search_hist, set_hist, remember, deliver_adv, pair_response,
  on_report, on_reports, handle_adv_report, continue_with, valid_adv_report, num_reports,
}
use ble.Hci.Report.Valid.{
  IsReport, count_of, address_of, address-ok, event_type-ok, count-ok, valid_adv_report_lem,
}
use ble.Hci.Report.Search.{Holds, AllHold, search_hist-first_match}
use ble.Hci.Report.Held.{IsScanner, AllQueued-append, set_hist-AllHold, Found, search_hist-Found}

-- What n reports leave: the scanner in order and at most n places further; without an end only if the
-- end of the history was within n places.
abbrev pub Kept : Scanner → ℕ → Loop Scanner → Type 0
Kept s n out_of_fuel = length s.ad_hist ≤ s.ad_last + n
Kept s n (done t) =
    IsScanner t × (length t.ad_hist ≡ length s.ad_hist) × (t.ad_last ≤ s.ad_last + n)

remember-IsScanner :
    (a : Report) (s : Scanner)
    → Holds (some a)
    → IsScanner s
    → Returns (λ (t : Scanner). Kept s 1 (done t)) (remember a s)
unfolding remember
remember-IsScanner a s h i =
    >>=-Returns (λ (t : List (Option Report)). AllHold t × (length t ≡ length s.ad_hist))
      (λ (t : Scanner). Kept s 1 (done t)) (set_hist s.ad_hist s.ad_last a) _
      (set_hist-AllHold s.ad_hist s.ad_last a i.history h i.place) (λ t q. ground arith)

deliver_adv-IsScanner :
    (t : ℕ) (a : Report) (s : Scanner)
    → Holds (some a)
    → IsScanner s
    → Kept s 0 (done (deliver_adv t a s))
unfolding deliver_adv
deliver_adv-IsScanner t a s h i =
    ground
      (arith, AllQueued-append s.ch_adv (a, t) i.queued h, length-append s.ch_adv ((a, t) ∷ []))

-- The fuel for a search: twice the places of the history.
abbrev pub Enough : ℕ → Scanner → Type 0
Enough fuel s = length s.ad_hist + length s.ad_hist < fuel

module _ (fuel t : ℕ) (e : List ℕ) (v : IsReport e) where
  paired :
      (i : ℕ) (s : Scanner) (o : Option Report)
      → IsScanner s
      → Holds o
      → Kept s 1 (pair_response t e i (done o) s)
  unfolding pair_response
  paired i s none k h = ground arith
  paired i s (some a) k h =
      let (j, l, m) =
        deliver_adv-IsScanner t
          (record (new_advertisement a.event a.index) { response = some (e, i) }) s h k in
      (j, l, omega arith)

  searched :
      (i : ℕ) (s : Scanner) (addr : List ℕ)
      → i < count_of e
      → Enough fuel s
      → IsScanner s
      → Returns
          (λ (r : Loop (Option Report)). Kept s 1 (pair_response t e i r s))
          (search_hist fuel s.ad_last s.ad_last s.ad_hist addr)
  unfolding pair_response
  searched i s addr l f k = elim (dec_lt (s.ad_last + 1) (length s.ad_hist)) [
    | yes b ↦
        let q = search_hist-first_match s.ad_hist addr s.ad_last fuel k.history b (omega arith) in
        rw q (paired i s _ k (subst (Returns Found) q found))
    | no b ↦
        Returns-mono Found (λ r. Kept s 1 (pair_response t e i r s))
          (search_hist fuel s.ad_last s.ad_last s.ad_hist addr) found (λ r h. at_the_end r h b)
  ]
    where
      found : Returns Found (search_hist fuel s.ad_last s.ad_last s.ad_hist addr)
      found =
          search_hist-Found fuel s.ad_last s.ad_last s.ad_hist addr k.history
            (omega (arith, k.place)) (omega (arith, k.place))

      at_the_end :
          (r : Loop (Option Report))
          → Found r
          → ¬ (s.ad_last + 1 < length s.ad_hist)
          → Kept s 1 (pair_response t e i r s)
      at_the_end out_of_fuel h b = omega arith
      at_the_end (done o) h b = paired i s o k h

  on_report-Kept :
      (i : ℕ) (s : Scanner)
      → i < count_of e
      → Enough fuel s
      → IsScanner s
      → Returns (Kept s 1) (on_report fuel t e i s)
  unfolding on_report
  on_report-Kept i s l f k =
      rw (event_type-ok e v i l)
        (elim (Bool-cases (get_or e (2 + i) 0 == 0 || get_or e (2 + i) 0 == 2)) [
          | inl q ↦ rw q (remembered i s l k)
          | inr q ↦ rw q (elim (Bool-cases (get_or e (2 + i) 0 == 4)) [
            | inl p ↦
                rw (p, address-ok e v i l)
                  (>>=-Returns (λ (r : Loop (Option Report)). Kept s 1 (pair_response t e i r s))
                    (Kept s 1) (search_hist fuel s.ad_last s.ad_last s.ad_hist (address_of e i))
                    (λ r. ok (pair_response t e i r s)) (searched i s (address_of e i) l f k)
                    (λ r h. h))
            | inr p ↦ rw p (delivered i s l k)
          ])
        ])
    where
      remembered :
          (i : ℕ) (s : Scanner)
          → i < count_of e
          → IsScanner s
          → Returns (Kept s 1) (
              remember (new_advertisement e i) s >>= λ s1.
              ok (done (deliver_adv t (new_advertisement e i) s1)))
      remembered i s l k =
          >>=-Returns (λ (x : Scanner). Kept s 1 (done x)) (Kept s 1)
            (remember (new_advertisement e i) s)
            (λ s1. ok (done (deliver_adv t (new_advertisement e i) s1)))
            (remember-IsScanner (new_advertisement e i) s (v, l) k)
            (λ s1 h.
              let (j, n, m) = deliver_adv-IsScanner t (new_advertisement e i) s1 (v, l) h.0 in
              (j, omega (arith, n, h.1), omega (arith, m, h.2)))

      delivered :
          (i : ℕ) (s : Scanner)
          → i < count_of e
          → IsScanner s
          → Kept s 1 (done (deliver_adv t (new_advertisement e i) s))
      delivered i s l k =
          let (j, n, m) = deliver_adv-IsScanner t (new_advertisement e i) s (v, l) k in
          (j, n, omega (arith, m))

  continued :
      (i n : ℕ) (s : Scanner) (r : Loop Scanner)
      → Enough fuel s
      → ((x : Scanner)
          → Enough fuel x
          → IsScanner x
          → Returns (Kept x n) (on_reports fuel t e i n x))
      → Kept s 1 r
      → Returns (Kept s (suc n)) (continue_with r (on_reports fuel t e i n))
  continued i n s out_of_fuel f h k = omega (arith, k)
  continued i n s (done x) f h k =
      Returns-mono (Kept x n) (Kept s (suc n)) (on_reports fuel t e i n x)
        (h x (omega (arith, k.1)) k.0) (λ r j. onward r j)
    where
      onward : (r : Loop Scanner) → Kept x n r → Kept s (suc n) r
      onward out_of_fuel j = omega (arith, j, k.1, k.2)
      onward (done y) j = (j.0, omega (arith, j.1, k.1), omega (arith, j.2, k.2))

  on_reports-Kept :
      (n i : ℕ) (s : Scanner)
      → i + n ≤ count_of e
      → Enough fuel s
      → IsScanner s
      → Returns (Kept s n) (on_reports fuel t e i n s)
  unfolding on_reports
  on_reports-Kept zero i s l f k = (k, refl, omega arith)
  on_reports-Kept (suc n) i s l f k =
      >>=-Returns (Kept s 1) (Kept s (suc n)) (on_report fuel t e i s)
        (λ r. continue_with r (on_reports fuel t e (i + 1) n))
        (on_report-Kept i s (omega arith) f k)
        (λ r j.
          continued (i + 1) n s r f (λ x g y. on_reports-Kept n (i + 1) x (omega arith) g y) j)

-- On every string of bytes the handler of advertising reports returns without a panic. It keeps the
-- scanner in order: history and queue refer to accepted reports only, the queue is within its 64 places,
-- and the history keeps its length. It ends, with fuel for twice the places of the history, unless
-- the event's reports reach the last place of the history.
pub handle_adv_report-Kept :
    (fuel : ℕ) (e : List ℕ) (s : Scanner)
    → Enough fuel s
    → IsScanner s
    → Returns (Kept s (count_of e)) (handle_adv_report fuel e s)
unfolding handle_adv_report
handle_adv_report-Kept fuel e s f k =
    >>=-Returns (λ (b : Bool). b ≡ true → IsReport e) (Kept s (count_of e)) (valid_adv_report e) _
      (valid_adv_report_lem e) (λ b v. accepted b v)
  where
    accepted :
        (b : Bool)
        → (b ≡ true → IsReport e)
        → Returns (Kept s (count_of e)) (
            if b
            then elim s.adv_tgt [
              | none ↦ ok (done s)
              | some t ↦ num_reports e >>= λ n. on_reports fuel t e 0 n s
            ]
            else ok (done s))
    accepted false v = (k, refl, omega arith)
    accepted true v = elim (Option-cases s.adv_tgt) [
      | inl q ↦ rw q (k, refl, omega arith)
      | inr (t, q) ↦
          rw (q, count-ok e (v refl) 0 (omega (arith, (v refl).some_reports)))
            (on_reports-Kept fuel t e (v refl) (count_of e) 0 s (omega arith) f k)
    ]
