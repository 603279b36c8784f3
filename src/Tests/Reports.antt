-- ===== src/Tests/Reports.antt =====
-- Advertising reports of one report each, and a history of two places.
use ble.Base.{
  ℕ, ◌<◌, Bool, true, Option, some, List, [], ◌∷◌, ◌++◌, ok, u8_at, slice_from, bytes_eq, Returns,
  done, out_of_fuel, ◌≡◌, refl, arith,
}
use ble.Hci.Report.{
  Report, Scanner, new_advertisement, valid_adv_report, sum_lengths, length_data, event_type,
  address, examine, round_index, search_hist, handle_adv_report,
}
use ble.Hci.Report.Valid.{
  IsReport, count_of, total, Readable, valid_adv_report-Readable, address_of,
}
use ble.Hci.Report.Search.{first_match, downward, search_hist-first_match, search_hist-diverges}
use ble.Hci.Report.Kept.{Kept, handle_adv_report-Kept}

abbrev event : List ℕ
event = 2 ∷ 1 ∷ 0 ∷ 0 ∷ 1 ∷ 2 ∷ 3 ∷ 4 ∷ 5 ∷ 6 ∷ 1 ∷ 9 ∷ 200 ∷ []

abbrev scan_response : List ℕ
scan_response = 2 ∷ 1 ∷ 4 ∷ 0 ∷ 1 ∷ 2 ∷ 3 ∷ 4 ∷ 5 ∷ 6 ∷ 1 ∷ 9 ∷ 200 ∷ []

event-IsReport : IsReport event
unfolding total
event-IsReport = record { some_reports = omega arith; fixed = omega arith; exact = refl }

valid_adv_report-Readable_example :
    Returns
      (λ (b : Bool). b ≡ true → (i : ℕ) → i < count_of event → Readable event i)
      (valid_adv_report event)
valid_adv_report-Readable_example = valid_adv_report-Readable event

abbrev stranger : List ℕ
stranger = 7 ∷ 7 ∷ 7 ∷ 7 ∷ 7 ∷ 7 ∷ []

abbrev full_history : List (Option Report)
full_history = some (new_advertisement event 0) ∷ some (new_advertisement event 0) ∷ []

search_hist-first_match_example :
    search_hist 3 0 0 full_history (1 ∷ 2 ∷ 3 ∷ 4 ∷ 5 ∷ 6 ∷ [])
    ≡ ok (
        done (
          first_match
            (1 ∷ 2 ∷ 3 ∷ 4 ∷ 5 ∷ 6 ∷ [])
            (downward full_history 0 0 ++ downward full_history 1 1)))
search_hist-first_match_example =
    search_hist-first_match full_history (1 ∷ 2 ∷ 3 ∷ 4 ∷ 5 ∷ 6 ∷ []) 0 3
      ((event-IsReport, omega arith), ((event-IsReport, omega arith), tt)) (omega arith)
      (omega arith)

search_hist-diverges_example : search_hist 1000 1 1 full_history stranger ≡ ok out_of_fuel
unfolding address_of bytes_eq
search_hist-diverges_example =
    search_hist-diverges full_history stranger 1 1
      ((event-IsReport, omega arith), ((event-IsReport, omega arith), tt)) (refl, (refl, tt)) refl
      (omega arith) 1000

abbrev scanner : Scanner
scanner = record {
  ad_hist = full_history;
  ad_last = 0;
  adv_tgt = some 5;
  ch_adv = [];
  adv_dropped = 0;
  sr_orphaned = 0;
}

handle_adv_report-Kept_example :
    Returns (Kept scanner 1) (handle_adv_report 9 scan_response scanner)
handle_adv_report-Kept_example =
    handle_adv_report-Kept 9 scan_response scanner (omega arith) (record {
      history = ((event-IsReport, omega arith), ((event-IsReport, omega arith), tt));
      place = omega arith;
      room = omega arith;
      queued = tt;
    })

-- The response is paired with the advertisement behind it.
paired :
    handle_adv_report 9 scan_response scanner
    ≡ ok (
        done (record scanner {
          ch_adv =
              (record (new_advertisement event 0) { response = some (scan_response, 0) }, 5) ∷ [];
        }))
unfolding handle_adv_report search_hist u8_at sum_lengths length_data event_type address slice_from
    examine round_index bytes_eq
paired = refl
