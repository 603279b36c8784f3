-- ===== src/Hci/Report/Held.antt =====
-- What the history and the queue refer to, and what a search can find.
use ble.Base.{
  ℕ, zero, suc, ◌+◌, ◌≤◌, ◌<◌, Option, none, some, List, [], ◌∷◌, ◌++◌, Go, ok, >>=-Returns,
  Returns, Loop, done, out_of_fuel, length, ◌==◌, ◌≡◌, refl, arith, bytes_eq, Bool-cases, inl, inr,
}
use ble.Hci.Report.{Report, Scanner, examine, round_index, search_hist, set_hist}
use ble.Hci.Report.Valid.{address_of, address-ok}
use ble.Hci.Report.Search.{Holds, AllHold, entry, entry-Holds}

abbrev pub AllQueued : List (Report × ℕ) → Type 0
AllQueued [] = Unit {0}
AllQueued (d ∷ ds) = Holds (some d.0) × AllQueued ds

-- The history has a place at ad_last, and refers to accepted reports, as does the queue, which is within its
-- capacity.
pub record IsScanner (s : Scanner) : Type 0 where
  pub history : AllHold s.ad_hist
  pub place : s.ad_last < length s.ad_hist
  pub room : length s.ch_adv ≤ 64
  pub queued : AllQueued s.ch_adv

pub AllQueued-append :
    (ds : List (Report × ℕ)) (d : Report × ℕ)
    → AllQueued ds
    → Holds (some d.0)
    → AllQueued (ds ++ (d ∷ []))
AllQueued-append [] d h k = (k, tt)
AllQueued-append (x ∷ ds) d h k = (h.0, AllQueued-append ds d h.1 k)

pub set_hist-AllHold :
    (hist : List (Option Report)) (i : ℕ) (a : Report)
    → AllHold hist
    → Holds (some a)
    → i < length hist
    → Returns
        (λ (t : List (Option Report)). AllHold t × (length t ≡ length hist))
        (set_hist hist i a)
unfolding set_hist
set_hist-AllHold [] i a h k l = absurd (omega arith)
set_hist-AllHold (x ∷ hs) zero a h k l = ((k, h.1), refl)
set_hist-AllHold (x ∷ hs) (suc i) a h k l =
    >>=-Returns (λ (t : List (Option Report)). AllHold t × (length t ≡ length hs))
      (λ (t : List (Option Report)). AllHold t × (length t ≡ length (x ∷ hs))) (set_hist hs i a)
      (λ t. ok (x ∷ t)) (set_hist-AllHold hs i a h.1 k (omega arith))
      (λ t q. ((h.0, q.0), omega (arith, q.1)))

-- What a search leaves: a report that is held.
abbrev pub Found : Loop (Option Report) → Type 0
Found out_of_fuel = Unit {0}
Found (done o) = Holds o

examine-Found :
    (o : Option Report) (addr : List ℕ) (rest : Go (Loop (Option Report)))
    → Holds o
    → Returns Found rest
    → Returns Found (examine (some o) addr rest)
unfolding examine
examine-Found none addr rest h k = tt
examine-Found (some a) addr rest h k =
    rw (address-ok a.event h.0 a.index h.1)
      (elim (Bool-cases (bytes_eq (address_of a.event a.index) addr)) [
        | inl e ↦ rw e h
        | inr e ↦ rw e k
      ])

round_index-lt : (size k : ℕ) → 1 ≤ size → k ≤ size → round_index size k < size
unfolding round_index
round_index-lt size k h l = ground arith

pub search_hist-Found :
    (fuel k last : ℕ) (hist : List (Option Report)) (addr : List ℕ)
    → AllHold hist
    → 1 ≤ length hist
    → k ≤ length hist
    → Returns Found (search_hist fuel k last hist addr)
unfolding search_hist
search_hist-Found zero k last hist addr h b l = tt
search_hist-Found (suc fuel) k last hist addr h b l =
    let r = round_index-lt (length hist) k b l in
    let (g, v) = entry-Holds hist (round_index (length hist) k) h r in
    elim (Bool-cases (k == last + 1)) [
      | inl e ↦ rw e tt
      | inr e ↦
          rw (e, g)
            (examine-Found (entry hist (round_index (length hist) k)) addr
              (search_hist fuel (round_index (length hist) k) last hist addr) v
              (search_hist-Found fuel (round_index (length hist) k) last hist addr h b
                (omega (arith, r))))
    ]
