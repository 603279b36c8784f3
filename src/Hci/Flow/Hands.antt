-- ===== src/Hci/Flow/Hands.antt =====
-- The select of the handlers, the end of sktLoop and Close against the promise.
use ble.Base.{
  if_nil-Rule, ℕ, ◌≡◌, ◌≢◌, inl, inr, sym, ap, ◌∙◌, arith, Bool, true, false, Option, none, some,
  List, ◌∷◌, Bool-cases, ◌==◌, ==_iff, if_nil,
}
use mathlib.Core.Path.{subst}
use ble.Hci.Cmd.Wire.{Command}
use ble.Hci.Flow.{
  Flow, deliver, Sender, resting, wanting, filling, registered, awaiting, leaving, find, hand_over,
}
use ble.Hci.Flow.Promises.{
  OneOf, Unsent, Offers, Refined, stays, same, Promise, Flows, Stands, Good, find_same, find_other,
}

-- The reply goes into the channel of its packet, or is dropped.
abbrev placed : Flow → ℕ → List ℕ → Flow
placed s q r = record s { held = none; replies = (q, r) ∷ s.replies }

abbrev dropped : Flow → Flow
dropped s = record s { held = none }

nothing_held : (k : ℕ) (r : List ℕ) → ◌≢◌ {A = Option (ℕ × List ℕ)} none (some (k, r))
nothing_held k r e = cc

placed-Flows :
    (s : Flow) (q : ℕ) (r : List ℕ) → s.held ≡ some (q, r) → Flows s → Flows (placed s q r)
placed-Flows s q r at h = record {
  fresh = record {
    quiet = λ k le.
        (let early = h.fresh.free q r at in
          find_other k q r s.replies (λ eq. absurd (omega arith)) ∙ h.fresh.quiet k le);
    free = λ k t e. absurd (nothing_held k t e);
  };
  capacity = h.capacity;
  ended = h.ended;
}

find_placed :
    (p q : ℕ) (r t : List ℕ) (m : List (ℕ × List ℕ)) (rs : List (List ℕ))
    → (p ≡ q → OneOf r rs)
    → ((u : List ℕ) → find p m ≡ some u → OneOf u rs)
    → find p ((q, r) ∷ m) ≡ some t
    → OneOf t rs
find_placed p q r t m rs new old e = elim (Bool-cases (p == q)) [
  | inl eq ↦
      let same = (==_iff p q).0 eq in
      let there : find p ((q, r) ∷ m) ≡ some r =
        subst (λ k. find p ((k, r) ∷ m) ≡ some r) same (find_same p r m) in
      subst (λ u. OneOf u rs) (ap (λ o. if_nil o r (λ u. u)) (sym there ∙ e)) (new same)
  | inr ne ↦ old t (sym (find_other p q r m (λ same. apart ((==_iff p q).1 same) ne)) ∙ e)
]
  where
    apart : {b : Bool} → b ≡ true → b ≡ false → ⊥
    apart e f = cc

placed-Unsent :
    (p : ℕ) (s : Flow) (q : ℕ) (r : List ℕ)
    → s.held ≡ some (q, r)
    → Unsent p s
    → Unsent p (placed s q r)
placed-Unsent p s q r at (empty, (lt, (quiet, free))) = (
  empty,
  (
    lt,
    (
      find_other p q r s.replies (λ eq. free r (at ∙ ap (λ k. some (k, r)) (sym eq))) ∙ quiet,
      λ t e. nothing_held p t e,
    ),
  ),
)

placed-Offers :
    (c : Command) (p : ℕ) (rs : List (List ℕ)) (s : Flow) (q : ℕ) (r : List ℕ)
    → s.held ≡ some (q, r)
    → Offers c p rs s
    → Offers c p rs (placed s q r)
placed-Offers c p rs s q r at (one, (lt, (heard, coming))) = (
  one,
  (
    lt,
    (
      λ t e.
          find_placed p q r t s.replies rs (λ eq. coming r (at ∙ ap (λ k. some (k, r)) (sym eq)))
            heard e,
      λ t e. absurd (nothing_held p t e),
    ),
  ),
)

placed-Stands :
    (x : Sender) (s : Flow) (a : Promise) (q : ℕ) (r : List ℕ)
    → s.held ≡ some (q, r)
    → Stands x s a
    → Stands x (placed s q r) a
placed-Stands resting s a q r at h = h
placed-Stands (leaving c p x) s a q r at h = h
placed-Stands (wanting c p) s a q r at (is, u) = (is, placed-Unsent p s q r at u)
placed-Stands (filling c p) s a q r at (is, u) = (is, placed-Unsent p s q r at u)
placed-Stands (registered c p) s a q r at (rs, (is, o)) =
    (rs, (is, placed-Offers c p rs s q r at o))
placed-Stands (awaiting c p) s a q r at (rs, (is, o)) = (rs, (is, placed-Offers c p rs s q r at o))

dropped-Unsent : (p : ℕ) (s : Flow) → Unsent p s → Unsent p (dropped s)
dropped-Unsent p s (empty, (lt, (quiet, free))) = (empty, (lt, (quiet, λ t e. nothing_held p t e)))

dropped-Offers :
    (c : Command) (p : ℕ) (rs : List (List ℕ)) (s : Flow)
    → Offers c p rs s
    → Offers c p rs (dropped s)
dropped-Offers c p rs s (one, (lt, (heard, coming))) =
    (one, (lt, (heard, λ t e. absurd (nothing_held p t e))))

dropped-Stands : (x : Sender) (s : Flow) (a : Promise) → Stands x s a → Stands x (dropped s) a
dropped-Stands resting s a h = h
dropped-Stands (leaving c p x) s a h = h
dropped-Stands (wanting c p) s a (is, u) = (is, dropped-Unsent p s u)
dropped-Stands (filling c p) s a (is, u) = (is, dropped-Unsent p s u)
dropped-Stands (registered c p) s a (rs, (is, o)) = (rs, (is, dropped-Offers c p rs s o))
dropped-Stands (awaiting c p) s a (rs, (is, o)) = (rs, (is, dropped-Offers c p rs s o))

dropped-Flows : (s : Flow) → Flows s → Flows (dropped s)
dropped-Flows s h = record {
  fresh = record { quiet = h.fresh.quiet; free = λ k t e. absurd (nothing_held k t e) };
  capacity = h.capacity;
  ended = h.ended;
}

-- The select moves no promise, and reads nothing.
pub hand_over-Refined :
    (s : Flow) (a : Promise) → Good s a → Refined s.reading a deliver (none, hand_over s)
unfolding hand_over
hand_over-Refined s a (h, st) =
    if_nil-Rule (λ t. Refined s.reading a deliver (none, t)) s.held s _
      (λ _. same deliver s a tt (h, st))
      (λ (q, r) at.
        if_nil-Rule (λ t. Refined s.reading a deliver (none, t)) (find q s.replies) (placed s q r)
          (λ _. dropped s)
          (λ _. (
            a,
            (
              stays s.reading a deliver tt,
              (placed-Flows s q r at h, placed-Stands s.sender s a q r at st),
            ),
          ))
          (λ _ _. (
            a,
            (stays s.reading a deliver tt, (dropped-Flows s h, dropped-Stands s.sender s a st)),
          )))
