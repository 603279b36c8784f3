-- ===== src/Hci/Flow/Handles.antt =====
-- The steps of sktLoop, the handlers of Command Complete and Command Status, against the promise.
use ble.Base.{
  if_nil-Rule, if-Rule, ℕ, ◌≤◌, ◌<◌, ◌≡◌, ◌≢◌, inl, inr, refl, sym, ap, ◌∙◌, arith, Bool, true,
  false, Option, none, some, List, [], ◌∷◌, ◌==◌, ==_iff, Returns, length, u8_at, u16_at,
  slice_from, le_u16, get_or, drop, lt→ltb, le→leb, if_nil, if◌then◌else◌,
}
use mathlib.Core.Path.{subst}
use ble.Hci.Cmd.Wire.{Command}
use ble.Hci.Flow.{
  Flow, FlowEvent, complete, status, look_up, look_up_sent, Sender, resting, wanting, filling,
  registered, awaiting, leaving, find, command_complete, command_status, set_allowed_commands,
  quietly,
}
use ble.Hci.Flow.Promises.{
  Promise, listed, pending, Moves, hears, hears_early, reads, misses, stays, Offers, Stands-kept,
  Carries, completion, status_of, Flows, Stands, Good, Refined, same, allow-Good,
}

find_nothing : (op : ℕ) (m : List (ℕ × ℕ)) (p : ℕ) → m ≡ [] → find op m ≢ some p
unfolding find
find_nothing op m p empty e = none_some p (sym (ap (λ l. find op l) empty) ∙ e)
  where
    none_some : (p : ℕ) → none ≢ some p
    none_some p e = cc

if_some : (b : Bool) (p q : ℕ) → (if b then some p else none) ≡ some q → (b ≡ true) × (q ≡ p)
if_some true p q e = (refl, cc)
if_some false p q e = absurd cc

find_one :
    (op k p q : ℕ) (m : List (ℕ × ℕ)) → m ≡ (k, p) ∷ [] → find op m ≡ some q → (op ≡ k) × (q ≡ p)
unfolding find
find_one op k p q m one e =
    let (same_code, same_packet) = if_some (op == k) p q (sym (ap (λ l. find op l) one) ∙ e) in
    ((==_iff op k).0 same_code, same_packet)

same_reply :
    (p q : ℕ) (r t : List ℕ)
    → ◌≡◌ {A = Option (ℕ × List ℕ)} (some (p, r)) (some (q, t))
    → (q ≡ p) × (t ≡ r)
same_reply p q r t e =
    (ap (λ o. if_nil o q (λ a. a.0)) (sym e), ap (λ o. if_nil o t (λ a. a.1)) (sym e))

abbrev found_packet : Flow → ℕ → List ℕ → Flow
found_packet s p r = record s { reading = none; held = some (p, r) }

held-Flows : (s : Flow) (p : ℕ) (r : List ℕ) → p < s.made → Flows s → Flows (found_packet s p r)
held-Flows s p r lt h = record {
  fresh = record {
    quiet = h.fresh.quiet;
    free = λ k t eq. (let known = (same_reply p k r t eq).0 in omega arith);
  };
  capacity = h.capacity;
  ended = h.ended;
}

held-Offers :
    (c : Command) (p q : ℕ) (rs : List (List ℕ)) (r : List ℕ) (s : Flow)
    → Offers c q rs s
    → Offers c q (r ∷ rs) (found_packet s p r)
held-Offers c p q rs r s (one, (lt, (heard, coming))) =
    (one, (lt, (λ t there. inr (heard t there), λ t eq. inl (same_reply p q r t eq).1)))

-- A lookup has found the packet of the command that is listed, pending or over.
hold-Refined :
    (op p : ℕ) (r : List ℕ) (s : Flow) (a : Promise) (x : Sender)
    → find op s.sent ≡ some p
    → Flows s
    → Stands x s a
    → s.sender ≡ x
    → Refined (some (op, r)) a look_up (none, found_packet s p r)
hold-Refined op p r s a resting found h (_, empty) _ = absurd (find_nothing op s.sent p empty found)
hold-Refined op p r s a (wanting c q) found h (_, (empty, _)) _ =
    absurd (find_nothing op s.sent p empty found)
hold-Refined op p r s a (filling c q) found h (_, (empty, _)) _ =
    absurd (find_nothing op s.sent p empty found)
hold-Refined op p r s a (leaving c q x) found h (is, (one, lt)) at =
    let (code, packet) = find_one op c.op_code q p s.sent one found in
    (
      a,
      (
        misses (op, r) a,
        (
          held-Flows s p r (omega arith) h,
          subst (λ y. Stands y (found_packet s p r) a) (sym at) (is, (one, lt)),
        ),
      ),
    )
hold-Refined op p r s a (registered c q) found h (rs, (is, o)) at =
    let (code, packet) = find_one op c.op_code q p s.sent o.0 found in
    let lt = o.1.0 in
    (
      listed c.op_code (r ∷ rs),
      (
        subst (λ b. Moves (some (op, r)) b look_up none (listed c.op_code (r ∷ rs)) none) (sym is)
            (subst
              (λ k.
                Moves (some (k, r)) (listed c.op_code rs) look_up none (listed c.op_code (r ∷ rs))
                  none)
              (sym code) (hears_early c.op_code rs r)),
        (
          held-Flows s p r (omega arith) h,
          subst (λ y. Stands y (found_packet s p r) (listed c.op_code (r ∷ rs))) (sym at)
              (r ∷ rs, (refl, held-Offers c p q rs r s o)),
        ),
      ),
    )
hold-Refined op p r s a (awaiting c q) found h (rs, (is, o)) at =
    let (code, packet) = find_one op c.op_code q p s.sent o.0 found in
    let lt = o.1.0 in
    (
      pending c.op_code (r ∷ rs),
      (
        subst (λ b. Moves (some (op, r)) b look_up none (pending c.op_code (r ∷ rs)) none) (sym is)
            (subst
              (λ k.
                Moves (some (k, r)) (pending c.op_code rs) look_up none (pending c.op_code (r ∷ rs))
                  none)
              (sym code) (hears c.op_code rs r)),
        (
          held-Flows s p r (omega arith) h,
          subst (λ y. Stands y (found_packet s p r) (pending c.op_code (r ∷ rs))) (sym at)
              (r ∷ rs, (refl, held-Offers c p q rs r s o)),
        ),
      ),
    )

missed-Flows : (s : Flow) → Flows s → Flows (record s { reading = none })
missed-Flows s h = record {
  fresh = record { quiet = h.fresh.quiet; free = h.fresh.free };
  capacity = h.capacity;
  ended = h.ended;
}

pub look_up_sent-Refined :
    (s : Flow) (a : Promise) → Good s a → Refined s.reading a look_up (none, look_up_sent s)
unfolding look_up_sent
look_up_sent-Refined s a (h, st) =
    if_nil-Rule (λ t. Refined s.reading a look_up (none, t)) s.reading s _
      (λ _. same look_up s a tt (h, st))
      (λ (op, r) at.
        subst
          (λ k.
            Refined k a look_up (
              none,
              if_nil (find op s.sent) (record s { reading = none }) (λ p. found_packet s p r),
            ))
          (sym at)
          (if_nil-Rule (λ t. Refined (some (op, r)) a look_up (none, t)) (find op s.sent)
            (record s { reading = none }) (λ p. found_packet s p r)
            (λ _. (
              a,
              (
                misses (op, r) a,
                (missed-Flows s h, Stands-kept s.sender s a s.fatal s.gone s.bufs s.sender none st),
              ),
            ))
            (λ p found. hold-Refined op p r s a s.sender found h st refl)))

-- A handler has read an op code and a reply, behind setAllowedCommands.
read-Refined :
    (e : FlowEvent) (op : ℕ) (r : List ℕ) (n : ℕ) (s : Flow) (a : Promise)
    → Carries e op r
    → s.reading ≡ none
    → Good s a
    → Refined s.reading a e (none, record (set_allowed_commands n s) { reading = some (op, r) })
read-Refined e op r n s a carries idle g = (
  a,
  (
    subst (λ k. Moves k a e (some (op, r)) a none) (sym idle) (reads a e op r carries),
    allow-Good n (some (op, r)) s a g,
  ),
)

pub command_complete-Refined :
    (b : List ℕ) (s : Flow) (a : Promise)
    → 3 ≤ length b
    → s.reading ≡ none
    → Good s a
    → Returns (Refined s.reading a (complete b)) (quietly (command_complete b s))
unfolding command_complete u8_at u16_at slice_from
command_complete-Refined b s a long idle g =
    let first = lt→ltb 0 (length b) (omega arith) in
    let all = le→leb 3 (length b) long in
    rw first (
      rw all (
        if-Rule (λ m. Returns (Refined s.reading a (complete b)) (quietly m)) (le_u16 b 1 == 0) _ _
          (λ _. (a, (stays s.reading a (complete b) tt, allow-Good (get_or b 0 0) s.reading s a g)))
          (λ _.
            read-Refined (complete b) (le_u16 b 1) (drop 3 b) (get_or b 0 0) s a (completion b) idle
              g)))

pub command_status-Refined :
    (b : List ℕ) (s : Flow) (a : Promise)
    → 4 ≤ length b
    → s.reading ≡ none
    → Good s a
    → Returns (Refined s.reading a (status b)) (quietly (command_status b s))
unfolding command_status u8_at u16_at
command_status-Refined b s a long idle g =
    let first = lt→ltb 0 (length b) (omega arith) in
    let second = lt→ltb 1 (length b) (omega arith) in
    let all = le→leb 4 (length b) long in
    rw second (
      rw all (
        rw first (
          read-Refined (status b) (le_u16 b 2) (get_or b 0 0 ∷ []) (get_or b 1 0) s a (status_of b)
            idle g)))
