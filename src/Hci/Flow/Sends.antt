-- ===== src/Hci/Flow/Sends.antt =====
-- The steps of the caller of send against the promise.
use ble.Base.{
  if_nil-Rule, ℕ, ◌+◌, ◌≤◌, ◌≡◌, ◌≢◌, refl, sym, ap, ◌∙◌, arith, Bool, true, false, Option, none,
  some, List, [], ◌∷◌,
}
use mathlib.Core.Path.{subst}
use ble.Hci.Cmd.Wire.{Command, command_packet}
use ble.Hci.Flow.{
  Flow, FlowEvent, ask, register, write, leaving, decided, SendResult, failed, Sender, resting,
  wanting, registered, awaiting, remove, on_ask, on_register, on_write, FlowError, not_marshalled,
  not_written,
}
use ble.Hci.Flow.Promises.{
  Promise, nothing, asked, granted, listed, pending, ending, breaks, Unsent, Offers, Moves, asks,
  lists, writes, fails, refuses, Flows, Stands, Good, Refined, remove_only,
}

-- The flow with another error, sent table, buffers and place of the caller.
pub Flows-kept :
    (s : Flow) (f : Option FlowError) (n : ℕ) (m : List (ℕ × ℕ)) (y : Sender)
    → Flows s
    → n ≤ s.bufs
    → (s.gone ≡ true → f ≢ none)
    → Flows (record s { fatal = f; bufs = n; sent = m; sender = y })
Flows-kept s f n m y h less ends = record {
  fresh = record { quiet = h.fresh.quiet; free = h.fresh.free };
  capacity = (let cap = h.capacity in omega arith);
  ended = ends;
}

pub on_ask-Refined :
    (c : Command) (s : Flow)
    → Good s nothing
    → s.sent ≡ []
    → Refined s.reading nothing (ask c) (on_ask c s)
unfolding on_ask
on_ask-Refined c s (h, st) empty =
    if_nil-Rule (λ o. Refined s.reading nothing (ask c) o) s.fatal
      (none, record s { sender = wanting c s.made; made = s.made + 1 }) (λ e. (some (failed e), s))
      (λ fine. (asked c, (asks s.reading c, (begun, started))))
      (λ x broken. (nothing, (refuses s.reading c x, (h, st))))
  where
    begun : Flows (record s { sender = wanting c s.made; made = s.made + 1 })
    begun = record {
      fresh = record {
        quiet = λ q le. h.fresh.quiet q (omega arith);
        free = λ q r e. (let lt = h.fresh.free q r e in omega arith);
      };
      capacity = h.capacity;
      ended = h.ended;
    }

    started :
        Stands
          (wanting c s.made)
          (record s { sender = wanting c s.made; made = s.made + 1 })
          (asked c)
    started = (
      refl,
      (
        empty,
        (
          omega arith,
          (
            h.fresh.quiet s.made (omega arith),
            λ r e. (let lt = h.fresh.free s.made r e in absurd (omega arith)),
          ),
        ),
      ),
    )

-- The end of a call that fails, refuses, or returns a reply to its op code.
pub back-Refined :
    (a : Promise) (e : FlowEvent) (s : Flow) (f : Option FlowError) (n : ℕ) (m : List (ℕ × ℕ))
    (r : SendResult)
    → Moves s.reading a e s.reading nothing (some r)
    → Flows s
    → n ≤ s.bufs
    → (s.gone ≡ true → f ≢ none)
    → m ≡ []
    → Refined s.reading a e (some r, record s { fatal = f; bufs = n; sent = m; sender = resting })
back-Refined a e s f n m r move h less ends empty =
    (nothing, (move, (Flows-kept s f n m resting h less ends, (refl, empty))))

pub some_differs : {A : Type 0} (x : A) → some x ≢ none
some_differs x e = cc

only_one : (op p : ℕ) (m : List (ℕ × ℕ)) → m ≡ [] → (op, p) ∷ remove op m ≡ (op, p) ∷ []
unfolding remove
only_one op p m empty = ap (λ l. (op, p) ∷ remove op l) empty

pub none_left : (op p : ℕ) (m : List (ℕ × ℕ)) → m ≡ (op, p) ∷ [] → remove op m ≡ []
none_left op p m one = ap (λ l. remove op l) one ∙ remove_only op p

pub on_register-Refined :
    (before : List ℕ) (c : Command) (p : ℕ) (s : Flow)
    → Flows s
    → Unsent p s
    → Refined s.reading (granted c) (register before) (on_register before c p s)
unfolding on_register
on_register-Refined before c p s h (empty, (lt, (quiet, free))) =
    if_nil-Rule (λ o. Refined s.reading (granted c) (register before) o) (command_packet before c) _
      _
      (λ short.
        back-Refined (granted c) (register before) s (some not_marshalled) s.bufs s.sent _
          (fails s.reading c before not_marshalled) h (omega arith) (λ _. some_differs _) empty)
      (λ packet fits. (
        listed c.op_code [],
        (
          lists s.reading c before,
          (
            Flows-kept s s.fatal s.bufs _ (registered c p) h (omega arith) h.ended,
            (
              [],
              (
                refl,
                (
                  only_one c.op_code p s.sent empty,
                  (lt, (λ r e. absurd (some_differs r (sym e ∙ quiet)), λ r e. absurd (free r e))),
                ),
              ),
            ),
          ),
        ),
      ))

pub on_write-Refined :
    (wrote : Bool) (c : Command) (p : ℕ) (s : Flow) (rs : List (List ℕ))
    → Flows s
    → Offers c p rs s
    → Refined s.reading (listed c.op_code rs) (write wrote) (on_write wrote c p s)
unfolding on_write
on_write-Refined true c p s rs h o = (
  pending c.op_code rs,
  (
    writes s.reading c.op_code rs,
    (Flows-kept s s.fatal s.bufs s.sent (awaiting c p) h (omega arith) h.ended, (rs, (refl, o))),
  ),
)
on_write-Refined false c p s rs h o = (
  ending (failed not_written),
  (
    breaks s.reading c.op_code rs not_written,
    (
      Flows-kept s (some not_written) s.bufs s.sent (leaving c p (failed not_written)) h
          (omega arith) (λ _. some_differs _),
      (refl, (o.0, o.1.0)),
    ),
  ),
)

-- The end of the last wait, with the result of the move.
pub decided-Refined :
    (a : Promise) (e : FlowEvent) (c : Command) (p : ℕ) (s : Flow) (rs : List (List ℕ))
    (r : SendResult)
    → Flows s
    → a ≡ pending c.op_code rs
    → Offers c p rs s
    → Moves s.reading (pending c.op_code rs) e s.reading (ending r) none
    → Refined s.reading a e (decided c p r s)
decided-Refined a e c p s rs r h is o move = (
  ending r,
  (
    subst (λ b. Moves s.reading b e s.reading (ending r) none) (sym is) move,
    (
      Flows-kept s s.fatal s.bufs s.sent (leaving c p r) h (omega arith) h.ended,
      (refl, (o.0, o.1.0)),
    ),
  ),
)
