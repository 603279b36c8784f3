-- ===== src/Att/Client/Bearer/Progress.antt =====
-- The timer of sendReq: whatever else happens, it ends the call.
use ble.Base.{
  ℕ, ◌+◌, ◌≤◌, Bool, true, false, Option, none, some, List, [], ◌∷◌, ◌++◌, ◌≡◌, refl, sym, leb,
  le→leb, get_or, if-Rule,
}
use mathlib.Core.Path.{subst}
use ble.Att.Client.Bearer.{
  Bearer, Event, Outcome, Result, idle, writing, waiting, delivered, loop_fails, request, drained,
  write, receive, fail, cancel, expire, on_request, blocked, next, returned, timed_out, step,
  seq_proto_timeout, on_expire, on_drain, on_write, on_deliver, on_receive, on_fail, on_cancel,
  refuse_pdu, accepts, rsp_of_req,
}

-- The call goes on, or has ended.
pub data Run (M : Type 0) : Type 0 where
  running : Bearer M → Run M
  ended : Outcome M → Bearer M → Run M

module _ {M : Type 0} (op : M → ℕ) where
  abbrev pub resume : (Bearer M → Run M) → Bearer M → Result M → Run M
  resume k c blocked = k c
  resume k c (next d) = k d
  resume k c (returned o d) = ended o d

  -- The events one after another, until sendReq returns; one that is not possible does nothing.
  unfoldable pub run_all : List (Event M) → Bearer M → Run M
  unfolding step
  run_all [] c = running c
  run_all (e ∷ es) c = resume (λ d. run_all es d) c (step op c e)

  -- An event leaves the wait and its deadline as they are, or ends the call.
  abbrev Waits : List ℕ → ℕ → Result M → Type 0
  Waits b d blocked = Unit {0}
  Waits b d (next c) = c.phase ≡ waiting b d
  Waits b d (returned o c) = (c.phase ≡ idle) × (o ≡ timed_out → c.bearer_closed ≡ true)

  on_deliver-Waits :
      (m : M) (o : Option M) (c : Bearer M) (b : List ℕ) (d : ℕ)
      → c.phase ≡ waiting b d
      → Waits b d (on_deliver op m o c)
  unfolding on_deliver
  on_deliver-Waits m none c b d w = w
  on_deliver-Waits m (some _) c b d w = w

  on_receive-Waits :
      (sent : Bool) (o : Option M) (c : Bearer M) (b : List ℕ) (d : ℕ)
      → c.phase ≡ waiting b d
      → Waits b d (on_receive op sent (waiting b d) o c)
  unfolding on_receive refuse_pdu
  on_receive-Waits sent none c b d w = tt
  on_receive-Waits true (some m) c b d w =
      if-Rule (λ r. Waits b d r) (accepts op (rsp_of_req (get_or b 0 0)) m) _ _
        (λ _. (refl, λ e. absurd cc)) (λ _. w)
  on_receive-Waits false (some m) c b d w =
      if-Rule (λ r. Waits b d r) (accepts op (rsp_of_req (get_or b 0 0)) m) _ _
        (λ _. (refl, λ e. absurd cc)) (λ _. (refl, λ e. absurd cc))

  step-Waits :
      (e : Event M) (c : Bearer M) (b : List ℕ) (d : ℕ)
      → c.phase ≡ waiting b d
      → Waits b d (step op c e)
  unfolding step on_request on_drain on_write on_fail on_cancel on_expire
  step-Waits (delivered m) c b d w =
      if-Rule (λ r. Waits b d r) c.loop_done _ _ (λ _. tt) (λ _. on_deliver-Waits m c.rspc c b d w)
  step-Waits loop_fails c b d w = if-Rule (λ r. Waits b d r) c.loop_done _ _ (λ _. tt) (λ _. w)
  step-Waits (request q) c b d w = rw w tt
  step-Waits drained c b d w = rw w tt
  step-Waits (write true now) c b d w = rw w tt
  step-Waits (write false now) c b d w = rw w tt
  step-Waits (receive sent) c b d w =
      subst (λ p. Waits b d (on_receive op sent p c.rspc (record c { rspc = none }))) (sym w)
        (on_receive-Waits sent c.rspc (record c { rspc = none }) b d w)
  step-Waits fail c b d w =
      if-Rule (λ r. Waits b d r) c.ch_err _ _
        (λ _. subst (λ p. Waits b d (on_fail op p c)) (sym w) (refl, λ e. absurd cc)) (λ _. tt)
  step-Waits cancel c b d w =
      subst (λ p. Waits b d (on_cancel op p c)) (sym w) (refl, λ e. absurd cc)
  step-Waits (expire now) c b d w =
      subst (λ p. Waits b d (on_expire op now p c)) (sym w)
        (if-Rule (λ r. Waits b d r) (leb d now) _ _ (λ _. (refl, λ e. refl)) (λ _. tt))

  -- The call has ended, with no request open, and by its timer only if the bearer is closed.
  abbrev pub Ends : Run M → Type 0
  Ends (running c) = ⊥
  Ends (ended o c) = (c.phase ≡ idle) × (o ≡ timed_out → c.bearer_closed ≡ true)

  abbrev closed : Bearer M → Bearer M
  closed c = record c { bearer_closed = true; phase = idle }

  expire-waiting :
      (c : Bearer M) (b : List ℕ) (d now : ℕ)
      → c.phase ≡ waiting b d
      → d ≤ now
      → step op c (expire now) ≡ returned timed_out (closed c)
  unfolding step on_expire
  expire-waiting c b d now w t =
      subst (λ p. on_expire op now p c ≡ returned timed_out (closed c)) (sym w)
        (rw (le→leb d now t) refl)

  resume-Ends :
      (r : Result M) (k : Bearer M → Run M) (c : Bearer M) (b : List ℕ) (d : ℕ)
      → Waits b d r
      → c.phase ≡ waiting b d
      → ((f : Bearer M) → f.phase ≡ waiting b d → Ends (k f))
      → Ends (resume k c r)
  resume-Ends blocked k c b d h w g = g c w
  resume-Ends (next f) k c b d h w g = g f h
  resume-Ends (returned o f) k c b d h w g = h

  waiting-Ends :
      (es : List (Event M)) (c : Bearer M) (b : List ℕ) (d now : ℕ)
      → c.phase ≡ waiting b d
      → d ≤ now
      → Ends (run_all (es ++ (expire now ∷ [])) c)
  unfolding run_all
  waiting-Ends [] c b d now w t =
      subst (λ r. Ends (resume running c r)) (sym (expire-waiting c b d now w t)) (refl, λ e. refl)
  waiting-Ends (e ∷ es) c b d now w t =
      resume-Ends (step op c e) _ c b d (step-Waits e c b d w) w
        (λ f v. waiting-Ends es f b d now v t)

  -- A request that sendReq has written at time t is over by the first tick of its timer at t + 30 seconds or
  -- later, whatever comes before that tick, in any order and number: responses, messages that are
  -- none and have to be refused, failures and the end of the context. No request is open then, and if it
  -- was the timer that ended it, the bearer is closed.
  pub run_all-Ends :
      (es : List (Event M)) (c : Bearer M) (b : List ℕ) (t now : ℕ)
      → c.phase ≡ writing b
      → t + seq_proto_timeout ≤ now
      → Ends (run_all (write true t ∷ (es ++ (expire now ∷ []))) c)
  unfolding run_all on_write
  run_all-Ends es c b t now w h =
      subst
        (λ p. Ends (resume (λ f. run_all (es ++ (expire now ∷ [])) f) c (on_write op true t p c)))
        (sym w) (waiting-Ends es _ b (t + seq_proto_timeout) now refl h)
