-- ===== src/Hci/Flow/Places.antt =====
-- Every event in every place where the caller of send may stand, against the promise.
use ble.Base.{if_nil-Rule, if-Rule, ℕ, ◌-◌, ◌≡◌, refl, sym, arith, none, some, ltb}
use mathlib.Core.Path.{subst}
use ble.Hci.Cmd.Wire.{Command}
use ble.Hci.Flow.{
  Flow, FlowEvent, ask, register, write, look_up, take_buffer, no_buffer, see_done, expire, receive,
  deliver, leave, leaving, shut, complete, status, socket_lost, SendResult, FlowError, failed,
  replied, Sender, resting, wanting, filling, registered, awaiting, find, on_ask, on_register,
  on_write, end_send, on_wanting, on_awaiting, on_sender, command_timeout, the_error,
}
use ble.Hci.Flow.Promises.{
  Promise, nothing, asked, granted, gives_up, returns, Moves, grants, answers, turns_back, Stands,
  Good, Refined, same,
}
use ble.Hci.Flow.Sends.{
  Flows-kept, back-Refined, some_differs, none_left, on_ask-Refined, on_register-Refined,
  on_write-Refined, decided-Refined,
}

turned_back :
    (e : FlowEvent) (c : Command) (s : Flow) (a : Promise) (x : FlowError)
    → a ≡ asked c
    → Moves s.reading a e s.reading nothing (some (failed x))
turned_back e c s a x is =
    subst (λ b. Moves s.reading b e s.reading nothing (some (failed x))) (sym is)
      (turns_back s.reading c e x)

on_wanting-Refined :
    (e : FlowEvent) (c : Command) (p : ℕ) (s : Flow) (a : Promise)
    → Good s a
    → Stands (wanting c p) s a
    → Refined s.reading a e (on_wanting e c p s)
unfolding on_wanting
on_wanting-Refined take_buffer c p s a (h, good) (is, u) =
    if-Rule (λ o. Refined s.reading a take_buffer o) (ltb 0 s.bufs) _ (none, s)
      (λ _. (
        granted c,
        (
          subst (λ b. Moves s.reading b take_buffer s.reading (granted c) none) (sym is)
              (grants s.reading c),
          (
            Flows-kept s s.fatal (s.bufs - 1) s.sent (filling c p) h (omega arith) h.ended,
            (refl, u),
          ),
        ),
      ))
      (λ _. same _ s a tt (h, good))
on_wanting-Refined see_done c p s a (h, good) st =
    if-Rule (λ o. Refined s.reading a see_done o) s.gone _ (none, s)
      (λ _.
        back-Refined a see_done s s.fatal s.bufs s.sent _
          (turned_back see_done c s a (the_error s) st.0) h (omega arith) h.ended st.1.0)
      (λ _. same see_done s a tt (h, good))
on_wanting-Refined no_buffer c p s a (h, good) st =
    back-Refined a no_buffer s (some command_timeout) s.bufs s.sent _
      (turned_back no_buffer c s a command_timeout st.0) h (omega arith) (λ _. some_differs _)
      st.1.0
on_wanting-Refined leave c p s a g st = same _ s a (λ r q. absurd cc) g
on_wanting-Refined (ask d) c p s a g st = same _ s a (λ q. absurd cc) g
on_wanting-Refined (register before) c p s a g st = same _ s a tt g
on_wanting-Refined (write wrote) c p s a g st = same _ s a tt g
on_wanting-Refined look_up c p s a g st = same _ s a tt g
on_wanting-Refined expire c p s a g st = same _ s a (λ op ks q. absurd cc) g
on_wanting-Refined receive c p s a g st = same _ s a tt g
on_wanting-Refined deliver c p s a g st = same _ s a tt g
on_wanting-Refined shut c p s a g st = same _ s a tt g
on_wanting-Refined (complete b) c p s a g st = same _ s a tt g
on_wanting-Refined (status b) c p s a g st = same _ s a tt g
on_wanting-Refined (socket_lost x) c p s a g st = same _ s a tt g

on_awaiting-Refined :
    (e : FlowEvent) (c : Command) (p : ℕ) (s : Flow) (a : Promise)
    → Good s a
    → Stands (awaiting c p) s a
    → Refined s.reading a e (on_awaiting e c p s)
unfolding on_awaiting
on_awaiting-Refined expire c p s a (h, good) (rs, (is, o)) =
    decided-Refined a expire c p s rs _ h is o (gives_up _ _ rs expire command_timeout)
on_awaiting-Refined see_done c p s a (h, good) (rs, (is, o)) =
    if-Rule (λ o. Refined s.reading a see_done o) s.gone _ (none, s)
      (λ over.
        if_nil-Rule (λ o. Refined s.reading a see_done o) s.fatal _ _
          (λ fine. absurd (h.ended over fine))
          (λ x broken. decided-Refined a see_done c p s rs _ h is o (gives_up _ _ rs see_done x)))
      (λ _. same see_done s a tt (h, good))
on_awaiting-Refined receive c p s a (h, good) (rs, (is, o)) =
    if_nil-Rule (λ o. Refined s.reading a receive o) (find p s.replies) (none, s) _
      (λ _. same receive s a tt (h, good))
      (λ r there.
        decided-Refined a receive c p s rs (replied r) h is o
          (answers s.reading c.op_code rs r (o.1.1.0 r there)))
on_awaiting-Refined leave c p s a g st = same _ s a (λ r q. absurd cc) g
on_awaiting-Refined (ask d) c p s a g st = same _ s a (λ q. absurd cc) g
on_awaiting-Refined (register before) c p s a g st = same _ s a tt g
on_awaiting-Refined (write wrote) c p s a g st = same _ s a tt g
on_awaiting-Refined take_buffer c p s a g st = same _ s a tt g
on_awaiting-Refined look_up c p s a g st = same _ s a tt g
on_awaiting-Refined no_buffer c p s a g st = same _ s a (λ d q. absurd cc) g
on_awaiting-Refined deliver c p s a g st = same _ s a tt g
on_awaiting-Refined shut c p s a g st = same _ s a tt g
on_awaiting-Refined (complete b) c p s a g st = same _ s a tt g
on_awaiting-Refined (status b) c p s a g st = same _ s a tt g
on_awaiting-Refined (socket_lost x) c p s a g st = same _ s a tt g

on_resting-Refined :
    (e : FlowEvent) (s : Flow) (a : Promise)
    → Good s a
    → Stands resting s a
    → Refined s.reading a e (on_sender resting e s)
unfolding on_sender
on_resting-Refined (ask c) s a g st =
    subst (λ b. Refined s.reading b (ask c) (on_ask c s)) (sym st.0)
      (on_ask-Refined c s (subst (λ b. Good s b) st.0 g) st.1)
on_resting-Refined (register before) s a g st = same _ s a tt g
on_resting-Refined (write wrote) s a g st = same _ s a tt g
on_resting-Refined take_buffer s a g st = same _ s a tt g
on_resting-Refined leave s a g st = same _ s a (λ r q. absurd cc) g
on_resting-Refined look_up s a g st = same _ s a tt g
on_resting-Refined no_buffer s a g st = same _ s a (λ d q. absurd cc) g
on_resting-Refined see_done s a g st = same _ s a tt g
on_resting-Refined expire s a g st = same _ s a (λ op ks q. absurd cc) g
on_resting-Refined receive s a g st = same _ s a tt g
on_resting-Refined deliver s a g st = same _ s a tt g
on_resting-Refined shut s a g st = same _ s a tt g
on_resting-Refined (complete b) s a g st = same _ s a tt g
on_resting-Refined (status b) s a g st = same _ s a tt g
on_resting-Refined (socket_lost x) s a g st = same _ s a tt g

on_filling-Refined :
    (e : FlowEvent) (c : Command) (p : ℕ) (s : Flow) (a : Promise)
    → Good s a
    → Stands (filling c p) s a
    → Refined s.reading a e (on_sender (filling c p) e s)
unfolding on_sender
on_filling-Refined (register before) c p s a (h, good) (is, u) =
    subst (λ b. Refined s.reading b (register before) (on_register before c p s)) (sym is)
      (on_register-Refined before c p s h u)
on_filling-Refined leave c p s a g st = same _ s a (λ r q. absurd cc) g
on_filling-Refined (ask d) c p s a g st = same _ s a (λ q. absurd cc) g
on_filling-Refined (write wrote) c p s a g st = same _ s a tt g
on_filling-Refined take_buffer c p s a g st = same _ s a tt g
on_filling-Refined look_up c p s a g st = same _ s a tt g
on_filling-Refined no_buffer c p s a g st = same _ s a (λ d q. absurd cc) g
on_filling-Refined see_done c p s a g st = same _ s a tt g
on_filling-Refined expire c p s a g st = same _ s a (λ op ks q. absurd cc) g
on_filling-Refined receive c p s a g st = same _ s a tt g
on_filling-Refined deliver c p s a g st = same _ s a tt g
on_filling-Refined shut c p s a g st = same _ s a tt g
on_filling-Refined (complete b) c p s a g st = same _ s a tt g
on_filling-Refined (status b) c p s a g st = same _ s a tt g
on_filling-Refined (socket_lost x) c p s a g st = same _ s a tt g

on_registered-Refined :
    (e : FlowEvent) (c : Command) (p : ℕ) (s : Flow) (a : Promise)
    → Good s a
    → Stands (registered c p) s a
    → Refined s.reading a e (on_sender (registered c p) e s)
unfolding on_sender
on_registered-Refined (write wrote) c p s a (h, good) (rs, (is, o)) =
    subst (λ b. Refined s.reading b (write wrote) (on_write wrote c p s)) (sym is)
      (on_write-Refined wrote c p s rs h o)
on_registered-Refined leave c p s a g st = same _ s a (λ r q. absurd cc) g
on_registered-Refined (ask d) c p s a g st = same _ s a (λ q. absurd cc) g
on_registered-Refined (register before) c p s a g st = same _ s a tt g
on_registered-Refined take_buffer c p s a g st = same _ s a tt g
on_registered-Refined look_up c p s a g st = same _ s a tt g
on_registered-Refined no_buffer c p s a g st = same _ s a (λ d q. absurd cc) g
on_registered-Refined see_done c p s a g st = same _ s a tt g
on_registered-Refined expire c p s a g st = same _ s a (λ op ks q. absurd cc) g
on_registered-Refined receive c p s a g st = same _ s a tt g
on_registered-Refined deliver c p s a g st = same _ s a tt g
on_registered-Refined shut c p s a g st = same _ s a tt g
on_registered-Refined (complete b) c p s a g st = same _ s a tt g
on_registered-Refined (status b) c p s a g st = same _ s a tt g
on_registered-Refined (socket_lost x) c p s a g st = same _ s a tt g

on_leaving-Refined :
    (e : FlowEvent) (c : Command) (p : ℕ) (r : SendResult) (s : Flow) (a : Promise)
    → Good s a
    → Stands (leaving c p r) s a
    → Refined s.reading a e (on_sender (leaving c p r) e s)
unfolding on_sender end_send
on_leaving-Refined leave c p r s a (h, good) (is, (one, lt)) =
    back-Refined a leave s s.fatal s.bufs _ r
      (subst (λ b. Moves s.reading b leave s.reading nothing (some r)) (sym is)
        (returns s.reading r))
      h (omega arith) h.ended (none_left c.op_code p s.sent one)
on_leaving-Refined (ask d) c p r s a g st = same _ s a (λ q. absurd cc) g
on_leaving-Refined (register before) c p r s a g st = same _ s a tt g
on_leaving-Refined (write wrote) c p r s a g st = same _ s a tt g
on_leaving-Refined take_buffer c p r s a g st = same _ s a tt g
on_leaving-Refined look_up c p r s a g st = same _ s a tt g
on_leaving-Refined no_buffer c p r s a g st = same _ s a (λ d q. absurd cc) g
on_leaving-Refined see_done c p r s a g st = same _ s a tt g
on_leaving-Refined expire c p r s a g st = same _ s a (λ op ks q. absurd cc) g
on_leaving-Refined receive c p r s a g st = same _ s a tt g
on_leaving-Refined deliver c p r s a g st = same _ s a tt g
on_leaving-Refined shut c p r s a g st = same _ s a tt g
on_leaving-Refined (complete b) c p r s a g st = same _ s a tt g
on_leaving-Refined (status b) c p r s a g st = same _ s a tt g
on_leaving-Refined (socket_lost x) c p r s a g st = same _ s a tt g

pub on_sender-Refined :
    (x : Sender) (e : FlowEvent) (s : Flow) (a : Promise)
    → Good s a
    → Stands x s a
    → Refined s.reading a e (on_sender x e s)
unfolding on_sender
on_sender-Refined resting e s a g st = on_resting-Refined e s a g st
on_sender-Refined (wanting c p) e s a g st = on_wanting-Refined e c p s a g st
on_sender-Refined (filling c p) e s a g st = on_filling-Refined e c p s a g st
on_sender-Refined (registered c p) e s a g st = on_registered-Refined e c p s a g st
on_sender-Refined (awaiting c p) e s a g st = on_awaiting-Refined e c p s a g st
on_sender-Refined (leaving c p r) e s a g st = on_leaving-Refined e c p r s a g st
