-- ===== src/Att/Client/Bearer/Attribution.antt =====
-- Which response a request of the client gets, against a peer that answers the requests in order.
use mathlib.Core.Path.{subst}
use ble.Base.{ℕ, Bool, true, false, List, if◌then◌else◌, ◌≡◌, ◌≢◌, refl, ap, ◌∙◌, arith}
use ble.Att.Client.Bearer.{
  Bearer, Event, Result, Phase, idle, resolving, draining, writing, waiting, delivered, loop_fails,
  request, drained, write, receive, fail, cancel, expire, blocked, next, returned, answered, step,
  new_bearer, on_deliver, on_write, on_fail,
}
use ble.Att.Client.Bearer.Peer.{
  Message, answer, other, op_of, Count, count, Allowed, Reachable, fresh, goes_on, ends,
}
use ble.Att.Client.Bearer.Invariant.{
  Inv, Right, After, deliver-Inv, receive-Inv, request-Inv, drain-Inv, write-Inv, fail-Inv,
  cancel-Inv, expire-Inv, loop_fails-Inv,
}

unless-After :
    (g : Count) (t : Bool) (r : Result Message)
    → (t ≡ false → After g r)
    → After g (if t then blocked else r)
unless-After g true r h = tt
unless-After g false r h = h refl

when-After :
    (g : Count) (t : Bool) (r : Result Message)
    → (t ≡ true → After g r)
    → After g (if t then r else blocked)
when-After g true r h = h refl
when-After g false r h = tt

step-Inv :
    (e : Event Message) (c : Bearer Message) (g : Count)
    → Inv c g
    → Allowed g e
    → After (count c.phase e g) (step op_of c e)
unfolding step
step-Inv (delivered m) c g i a =
    unless-After (count c.phase (delivered m) g) c.loop_done (on_deliver op_of m c.rspc c)
      (λ l. deliver-Inv m c.phase c.rspc c g i a l)
step-Inv loop_fails c g i a =
    unless-After g c.loop_done (next (record c { ch_err = true; loop_done = true }))
      (λ l. loop_fails-Inv c.phase c g i l)
step-Inv (request b) c g i a = request-Inv b c.phase c g i a
step-Inv drained c g i a = drain-Inv c.phase c g i
step-Inv (write ok now) c g i a = write-Inv ok now c.phase c.rspc c g i
step-Inv (receive true) c g i a = receive-Inv c.phase c.rspc c g i
step-Inv (receive false) c g i a = cc
step-Inv fail c g i a =
    when-After g c.ch_err (on_fail op_of c.phase c) (λ l. fail-Inv c.phase c g i l)
step-Inv cancel c g i a = cancel-Inv c.phase c g i
step-Inv (expire now) c g i a = expire-Inv now c.phase c g i

Reachable-Inv : {c : Bearer Message} {g : Count} → Reachable c g → Inv c g
unfolding new_bearer
Reachable-Inv fresh = ground arith
Reachable-Inv (goes_on {c} {d} {g} e r a q) =
    subst (After (count c.phase e g)) q (step-Inv e c g (Reachable-Inv r) a)
Reachable-Inv (ends {c} {d} {g} e o r a q) =
    (subst (After (count c.phase e g)) q (step-Inv e c g (Reachable-Inv r) a)).0

write_no_answer :
    (p : Phase) (now : ℕ) (c d : Bearer Message) (m : Message)
    → on_write op_of true now p c ≢ returned (answered m) d
unfolding on_write
write_no_answer idle now c d m q = cc
write_no_answer (resolving b) now c d m q = cc
write_no_answer (draining b) now c d m q = cc
write_no_answer (writing b) now c d m q = cc
write_no_answer (waiting b t) now c d m q = cc

last_written :
    (e : Event Message) (c d : Bearer Message) (g : Count) (m : Message)
    → step op_of c e ≡ returned (answered m) d
    → (count c.phase e g).written ≡ g.written
unfolding step
last_written (delivered (answer k o ds)) c d g m q = refl
last_written (delivered (other o ds)) c d g m q = refl
last_written (write true now) c d g m q = absurd (write_no_answer c.phase now c d m q)
last_written (write false now) c d g m q = refl
last_written loop_fails c d g m q = refl
last_written (request b) c d g m q = refl
last_written drained c d g m q = refl
last_written (receive ok) c d g m q = refl
last_written fail c d g m q = refl
last_written cancel c d g m q = refl
last_written (expire now) c d g m q = refl

Right-answer :
    (g : Count) (m : Message)
    → Right g (answered m)
    → (o : ℕ) × (ds : List ℕ) × (m ≡ answer g.written o ds)
Right-answer g (answer k o ds) r = (o, ds, ap (λ (x : ℕ). answer x o ds) r)
Right-answer g (other o ds) r = absurd r

-- In every state that is reached, whatever requests were cancelled, timed out or failed before: a message that
-- sendReq returns is the answer to the last request written. The peer answers each request at most once
-- and in order, by an opcode that rspOfReq gives or an error, and sends no other responses; PDUs of its own
-- it may send at any time, and no refusal of such a PDU fails to be written.
pub answered-Right :
    {c d : Bearer Message} {g : Count} (e : Event Message) (m : Message)
    → Reachable c g
    → Allowed g e
    → step op_of c e ≡ returned (answered m) d
    → (o : ℕ) × (ds : List ℕ) × (m ≡ answer g.written o ds)
answered-Right {c} {d} {g} e m r a q =
    let (o, ds, p) =
      Right-answer (count c.phase e g) m
        (subst (After (count c.phase e g)) q (step-Inv e c g (Reachable-Inv r) a)).1 in
    (o, ds, p ∙ ap (λ (x : ℕ). answer x o ds) (last_written e c d g m q))
