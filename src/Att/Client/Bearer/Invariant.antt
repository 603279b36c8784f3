-- ===== src/Att/Client/Bearer/Invariant.antt =====
-- What holds of the client between two events, and that each event keeps it.
use ble.Base.{
  ℕ, ◌+◌, ◌≤◌, Bool, true, false, ◌||◌, Option, none, some, List, ◌==◌, get_or, ◌≡◌, ◌≢◌, arith,
  ◌⊎◌,
}
use ble.Att.Client.Bearer.{
  Bearer, Outcome, Result, Phase, idle, resolving, draining, writing, waiting, delivered, write,
  blocked, next, returned, answered, rsp_of_req, on_deliver, on_request, on_drain, on_write,
  on_receive, on_fail, on_cancel, on_expire,
}
use ble.Att.Client.Bearer.Peer.{Message, answer, other, op_of, is_response, Count, count, Allowed}

-- What rspc holds where no answer is awaited, and where the last request's is.
abbrev pub Clear : Option Message → Type 0
Clear none = Unit {0}
Clear (some (answer k o ds)) = ⊥
Clear (some (other o ds)) = is_response o ≡ false

abbrev pub AnswerSlot : Count → Option Message → Type 0
AnswerSlot g none = Unit {0}
AnswerSlot g (some (answer k o ds)) =
    (k ≡ g.written) × (g.answers ≡ g.written) × ((o == 1 || o == rsp_of_req g.last) ≡ true)
AnswerSlot g (some (other o ds)) = is_response o ≡ false

-- No request is open, or no message will come any more.
abbrev pub Settled : Bearer Message → Count → Type 0
Settled c g = (Clear c.rspc × (g.answers ≡ g.written)) ⊎ (c.loop_done ≡ true)

-- The last request may be open.
abbrev pub Outstanding : Bearer Message → Count → Type 0
Outstanding c g =
    (AnswerSlot g c.rspc × (g.answers ≤ g.written) × (g.written ≤ g.answers + 1))
    ⊎ ((c.loop_done ≡ true) × Clear c.rspc)

abbrev pub At : Phase → Bearer Message → Count → Type 0
At idle c g =
    (c.bearer_closed ≡ true)
    ⊎ ((c.abandoned_rsp ≡ 0) × Settled c g)
    ⊎ ((c.abandoned_rsp ≢ 0) × (c.abandoned_rsp ≡ rsp_of_req g.last) × Outstanding c g)
At (resolving b) c g =
    (c.abandoned_rsp ≢ 0)
    × (c.abandoned_rsp ≡ rsp_of_req g.last)
    × Outstanding c g
    × (rsp_of_req (get_or b 0 0) ≢ 0)
At (draining b) c g = (c.abandoned_rsp ≡ 0) × Settled c g × (rsp_of_req (get_or b 0 0) ≢ 0)
At (writing b) c g =
    (c.abandoned_rsp ≡ 0)
    × Clear c.rspc
    × ((g.answers ≡ g.written) ⊎ (c.loop_done ≡ true))
    × (rsp_of_req (get_or b 0 0) ≢ 0)
At (waiting b d) c g =
    (c.abandoned_rsp ≡ 0)
    × (g.last ≡ get_or b 0 0)
    × Outstanding c g
    × (rsp_of_req (get_or b 0 0) ≢ 0)

abbrev pub Inv : Bearer Message → Count → Type 0
Inv c g = At c.phase c g × (c.ch_err ≡ true → c.loop_done ≡ true)

-- An answer that sendReq returns is that of the last request.
abbrev pub Right : Count → Outcome Message → Type 0
Right g (answered (answer k o ds)) = k ≡ g.written
Right g (answered (other o ds)) = ⊥
Right g _ = Unit {0}

abbrev pub After : Count → Result Message → Type 0
After g blocked = Unit {0}
After g (next d) = Inv d g
After g (returned o d) = Inv d g × Right g o

rsp_of_req-is_response : (o : ℕ) → (rsp_of_req o ≡ 0) ⊎ (is_response (rsp_of_req o) ≡ true)
unfolding rsp_of_req
rsp_of_req-is_response o = ground arith

abbrev pub at_phase : Phase → Option Message → Bearer Message → Bearer Message
at_phase p r c = record c { phase = p; rspc = r }

pub deliver-Inv :
    (m : Message) (p : Phase) (r : Option Message) (c : Bearer Message) (g : Count)
    → Inv (at_phase p r c) g
    → Allowed g (delivered m)
    → c.loop_done ≡ false
    → After (count p (delivered m) g) (on_deliver op_of m r (at_phase p r c))
unfolding on_deliver
deliver-Inv (answer k o ds) idle none c g i a l = ground arith
deliver-Inv (answer k o ds) idle (some (answer k1 o1 ds1)) c g i a l = ground arith
deliver-Inv (answer k o ds) idle (some (other o1 ds1)) c g i a l = ground arith
deliver-Inv (answer k o ds) (resolving b) none c g i a l = ground arith
deliver-Inv (answer k o ds) (resolving b) (some (answer k1 o1 ds1)) c g i a l = ground arith
deliver-Inv (answer k o ds) (resolving b) (some (other o1 ds1)) c g i a l = ground arith
deliver-Inv (answer k o ds) (draining b) none c g i a l = ground arith
deliver-Inv (answer k o ds) (draining b) (some (answer k1 o1 ds1)) c g i a l = ground arith
deliver-Inv (answer k o ds) (draining b) (some (other o1 ds1)) c g i a l = ground arith
deliver-Inv (answer k o ds) (writing b) none c g i a l = ground arith
deliver-Inv (answer k o ds) (writing b) (some (answer k1 o1 ds1)) c g i a l = ground arith
deliver-Inv (answer k o ds) (writing b) (some (other o1 ds1)) c g i a l = ground arith
deliver-Inv (answer k o ds) (waiting b d) none c g i a l = ground arith
deliver-Inv (answer k o ds) (waiting b d) (some (answer k1 o1 ds1)) c g i a l = ground arith
deliver-Inv (answer k o ds) (waiting b d) (some (other o1 ds1)) c g i a l = ground arith
deliver-Inv (other o ds) idle none c g i a l = ground arith
deliver-Inv (other o ds) idle (some (answer k1 o1 ds1)) c g i a l = ground arith
deliver-Inv (other o ds) idle (some (other o1 ds1)) c g i a l = ground arith
deliver-Inv (other o ds) (resolving b) none c g i a l = ground arith
deliver-Inv (other o ds) (resolving b) (some (answer k1 o1 ds1)) c g i a l = ground arith
deliver-Inv (other o ds) (resolving b) (some (other o1 ds1)) c g i a l = ground arith
deliver-Inv (other o ds) (draining b) none c g i a l = ground arith
deliver-Inv (other o ds) (draining b) (some (answer k1 o1 ds1)) c g i a l = ground arith
deliver-Inv (other o ds) (draining b) (some (other o1 ds1)) c g i a l = ground arith
deliver-Inv (other o ds) (writing b) none c g i a l = ground arith
deliver-Inv (other o ds) (writing b) (some (answer k1 o1 ds1)) c g i a l = ground arith
deliver-Inv (other o ds) (writing b) (some (other o1 ds1)) c g i a l = ground arith
deliver-Inv (other o ds) (waiting b d) none c g i a l = ground arith
deliver-Inv (other o ds) (waiting b d) (some (answer k1 o1 ds1)) c g i a l = ground arith
deliver-Inv (other o ds) (waiting b d) (some (other o1 ds1)) c g i a l = ground arith

pub receive-Inv :
    (p : Phase) (r : Option Message) (c : Bearer Message) (g : Count)
    → Inv (at_phase p r c) g
    → After g (on_receive op_of true p r (at_phase p none c))
unfolding on_receive
receive-Inv idle none c g i = ground arith
receive-Inv idle (some (answer k1 o1 ds1)) c g i = ground arith
receive-Inv idle (some (other o1 ds1)) c g i = ground arith
receive-Inv (resolving b) none c g i =
    ground (arith, rsp_of_req-is_response g.last, rsp_of_req-is_response (get_or b 0 0))
receive-Inv (resolving b) (some (answer k1 o1 ds1)) c g i =
    ground (arith, rsp_of_req-is_response g.last, rsp_of_req-is_response (get_or b 0 0))
receive-Inv (resolving b) (some (other o1 ds1)) c g i =
    ground (arith, rsp_of_req-is_response g.last, rsp_of_req-is_response (get_or b 0 0))
receive-Inv (draining b) none c g i = ground arith
receive-Inv (draining b) (some (answer k1 o1 ds1)) c g i = ground arith
receive-Inv (draining b) (some (other o1 ds1)) c g i = ground arith
receive-Inv (writing b) none c g i = ground arith
receive-Inv (writing b) (some (answer k1 o1 ds1)) c g i = ground arith
receive-Inv (writing b) (some (other o1 ds1)) c g i = ground arith
receive-Inv (waiting b d) none c g i =
    ground (arith, rsp_of_req-is_response g.last, rsp_of_req-is_response (get_or b 0 0))
receive-Inv (waiting b d) (some (answer k1 o1 ds1)) c g i =
    ground (arith, rsp_of_req-is_response g.last, rsp_of_req-is_response (get_or b 0 0))
receive-Inv (waiting b d) (some (other o1 ds1)) c g i =
    ground (arith, rsp_of_req-is_response g.last, rsp_of_req-is_response (get_or b 0 0))

pub request-Inv :
    (b : List ℕ) (p : Phase) (c : Bearer Message) (g : Count)
    → Inv (at_phase p c.rspc c) g
    → rsp_of_req (get_or b 0 0) ≢ 0
    → After g (on_request op_of b p (at_phase p c.rspc c))
unfolding on_request
request-Inv b idle c g i a = ground arith
request-Inv b (resolving b1) c g i a = ground arith
request-Inv b (draining b1) c g i a = ground arith
request-Inv b (writing b1) c g i a = ground arith
request-Inv b (waiting b1 d) c g i a = ground arith

pub drain-Inv :
    (p : Phase) (c : Bearer Message) (g : Count)
    → Inv (at_phase p c.rspc c) g
    → After g (on_drain op_of p (at_phase p c.rspc c))
unfolding on_drain
drain-Inv idle c g i = ground arith
drain-Inv (resolving b) c g i = ground arith
drain-Inv (draining b) c g i = ground arith
drain-Inv (writing b) c g i = ground arith
drain-Inv (waiting b d) c g i = ground arith

pub write-Inv :
    (ok : Bool) (now : ℕ) (p : Phase) (r : Option Message) (c : Bearer Message) (g : Count)
    → Inv (at_phase p r c) g
    → After (count p (write ok now) g) (on_write op_of ok now p (at_phase p r c))
unfolding on_write
write-Inv true now idle r c g i = ground arith
write-Inv true now (resolving b) r c g i = ground arith
write-Inv true now (draining b) r c g i = ground arith
write-Inv true now (writing b) none c g i = ground arith
write-Inv true now (writing b) (some (answer k1 o1 ds1)) c g i = ground arith
write-Inv true now (writing b) (some (other o1 ds1)) c g i = ground arith
write-Inv true now (waiting b d) r c g i = ground arith
write-Inv false now idle r c g i = ground arith
write-Inv false now (resolving b) r c g i = ground arith
write-Inv false now (draining b) r c g i = ground arith
write-Inv false now (writing b) none c g i = ground arith
write-Inv false now (writing b) (some (answer k1 o1 ds1)) c g i = ground arith
write-Inv false now (writing b) (some (other o1 ds1)) c g i = ground arith
write-Inv false now (waiting b d) r c g i = ground arith

pub fail-Inv :
    (p : Phase) (c : Bearer Message) (g : Count)
    → Inv (at_phase p c.rspc c) g
    → c.ch_err ≡ true
    → After g (on_fail op_of p (at_phase p c.rspc c))
unfolding on_fail
fail-Inv idle c g i a = ground arith
fail-Inv (resolving b) c g i a = ground arith
fail-Inv (draining b) c g i a = ground arith
fail-Inv (writing b) c g i a = ground arith
fail-Inv (waiting b d) c g i a = ground arith

pub cancel-Inv :
    (p : Phase) (c : Bearer Message) (g : Count)
    → Inv (at_phase p c.rspc c) g
    → After g (on_cancel op_of p (at_phase p c.rspc c))
unfolding on_cancel
cancel-Inv idle c g i = ground arith
cancel-Inv (resolving b) c g i = ground arith
cancel-Inv (draining b) c g i = ground arith
cancel-Inv (writing b) c g i = ground arith
cancel-Inv (waiting b d) c g i = ground arith

pub expire-Inv :
    (now : ℕ) (p : Phase) (c : Bearer Message) (g : Count)
    → Inv (at_phase p c.rspc c) g
    → After g (on_expire op_of now p (at_phase p c.rspc c))
unfolding on_expire
expire-Inv now idle c g i = ground arith
expire-Inv now (resolving b) c g i = ground arith
expire-Inv now (draining b) c g i = ground arith
expire-Inv now (writing b) c g i = ground arith
expire-Inv now (waiting b d) c g i = ground arith

pub loop_fails-Inv :
    (p : Phase) (c : Bearer Message) (g : Count)
    → Inv (at_phase p c.rspc c) g
    → c.loop_done ≡ false
    → Inv (record (at_phase p c.rspc c) { ch_err = true; loop_done = true }) g
loop_fails-Inv idle c g i l = ground arith
loop_fails-Inv (resolving b) c g i l = ground arith
loop_fails-Inv (draining b) c g i l = ground arith
loop_fails-Inv (writing b) c g i l = ground arith
loop_fails-Inv (waiting b d) c g i l = ground arith
