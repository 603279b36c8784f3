-- ===== src/Att/Client/Inbox/Accounts.antt =====
-- The account of what arrives, and the MTU under negotiations of both sides.
use ble.Base.{
  ℕ, suc, ◌+◌, ◌≤◌, Option, none, some, List, [], ◌∷◌, ◌++◌, length, length-append, ◌==◌,
  if◌then◌else◌, ◌≡◌, arith,
}
use ble.Att.Client.Inbox.{
  Work, mtu_request, notification, Inbox, InboxEvent, arrive, claim, work, on_pdu, on_event,
  on_events, empty_inbox, pop, put_response, enqueue_work, confirm,
}

-- The indications among the events, the responses, and the rest that is for a handler.
abbrev pub indications : List InboxEvent → ℕ
indications [] = 0
indications (arrive (op ∷ ds) ∷ es) = if op == 0x1d then suc (indications es) else indications es
indications (e ∷ es) = indications es

-- What a handler may get: a request, or a notification or indication that holds a handle.
abbrev pub IsWork : Work → Type 0
IsWork (mtu_request p) = 1 ≤ length p
IsWork (notification p) = 3 ≤ length p

abbrev pub AllWork : List Work → Type 0
AllWork [] = Unit {0}
AllWork (w ∷ ws) = IsWork w × AllWork ws

abbrev pub IsSome : Option (List ℕ) → Type 0
IsSome none = Unit {0}
IsSome (some p) = 1 ≤ length p

pub record IsInbox (x : Inbox) : Type 0 where
  pub bounded : length x.queue ≤ 16
  pub queued : AllWork x.queue
  pub waits : IsSome x.rspc

AllWork-append : (ws : List Work) (w : Work) → AllWork ws → IsWork w → AllWork (ws ++ (w ∷ []))
AllWork-append [] w h k = (k, tt)
AllWork-append (v ∷ ws) w h k = (h.0, AllWork-append ws w h.1 k)

put_response-IsInbox :
    (p : List ℕ) (o : Option (List ℕ)) (x : Inbox)
    → 1 ≤ length p
    → IsInbox x
    → IsInbox (put_response p o x) × ((put_response p o x).confirmed ≡ x.confirmed)
unfolding put_response
put_response-IsInbox p none x h i = ground arith
put_response-IsInbox p (some q) x h i = ground arith

enqueue_work-IsInbox :
    (w : Work) (x : Inbox)
    → IsWork w
    → IsInbox x
    → IsInbox (enqueue_work w x) × ((enqueue_work w x).confirmed ≡ x.confirmed)
unfolding enqueue_work
enqueue_work-IsInbox w x h i =
    ground (arith, AllWork-append x.queue w i.queued h, length-append x.queue (w ∷ []))

confirm-IsInbox :
    (op : ℕ) (x : Inbox)
    → IsInbox x
    → IsInbox (confirm op x)
      × ((confirm op x).confirmed ≡ (if op == 0x1d then suc x.confirmed else x.confirmed))
unfolding confirm
confirm-IsInbox op x i = ground arith

on_pdu-IsInbox :
    (op : ℕ) (ds : List ℕ) (x : Inbox)
    → IsInbox x
    → IsInbox (on_pdu (op ∷ ds) x)
      × ((on_pdu (op ∷ ds) x).confirmed ≡ (if op == 0x1d then suc x.confirmed else x.confirmed))
unfolding on_pdu
on_pdu-IsInbox op ds x i = ground (
  arith,
  put_response-IsInbox (op ∷ ds) x.rspc x,
  enqueue_work-IsInbox (mtu_request (op ∷ ds)) x,
  enqueue_work-IsInbox (notification (op ∷ ds)) x,
  confirm-IsInbox op x,
  confirm-IsInbox op (enqueue_work (notification (op ∷ ds)) x),
)

pop-AllWork : (ws : List Work) → AllWork ws → AllWork (pop ws) × (length (pop ws) ≤ length ws)
pop-AllWork [] h = (h, omega arith)
pop-AllWork (w ∷ ws) h = (h.1, omega arith)

on_event-IsInbox :
    (e : InboxEvent) (x : Inbox)
    → IsInbox x
    → IsInbox (on_event e x) × ((on_event e x).confirmed ≡ x.confirmed + indications (e ∷ []))
unfolding on_event
on_event-IsInbox (arrive []) x i = (i, omega arith)
on_event-IsInbox (arrive (op ∷ ds)) x i = ground (arith, on_pdu-IsInbox op ds x i)
on_event-IsInbox claim x i = ground arith
on_event-IsInbox work x i = ground (arith, pop-AllWork x.queue i.queued)

indications_cons :
    (e : InboxEvent) (es : List InboxEvent)
    → indications (e ∷ es) ≡ indications (e ∷ []) + indications es
indications_cons (arrive []) es = omega arith
indications_cons (arrive (op ∷ ds)) es = ground arith
indications_cons claim es = omega arith
indications_cons work es = omega arith

on_events-IsInbox_from :
    (es : List InboxEvent) (x : Inbox)
    → IsInbox x
    → IsInbox (on_events es x) × ((on_events es x).confirmed ≡ x.confirmed + indications es)
unfolding on_events
on_events-IsInbox_from [] x i = (i, omega arith)
on_events-IsInbox_from (e ∷ es) x i =
    let (j, k) = on_event-IsInbox e x i in
    let (l, m) = on_events-IsInbox_from es (on_event e x) j in
    (l, omega (arith, k, m, indications_cons e es))

-- Whatever PDUs arrive, in whatever order the rest of the code takes them: each indication is confirmed
-- once, also one that is too short or finds the queue full, and nothing else is; the queue stays within its
-- 16 places; a handler gets only notifications and indications that hold a handle; and sendReq never
-- gets an empty response.
pub on_events-IsInbox :
    (es : List InboxEvent)
    → IsInbox (on_events es empty_inbox) × ((on_events es empty_inbox).confirmed ≡ indications es)
on_events-IsInbox es =
    let (j, k) =
      on_events-IsInbox_from es empty_inbox
        (record { bounded = omega arith; queued = tt; waits = tt }) in
    (j, omega (arith, k))
