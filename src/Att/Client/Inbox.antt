-- ===== src/Att/Client/Inbox.antt =====
-- linux/att/client.go: what Loop does with each PDU that arrives, and how the peer's MTU request is
-- answered. A PDU has at most the 515 bytes of rxBuf.
pub mod Accounts
pub mod Negotiated
use ble.Base.{
  ℕ, zero, suc, ◌+◌, not, ◌&&◌, ◌||◌, Option, none, some, List, [], ◌∷◌, ◌++◌, Go, ok, ◌>>=◌,
  length, le16, min, ltb, leb, ◌==◌, if◌then◌else◌, u8_at, u16_at,
}
use ble.Att.Pdu.{
  exchange_mtu_request_code, exchange_mtu_response_code, handle_value_notification_code,
  handle_value_indication_code, handle_value_confirmation_code, err_invalid_pdu, err_req_not_supp,
  error_response,
}
use ble.Att.Server.Reads.{default_mtu, max_mtu}
use ble.Att.Client.{Link}

-- asyncWork: a PDU for handleRequest, or for the notification handler.
pub data Work : Type 0 where
  mtu_request : List ℕ → Work
  notification : List ℕ → Work

-- rspc, the queue of asyncWork, the counters, and the confirmations that were written.
pub record Inbox : Type 0 where
  pub rspc : Option (List ℕ)
  pub rsp_dropped : ℕ
  pub queue : List Work
  pub async_dropped : ℕ
  pub confirmed : ℕ

-- The capacity of the queue.
abbrev pub queue_cap : ℕ
queue_cap = 16

unfoldable pub put_response : List ℕ → Option (List ℕ) → Inbox → Inbox
put_response pdu none x = record x { rspc = some pdu }
put_response pdu (some p) x = record x { rsp_dropped = x.rsp_dropped + 1 }

unfoldable pub enqueue_work : Work → Inbox → Inbox
enqueue_work w x =
    if ltb (length x.queue) queue_cap
    then record x { queue = x.queue ++ (w ∷ []) }
    else record x { async_dropped = x.async_dropped + 1 }

unfoldable pub confirm : ℕ → Inbox → Inbox
confirm op x =
    if op == handle_value_indication_code then record x { confirmed = x.confirmed + 1 } else x

-- A round of Loop whose Read returned a PDU.
unfoldable pub on_pdu : List ℕ → Inbox → Inbox
on_pdu [] x = x
on_pdu (op ∷ rest) x =
    if (op == handle_value_notification_code || op == handle_value_indication_code)
      && ltb (suc (length rest)) 3
    then confirm op x
    else if not (op == exchange_mtu_request_code)
        && (not (op == handle_value_notification_code) && not (op == handle_value_indication_code))
    then put_response (op ∷ rest) x.rspc x
    else if op == exchange_mtu_request_code
    then enqueue_work (mtu_request (op ∷ rest)) x
    else confirm op (enqueue_work (notification (op ∷ rest)) x)

-- The rest of the code takes a response out of rspc, and a work out of the queue.
pub data InboxEvent : Type 0 where
  arrive : List ℕ → InboxEvent
  claim : InboxEvent
  work : InboxEvent

abbrev pub pop : List Work → List Work
pop [] = []
pop (w ∷ ws) = ws

unfoldable pub on_event : InboxEvent → Inbox → Inbox
unfolding on_pdu
on_event (arrive pdu) x = on_pdu pdu x
on_event claim x = record x { rspc = none }
on_event work x = record x { queue = pop x.queue }

unfoldable pub on_events : List InboxEvent → Inbox → Inbox
on_events [] x = x
on_events (e ∷ es) x = on_events es (on_event e x)

abbrev pub empty_inbox : Inbox
empty_inbox = record { rspc = none; rsp_dropped = 0; queue = []; async_dropped = 0; confirmed = 0 }

-- handleExchangeMTURequest: the response, and the client with its new txBuf.
unfoldable pub handle_peer_mtu_request : List ℕ → Link → Go (List ℕ × Link)
handle_peer_mtu_request r c = u8_at r 0 >>= λ op.
    if not (length r == 3)
    then ok (error_response op 0 err_invalid_pdu, c)
    else u16_at r 1 >>= λ client.
        if ltb client default_mtu
        then ok (error_response op 0 err_invalid_pdu, c)
        else let tx = min client max_mtu in
          ok (
            exchange_mtu_response_code ∷ le16 c.rx_mtu,
            record { tx_mtu = tx; rx_mtu = c.rx_mtu; tx_buf = tx },
          )

-- handleRequest
unfoldable pub handle_peer_request : List ℕ → Link → Go (List ℕ × Link)
unfolding handle_peer_mtu_request
handle_peer_request r c = u8_at r 0 >>= λ op.
    if op == exchange_mtu_request_code
    then handle_peer_mtu_request r c
    else ok (error_response op 0 err_req_not_supp, c)
