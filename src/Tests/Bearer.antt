-- ===== src/Tests/Bearer.antt =====
-- The client's requests: an abandoned read and the read behind it, a timeout, exchanges of MTUs.
use ble.Base.{◌++◌, ℕ, ◌+◌, true, some, List, [], ◌∷◌, ok, ◌>>=◌, Returns, ◌≡◌, refl, arith, Go}
use ble.Att.Client.{Link}
use ble.Att.Client.Bearer.{
  Bearer, expire, waiting, writing, request, drained, write, cancel, delivered, receive, step,
  new_bearer, rsp_of_req,
}
use ble.Att.Client.Bearer.Peer.{Message, answer, op_of, Reachable, fresh, goes_on, ends}
use ble.Att.Client.Bearer.Attribution.{answered-Right}
use ble.Att.Client.Bearer.Progress.{Ends, run_all, run_all-Ends}
use ble.Att.Client.Requests.{Value, signed_write}
use ble.Att.Client.Requests.Signed.{signed_write-lost}
use ble.Att.Client.Requests.Robust.{Whole, find_information_call, perform}
use ble.Att.Client.Inbox.{InboxEvent, on_events, empty_inbox, arrive, claim, work}
use ble.Att.Client.Inbox.Accounts.{IsInbox, indications, on_events-IsInbox}
use ble.Att.Client.Inbox.Negotiated.{ours, theirs, run_turns, room, run_turns-Whole}

abbrev read_three : List ℕ
read_three = 0x0a ∷ 3 ∷ 0 ∷ []

-- The first read is cancelled; the second waits for the late answer, drops it, and is written.
abbrev second_waits : Bearer Message
second_waits = record (new_bearer Message) {
  phase = waiting read_three 35;
  rspc = some (answer 2 0x0b (7 ∷ []));
  abandoned_deadline = 30;
  wire = read_three ∷ read_three ∷ [];
}

two_written : Reachable second_waits (record { written = 2; last = 0x0a; answers = 2 })
unfolding step new_bearer rsp_of_req
two_written =
    goes_on (delivered (answer 2 0x0b (7 ∷ [])))
      (goes_on (write true 5)
        (goes_on drained
          (goes_on (receive true)
            (goes_on (delivered (answer 1 0x0b (6 ∷ [])))
              (goes_on (request read_three)
                (ends cancel _
                  (goes_on (write true 0)
                    (goes_on drained (goes_on (request read_three) fresh (λ e. cc) refl) tt refl) tt
                    refl)
                  tt refl)
                (λ e. cc) refl)
              (refl, omega arith, refl) refl)
            refl refl)
          tt refl)
        tt refl)
      (refl, omega arith, refl) refl

answered-Right_example : (o : ℕ) × (ds : List ℕ) × (answer 2 0x0b (7 ∷ []) ≡ answer 2 o ds)
unfolding step new_bearer rsp_of_req
answered-Right_example =
    answered-Right (receive true) (answer 2 0x0b (7 ∷ [])) two_written refl refl

abbrev alone : Bearer Message
alone = record (new_bearer Message) { phase = writing read_three }

-- A message that is no response to a read, which is refused, before the timer.
run_all-Ends_example : Ends op_of (
    run_all op_of
      (write true 0 ∷ ((delivered (answer 1 0x13 []) ∷ receive true ∷ []) ++ (expire 31 ∷ [])))
      alone)
unfolding new_bearer
run_all-Ends_example =
    run_all-Ends op_of (delivered (answer 1 0x13 []) ∷ receive true ∷ []) alone read_three 0 31 refl
      (omega arith)

abbrev zeros : List ℕ
zeros = 0 ∷ 0 ∷ 0 ∷ 0 ∷ 0 ∷ 0 ∷ 0 ∷ 0 ∷ 0 ∷ 0 ∷ 0 ∷ 0 ∷ []

abbrev twenty_three : List ℕ
twenty_three = 0 ∷ 0 ∷ 0 ∷ 0 ∷ 0 ∷ 0 ∷ 0 ∷ 0 ∷ 0 ∷ 0 ∷ 0 ∷ zeros

-- The values 1 and 2 are sent alike.
signed_write-lost_example :
    signed_write 23 twenty_three 3 (1 ∷ []) zeros ≡ signed_write 23 twenty_three 3 (2 ∷ []) zeros
signed_write-lost_example =
    signed_write-lost 3 (1 ∷ []) (2 ∷ []) zeros refl refl refl 23 twenty_three

abbrev arrivals : List InboxEvent
arrivals =
    arrive (0x1d ∷ 3 ∷ []) ∷ arrive (0x1d ∷ 3 ∷ 0 ∷ 1 ∷ []) ∷ arrive (0x0b ∷ []) ∷ work ∷ claim ∷ []

on_events-IsInbox_example :
    IsInbox (on_events arrivals empty_inbox)
    × ((on_events arrivals empty_inbox).confirmed ≡ indications arrivals)
on_events-IsInbox_example = on_events-IsInbox arrivals

-- A peer that answers each request by the same bytes.
abbrev parrot : ℕ → List ℕ → Go (List ℕ × ℕ)
parrot n req = ok (5 ∷ 1 ∷ 3 ∷ 0 ∷ 0 ∷ 40 ∷ [], n + 1)

abbrev small : Link
small = record { tx_mtu = 23; rx_mtu = 23; tx_buf = 23 }

run_turns-Whole_example :
    Returns
      (λ (a : Value × ℕ). Whole (find_information_call 1 9) a.0)
      (run_turns parrot (theirs (2 ∷ 100 ∷ 0 ∷ []) ∷ ours 50 ∷ []) small 0 >>= λ a.
        perform parrot (room a.0) (find_information_call 1 9) a.1)
run_turns-Whole_example =
    run_turns-Whole parrot (λ s req h k. omega arith) (theirs (2 ∷ 100 ∷ 0 ∷ []) ∷ ours 50 ∷ [])
      small 0 (find_information_call 1 9) (omega arith, tt)
      (record { same = refl; low = omega arith; high = omega arith })
