-- ===== src/Tests/Flow.antt =====
-- Runs of the flow of HCI commands: an answered command, a late completion, and a Close after the end.
use ble.Base.{
  ℕ, ◌≡◌, refl, true, Option, some, none, List, [], ◌∷◌, Go, ok, ◌>>=◌, u8_at, u16_at, slice_from,
}
use ble.Hci.Cmd.Wire.{command_packet, zeros, u8, array}
use ble.Hci.Cmd.Control.{disconnect}
use ble.Hci.Cmd.Info.{read_bd_addr, read_bd_addr_rp}
use ble.Hci.Flow.{
  Flow, FlowEvent, ask, register, write, look_up, take_buffer, see_done, expire, receive, leave,
  deliver, shut, complete, status, socket_lost, SendResult, failed, replied, transport,
  command_timeout, new_flow, send_outcome, answered,
}
use ble.Hci.Flow.Refines.{flow_run, Log}

abbrev buffer : List ℕ
buffer = zeros 64

-- Command Complete with the address of the controller, and its return parameters.
abbrev own_address : List ℕ
own_address = 0 ∷ 1 ∷ 2 ∷ 3 ∷ 4 ∷ 5 ∷ 6 ∷ []

abbrev completed : List ℕ
completed = 1 ∷ 9 ∷ 16 ∷ own_address

abbrev exchange : List FlowEvent
exchange =
    ask read_bd_addr
    ∷ take_buffer
    ∷ register buffer
    ∷ write true
    ∷ complete completed
    ∷ look_up
    ∷ deliver
    ∷ receive
    ∷ leave
    ∷ []

abbrev results : Go (Log × Flow) → Go (List (Option SendResult))
results m = m >>= λ l. ok (pick l.0)
  where
    pick : Log → List (Option SendResult)
    pick [] = []
    pick ((_, none) ∷ l) = pick l
    pick ((_, some r) ∷ l) = some r ∷ pick l

exchange_result : results (flow_run exchange new_flow) ≡ ok (some (replied own_address) ∷ [])
unfolding flow_run zeros command_packet u8_at u16_at slice_from
exchange_result = refl

exchange_outcome :
    send_outcome (some read_bd_addr_rp) (replied own_address)
    ≡ answered (u8 0 ∷ array 6 (1 ∷ 2 ∷ 3 ∷ 4 ∷ 5 ∷ 6 ∷ []) ∷ [])
unfolding send_outcome
exchange_outcome = refl

-- The status of a Disconnect that was given up answers the next one, for another connection.
abbrev late : List FlowEvent
late =
    complete (2 ∷ 0 ∷ 0 ∷ [])
    ∷ ask (disconnect 0x40 0x13)
    ∷ take_buffer
    ∷ register buffer
    ∷ write true
    ∷ expire
    ∷ leave
    ∷ ask (disconnect 0x41 0x13)
    ∷ take_buffer
    ∷ register buffer
    ∷ write true
    ∷ status (0 ∷ 1 ∷ 6 ∷ 4 ∷ [])
    ∷ look_up
    ∷ deliver
    ∷ receive
    ∷ leave
    ∷ []

late_result :
    results (flow_run late new_flow)
    ≡ ok (some (failed command_timeout) ∷ some (replied (0 ∷ [])) ∷ [])
unfolding flow_run zeros command_packet u8_at u16_at slice_from
late_result = refl

-- Close behind the end of sktLoop takes the error away, and the call that waits returns without one.
abbrev closed_late : List FlowEvent
closed_late =
    ask read_bd_addr
    ∷ take_buffer
    ∷ register buffer
    ∷ write true
    ∷ socket_lost (transport 5)
    ∷ shut
    ∷ see_done
    ∷ leave
    ∷ []

closed_late_result : results (flow_run closed_late new_flow) ≡ ok (some (replied []) ∷ [])
unfolding flow_run zeros command_packet u8_at u16_at slice_from
closed_late_result = refl

-- The same status is looked up between the listing and the writing of the second Disconnect.
abbrev early : List FlowEvent
early =
    complete (2 ∷ 0 ∷ 0 ∷ [])
    ∷ ask (disconnect 0x40 0x13)
    ∷ take_buffer
    ∷ register buffer
    ∷ write true
    ∷ expire
    ∷ leave
    ∷ ask (disconnect 0x41 0x13)
    ∷ status (0 ∷ 1 ∷ 6 ∷ 4 ∷ [])
    ∷ take_buffer
    ∷ register buffer
    ∷ look_up
    ∷ deliver
    ∷ write true
    ∷ receive
    ∷ leave
    ∷ []

early_result :
    results (flow_run early new_flow)
    ≡ ok (some (failed command_timeout) ∷ some (replied (0 ∷ [])) ∷ [])
unfolding flow_run zeros command_packet u8_at u16_at slice_from
early_result = refl
