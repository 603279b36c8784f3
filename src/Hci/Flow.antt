-- ===== src/Hci/Flow.antt =====
-- linux/hci/hci.go: Send and send, which one caller at a time runs, and the handlers of Command Complete and Command
-- Status, with setAllowedCommands. Each step of the sender and of sktLoop is an event.
pub mod Promises
pub mod Sends
pub mod Places
pub mod Hands
pub mod Handles
pub mod Refines
use ble.Base.{
  ℕ, zero, suc, ◌+◌, ◌-◌, Bool, true, false, not, ◌&&◌, Option, none, some, List, [], ◌∷◌, Go, ok,
  ◌>>=◌, u8_at, u16_at, slice_from, if_nil, ltb, min, ◌==◌, if◌then◌else◌, get_or, length,
}
use ble.Hci.Cmd.Wire.{Field, Kind, Command, command_packet, unmarshal}

pub data FlowError : Type 0 where
  closed command_timeout not_marshalled not_written : FlowError
  transport : ℕ → FlowError

-- What send returns.
pub data SendResult : Type 0 where
  failed : FlowError → SendResult
  replied : List ℕ → SendResult

-- Where the caller of send stands: it wants a buffer, has one, has put its packet into the sent table, or
-- awaits the completion, or has a result and its entry still in the table; a packet is named by its number.
pub data Sender : Type 0 where
  resting : Sender
  wanting filling registered awaiting : Command → ℕ → Sender
  leaving : Command → ℕ → SendResult → Sender

-- The fatal error, h.done, the buffers in chCmdBufs, the sent table, the packets made so far, what the
-- channels done of the packets hold, the caller of send, the op code and reply that a handler on sktLoop has
-- read and not yet looked up, and the packet and reply that it has found and not yet handed over.
pub record Flow : Type 0 where
  pub fatal : Option FlowError
  pub gone : Bool
  pub bufs : ℕ
  pub sent : List (ℕ × ℕ)
  pub made : ℕ
  pub replies : List (ℕ × List ℕ)
  pub sender : Sender
  pub reading : Option (ℕ × List ℕ)
  pub held : Option (ℕ × List ℕ)

module _ {A : Type 0} where
  unfoldable pub find : ℕ → List (ℕ × A) → Option A
  find k [] = none
  find k ((j, a) ∷ m) = let rest = find k m in if k == j then some a else rest

  -- delete of a map
  unfoldable pub remove : ℕ → List (ℕ × A) → List (ℕ × A)
  remove k [] = []
  remove k ((j, a) ∷ m) = let rest = remove k m in if k == j then rest else (j, a) ∷ rest

-- The loop of setAllowedCommands, one buffer a round; 16 rounds are enough.
unfoldable pub allow_loop : ℕ → ℕ → ℕ → ℕ
allow_loop zero n bufs = bufs
allow_loop (suc k) n bufs =
    let more = allow_loop k n (bufs + 1) in if ltb bufs n then more else bufs

unfoldable pub set_allowed_commands : ℕ → Flow → Flow
unfolding allow_loop
set_allowed_commands n s = record s { bufs = allow_loop 16 (min n 16) s.bufs }

-- handleCommandComplete up to the lookup, behind setAllowedCommands. The reply, which the code copies
-- where it has found the packet, is read here: the event does not change.
unfoldable pub command_complete : List ℕ → Flow → Go Flow
unfolding set_allowed_commands
command_complete b s = u8_at b 0 >>= λ n. u16_at b 1 >>= λ op.
    let t = set_allowed_commands n s in
    if op == 0 then ok t else (slice_from b 3 >>= λ ret. ok (record t { reading = some (op, ret) }))

-- handleCommandStatus up to the lookup.
unfoldable pub command_status : List ℕ → Flow → Go Flow
unfolding set_allowed_commands
command_status b s = u8_at b 1 >>= λ n. u16_at b 2 >>= λ op. u8_at b 0 >>= λ status.
    ok (record (set_allowed_commands n s) { reading = some (op, status ∷ []) })

-- The lookup of both handlers in the sent table.
unfoldable pub look_up_sent : Flow → Flow
unfolding find
look_up_sent s = if_nil s.reading s (λ a.
    if_nil (find a.0 s.sent) (record s { reading = none })
      (λ p. record s { reading = none; held = some (p, a.1) }))

-- The select of both handlers: the channel of a packet holds one reply.
unfoldable pub hand_over : Flow → Flow
unfolding find
hand_over s = if_nil s.held s (λ a.
    if_nil (find a.0 s.replies) (record s { held = none; replies = a ∷ s.replies })
      (λ _. record s { held = none }))

-- close; the error of closing the socket is not used by send.
abbrev pub close : FlowError → Flow → Flow
close e s = record s { fatal = some e }

pub data FlowEvent : Type 0 where
  ask : Command → FlowEvent
  register : List ℕ → FlowEvent
  write : Bool → FlowEvent
  take_buffer look_up no_buffer see_done expire receive leave deliver shut : FlowEvent
  complete status : List ℕ → FlowEvent
  socket_lost : FlowError → FlowEvent

abbrev pub Outcome : Type 0
Outcome = Option SendResult × Flow

abbrev pub back : SendResult → Flow → Outcome
back r s = (some r, record s { sender = resting })

-- The first statements of send.
unfoldable pub on_ask : Command → Flow → Outcome
on_ask c s =
    if_nil s.fatal (none, record s { sender = wanting c s.made; made = s.made + 1 })
      (λ e. (some (failed e), s))

-- The buffer is filled, and the packet put into the sent table.
unfoldable pub on_register : List ℕ → Command → ℕ → Flow → Outcome
unfolding remove
on_register before c p s =
    if_nil (command_packet before c) (back (failed not_marshalled) (close not_marshalled s)) (λ _.
      (none, record s { sent = (c.op_code, p) ∷ remove c.op_code s.sent; sender = registered c p }))

-- `wrote` tells whether the socket takes the whole of the packet.
unfoldable pub on_write : Bool → Command → ℕ → Flow → Outcome
on_write true c p s = (none, record s { sender = awaiting c p })
on_write false c p s =
    (none, record (close not_written s) { sender = leaving c p (failed not_written) })

-- The end of send, behind a wait or a failed write: the entry goes, and the result is returned.
unfoldable pub end_send : Command → SendResult → Flow → Outcome
unfolding remove
end_send c r s = back r (record s { sent = remove c.op_code s.sent })

-- The end of the last wait.
abbrev pub decided : Command → ℕ → SendResult → Flow → Outcome
decided c p r s = (none, record s { sender = leaving c p r })

abbrev pub the_error : Flow → FlowError
the_error s = if_nil s.fatal closed (λ e. e)

unfoldable pub on_wanting : FlowEvent → Command → ℕ → Flow → Outcome
on_wanting take_buffer c p s =
    if ltb 0 s.bufs then (none, record s { bufs = s.bufs - 1; sender = filling c p }) else (none, s)
on_wanting see_done c p s = if s.gone then back (failed (the_error s)) s else (none, s)
on_wanting no_buffer c p s = back (failed command_timeout) (close command_timeout s)
on_wanting _ c p s = (none, s)

unfoldable pub on_awaiting : FlowEvent → Command → ℕ → Flow → Outcome
unfolding find
on_awaiting expire c p s = decided c p (failed command_timeout) s
on_awaiting see_done c p s =
    let out = if_nil s.fatal (decided c p (replied []) s) (λ e. decided c p (failed e) s) in
    if s.gone then out else (none, s)
on_awaiting receive c p s = if_nil (find p s.replies) (none, s) (λ r. decided c p (replied r) s)
on_awaiting _ c p s = (none, s)

-- A move of the sender that its state allows; others change nothing.
unfoldable pub on_sender : Sender → FlowEvent → Flow → Outcome
unfolding on_ask on_wanting on_register on_write on_awaiting end_send
on_sender resting (ask c) s = on_ask c s
on_sender resting _ s = (none, s)
on_sender (wanting c p) e s = on_wanting e c p s
on_sender (filling c p) (register before) s = on_register before c p s
on_sender (filling c p) _ s = (none, s)
on_sender (registered c p) (write wrote) s = on_write wrote c p s
on_sender (registered c p) _ s = (none, s)
on_sender (awaiting c p) e s = on_awaiting e c p s
on_sender (leaving c p r) leave s = end_send c r s
on_sender (leaving c p r) _ s = (none, s)

-- sktLoop is not within a handler.
abbrev between : Flow → Go Outcome → Go Outcome
between s m = if_nil s.reading (if_nil s.held m (λ _. ok (none, s))) (λ _. ok (none, s))

abbrev quietly : Go Flow → Go Outcome
quietly m = m >>= λ s. ok (none, s)

-- sktLoop handles an event when it is not within another, and setErrIfAbsent and the close of h.done
-- end it; `shut` is Close, which records a nil error.
unfoldable pub flow_step : FlowEvent → Flow → Go Outcome
unfolding command_complete command_status look_up_sent hand_over on_sender
flow_step (complete b) s = between s (quietly (command_complete b s))
flow_step (status b) s = between s (quietly (command_status b s))
flow_step look_up s = ok (none, look_up_sent s)
flow_step deliver s = ok (none, hand_over s)
flow_step (socket_lost e) s =
    ok (none, record s { fatal = if_nil s.fatal (some e) some; gone = true })
flow_step shut s = ok (none, record s { fatal = none })
flow_step e s = ok (on_sender s.sender e s)

-- What Send makes of the result, with the layout of the response if the caller wants it.
pub data SendOutcome : Type 0 where
  refused : FlowError → SendOutcome
  command_failed : ℕ → SendOutcome
  unreadable : SendOutcome
  answered : List Field → SendOutcome

unfoldable pub send_outcome : Option (List Kind) → SendResult → SendOutcome
unfolding unmarshal
send_outcome r (failed e) = refused e
send_outcome r (replied b) =
    if ltb 0 (length b) && not (get_or b 0 0 == 0)
    then command_failed (get_or b 0 0)
    else if_nil r (answered []) (λ ks. if_nil (unmarshal ks b) unreadable (λ a. answered a.0))

-- NewHCI and Init
abbrev pub new_flow : Flow
new_flow = record {
  fatal = none;
  gone = false;
  bufs = 1;
  sent = [];
  made = 0;
  replies = [];
  sender = resting;
  reading = none;
  held = none;
}
