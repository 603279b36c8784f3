-- ===== src/Hci/Signal.antt =====
-- linux/hci/signal.go, with the packets of linux/hci/signal_gen.go: the L2CAP signalling channel of a
-- connection. The capacity of a byte slice is taken to be its length.
pub mod Answers
use ble.Base.{
  ℕ, zero, suc, ◌+◌, ◌/◌, ◌%◌, Bool, true, false, ◌||◌, List, [], ◌∷◌, ◌++◌, Go, ok, panic, ◌>>=◌,
  Loop, done, out_of_fuel, length, ltb, ◌==◌, if◌then◌else◌, le16, le_u16, u8_at, u16_at,
  slice_from, slice,
}
use ble.Hci.Acl.{cid_le_att, cid_le_signal, payload, dlen}
use ble.Hci.Update.{Slot, claim_for_peer, release_for_peer}

abbrev pub role_master : ℕ
role_master = 0

abbrev pub signal_command_reject : ℕ
signal_command_reject = 0x01

abbrev pub signal_disconnect_request : ℕ
signal_disconnect_request = 0x06

abbrev pub signal_disconnect_response : ℕ
signal_disconnect_response = 0x07

abbrev pub signal_connection_parameter_update_request : ℕ
signal_connection_parameter_update_request = 0x12

abbrev pub signal_connection_parameter_update_response : ℕ
signal_connection_parameter_update_response = 0x13

abbrev pub signal_le_credit_based_connection_request : ℕ
signal_le_credit_based_connection_request = 0x14

abbrev pub signal_le_flow_control_credit : ℕ
signal_le_flow_control_credit = 0x16

-- ConnectionParameterUpdateRequest, as it goes to the controller.
pub record UpdateCommand : Type 0 where
  pub interval_min : ℕ
  pub interval_max : ℕ
  pub slave_latency : ℕ
  pub timeout_multiplier : ℕ

-- What the handlers change: the update slot, the frames given to writePDU, the commands given to the
-- controller; `sends` is whether the next commands succeed, all of them where it ends.
pub record Sig : Type 0 where
  pub slot : Slot
  pub frames : List (List ℕ)
  pub commands : List UpdateCommand
  pub sends : List Bool

-- sigCmd.code, id, len and data
unfoldable pub sig_code : List ℕ → Go ℕ
sig_code s = u8_at s 0

unfoldable pub sig_id : List ℕ → Go ℕ
sig_id s = u8_at s 1

unfoldable pub sig_len : List ℕ → Go ℕ
sig_len s = u16_at s 2

unfoldable pub sig_data : List ℕ → Go (List ℕ)
unfolding sig_len
sig_data s = sig_len s >>= λ n. slice s 4 (4 + n)

-- sendResponse with the marshalled parameters; what writePDU returns is ignored.
unfoldable pub send_response : ℕ → ℕ → List ℕ → Sig → Sig
send_response code id params c = record {
  slot = c.slot;
  frames =
      c.frames
      ++ ((le16 (4 + length params)
            ++ le16 cid_le_signal
            ++ code ∷ id ∷ le16 (length params)
            ++ params)
          ∷ []);
  commands = c.commands;
  sends = c.sends;
}

-- CommandReject.Marshal
unfoldable pub command_reject : ℕ → List ℕ → List ℕ
command_reject reason ds = le16 reason ++ ds

-- handleDisconnectRequest on the unmarshalled request. The two numbers of the rejection are both put at
-- the start of its data, the second over the first.
unfoldable pub disconnect : ℕ → ℕ → ℕ → Sig → Sig
unfolding send_response command_reject
disconnect id dcid scid c =
    if dcid == cid_le_att
    then (if scid == cid_le_att
        then send_response signal_disconnect_response id (le16 dcid ++ le16 scid) c
        else c)
    else send_response signal_command_reject id (command_reject 2 (le16 dcid ++ 0 ∷ 0 ∷ [])) c

unfoldable pub handle_disconnect_request : List ℕ → Sig → Go Sig
unfolding sig_data sig_id disconnect
handle_disconnect_request s c = sig_data s >>= λ d.
    if ltb (length d) 4
    then ok c
    else (sig_id s >>= λ id. ok (disconnect id (le_u16 d 0) (le_u16 d 2) c))

unfoldable pub with_slot : Slot → Sig → Sig
with_slot t c = record { slot = t; frames = c.frames; commands = c.commands; sends = c.sends }

-- c.hci.Send: whether it succeeds, and the state behind it.
unfoldable pub next_send : List Bool → Bool
next_send [] = true
next_send (b ∷ bs) = b

unfoldable pub later_sends : List Bool → List Bool
later_sends [] = []
later_sends (b ∷ bs) = bs

unfoldable pub send_command : UpdateCommand → Sig → Sig
unfolding later_sends
send_command u c = record {
  slot = c.slot;
  frames = c.frames;
  commands = c.commands ++ (u ∷ []);
  sends = later_sends c.sends;
}

unfoldable pub update_response : ℕ → ℕ → Sig → Sig
unfolding send_response
update_response id result c =
    send_response signal_connection_parameter_update_response id (le16 result) c

-- handleConnectionParameterUpdateRequest on the unmarshalled request.
unfoldable pub peer_update : ℕ → UpdateCommand → Sig → Sig
unfolding with_slot next_send send_command update_response
peer_update id u c =
    let t = claim_for_peer c.slot in
    let sent = send_command u (with_slot t.1 c) in
    if t.0
    then (if next_send c.sends
        then update_response id 0 sent
        else update_response id 1 (with_slot (release_for_peer sent.slot) sent))
    else update_response id 1 (with_slot t.1 c)

unfoldable pub handle_connection_parameter_update_request : ℕ → List ℕ → Sig → Go Sig
unfolding sig_data sig_id peer_update command_reject send_response
handle_connection_parameter_update_request role s c =
    if role == role_master
    then (sig_data s >>= λ d.
        if ltb (length d) 8
        then ok c
        else (sig_id s >>= λ id. ok (
            peer_update id
              (record {
                interval_min = le_u16 d 0;
                interval_max = le_u16 d 2;
                slave_latency = le_u16 d 4;
                timeout_multiplier = le_u16 d 6;
              })
              c)))
    else (sig_id s >>= λ id. ok (send_response signal_command_reject id (command_reject 0 []) c))

-- What the send on sigSent finds: a request that waits, none, or a channel that has been closed.
pub data SigSent : Type 0 where
  receiver no_receiver closed : SigSent

unfoldable pub reject_command : List ℕ → Sig → Go Sig
unfolding sig_id send_response command_reject
reject_command s c =
    sig_id s >>= λ id. ok (send_response signal_command_reject id (command_reject 0 []) c)

-- s[4+s.len():]
unfoldable pub advance : List ℕ → Go (List ℕ)
unfolding sig_len
advance s = sig_len s >>= λ n. slice_from s (4 + n)

-- One command, when no request waits for a response.
unfoldable pub handle_command : ℕ → ℕ → List ℕ → Sig → Go Sig
unfolding handle_disconnect_request handle_connection_parameter_update_request reject_command
handle_command role code s c =
    if code == signal_disconnect_request
    then handle_disconnect_request s c
    else if code == signal_connection_parameter_update_request
    then handle_connection_parameter_update_request role s c
    else if code == signal_le_credit_based_connection_request
    then ok c
    else if code == signal_le_flow_control_credit
    then ok c
    else reject_command s c

unfoldable pub is_request : ℕ → Bool
is_request code =
    code == signal_disconnect_request
    || code == signal_connection_parameter_update_request
    || code == signal_le_credit_based_connection_request
    || code == signal_le_flow_control_credit

-- The loop of handleSignal: `selects` is what the send finds each time it is tried, no receiver where it
-- ends. A command that a receiver takes is looked at again, for `continue` does not advance.
unfoldable pub signal_loop : ℕ → ℕ → List SigSent → List ℕ → Sig → Go (Loop Sig)
unfolding sig_code handle_command is_request advance
signal_loop zero role selects s c = ok out_of_fuel
signal_loop (suc fuel) role selects [] c = ok (done c)
signal_loop (suc fuel) role [] (x ∷ xs) c = sig_code (x ∷ xs) >>= λ code.
    handle_command role code (x ∷ xs) c >>= λ d.
    advance (x ∷ xs) >>= λ s. signal_loop fuel role [] s d
signal_loop (suc fuel) role (sel ∷ selects) (x ∷ xs) c =
    let again = signal_loop fuel role selects (x ∷ xs) c in
    let pass : List SigSent → Go (Loop Sig) = λ rest. sig_code (x ∷ xs) >>= λ code.
    handle_command role code (x ∷ xs) c >>= λ d.
    advance (x ∷ xs) >>= λ s. signal_loop fuel role rest s d in
    if is_request x
    then pass (sel ∷ selects)
    else elim sel [ receiver ↦ again | no_receiver ↦ pass selects | closed ↦ panic ]

-- handleSignal, where `fuel` bounds its rounds.
unfoldable pub handle_signal : ℕ → ℕ → ℕ → List SigSent → List ℕ → Sig → Go (Loop Sig)
unfolding dlen payload sig_id send_response command_reject signal_loop
handle_signal fuel role sig_rx_mtu selects p c = dlen p >>= λ n. payload p >>= λ s.
    if ltb sig_rx_mtu n
    then (sig_id s >>= λ id. ok (
        done (
          send_response signal_command_reject id
            (command_reject 1 (sig_rx_mtu % 256 ∷ sig_rx_mtu / 256 % 256 ∷ [])) c)))
    else signal_loop fuel role selects s c
