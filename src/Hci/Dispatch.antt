-- ===== src/Hci/Dispatch.antt =====
-- linux/hci/hci.go: from the bytes that sktLoop reads to the handler that gets them: poolableEvtPkt, handlePkt,
-- handleEvt and handleLEMeta, with the handlers that Init sets.
pub mod Routes
pub mod Pooled
use ble.Base.{
  ℕ, ◌+◌, Bool, true, false, not, ◌&&◌, ◌||◌, Option, none, some, List, [], ◌∷◌, Go, ok, panic,
  ◌>>=◌, length, u8_at, slice_from, slice_to, ltb, leb, get_or, ◌==◌, if◌then◌else◌, if_nil,
}

-- The keys of evth and subh that Init sets.
pub data EventHandler : Type 0 where
  command_complete command_status disconnection_complete number_of_completed_packets : EventHandler

pub data LeHandler : Type 0 where
  connection_complete advertising_report connection_update_complete long_term_key_request :
      LeHandler
  data_length_change : LeHandler

-- The handler that is called, with its bytes; or why none is.
pub data Dispatch : Type 0 where
  acl : List ℕ → Dispatch
  event : EventHandler → List ℕ → Dispatch
  le_event : LeHandler → List ℕ → Dispatch
  unmanaged_command unsupported_sco unsupported_vendor invalid_packet invalid_event : Dispatch
  empty_le_meta unsupported_le unsupported_event ignored_vendor_event : Dispatch

abbrev pub event_code : EventHandler → ℕ
event_code command_complete = 0x0e
event_code command_status = 0x0f
event_code disconnection_complete = 0x05
event_code number_of_completed_packets = 0x13

abbrev pub sub_code : LeHandler → ℕ
sub_code connection_complete = 0x01
sub_code advertising_report = 0x02
sub_code connection_update_complete = 0x03
sub_code long_term_key_request = 0x05
sub_code data_length_change = 0x07

-- evth[code], apart from LE Meta
unfoldable pub evth : ℕ → Option EventHandler
evth code =
    if code == 0x0e
    then some command_complete
    else if code == 0x0f
    then some command_status
    else if code == 0x05
    then some disconnection_complete
    else if code == 0x13
    then some number_of_completed_packets
    else none

unfoldable pub subh : ℕ → Option LeHandler
subh code =
    if code == 0x01
    then some connection_complete
    else if code == 0x02
    then some advertising_report
    else if code == 0x03
    then some connection_update_complete
    else if code == 0x05
    then some long_term_key_request
    else if code == 0x07
    then some data_length_change
    else none

unfoldable pub handle_le_meta : List ℕ → Dispatch
unfolding subh
handle_le_meta [] = empty_le_meta
handle_le_meta (subcode ∷ b) = if_nil (subh subcode) unsupported_le (λ f. le_event f (subcode ∷ b))

unfoldable pub handle_evt : List ℕ → Go Dispatch
unfolding handle_le_meta evth
handle_evt b = u8_at b 0 >>= λ code. u8_at b 1 >>= λ plen. slice_from b 2 >>= λ ps.
    if not (plen == length ps)
    then ok invalid_event
    else if code == 0x3e
    then ok (handle_le_meta ps)
    else ok (
        if_nil (evth code) (if code == 0xff then ignored_vendor_event else unsupported_event)
          (λ f. event f ps))

unfoldable pub handle_pkt : List ℕ → Go Dispatch
unfolding handle_evt
handle_pkt b = u8_at b 0 >>= λ t. slice_from b 1 >>= λ rest.
    if t == 1
    then ok unmanaged_command
    else if t == 2
    then ok (acl rest)
    else if t == 3
    then ok unsupported_sco
    else if t == 4
    then handle_evt rest
    else if t == 0xff
    then ok unsupported_vendor
    else ok invalid_packet

-- evtBufSize
abbrev pub evt_buf_size : ℕ
evt_buf_size = 1 + 2 + 255

unfoldable pub poolable_evt_pkt : List ℕ → Bool
poolable_evt_pkt b =
    if ltb (length b) 2 || (ltb evt_buf_size (length b) || not (get_or b 0 0 == 4))
    then false
    else (get_or b 1 0 == 0x0e) || ((get_or b 1 0 == 0x0f) || (get_or b 1 0 == 0x13))

-- The buffer of sktLoop for a packet: the first bytes of one from evtPool, or one of its own.
unfoldable pub packet_buffer : List ℕ → Go Bool
unfolding poolable_evt_pkt
packet_buffer b =
    if poolable_evt_pkt b
    then (if leb (length b) evt_buf_size then ok true else panic)
    else ok false

-- A round of sktLoop for what it has read: where the packet is kept, and where it goes.
unfoldable pub skt_round : List ℕ → Go (Bool × Dispatch)
unfolding packet_buffer handle_pkt
skt_round b = packet_buffer b >>= λ pooled. handle_pkt b >>= λ d. ok (pooled, d)
