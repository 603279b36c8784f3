-- ===== src/Hci/Dispatch/Pooled.antt =====
-- The pooled buffers of sktLoop in linux/hci/hci.go and the handlers that see them.
use ble.Base.{ℕ, ◌≤◌, ◌≡◌, List, length, get_or}
use ble.Hci.Dispatch.{
  Dispatch, command_complete, command_status, disconnection_complete, number_of_completed_packets,
  acl, event, le_event,
}

-- Where a packet in a recycled buffer may go: to the handlers of Command Complete, Command Status and
-- Number Of Completed Packets, or to none.
abbrev pub IsPooled : Dispatch → Type 0
IsPooled (acl ps) = ⊥
IsPooled (event disconnection_complete ps) = ⊥
IsPooled (event command_complete ps) = Unit {0}
IsPooled (event command_status ps) = Unit {0}
IsPooled (event number_of_completed_packets ps) = Unit {0}
IsPooled (le_event h ps) = ⊥
IsPooled _ = Unit {0}

-- A packet has a byte, and an event has its code and its length.
abbrev pub IsWhole : List ℕ → Type 0
IsWhole b = (1 ≤ length b) × (get_or b 0 0 ≡ 4 → 3 ≤ length b)
