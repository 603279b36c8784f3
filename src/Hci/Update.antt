-- ===== src/Hci/Update.antt =====
-- The update slot of linux/hci/conn.go and linux/hci/signal.go: updateWaiter and updateSignalPending,
-- which the application's UpdateParams and the peer's request share.
pub mod Exclusive
use ble.Base.{ℕ, Bool, true, false, ◌||◌, Option, none, some, List, [], ◌∷◌, ◌==◌, if◌then◌else◌}
use ble.Params.{ConnParams, Encoded, encode}

-- leConnUpdate
pub record LeConnUpdate : Type 0 where
  pub status : ℕ
  pub interval : ℕ
  pub latency : ℕ
  pub timeout : ℕ

-- A waiter is what its channel of capacity 1 holds. `closed`: chDone is.
pub record Slot : Type 0 where
  pub update_waiter : Option (Option LeConnUpdate)
  pub update_signal_pending : Bool
  pub closed : Bool

pub data Claim : Type 0 where
  claimed in_progress torn_down : Claim

unfoldable pub has_waiter : Slot → Bool
has_waiter s = elim s.update_waiter [ none ↦ false | some _ ↦ true ]

unfoldable pub busy : Slot → Bool
unfolding has_waiter
busy s = has_waiter s || s.update_signal_pending

unfoldable pub set_waiter : Option (Option LeConnUpdate) → Slot → Slot
set_waiter w s = record {
  update_waiter = w;
  update_signal_pending = s.update_signal_pending;
  closed = s.closed;
}

unfoldable pub set_pending : Bool → Slot → Slot
set_pending b s = record {
  update_waiter = s.update_waiter;
  update_signal_pending = b;
  closed = s.closed;
}

-- UpdateParams under its first lock.
unfoldable pub register : Slot → Claim × Slot
unfolding busy set_waiter
register s =
    if busy s
    then (in_progress, s)
    else if s.closed
    then (torn_down, s)
    else (claimed, set_waiter (some none) s)

-- The deferred function of UpdateParams.
unfoldable pub unregister : Slot → Slot
unfolding set_waiter
unregister s = set_waiter none s

-- deliverConnUpdate
unfoldable pub deliver_conn_update : LeConnUpdate → Slot → Slot
unfolding set_waiter set_pending
deliver_conn_update u s =
    if s.update_signal_pending then set_pending false s else elim s.update_waiter [
      | none ↦ s
      | some none ↦ set_waiter (some (some u)) s
      | some (some v) ↦ s
    ]

-- handleConnectionParameterUpdateRequest under its first lock: whether the slot was free, and is taken.
unfoldable pub claim_for_peer : Slot → Bool × Slot
unfolding busy set_pending
claim_for_peer s = if busy s then (false, s) else (true, set_pending true s)

-- Its second lock, where the command failed.
unfoldable pub release_for_peer : Slot → Slot
unfolding set_pending
release_for_peer s = set_pending false s

-- What wakes the last select of UpdateParams.
pub data Wake : Type 0 where
  completion ctx_done chan_done timer : Wake

pub data UpdateResult : Type 0 where
  updated invalid_params err_in_progress err_closed send_failed err_ctx err_timeout still_waiting :
      UpdateResult
  err_command : ℕ → UpdateResult

-- The select; a completion can only wake it when the channel holds one.
unfoldable pub await_update : Wake → Slot → UpdateResult
await_update ctx_done s = err_ctx
await_update chan_done s = err_closed
await_update timer s = err_timeout
await_update completion s = elim s.update_waiter [
  | none ↦ still_waiting
  | some none ↦ still_waiting
  | some (some u) ↦ if u.status == 0 then updated else err_command u.status
]

-- UpdateParams: `sent` is whether Send succeeds, `during` what the other goroutines do to the slot from
-- there to the wake-up.
unfoldable pub update_params : ConnParams → Bool → (Slot → Slot) → Wake → Slot → UpdateResult × Slot
unfolding register unregister await_update
update_params p sent during wake s = elim (encode p) [
  | none ↦ (invalid_params, s)
  | some e ↦
      let c = register s in
      elim c.0 [
        | in_progress ↦ (err_in_progress, c.1)
        | torn_down ↦ (err_closed, c.1)
        | claimed ↦
            let t = during c.1 in
            if sent then (await_update wake t, unregister t) else (send_failed, unregister c.1)
      ]
]
