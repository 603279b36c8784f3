-- ===== src/Hci/Update/Exclusive.antt =====
-- The two users of the update slot exclude each other.
use ble.Base.{true, false, none, some, ◌≡◌, ◌≢◌, refl, arith, ◌⊎◌, inl, inr}
use ble.Hci.Update.{
  Slot, LeConnUpdate, register, unregister, deliver_conn_update, claim_for_peer, release_for_peer,
  busy, in_progress, has_waiter, set_waiter, set_pending,
}

-- A step of some goroutine on the slot. The peer's claim is released only after it was taken, and
-- closing the connection only sets its flag.
pub data Step : Slot → Slot → Type 0 where
  registers : (s : Slot) → Step s (register s).1
  unregisters : (s : Slot) → Step s (unregister s)
  delivers : (u : LeConnUpdate) (s : Slot) → Step s (deliver_conn_update u s)
  claims : (s : Slot) → Step s (claim_for_peer s).1
  releases : (s : Slot) → Step s (release_for_peer s)
  closes :
      (s : Slot)
      → Step s (record {
        update_waiter = s.update_waiter;
        update_signal_pending = s.update_signal_pending;
        closed = true;
      })

abbrev pub new_slot : Slot
new_slot = record { update_waiter = none; update_signal_pending = false; closed = false }

pub data Reachable : Slot → Type 0 where
  fresh : Reachable new_slot
  after : (s t : Slot) → Reachable s → Step s t → Reachable t

abbrev pub Exclusive : Slot → Type 0
Exclusive s = (s.update_waiter ≡ none) ⊎ (s.update_signal_pending ≡ false)

Step-Exclusive : (s t : Slot) → Step s t → Exclusive s → Exclusive t
unfolding register unregister deliver_conn_update claim_for_peer release_for_peer busy has_waiter
    set_waiter set_pending
Step-Exclusive s _ (registers _) h = ground arith
Step-Exclusive s _ (unregisters _) h = inl refl
Step-Exclusive s _ (delivers u _) h = ground arith
Step-Exclusive s _ (claims _) h = ground arith
Step-Exclusive s _ (releases _) h = inr refl
Step-Exclusive s _ (closes _) h = h

Reachable-Exclusive : (s : Slot) → Reachable s → Exclusive s
Reachable-Exclusive s fresh = inl refl
Reachable-Exclusive s (after r _ q e) = Step-Exclusive r s e (Reachable-Exclusive r q)

-- However the application's updates, the peer's requests, completions and the closing of the
-- connection are interleaved, the slot never has an application waiting and a peer's update pending at
-- once. So a completion that arrives reaches the application if it waits, unless it has one already,
-- and ends the peer's update if one is pending; a completion says nothing of the update it belongs to,
-- and one that comes late may end the next. And while either holds the slot, both
-- UpdateParams and a peer's request are refused and leave it as it is.
pub update-Exclusive :
    (s : Slot) (u : LeConnUpdate)
    → Reachable s
    → Exclusive s
      × (s.update_waiter ≡ some none → (deliver_conn_update u s).update_waiter ≡ some (some u))
      × (s.update_signal_pending ≡ true
          → ((deliver_conn_update u s).update_waiter ≡ none)
            × ((deliver_conn_update u s).update_signal_pending ≡ false))
      × ((s.update_waiter ≢ none) ⊎ (s.update_signal_pending ≡ true)
          → (register s ≡ (in_progress, s)) × (claim_for_peer s ≡ (false, s)))
unfolding register deliver_conn_update claim_for_peer busy has_waiter set_waiter set_pending
update-Exclusive s u r =
    let h = Reachable-Exclusive s r in (h, λ e. ground arith, λ e. ground arith, λ e. ground arith)
