-- ===== src/Tests/Wire.antt =====
-- The L2CAP connection on small frames.
use mathlib.Core.Path.{subst}
use ble.Hci.Update.Exclusive
use ble.Base.{
  ℕ, ◌≤◌, ◌<◌, true, false, none, some, List, [], ◌∷◌, ◌++◌, ok, length, ◌≡◌, ◌≢◌, ◌⊎◌, refl, arith,
}
use ble.Hci.Acl.{write, write_pdu, recombine, read, finished, att, deliver, received}
use ble.Hci.Acl.RoundTrip.{grants, strip, frame, read-write, recombine-write_pdu}
use ble.Hci.Pool.{Credits, Op, get, buffer, perform, blocks, new_pool}
use ble.Hci.Pool.Conserved.{Reachable, fresh, after, everywhere, total, Reachable-conserved}
use ble.Hci.Update.{Slot, LeConnUpdate, register, deliver_conn_update, claim_for_peer, in_progress}
use ble.Hci.Update.Exclusive.{Exclusive, update-Exclusive, new_slot, registers}
use ble.Hci.Smp.{handle_smp, smp_frame, handle_smp_lem}
use ble.Hci.Signal.{Sig}
use ble.Hci.Signal.Answers.{Command}

-- Thirty bytes cross a link whose packets take 27, in two fragments.
abbrev sdu : List ℕ
sdu =
    1 ∷ 2 ∷ 3 ∷ 4 ∷ 5 ∷ 6 ∷ 7 ∷ 8 ∷ 9 ∷ 10 ∷ 11 ∷ 12 ∷ 13 ∷ 14 ∷ 15 ∷ 16 ∷ 17 ∷ 18 ∷ 19 ∷ 20 ∷ 21
    ∷ 22 ∷ 23 ∷ 24 ∷ 25 ∷ 26 ∷ 27 ∷ 28 ∷ 29 ∷ 30 ∷ []

read-write_example :
    (f : List ℕ) × (write false 64 sdu ≡ ok (some f))
    × ((write_pdu false 32 64 (grants 34) f).result ≡ finished (length f))
    × (recombine 64 (strip (write_pdu false 32 64 (grants 34) f).packets ++ []) ≡ ok (att f []))
    × (read false 64 (f ∷ []) ≡ ok (received 30 (record { bytes = sdu; sdu = sdu }) []))
read-write_example =
    read-write 32 64 34 64 64 64 sdu [] [] (omega arith) (omega arith) (omega arith) (omega arith)
      (omega arith) (omega arith) (omega arith)

small-fits : length (frame 5 (1 ∷ 2 ∷ 3 ∷ 4 ∷ 5 ∷ [])) ≤ 10
unfolding frame
small-fits = omega arith

recombine-write_pdu_example :
    recombine 23
      (strip (write_pdu false 9 64 (grants 10) (frame 5 (1 ∷ 2 ∷ 3 ∷ 4 ∷ 5 ∷ []))).packets ++ [])
    ≡ ok (deliver 5 (frame 5 (1 ∷ 2 ∷ 3 ∷ 4 ∷ 5 ∷ [])) [])
recombine-write_pdu_example =
    recombine-write_pdu 9 64 10 23 5 (1 ∷ 2 ∷ 3 ∷ 4 ∷ 5 ∷ []) [] (omega arith) (omega arith)
      small-fits (omega arith) (omega arith) (λ e. omega arith)

-- One of two buffers is in flight on the first of two connections.
abbrev one_out : Credits
one_out = record { ch = 0 ∷ []; sents = (1 ∷ []) ∷ [] ∷ [] }

one_out-Reachable : Reachable 2 2 one_out
one_out-Reachable =
    after (get buffer 0) (new_pool 2 2) one_out fresh (unfold perform new_pool in refl)

Reachable-conserved_example :
    ((b : ℕ) → b < 2 → everywhere b one_out ≡ 1)
    × (total one_out ≡ 2)
    × ((op : Op) → perform 2 op one_out ≢ blocks)
Reachable-conserved_example = Reachable-conserved 2 2 one_out one_out-Reachable

abbrev update : LeConnUpdate
update = record { status = 0; interval = 24; latency = 0; timeout = 400 }

abbrev waiting_slot : Slot
waiting_slot = record { update_waiter = some none; update_signal_pending = false; closed = false }

registered : (register new_slot).1 ≡ waiting_slot
unfolding register
registered = refl

waiting_slot-Reachable : ble.Hci.Update.Exclusive.Reachable waiting_slot
waiting_slot-Reachable =
    ble.Hci.Update.Exclusive.after new_slot waiting_slot ble.Hci.Update.Exclusive.fresh
      (subst (λ t. ble.Hci.Update.Exclusive.Step new_slot t) registered (registers new_slot))

update-Exclusive_example :
    Exclusive waiting_slot
    × (waiting_slot.update_waiter ≡ some none
        → (deliver_conn_update update waiting_slot).update_waiter ≡ some (some update))
    × (waiting_slot.update_signal_pending ≡ true
        → ((deliver_conn_update update waiting_slot).update_waiter ≡ none)
          × ((deliver_conn_update update waiting_slot).update_signal_pending ≡ false))
    × ((waiting_slot.update_waiter ≢ none) ⊎ (waiting_slot.update_signal_pending ≡ true)
        → (register waiting_slot ≡ (in_progress, waiting_slot))
          × (claim_for_peer waiting_slot ≡ (false, waiting_slot)))
update-Exclusive_example = update-Exclusive waiting_slot update waiting_slot-Reachable

abbrev pairing : List ℕ
pairing = 1 ∷ 0 ∷ 6 ∷ 0 ∷ 1 ∷ []

handle_smp_lem_example :
    (5 < 5 → handle_smp pairing ≡ ok none)
    × ((a b c d code : ℕ) (rest : List ℕ)
        → pairing ≡ a ∷ b ∷ c ∷ d ∷ code ∷ rest
        → (1 ≤ code × (code ≤ 13 × code ≢ 5)
            → handle_smp pairing ≡ ok (some (2 ∷ 0 ∷ 6 ∷ 0 ∷ 5 ∷ 5 ∷ [])))
          × ((code ≡ 0) ⊎ ((code ≡ 5) ⊎ (13 < code)) → handle_smp pairing ≡ ok none))
    × (handle_smp (smp_frame (5 ∷ 5 ∷ [])) ≡ ok none)
handle_smp_lem_example = handle_smp_lem pairing

abbrev sig : Sig
sig = record { slot = new_slot; frames = []; commands = []; sends = [] }

-- An unknown command, then a request to disconnect.
abbrev commands : List Command
commands =
    record { code = 2; id = 7; params = [] }
    ∷ record { code = 6; id = 8; params = 4 ∷ 0 ∷ 4 ∷ 0 ∷ [] }
    ∷ []
