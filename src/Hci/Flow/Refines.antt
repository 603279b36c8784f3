-- ===== src/Hci/Flow/Refines.antt =====
-- Runs of the command flow of linux/hci/hci.go against runs of its promise.
use ble.Base.{ℕ, Option, List, [], ◌∷◌, Go, ok, panic, ◌>>=◌}
use ble.Hci.Flow.{Flow, FlowEvent, SendResult, Outcome, flow_step}
use ble.Hci.Flow.Promises.{Promise, Moves, Sound}

-- What each event of a run made send return.
abbrev pub Log : Type 0
Log = List (FlowEvent × Option SendResult)

unfoldable pub flow_run : List FlowEvent → Flow → Go (Log × Flow)
unfolding flow_step
flow_run [] s = ok ([], s)
flow_run (e ∷ es) s = flow_step e s >>= λ o. flow_run es o.1 >>= λ l. ok ((e, o.0) ∷ l.0, l.1)

-- A run of the promise with the same events and results, beside what sktLoop has read.
pub data Allowed : Option (ℕ × List ℕ) → Promise → Log → Type 0 where
  ends : (k : Option (ℕ × List ℕ)) (a : Promise) → Allowed k a []
  goes :
      (k m : Option (ℕ × List ℕ)) (a b : Promise) (e : FlowEvent) (o : Option SendResult) (l : Log)
      → Moves k a e m b o
      → Allowed m b l
      → Allowed k a ((e, o) ∷ l)

abbrev pub IfReturns : (Outcome → Type 0) → Go Outcome → Type 0
IfReturns P panic = Unit {0}
IfReturns P (ok o) = P o

abbrev pub AllSound : List FlowEvent → Flow → Type 0
AllSound [] s = Unit {0}
AllSound (e ∷ es) s = Sound e s × IfReturns (λ o. AllSound es o.1) (flow_step e s)

abbrev pub Followed : Option (ℕ × List ℕ) → Promise → Log × Flow → Type 0
Followed k a l = Allowed k a l.0
