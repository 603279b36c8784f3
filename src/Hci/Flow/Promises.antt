-- ===== src/Hci/Flow/Promises.antt =====
-- The flow of HCI commands against what it promises: one command at a time, answered by an event of its op code.
use ble.Base.{
  ℕ, zero, suc, ◌+◌, ◌==◌, ltb→lt, ◌≤◌, ◌<◌, ◌≡◌, ◌≢◌, ◌⊎◌, inl, inr, refl, arith, Bool, true,
  false, Option, none, some, List, [], ◌∷◌, length, le_u16, get_or, drop, min, max, Bool-cases, ltb,
  ==_iff,
}
use ble.Hci.Cmd.Wire.{Command}
use ble.Hci.Flow.{
  Flow, FlowEvent, ask, take_buffer, register, write, look_up, no_buffer, expire, receive, shut,
  complete, status, leave, leaving, SendResult, failed, replied, Sender, resting, wanting, filling,
  registered, awaiting, Outcome, find, remove, set_allowed_commands, allow_loop, FlowError,
}

module _ {A : Type 0} where
  abbrev pub OneOf : A → List A → Type 0
  OneOf a [] = ⊥
  OneOf a (b ∷ bs) = (a ≡ b) ⊎ OneOf a bs

-- A command from its call to its result: asked, granted a buffer, listed in the sent table, and pending once
-- it is written, these two with the replies to its op code that were found since it was listed, and ending
-- with its result.
pub data Promise : Type 0 where
  nothing : Promise
  asked granted : Command → Promise
  listed pending : ℕ → List (List ℕ) → Promise
  ending : SendResult → Promise

-- The reply that an event of the controller carries.
pub data Carries : FlowEvent → ℕ → List ℕ → Type 0 where
  completion : (b : List ℕ) → Carries (complete b) (le_u16 b 1) (drop 3 b)
  status_of : (b : List ℕ) → Carries (status b) (le_u16 b 2) (get_or b 0 0 ∷ [])

-- A call is always taken up, the timer of each of the two waits always ends it, and a result is returned.
abbrev pub MayStay : Promise → FlowEvent → Type 0
MayStay a (ask c) = a ≢ nothing
MayStay a no_buffer = (c : Command) → a ≢ asked c
MayStay a expire = (op : ℕ) (rs : List (List ℕ)) → a ≢ pending op rs
MayStay a leave = (r : SendResult) → a ≢ ending r
MayStay a _ = Unit {0}

-- What may happen to a promise in an event, beside what sktLoop has read and not looked up, and what send
-- may return: errors in the steps that may fail, but a reply only from those to the op code of the command that were
-- looked up since it was listed, and only once the command is written.
pub data Moves
    : Option (ℕ × List ℕ)
      → Promise
      → FlowEvent
      → Option (ℕ × List ℕ)
      → Promise
      → Option SendResult
      → Type 0 where
  stays :
      (k : Option (ℕ × List ℕ)) (a : Promise) (e : FlowEvent) → MayStay a e → Moves k a e k a none
  asks : (k : Option (ℕ × List ℕ)) (c : Command) → Moves k nothing (ask c) k (asked c) none
  grants :
      (k : Option (ℕ × List ℕ)) (c : Command) → Moves k (asked c) take_buffer k (granted c) none
  lists :
      (k : Option (ℕ × List ℕ)) (c : Command) (before : List ℕ)
      → Moves k (granted c) (register before) k (listed c.op_code []) none
  writes :
      (k : Option (ℕ × List ℕ)) (op : ℕ) (rs : List (List ℕ))
      → Moves k (listed op rs) (write true) k (pending op rs) none
  reads :
      (a : Promise) (e : FlowEvent) (op : ℕ) (r : List ℕ)
      → Carries e op r
      → Moves none a e (some (op, r)) a none
  misses : (x : ℕ × List ℕ) (a : Promise) → Moves (some x) a look_up none a none
  hears_early :
      (op : ℕ) (rs : List (List ℕ)) (r : List ℕ)
      → Moves (some (op, r)) (listed op rs) look_up none (listed op (r ∷ rs)) none
  hears :
      (op : ℕ) (rs : List (List ℕ)) (r : List ℕ)
      → Moves (some (op, r)) (pending op rs) look_up none (pending op (r ∷ rs)) none
  answers :
      (k : Option (ℕ × List ℕ)) (op : ℕ) (rs : List (List ℕ)) (r : List ℕ)
      → OneOf r rs
      → Moves k (pending op rs) receive k (ending (replied r)) none
  breaks :
      (k : Option (ℕ × List ℕ)) (op : ℕ) (rs : List (List ℕ)) (x : FlowError)
      → Moves k (listed op rs) (write false) k (ending (failed x)) none
  gives_up :
      (k : Option (ℕ × List ℕ)) (op : ℕ) (rs : List (List ℕ)) (e : FlowEvent) (x : FlowError)
      → Moves k (pending op rs) e k (ending (failed x)) none
  returns : (k : Option (ℕ × List ℕ)) (r : SendResult) → Moves k (ending r) leave k nothing (some r)
  refuses :
      (k : Option (ℕ × List ℕ)) (c : Command) (x : FlowError)
      → Moves k nothing (ask c) k nothing (some (failed x))
  turns_back :
      (k : Option (ℕ × List ℕ)) (c : Command) (e : FlowEvent) (x : FlowError)
      → Moves k (asked c) e k nothing (some (failed x))
  fails :
      (k : Option (ℕ × List ℕ)) (c : Command) (before : List ℕ) (x : FlowError)
      → Moves k (granted c) (register before) k nothing (some (failed x))

-- Packets yet to be made have no reply, and none is on its way.
pub record Fresh (s : Flow) : Type 0 where
  pub quiet : (q : ℕ) → s.made ≤ q → find q s.replies ≡ none
  pub free : (q : ℕ) (r : List ℕ) → s.held ≡ some (q, r) → q < s.made

pub record Flows (s : Flow) : Type 0 where
  pub fresh : Fresh s
  pub capacity : s.bufs ≤ 16
  pub ended : s.gone ≡ true → s.fatal ≢ none

-- A packet that is in no table, with no reply.
abbrev pub Unsent : ℕ → Flow → Type 0
Unsent p s =
    (s.sent ≡ [])
    × ((p < s.made) × ((find p s.replies ≡ none) × ((r : List ℕ) → s.held ≢ some (p, r))))

-- A packet that is alone in the sent table, whose replies are among these.
abbrev pub Offers : Command → ℕ → List (List ℕ) → Flow → Type 0
Offers c p rs s =
    (s.sent ≡ (c.op_code, p) ∷ [])
    × ((p < s.made)
        × (((r : List ℕ) → find p s.replies ≡ some r → OneOf r rs)
            × ((r : List ℕ) → s.held ≡ some (p, r) → OneOf r rs)))

-- The state stands for the promise.
abbrev pub Stands : Sender → Flow → Promise → Type 0
Stands resting s a = (a ≡ nothing) × (s.sent ≡ [])
Stands (wanting c p) s a = (a ≡ asked c) × Unsent p s
Stands (filling c p) s a = (a ≡ granted c) × Unsent p s
Stands (registered c p) s a = (rs : List (List ℕ)) × ((a ≡ listed c.op_code rs) × Offers c p rs s)
Stands (leaving c p r) s a = (a ≡ ending r) × ((s.sent ≡ (c.op_code, p) ∷ []) × (p < s.made))
Stands (awaiting c p) s a = (rs : List (List ℕ)) × ((a ≡ pending c.op_code rs) × Offers c p rs s)

-- Events of the controller are as long as their fixed part, and Close comes before the end of sktLoop.
abbrev pub Sound : FlowEvent → Flow → Type 0
Sound (complete b) s = 3 ≤ length b
Sound (status b) s = 4 ≤ length b
Sound shut s = s.gone ≡ false
Sound _ s = Unit {0}

abbrev pub Good : Flow → Promise → Type 0
Good s a = Flows s × Stands s.sender s a

abbrev pub Refined : Option (ℕ × List ℕ) → Promise → FlowEvent → Outcome → Type 0
Refined k a e o = (b : Promise) × (Moves k a e o.1.reading b o.0 × Good o.1 b)

allow_loop_cap : (k n bufs : ℕ) → n ≤ 16 → bufs ≤ 16 → allow_loop k n bufs ≤ 16
unfolding allow_loop
allow_loop_cap zero n bufs h i = i
allow_loop_cap (suc k) n bufs h i = elim (Bool-cases (ltb bufs n)) [
  | inl more ↦
      let below = ltb→lt bufs n more in rw more (allow_loop_cap k n (bufs + 1) h (omega arith))
  | inr enough ↦ rw enough i
]

allow_loop_fills : (k n bufs : ℕ) → n ≤ bufs + k → allow_loop k n bufs ≡ max bufs n
unfolding allow_loop
allow_loop_fills zero n bufs h = omega arith
allow_loop_fills (suc k) n bufs h = elim (Bool-cases (ltb bufs n)) [
  | inl more ↦
      let below = ltb→lt bufs n more in
      let rest = allow_loop_fills k n (bufs + 1) (omega arith) in rw more (omega arith)
  | inr enough ↦ let above : n ≤ bufs = ground arith in rw enough (omega arith)
]

-- The rounds of setAllowedCommands are enough: it fills the channel up to n, or to its capacity.
set_allowed_commands_lem :
    (n : ℕ) (s : Flow) → (set_allowed_commands n s).bufs ≡ max s.bufs (min n 16)
unfolding set_allowed_commands
set_allowed_commands_lem n s = allow_loop_fills 16 (min n 16) s.bufs (omega arith)

-- The promise does not depend on the error, h.done, the buffers, the caller's place and what is read.
pub Stands-kept :
    (x : Sender) (s : Flow) (a : Promise) (f : Option FlowError) (g : Bool) (n : ℕ) (y : Sender)
    (k : Option (ℕ × List ℕ))
    → Stands x s a
    → Stands x (record s { fatal = f; gone = g; bufs = n; sender = y; reading = k }) a
Stands-kept resting s a f g n y k h = h
Stands-kept (wanting c p) s a f g n y k h = h
Stands-kept (filling c p) s a f g n y k h = h
Stands-kept (registered c p) s a f g n y k h = h
Stands-kept (awaiting c p) s a f g n y k h = h
Stands-kept (leaving c p r) s a f g n y k h = h

pub same :
    (e : FlowEvent) (s : Flow) (a : Promise)
    → MayStay a e
    → Good s a
    → Refined s.reading a e (none, s)
same e s a may h = (a, (stays s.reading a e may, h))

-- What a handler does behind setAllowedCommands up to its lookup.
pub allow-Good :
    (n : ℕ) (k : Option (ℕ × List ℕ)) (s : Flow) (a : Promise)
    → Good s a
    → Good (record (set_allowed_commands n s) { reading = k }) a
unfolding set_allowed_commands
allow-Good n k s a (f, h) = (
  record {
    fresh = record { quiet = f.fresh.quiet; free = f.fresh.free };
    capacity = allow_loop_cap 16 (min n 16) s.bufs (omega arith) f.capacity;
    ended = f.ended;
  },
  Stands-kept s.sender s a s.fatal s.gone (allow_loop 16 (min n 16) s.bufs) s.sender k h,
)

pub find_same : (k : ℕ) {A : Type 0} (x : A) (m : List (ℕ × A)) → find k ((k, x) ∷ m) ≡ some x
unfolding find
find_same k x m = rw ((==_iff k k).1 refl) refl

pub find_other :
    (k j : ℕ) {A : Type 0} (x : A) (m : List (ℕ × A)) → k ≢ j → find k ((j, x) ∷ m) ≡ find k m
unfolding find
find_other k j x m d = elim (Bool-cases (k == j)) [
  | inl eq ↦ absurd (d ((==_iff k j).0 eq))
  | inr ne ↦ rw ne refl
]

pub remove_only : {A : Type 0} (k : ℕ) (x : A) → remove k ((k, x) ∷ []) ≡ []
unfolding remove
remove_only k x = rw ((==_iff k k).1 refl) refl
