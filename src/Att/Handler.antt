-- ===== src/Att/Handler.antt =====
-- handler.go: the response writer, and what a handler may do with it. Handlers belong to the
-- application, which is a parameter: it sees every call made so far, the current one first, and
-- answers with a script of calls on the response writer.
use ble.Base.{
  ℕ, ◌-◌, ◌≤◌, Bool, Option, none, some, List, [], ◌++◌, ◌≡◌, length, ltb, if◌then◌else◌, arith,
  length-append, refl, ◌∙◌,
}
use ble.Att.Pdu.{err_success}

-- bytes.Buffer, emptied, over storage of `cap` bytes.
pub record Buffer : Type 0 where
  pub contents : List ℕ
  pub cap : ℕ

-- responseWriter; the buffer is nil in the response to a write.
pub record Writer : Type 0 where
  pub buf : Option Buffer
  pub status : ℕ

-- NewResponseWriter
abbrev pub new_response_writer : Option Buffer → Writer
new_response_writer buf = record { buf = buf; status = err_success }

abbrev pub empty_buffer : ℕ → Option Buffer
empty_buffer cap = some (record { contents = []; cap = cap })

-- Len
abbrev pub len : Writer → ℕ
len w = elim w.buf [ none ↦ 0 | some u ↦ length u.contents ]

-- Cap
abbrev pub cap : Writer → ℕ
cap w = elim w.buf [ none ↦ 0 | some u ↦ u.cap ]

-- The bytes that have been written.
abbrev pub written : Writer → List ℕ
written w = elim w.buf [ none ↦ [] | some u ↦ u.contents ]

pub data WriteError : Type 0 where
  req_not_supp short_write : WriteError

-- Write
unfoldable pub write : Writer → List ℕ → ℕ × Option WriteError × Writer
write w b = elim w.buf [
  | none ↦ (0, some req_not_supp, w)
  | some u ↦
      if ltb (u.cap - length u.contents) (length b)
      then (0, some short_write, w)
      else (length b, none, record w { buf = some (record u { contents = u.contents ++ b }) })
]

-- SetStatus
unfoldable pub set_status : Writer → ℕ → Writer
set_status w e = record w { status = e }

-- What a handler does with its response writer, each step after the answer to the one before.
pub data Script : Type 0 where
  finish : Script
  writes : List ℕ → (ℕ → Option WriteError → Script) → Script
  sets_status : ℕ → Script → Script
  asks : (ℕ → ℕ → ℕ → Script) → Script

unfoldable pub run : Script → Writer → Writer
run finish w = w
run (writes b k) w = let r = write w b in run (k r.0 r.1) r.2
run (sets_status e k) w = run k (set_status w e)
run (asks k) w = run (k w.status (len w) (cap w)) w

-- A call of ServeRead or ServeWrite of the handler numbered `handler`.
pub record Call : Type 0 where
  pub handler : ℕ
  pub is_write : Bool
  pub bytes : List ℕ
  pub offset : ℕ

abbrev pub App : Type 0
App = List Call → Script

-- The written bytes fit the storage.
abbrev pub Fits : Writer → Type 0
Fits w = length (written w) ≤ cap w

pub write-Fits :
    (w : Writer) (b : List ℕ) → Fits w → Fits (write w b).2 × (cap (write w b).2 ≡ cap w)
unfolding write
write-Fits w b h = ground (arith, length-append (written w) b)

-- No script writes past the storage that the writer was given, nor changes its size.
pub run-Fits : (s : Script) (w : Writer) → Fits w → Fits (run s w) × (cap (run s w) ≡ cap w)
unfolding run set_status
run-Fits finish w h = (h, refl)
run-Fits (writes b k) w h =
    let (f, e) = write-Fits w b h in
    let (g, d) = run-Fits (k (write w b).0 (write w b).1) (write w b).2 f in (g, d ∙ e)
run-Fits (sets_status e k) w h = run-Fits k (set_status w e) h
run-Fits (asks k) w h = run-Fits (k w.status (len w) (cap w)) w h
