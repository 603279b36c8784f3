-- ===== src/Att/Client/Bearer/Peer.antt =====
-- A peer that answers the client's requests in order, and the states that the client can then reach.
use ble.Base.{ℕ, ◌+◌, ◌≤◌, Bool, true, false, ◌||◌, List, ◌==◌, get_or, ◌≡◌, ◌≢◌}
use ble.Att.Client.Bearer.{
  Bearer, Event, Outcome, Phase, writing, delivered, request, write, receive, next, returned, step,
  new_bearer, rsp_of_req,
}

-- What the peer sends to the client's rspc: the answer to a request, numbered by its write, or a PDU of its own.
pub data Message : Type 0 where
  answer : ℕ → ℕ → List ℕ → Message
  other : ℕ → List ℕ → Message

abbrev pub op_of : Message → ℕ
op_of (answer k o ds) = o
op_of (other o ds) = o

abbrev pub is_response : ℕ → Bool
is_response o =
    o == 0x01
    || o == 0x03
    || o == 0x05
    || o == 0x07
    || o == 0x09
    || o == 0x0b
    || o == 0x0d
    || o == 0x0f
    || o == 0x11
    || o == 0x13
    || o == 0x17
    || o == 0x19
    || o == 0x1e

-- How many requests were written, the opcode of the last, and how many the peer has answered.
pub record Count : Type 0 where
  pub written : ℕ
  pub last : ℕ
  pub answers : ℕ

abbrev pub opcode : Phase → ℕ
opcode (writing b) = get_or b 0 0
opcode p = 0

abbrev pub count : Phase → Event Message → Count → Count
count p (delivered (answer k o ds)) g = record g { answers = k }
count p (write true now) g = record g { written = g.written + 1; last = opcode p }
count p e g = g

-- The peer answers each request once and in order, by its response or an error, and sends no other
-- response; requests have an opcode that rspOfReq knows; a refusal is written without an error.
abbrev pub Allowed : Count → Event Message → Type 0
Allowed g (delivered (answer k o ds)) =
    (k ≡ g.answers + 1) × (k ≤ g.written) × ((o == 1 || o == rsp_of_req g.last) ≡ true)
Allowed g (delivered (other o ds)) = is_response o ≡ false
Allowed g (request b) = rsp_of_req (get_or b 0 0) ≢ 0
Allowed g (receive ok) = ok ≡ true
Allowed g e = Unit {0}

-- The states that events lead to, with their counts.
pub data Reachable : Bearer Message → Count → Type 0 where
  fresh : Reachable (new_bearer Message) (record { written = 0; last = 0; answers = 0 })
  goes_on :
      {c d : Bearer Message} {g : Count} (e : Event Message)
      → Reachable c g
      → Allowed g e
      → step op_of c e ≡ next d
      → Reachable d (count c.phase e g)
  ends :
      {c d : Bearer Message} {g : Count} (e : Event Message) (o : Outcome Message)
      → Reachable c g
      → Allowed g e
      → step op_of c e ≡ returned o d
      → Reachable d (count c.phase e g)
