-- ===== src/Hci/Signal/Answers.antt =====
-- The answers to the commands of one signalling PDU.
use ble.Base.{
  ℕ, List, [], ◌∷◌, ◌++◌, ◌/◌, ◌%◌, Bool, true, false, none, some, length, ltb, ◌==◌, if◌then◌else◌,
  le16, le_u16,
}
use ble.Hci.Signal.{Sig, UpdateCommand}

pub record Command : Type 0 where
  pub code : ℕ
  pub id : ℕ
  pub params : List ℕ

abbrev pub encode_command : Command → List ℕ
encode_command m = m.code ∷ m.id ∷ le16 (length m.params) ++ m.params

abbrev pub encode : List Command → List ℕ
encode [] = []
encode (m ∷ ms) = encode_command m ++ encode ms

-- The frame goes to writePDU.
abbrev pub sent : List ℕ → Sig → Sig
sent frame c = record {
  slot = c.slot;
  frames = c.frames ++ (frame ∷ []);
  commands = c.commands;
  sends = c.sends;
}

-- Command Reject, reason 0: command not understood.
abbrev pub not_understood : ℕ → List ℕ
not_understood id = 6 ∷ 0 ∷ 5 ∷ 0 ∷ 1 ∷ id ∷ 2 ∷ 0 ∷ 0 ∷ 0 ∷ []

-- A Disconnection Request: the ATT channel, 4 on both sides, is granted; a destination other than 4 is
-- rejected as an invalid channel, reason 2; another source is ignored.
pub disconnected : ℕ → ℕ → ℕ → Sig → Sig
disconnected id dcid scid c =
    if dcid == 4
    then (if scid == 4 then sent (8 ∷ 0 ∷ 5 ∷ 0 ∷ 7 ∷ id ∷ 4 ∷ 0 ∷ 4 ∷ 0 ∷ 4 ∷ 0 ∷ []) c else c)
    else sent (10 ∷ 0 ∷ 5 ∷ 0 ∷ 1 ∷ id ∷ 6 ∷ 0 ∷ 2 ∷ 0 ∷ dcid % 256 ∷ dcid / 256 % 256 ∷ 0 ∷ 0 ∷ [])
        c

-- Connection Parameter Update Response: 0 accepts, 1 rejects.
abbrev pub update_frame : ℕ → ℕ → List ℕ
update_frame id result = 6 ∷ 0 ∷ 5 ∷ 0 ∷ 0x13 ∷ id ∷ 2 ∷ 0 ∷ result ∷ 0 ∷ []

-- A Connection Parameter Update Request on a free slot goes to the controller. If that fails it is
-- rejected and the slot stays free, and else it is accepted and the peer holds the slot.
pub attempted : ℕ → UpdateCommand → Bool → List Bool → Sig → Sig
attempted id u false later c = record {
  slot = record { update_waiter = none; update_signal_pending = false; closed = c.slot.closed };
  frames = c.frames ++ (update_frame id 1 ∷ []);
  commands = c.commands ++ (u ∷ []);
  sends = later;
}
attempted id u true later c = record {
  slot = record { update_waiter = none; update_signal_pending = true; closed = c.slot.closed };
  frames = c.frames ++ (update_frame id 0 ∷ []);
  commands = c.commands ++ (u ∷ []);
  sends = later;
}

-- On a slot that is held the request is rejected, and nothing else happens.
pub updated : ℕ → UpdateCommand → Sig → Sig
updated id u c = elim c.slot.update_waiter [
  | some w ↦ sent (update_frame id 1) c
  | none ↦
      if c.slot.update_signal_pending
      then sent (update_frame id 1) c
      else (elim c.sends [ [] ↦ attempted id u true [] c | b ∷ later ↦ attempted id u b later c ])
]

abbrev pub update_of : List ℕ → UpdateCommand
update_of ps = record {
  interval_min = le_u16 ps 0;
  interval_max = le_u16 ps 2;
  slave_latency = le_u16 ps 4;
  timeout_multiplier = le_u16 ps 6;
}

-- What each kind of command does, with the frames written out. Codes 0x14 and 0x16 are ignored, and so
-- are requests that are cut short; only the master, role 0, takes parameter updates.
pub respond : ℕ → Command → Sig → Sig
respond role m c =
    if m.code == 0x06
    then (if ltb (length m.params) 4
        then c
        else disconnected m.id (le_u16 m.params 0) (le_u16 m.params 2) c)
    else if m.code == 0x12
    then (if role == 0
        then (if ltb (length m.params) 8 then c else updated m.id (update_of m.params) c)
        else sent (not_understood m.id) c)
    else if m.code == 0x14
    then c
    else if m.code == 0x16
    then c
    else sent (not_understood m.id) c

pub respond_all : ℕ → List Command → Sig → Sig
respond_all role [] c = c
respond_all role (m ∷ ms) c = respond_all role ms (respond role m c)
