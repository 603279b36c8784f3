-- ===== src/Att/Server/State.antt =====
-- linux/att/server.go: the state of an ATT server, and newCCCD of linux/att/db.go with handleATT,
-- by which the server calls the handlers of an attribute.
use ble.Base.{
  ℕ, ◌/◌, ◌%◌, Bool, true, false, not, ◌&&◌, Option, none, some, List, [], ◌∷◌, Go, ok, panic,
  ◌>>=◌, u16_at, le16, ◌==◌, if◌then◌else◌,
}
use ble.Att.Pdu.{err_unlikely}
use ble.Att.Handler.{Writer, Call, write, set_status}
use ble.Att.Db.{Db, Cccd}

-- The maps of a connection, keyed by handle: the newest entry of a key counts.
abbrev pub lookup {ℓ} : {V : Type ℓ} → ℕ → List (ℕ × V) → Option V
lookup k [] = none
lookup k ((j, v) ∷ m) = if j == k then some v else lookup k m

abbrev pub insert {ℓ} : {V : Type ℓ} → ℕ → V → List (ℕ × V) → List (ℕ × V)
insert k v m = (k, v) ∷ m

-- conn: the client's subscriptions, and the notifiers that run for them (true while one is open).
pub record Conn : Type 0 where
  pub tx_mtu : ℕ
  pub cccs : List (ℕ × ℕ)
  pub nn : List (ℕ × Bool)
  pub ind : List (ℕ × Bool)

-- preparedWrite, with the attribute by its index.
pub record PreparedWrite : Type 0 where
  pub a : ℕ
  pub handle : ℕ
  pub offset : ℕ
  pub value : List ℕ

-- Server. `calls` is the history of the application's handlers, the newest call first.
pub record Server : Type 0 where
  pub conn : Conn
  pub db : Db
  pub rx_mtu : ℕ
  pub tx_len : ℕ
  pub not_len : ℕ
  pub ind_len : ℕ
  pub prepared : List PreparedWrite
  pub prepared_bytes : ℕ
  pub calls : List Call

-- A missing entry of the map cccs reads as 0.
abbrev pub ccc_of : Conn → ℕ → ℕ
ccc_of c h = elim (lookup h c.cccs) [ none ↦ 0 | some v ↦ v ]

-- ccc & cccNotify != 0, ccc & cccIndicate != 0, and the property bits CharNotify and CharIndicate.
abbrev pub has_notify : ℕ → Bool
has_notify ccc = ccc % 2 == 1

abbrev pub has_indicate : ℕ → Bool
has_indicate ccc = ccc / 2 % 2 == 1

abbrev pub may_notify : ℕ → Bool
may_notify property = property / 16 % 2 == 1

abbrev pub may_indicate : ℕ → Bool
may_indicate property = property / 32 % 2 == 1

-- Closing a notifier that the map does not have is a call on a nil interface.
unfoldable pub close_notifier : ℕ → List (ℕ × Bool) → Go (List (ℕ × Bool))
close_notifier h m = elim (lookup h m) [ none ↦ panic | some b ↦ ok (insert h false m) ]

-- The part of the write that turns notifications (or indications) on or off; `none` where the
-- property does not allow them. ServeNotify of a nil handler panics.
unfoldable pub toggle :
    Bool → Bool → ℕ → Bool → Bool → List (ℕ × Bool) → Go (Option (List (ℕ × Bool)))
unfolding close_notifier
toggle allowed has_handler h old new m =
    if new && not old
    then (if not allowed
        then ok none
        else if has_handler
        then ok (some (insert h true m))
        else panic)
    else if not new && old
    then (do m' ← close_notifier h m; ok (some m'))
    else ok (some m)

-- The read closure of newCCCD.
unfoldable pub ccc_read : Cccd → Writer → Server → Writer
ccc_read c w s = (write w (le16 (ccc_of s.conn c.handle))).2

-- The write closure of newCCCD. A refusal leaves the map cccs as it was, also where a notifier has
-- been started before.
abbrev pub ccc_finish :
    Cccd → ℕ → Writer → Server → List (ℕ × Bool) → Option (List (ℕ × Bool)) → Writer × Server
ccc_finish c ccc w s nn none =
    (set_status w err_unlikely, record s { conn = record (s.conn) { nn = nn } })
ccc_finish c ccc w s nn (some ind) =
    let cccs = insert c.handle ccc s.conn.cccs in
    (w, record s { conn = record (s.conn) { cccs = cccs; nn = nn; ind = ind } })

abbrev pub ccc_indicate :
    Cccd → ℕ → Writer → Server → Option (List (ℕ × Bool)) → Go (Writer × Server)
ccc_indicate c ccc w s none = ok (set_status w err_unlikely, s)
ccc_indicate c ccc w s (some nn) = do
  let old = ccc_of s.conn c.handle
  ind ←
      toggle (may_indicate c.property) c.has_indicate_handler c.handle (has_indicate old)
        (has_indicate ccc) s.conn.ind
  ok (ccc_finish c ccc w s nn ind)

unfoldable pub ccc_write : Cccd → List ℕ → Writer → Server → Go (Writer × Server)
ccc_write c value w s = do
  ccc ← u16_at value 0
  let old = ccc_of s.conn c.handle
  nn ←
      toggle (may_notify c.property) c.has_notify_handler c.handle (has_notify old) (has_notify ccc)
        s.conn.nn
  ccc_indicate c ccc w s nn
