-- ===== src/Att/Server/Inv.antt =====
-- The invariant of the ATT server, and what a call of a handler may change.
use ble.Base.{
  ℕ, ◌+◌, ◌≤◌, Bool, true, false, Option, none, some, List, [], ◌∷◌, ok, Returns, >>=-Returns,
  u16_at-ok, length, get_elem?, All, ◌==◌, ==_iff, ◌⊎◌, inl, inr, Bool-cases, ◌∙◌, ◌≡◌, refl, arith,
  le_u16,
}
use mathlib.Core.Path.{subst}
use ble.Att.Pdu.{err_unlikely}
use ble.Att.Handler.{Writer, Fits, cap, set_status}
use ble.Att.Db.{Attr, Db, Handler, Cccd, custom, cccd}
use ble.Att.Db.Lookup.{Numbered}
use ble.Att.Server.State.{
  Server, Conn, PreparedWrite, lookup, insert, ccc_of, has_notify, has_indicate, may_notify,
  may_indicate, toggle, close_notifier, ccc_indicate, ccc_finish, ccc_write,
}
use ble.Att.Server.Reads.{max_mtu}
use ble.Att.Server.Writes.{max_prepared_writes, max_prepared_write_bytes}

-- The map has an entry for the handle.
abbrev pub has : ℕ → List (ℕ × Bool) → Bool
has h m = elim (lookup h m) [ none ↦ false | some b ↦ true ]

-- The notifier of the handle is open.
abbrev pub is_open : ℕ → List (ℕ × Bool) → Bool
is_open h m = elim (lookup h m) [ none ↦ false | some b ↦ b ]

-- Exactly the subscriptions in force have a notifier that is open.
pub record Live (c : Conn) : Type 0 where
  pub notifying : (h : ℕ) → is_open h c.nn ≡ has_notify (ccc_of c h)
  pub indicating : (h : ℕ) → is_open h c.ind ≡ has_indicate (ccc_of c h)

-- Every subscription in force has a notifier in the map, open or closed.
pub record Subscribed (c : Conn) : Type 0 where
  pub notifies : (h : ℕ) → has_notify (ccc_of c h) ≡ true → has h c.nn ≡ true
  pub indicates : (h : ℕ) → has_indicate (ccc_of c h) ≡ true → has h c.ind ≡ true

-- A value that the handler takes without a panic: the write closure of newCCCD reads two bytes, and
-- starts the handler that the property promises.
abbrev pub SafeWrite : Handler → List ℕ → Type 0
SafeWrite (custom k) value = Unit {0}
SafeWrite (cccd c) value =
    (2 ≤ length value)
    × (may_notify c.property ≡ true → c.has_notify_handler ≡ true)
    × (may_indicate c.property ≡ true → c.has_indicate_handler ≡ true)

-- What the handlers leave alone.
pub record Same (s s' : Server) : Type 0 where
  pub db : s'.db ≡ s.db
  pub tx_len : s'.tx_len ≡ s.tx_len
  pub prepared : s'.prepared ≡ s.prepared
  pub prepared_bytes : s'.prepared_bytes ≡ s.prepared_bytes
  pub rx_mtu : s'.rx_mtu ≡ s.rx_mtu
  pub not_len : s'.not_len ≡ s.not_len
  pub ind_len : s'.ind_len ≡ s.ind_len
  pub tx_mtu : s'.conn.tx_mtu ≡ s.conn.tx_mtu

pub same : (s : Server) → Same s s
same s = record {
  db = refl;
  tx_len = refl;
  prepared = refl;
  prepared_bytes = refl;
  rx_mtu = refl;
  not_len = refl;
  ind_len = refl;
  tx_mtu = refl;
}

-- `toggle` leaves the notifier open exactly where the flag is set, if it was open where the flag was
-- set before, and touches no other notifier.
abbrev Switched : ℕ → Bool → Bool → List (ℕ × Bool) → List (ℕ × Bool) → Type 0
Switched h old new m m' =
    is_open h m ≡ old
    → (is_open h m' ≡ new) × ((k : ℕ) → (h == k) ≡ false → is_open k m' ≡ is_open k m)

-- `toggle` loses no entry of the map, and the flag is set only where there is one.
abbrev Toggled : ℕ → Bool → Bool → List (ℕ × Bool) → Option (List (ℕ × Bool)) → Type 0
Toggled h old new m none = Unit {0}
Toggled h old new m (some m') =
    (new ≡ true → has h m' ≡ true)
    × (((k : ℕ) → has k m ≡ true → has k m' ≡ true) × Switched h old new m m')

pub has-insert :
    (h k : ℕ) (b : Bool) (m : List (ℕ × Bool)) → has k m ≡ true → has k (insert h b m) ≡ true
has-insert h k b m e = ground arith

has-insert_self : (h : ℕ) (b : Bool) (m : List (ℕ × Bool)) → has h (insert h b m) ≡ true
has-insert_self h b m = ground arith

pub close_notifier-eq :
    (h : ℕ) (m : List (ℕ × Bool)) → has h m ≡ true → close_notifier h m ≡ ok (insert h false m)
unfolding close_notifier
close_notifier-eq h m e = ground arith

switch-Switched : (h : ℕ) (old b : Bool) (m : List (ℕ × Bool)) → Switched h old b m (insert h b m)
switch-Switched h old b m e = (ground arith, λ k d. ground arith)

toggle-Toggled :
    (allowed has_handler : Bool) (h : ℕ) (old new : Bool) (m : List (ℕ × Bool))
    → (allowed ≡ true → has_handler ≡ true)
    → (old ≡ true → has h m ≡ true)
    → Returns (Toggled h old new m) (toggle allowed has_handler h old new m)
unfolding toggle
toggle-Toggled allowed has_handler h false false m p q =
    ((λ e. cc), ((λ k e. e), λ e. (e, λ k d. refl)))
toggle-Toggled true has_handler h false true m p q = rw (p refl) (
  (λ e. has-insert_self h true m),
  ((λ k e. has-insert h k true m e), switch-Switched h false true m),
)
toggle-Toggled false has_handler h false true m p q = tt
toggle-Toggled allowed has_handler h true true m p q = (q, ((λ k e. e), λ e. (e, λ k d. refl)))
toggle-Toggled allowed has_handler h true false m p q =
    rw (close_notifier-eq h m (q refl))
      ((λ e. cc), ((λ k e. has-insert h k false m e), switch-Switched h true false m))

-- Notifiers that were open exactly for the subscriptions are so again, or the handler has refused, with
-- ErrUnlikely and the subscriptions as they were.
abbrev pub Follows : Server → Writer → Server → Type 0
Follows s w' s' =
    Live s.conn → Live s'.conn ⊎ ((w'.status ≡ err_unlikely) × (s'.conn.cccs ≡ s.conn.cccs))

-- What a handler keeps: the rest of the server, the notifiers of the subscriptions, and the bounds of
-- the response.
abbrev pub Kept : Writer → Server → Writer × Server → Type 0
Kept w s (w', s') =
    Same s s' × Subscribed s'.conn × (Fits w → Fits w') × (cap w' ≡ cap w) × Follows s w' s'

live_switch :
    (h k ccc old : ℕ) (flag : ℕ → Bool) (m m' : List (ℕ × Bool)) (c : Conn)
    → ((j : ℕ) → is_open j m ≡ flag (ccc_of c j))
    → Switched h (flag (ccc_of c h)) (flag ccc) m m'
    → is_open k m' ≡ flag (elim (lookup k (insert h ccc c.cccs)) [ none ↦ 0 | some v ↦ v ])
live_switch h k ccc old flag m m' c live sw = elim (Bool-cases (h == k)) [
  | inl e ↦ rw e (subst (λ j. is_open j m' ≡ flag ccc) ((==_iff h k).0 e) (sw (live h)).0)
  | inr d ↦ rw d ((sw (live h)).1 k d ∙ live k)
]

ccc_finish-Kept :
    (c : Cccd) (ccc : ℕ) (w : Writer) (s : Server) (nn : List (ℕ × Bool))
    (ind : Option (List (ℕ × Bool)))
    → Subscribed s.conn
    → Toggled c.handle (has_notify (ccc_of s.conn c.handle)) (has_notify ccc) s.conn.nn (some nn)
    → Toggled c.handle (has_indicate (ccc_of s.conn c.handle)) (has_indicate ccc) s.conn.ind ind
    → Kept w s (ccc_finish c ccc w s nn ind)
unfolding set_status
ccc_finish-Kept c ccc w s nn none b (t, (k, sw)) u = (
  record {
    db = refl;
    tx_len = refl;
    prepared = refl;
    prepared_bytes = refl;
    rx_mtu = refl;
    not_len = refl;
    ind_len = refl;
    tx_mtu = refl;
  },
  record { notifies = λ h e. k h (b.notifies h e); indicates = b.indicates },
  (λ f. f),
  refl,
  λ l. inr (refl, refl),
)
ccc_finish-Kept c ccc w s nn (some ind) b (t, (k, sw)) (u, (l, sx)) = (
  record {
    db = refl;
    tx_len = refl;
    prepared = refl;
    prepared_bytes = refl;
    rx_mtu = refl;
    not_len = refl;
    ind_len = refl;
    tx_mtu = refl;
  },
  record {
    notifies = λ h e. ground (arith, t, k h, b.notifies h);
    indicates = λ h e. ground (arith, u, l h, b.indicates h);
  },
  (λ f. f),
  refl,
  λ live. inl (record {
    notifying = λ h. live_switch c.handle h ccc 0 has_notify s.conn.nn nn s.conn live.notifying sw;
    indicating =
        λ h. live_switch c.handle h ccc 0 has_indicate s.conn.ind ind s.conn live.indicating sx;
  }),
)

ccc_indicate-Kept :
    (c : Cccd) (ccc : ℕ) (w : Writer) (s : Server) (nn : Option (List (ℕ × Bool)))
    → (may_indicate c.property ≡ true → c.has_indicate_handler ≡ true)
    → Subscribed s.conn
    → Toggled c.handle (has_notify (ccc_of s.conn c.handle)) (has_notify ccc) s.conn.nn nn
    → Returns (Kept w s) (ccc_indicate c ccc w s nn)
unfolding set_status
ccc_indicate-Kept c ccc w s none p b t = (same s, b, (λ f. f), refl, λ l. inl l)
ccc_indicate-Kept c ccc w s (some nn) p b t =
    >>=-Returns
      (Toggled c.handle (has_indicate (ccc_of s.conn c.handle)) (has_indicate ccc) s.conn.ind)
      (Kept w s) _ _
      (toggle-Toggled _ _ c.handle _ (has_indicate ccc) s.conn.ind p (b.indicates c.handle))
      (λ ind u. ccc_finish-Kept c ccc w s nn ind b t u)

-- The write closure of newCCCD ends without a panic on a value of two bytes or more, for a characteristic
-- that has the handlers which its property promises. It changes nothing of the server but the
-- subscriptions and notifiers of the connection, and keeps a notifier in the map for each subscription
-- in force. If exactly the subscriptions in force had their notifiers open, the same holds again, unless
-- the closure refuses the write with ErrUnlikely and leaves the subscriptions as they were.
pub ccc_write-Kept :
    (c : Cccd) (value : List ℕ) (w : Writer) (s : Server)
    → SafeWrite (cccd c) value
    → Subscribed s.conn
    → Returns (Kept w s) (ccc_write c value w s)
unfolding ccc_write
ccc_write-Kept c value w s (n, p, q) b = rw (u16_at-ok value 0 n) (
    >>=-Returns
      (Toggled c.handle (has_notify (ccc_of s.conn c.handle)) (has_notify (le_u16 value 0))
        s.conn.nn)
      (Kept w s) _ _
      (toggle-Toggled _ _ c.handle _ (has_notify (le_u16 value 0)) s.conn.nn p
        (b.notifies c.handle))
      (λ nn t. ccc_indicate-Kept c (le_u16 value 0) w s nn q b t))

-- The number of queued bytes.
abbrev pub total : List PreparedWrite → ℕ
total [] = 0
total (p ∷ ps) = length p.value + total ps

-- The attribute of a queued part is there and takes the part's value.
abbrev pub Ready : Db → PreparedWrite → Type 0
Ready db p =
    (a : Attr) × (f : Handler) × (get_elem? db.attrs p.a ≡ some a)
    × (a.wh ≡ some f)
    × SafeWrite f p.value

-- The server between two requests.
pub record Inv (s : Server) : Type 0 where
  pub mtu_low : 23 ≤ s.tx_len
  pub mtu_high : s.tx_len ≤ max_mtu
  pub numbered : Numbered s.db.base s.db.attrs
  pub entries : length s.prepared ≤ max_prepared_writes
  pub counted : s.prepared_bytes ≡ total s.prepared
  pub bounded : s.prepared_bytes ≤ max_prepared_write_bytes
  pub ready : All (Ready s.db) s.prepared
  pub subscribed : Subscribed s.conn

pub Inv-Same : (s s' : Server) → Inv s → Same s s' → Subscribed s'.conn → Inv s'
Inv-Same s s' i k b = record {
  mtu_low = rw (k.tx_len) i.mtu_low;
  mtu_high = rw (k.tx_len) i.mtu_high;
  numbered = rw (k.db) i.numbered;
  entries = rw (k.prepared) i.entries;
  counted = rw (k.prepared, k.prepared_bytes) i.counted;
  bounded = rw (k.prepared_bytes) i.bounded;
  ready = rw (k.prepared, k.db) i.ready;
  subscribed = b;
}
