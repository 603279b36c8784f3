-- ===== src/Att/Server/ShortWrite.antt =====
-- What the server does with a write to a CCC descriptor of fewer than two bytes.
use ble.Base.{
  ℕ, ◌+◌, ◌*◌, ◌<◌, none, some, List, ◌∷◌, panic, length, ◌≡◌, arith, u16_at, u8_at-ok, u16_at-ok,
  slice_from-ok,
}
use ble.Att.Handler.{App, Writer, set_status, new_response_writer}
use ble.Att.Db.{Attr, Cccd, cccd, at}
use ble.Att.Server.State.{Server, ccc_write}
use ble.Att.Server.Call.{serve_write, handle_att}
use ble.Att.Server.Writes.{handle_write_request}
use ble.Att.Server.Dispatch.{handle_request}

ccc_write-short :
    (c : Cccd) (value : List ℕ) (w : Writer) (s : Server)
    → length value < 2
    → ccc_write c value w s ≡ panic
unfolding ccc_write u16_at
ccc_write-short c value w s h = ground arith

-- A write request that gives a CCC descriptor fewer than two bytes makes handleRequest panic, in any
-- state of the server and whatever the application does.
pub short_write-panic :
    (app : App) (s : Server) (lo hi i : ℕ) (value : List ℕ) (a : Attr) (c : Cccd)
    → at s.db (lo + 256 * hi) ≡ some (i, a)
    → a.wh ≡ some (cccd c)
    → length value < 2
    → handle_request app s (0x12 ∷ lo ∷ hi ∷ value) ≡ panic
unfolding handle_request handle_write_request handle_att serve_write
short_write-panic app s lo hi i value a c e f h =
    let r : List ℕ = 0x12 ∷ lo ∷ hi ∷ value in
    rw
      (
        u8_at-ok r 0 (omega arith),
        u16_at-ok r 1 (omega arith),
        e,
        f,
        slice_from-ok r 3 (omega arith),
        ccc_write-short c value (set_status (new_response_writer none) 0) s h,
      )
      (ground arith)
