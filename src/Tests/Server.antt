-- ===== src/Tests/Server.antt =====
-- The ATT server and its database on a battery service.
use ble.Base.{
  ℕ, ◌+◌, ◌≤◌, ◌<◌, true, false, none, some, List, [], ◌∷◌, ok, panic, Returns, length, ◌≡◌, refl,
  arith, ◌⊎◌,
}
use ble.Att.Handler.{
  App, writes, finish, Fits, run, run-Fits, cap, empty_buffer, new_response_writer,
}
use ble.Att.Db.{Attr, Db, Cccd, custom, cccd, at, subrange}
use ble.Att.Db.Lookup.{Numbered, subrange-in_range, at_lem}
use ble.Att.Generate.{new_db, has_handler}
use ble.Att.Generate.Layout.{db_size, Grouped, new_db-Grouped}
use ble.Att.Server.State.{Server, ccc_write}
use ble.Att.Server.Call.{handle_att}
use ble.Att.Server.Calls.{Handled, handle_att-Kept}
use ble.Att.Server.Dispatch.{handle_request}
use ble.Att.Server.Inv.{Inv, Subscribed, Kept, ccc_write-Kept}
use ble.Att.Server.Answers.{AnswerOk}
use ble.Att.Server.Total.{handle_request-AnswerOk}
use ble.Att.Server.Session.{new_server, SafeAll, loop, Answered, loop-new_server}
use ble.Att.Server.ShortWrite.{short_write-panic}
use ble.Profile.{Service, Characteristic, new_characteristic, handle_read, handle_notify}
use ble.Profile.Flags.{notifies, reads, build, apply, build-Flagged, Flagged}

-- Every handler answers with one byte.
abbrev app : App
app = λ calls. writes (42 ∷ []) (λ n e. finish)

abbrev battery_cccd : Cccd
battery_cccd = record {
  handle = 2;
  property = 18;
  has_notify_handler = true;
  has_indicate_handler = false;
}

abbrev attr1 : Attr
attr1 = record {
  h = 1;
  endh = 65535;
  typ = 0 ∷ 40 ∷ [];
  v = some (15 ∷ 24 ∷ []);
  rh = none;
  wh = none;
}

abbrev attr2 : Attr
attr2 = record {
  h = 2;
  endh = 4;
  typ = 3 ∷ 40 ∷ [];
  v = some (18 ∷ 3 ∷ 0 ∷ 25 ∷ 42 ∷ []);
  rh = none;
  wh = none;
}

abbrev attr3 : Attr
attr3 = record { h = 3; endh = 0; typ = 25 ∷ 42 ∷ []; v = none; rh = some (custom 7); wh = none }

abbrev attr4 : Attr
attr4 = record {
  h = 4;
  endh = 0;
  typ = 2 ∷ 41 ∷ [];
  v = none;
  rh = some (cccd battery_cccd);
  wh = some (cccd battery_cccd);
}

abbrev db : Db
db = record { attrs = attr1 ∷ attr2 ∷ attr3 ∷ attr4 ∷ []; base = 1 }

abbrev server : Server
server = record {
  conn = record { tx_mtu = 23; cccs = []; nn = []; ind = [] };
  db = db;
  rx_mtu = 100;
  tx_len = 23;
  not_len = 23;
  ind_len = 23;
  prepared = [];
  prepared_bytes = 0;
  calls = [];
}

server-Subscribed : Subscribed server.conn
server-Subscribed = record { notifies = λ h e. cc; indicates = λ h e. cc }

server-Inv : Inv server
server-Inv = record {
  mtu_low = omega arith;
  mtu_high = omega arith;
  numbered = (refl, (refl, (refl, (refl, tt))));
  entries = omega arith;
  counted = refl;
  bounded = omega arith;
  ready = tt;
  subscribed = server-Subscribed;
}

-- A read of the battery level calls the application.
abbrev read_level : List ℕ
read_level = 0x0a ∷ 3 ∷ 0 ∷ []

handle_request-AnswerOk_example :
    Returns (AnswerOk 23 read_level) (handle_request app server read_level)
handle_request-AnswerOk_example =
    handle_request-AnswerOk app server read_level server-Inv (omega arith)
      (λ i a f d w. ((λ e. cc), (λ e. cc)))

ccc_write-Kept_example :
    Returns
      (Kept (new_response_writer none) server)
      (ccc_write battery_cccd (1 ∷ 0 ∷ []) (new_response_writer none) server)
ccc_write-Kept_example =
    ccc_write-Kept battery_cccd (1 ∷ 0 ∷ []) (new_response_writer none) server
      (omega arith, (λ e. refl), (λ e. cc)) server-Subscribed

handle_att-Kept_example :
    Returns
      (Handled app (new_response_writer (empty_buffer 22)) server)
      (handle_att app attr3 server read_level (new_response_writer (empty_buffer 22)))
handle_att-Kept_example =
    handle_att-Kept app attr3 server read_level (new_response_writer (empty_buffer 22))
      (omega arith, (λ e. cc), (λ e. cc)) (omega arith) server-Subscribed

run-Fits_example :
    Fits (run (writes (1 ∷ 2 ∷ []) (λ n e. finish)) (new_response_writer (empty_buffer 1)))
    × (cap (run (writes (1 ∷ 2 ∷ []) (λ n e. finish)) (new_response_writer (empty_buffer 1))) ≡ 1)
run-Fits_example =
    run-Fits (writes (1 ∷ 2 ∷ []) (λ n e. finish)) (new_response_writer (empty_buffer 1))
      (omega arith)

subrange-in_range_example : subrange db 2 3 ≡ ok (attr2 ∷ attr3 ∷ [])
subrange-in_range_example =
    subrange-in_range db 2 3 (refl, (refl, (refl, (refl, tt)))) (omega arith)

at_lem_example :
    ((1 ≤ 3) × (3 < 5) × ((a : Attr) × (at db 3 ≡ some (2, a)) × (a.h ≡ 3)))
    ⊎ (((3 < 1) ⊎ (5 ≤ 3)) × (at db 3 ≡ none))
at_lem_example = at_lem db 3 (refl, (refl, (refl, (refl, tt))))

at_four : at db 4 ≡ some (3, attr4)
unfolding at
at_four = refl

short_write-panic_example : handle_request app server (0x12 ∷ 4 ∷ 0 ∷ 1 ∷ []) ≡ panic
short_write-panic_example =
    short_write-panic app server 4 0 3 (1 ∷ []) attr4 battery_cccd at_four refl (omega arith)

-- The services that the database above comes from.
abbrev level : Characteristic
level = record {
  uuid = 25 ∷ 42 ∷ [];
  property = 18;
  secure = 0;
  descriptors = [];
  cccd = none;
  value = none;
  read_handler = some (custom 7);
  write_handler = none;
  notify_handler = some 9;
  indicate_handler = none;
  handle = 0;
  value_handle = 0;
  end_handle = 0;
}

abbrev services : List Service
services =
    record { uuid = 15 ∷ 24 ∷ []; characteristics = level ∷ []; handle = 0; end_handle = 0 } ∷ []

new_db_example : (new_db services 1).0 ≡ db
unfolding new_db
new_db_example = refl

services-fit : 1 + db_size services < 65536
unfolding has_handler
services-fit = omega arith

new_db-Grouped_example :
    ((new_db services 1).0.base ≡ 1)
    × (length (new_db services 1).0.attrs ≡ db_size services)
    × Numbered 1 (new_db services 1).0.attrs
    × Grouped services 1 (new_db services 1).0.attrs
new_db-Grouped_example = new_db-Grouped services 1 (omega arith) services-fit

level-build :
    build (reads (custom 7) ∷ notifies 9 ∷ []) (new_characteristic (25 ∷ 42 ∷ [])) ≡ ok level
unfolding build apply handle_read new_characteristic handle_notify
level-build = refl

build-Flagged_example : Flagged level
build-Flagged_example =
    build-Flagged (25 ∷ 42 ∷ []) (reads (custom 7) ∷ notifies 9 ∷ []) level level-build

-- A session of two requests: the MTU is set, and the level is read.
abbrev requests : List (List ℕ)
requests = (0x02 ∷ 100 ∷ 0 ∷ []) ∷ read_level ∷ []

abbrev started : Server
started = record {
  conn = record { tx_mtu = 23; cccs = []; nn = []; ind = [] };
  db = (new_db services 1).0;
  rx_mtu = 100;
  tx_len = 23;
  not_len = 23;
  ind_len = 23;
  prepared = [];
  prepared_bytes = 0;
  calls = [];
}

new_server_example : new_server (new_db services 1).0 100 23 ≡ some started
unfolding new_server
new_server_example = refl

requests-SafeAll : SafeAll app started requests
requests-SafeAll = (
  omega arith,
  (λ i a f d w. ((λ e. cc), (λ e. cc))),
  (λ a e. (omega arith, (λ i b f d w. ((λ c. cc), (λ c. cc))), (λ b c. tt))),
)

loop-new_server_example : Returns (Answered app started requests) (loop app started requests)
loop-new_server_example =
    loop-new_server app services 1 100 23 started requests (omega arith) services-fit
      new_server_example requests-SafeAll
