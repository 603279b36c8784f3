-- ===== src/Tests/Client.antt =====
-- A client's long read of a value of fifty bytes over an MTU of 23.
use ble.Base.{ℕ, ◌≤◌, none, some, List, [], ◌∷◌, ok, done, ◌≡◌, refl, arith}
use ble.Att.Handler.{App, finish}
use ble.Att.Db.{Attr, at}
use ble.Att.Server.State.{Server}
use ble.Att.Server.Dispatch.{handle_request}
use ble.Att.Server.Reads.{adopt_mtu}
use ble.Att.Client.Exchange.{exchange_mtu-read_long}
use ble.Att.Client.{Link, negotiated, adopt_link, exchange_mtu, response, read_long_characteristic}
use ble.Att.Client.LongRead.{read_long-static}

abbrev app : App
app = λ calls. finish

abbrev long_value : List ℕ
long_value =
    1 ∷ 2 ∷ 3 ∷ 4 ∷ 5 ∷ 6 ∷ 7 ∷ 8 ∷ 9 ∷ 10 ∷ 11 ∷ 12 ∷ 13 ∷ 14 ∷ 15 ∷ 16 ∷ 17 ∷ 18 ∷ 19 ∷ 20 ∷ 21
    ∷ 22 ∷ 23 ∷ 24 ∷ 25 ∷ 26 ∷ 27 ∷ 28 ∷ 29 ∷ 30 ∷ 31 ∷ 32 ∷ 33 ∷ 34 ∷ 35 ∷ 36 ∷ 37 ∷ 38 ∷ 39 ∷ 40
    ∷ 41 ∷ 42 ∷ 43 ∷ 44 ∷ 45 ∷ 46 ∷ 47 ∷ 48 ∷ 49 ∷ 50 ∷ []

abbrev long_attr : Attr
long_attr = record { h = 7; endh = 0; typ = 0 ∷ 42 ∷ []; v = some long_value; rh = none; wh = none }

abbrev server : Server
server = record {
  conn = record { tx_mtu = 23; cccs = []; nn = []; ind = [] };
  db = record { attrs = long_attr ∷ []; base = 7 };
  rx_mtu = 25;
  tx_len = 23;
  not_len = 23;
  ind_len = 23;
  prepared = [];
  prepared_bytes = 0;
  calls = [];
}

at_seven : at server.db 7 ≡ some (0, long_attr)
unfolding at
at_seven = refl

read_long-static_example :
    read_long_characteristic (handle_request app) 60 20 7 server
    ≡ ok (done (response long_value, server))
read_long-static_example =
    read_long-static app server 7 0 long_attr long_value (omega arith) (omega arith) at_seven refl
      20 (omega arith) (omega arith) (omega arith) 60 (omega arith)

-- The client asks for 30 bytes, the server can receive 25, and sends parts of 29.
abbrev link : Link
link = record { tx_mtu = 23; rx_mtu = 23; tx_buf = 23 }

exchange_mtu-read_long_example :
    (exchange_mtu (handle_request app) 30 link server
      ≡ ok (negotiated 25, (adopt_link link 25 30, adopt_mtu server 30)))
    × ((adopt_link link 25 30).tx_mtu ≡ 25)
    × ((adopt_link link 25 30).tx_mtu ≤ (adopt_mtu server 30).tx_len)
    × (read_long_characteristic
          (handle_request app)
          60
          (adopt_link link 25 30).tx_mtu
          7
          (adopt_mtu server 30)
        ≡ ok (done (response long_value, adopt_mtu server 30)))
exchange_mtu-read_long_example =
    exchange_mtu-read_long app server 30 (omega arith) (omega arith) (omega arith) link refl
      (omega arith) (omega arith) (omega arith) 7 0 long_attr long_value (omega arith) at_seven refl
      (omega arith) 60 (omega arith)
