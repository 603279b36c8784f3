-- ===== src/Att/Client/Exchange.antt =====
-- ExchangeMTU of the client against the modelled server, and a long read behind it.
use ble.Base.{
  ℕ, false, ◌≤◌, ◌<◌, min, some, List, [], ◌∷◌, ok, done, length, le16, u8_at, u16_at, put-ok, ltb,
  ◌≡◌, refl, ap, ◌∙◌, arith,
}
use ble.Att.Handler.{App}
use ble.Att.Db.{Attr, Db, at}
use ble.Att.Server.State.{Server}
use ble.Att.Server.Reads.{adopt_mtu, handle_exchange_mtu_request}
use ble.Att.Server.Dispatch.{handle_request}
use ble.Att.Client.{
  Link, response, negotiated, validate_mtu, adopt_link, exchange_mtu, read_long_characteristic,
}
use ble.Att.Client.LongRead.{read_long-static, le_u16-le16}

not_below : (a b : ℕ) → b ≤ a → ltb a b ≡ false
not_below a b h = ground arith

adopt_mtu-db : (s : Server) (n : ℕ) → (adopt_mtu s n).db ≡ s.db
unfolding adopt_mtu
adopt_mtu-db s n = ground arith

adopt_mtu-tx_len : (s : Server) (n : ℕ) → (adopt_mtu s n).tx_len ≡ n
unfolding adopt_mtu
adopt_mtu-tx_len s n = ground arith

adopt_link-tx_mtu : (c : Link) (tx rx : ℕ) → c.tx_buf ≡ c.tx_mtu → (adopt_link c tx rx).tx_mtu ≡ tx
unfolding adopt_link
adopt_link-tx_mtu c tx rx e = ground arith

module _ (app : App) (s : Server) (client : ℕ) (low : 23 ≤ client) (high : client ≤ 515)
    (room : 3 ≤ s.tx_len) where
  -- The client's side behind the exchange.
  abbrev agreed : Link → Link
  agreed c = adopt_link c (min s.rx_mtu client) client

  serves_exchange :
      handle_request app s (0x02 ∷ le16 client) ≡ ok (0x03 ∷ le16 s.rx_mtu, adopt_mtu s client)
  unfolding handle_request handle_exchange_mtu_request u8_at u16_at
  serves_exchange =
      rw
        (
          le_u16-le16 client (omega arith),
          put-ok s.tx_len [] (0x03 ∷ le16 s.rx_mtu) (omega arith),
          not_below client 23 low,
        )
        (ap (λ (n : ℕ). ok (0x03 ∷ le16 s.rx_mtu, adopt_mtu s n)) (omega arith))

  exchange :
      (c : Link)
      → 3 ≤ c.tx_buf
      → 23 ≤ s.rx_mtu
      → s.rx_mtu < 65536
      → exchange_mtu (handle_request app) client c s
        ≡ ok (
          negotiated (min s.rx_mtu client),
          (adopt_link c (min s.rx_mtu client) client, adopt_mtu s client),
        )
  unfolding exchange_mtu validate_mtu adopt_link u8_at u16_at
  exchange c b l h =
      rw
        (
          serves_exchange,
          le_u16-le16 s.rx_mtu h,
          not_below client 23 low,
          not_below 515 client high,
          not_below c.tx_buf 3 b,
          not_below s.rx_mtu 23 l,
        )
        refl

  -- ExchangeMTU with a client MTU from 23 to 515, of a client whose txBuf has the length of its TxMTU, succeeds
  -- against a server whose RxMTU is 23 or more; it leaves the client with a TxMTU, the smaller of the two, that
  -- is no larger than the server's responses; and a long read with it returns the whole of a static value that is
  -- shorter than 65536 bytes, with fuel over its length.
  pub exchange_mtu-read_long :
      (c : Link)
      → c.tx_buf ≡ c.tx_mtu
      → 3 ≤ c.tx_buf
      → 23 ≤ s.rx_mtu
      → s.rx_mtu < 65536
      → (h i : ℕ) (a : Attr) (v : List ℕ) → h < 65536
      → at s.db h ≡ some (i, a)
      → a.v ≡ some v
      → length v < 65536
      → (fuel : ℕ) → length v < fuel
      → (exchange_mtu (handle_request app) client c s
          ≡ ok (negotiated (min s.rx_mtu client), (agreed c, adopt_mtu s client)))
        × ((agreed c).tx_mtu ≡ min s.rx_mtu client)
        × ((agreed c).tx_mtu ≤ (adopt_mtu s client).tx_len)
        × (read_long_characteristic
              (handle_request app)
              fuel
              (agreed c).tx_mtu
              h
              (adopt_mtu s client)
            ≡ ok (done (response v, adopt_mtu s client)))
  exchange_mtu-read_long c e b l k h i a v hh found static short fuel f = (
    exchange c b l k,
    tx,
    omega (arith, tx, size),
    read_long-static app (adopt_mtu s client) h i a v hh (omega (arith, size))
        (ap (λ (d : Db). at d h) (adopt_mtu-db s client) ∙ found) static (agreed c).tx_mtu
        (omega (arith, tx)) (omega (arith, tx, size)) short fuel f,
  )
    where
      tx : (agreed c).tx_mtu ≡ min s.rx_mtu client
      tx = adopt_link-tx_mtu c (min s.rx_mtu client) client e

      size : (adopt_mtu s client).tx_len ≡ client
      size = adopt_mtu-tx_len s client
