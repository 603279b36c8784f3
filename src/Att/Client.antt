-- ===== src/Att/Client.antt =====
-- roundTrip, the reads and the MTU exchange of linux/att/client.go, and the long read of
-- linux/gatt/client.go. What sendReq gets back is a parameter: the response of `peer` to the request.
-- The txBuf of a read, of which the request takes up to five bytes, is left out.
pub mod LongRead
pub mod Exchange
pub mod Bearer
pub mod Requests
pub mod Inbox
use ble.Base.{
  ℕ, zero, suc, ◌+◌, ◌-◌, ◌%◌, Bool, not, ◌&&◌, ◌||◌, List, [], ◌∷◌, ◌++◌, Go, ok, ◌>>=◌, Loop,
  done, out_of_fuel, length, le16, ltb, leb, ◌==◌, if◌then◌else◌, u8_at, u16_at, min, panic,
  slice_from, get_or,
}
use ble.Att.Pdu.{
  error_response_code, exchange_mtu_request_code, read_request_code, read_response_code,
  read_blob_request_code, read_blob_response_code,
}
use ble.Att.Server.Reads.{default_mtu, max_mtu}

-- ble.ATTError of a code, ErrInvalidResponse, ErrInvalidArgument, and an error around ErrInvalidMTU.
pub data ClientError : Type 0 where
  att_error : ℕ → ClientError
  invalid_response : ClientError
  invalid_argument : ClientError
  invalid_mtu : ClientError

-- What a request returns: a response, or its error.
pub data Reply : Type 0 where
  response : List ℕ → Reply
  failed : ClientError → Reply

-- The validation in roundTrip.
unfoldable pub validate : ℕ → ℕ → List ℕ → Go Reply
validate want_rsp min_len rsp = u8_at rsp 0 >>= λ op.
    if op == error_response_code && length rsp == 5
    then ok (failed (att_error (get_or rsp 4 0)))
    else if op == error_response_code || not (op == want_rsp) || ltb (length rsp) min_len
    then ok (failed invalid_response)
    else ok (response rsp)

-- AttributeValue and PartAttributeValue, the bytes behind the opcode of a response.
unfoldable pub value_of : Reply → Go Reply
value_of (failed e) = ok (failed e)
value_of (response rsp) = slice_from rsp 1 >>= λ v. ok (response v)

-- What ExchangeMTU uses of the client and its connection: the MTUs, and the length of the txBuf.
pub record Link : Type 0 where
  pub tx_mtu : ℕ
  pub rx_mtu : ℕ
  pub tx_buf : ℕ

pub data Exchanged : Type 0 where
  negotiated : ℕ → Exchanged
  rejected : ClientError → Exchanged

-- The validation in ExchangeMTU. Its test of the opcode compares rsp[0] with AttributeOpcode, which reads
-- the same byte.
unfoldable pub validate_mtu : List ℕ → Go Reply
validate_mtu rsp = u8_at rsp 0 >>= λ op.
    if op == error_response_code && length rsp == 5
    then ok (failed (att_error (get_or rsp 4 0)))
    else if op == error_response_code || not (op == op) || not (length rsp == 3)
    then ok (failed invalid_response)
    else ok (response rsp)

-- What a successful exchange changes: SetRxMTU, and a new txBuf with SetTxMTU where its length changes.
unfoldable pub adopt_link : Link → ℕ → ℕ → Link
adopt_link c tx rx =
    if c.tx_buf == tx
    then record c { rx_mtu = rx }
    else record { tx_mtu = tx; rx_mtu = rx; tx_buf = tx }

module _ {S : Type 0} (peer : S → List ℕ → Go (List ℕ × S)) where
  -- roundTrip
  unfoldable pub round_trip : ℕ → ℕ → List ℕ → S → Go (Reply × S)
  unfolding validate
  round_trip want_rsp min_len req s =
      peer s req >>= λ a. validate want_rsp min_len a.0 >>= λ r. ok (r, a.1)

  -- Read
  unfoldable pub read : ℕ → S → Go (Reply × S)
  unfolding round_trip value_of
  read handle s = round_trip read_response_code 1 (read_request_code ∷ le16 handle) s >>= λ a.
      value_of a.0 >>= λ v. ok (v, a.1)

  -- ReadBlob
  unfoldable pub read_blob : ℕ → ℕ → S → Go (Reply × S)
  unfolding round_trip value_of
  read_blob handle offset s =
      round_trip read_blob_response_code 1 (read_blob_request_code ∷ le16 handle ++ le16 offset) s
      >>= λ a. value_of a.0 >>= λ v. ok (v, a.1)

  -- The loop of ReadLongCharacteristic, behind a read of `last` bytes.
  unfoldable pub read_long_loop : ℕ → ℕ → ℕ → ℕ → List ℕ → S → Go (Loop (Reply × S))
  unfolding read_blob
  read_long_loop zero tx_mtu handle last buffer s = ok out_of_fuel
  read_long_loop (suc fuel) tx_mtu handle last buffer s =
      let next : Reply × S → Go (Loop (Reply × S)) = λ a. elim a.0 [
        | failed e ↦ ok (done (failed e, a.1))
        | response v ↦ read_long_loop fuel tx_mtu handle (length v) (buffer ++ v) a.1
      ] in
      if leb (tx_mtu - 1) last
      then read_blob handle (length buffer % 65536) s >>= next
      else ok (done (response buffer, s))

  -- ReadLongCharacteristic of the characteristic with this value handle.
  unfoldable pub read_long_characteristic : ℕ → ℕ → ℕ → S → Go (Loop (Reply × S))
  unfolding read read_long_loop
  read_long_characteristic fuel tx_mtu handle s =
      let next : Reply × S → Go (Loop (Reply × S)) = λ a. elim a.0 [
        | failed e ↦ ok (done (failed e, a.1))
        | response v ↦ read_long_loop fuel tx_mtu handle (length v) v a.1
      ] in
      read handle s >>= next

  -- ExchangeMTU behind the validation of its response.
  unfoldable pub settle_mtu : ℕ → Link → S → Reply → Go (Exchanged × (Link × S))
  unfolding adopt_link
  settle_mtu client c s (failed e) = ok (rejected e, (c, s))
  settle_mtu client c s (response rsp) = u16_at rsp 1 >>= λ server.
      if ltb server default_mtu
      then ok (rejected invalid_mtu, (c, s))
      else ok (negotiated (min server client), (adopt_link c (min server client) client, s))

  -- ExchangeMTU
  unfoldable pub exchange_mtu : ℕ → Link → S → Go (Exchanged × (Link × S))
  unfolding validate_mtu settle_mtu
  exchange_mtu client c s =
      if ltb client default_mtu || ltb max_mtu client
      then ok (rejected invalid_argument, (c, s))
      else if ltb c.tx_buf 3
      then panic
      else peer s (exchange_mtu_request_code ∷ le16 client) >>= λ a.
          validate_mtu a.0 >>= settle_mtu client c a.1
