-- ===== src/Att/Client/Requests.antt =====
-- linux/att/client.go: the requests and commands beside Read and ReadBlob. The txBuf that a call gets has a
-- length of its own, since the TxMTU that the call looked at before may have changed by then. Commands
-- return what they hand to sendCmd. The checks against TxMTU() less a number of bytes are written with
-- that number on the other side, since the difference may be negative.
pub mod Robust
pub mod Signed
use ble.Base.{
  ℕ, ◌+◌, ◌-◌, ◌*◌, ◌%◌, not, ◌&&◌, ◌||◌, List, [], ◌∷◌, ◌++◌, Go, ok, ◌>>=◌, length, le16, ltb,
  ◌==◌, if◌then◌else◌, u8_at, u16_at, slice_from, slice_to, put, take, drop,
}
use ble.Att.Pdu.{
  find_information_request_code, find_information_response_code, read_by_type_request_code,
  read_by_type_response_code, read_multiple_request_code, read_multiple_response_code,
  read_by_group_type_request_code, read_by_group_type_response_code, write_request_code,
  write_response_code, write_command_code, signed_write_command_code, prepare_write_request_code,
  prepare_write_response_code, execute_write_request_code, execute_write_response_code,
}
use ble.Att.Client.{
  ClientError, invalid_response, invalid_argument, Reply, response, failed, round_trip,
}

-- What a call returns: nothing, bytes, a list of entries of a size (for FindInformation of a format), the
-- parts of a Prepare Write Response, or an error.
pub data Value : Type 0 where
  nothing : Value
  bytes : List ℕ → Value
  entries : ℕ → List ℕ → Value
  part : ℕ → ℕ → List ℕ → Value
  error : ClientError → Value

-- The lengths of the client's l2c.TxMTU and of the txBuf.
pub record Room : Type 0 where
  pub tx_mtu : ℕ
  pub tx_buf : ℕ

-- The code behind roundTrip, which returns its error.
abbrev pub judge : Reply → (List ℕ → Go Value) → Go Value
judge (failed e) k = ok (error e)
judge (response rsp) k = k rsp

-- The checks of FindInformation, and of ReadByType and ReadByGroupType.
unfoldable pub information : List ℕ → Go Value
information rsp = u8_at rsp 1 >>= λ format.
    if (format == 1 && (length rsp - 2) % 4 == 0) || (format == 2 && (length rsp - 2) % 18 == 0)
    then (slice_from rsp 2 >>= λ ds. ok (entries format ds))
    else ok (error invalid_response)

unfoldable pub data_list : List ℕ → Go Value
data_list rsp = u8_at rsp 1 >>= λ size. slice_from rsp 2 >>= λ ds.
    if ltb size 1 || not (length ds % size == 0)
    then ok (error invalid_response)
    else ok (entries size ds)

unfoldable pub prepared_part : List ℕ → Go Value
prepared_part rsp = u16_at rsp 1 >>= λ handle.
    u16_at rsp 3 >>= λ offset. slice_from rsp 5 >>= λ ds. ok (part handle offset ds)

abbrev pub set_of_handles : List ℕ → List ℕ
set_of_handles [] = []
set_of_handles (h ∷ hs) = le16 h ++ set_of_handles hs

module _ {S : Type 0} (peer : S → List ℕ → Go (List ℕ × S)) where
  -- A request is laid out in txBuf, sent, and its response judged.
  unfoldable pub transact : ℕ → List ℕ → ℕ → ℕ → (List ℕ → Go Value) → S → Go (Value × S)
  transact tx_buf pdu want_rsp min_len check s = put tx_buf [] pdu >>= λ req.
      round_trip peer want_rsp min_len req s >>= λ a. judge a.0 check >>= λ v. ok (v, a.1)

  unfoldable pub find_information : Room → ℕ → ℕ → S → Go (Value × S)
  unfolding transact information
  find_information c starth endh s =
      if starth == 0 || ltb endh starth
      then ok (error invalid_argument, s)
      else transact c.tx_buf (find_information_request_code ∷ le16 starth ++ le16 endh)
          find_information_response_code 6 information s

  unfoldable pub read_by_type : Room → ℕ → ℕ → List ℕ → S → Go (Value × S)
  unfolding transact data_list
  read_by_type c starth endh uuid s =
      if ltb endh starth || not (length uuid == 2) && not (length uuid == 16)
      then ok (error invalid_argument, s)
      else transact c.tx_buf (read_by_type_request_code ∷ le16 starth ++ (le16 endh ++ uuid))
          read_by_type_response_code 4 data_list s

  unfoldable pub read_by_group_type : Room → ℕ → ℕ → List ℕ → S → Go (Value × S)
  unfolding transact data_list
  read_by_group_type c starth endh uuid s =
      if ltb endh starth || not (length uuid == 2) && not (length uuid == 16)
      then ok (error invalid_argument, s)
      else transact c.tx_buf (read_by_group_type_request_code ∷ le16 starth ++ (le16 endh ++ uuid))
          read_by_group_type_response_code 4 data_list s

  unfoldable pub read_multiple : Room → List ℕ → S → Go (Value × S)
  unfolding transact
  read_multiple c handles s =
      if ltb (length handles) 2 || ltb c.tx_mtu (length handles * 2 + 1)
      then ok (error invalid_argument, s)
      else transact c.tx_buf (read_multiple_request_code ∷ set_of_handles handles)
          read_multiple_response_code 1 (λ rsp. slice_from rsp 1 >>= λ ds. ok (bytes ds)) s

  unfoldable pub write : Room → ℕ → List ℕ → S → Go (Value × S)
  unfolding transact
  write c handle value s =
      if ltb c.tx_mtu (length value + 3)
      then ok (error invalid_argument, s)
      else transact c.tx_buf (write_request_code ∷ le16 handle ++ value) write_response_code 0
          (λ rsp. ok nothing) s

  unfoldable pub prepare_write : Room → ℕ → ℕ → List ℕ → S → Go (Value × S)
  unfolding transact prepared_part
  prepare_write c handle offset value s =
      if ltb c.tx_mtu (length value + 5)
      then ok (error invalid_argument, s)
      else transact c.tx_buf (prepare_write_request_code ∷ le16 handle ++ (le16 offset ++ value))
          prepare_write_response_code 5 prepared_part s

  unfoldable pub execute_write : Room → ℕ → S → Go (Value × S)
  unfolding transact
  execute_write c flags s =
      transact c.tx_buf (execute_write_request_code ∷ flags ∷ []) execute_write_response_code 0
        (λ rsp. ok nothing) s

-- A command is handed to sendCmd, or refused.
pub data Command : Type 0 where
  command : List ℕ → Command
  bad_argument : Command

unfoldable pub write_command : Room → ℕ → List ℕ → Go Command
write_command c handle value =
    if ltb c.tx_mtu (length value + 3)
    then ok bad_argument
    else put c.tx_buf [] (write_command_code ∷ le16 handle ++ value) >>= λ req. ok (command req)

-- copy(r[i:], v)
unfoldable pub copy_at : ℕ → List ℕ → List ℕ → List ℕ
copy_at i v r = take i r ++ (take (length r - i) v ++ drop (i + length v) r)

-- SignedWrite over a txBuf that holds `buf`: each field is written where its setter writes it, the
-- signature at r[3:15].
unfoldable pub signed_write : ℕ → List ℕ → ℕ → List ℕ → List ℕ → Go Command
signed_write tx_mtu buf handle value signature =
    if ltb tx_mtu (length value + 15)
    then ok bad_argument
    else slice_to buf (15 + length value) >>= λ r. ok (
        command (
          copy_at 3 signature (
            copy_at 3 value
              (copy_at 1 (le16 handle) (copy_at 0 (signed_write_command_code ∷ []) r)))))
