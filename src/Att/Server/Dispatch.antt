-- ===== src/Att/Server/Dispatch.antt =====
-- handleRequest of linux/att/server.go: the request PDU goes to the handler of its opcode.
use ble.Base.{ℕ, List, Go, ok, ◌>>=◌, u8_at, ◌==◌, if◌then◌else◌}
use ble.Att.Pdu.{
  exchange_mtu_request_code, find_information_request_code, find_by_type_value_request_code,
  read_by_type_request_code, read_request_code, read_blob_request_code,
  read_by_group_type_request_code, write_request_code, write_command_code,
  prepare_write_request_code, execute_write_request_code, err_req_not_supp, error_response,
}
use ble.Att.Handler.{App}
use ble.Att.Server.State.{Server}
use ble.Att.Server.Reads.{
  Answer, handle_exchange_mtu_request, handle_find_information_request,
  handle_find_by_type_value_request, handle_read_by_type_request, handle_read_by_group_request,
  handle_read_request, handle_read_blob_request,
}
use ble.Att.Server.Writes.{
  handle_prepare_write_request, handle_execute_write_request, handle_write_request,
  handle_write_command,
}

module _ (app : App) where
  unfoldable pub handle_request : Server → List ℕ → Go Answer
  handle_request s b = do
    op ← u8_at b 0
    if op == exchange_mtu_request_code
        then handle_exchange_mtu_request s b
        else if op == find_information_request_code
        then handle_find_information_request s b
        else if op == find_by_type_value_request_code
        then handle_find_by_type_value_request app s b
        else if op == read_by_type_request_code
        then handle_read_by_type_request app s b
        else if op == read_request_code
        then handle_read_request app s b
        else if op == read_blob_request_code
        then handle_read_blob_request app s b
        else if op == read_by_group_type_request_code
        then handle_read_by_group_request app s b
        else if op == write_request_code
        then handle_write_request app s b
        else if op == write_command_code
        then handle_write_command app s b
        else if op == prepare_write_request_code
        then handle_prepare_write_request s b
        else if op == execute_write_request_code
        then handle_execute_write_request app s b
        else ok (error_response op 0 err_req_not_supp, s)
