-- ===== src/Att/Pdu.antt =====
-- linux/att/att_gen.go and error.go: the opcodes, the fields of the request PDUs, error codes.
-- A PDU is a byte slice; its field accessors panic where the slice is too short.
use ble.Base.{ℕ, List, [], ◌∷◌, ◌++◌, Go, u8_at, u16_at, slice_from, le16}

abbrev pub error_response_code : ℕ
error_response_code = 0x01

abbrev pub exchange_mtu_request_code : ℕ
exchange_mtu_request_code = 0x02

abbrev pub exchange_mtu_response_code : ℕ
exchange_mtu_response_code = 0x03

abbrev pub find_information_request_code : ℕ
find_information_request_code = 0x04

abbrev pub find_information_response_code : ℕ
find_information_response_code = 0x05

abbrev pub find_by_type_value_request_code : ℕ
find_by_type_value_request_code = 0x06

abbrev pub find_by_type_value_response_code : ℕ
find_by_type_value_response_code = 0x07

abbrev pub read_by_type_request_code : ℕ
read_by_type_request_code = 0x08

abbrev pub read_by_type_response_code : ℕ
read_by_type_response_code = 0x09

abbrev pub read_request_code : ℕ
read_request_code = 0x0a

abbrev pub read_response_code : ℕ
read_response_code = 0x0b

abbrev pub read_blob_request_code : ℕ
read_blob_request_code = 0x0c

abbrev pub read_blob_response_code : ℕ
read_blob_response_code = 0x0d

abbrev pub read_multiple_request_code : ℕ
read_multiple_request_code = 0x0e

abbrev pub read_multiple_response_code : ℕ
read_multiple_response_code = 0x0f

abbrev pub read_by_group_type_request_code : ℕ
read_by_group_type_request_code = 0x10

abbrev pub read_by_group_type_response_code : ℕ
read_by_group_type_response_code = 0x11

abbrev pub write_request_code : ℕ
write_request_code = 0x12

abbrev pub write_response_code : ℕ
write_response_code = 0x13

abbrev pub write_command_code : ℕ
write_command_code = 0x52

abbrev pub signed_write_command_code : ℕ
signed_write_command_code = 0xd2

abbrev pub prepare_write_request_code : ℕ
prepare_write_request_code = 0x16

abbrev pub prepare_write_response_code : ℕ
prepare_write_response_code = 0x17

abbrev pub execute_write_request_code : ℕ
execute_write_request_code = 0x18

abbrev pub execute_write_response_code : ℕ
execute_write_response_code = 0x19

abbrev pub handle_value_notification_code : ℕ
handle_value_notification_code = 0x1b

abbrev pub handle_value_indication_code : ℕ
handle_value_indication_code = 0x1d

abbrev pub handle_value_confirmation_code : ℕ
handle_value_confirmation_code = 0x1e

-- ATTError
abbrev pub err_success : ℕ
err_success = 0x00

abbrev pub err_invalid_handle : ℕ
err_invalid_handle = 0x01

abbrev pub err_read_not_perm : ℕ
err_read_not_perm = 0x02

abbrev pub err_write_not_perm : ℕ
err_write_not_perm = 0x03

abbrev pub err_invalid_pdu : ℕ
err_invalid_pdu = 0x04

abbrev pub err_req_not_supp : ℕ
err_req_not_supp = 0x06

abbrev pub err_invalid_offset : ℕ
err_invalid_offset = 0x07

abbrev pub err_prep_queue_full : ℕ
err_prep_queue_full = 0x09

abbrev pub err_attr_not_found : ℕ
err_attr_not_found = 0x0a

abbrev pub err_unlikely : ℕ
err_unlikely = 0x0e

-- AttributeOpcode of every PDU.
abbrev pub attribute_opcode : List ℕ → Go ℕ
attribute_opcode r = u8_at r 0

-- ClientRxMTU
abbrev pub client_rx_mtu : List ℕ → Go ℕ
client_rx_mtu r = u16_at r 1

-- StartingHandle and EndingHandle of the requests on a range of handles.
abbrev pub starting_handle : List ℕ → Go ℕ
starting_handle r = u16_at r 1

abbrev pub ending_handle : List ℕ → Go ℕ
ending_handle r = u16_at r 3

-- AttributeType of a Find By Type Value Request.
abbrev pub attribute_type16 : List ℕ → Go ℕ
attribute_type16 r = u16_at r 5

-- AttributeValue of a Find By Type Value Request.
abbrev pub find_value : List ℕ → Go (List ℕ)
find_value r = slice_from r 7

-- AttributeType and AttributeGroupType of the Read By (Group) Type Requests.
abbrev pub attribute_type : List ℕ → Go (List ℕ)
attribute_type r = slice_from r 5

-- AttributeHandle of the requests on one attribute.
abbrev pub attribute_handle : List ℕ → Go ℕ
attribute_handle r = u16_at r 1

-- ValueOffset of the Read Blob and the Prepare Write Request.
abbrev pub value_offset : List ℕ → Go ℕ
value_offset r = u16_at r 3

-- AttributeValue of a Write Request.
abbrev pub attribute_value : List ℕ → Go (List ℕ)
attribute_value r = slice_from r 3

-- PartAttributeValue of a Prepare Write Request.
abbrev pub part_attribute_value : List ℕ → Go (List ℕ)
part_attribute_value r = slice_from r 5

-- Flags of an Execute Write Request.
abbrev pub execute_flags : List ℕ → Go ℕ
execute_flags r = u8_at r 1

-- newErrorResponse
abbrev pub error_response : ℕ → ℕ → ℕ → List ℕ
error_response op h s = error_response_code ∷ op ∷ (le16 h ++ s ∷ [])
