-- ===== src/Att/Server/Call.antt =====
-- handleATT of linux/att/server.go: how a request reaches the handlers of an attribute.
use ble.Base.{
  ℕ, Bool, true, false, ◌||◌, Option, none, some, List, [], ◌∷◌, Go, ok, ◌>>=◌, ◌==◌, if◌then◌else◌,
}
use ble.Att.Pdu.{
  find_by_type_value_request_code, read_by_group_type_request_code, read_by_type_request_code,
  read_request_code, read_blob_request_code, write_request_code, write_command_code, err_success,
  err_read_not_perm, err_write_not_perm, err_req_not_supp, attribute_opcode, value_offset,
  attribute_value,
}
use ble.Att.Handler.{Writer, App, set_status, run}
use ble.Att.Db.{Attr, Handler, custom, cccd}
use ble.Att.Server.State.{Server, ccc_read, ccc_write}

-- What a handler leaves: its response writer, and the server that it may have changed.
abbrev pub Served : Type 0
Served = Writer × Server

-- The opcodes that handleATT serves by a read at offset 0.
abbrev pub reads_whole : ℕ → Bool
reads_whole op =
    op == find_by_type_value_request_code
    || op == read_by_group_type_request_code
    || op == read_by_type_request_code
    || op == read_request_code

module _ (app : App) where
  -- The application's answer to one more call.
  unfoldable pub serve_custom : ℕ → Bool → List ℕ → ℕ → Writer → Server → Served
  serve_custom k is_write bytes offset w s =
      let calls =
        record { handler = k; is_write = is_write; bytes = bytes; offset = offset } ∷ s.calls in
      (run (app calls) w, record s { calls = calls })

  -- ServeRead
  unfoldable pub serve_read : Handler → ℕ → Writer → Server → Go Served
  unfolding serve_custom
  serve_read (custom k) offset w s = ok (serve_custom k false [] offset w s)
  serve_read (cccd c) offset w s = ok (ccc_read c w s, s)

  -- ServeWrite
  unfoldable pub serve_write : Handler → List ℕ → ℕ → Writer → Server → Go Served
  unfolding serve_custom
  serve_write (custom k) bytes offset w s = ok (serve_custom k true bytes offset w s)
  serve_write (cccd c) bytes offset w s = ccc_write c bytes w s

  -- The branches of handleATT, each on the handler that it needs.
  abbrev pub read_with : Option Handler → ℕ → Writer → Server → Go (ℕ × Served)
  read_with none offset w s = ok (err_read_not_perm, (w, s))
  read_with (some f) offset w s = do (w1, s1) ← serve_read f offset w s; ok (w1.status, (w1, s1))

  abbrev pub read_blob_with : Option Handler → List ℕ → Writer → Server → Go (ℕ × Served)
  read_blob_with none req w s = ok (err_read_not_perm, (w, s))
  read_blob_with (some f) req w s = do offset ← value_offset req; read_with (some f) offset w s

  abbrev pub write_with : Option Handler → List ℕ → Writer → Server → Go (ℕ × Served)
  write_with none req w s = ok (err_write_not_perm, (w, s))
  write_with (some f) req w s = do
    value ← attribute_value req
    (w1, s1) ← serve_write f value 0 w s
    ok (w1.status, (w1, s1))

  unfoldable pub handle_att : Attr → Server → List ℕ → Writer → Go (ℕ × Served)
  handle_att a s req w' = do
    let w = set_status w' err_success
    op ← attribute_opcode req
    if reads_whole op
        then read_with a.rh 0 w s
        else if op == read_blob_request_code
        then read_blob_with a.rh req w s
        else if op == write_request_code || op == write_command_code
        then write_with a.wh req w s
        else ok (err_req_not_supp, (w, s))
