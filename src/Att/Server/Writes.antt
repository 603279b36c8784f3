-- ===== src/Att/Server/Writes.antt =====
-- linux/att/server.go: the handlers of the requests and commands that write, and the queue of
-- prepared writes.
use ble.Base.{
  ℕ, ◌+◌, true, false, not, ◌||◌, Option, none, some, List, [], ◌∷◌, ◌++◌, Go, ok, panic, ◌>>=◌,
  if_nil, length, drop, get_elem?, ltb, leb, ◌==◌, if◌then◌else◌,
}
use ble.Att.Pdu.{
  write_response_code, prepare_write_response_code, execute_write_response_code, err_success,
  err_invalid_handle, err_invalid_pdu, err_write_not_perm, err_prep_queue_full, attribute_handle,
  value_offset, part_attribute_value, execute_flags,
}
use ble.Att.Handler.{App, new_response_writer, set_status}
use ble.Att.Db.{at}
use ble.Att.Server.State.{Server, PreparedWrite}
use ble.Att.Server.Call.{handle_att, serve_write}
use ble.Att.Server.Reads.{Answer, reject}

abbrev pub max_prepared_write_bytes : ℕ
max_prepared_write_bytes = 512

abbrev pub max_prepared_writes : ℕ
max_prepared_writes = 64

-- The new entry goes to the end of the queue.
abbrev pub enqueue : Server → PreparedWrite → Server
enqueue s p = record s {
  prepared = s.prepared ++ (p ∷ []);
  prepared_bytes = s.prepared_bytes + length p.value;
}

unfoldable pub handle_prepare_write_request : Server → List ℕ → Go Answer
handle_prepare_write_request s r = if ltb (length r) 5 then reject r 0 err_invalid_pdu s else (do
  h ← attribute_handle r
  if_nil (at s.db h) (reject r h err_invalid_handle s) λ (i, a).
      if_nil a.wh (reject r h err_write_not_perm s) λ _. do
        value ← part_attribute_value r
        offset ← value_offset r
        if leb max_prepared_writes (length s.prepared)
              || ltb max_prepared_write_bytes (s.prepared_bytes + length value)
            then reject r h err_prep_queue_full s
            else ok (
              prepare_write_response_code ∷ drop 1 r,
              enqueue s (record { a = i; handle = h; offset = offset; value = value }),
            ))

unfoldable pub clear_prepared : Server → Server
clear_prepared s = record s { prepared = []; prepared_bytes = 0 }

module _ (app : App) where
  -- One call of ServeWrite by Execute Write, and the status that it leaves. A nil attribute or
  -- handler would be dereferenced.
  unfoldable pub write_run : PreparedWrite → List ℕ → Server → Go (ℕ × Server)
  write_run p bytes s = if_nil (get_elem? s.db.attrs p.a) panic λ a. if_nil a.wh panic λ f. do
    (w, s1) ← serve_write app f bytes p.offset (set_status (new_response_writer none) err_success) s
    ok (w.status, s1)

  -- The loop of Execute Write in one pass: `p` began the run at hand, whose parts so far are `bytes`
  -- and end at offset `end`. The result is the handle and status of a write that failed.
  unfoldable pub write_runs :
      PreparedWrite → List ℕ → ℕ → List PreparedWrite → Server → Go (Option (ℕ × ℕ) × Server)
  write_runs p bytes end [] s = do
    (e, s1) ← write_run p bytes s
    ok (if e == err_success then none else some (p.handle, e), s1)
  write_runs p bytes end (q ∷ qs) s = elim (not (q.a == p.a) || not (q.offset == end)) [
    | false ↦ write_runs p (bytes ++ q.value) (end + length q.value) qs s
    | true ↦ do
      (e, s1) ← write_run p bytes s
      elim (e == err_success) [
        | false ↦ ok (some (p.handle, e), s1)
        | true ↦ write_runs q q.value (q.offset + length q.value) qs s1
      ]
  ]

  unfoldable pub write_all : List PreparedWrite → Server → Go (Option (ℕ × ℕ) × Server)
  write_all [] s = ok (none, s)
  write_all (p ∷ ps) s = write_runs p p.value (p.offset + length p.value) ps s

  unfoldable pub handle_execute_write_request : Server → List ℕ → Go Answer
  handle_execute_write_request s r = if ltb (length r) 2 then reject r 0 err_invalid_pdu s else (do
    flags ← execute_flags r
    if flags == 0
        then ok (execute_write_response_code ∷ [], clear_prepared s)
        else if flags == 1
        then (do
          (failure, s1) ← write_all s.prepared s
          elim failure [
            | none ↦ ok (execute_write_response_code ∷ [], clear_prepared s1)
            | some (h, e) ↦ reject r h e (clear_prepared s1)
          ])
        else reject r 0 err_invalid_pdu s)

  unfoldable pub handle_write_request : Server → List ℕ → Go Answer
  handle_write_request s r = if ltb (length r) 3 then reject r 0 err_invalid_pdu s else (do
    h ← attribute_handle r
    if_nil (at s.db h) (reject r h err_invalid_handle s) λ (i, a). do
      (e, (w, s1)) ← handle_att app a s r (new_response_writer none)
      if not (e == err_success) then reject r h e s1 else ok (write_response_code ∷ [], s1))

  unfoldable pub handle_write_command : Server → List ℕ → Go Answer
  handle_write_command s r = if leb (length r) 3 then ok ([], s) else (do
    h ← attribute_handle r
    if_nil (at s.db h) (ok ([], s))
        λ (i, a). do (e, (w, s1)) ← handle_att app a s r (new_response_writer none); ok ([], s1))
