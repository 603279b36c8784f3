-- ===== src/Att/Server/ReadAnswers.antt =====
-- The handlers that read attributes end without a panic and answer their requests.
use ble.Base.{
  ℕ, suc, ◌-◌, ◌%◌, ◌≤◌, true, false, not, ◌||◌, List, [], ◌∷◌, ok, Returns, ◌>>=◌, >>=-Returns,
  if_nil-Returns, length-take, length, drop, get_or, ◌≡◌, refl, arith, le_u16, put, put-ok, copy,
  take, inl, inr, Bool-cases, le→leb, ltb, ◌==◌, if◌then◌else◌, u16_at-ok, slice_from-ok,
}
use ble.Att.Pdu.{
  write_request_code, write_command_code, find_by_type_value_request_code,
  read_by_type_request_code, read_request_code, read_blob_request_code,
  read_by_group_type_request_code, find_by_type_value_response_code, read_by_type_response_code,
  read_by_group_type_response_code, read_response_code, read_blob_response_code, err_success,
}
use ble.Att.Handler.{App, written, new_response_writer, empty_buffer}
use ble.Att.Db.{Attr, at}
use ble.Att.Db.Lookup.{in_range, subrange-in_range}
use ble.Att.Server.State.{Server}
use ble.Att.Server.Call.{handle_att, Served}
use ble.Att.Server.Reads.{
  reject, no_handles, pack_handles, no_entries, pack_entries, read_dynamic,
  handle_find_by_type_value_request, handle_read_by_type_request, handle_read_by_group_request,
  handle_read_request, handle_read_blob_request,
}
use ble.Att.Server.Inv.{Inv, Inv-Same}
use ble.Att.Server.Calls.{Handles, Handled, handle_att-Kept}
use ble.Att.Server.Rounds.{
  FitsIn, EntriesFit, scan-Returns, find_by_type_value_step-RoundOk, read_by_type_step-RoundOk,
  read_by_group_step-RoundOk,
}
use ble.Att.Server.Answers.{
  Answers, AnswerOk, answers, reject-AnswerOk, with_range-AnswerOk, conclude-AnswerOk,
}

module _ (app : App) (s : Server) (r : List ℕ) (i : Inv s) (one : 1 ≤ length r) where
  reads-Handles :
      (c : ℕ)
      → get_or r 0 0 ≡ c
      → ((c == read_blob_request_code) ≡ true → 5 ≤ length r)
      → (c == write_request_code || c == write_command_code) ≡ false
      → (a : Attr) → Handles app a r
  reads-Handles c op l w a = (one, rw op l, rw (op, w) (λ e. cc))

  pub handle_find_by_type_value_request-AnswerOk :
      get_or r 0 0 ≡ find_by_type_value_request_code
      → Returns (AnswerOk s.tx_len r) (handle_find_by_type_value_request app s r)
  unfolding handle_find_by_type_value_request
  handle_find_by_type_value_request-AnswerOk op =
      with_range-AnswerOk s.tx_len r one _ s _ i (λ e. ground arith)
        λ start end e le.
          let fits = FitsIn (s.tx_len - 1) in
          rw
            (
              put-ok s.tx_len [] (find_by_type_value_response_code ∷ []) (omega arith),
              subrange-in_range s.db start end i.numbered le,
              u16_at-ok r 5 (ground arith),
              slice_from-ok r 7 (ground arith),
            )
            (conclude-AnswerOk s.tx_len r one fits start no_handles pack_handles _
              (scan-Returns s.tx_len fits _
                (λ a x s' p g.
                  find_by_type_value_step-RoundOk app r s.tx_len (le_u16 r 5) (drop 7 r)
                    (s.tx_len - 1) a x s' (reads-Handles _ op (λ e. cc) refl a) p g)
                (in_range start end s.db.attrs) [] s (omega arith) (i, refl))
              (λ x p. answers x (rw op refl) (omega arith)))

  pub handle_read_by_type_request-AnswerOk :
      get_or r 0 0 ≡ read_by_type_request_code
      → Returns (AnswerOk s.tx_len r) (handle_read_by_type_request app s r)
  unfolding handle_read_by_type_request
  handle_read_by_type_request-AnswerOk op =
      with_range-AnswerOk s.tx_len r one _ s _ i (λ e. ground arith)
        λ start end e le.
          let fits = EntriesFit (s.tx_len - 2) in
          rw
            (
              put-ok s.tx_len [] (read_by_type_response_code ∷ 0 ∷ []) (omega arith),
              subrange-in_range s.db start end i.numbered le,
              slice_from-ok r 5 (ground arith),
            )
            (conclude-AnswerOk s.tx_len r one fits start no_entries
              (pack_entries read_by_type_response_code) _
              (scan-Returns s.tx_len fits _
                (λ a x s' p g.
                  read_by_type_step-RoundOk app r s.tx_len (drop 5 r) (s.tx_len - 2) a x s'
                    (reads-Handles _ op (λ e. cc) refl a) (omega arith) p g)
                (in_range start end s.db.attrs) (0, []) s (omega arith, omega arith) (i, refl))
              (λ x p. answers (x.0 % 256 ∷ x.1) (rw op refl) (omega arith)))

  pub handle_read_by_group_request-AnswerOk :
      get_or r 0 0 ≡ read_by_group_type_request_code
      → Returns (AnswerOk s.tx_len r) (handle_read_by_group_request app s r)
  unfolding handle_read_by_group_request
  handle_read_by_group_request-AnswerOk op =
      with_range-AnswerOk s.tx_len r one _ s _ i (λ e. ground arith)
        λ start end e le.
          let fits = EntriesFit (s.tx_len - 2) in
          rw
            (
              put-ok s.tx_len [] (read_by_group_type_response_code ∷ 0 ∷ []) (omega arith),
              subrange-in_range s.db start end i.numbered le,
              slice_from-ok r 5 (ground arith),
            )
            (conclude-AnswerOk s.tx_len r one fits start no_entries
              (pack_entries read_by_group_type_response_code) _
              (scan-Returns s.tx_len fits _
                (λ a x s' p g.
                  read_by_group_step-RoundOk app r s.tx_len (drop 5 r) (s.tx_len - 2) a x s'
                    (reads-Handles _ op (λ e. cc) refl a) (omega arith) p g)
                (in_range start end s.db.attrs) (0, []) s (omega arith, omega arith) (i, refl))
              (λ x p. answers (x.0 % 256 ∷ x.1) (rw op refl) (omega arith)))

  read_dynamic-AnswerOk :
      (h : ℕ) (a : Attr) (code : ℕ)
      → code ≡ suc (get_or r 0 0)
      → Handles app a r
      → Returns (AnswerOk s.tx_len r) (read_dynamic app s r h a (code ∷ []))
  read_dynamic-AnswerOk h a code e d =
      let w = new_response_writer (empty_buffer (s.tx_len - 1)) in
      rw (le→leb 1 s.tx_len (omega arith)) (
        >>=-Returns (Handled app w s) (AnswerOk s.tx_len r) (handle_att app a s r w) _
          (handle_att-Kept app a s r w d (omega arith) i.subscribed) go)
    where
      go :
          (x : ℕ × Served)
          → Handled app (new_response_writer (empty_buffer (s.tx_len - 1))) s x
          → Returns (AnswerOk s.tx_len r) (
              if not (x.0 == err_success)
              then reject r h x.0 x.1.1
              else (put x.1.1.tx_len (code ∷ []) (written x.1.0) >>= λ out. ok (out, x.1.1)))
      go (n, (w, s1)) k = elim (Bool-cases (n == err_success)) [
        | inr f ↦ rw f (reject-AnswerOk s.tx_len r one h n s1 (Inv-Same s s1 i k.0 k.1))
        | inl f ↦
            rw
              (
                f,
                put-ok s1.tx_len (code ∷ []) (written w)
                    (omega (arith, k.0.tx_len, k.2 (omega arith), k.3)),
              )
              (
                Inv-Same s s1 i k.0 k.1,
                answers (written w) (rw (← e) refl) (omega (arith, k.2 (omega arith), k.3)),
              )
      ]

  -- A value behind the opcode, as far as it fits.
  copied-Answers :
      (v : List ℕ) (code : ℕ)
      → code ≡ suc (get_or r 0 0)
      → Answers s.tx_len (get_or r 0 0) r (copy s.tx_len (code ∷ []) v)
  unfolding copy
  copied-Answers v code e =
      answers (take (s.tx_len - 1) v) (rw (← e) refl) (omega (arith, length-take (s.tx_len - 1) v))

  pub handle_read_request-AnswerOk :
      get_or r 0 0 ≡ read_request_code → Returns (AnswerOk s.tx_len r) (handle_read_request app s r)
  unfolding handle_read_request
  handle_read_request-AnswerOk op = elim (Bool-cases (length r == 3)) [
    | inr e ↦ rw e (reject-AnswerOk s.tx_len r one 0 _ s i)
    | inl e ↦
        rw
          (
            e,
            put-ok s.tx_len [] (read_response_code ∷ []) (omega arith),
            u16_at-ok r 1 (ground arith),
          )
          (if_nil-Returns (AnswerOk s.tx_len r) (at s.db (le_u16 r 1)) _ _
            (reject-AnswerOk s.tx_len r one (le_u16 r 1) _ s i)
            λ (k, a) d.
              if_nil-Returns (AnswerOk s.tx_len r) a.v _ _
                (read_dynamic-AnswerOk (le_u16 r 1) a read_response_code (rw op)
                  (reads-Handles _ op (λ e. cc) refl a))
                λ v d. (i, copied-Answers v read_response_code (rw op)))
  ]

  pub handle_read_blob_request-AnswerOk :
      get_or r 0 0 ≡ read_blob_request_code
      → Returns (AnswerOk s.tx_len r) (handle_read_blob_request app s r)
  unfolding handle_read_blob_request
  handle_read_blob_request-AnswerOk op = elim (Bool-cases (length r == 5)) [
    | inr e ↦ rw e (reject-AnswerOk s.tx_len r one 0 _ s i)
    | inl e ↦
        let h = le_u16 r 1 in
        rw
          (
            e,
            put-ok s.tx_len [] (read_blob_response_code ∷ []) (omega arith),
            u16_at-ok r 1 (ground arith),
          )
          (if_nil-Returns (AnswerOk s.tx_len r) (at s.db h) _ _
            (reject-AnswerOk s.tx_len r one h _ s i)
            λ (k, a) d.
              if_nil-Returns (AnswerOk s.tx_len r) a.v _ _
                (read_dynamic-AnswerOk h a read_blob_response_code (rw op)
                  (reads-Handles _ op (λ _. ground arith) refl a))
                λ v d.
                  rw (u16_at-ok r 3 (ground arith))
                    (elim (Bool-cases (ltb (length v) (le_u16 r 3))) [
                      | inl b ↦ rw b (reject-AnswerOk s.tx_len r one h _ s i)
                      | inr b ↦
                          rw b (
                            i,
                            copied-Answers (drop (le_u16 r 3) v) read_blob_response_code (rw op),
                          )
                    ]))
  ]
