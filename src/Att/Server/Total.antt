-- ===== src/Att/Server/Total.antt =====
-- handleRequest as a whole: every request is answered, within bounds, and the invariant holds on.
use ble.Base.{
  ℕ, ◌≤◌, List, Returns, length, get_or, if◌then◌else◌, ◌≡◌, refl, inl, inr, Bool-cases, ==_iff,
  ◌==◌, u8_at-ok,
}
use ble.Att.Pdu.{err_req_not_supp}
use ble.Att.Handler.{App}
use ble.Att.Server.State.{Server}
use ble.Att.Server.Dispatch.{handle_request}
use ble.Att.Server.Inv.{Inv}
use ble.Att.Server.Answers.{
  AnswerOk, fails, handle_exchange_mtu_request-AnswerOk, handle_find_information_request-AnswerOk,
}
use ble.Att.Server.ReadAnswers.{
  handle_find_by_type_value_request-AnswerOk, handle_read_by_type_request-AnswerOk,
  handle_read_by_group_request-AnswerOk, handle_read_request-AnswerOk,
  handle_read_blob_request-AnswerOk,
}
use ble.Att.Server.WriteAnswers.{
  SafeRequest, handle_prepare_write_request-AnswerOk, handle_execute_write_request-AnswerOk,
  handle_write_request-AnswerOk, handle_write_command-AnswerOk,
}

module _ {ℓ} {A : Type ℓ} where
  -- One step down a ladder of tests on the opcode.
  dispatch :
      (P : A → Type 0) (op code : ℕ) (x y : A)
      → (op ≡ code → P x)
      → P y
      → P (if op == code then x else y)
  dispatch P op code x y h k = elim (Bool-cases (op == code)) [
    | inl e ↦ rw e (h ((==_iff op code).0 e))
    | inr e ↦ rw e k
  ]

-- In every state of the server that satisfies the invariant, and for every request of at least one byte
-- that is safe for it, handleRequest ends without a panic, whatever the application's handlers do, and
-- the invariant holds again. The response is the error response for the opcode, or the response of
-- that opcode in at most as many bytes as the transmit MTU, or the echo of a prepared write, which is as
-- long as the request and not bounded by the MTU, or nothing for a write command. A request is safe
-- unless it gives a CCC descriptor fewer than two bytes or subscribes to a characteristic whose property
-- promises a handler that it does not have.
pub handle_request-AnswerOk :
    (app : App) (s : Server) (r : List ℕ)
    → Inv s
    → 1 ≤ length r
    → SafeRequest app s r
    → Returns (AnswerOk s.tx_len r) (handle_request app s r)
unfolding handle_request
handle_request-AnswerOk app s r i one safe =
    let d = dispatch (Returns (AnswerOk s.tx_len r)) (get_or r 0 0) in
    rw (u8_at-ok r 0 one) (
      d _ _ _ (handle_exchange_mtu_request-AnswerOk s r i one) (
        d _ _ _ (handle_find_information_request-AnswerOk s r i one) (
          d _ _ _ (handle_find_by_type_value_request-AnswerOk app s r i one) (
            d _ _ _ (handle_read_by_type_request-AnswerOk app s r i one) (
              d _ _ _ (handle_read_request-AnswerOk app s r i one) (
                d _ _ _ (handle_read_blob_request-AnswerOk app s r i one) (
                  d _ _ _ (handle_read_by_group_request-AnswerOk app s r i one) (
                    d _ _ _ (handle_write_request-AnswerOk app s r i one safe) (
                      d _ _ _ (handle_write_command-AnswerOk app s r i one safe) (
                        d _ _ _ (handle_prepare_write_request-AnswerOk app s r i one safe) (
                          d _ _ _ (handle_execute_write_request-AnswerOk app s r i one)
                            (i, fails 0 err_req_not_supp refl))))))))))))
