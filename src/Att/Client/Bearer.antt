-- ===== src/Att/Client/Bearer.antt =====
-- linux/att/client.go: the transactions of sendReq and resolveAbandoned, beside the response branch of Loop.
-- Each event is one arm of a select, or one step of the code between two of them; requests do not
-- overlap, since each holds the tx buffer. Messages are of any type with a first byte.
pub mod Peer
pub mod Invariant
pub mod Attribution
pub mod Progress
use ble.Base.{
  ℕ, ◌+◌, Bool, true, false, ◌||◌, Option, none, some, List, [], ◌∷◌, leb, ◌==◌, if◌then◌else◌,
  get_or,
}
use ble.Att.Pdu.{
  error_response_code, exchange_mtu_request_code, exchange_mtu_response_code,
  find_information_request_code, find_information_response_code, find_by_type_value_request_code,
  find_by_type_value_response_code, read_by_type_request_code, read_by_type_response_code,
  read_request_code, read_response_code, read_blob_request_code, read_blob_response_code,
  read_multiple_request_code, read_multiple_response_code, read_by_group_type_request_code,
  read_by_group_type_response_code, write_request_code, write_response_code,
  prepare_write_request_code, prepare_write_response_code, execute_write_request_code,
  execute_write_response_code, handle_value_indication_code, handle_value_confirmation_code,
  err_req_not_supp, error_response,
}

-- The map rspOfReq; an opcode that is no key gives 0.
abbrev lookup_or_zero : List (ℕ × ℕ) → ℕ → ℕ
lookup_or_zero [] op = 0
lookup_or_zero ((k, v) ∷ rest) op = if k == op then v else lookup_or_zero rest op

abbrev pub responses : List (ℕ × ℕ)
responses =
    (exchange_mtu_request_code, exchange_mtu_response_code)
    ∷ (find_information_request_code, find_information_response_code)
    ∷ (find_by_type_value_request_code, find_by_type_value_response_code)
    ∷ (read_by_type_request_code, read_by_type_response_code)
    ∷ (read_request_code, read_response_code)
    ∷ (read_blob_request_code, read_blob_response_code)
    ∷ (read_multiple_request_code, read_multiple_response_code)
    ∷ (read_by_group_type_request_code, read_by_group_type_response_code)
    ∷ (write_request_code, write_response_code)
    ∷ (prepare_write_request_code, prepare_write_response_code)
    ∷ (execute_write_request_code, execute_write_response_code)
    ∷ (handle_value_indication_code, handle_value_confirmation_code)
    ∷ []

unfoldable pub rsp_of_req : ℕ → ℕ
rsp_of_req op = lookup_or_zero responses op

-- seqProtoTimeout, in seconds
abbrev pub seq_proto_timeout : ℕ
seq_proto_timeout = 30

-- Where a call of sendReq stands, with its request, and the deadline once it has one.
pub data Phase : Type 0 where
  idle : Phase
  resolving : List ℕ → Phase
  draining : List ℕ → Phase
  writing : List ℕ → Phase
  waiting : List ℕ → ℕ → Phase

-- The client; `ch_err` is an error that waits in chErr, `loop_done` says that Loop has returned, `wire` is
-- what was written, the last first.
pub record Bearer (M : Type 0) : Type 0 where
  pub phase : Phase
  pub rspc : Option M
  pub rsp_dropped : ℕ
  pub abandoned_rsp : ℕ
  pub abandoned_deadline : ℕ
  pub bearer_closed : Bool
  pub ch_err : Bool
  pub loop_done : Bool
  pub wire : List (List ℕ)

-- Loop receives a response or fails; sendReq is called, drains rspc and writes at a time, with
-- or without success; the waits take a message, which they may have to refuse_pdu by a write that may fail, take the
-- error of Loop, or end by the context or, at a time, by the timer.
pub data Event (M : Type 0) : Type 0 where
  delivered : M → Event M
  loop_fails : Event M
  request : List ℕ → Event M
  drained : Event M
  write : Bool → ℕ → Event M
  receive : Bool → Event M
  fail : Event M
  cancel : Event M
  expire : ℕ → Event M

-- What sendReq returns.
pub data Outcome (M : Type 0) : Type 0 where
  answered : M → Outcome M
  refused send_failed transport cancelled timed_out : Outcome M

-- An event is not possible, or leads on, or ends sendReq.
pub data Result (M : Type 0) : Type 0 where
  blocked : Result M
  next : Bearer M → Result M
  returned : Outcome M → Bearer M → Result M

module _ {M : Type 0} (op : M → ℕ) where
  unfoldable pub on_deliver : M → Option M → Bearer M → Result M
  on_deliver m none c = next (record c { rspc = some m })
  on_deliver m (some _) c = next (record c { rsp_dropped = c.rsp_dropped + 1 })

  unfoldable pub on_request : List ℕ → Phase → Bearer M → Result M
  on_request b idle c =
      if c.bearer_closed
      then returned refused c
      else if c.abandoned_rsp == 0
      then next (record c { phase = draining b })
      else next (record c { phase = resolving b })
  on_request b _ c = blocked

  unfoldable pub on_drain : Phase → Bearer M → Result M
  on_drain (draining b) c = next (record c { rspc = none; phase = writing b })
  on_drain _ c = blocked

  unfoldable pub on_write : Bool → ℕ → Phase → Bearer M → Result M
  on_write true now (writing b) c =
      next (record c { phase = waiting b (now + seq_proto_timeout); wire = b ∷ c.wire })
  on_write false now (writing b) c = returned send_failed (record c { phase = idle })
  on_write _ now _ c = blocked

  -- The refusal of a message that is no response to what is awaited.
  unfoldable pub refuse_pdu : Bool → M → Bearer M → Result M
  refuse_pdu true m c = next (record c { wire = error_response (op m) 0 err_req_not_supp ∷ c.wire })
  refuse_pdu false m c = returned send_failed (record c { phase = idle })

  abbrev pub accepts : ℕ → M → Bool
  accepts want m = op m == error_response_code || op m == want

  -- A message is taken out of rspc, where c is the client behind that.
  unfoldable pub on_receive : Bool → Phase → Option M → Bearer M → Result M
  unfolding refuse_pdu
  on_receive ok (resolving b) (some m) c =
      if accepts c.abandoned_rsp m
      then next (record c { abandoned_rsp = 0; phase = draining b })
      else refuse_pdu ok m c
  on_receive ok (waiting b d) (some m) c =
      if accepts (rsp_of_req (get_or b 0 0)) m
      then returned (answered m) (record c { phase = idle })
      else refuse_pdu ok m c
  on_receive ok _ _ c = blocked

  unfoldable pub on_fail : Phase → Bearer M → Result M
  on_fail (resolving b) c =
      returned transport (record c { ch_err = false; bearer_closed = true; phase = idle })
  on_fail (waiting b d) c = returned transport (record c { ch_err = false; phase = idle })
  on_fail _ c = blocked

  unfoldable pub on_cancel : Phase → Bearer M → Result M
  on_cancel (resolving b) c = returned cancelled (record c { phase = idle })
  on_cancel (waiting b d) c =
      returned cancelled (record c {
        abandoned_rsp = rsp_of_req (get_or b 0 0);
        abandoned_deadline = d;
        phase = idle;
      })
  on_cancel _ c = blocked

  unfoldable pub on_expire : ℕ → Phase → Bearer M → Result M
  on_expire now (resolving b) c =
      if leb c.abandoned_deadline now
      then returned timed_out (record c { bearer_closed = true; phase = idle })
      else blocked
  on_expire now (waiting b d) c =
      if leb d now
      then returned timed_out (record c { bearer_closed = true; phase = idle })
      else blocked
  on_expire now _ c = blocked

  unfoldable pub step : Bearer M → Event M → Result M
  unfolding on_deliver on_request on_drain on_write on_receive on_fail on_cancel on_expire
  step c (delivered m) = if c.loop_done then blocked else on_deliver m c.rspc c
  step c loop_fails =
      if c.loop_done then blocked else next (record c { ch_err = true; loop_done = true })
  step c (request b) = on_request b c.phase c
  step c drained = on_drain c.phase c
  step c (write ok now) = on_write ok now c.phase c
  step c (receive ok) = on_receive ok c.phase c.rspc (record c { rspc = none })
  step c fail = if c.ch_err then on_fail c.phase c else blocked
  step c cancel = on_cancel c.phase c
  step c (expire now) = on_expire now c.phase c

-- The client of NewClient.
unfoldable pub new_bearer : (M : Type 0) → Bearer M
new_bearer M = record {
  phase = idle;
  rspc = none;
  rsp_dropped = 0;
  abandoned_rsp = 0;
  abandoned_deadline = 0;
  bearer_closed = false;
  ch_err = false;
  loop_done = false;
  wire = [];
}
