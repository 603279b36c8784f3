-- ===== src/Att/Server/WriteAnswers.antt =====
-- The handlers that write end without a panic, answer their requests, and keep the bounds of the
-- queue of prepared writes, if no value that is too short goes to a CCC descriptor.
use ble.Base.{
  ℕ, ◌+◌, ◌≤◌, ◌<◌, true, false, not, ◌||◌, Option, none, some, List, [], ◌∷◌, ◌++◌, ok, Returns,
  >>=-Returns, Returns-mono, if_nil-Returns, length, length-append, All, All-append, drop, get_or,
  ◌≡◌, refl, ◌∙◌, arith, le_u16, inl, inr, Bool-cases, ltb, leb, ◌==◌, if◌then◌else◌, u8_at-ok,
  u16_at-ok, slice_from-ok,
}
use ble.Att.Pdu.{
  err_success, read_blob_request_code, write_request_code, write_command_code,
  prepare_write_request_code, execute_write_request_code, write_response_code,
  execute_write_response_code,
}
use ble.Att.Handler.{App, Writer, new_response_writer, set_status}
use ble.Att.Db.{Attr, Db, Handler, custom, cccd, at}
use ble.Att.Db.Lookup.{get_elem?-at}
use ble.Att.Server.State.{Server, PreparedWrite}
use ble.Att.Server.Call.{handle_att, Served}
use ble.Att.Server.Reads.{reject}
use ble.Att.Server.Writes.{
  enqueue, clear_prepared, write_run, write_runs, write_all, handle_prepare_write_request,
  handle_execute_write_request, handle_write_request, handle_write_command,
}
use ble.Att.Server.Inv.{Inv, same, Inv-Same, Same, Kept, Subscribed, SafeWrite, Ready, total}
use ble.Att.Server.Calls.{Handles, Handled, handle_att-Kept, serve_write-Kept}
use ble.Att.Server.Answers.{AnswerOk, answers, echoes, silent, reject-AnswerOk}

total-append : (ps qs : List PreparedWrite) → total (ps ++ qs) ≡ total ps + total qs
total-append [] qs = omega arith
total-append (p ∷ ps) qs = omega (arith, total-append ps qs)

SafeWrite-append : (f : Handler) (v w : List ℕ) → SafeWrite f v → SafeWrite f (v ++ w)
SafeWrite-append (custom k) v w h = tt
SafeWrite-append (cccd c) v w h = (omega (arith, length-append v w, h.0), h.1, h.2)

-- A queued part goes to the queue's end.
enqueue-Inv :
    (s : Server) (p : PreparedWrite)
    → Inv s
    → length s.prepared < 64
    → s.prepared_bytes + length p.value ≤ 512
    → Ready s.db p
    → Inv (enqueue s p)
enqueue-Inv s p i n m k = record {
  mtu_low = i.mtu_low;
  mtu_high = i.mtu_high;
  numbered = i.numbered;
  entries = omega (arith, length-append s.prepared (p ∷ []));
  counted = omega (arith, total-append s.prepared (p ∷ []), i.counted);
  bounded = m;
  ready = All-append (Ready s.db) s.prepared (p ∷ []) i.ready (k, tt);
  subscribed = i.subscribed;
}

clear_prepared-Inv :
    (s s' : Server) → Inv s → Same s s' → Subscribed s'.conn → Inv (clear_prepared s')
unfolding clear_prepared
clear_prepared-Inv s s' i k b = record {
  mtu_low = (Inv-Same s s' i k b).mtu_low;
  mtu_high = (Inv-Same s s' i k b).mtu_high;
  numbered = (Inv-Same s s' i k b).numbered;
  entries = omega arith;
  counted = refl;
  bounded = omega arith;
  ready = tt;
  subscribed = b;
}

Same-trans : (s t u : Server) → Same s t → Same t u → Same s u
Same-trans s t u h k = record {
  db = k.db ∙ h.db;
  tx_len = k.tx_len ∙ h.tx_len;
  prepared = k.prepared ∙ h.prepared;
  prepared_bytes = k.prepared_bytes ∙ h.prepared_bytes;
  rx_mtu = k.rx_mtu ∙ h.rx_mtu;
  not_len = k.not_len ∙ h.not_len;
  ind_len = k.ind_len ∙ h.ind_len;
  tx_mtu = k.tx_mtu ∙ h.tx_mtu;
}

module _ (app : App) where
  -- What a series of writes keeps.
  abbrev Ran : Server → ℕ × Server → Type 0
  Ran s (e, s') = Same s s' × Subscribed s'.conn

  abbrev Wrote : Server → Option (ℕ × ℕ) × Server → Type 0
  Wrote s (failure, s') = Same s s' × Subscribed s'.conn

  -- The part's attribute is there, and takes `bytes`.
  abbrev Takes : Db → PreparedWrite → List ℕ → Type 0
  Takes db p bytes = Ready db (record p { value = bytes })

  write_run-Ran :
      (p : PreparedWrite) (bytes : List ℕ) (s : Server)
      → Takes s.db p bytes
      → Subscribed s.conn
      → Returns (Ran s) (write_run app p bytes s)
  unfolding write_run set_status
  write_run-Ran p bytes s (a, f, e, d, v) b =
      let w : Writer = new_response_writer none in
      rw (e, d)
        (>>=-Returns (Kept w s) (Ran s) _ _
          (serve_write-Kept app f bytes p.offset w s v (omega arith) b) (λ x k. (k.0, k.1)))

  -- The loop of Execute Write runs to its end: it calls a handler for each run, up to the first one
  -- that fails.
  write_runs-Wrote :
      (p : PreparedWrite) (bytes : List ℕ) (end : ℕ) (qs : List PreparedWrite) (s : Server)
      → Takes s.db p bytes
      → All (Ready s.db) qs
      → Subscribed s.conn
      → Returns (Wrote s) (write_runs app p bytes end qs s)
  unfolding write_runs
  write_runs-Wrote p bytes end [] s t h b =
      >>=-Returns (Ran s) (Wrote s) _ _ (write_run-Ran p bytes s t b) (λ x k. k)
  write_runs-Wrote p bytes end (q ∷ qs) s t h b =
      elim (Bool-cases (not (q.a == p.a) || not (q.offset == end))) [
        | inl e ↦
            rw (e, write_runs)
              (>>=-Returns (Ran s) (Wrote s) _ _ (write_run-Ran p bytes s t b)
                (go (λ s1. write_runs-Wrote q q.value (q.offset + length q.value) qs s1)))
        | inr e ↦
            rw (e, write_runs)
              (write_runs-Wrote p (bytes ++ q.value) (end + length q.value) qs s
                (t.0, t.1, t.2, t.3, SafeWrite-append t.1 bytes q.value t.4) h.1 b)
      ]
    where
      go :
          ((s1 : Server)
            → Ready s1.db q
            → All (Ready s1.db) qs
            → Subscribed s1.conn
            → Returns (Wrote s1) (write_runs app q q.value (q.offset + length q.value) qs s1))
          → (x : ℕ × Server) → Ran s x
          → Returns (Wrote s) (elim (x.0 == err_success) [
            | false ↦ ok (some (p.handle, x.0), x.1)
            | true ↦ write_runs app q q.value (q.offset + length q.value) qs x.1
          ])
      go ih (e, s1) k = elim (Bool-cases (e == err_success)) [
        | inr d ↦ rw d k
        | inl d ↦ rw d (
            Returns-mono (Wrote s1) (Wrote s) _ (ih s1 (rw (k.0.db) h.0) (rw (k.0.db) h.1) k.1)
              (λ x l. (Same-trans s s1 x.1 k.0 l.0, l.1)))
      ]

  write_all-Wrote : (s : Server) → Inv s → Returns (Wrote s) (write_all app s.prepared s)
  unfolding write_all
  write_all-Wrote s i = go s.prepared i.ready
    where
      go : (ps : List PreparedWrite) → All (Ready s.db) ps → Returns (Wrote s) (write_all app ps s)
      go [] h = (same s, i.subscribed)
      go (p ∷ ps) h =
          write_runs-Wrote p p.value (p.offset + length p.value) ps s h.0 h.1 i.subscribed

  -- A request whose value its attribute takes: the peer writes no CCC descriptor with fewer than two
  -- bytes, and none whose property promises a handler that is not there.
  abbrev pub SafeRequest : Server → List ℕ → Type 0
  SafeRequest s r =
      (i : ℕ) (a : Attr) (f : Handler)
      → at s.db (le_u16 r 1) ≡ some (i, a)
      → a.wh ≡ some f
      → ((get_or r 0 0 == write_request_code || get_or r 0 0 == write_command_code) ≡ true
          → SafeWrite f (drop 3 r))
        × (get_or r 0 0 ≡ prepare_write_request_code → SafeWrite f (drop 5 r))

  module _ (s : Server) (r : List ℕ) (i : Inv s) (one : 1 ≤ length r) where
    pub handle_prepare_write_request-AnswerOk :
        SafeRequest s r
        → get_or r 0 0 ≡ prepare_write_request_code
        → Returns (AnswerOk s.tx_len r) (handle_prepare_write_request s r)
    unfolding handle_prepare_write_request
    handle_prepare_write_request-AnswerOk safe op = elim (Bool-cases (ltb (length r) 5)) [
      | inl e ↦ rw e (reject-AnswerOk s.tx_len r one 0 _ s i)
      | inr e ↦
          let h = le_u16 r 1 in
          rw (e, u16_at-ok r 1 (ground arith))
            (if_nil-Returns (AnswerOk s.tx_len r) (at s.db h) _ _
              (reject-AnswerOk s.tx_len r one h _ s i)
              λ (k, a) d.
                if_nil-Returns (AnswerOk s.tx_len r) a.wh _ _
                  (reject-AnswerOk s.tx_len r one h _ s i)
                  λ f c.
                    rw (slice_from-ok r 5 (ground arith), u16_at-ok r 3 (ground arith))
                      (elim (Bool-cases (
                        leb 64 (length s.prepared)
                        || ltb 512 (s.prepared_bytes + length (drop 5 r)))) [
                          | inl b ↦ rw b (reject-AnswerOk s.tx_len r one h _ s i)
                          | inr b ↦ rw b (
                            enqueue-Inv s
                                (record {
                                  a = k;
                                  handle = h;
                                  offset = le_u16 r 3;
                                  value = drop 5 r;
                                })
                                i (ground arith) (ground arith)
                                (a, f, get_elem?-at s.db h k a d, c, (safe k a f d c).1 op),
                            echoes op refl,
                          )
                        ]))
    ]

    pub handle_execute_write_request-AnswerOk :
        get_or r 0 0 ≡ execute_write_request_code
        → Returns (AnswerOk s.tx_len r) (handle_execute_write_request app s r)
    unfolding handle_execute_write_request
    handle_execute_write_request-AnswerOk op = elim (Bool-cases (ltb (length r) 2)) [
      | inl e ↦ rw e (reject-AnswerOk s.tx_len r one 0 _ s i)
      | inr e ↦
          rw (e, u8_at-ok r 1 (ground arith))
            (elim (Bool-cases (get_or r 1 0 == 0)) [
              | inl d ↦ rw d (cleared s (same s) i.subscribed)
              | inr d ↦ rw d (elim (Bool-cases (get_or r 1 0 == 1)) [
                | inl c ↦
                    rw c (>>=-Returns (Wrote s) (AnswerOk s.tx_len r) _ _ (write_all-Wrote s i) go)
                | inr c ↦ rw c (reject-AnswerOk s.tx_len r one 0 _ s i)
              ])
            ])
    ]
      where
        cleared :
            (s1 : Server)
            → Same s s1
            → Subscribed s1.conn
            → AnswerOk s.tx_len r (execute_write_response_code ∷ [], clear_prepared s1)
        cleared s1 k b =
            (clear_prepared-Inv s s1 i k b, answers [] (rw op refl) (omega (arith, i.mtu_low)))

        go :
            (x : Option (ℕ × ℕ) × Server)
            → Wrote s x
            → Returns (AnswerOk s.tx_len r) (elim x.0 [
              | none ↦ ok (execute_write_response_code ∷ [], clear_prepared x.1)
              | some y ↦ reject r y.0 y.1 (clear_prepared x.1)
            ])
        go (none, s1) k = cleared s1 k.0 k.1
        go (some (h, e), s1) k =
            reject-AnswerOk s.tx_len r one h e _ (clear_prepared-Inv s s1 i k.0 k.1)

    writes-Handles :
        SafeRequest s r
        → 3 ≤ length r
        → (get_or r 0 0 == read_blob_request_code) ≡ false
        → (k : ℕ) (a : Attr) → at s.db (le_u16 r 1) ≡ some (k, a)
        → Handles app a r
    writes-Handles safe n b k a d = (one, rw b (λ e. cc), (λ w. (n, (λ f c. (safe k a f d c).0 w))))

    pub handle_write_request-AnswerOk :
        SafeRequest s r
        → get_or r 0 0 ≡ write_request_code
        → Returns (AnswerOk s.tx_len r) (handle_write_request app s r)
    unfolding handle_write_request
    handle_write_request-AnswerOk safe op = elim (Bool-cases (ltb (length r) 3)) [
      | inl e ↦ rw e (reject-AnswerOk s.tx_len r one 0 _ s i)
      | inr e ↦
          let h = le_u16 r 1 in
          let w : Writer = new_response_writer none in
          rw (e, u16_at-ok r 1 (ground arith))
            (if_nil-Returns (AnswerOk s.tx_len r) (at s.db h) _ _
              (reject-AnswerOk s.tx_len r one h _ s i)
              λ (k, a) d.
                >>=-Returns (Handled app w s) (AnswerOk s.tx_len r) (handle_att app a s r w) _
                  (handle_att-Kept app a s r w
                    (writes-Handles safe (ground arith) (rw op refl) k a d) (omega arith)
                    i.subscribed)
                  go)
    ]
      where
        go :
            (x : ℕ × Served)
            → Handled app (new_response_writer none) s x
            → Returns (AnswerOk s.tx_len r) (
                if not (x.0 == err_success)
                then reject r (le_u16 r 1) x.0 x.1.1
                else ok (write_response_code ∷ [], x.1.1))
        go (e, (w, s1)) k = elim (Bool-cases (e == err_success)) [
          | inr f ↦
              rw f (reject-AnswerOk s.tx_len r one (le_u16 r 1) e s1 (Inv-Same s s1 i k.0 k.1))
          | inl f ↦
              rw f (Inv-Same s s1 i k.0 k.1, answers [] (rw op refl) (omega (arith, i.mtu_low)))
        ]

    pub handle_write_command-AnswerOk :
        SafeRequest s r
        → get_or r 0 0 ≡ write_command_code
        → Returns (AnswerOk s.tx_len r) (handle_write_command app s r)
    unfolding handle_write_command
    handle_write_command-AnswerOk safe op = elim (Bool-cases (leb (length r) 3)) [
      | inl e ↦ rw e (i, silent op refl)
      | inr e ↦
          let h = le_u16 r 1 in
          let w : Writer = new_response_writer none in
          rw (e, u16_at-ok r 1 (ground arith))
            (if_nil-Returns (AnswerOk s.tx_len r) (at s.db h) _ _ (i, silent op refl)
              λ (k, a) d.
                >>=-Returns (Handled app w s) (AnswerOk s.tx_len r) (handle_att app a s r w) _
                  (handle_att-Kept app a s r w
                    (writes-Handles safe (ground arith) (rw op refl) k a d) (omega arith)
                    i.subscribed)
                  (λ x l. (Inv-Same s x.1.1 i l.0 l.1, silent op refl)))
    ]
