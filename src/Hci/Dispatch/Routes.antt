-- ===== src/Hci/Dispatch/Routes.antt =====
-- Which packets reach which handler of linux/hci/hci.go, and which ones make handlePkt panic.
use ble.Base.{
  if_nil-Rule, if-Rule, ℕ, suc, ◌≡◌, ◌↔◌, refl, sym, ap, ◌∙◌, arith, false, some, List, [], ◌∷◌, Go,
  ok, panic, length, u8_at, slice_from, ◌==◌, ==_iff, lt→ltb, le→leb, if◌then◌else◌, if_nil, not,
}
use mathlib.Core.Path.{subst}
use ble.Hci.Dispatch.{
  EventHandler, LeHandler, Dispatch, event_code, sub_code, evth, subh, handle_le_meta, handle_evt,
  handle_pkt, command_complete, command_status, disconnection_complete, number_of_completed_packets,
  connection_complete, advertising_report, connection_update_complete, long_term_key_request,
  data_length_change, acl, event, le_event, unmanaged_command, unsupported_sco, unsupported_vendor,
  invalid_packet, invalid_event, empty_le_meta, unsupported_le, unsupported_event,
  ignored_vendor_event,
}

evth_found : (code : ℕ) (h : EventHandler) → evth code ≡ some h → code ≡ event_code h
unfolding evth
evth_found code h = ground arith

subh_found : (code : ℕ) (h : LeHandler) → subh code ≡ some h → code ≡ sub_code h
unfolding subh
subh_found code h = ground arith

evth-event_code : (h : EventHandler) → evth (event_code h) ≡ some h
unfolding evth
evth-event_code command_complete = refl
evth-event_code command_status = refl
evth-event_code disconnection_complete = refl
evth-event_code number_of_completed_packets = refl

subh-sub_code : (h : LeHandler) → subh (sub_code h) ≡ some h
unfolding subh
subh-sub_code connection_complete = refl
subh-sub_code advertising_report = refl
subh-sub_code connection_update_complete = refl
subh-sub_code long_term_key_request = refl
subh-sub_code data_length_change = refl

not_le_meta : (h : EventHandler) → (event_code h == 0x3e) ≡ false
not_le_meta command_complete = refl
not_le_meta command_status = refl
not_le_meta disconnection_complete = refl
not_le_meta number_of_completed_packets = refl

-- The packet that a handler gets, for the bytes that it is called with.
abbrev pub Carried : Dispatch → List ℕ → Type 0
Carried (acl ps) b = b ≡ 2 ∷ ps
Carried (event h ps) b = b ≡ 4 ∷ event_code h ∷ length ps ∷ ps
Carried (le_event h ps) b =
    (rest : List ℕ) × ((ps ≡ sub_code h ∷ rest) × (b ≡ 4 ∷ 0x3e ∷ length ps ∷ ps))
Carried _ b = Unit {0}

abbrev pub IsHandled : Dispatch → Type 0
IsHandled (acl ps) = Unit {0}
IsHandled (event h ps) = Unit {0}
IsHandled (le_event h ps) = Unit {0}
IsHandled _ = ⊥

abbrev sorted : ℕ → ℕ → List ℕ → Go Dispatch
sorted code plen ps =
    if not (plen == length ps)
    then ok invalid_event
    else if code == 0x3e
    then ok (handle_le_meta ps)
    else ok (
        if_nil (evth code) (if code == 0xff then ignored_vendor_event else unsupported_event)
          (λ f. event f ps))

handle_evt_lem : (code plen : ℕ) (ps : List ℕ) → handle_evt (code ∷ plen ∷ ps) ≡ sorted code plen ps
unfolding handle_evt u8_at slice_from
handle_evt_lem code plen ps =
    let n = suc (suc (length ps)) in
    rw (lt→ltb 0 n (omega arith))
      (rw (lt→ltb 1 n (omega arith)) (rw (le→leb 2 n (omega arith)) refl))

abbrev by_type : ℕ → List ℕ → Go Dispatch
by_type t rest =
    if t == 1
    then ok unmanaged_command
    else if t == 2
    then ok (acl rest)
    else if t == 3
    then ok unsupported_sco
    else if t == 4
    then handle_evt rest
    else if t == 0xff
    then ok unsupported_vendor
    else ok invalid_packet

handle_pkt_lem : (t : ℕ) (rest : List ℕ) → handle_pkt (t ∷ rest) ≡ by_type t rest
unfolding handle_pkt u8_at slice_from
handle_pkt_lem t rest =
    let n = suc (length rest) in rw (lt→ltb 0 n (omega arith)) (rw (le→leb 1 n (omega arith)) refl)

le_meta-Carried : (ps : List ℕ) → Carried (handle_le_meta ps) (4 ∷ 0x3e ∷ length ps ∷ ps)
unfolding handle_le_meta
le_meta-Carried [] = tt
le_meta-Carried (c ∷ ps) =
    if_nil-Rule (λ d. Carried d (4 ∷ 0x3e ∷ length (c ∷ ps) ∷ c ∷ ps)) (subh c) unsupported_le
      (λ f. le_event f (c ∷ ps)) (λ _. tt)
      (λ h found. (ps, (ap (λ x. x ∷ ps) (subh_found c h found), refl)))

same_length : (plen : ℕ) (ps : List ℕ) → not (plen == length ps) ≡ false → plen ≡ length ps
same_length plen ps e = ground arith

-- Where a computation returns, its value satisfies P.
abbrev Partly : (Dispatch → Type 0) → Go Dispatch → Type 0
Partly P panic = Unit {0}
Partly P (ok d) = P d

sorted-Carried :
    (code plen : ℕ) (ps : List ℕ)
    → Partly (λ d. Carried d (4 ∷ code ∷ plen ∷ ps)) (sorted code plen ps)
sorted-Carried code plen ps =
    let P = λ (d : Dispatch). Carried d (4 ∷ code ∷ plen ∷ ps) in
    if-Rule (λ m. Partly P m) (not (plen == length ps)) _ _ (λ _. tt)
      (λ exact.
        let len = same_length plen ps exact in
        if-Rule (λ m. Partly P m) (code == 0x3e) _ _
          (λ meta.
            let is = (==_iff code 0x3e).0 meta in
            subst (λ n. Carried (handle_le_meta ps) (4 ∷ code ∷ n ∷ ps)) (sym len)
              (subst (λ c. Carried (handle_le_meta ps) (4 ∷ c ∷ length ps ∷ ps)) (sym is)
                (le_meta-Carried ps)))
          (λ _.
            if_nil-Rule P (evth code) _ (λ f. event f ps)
              (λ _.
                if-Rule P (code == 0xff) ignored_vendor_event unsupported_event (λ _. tt) (λ _. tt))
              (λ h found. cc (evth_found code h found, len))))

handle_evt-Carried : (b : List ℕ) → Partly (λ d. Carried d (4 ∷ b)) (handle_evt b)
unfolding handle_evt u8_at
handle_evt-Carried [] = tt
handle_evt-Carried (code ∷ []) = tt
handle_evt-Carried (code ∷ plen ∷ ps) =
    subst (λ m. Partly (λ d. Carried d (4 ∷ code ∷ plen ∷ ps)) m)
      (sym (handle_evt_lem code plen ps)) (sorted-Carried code plen ps)

handle_pkt-Carried : (b : List ℕ) → Partly (λ d. Carried d b) (handle_pkt b)
unfolding handle_pkt u8_at
handle_pkt-Carried [] = tt
handle_pkt-Carried (t ∷ rest) =
    let P = λ (d : Dispatch). Carried d (t ∷ rest) in
    subst (λ m. Partly P m) (sym (handle_pkt_lem t rest))
      (if-Rule (λ m. Partly P m) (t == 1) _ _ (λ _. tt)
        (λ _.
          if-Rule (λ m. Partly P m) (t == 2) _ _ (λ e. ap (λ k. k ∷ rest) ((==_iff t 2).0 e))
            (λ _.
              if-Rule (λ m. Partly P m) (t == 3) _ _ (λ _. tt)
                (λ _.
                  if-Rule (λ m. Partly P m) (t == 4) _ _
                    (λ e.
                      subst (λ k. Partly (λ d. Carried d (k ∷ rest)) (handle_evt rest))
                        (sym ((==_iff t 4).0 e)) (handle_evt-Carried rest))
                    (λ _. if-Rule (λ m. Partly P m) (t == 0xff) _ _ (λ _. tt) (λ _. tt))))))

of_event :
    (code : ℕ) (ps : List ℕ) → handle_pkt (4 ∷ code ∷ length ps ∷ ps) ≡ sorted code (length ps) ps
of_event code ps = handle_pkt_lem 4 (code ∷ length ps ∷ ps) ∙ handle_evt_lem code (length ps) ps

le_meta_handled :
    (h : LeHandler) (ps rest : List ℕ) → ps ≡ sub_code h ∷ rest → handle_le_meta ps ≡ le_event h ps
unfolding handle_le_meta
le_meta_handled h ps rest head =
    let all : handle_le_meta (sub_code h ∷ rest) ≡ le_event h (sub_code h ∷ rest) =
      rw (subh-sub_code h) refl in
    ap handle_le_meta head ∙ all ∙ ap (λ qs. le_event h qs) (sym head)

handled : (d : Dispatch) (b : List ℕ) → IsHandled d → Carried d b → handle_pkt b ≡ ok d
handled (acl ps) b _ is = ap handle_pkt is ∙ handle_pkt_lem 2 ps
handled (event h ps) b _ is =
    let len = (==_iff (length ps) (length ps)).1 refl in
    ap handle_pkt is
    ∙ of_event (event_code h) ps
    ∙ rw len (rw (not_le_meta h) (rw (evth-event_code h) refl))
handled (le_event h ps) b _ (rest, (head, is)) =
    let len = (==_iff (length ps) (length ps)).1 refl in
    ap handle_pkt is ∙ of_event 0x3e ps ∙ rw len (ap ok (le_meta_handled h ps rest head))
handled unmanaged_command b h _ = absurd h
handled unsupported_sco b h _ = absurd h
handled unsupported_vendor b h _ = absurd h
handled invalid_packet b h _ = absurd h
handled invalid_event b h _ = absurd h
handled empty_le_meta b h _ = absurd h
handled unsupported_le b h _ = absurd h
handled unsupported_event b h _ = absurd h
handled ignored_vendor_event b h _ = absurd h

-- A handler gets exactly the packets of its type, code and subevent code whose length byte counts their parameters,
-- and it gets these parameters whole.
pub handle_pkt_iff : (d : Dispatch) (b : List ℕ) → IsHandled d → (handle_pkt b ≡ ok d) ↔ Carried d b
handle_pkt_iff d b h =
    (λ e. subst (λ m. Partly (λ c. Carried c b) m) e (handle_pkt-Carried b), λ c. handled d b h c)
