-- ===== src/Att/Server/Answers.antt =====
-- What a response may be, and the read handlers: each ends without a panic and answers its request.
use ble.Base.{
  ℕ, suc, ◌-◌, ◌≤◌, Bool, true, false, ◌||◌, List, [], ◌∷◌, Go, ok, Returns, >>=-Returns, length,
  drop, get_or, ◌≡◌, refl, arith, le16, le_u16, put-ok, inl, inr, Bool-cases, ltb, ◌==◌,
  if◌then◌else◌, u8_at-ok, u16_at-ok, min,
}
use ble.Att.Pdu.{
  error_response, err_attr_not_found, prepare_write_request_code, prepare_write_response_code,
  write_command_code, exchange_mtu_request_code, find_information_request_code,
  find_information_response_code, exchange_mtu_response_code,
}
use ble.Att.Db.Lookup.{in_range, subrange-in_range}
use ble.Att.Server.State.{Server, Conn}
use ble.Att.Server.Scan.{Scanned, done, refused, Info}
use ble.Att.Server.Reads.{
  Answer, reject, with_range, conclude, max_mtu, adopt_mtu, no_format, pack_information,
  handle_exchange_mtu_request, handle_find_information_request,
}
use ble.Att.Server.Inv.{Inv, Subscribed}
use ble.Att.Server.Rounds.{ScanOk, FitsIn, scan-Returns, find_information_step-RoundOk}

-- A response `rsp` to the request `r` of opcode `op`, by a server that may send `n` bytes: the error
-- response for the opcode, the response of the opcode in at most `n` bytes, the echo of a prepared
-- write, or nothing for a command.
pub data Answers (n op : ℕ) (r rsp : List ℕ) : Type 0 where
  fails : (h e : ℕ) → rsp ≡ error_response op h e → Answers n op r rsp
  answers : (rest : List ℕ) → rsp ≡ suc op ∷ rest → length rsp ≤ n → Answers n op r rsp
  echoes :
      op ≡ prepare_write_request_code
      → rsp ≡ prepare_write_response_code ∷ drop 1 r
      → Answers n op r rsp
  silent : op ≡ write_command_code → rsp ≡ [] → Answers n op r rsp

abbrev pub AnswerOk : ℕ → List ℕ → Answer → Type 0
AnswerOk n r (rsp, s) = Inv s × Answers n (get_or r 0 0) r rsp

module _ (n : ℕ) (r : List ℕ) (one : 1 ≤ length r) where
  pub reject-AnswerOk : (h e : ℕ) (s : Server) → Inv s → Returns (AnswerOk n r) (reject r h e s)
  reject-AnswerOk h e s i = rw (u8_at-ok r 0 one) (i, fails h e refl)

  pub with_range-AnswerOk :
      (bad : Bool) (s : Server) (k : ℕ → ℕ → Go Answer)
      → Inv s
      → (bad ≡ false → 5 ≤ length r)
      → ((start end : ℕ) → bad ≡ false → start ≤ end → Returns (AnswerOk n r) (k start end))
      → Returns (AnswerOk n r) (with_range r bad s k)
  with_range-AnswerOk true s k i l g = reject-AnswerOk 0 _ s i
  with_range-AnswerOk false s k i l g =
      rw (u16_at-ok r 1 (omega (arith, l refl)), u16_at-ok r 3 (omega (arith, l refl)))
        (elim (Bool-cases (le_u16 r 1 == 0 || ltb (le_u16 r 3) (le_u16 r 1))) [
          | inl e ↦ rw e (reject-AnswerOk (le_u16 r 1) _ s i)
          | inr e ↦ rw e (g (le_u16 r 1) (le_u16 r 3) refl (ground arith))
        ])

  pub conclude-AnswerOk :
      {S : Type 0} (P : S → Type 0) (start : ℕ) (empty : S → Bool) (pack : S → List ℕ)
      (m : Go (Scanned S × Server))
      → Returns (ScanOk n P) m
      → ((x : S) → P x → Answers n (get_or r 0 0) r (pack x))
      → Returns (AnswerOk n r) (conclude r start empty pack m)
  conclude-AnswerOk {S} P start empty pack m k a = >>=-Returns (ScanOk n P) (AnswerOk n r) m _ k go
    where
      go :
          (x : Scanned S × Server)
          → ScanOk n P x
          → Returns (AnswerOk n r) (elim x.0 [
            | refused e ↦ reject r start e x.1
            | done y ↦ if empty y then reject r start err_attr_not_found x.1 else ok (pack y, x.1)
          ])
      go (refused e, s) g = reject-AnswerOk start e s g.0
      go (done y, s) g = elim (Bool-cases (empty y)) [
        | inl e ↦ rw e (reject-AnswerOk start err_attr_not_found s g.1.0)
        | inr e ↦ rw e (g.1.0, a y g.0)
      ]

resized-Inv :
    (s : Server) (c : Conn) (n m k : ℕ)
    → Inv s
    → Subscribed c
    → 23 ≤ n
    → n ≤ max_mtu
    → Inv (record s { conn = c; tx_len = n; not_len = m; ind_len = k })
resized-Inv s c n m k i b lo hi = record {
  mtu_low = lo;
  mtu_high = hi;
  numbered = i.numbered;
  entries = i.entries;
  counted = i.counted;
  bounded = i.bounded;
  ready = i.ready;
  subscribed = b;
}

-- The new MTU is between the default and the maximum, so the invariant holds of it.
adopt_mtu-Inv : (s : Server) (n : ℕ) → Inv s → 23 ≤ n → n ≤ max_mtu → Inv (adopt_mtu s n)
unfolding adopt_mtu
adopt_mtu-Inv s n i lo hi =
    let c : Conn = record (s.conn) { tx_mtu = n } in
    let b : Subscribed c = record {
      notifies = i.subscribed.notifies;
      indicates = i.subscribed.indicates;
    } in
    elim (Bool-cases (n == s.tx_len)) [
      | inl e ↦ rw e (resized-Inv s c s.tx_len s.not_len s.ind_len i b i.mtu_low i.mtu_high)
      | inr e ↦ rw e (resized-Inv s c n n n i b lo hi)
    ]

pub handle_exchange_mtu_request-AnswerOk :
    (s : Server) (r : List ℕ)
    → Inv s
    → 1 ≤ length r
    → get_or r 0 0 ≡ exchange_mtu_request_code
    → Returns (AnswerOk s.tx_len r) (handle_exchange_mtu_request s r)
unfolding handle_exchange_mtu_request
handle_exchange_mtu_request-AnswerOk s r i one op = elim (Bool-cases (length r == 3)) [
  | inr e ↦ rw e (reject-AnswerOk s.tx_len r one 0 _ s i)
  | inl e ↦
      rw (e, u16_at-ok r 1 (ground arith))
        (elim (Bool-cases (ltb (le_u16 r 1) 23)) [
          | inl d ↦ rw d (reject-AnswerOk s.tx_len r one 0 _ s i)
          | inr d ↦
              let n = min (le_u16 r 1) max_mtu in
              rw (d, put-ok s.tx_len [] (exchange_mtu_response_code ∷ le16 s.rx_mtu) (omega arith))
                (
                  adopt_mtu-Inv s n i (ground arith) (omega arith),
                  answers (le16 s.rx_mtu) (rw op refl) (omega arith),
                )
        ])
]

pub handle_find_information_request-AnswerOk :
    (s : Server) (r : List ℕ)
    → Inv s
    → 1 ≤ length r
    → get_or r 0 0 ≡ find_information_request_code
    → Returns (AnswerOk s.tx_len r) (handle_find_information_request s r)
unfolding handle_find_information_request
handle_find_information_request-AnswerOk s r i one op =
    with_range-AnswerOk s.tx_len r one _ s _ i (λ e. ground arith)
      λ start end e le.
        rw
          (
            put-ok s.tx_len [] (find_information_response_code ∷ 0 ∷ []) (omega arith),
            subrange-in_range s.db start end i.numbered le,
          )
          (conclude-AnswerOk s.tx_len r one (λ (x : Info). FitsIn (s.tx_len - 2) x.1) start
            no_format pack_information _
            (scan-Returns s.tx_len (λ (x : Info). FitsIn (s.tx_len - 2) x.1) _
              (λ a x s' p g. find_information_step-RoundOk (s.tx_len - 2) s.tx_len a x s' p g)
              (in_range start end s.db.attrs) (0, []) s (omega arith) (i, refl))
            (λ x p. answers (x.0 ∷ x.1) (rw op refl) (omega arith)))
