-- ===== src/Att/Client/Inbox/Negotiated.antt =====
-- The MTU and the txBuf of the client, under exchanges that either side starts.
use ble.Base.{
  ℕ, ◌+◌, ◌*◌, ◌≤◌, ◌<◌, false, ◌||◌, List, [], ◌∷◌, Go, ok, ◌>>=◌, Returns, >>=-Returns, length,
  get_or, le16, ltb, min, u8_at, u16_at, ◌≡◌, arith, Bool-cases, inl, inr,
}
use ble.Att.Client.{
  Link, Exchanged, Reply, response, failed, validate_mtu, adopt_link, settle_mtu, exchange_mtu,
}
use ble.Att.Client.Inbox.{handle_peer_request}
use ble.Att.Client.Requests.{Value, Room}
use ble.Att.Client.Requests.Robust.{Answers, Call, perform, Whole, perform-Whole}

-- The txBuf has the length of the TxMTU, which lies in the range of the protocol.
pub record IsSized (c : Link) : Type 0 where
  pub same : c.tx_buf ≡ c.tx_mtu
  pub low : 23 ≤ c.tx_buf
  pub high : c.tx_buf ≤ 515

handle_peer_request-IsSized :
    (r : List ℕ) (c : Link)
    → 0 < length r
    → IsSized c
    → Returns (λ (a : List ℕ × Link). IsSized a.1) (handle_peer_request r c)
unfolding handle_peer_request u8_at u16_at
handle_peer_request-IsSized r c h i = ground arith

adopt_link-IsSized :
    (c : Link) (server client : ℕ)
    → IsSized c
    → 23 ≤ server
    → 23 ≤ client
    → client ≤ 515
    → IsSized (adopt_link c (min server client) client)
unfolding adopt_link
adopt_link-IsSized c server client i h k l = ground arith

-- An MTU exchange of the client, or a PDU of the peer's for handleRequest.
pub data Turn : Type 0 where
  ours : ℕ → Turn
  theirs : List ℕ → Turn

abbrev pub NonEmpty : List Turn → Type 0
NonEmpty [] = Unit {0}
NonEmpty (ours m ∷ ts) = NonEmpty ts
NonEmpty (theirs r ∷ ts) = (0 < length r) × NonEmpty ts

abbrev pub room : Link → Room
room c = record { tx_mtu = c.tx_mtu; tx_buf = c.tx_buf }

abbrev HasThree : Reply → Type 0
HasThree (response rsp) = length rsp ≡ 3
HasThree (failed e) = Unit {0}

validate_mtu-HasThree : (rsp : List ℕ) → 0 < length rsp → Returns HasThree (validate_mtu rsp)
unfolding validate_mtu u8_at
validate_mtu-HasThree rsp h = ground arith

not_below : (a b : ℕ) → b ≤ a → ltb a b ≡ false
not_below a b h = ground arith

in_range : (m : ℕ) → (ltb m 23 || ltb 515 m) ≡ false → (23 ≤ m) × (m ≤ 515)
in_range m t = ground arith

settle_mtu-IsSized :
    {S : Type 0} (peer : S → List ℕ → Go (List ℕ × S)) (client : ℕ) (c : Link) (s : S) (r : Reply)
    → IsSized c
    → 23 ≤ client
    → client ≤ 515
    → HasThree r
    → Returns (λ (a : Exchanged × (Link × S)). IsSized a.1.0) (settle_mtu peer client c s r)
unfolding settle_mtu u16_at
settle_mtu-IsSized peer client c s (failed e) i l h k = i
settle_mtu-IsSized peer client c s (response rsp) i l h k =
    ground (arith, adopt_link-IsSized c (get_or rsp 1 0 + 256 * get_or rsp 2 0) client i)

module _ {S : Type 0} (peer : S → List ℕ → Go (List ℕ × S)) where
  exchange_mtu-IsSized :
      (client : ℕ) (c : Link) (s : S)
      → Answers c.tx_buf peer
      → IsSized c
      → Returns (λ (a : Exchanged × (Link × S)). IsSized a.1.0) (exchange_mtu peer client c s)
  unfolding exchange_mtu
  exchange_mtu-IsSized client c s answers i = elim (Bool-cases (ltb client 23 || ltb 515 client)) [
    | inl t ↦ rw t i
    | inr t ↦
        let (l, h) = in_range client t in
        rw (t, not_below c.tx_buf 3 (omega (arith, i)))
          (>>=-Returns (λ (a : List ℕ × S). 0 < length a.0)
            (λ (b : Exchanged × (Link × S)). IsSized b.1.0) (peer s (0x02 ∷ le16 client))
            (λ a. validate_mtu a.0 >>= settle_mtu peer client c a.1)
            (answers s (0x02 ∷ le16 client) (omega arith) (omega (arith, i)))
            (λ a p.
              >>=-Returns HasThree (λ (b : Exchanged × (Link × S)). IsSized b.1.0)
                (validate_mtu a.0) (settle_mtu peer client c a.1) (validate_mtu-HasThree a.0 p)
                (λ r k. settle_mtu-IsSized peer client c a.1 r i l h k)))
  ]

  -- Exchanges that the client starts, and requests of the peer that Loop hands to handleRequest.
  unfoldable pub run_turns : List Turn → Link → S → Go (Link × S)
  run_turns [] c s = ok (c, s)
  run_turns (ours m ∷ ts) c s = exchange_mtu peer m c s >>= λ a. run_turns ts a.1.0 a.1.1
  run_turns (theirs r ∷ ts) c s = handle_peer_request r c >>= λ a. run_turns ts a.1 s

  module _ (answers : Answers 515 peer) where
    Answers-tx_buf : (c : Link) → IsSized c → Answers c.tx_buf peer
    Answers-tx_buf c i s req h k = answers s req h (omega (arith, i))

    run_turns-IsSized :
        (ts : List Turn) (c : Link) (s : S)
        → NonEmpty ts
        → IsSized c
        → Returns (λ (a : Link × S). IsSized a.0) (run_turns ts c s)
    unfolding run_turns
    run_turns-IsSized [] c s h i = i
    run_turns-IsSized (ours m ∷ ts) c s h i =
        >>=-Returns (λ (a : Exchanged × (Link × S)). IsSized a.1.0) (λ (a : Link × S). IsSized a.0)
          (exchange_mtu peer m c s) (λ a. run_turns ts a.1.0 a.1.1)
          (exchange_mtu-IsSized m c s (Answers-tx_buf c i) i)
          (λ a j. run_turns-IsSized ts a.1.0 a.1.1 h j)
    run_turns-IsSized (theirs r ∷ ts) c s h i =
        >>=-Returns (λ (a : List ℕ × Link). IsSized a.1) (λ (a : Link × S). IsSized a.0)
          (handle_peer_request r c) (λ a. run_turns ts a.1 s)
          (handle_peer_request-IsSized r c h.0 i) (λ a j. run_turns-IsSized ts a.1 s h.1 j)

    -- After MTU exchanges of both sides in any order, successful or not, no request of the client panics and
    -- each returns an error or whole entries, whatever the peer answers: the client's txBuf has the length of its
    -- TxMTU at the start, from 23 to 515 bytes; the peer answers a request of up to 515 bytes by at least
    -- one byte; and its own requests have at least one byte.
    pub run_turns-Whole :
        (ts : List Turn) (c : Link) (s : S) (x : Call)
        → NonEmpty ts
        → IsSized c
        → Returns
            (λ (a : Value × S). Whole x a.0)
            (run_turns ts c s >>= λ a. perform peer (room a.0) x a.1)
    run_turns-Whole ts c s x h i =
        >>=-Returns (λ (a : Link × S). IsSized a.0) (λ (b : Value × S). Whole x b.0)
          (run_turns ts c s) (λ a. perform peer (room a.0) x a.1) (run_turns-IsSized ts c s h i)
          (λ a j.
            perform-Whole peer (room a.0) (omega (arith, j)) (omega (arith, j))
              (Answers-tx_buf a.0 j) x a.1)
