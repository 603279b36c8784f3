-- ===== src/Att/Server/Session.antt =====
-- NewServer and Loop of linux/att/server.go: a server from its start to the end of its connection. The
-- confirmations of indications, which Loop's reader takes out, are not among the requests.
use mathlib.Core.Path.{subst}
use ble.Base.{
  sym, ◌∙◌, ℕ, ◌+◌, ◌≤◌, ◌<◌, Bool, true, false, ◌||◌, Option, none, some, List, [], ◌∷◌, Go, ok,
  panic, ◌>>=◌, Returns, >>=-Returns, length, get_or, ltb, ◌==◌, if◌then◌else◌, ◌≡◌, refl, arith,
  Bool-cases, inl, inr,
}
use ble.Profile.{Service}
use ble.Att.Handler.{App}
use ble.Att.Db.{Db}
use ble.Att.Generate.{new_db}
use ble.Att.Generate.Layout.{db_size, new_db-Grouped}
use ble.Att.Db.Lookup.{Numbered}
use ble.Att.Server.State.{Server, Conn, ccc_of, has_notify, has_indicate, close_notifier}
use ble.Att.Server.Reads.{Answer, default_mtu, max_mtu}
use ble.Att.Server.Dispatch.{handle_request}
use ble.Att.Server.Inv.{Inv, has, close_notifier-eq, has-insert}
use ble.Att.Server.Answers.{Answers, AnswerOk}
use ble.Att.Server.WriteAnswers.{SafeRequest}
use ble.Att.Server.Total.{handle_request-AnswerOk}

-- The server that NewServer makes.
unfoldable pub fresh_server : Db → ℕ → ℕ → Server
fresh_server db rx_mtu tx_mtu = record {
  conn = record { tx_mtu = tx_mtu; cccs = []; nn = []; ind = [] };
  db = db;
  rx_mtu = rx_mtu;
  tx_len = default_mtu;
  not_len = default_mtu;
  ind_len = default_mtu;
  prepared = [];
  prepared_bytes = 0;
  calls = [];
}

-- NewServer on a connection with these MTUs; `none` is ErrInvalidMTU.
unfoldable pub new_server : Db → ℕ → ℕ → Option Server
unfolding fresh_server
new_server db rx_mtu tx_mtu =
    if ltb rx_mtu default_mtu || ltb max_mtu rx_mtu
    then none
    else some (fresh_server db rx_mtu tx_mtu)

module _ (app : App) where
  -- The requests one after the other: the response to each, of which an empty one is not sent.
  unfoldable pub serve : Server → List (List ℕ) → Go (List (List ℕ) × Server)
  serve s [] = ok ([], s)
  serve s (r ∷ rs) = handle_request app s r >>= λ a. serve a.1 rs >>= λ b. ok (a.0 ∷ b.0, b.1)

-- The keys of a map, each once.
keys : List ℕ → List (ℕ × ℕ) → List ℕ
keys seen [] = []
keys seen ((h, v) ∷ m) = if is_seen h seen then keys seen m else h ∷ keys (h ∷ seen) m
  where
    is_seen : ℕ → List ℕ → Bool
    is_seen h [] = false
    is_seen h (k ∷ ks) = if h == k then true else is_seen h ks

-- One round of the loop that ends Loop.
close_subscription :
    ℕ → ℕ → List (ℕ × Bool) × List (ℕ × Bool) → Go (List (ℕ × Bool) × List (ℕ × Bool))
close_subscription h ccc (nn, ind) =
    (if has_indicate ccc then close_notifier h ind else ok ind) >>= λ ind1.
    (if has_notify ccc then close_notifier h nn else ok nn) >>= λ nn1. ok (nn1, ind1)

close_all :
    Conn → List ℕ → List (ℕ × Bool) × List (ℕ × Bool) → Go (List (ℕ × Bool) × List (ℕ × Bool))
unfolding close_subscription
close_all c [] m = ok m
close_all c (h ∷ hs) m = close_subscription h (ccc_of c h) m >>= close_all c hs

-- The end of Loop: the notifiers of the subscriptions are closed. Go visits the map's keys in any order.
unfoldable pub cleanup : Conn → Go (List (ℕ × Bool) × List (ℕ × Bool))
unfolding keys close_all
cleanup c = close_all c (keys [] c.cccs) (c.nn, c.ind)

module _ (app : App) where
  -- Loop, for the requests that arrive before the connection is lost.
  unfoldable pub loop : Server → List (List ℕ) → Go (List (List ℕ))
  unfolding serve cleanup
  loop s rs = serve app s rs >>= λ b. cleanup b.1.conn >>= λ _. ok b.0

-- Every key that is closed has its notifier, in each of the two maps.
abbrev Covers : Conn → List (ℕ × Bool) × List (ℕ × Bool) → Type 0
Covers c (nn, ind) =
    ((h : ℕ) → has_notify (ccc_of c h) ≡ true → has h nn ≡ true)
    × ((h : ℕ) → has_indicate (ccc_of c h) ≡ true → has h ind ≡ true)

close_if :
    (b : Bool) (h : ℕ) (m : List (ℕ × Bool))
    → (b ≡ true → has h m ≡ true)
    → Returns
        (λ n. (k : ℕ) → has k m ≡ true → has k n ≡ true)
        (if b then close_notifier h m else ok m)
close_if false h m p = λ k e. e
close_if true h m p = rw (close_notifier-eq h m (p refl)) (λ k e. has-insert h k false m e)

close_subscription-Covers :
    (c : Conn) (h : ℕ) (m : List (ℕ × Bool) × List (ℕ × Bool))
    → Covers c m
    → Returns (Covers c) (close_subscription h (ccc_of c h) m)
unfolding close_subscription
close_subscription-Covers c h (nn, ind) w =
    >>=-Returns (λ n. (k : ℕ) → has k ind ≡ true → has k n ≡ true) (Covers c) _ _
      (close_if _ h ind (w.1 h))
      (λ ind1 p.
        >>=-Returns (λ n. (k : ℕ) → has k nn ≡ true → has k n ≡ true) (Covers c) _ _
          (close_if _ h nn (w.0 h)) (λ nn1 q. (λ k e. q k (w.0 k e), λ k e. p k (w.1 k e))))

close_all-Returns :
    (c : Conn) (hs : List ℕ) (m : List (ℕ × Bool) × List (ℕ × Bool))
    → Covers c m
    → Returns (Covers c) (close_all c hs m)
unfolding close_all
close_all-Returns c [] m w = w
close_all-Returns c (h ∷ hs) m w =
    >>=-Returns (Covers c) (Covers c) (close_subscription h (ccc_of c h) m) (close_all c hs)
      (close_subscription-Covers c h m w) (λ n k. close_all-Returns c hs n k)

module _ (app : App) where
  -- The responses to the requests in turn, each judged by the MTU that is in force when its request comes.
  abbrev pub Answered : Server → List (List ℕ) → List (List ℕ) → Type 0
  Answered s [] [] = Unit {0}
  Answered s [] (a ∷ answers) = ⊥
  Answered s (r ∷ rs) [] = ⊥
  Answered s (r ∷ rs) (a ∷ answers) =
      (t : Server) × ((handle_request app s r ≡ ok (a, t))
        × (Answers s.tx_len (get_or r 0 0) r a × Answered t rs answers))

module _ (db : Db) (numbered : Numbered db.base db.attrs) where
  new_server-Inv : (rx_mtu tx_mtu : ℕ) (s : Server) → new_server db rx_mtu tx_mtu ≡ some s → Inv s
  unfolding new_server fresh_server
  new_server-Inv rx_mtu tx_mtu s e =
      elim (Bool-cases (ltb rx_mtu default_mtu || ltb max_mtu rx_mtu)) [
        | inl d ↦ absurd (none-some s (sym (rw d refl) ∙ e))
        | inr d ↦
            subst Inv (some-injective (fresh_server db rx_mtu tx_mtu) s (sym (rw d refl) ∙ e))
              (record {
                mtu_low = omega arith;
                mtu_high = omega arith;
                numbered = numbered;
                entries = omega arith;
                counted = refl;
                bounded = omega arith;
                ready = tt;
                subscribed = record { notifies = λ h e. cc; indicates = λ h e. cc };
              })
      ]
    where
      none-some : (s : Server) → none ≡ some s → ⊥
      none-some s e = cc

      some-injective : (s t : Server) → some s ≡ some t → s ≡ t
      some-injective s t e = cc

Numbered-new_db :
    (ss : List Service) (base : ℕ)
    → 0 < base
    → base + db_size ss < 65536
    → Numbered (new_db ss base).0.base (new_db ss base).0.attrs
Numbered-new_db ss base p b =
    let g = new_db-Grouped ss base p b in
    subst (λ n. Numbered n (new_db ss base).0.attrs) (sym g.0) g.2

module _ (app : App) where
  -- Each request is one that its server may be sent: it has a byte, and is safe.
  abbrev pub SafeAll : Server → List (List ℕ) → Type 0
  SafeAll s [] = Unit {0}
  SafeAll s (r ∷ rs) =
      (1 ≤ length r)
      × SafeRequest app s r
      × ((a : Answer) → handle_request app s r ≡ ok a → SafeAll a.1 rs)

  serve-step :
      (s : Server) (r : List ℕ) (rs : List (List ℕ)) (m : Go Answer)
      → Inv s
      → ((t : Server)
          → Inv t
          → SafeAll t rs
          → Returns
              (λ (b : List (List ℕ) × Server). Answered app t rs b.0 × Inv b.1)
              (serve app t rs))
      → Returns (AnswerOk s.tx_len r) m
      → handle_request app s r ≡ m
      → ((a : Answer) → m ≡ ok a → SafeAll a.1 rs)
      → Returns
          (λ (b : List (List ℕ) × Server). Answered app s (r ∷ rs) b.0 × Inv b.1)
          (m >>= λ a. serve app a.1 rs >>= λ b. ok (a.0 ∷ b.0, b.1))
  serve-step s r rs panic i later h q k = h
  serve-step s r rs (ok a) i later h q k =
      >>=-Returns (λ (b : List (List ℕ) × Server). Answered app a.1 rs b.0 × Inv b.1)
        (λ (b : List (List ℕ) × Server). Answered app s (r ∷ rs) b.0 × Inv b.1) _ _
        (later a.1 h.0 (k a refl)) (λ b p. ((a.1, (q, (h.1, p.0))), p.1))

  serve-Answered :
      (s : Server) (rs : List (List ℕ))
      → Inv s
      → SafeAll s rs
      → Returns (λ (b : List (List ℕ) × Server). Answered app s rs b.0 × Inv b.1) (serve app s rs)
  unfolding serve
  serve-Answered s [] i safe = (tt, i)
  serve-Answered s (r ∷ rs) i safe =
      serve-step s r rs (handle_request app s r) i (λ t j w. serve-Answered t rs j w)
        (handle_request-AnswerOk app s r i safe.0 safe.1) refl safe.2

  loop-Answered :
      (s : Server) (rs : List (List ℕ))
      → Inv s
      → SafeAll s rs
      → Returns (Answered app s rs) (loop app s rs)
  unfolding loop cleanup
  loop-Answered s rs i safe =
      >>=-Returns (λ (b : List (List ℕ) × Server). Answered app s rs b.0 × Inv b.1)
        (Answered app s rs) _ _ (serve-Answered s rs i safe)
        (λ b p.
          >>=-Returns (Covers b.1.conn) (Answered app s rs) _ _
            (close_all-Returns b.1.conn (keys [] b.1.conn.cccs) (b.1.conn.nn, b.1.conn.ind)
              (p.1.subscribed.notifies, p.1.subscribed.indicates))
            (λ _ _. p.0))

  -- A server that NewServer makes for the database that NewDB makes of services that fit runs Loop to its
  -- end without a panic on safe requests, whatever the application's handlers do. Each request gets its
  -- own answer: an error response, the response of its opcode within the transmit MTU that is in force
  -- when it comes, the echo of a prepared write, which is as long as the request, or none for a command;
  -- and no notifier that the end of Loop closes is missing. Each request has a byte and is safe: it gives
  -- no CCC descriptor fewer than two bytes, nor a subscription that has no handler.
  pub loop-new_server :
      (ss : List Service) (base rx_mtu tx_mtu : ℕ) (s : Server) (rs : List (List ℕ))
      → 0 < base
      → base + db_size ss < 65536
      → new_server (new_db ss base).0 rx_mtu tx_mtu ≡ some s
      → SafeAll s rs
      → Returns (Answered app s rs) (loop app s rs)
  loop-new_server ss base rx_mtu tx_mtu s rs p b e safe =
      loop-Answered s rs
        (new_server-Inv (new_db ss base).0 (Numbered-new_db ss base p b) rx_mtu tx_mtu s e) safe
