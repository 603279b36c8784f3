-- ===== src/Att/Server/Calls.antt =====
-- handleATT keeps what the handlers must keep, and runs to its end.
use ble.Base.{
  ℕ, ◌≤◌, true, Option, none, some, List, drop, Returns, >>=-Returns, length, ◌≡◌, refl, ◌==◌, ◌||◌,
  inl, inr, Bool-cases, u8_at-ok, u16_at-ok, slice_from-ok, get_or, le_u16,
}
use ble.Att.Pdu.{err_success, read_blob_request_code, write_request_code, write_command_code}
use ble.Att.Handler.{Writer, App, Fits, run-Fits, write-Fits, set_status}
use ble.Att.Db.{Attr, Handler, custom, cccd}
use ble.Att.Server.State.{Server, ccc_read}
use ble.Att.Server.Call.{
  serve_read, serve_write, read_with, read_blob_with, write_with, handle_att, reads_whole,
}
use ble.Att.Server.Inv.{Subscribed, same, SafeWrite, Kept, ccc_write-Kept}

module _ (app : App) where
  serve_read-Kept :
      (f : Handler) (offset : ℕ) (w : Writer) (s : Server)
      → Fits w
      → Subscribed s.conn
      → Returns (Kept w s) (serve_read app f offset w s)
  unfolding serve_read ccc_read
  serve_read-Kept (custom k) offset w s h b =
      let (f, e) = run-Fits (app _) w h in
      (
        record {
          db = refl;
          tx_len = refl;
          prepared = refl;
          prepared_bytes = refl;
          rx_mtu = refl;
          not_len = refl;
          ind_len = refl;
          tx_mtu = refl;
        },
        b,
        (λ _. f),
        e,
        λ l. inl l,
      )
  serve_read-Kept (cccd c) offset w s h b =
      let (f, e) = write-Fits w _ h in (same s, b, (λ _. f), e, λ l. inl l)

  pub serve_write-Kept :
      (f : Handler) (value : List ℕ) (offset : ℕ) (w : Writer) (s : Server)
      → SafeWrite f value
      → Fits w
      → Subscribed s.conn
      → Returns (Kept w s) (serve_write app f value offset w s)
  unfolding serve_write
  serve_write-Kept (custom k) value offset w s v h b =
      let (f, e) = run-Fits (app _) w h in
      (
        record {
          db = refl;
          tx_len = refl;
          prepared = refl;
          prepared_bytes = refl;
          rx_mtu = refl;
          not_len = refl;
          ind_len = refl;
          tx_mtu = refl;
        },
        b,
        (λ _. f),
        e,
        λ l. inl l,
      )
  serve_write-Kept (cccd c) value offset w s v h b = ccc_write-Kept c value w s v b

  -- What handleATT asks of the request, for the attribute at hand.
  abbrev pub Handles : Attr → List ℕ → Type 0
  Handles a r =
      (1 ≤ length r)
      × ((get_or r 0 0 == read_blob_request_code) ≡ true → 5 ≤ length r)
      × ((get_or r 0 0 == write_request_code || get_or r 0 0 == write_command_code) ≡ true
          → (3 ≤ length r) × ((f : Handler) → a.wh ≡ some f → SafeWrite f (drop 3 r)))

  abbrev pub Handled : Writer → Server → ℕ × (Writer × Server) → Type 0
  Handled w s (e, r) = Kept w s r

  read_with-Kept :
      (o : Option Handler) (offset : ℕ) (w : Writer) (s : Server)
      → Fits w
      → Subscribed s.conn
      → Returns (Handled w s) (read_with app o offset w s)
  read_with-Kept none offset w s h b = (same s, b, (λ f. f), refl, λ l. inl l)
  read_with-Kept (some f) offset w s h b =
      >>=-Returns (Kept w s) (Handled w s) _ _ (serve_read-Kept f offset w s h b) (λ r k. k)

  read_blob_with-Kept :
      (o : Option Handler) (r : List ℕ) (w : Writer) (s : Server)
      → 5 ≤ length r
      → Fits w
      → Subscribed s.conn
      → Returns (Handled w s) (read_blob_with app o r w s)
  read_blob_with-Kept none r w s n h b = (same s, b, (λ f. f), refl, λ l. inl l)
  read_blob_with-Kept (some f) r w s n h b =
      rw (u16_at-ok r 3 n) (read_with-Kept (some f) (le_u16 r 3) w s h b)

  write_with-Kept :
      (o : Option Handler) (r : List ℕ) (w : Writer) (s : Server)
      → 3 ≤ length r
      → ((f : Handler) → o ≡ some f → SafeWrite f (drop 3 r))
      → Fits w
      → Subscribed s.conn
      → Returns (Handled w s) (write_with app o r w s)
  write_with-Kept none r w s n v h b = (same s, b, (λ f. f), refl, λ l. inl l)
  write_with-Kept (some f) r w s n v h b = rw (slice_from-ok r 3 n) (
      >>=-Returns (Kept w s) (Handled w s) _ _ (serve_write-Kept f (drop 3 r) 0 w s (v f refl) h b)
        (λ x k. k))

  -- handleATT ends without a panic on a request that is long enough for its opcode and, where it writes to
  -- a CCC descriptor, has two bytes of value and a characteristic with the handlers that its property
  -- promises. It changes nothing of the server but the history of the handlers' calls and the
  -- subscriptions and notifiers of the connection, keeps a notifier for every subscription, open exactly
  -- for those if it was so before and the write is not refused with ErrUnlikely, and never writes past
  -- the storage of the response writer, which it does not resize.
  pub handle_att-Kept :
      (a : Attr) (s : Server) (r : List ℕ) (w : Writer)
      → Handles a r
      → Fits w
      → Subscribed s.conn
      → Returns (Handled w s) (handle_att app a s r w)
  unfolding handle_att set_status
  handle_att-Kept a s r w (n, p, q) h b =
      let w0 = set_status w err_success in
      rw (u8_at-ok r 0 n) (elim (Bool-cases (reads_whole (get_or r 0 0))) [
        | inl e ↦ rw e (read_with-Kept a.rh 0 w0 s h b)
        | inr e ↦ rw e (elim (Bool-cases (get_or r 0 0 == read_blob_request_code)) [
          | inl d ↦ rw d (read_blob_with-Kept a.rh r w0 s (p d) h b)
          | inr d ↦
              rw d
                (elim (Bool-cases
                  (get_or r 0 0 == write_request_code || get_or r 0 0 == write_command_code)) [
                    | inl c ↦ rw c (write_with-Kept a.wh r w0 s (q c).0 (q c).1 h b)
                    | inr c ↦ rw c (same s, b, (λ f. f), refl, λ l. inl l)
                  ])
        ])
      ])
