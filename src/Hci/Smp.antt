-- ===== src/Hci/Smp.antt =====
-- linux/hci/smp.go: the answers to security commands, none of which is supported.
use ble.Base.{
  ℕ, ◌+◌, ◌≤◌, ◌<◌, Bool, false, ◌&&◌, Option, none, some, List, [], ◌∷◌, ◌++◌, Go, ok, ◌>>=◌,
  length, ltb, leb, ◌==◌, if◌then◌else◌, le16, u8_at, ◌≡◌, ◌≢◌, ◌⊎◌, arith, refl, slice_from,
}
use ble.Hci.Acl.{cid_smp, payload}

abbrev pub pairing_request : ℕ
pairing_request = 0x01

abbrev pub pairing_failed : ℕ
pairing_failed = 0x05

abbrev pub pairing_keypress : ℕ
pairing_keypress = 0x0E

abbrev pub smp_pairing_not_supported : ℕ
smp_pairing_not_supported = 0x05

-- The switch of handleSMP: a known code, from Pairing Request to Keypress Notification, is answered,
-- save for Pairing Failed and Keypress Notification.
is_answered : ℕ → Bool
is_answered code =
    if code == pairing_failed
    then false
    else if code == pairing_keypress
    then false
    else leb pairing_request code && leb code pairing_keypress

-- sendSMP: the frame that goes to writePDU.
unfoldable pub smp_frame : List ℕ → List ℕ
smp_frame p = le16 (length p) ++ le16 cid_smp ++ p

-- handleSMP: the frame that is sent, if one is.
unfoldable pub handle_smp : List ℕ → Go (Option (List ℕ))
unfolding is_answered smp_frame payload
handle_smp p =
    if ltb (length p) (4 + 1)
    then ok none
    else (payload p >>= λ bs. u8_at bs 0 >>= λ code.
        if is_answered code
        then ok (some (smp_frame (pairing_failed ∷ smp_pairing_not_supported ∷ [])))
        else ok none)

-- No security command makes handleSMP panic. Exactly the commands with a code from 1 to 14 other than
-- Pairing Failed (5) and Keypress Notification (14) are answered, with Pairing Failed and the reason
-- Pairing Not Supported; any other PDU, one without a code included, is dropped. So an answer of this
-- side is never answered by a peer that runs the same code.
pub handle_smp_lem :
    (p : List ℕ)
    → (length p < 5 → handle_smp p ≡ ok none)
      × ((a b c d code : ℕ) (rest : List ℕ)
          → p ≡ a ∷ b ∷ c ∷ d ∷ code ∷ rest
          → (1 ≤ code × (code ≤ 13 × code ≢ 5)
              → handle_smp p ≡ ok (some (2 ∷ 0 ∷ 6 ∷ 0 ∷ 5 ∷ 5 ∷ [])))
            × ((code ≡ 0) ⊎ ((code ≡ 5) ⊎ (13 < code)) → handle_smp p ≡ ok none))
      × (handle_smp (smp_frame (pairing_failed ∷ smp_pairing_not_supported ∷ [])) ≡ ok none)
unfolding handle_smp is_answered smp_frame payload u8_at slice_from
handle_smp_lem p =
    (λ h. ground arith, λ a b c d code rest e. rw e (λ h. ground arith, λ h. ground arith), refl)
