-- ===== src/Tests/Dispatch.antt =====
-- Packets of the controller: a command completion, an advertising report, and an event cut short.
use ble.Base.{ℕ, ◌≡◌, ◌↔◌, refl, true, List, [], ◌∷◌, ok, panic, u8_at, slice_from}
use ble.Hci.Dispatch.{
  Dispatch, event, le_event, command_complete, advertising_report, handle_pkt, skt_round,
}
use ble.Hci.Dispatch.Routes.{Carried, handle_pkt_iff}

abbrev reset_complete : List ℕ
reset_complete = 4 ∷ 0x0e ∷ 4 ∷ 1 ∷ 3 ∷ 12 ∷ 0 ∷ []

handle_pkt_iff_example :
    (handle_pkt reset_complete ≡ ok (event command_complete (1 ∷ 3 ∷ 12 ∷ 0 ∷ [])))
    ↔ Carried (event command_complete (1 ∷ 3 ∷ 12 ∷ 0 ∷ [])) reset_complete
handle_pkt_iff_example =
    handle_pkt_iff (event command_complete (1 ∷ 3 ∷ 12 ∷ 0 ∷ [])) reset_complete tt

reset_result : skt_round reset_complete ≡ ok (true, event command_complete (1 ∷ 3 ∷ 12 ∷ 0 ∷ []))
unfolding skt_round u8_at slice_from
reset_result = refl

report_result :
    handle_pkt (4 ∷ 0x3e ∷ 2 ∷ 2 ∷ 0 ∷ []) ≡ ok (le_event advertising_report (2 ∷ 0 ∷ []))
unfolding handle_pkt u8_at slice_from
report_result = refl

-- An event of a code and no length byte.
short_event : handle_pkt (4 ∷ 0x0e ∷ []) ≡ panic
unfolding handle_pkt u8_at slice_from
short_event = refl
