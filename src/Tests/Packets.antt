-- ===== src/Tests/Packets.antt =====
-- Advertising packets and connection parameters.
use ble.Params
use ble.Base.{ℕ, ◌+◌, ◌≤◌, ◌<◌, some, List, [], ◌∷◌, ◌++◌, All, done, ◌≡◌, refl, ◌⊎◌, ◌↔◌}
use ble.Adv.{field, append, err, not_fit, fit}
use ble.Adv.Structures.{Structure, encode, Reading, field-find_type}
use ble.Adv.Build.{append-encode, field-append}
use ble.Adv.Readers.{uuids}
use ble.Adv.Total.{Ends, IsUuid, uuids-Ends}
use ble.Params.{ConnParams, Encoded, pos, validate_data_length}
use ble.Params.Ranges.{Encodes, Permitted, encode_iff}

-- Flags and a name, and a structure that claims more bytes than there are.
abbrev packet : List ℕ
packet = 2 ∷ 1 ∷ 6 ∷ 3 ∷ 9 ∷ 104 ∷ 105 ∷ 255 ∷ 22 ∷ []

abbrev packet_reading : Reading packet
packet_reading = record {
  structures = (1, 6 ∷ []) ∷ (9, 104 ∷ 105 ∷ []) ∷ [];
  tail = 255 ∷ 22 ∷ [];
  split = refl;
  stopped = refl;
}

field-find_type_example : field packet 9 ≡ done (some (104 ∷ 105 ∷ []))
field-find_type_example = field-find_type packet packet_reading 9

abbrev flags_only : List Structure
flags_only = (1, 6 ∷ []) ∷ []

append-encode_example :
    ((31 < 3 + 2 + 2) × (append 9 (104 ∷ 105 ∷ []) (encode flags_only) ≡ err not_fit))
    ⊎ ((7 ≤ 31)
        × (append 9 (104 ∷ 105 ∷ []) (encode flags_only)
            ≡ fit (encode (flags_only ++ ((9, 104 ∷ 105 ∷ []) ∷ [])))))
append-encode_example = append-encode flags_only 9 (104 ∷ 105 ∷ [])

field-append_example : field (2 ∷ 1 ∷ 6 ∷ 3 ∷ 9 ∷ 104 ∷ 105 ∷ []) 9 ≡ done (some (104 ∷ 105 ∷ []))
field-append_example =
    field-append flags_only 9 (104 ∷ 105 ∷ []) (2 ∷ 1 ∷ 6 ∷ 3 ∷ 9 ∷ 104 ∷ 105 ∷ []) refl
      (unfold append in refl)

uuids-Ends_example : Ends (All IsUuid) (uuids (3 ∷ 2 ∷ 13 ∷ 24 ∷ []))
uuids-Ends_example = uuids-Ends (3 ∷ 2 ∷ 13 ∷ 24 ∷ [])

-- 30 ms to 50 ms, no latency, 4 s.
abbrev params : ConnParams
params = record {
  interval_min = pos 30000000;
  interval_max = pos 50000000;
  latency = pos 0;
  timeout = pos 4000000000;
}

abbrev units : Encoded
units = record { interval_min = 24; interval_max = 40; latency = 0; timeout = 400 }

encode_iff_example :
    (ble.Params.encode params ≡ some units) ↔ (Encodes params units × Permitted units)
encode_iff_example = encode_iff params units

params_example : ble.Params.encode params ≡ some units
unfolding ble.Params.encode
params_example = refl
