-- ===== src/Adv.antt =====
-- linux/adv/packet.go: advertising packets. A packet is its bytes; a field appends to them or fails,
-- and a failed append leaves the packet as it was. The readers walk the structures of the packet,
-- each a length byte, a type byte and data; the length counts the type byte. `none` is Go's nil.
pub mod Readers
pub mod Structures
pub mod Build
pub mod Total
use ble.Base.{
  ℕ, zero, suc, ◌+◌, ◌-◌, ◌*◌, ◌/◌, ◌%◌, Bool, true, false, not, ◌&&◌, ◌||◌, Option, none, some,
  List, [], ◌∷◌, ◌++◌, Loop, done, out_of_fuel, length, get_or, take, drop, le16, ltb, leb, ◌==◌,
  if◌then◌else◌, if_nil,
}
use ble.Uuid.{uuid16, reversed}

-- ErrInvalid and ErrNotFit.
pub data Error : Type 0 where
  invalid not_fit : Error

pub data Result : Type 0 where
  fit : List ℕ → Result
  err : Error → Result

infixl 5 ◌>>=◌
abbrev pub ◌>>=◌ : Result → (List ℕ → Result) → Result
fit p >>= f = f p
err e >>= f = err e

-- Field: what appends to a packet.
abbrev pub Field : Type 0
Field = List ℕ → Result

abbrev pub max_eir_packet_length : ℕ
max_eir_packet_length = 31

-- The types of the structures.
abbrev pub flags_type : ℕ
flags_type = 0x01

abbrev pub some_uuid16 : ℕ
some_uuid16 = 0x02

abbrev pub all_uuid16 : ℕ
all_uuid16 = 0x03

abbrev pub some_uuid32 : ℕ
some_uuid32 = 0x04

abbrev pub all_uuid32 : ℕ
all_uuid32 = 0x05

abbrev pub some_uuid128 : ℕ
some_uuid128 = 0x06

abbrev pub all_uuid128 : ℕ
all_uuid128 = 0x07

abbrev pub short_name_type : ℕ
short_name_type = 0x08

abbrev pub complete_name_type : ℕ
complete_name_type = 0x09

abbrev pub tx_power_type : ℕ
tx_power_type = 0x0a

abbrev pub service_sol16 : ℕ
service_sol16 = 0x14

abbrev pub service_sol128 : ℕ
service_sol128 = 0x15

abbrev pub service_data16_type : ℕ
service_data16_type = 0x16

abbrev pub service_sol32 : ℕ
service_sol32 = 0x1f

abbrev pub service_data32_type : ℕ
service_data32_type = 0x20

abbrev pub service_data128_type : ℕ
service_data128_type = 0x21

abbrev pub manufacturer_data_type : ℕ
manufacturer_data_type = 0xff

-- Packet.append
unfoldable pub append : ℕ → List ℕ → Field
append typ b p =
    if ltb max_eir_packet_length (length p + 1 + 1 + length b)
    then err not_fit
    else fit (p ++ ((length b + 1) % 256 ∷ typ ∷ b))

-- NewPacket
unfoldable pub add_fields : List Field → Field
add_fields [] p = fit p
add_fields (f ∷ fs) p = f p >>= add_fields fs

unfoldable pub new_packet : List Field → Result
new_packet fs = add_fields fs []

-- NewRawPacket
unfoldable pub new_raw_packet : List (List ℕ) → List ℕ
new_raw_packet [] = []
new_raw_packet (b ∷ bs) = b ++ new_raw_packet bs

-- Raw
unfoldable pub raw : List ℕ → Field
raw b p = if ltb max_eir_packet_length (length p + length b) then err not_fit else fit (p ++ b)

-- Flags
unfoldable pub flags : ℕ → Field
unfolding append
flags f = append flags_type (f ∷ [])

-- ShortName and CompleteName, on the bytes of the name.
unfoldable pub short_name : List ℕ → Field
unfolding append
short_name n = append short_name_type n

unfoldable pub complete_name : List ℕ → Field
unfolding append
complete_name n = append complete_name_type n

-- ManufacturerData
unfoldable pub manufacturer_data : ℕ → List ℕ → Field
unfolding append
manufacturer_data id b = append manufacturer_data_type (le16 id ++ b)

-- IBeaconData
unfoldable pub ibeacon_data : List ℕ → Field
unfolding manufacturer_data
ibeacon_data md = manufacturer_data 0x004c md

-- IBeacon; the bytes of major and minor stand with the high one first.
unfoldable pub ibeacon : List ℕ → ℕ → ℕ → ℕ → Field
unfolding manufacturer_data reversed
ibeacon u major minor pwr p =
    if not (length u == 16)
    then err invalid
    else manufacturer_data 0x004c
        (0x02
          ∷ 0x15
          ∷ (reversed u
              ++ (major / 256 % 256 ∷ major % 256 ∷ minor / 256 % 256 ∷ minor % 256 ∷ pwr ∷ [])))
        p

-- AllUUID and SomeUUID
unfoldable pub all_uuid : List ℕ → Field
unfolding append
all_uuid u =
    if length u == 2
    then append all_uuid16 u
    else if length u == 4
    then append all_uuid32 u
    else append all_uuid128 u

unfoldable pub some_uuid : List ℕ → Field
unfolding append
some_uuid u =
    if length u == 2
    then append some_uuid16 u
    else if length u == 4
    then append some_uuid32 u
    else append some_uuid128 u

-- ServiceData16
unfoldable pub service_data16 : ℕ → List ℕ → Field
unfolding append uuid16
service_data16 id b p =
    append all_uuid16 (uuid16 id) p >>= append service_data16_type (uuid16 id ++ b)

-- The structure at the front of `b` is malformed, or its data run past the end.
abbrev pub broken : List ℕ → Bool
broken b = ltb (get_or b 0 0) 1 || ltb (length b) (1 + get_or b 0 0)

-- b[2:1+l] and b[1+l:], for the length byte l of the structure at the front.
abbrev pub payload : List ℕ → List ℕ
payload b = take (get_or b 0 0 - 1) (drop 2 b)

abbrev pub rest_of : List ℕ → List ℕ
rest_of b = drop (1 + get_or b 0 0) b

-- Packet.Field. A round that goes on takes two bytes at least.
unfoldable pub field_loop : ℕ → ℕ → List ℕ → Loop (Option (List ℕ))
field_loop zero typ b = out_of_fuel
field_loop (suc fuel) typ b =
    let more = field_loop fuel typ (rest_of b) in
    if length b == 0
    then done none
    else if ltb (length b) 2
    then done none
    else if broken b
    then done none
    else if get_or b 1 0 == typ
    then done (some (payload b))
    else more

unfoldable pub field : List ℕ → ℕ → Loop (Option (List ℕ))
unfolding field_loop
field p typ = field_loop (suc (length p)) typ p

-- The loop of fieldPos, at position `pos` of the packet, with `b` what follows.
unfoldable pub field_pos_loop : ℕ → ℕ → List ℕ → ℕ → Loop (Option (List ℕ) × ℕ)
field_pos_loop zero typ b pos = out_of_fuel
field_pos_loop (suc fuel) typ b pos =
    let more = field_pos_loop fuel typ (rest_of b) (pos + 1 + get_or b 0 0) in
    if length b == 0
    then done (none, pos)
    else if broken b
    then done (none, pos + length b)
    else if get_or b 1 0 == typ
    then done (some (payload b), pos + 1 + get_or b 0 0)
    else if ltb (length (rest_of b)) 2
    then done (none, pos + 1 + get_or b 0 0)
    else more

-- fieldPos
unfoldable pub field_pos : List ℕ → ℕ → ℕ → Loop (Option (List ℕ) × ℕ)
unfolding field_pos_loop
field_pos p typ offset =
    if leb (length p) offset
    then done (none, length p)
    else if ltb (length (drop offset p)) 2
    then done (none, offset + length (drop offset p))
    else field_pos_loop (suc (length p)) typ (drop offset p) offset

-- uuidList, whose loop takes `w` bytes a round.
unfoldable pub uuid_list_loop : ℕ → List (List ℕ) → List ℕ → ℕ → Loop (List (List ℕ))
uuid_list_loop zero u d w = out_of_fuel
uuid_list_loop (suc fuel) u d w =
    let more = uuid_list_loop fuel (u ++ (take w d ∷ [])) (drop w d) w in
    if leb w (length d) then more else done u

unfoldable pub uuid_list : List (List ℕ) → List ℕ → ℕ → Loop (List (List ℕ))
unfolding uuid_list_loop
uuid_list u d w = uuid_list_loop (suc (length d)) u d w

abbrev pub and_then {ℓ κ} : {A : Type ℓ} {B : Type κ} → Loop A → (A → Loop B) → Loop B
and_then (done a) f = f a
and_then out_of_fuel f = out_of_fuel

-- getUUIDsByType
unfoldable pub uuids_loop : ℕ → List ℕ → ℕ → List (List ℕ) → ℕ → ℕ → Loop (List (List ℕ))
unfolding field_pos uuid_list
uuids_loop zero p typ u w pos = out_of_fuel
uuids_loop (suc fuel) p typ u w pos = elim (ltb pos (length p)) [
  | false ↦ done u
  | true ↦ and_then (field_pos p typ pos) λ (b, pos').
      and_then (if_nil b (done u) λ d. uuid_list u d w) λ u'. uuids_loop fuel p typ u' w pos'
]

unfoldable pub get_uuids_by_type : List ℕ → ℕ → List (List ℕ) → ℕ → Loop (List (List ℕ))
unfolding uuids_loop
get_uuids_by_type p typ u w = uuids_loop (suc (length p)) p typ u w 0
