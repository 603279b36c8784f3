-- ===== src/Adv/Readers.antt =====
-- linux/adv/packet.go: what a received packet says.
use ble.Base.{
  ℕ, Option, none, some, List, [], ◌∷◌, ◌++◌, Loop, done, length, take, drop, ltb, if◌then◌else◌,
  if_nil,
}
use ble.Adv.{
  field, get_uuids_by_type, uuid_list, and_then, flags_type, short_name_type, complete_name_type,
  tx_power_type, some_uuid16, all_uuid16, some_uuid32, all_uuid32, some_uuid128, all_uuid128,
  service_sol16, service_sol32, service_sol128, service_data16_type, service_data32_type,
  service_data128_type, manufacturer_data_type,
}

-- The first byte of a structure that has one.
abbrev pub first_byte : Option (List ℕ) → Option ℕ
first_byte none = none
first_byte (some []) = none
first_byte (some (b ∷ bs)) = some b

-- Flags: `none` where the flag `present` is false.
unfoldable pub flags_of : List ℕ → Loop (Option ℕ)
unfolding field
flags_of p = and_then (field p flags_type) λ b. done (first_byte b)

-- LocalName
unfoldable pub local_name : List ℕ → Loop (List ℕ)
unfolding field
local_name p =
    and_then (field p short_name_type) λ b.
      if_nil b (and_then (field p complete_name_type) λ c. done (if_nil c [] λ n. n)) λ n. done n

-- TxPower, as the byte that int8 reads as a two's complement number.
unfoldable pub tx_power : List ℕ → Loop (Option ℕ)
unfolding field
tx_power p = and_then (field p tx_power_type) λ b. done (first_byte b)

-- UUIDs
unfoldable pub uuids : List ℕ → Loop (List (List ℕ))
unfolding get_uuids_by_type
uuids p = and_then (get_uuids_by_type p some_uuid16 [] 2) λ a.
    and_then (get_uuids_by_type p all_uuid16 a 2) λ b.
      and_then (get_uuids_by_type p some_uuid32 b 4) λ c.
        and_then (get_uuids_by_type p all_uuid32 c 4) λ d.
          and_then (get_uuids_by_type p some_uuid128 d 16) λ e. get_uuids_by_type p all_uuid128 e 16

-- The UUIDs of one solicitation structure, if there is one.
unfoldable pub sol_step : List ℕ → ℕ → ℕ → List (List ℕ) → Loop (List (List ℕ))
unfolding field uuid_list
sol_step p typ w u = and_then (field p typ) λ b. if_nil b (done u) λ d. uuid_list u d w

-- ServiceSol
unfoldable pub service_sol : List ℕ → Loop (List (List ℕ))
unfolding sol_step
service_sol p =
    and_then (sol_step p service_sol16 2 [])
      λ a. and_then (sol_step p service_sol32 4 a) λ b. sol_step p service_sol128 16 b

pub record ServiceData : Type 0 where
  pub uuid : List ℕ
  pub bytes : List ℕ

-- serviceDataList
unfoldable pub service_data_list : List ServiceData → List ℕ → ℕ → List ServiceData
service_data_list sd d w =
    if ltb (length d) w then sd else sd ++ (record { uuid = take w d; bytes = drop w d } ∷ [])

unfoldable pub data_step : List ℕ → ℕ → ℕ → List ServiceData → Loop (List ServiceData)
unfolding field service_data_list
data_step p typ w sd = and_then (field p typ) λ b. done (if_nil b sd λ d. service_data_list sd d w)

-- ServiceData
unfoldable pub service_data : List ℕ → Loop (List ServiceData)
unfolding data_step
service_data p =
    and_then (data_step p service_data16_type 2 [])
      λ a. and_then (data_step p service_data32_type 4 a) λ b. data_step p service_data128_type 16 b

-- ManufacturerData
unfoldable pub manufacturer_data_of : List ℕ → Loop (Option (List ℕ))
unfolding field
manufacturer_data_of p = field p manufacturer_data_type
