-- ===== src/Profile.antt =====
-- profile.go: services, characteristics and descriptors, and the setters an application builds them
-- with. A handler is the application's, by number, or a closure of newCCCD. The included services,
-- which only a client discovers, are left out.
pub mod Flags
use ble.Base.{
  ℕ, ◌+◌, ◌/◌, ◌%◌, Bool, true, false, Option, none, some, List, [], ◌∷◌, ◌++◌, Go, ok, panic, ◌==◌,
  if◌then◌else◌,
}
use ble.Uuid.{equal}
use ble.Att.Db.{Handler}

pub record Descriptor : Type 0 where
  pub uuid : List ℕ
  pub property : ℕ
  pub handle : ℕ
  pub value : Option (List ℕ)
  pub read_handler : Option Handler
  pub write_handler : Option Handler

pub record Characteristic : Type 0 where
  pub uuid : List ℕ
  pub property : ℕ
  pub secure : ℕ
  pub descriptors : List Descriptor
  pub cccd : Option Descriptor
  pub value : Option (List ℕ)
  pub read_handler : Option Handler
  pub write_handler : Option Handler
  pub notify_handler : Option ℕ
  pub indicate_handler : Option ℕ
  pub handle : ℕ
  pub value_handle : ℕ
  pub end_handle : ℕ

pub record Service : Type 0 where
  pub uuid : List ℕ
  pub characteristics : List Characteristic
  pub handle : ℕ
  pub end_handle : ℕ

abbrev pub char_read : ℕ
char_read = 0x02

abbrev pub char_write_nr : ℕ
char_write_nr = 0x04

abbrev pub char_write : ℕ
char_write = 0x08

abbrev pub char_notify : ℕ
char_notify = 0x10

abbrev pub char_indicate : ℕ
char_indicate = 0x20

-- p | bit, for one of the flags.
unfoldable pub set_flag : ℕ → ℕ → ℕ
set_flag bit p = if p / bit % 2 == 1 then p else p + bit

-- NewDescriptor, NewCharacteristic and NewService
unfoldable pub new_descriptor : List ℕ → Descriptor
new_descriptor u = record {
  uuid = u;
  property = 0;
  handle = 0;
  value = none;
  read_handler = none;
  write_handler = none;
}

unfoldable pub new_characteristic : List ℕ → Characteristic
new_characteristic u = record {
  uuid = u;
  property = 0;
  secure = 0;
  descriptors = [];
  cccd = none;
  value = none;
  read_handler = none;
  write_handler = none;
  notify_handler = none;
  indicate_handler = none;
  handle = 0;
  value_handle = 0;
  end_handle = 0;
}

unfoldable pub new_service : List ℕ → Service
new_service u = record { uuid = u; characteristics = []; handle = 0; end_handle = 0 }

-- Service.AddCharacteristic
has_characteristic : List ℕ → List Characteristic → Bool
has_characteristic u [] = false
has_characteristic u (x ∷ xs) = if equal x.uuid u then true else has_characteristic u xs

unfoldable pub add_characteristic : Characteristic → Service → Go Service
unfolding has_characteristic
add_characteristic c s =
    if has_characteristic c.uuid s.characteristics
    then panic
    else ok (record {
      uuid = s.uuid;
      characteristics = s.characteristics ++ (c ∷ []);
      handle = s.handle;
      end_handle = s.end_handle;
    })

-- Characteristic.AddDescriptor
has_descriptor : List ℕ → List Descriptor → Bool
has_descriptor u [] = false
has_descriptor u (x ∷ xs) = if equal x.uuid u then true else has_descriptor u xs

with_descriptors : List Descriptor → Characteristic → Characteristic
with_descriptors ds c = record {
  uuid = c.uuid;
  property = c.property;
  secure = c.secure;
  descriptors = ds;
  cccd = c.cccd;
  value = c.value;
  read_handler = c.read_handler;
  write_handler = c.write_handler;
  notify_handler = c.notify_handler;
  indicate_handler = c.indicate_handler;
  handle = c.handle;
  value_handle = c.value_handle;
  end_handle = c.end_handle;
}

unfoldable pub add_descriptor : Descriptor → Characteristic → Go Characteristic
unfolding has_descriptor with_descriptors
add_descriptor d c =
    if has_descriptor d.uuid c.descriptors
    then panic
    else ok (with_descriptors (c.descriptors ++ (d ∷ [])) c)

-- FindService, FindCharacteristic and FindDescriptor, by the UUID of what is looked for.
unfoldable pub find_service : List ℕ → List Service → Option Service
find_service u [] = none
find_service u (s ∷ ss) = if equal s.uuid u then some s else find_service u ss

find_in_service : List ℕ → List Characteristic → Option Characteristic
find_in_service u [] = none
find_in_service u (c ∷ cs) = if equal c.uuid u then some c else find_in_service u cs

unfoldable pub find_characteristic : List ℕ → List Service → Option Characteristic
unfolding find_in_service
find_characteristic u [] = none
find_characteristic u (s ∷ ss) = elim (find_in_service u s.characteristics) [
  | some c ↦ some c
  | none ↦ find_characteristic u ss
]

find_in_descriptors : List ℕ → List Descriptor → Option Descriptor
find_in_descriptors u [] = none
find_in_descriptors u (d ∷ ds) = if equal d.uuid u then some d else find_in_descriptors u ds

find_in_characteristics : List ℕ → List Characteristic → Option Descriptor
unfolding find_in_descriptors
find_in_characteristics u [] = none
find_in_characteristics u (c ∷ cs) = elim (find_in_descriptors u c.descriptors) [
  | some d ↦ some d
  | none ↦ find_in_characteristics u cs
]

unfoldable pub find_descriptor : List ℕ → List Service → Option Descriptor
unfolding find_in_characteristics
find_descriptor u [] = none
find_descriptor u (s ∷ ss) = elim (find_in_characteristics u s.characteristics) [
  | some d ↦ some d
  | none ↦ find_descriptor u ss
]

-- The five things a setter of a characteristic changes.
unfoldable pub configure :
    Characteristic
    → ℕ
    → Option (List ℕ)
    → Option Handler
    → Option Handler
    → Option ℕ
    → Option ℕ
    → Characteristic
configure c property value rh wh nh ih = record {
  uuid = c.uuid;
  property = property;
  secure = c.secure;
  descriptors = c.descriptors;
  cccd = c.cccd;
  value = value;
  read_handler = rh;
  write_handler = wh;
  notify_handler = nh;
  indicate_handler = ih;
  handle = c.handle;
  value_handle = c.value_handle;
  end_handle = c.end_handle;
}

-- Characteristic.SetValue, HandleRead, HandleWrite, HandleNotify and HandleIndicate
unfoldable pub set_value : List ℕ → Characteristic → Go Characteristic
unfolding configure set_flag
set_value b c = elim c.read_handler [
  | some _ ↦ panic
  | none ↦ ok (
      configure c (set_flag char_read c.property) (some b) c.read_handler c.write_handler
        c.notify_handler c.indicate_handler)
]

unfoldable pub handle_read : Handler → Characteristic → Go Characteristic
unfolding configure set_flag
handle_read h c = elim c.value [
  | some _ ↦ panic
  | none ↦ ok (
      configure c (set_flag char_read c.property) c.value (some h) c.write_handler c.notify_handler
        c.indicate_handler)
]

unfoldable pub handle_write : Handler → Characteristic → Characteristic
unfolding configure set_flag
handle_write h c =
    configure c (set_flag char_write_nr (set_flag char_write c.property)) c.value c.read_handler
      (some h) c.notify_handler c.indicate_handler

unfoldable pub handle_notify : ℕ → Characteristic → Characteristic
unfolding configure set_flag
handle_notify h c =
    configure c (set_flag char_notify c.property) c.value c.read_handler c.write_handler (some h)
      c.indicate_handler

unfoldable pub handle_indicate : ℕ → Characteristic → Characteristic
unfolding configure set_flag
handle_indicate h c =
    configure c (set_flag char_indicate c.property) c.value c.read_handler c.write_handler
      c.notify_handler (some h)

-- Descriptor.SetValue, HandleRead and HandleWrite
configure_descriptor :
    Descriptor → ℕ → Option (List ℕ) → Option Handler → Option Handler → Descriptor
configure_descriptor d property value rh wh = record {
  uuid = d.uuid;
  property = property;
  handle = d.handle;
  value = value;
  read_handler = rh;
  write_handler = wh;
}

unfoldable pub set_descriptor_value : List ℕ → Descriptor → Go Descriptor
unfolding configure_descriptor set_flag
set_descriptor_value b d = elim d.read_handler [
  | some _ ↦ panic
  | none ↦ ok (
      configure_descriptor d (set_flag char_read d.property) (some b) d.read_handler
        d.write_handler)
]

unfoldable pub handle_descriptor_read : Handler → Descriptor → Go Descriptor
unfolding configure_descriptor set_flag
handle_descriptor_read h d = elim d.value [
  | some _ ↦ panic
  | none ↦
      ok (configure_descriptor d (set_flag char_read d.property) d.value (some h) d.write_handler)
]

unfoldable pub handle_descriptor_write : Handler → Descriptor → Descriptor
unfolding configure_descriptor set_flag
handle_descriptor_write h d =
    configure_descriptor d (set_flag char_write_nr (set_flag char_write d.property)) d.value
      d.read_handler (some h)
