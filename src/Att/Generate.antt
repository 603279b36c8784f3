-- ===== src/Att/Generate.antt =====
-- linux/att/db.go: the attribute database of a list of services. A handle is a uint16, whose increment
-- wraps. The code writes the handles and the new descriptor into the characteristics it is given; the
-- functions return the changed ones.
pub mod Layout
use ble.Base.{
  ℕ, ◌+◌, ◌-◌, ◌/◌, ◌%◌, Bool, true, false, ◌||◌, Option, none, some, List, [], ◌∷◌, ◌++◌,
  if◌then◌else◌,
}
use ble.Uuid.{uuid16}
use ble.Att.Db.{Attr, Db, Handler, custom, cccd, Cccd}
use ble.Profile.{Descriptor, Characteristic, Service}

abbrev pub primary_service_uuid : List ℕ
primary_service_uuid = 0x00 ∷ 0x28 ∷ []

abbrev pub characteristic_uuid : List ℕ
characteristic_uuid = 0x03 ∷ 0x28 ∷ []

abbrev pub client_characteristic_config_uuid : List ℕ
client_characteristic_config_uuid = 0x02 ∷ 0x29 ∷ []

-- h + 1, h + 2 and h - 1 of a uint16
unfoldable pub inc : ℕ → ℕ
inc h = (h + 1) % 65536

unfoldable pub dec : ℕ → ℕ
dec h = (h + 65535) % 65536

unfoldable pub has_handler : Option ℕ → Bool
has_handler none = false
has_handler (some h) = true

-- newCCCD, for the characteristic as it is from then on.
unfoldable pub new_cccd : Characteristic → Descriptor
unfolding has_handler
new_cccd c =
    let f : Handler = cccd (record {
      handle = c.handle;
      property = c.property;
      has_notify_handler = has_handler c.notify_handler;
      has_indicate_handler = has_handler c.indicate_handler;
    }) in
    record {
      uuid = client_characteristic_config_uuid;
      property = 0x02 + 0x08 + 0x04;
      handle = 0;
      value = none;
      read_handler = some f;
      write_handler = some f;
    }

-- genDescAttr
unfoldable pub gen_desc_attr : Descriptor → ℕ → Attr
gen_desc_attr d h = record {
  h = h;
  endh = 0;
  typ = d.uuid;
  v = d.value;
  rh = d.read_handler;
  wh = d.write_handler;
}

unfoldable pub with_handles : ℕ → Characteristic → Characteristic
with_handles h c = record {
  uuid = c.uuid;
  property = c.property;
  secure = c.secure;
  descriptors = c.descriptors;
  cccd = c.cccd;
  value = c.value;
  read_handler = c.read_handler;
  write_handler = c.write_handler;
  notify_handler = c.notify_handler;
  indicate_handler = c.indicate_handler;
  handle = h;
  value_handle = inc h;
  end_handle = c.end_handle;
}

unfoldable pub with_cccd : Descriptor → Characteristic → Characteristic
with_cccd d c = record {
  uuid = c.uuid;
  property = c.property;
  secure = c.secure;
  descriptors = c.descriptors ++ (d ∷ []);
  cccd = some d;
  value = c.value;
  read_handler = c.read_handler;
  write_handler = c.write_handler;
  notify_handler = c.notify_handler;
  indicate_handler = c.indicate_handler;
  handle = c.handle;
  value_handle = c.value_handle;
  end_handle = c.end_handle;
}

-- The characteristic behind the first half of genCharAttr.
unfoldable pub adopt : Characteristic → ℕ → Characteristic
unfolding with_handles with_cccd new_cccd has_handler
adopt c h =
    let d = with_handles h c in
    if has_handler d.notify_handler || has_handler d.indicate_handler
    then with_cccd (new_cccd d) d
    else d

-- The loop over the descriptors: the next handle, and the attributes.
unfoldable pub gen_desc_attrs : List Descriptor → ℕ → ℕ × List Attr
unfolding inc gen_desc_attr
gen_desc_attrs [] h = (h, [])
gen_desc_attrs (d ∷ ds) h =
    let rest = gen_desc_attrs ds (inc h) in (rest.0, gen_desc_attr d h ∷ rest.1)

unfoldable pub char_attr : Characteristic → ℕ → ℕ → Attr
unfolding inc
char_attr c h endh = record {
  h = h;
  endh = endh;
  typ = characteristic_uuid;
  v = some (c.property % 256 ∷ inc h % 256 ∷ inc h / 256 ∷ c.uuid);
  rh = none;
  wh = none;
}

unfoldable pub value_attr : Characteristic → ℕ → Attr
value_attr c vh = record {
  h = vh;
  endh = 0;
  typ = c.uuid;
  v = c.value;
  rh = c.read_handler;
  wh = c.write_handler;
}

-- genCharAttr: the next handle, the attributes, the changed characteristic.
unfoldable pub gen_char_attr : Characteristic → ℕ → ℕ × List Attr × Characteristic
unfolding inc dec adopt gen_desc_attrs char_attr value_attr
gen_char_attr c h =
    let d = adopt c h in
    let rest = gen_desc_attrs d.descriptors ((h + 2) % 65536) in
    (rest.0, char_attr c h (dec rest.0) ∷ value_attr c (inc h) ∷ rest.1, d)

unfoldable pub gen_char_attrs : List Characteristic → ℕ → ℕ × List Attr × List Characteristic
unfolding gen_char_attr
gen_char_attrs [] h = (h, [], [])
gen_char_attrs (c ∷ cs) h =
    let one = gen_char_attr c h in
    let rest = gen_char_attrs cs one.0 in (rest.0, one.1 ++ rest.1, one.2 ∷ rest.2)

unfoldable pub svc_attr : Service → ℕ → ℕ → Attr
svc_attr s h endh = record {
  h = h;
  endh = endh;
  typ = primary_service_uuid;
  v = some s.uuid;
  rh = none;
  wh = none;
}

with_characteristics : List Characteristic → Service → Service
with_characteristics cs s = record {
  uuid = s.uuid;
  characteristics = cs;
  handle = s.handle;
  end_handle = s.end_handle;
}

-- genSvcAttr, where `last` is whether NewDB sets the end handle of its first attribute to 0xFFFF.
unfoldable pub gen_svc_attr : Bool → Service → ℕ → ℕ × List Attr × Service
unfolding inc dec gen_char_attrs svc_attr with_characteristics
gen_svc_attr last s h =
    let rest = gen_char_attrs s.characteristics (inc h) in
    (
      rest.0,
      svc_attr s h (if last then 0xFFFF else dec rest.0) ∷ rest.1,
      with_characteristics rest.2 s,
    )

abbrev pub is_last : List Service → Bool
is_last [] = true
is_last (s ∷ ss) = false

unfoldable pub gen_attrs : List Service → ℕ → List Attr × List Service
unfolding gen_svc_attr
gen_attrs [] h = ([], [])
gen_attrs (s ∷ ss) h =
    let one = gen_svc_attr (is_last ss) s h in
    let rest = gen_attrs ss one.0 in (one.1 ++ rest.0, one.2 ∷ rest.1)

-- NewDB: the database, and the services as they are left.
unfoldable pub new_db : List Service → ℕ → Db × List Service
unfolding gen_attrs
new_db ss base = let g = gen_attrs ss base in (record { attrs = g.0; base = base }, g.1)
