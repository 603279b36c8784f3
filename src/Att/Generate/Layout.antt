-- ===== src/Att/Generate/Layout.antt =====
-- The layout of a generated database: handles in order, and the end of each group.
use mathlib.Core.Path.{subst}
use ble.Base.{
  ℕ, ◌+◌, ◌%◌, ◌<◌, Bool, some, List, [], ◌∷◌, ◌++◌, length, length-append, ◌≡◌, refl, ap, ◌∙◌,
  arith, if◌then◌else◌, ◌||◌, Bool-cases, inl, inr,
}
use ble.Att.Db.{Attr}
use ble.Att.Db.Lookup.{Numbered}
use ble.Profile.{Descriptor, Characteristic, Service}
use ble.Att.Generate.{
  has_handler, new_cccd, with_handles, inc, dec, adopt, gen_desc_attrs, gen_char_attr,
  gen_char_attrs, gen_svc_attr, gen_attrs, new_db, gen_desc_attr, char_attr, value_attr, svc_attr,
  is_last, primary_service_uuid,
}

-- The number of attributes that a service takes.
abbrev pub subscribable : Characteristic → Bool
subscribable c = has_handler c.notify_handler || has_handler c.indicate_handler

abbrev pub char_size : Characteristic → ℕ
char_size c = 2 + length c.descriptors + (if subscribable c then 1 else 0)

abbrev pub svc_body : List Characteristic → ℕ
svc_body [] = 0
svc_body (c ∷ cs) = char_size c + svc_body cs

abbrev pub db_size : List Service → ℕ
db_size [] = 0
db_size (s ∷ ss) = 1 + svc_body s.characteristics + db_size ss

-- A block of attributes from h on: its size, its next handle and its order.
abbrev Block : ℕ → ℕ → ℕ → List Attr → Type 0
Block h n next xs = (length xs ≡ n) × (next ≡ h + n) × Numbered h xs

Numbered-append :
    (n m : ℕ) (xs ys : List Attr)
    → Numbered n xs
    → m ≡ n + length xs
    → Numbered m ys
    → Numbered n (xs ++ ys)
Numbered-append n m [] ys h e k = subst (λ t. Numbered t ys) (e ∙ omega arith) k
Numbered-append n m (x ∷ xs) ys h e k =
    (h.0, Numbered-append (n + 1) m xs ys h.1 (omega (arith, e)) k)

Block-append :
    (h n mid : ℕ) (xs : List Attr) (m next : ℕ) (ys : List Attr)
    → Block h n mid xs
    → Block mid m next ys
    → Block h (n + m) next (xs ++ ys)
Block-append h n mid xs m next ys a b = (
  omega (arith, length-append xs ys, a.0, b.0),
  omega (arith, a.1, b.1),
  Numbered-append h mid xs ys a.2 (omega (arith, a.0, a.1)) b.2,
)

adopt-length : (c : Characteristic) (h : ℕ) → 2 + length (adopt c h).descriptors ≡ char_size c
unfolding adopt
adopt-length c h = elim (Bool-cases (subscribable c)) [
  | inl e ↦
      rw (e, adopt) (omega (arith, length-append c.descriptors (new_cccd (with_handles h c) ∷ [])))
  | inr e ↦ rw (e, adopt) (omega arith)
]

inc_lem : (h : ℕ) → h + 1 < 65536 → inc h ≡ h + 1
unfolding inc
inc_lem h b = omega arith

dec_lem : (h : ℕ) → 0 < h → h < 65536 → dec h + 1 ≡ h
unfolding dec
dec_lem h a b = omega arith

gen_desc_attrs-Block :
    (ds : List Descriptor) (h : ℕ)
    → h + length ds < 65536
    → Block h (length ds) (gen_desc_attrs ds h).0 (gen_desc_attrs ds h).1
unfolding gen_desc_attrs gen_desc_attr
gen_desc_attrs-Block [] h b = (refl, omega arith, tt)
gen_desc_attrs-Block (d ∷ ds) h b =
    let r = gen_desc_attrs-Block ds (h + 1) (omega (arith, b)) in
    rw (inc_lem h (omega (arith, b))) (omega (arith, r.0), omega (arith, r.1), (refl, r.2))

gen_char_attr-Block :
    (c : Characteristic) (h : ℕ)
    → h + char_size c < 65536
    → Block h (char_size c) (gen_char_attr c h).0 (gen_char_attr c h).1
unfolding gen_char_attr char_attr value_attr
gen_char_attr-Block c h b =
    let l = adopt-length c h in
    let e : (h + 2) % 65536 ≡ h + 2 = omega (arith, b) in
    let i = inc_lem h (omega (arith, b)) in
    let r = gen_desc_attrs-Block (adopt c h).descriptors (h + 2) (omega (arith, b, l)) in
    rw e (
      omega (arith, r.0, l),
      omega (arith, r.1, l),
      (
        refl,
        (
          i,
          subst (λ t. Numbered t (gen_desc_attrs (adopt c h).descriptors (h + 2)).1) (omega arith)
              r.2,
        ),
      ),
    )

gen_char_attrs-Block :
    (cs : List Characteristic) (h : ℕ)
    → h + svc_body cs < 65536
    → Block h (svc_body cs) (gen_char_attrs cs h).0 (gen_char_attrs cs h).1
unfolding gen_char_attrs
gen_char_attrs-Block [] h b = (refl, omega arith, tt)
gen_char_attrs-Block (c ∷ cs) h b =
    let r = gen_char_attr-Block c h (omega (arith, b)) in
    Block-append h (char_size c) (gen_char_attr c h).0 (gen_char_attr c h).1 (svc_body cs)
      (gen_char_attrs cs (gen_char_attr c h).0).0 (gen_char_attrs cs (gen_char_attr c h).0).1 r
      (gen_char_attrs-Block cs (gen_char_attr c h).0 (omega (arith, b, r.1)))

gen_svc_attr-Block :
    (last : Bool) (s : Service) (h : ℕ)
    → h + (1 + svc_body s.characteristics) < 65536
    → Block h (1 + svc_body s.characteristics) (gen_svc_attr last s h).0 (gen_svc_attr last s h).1
unfolding gen_svc_attr svc_attr
gen_svc_attr-Block last s h b =
    let r = gen_char_attrs-Block s.characteristics (h + 1) (omega (arith, b)) in
    rw (inc_lem h (omega (arith, b))) (omega (arith, r.0), omega (arith, r.1), (refl, r.2))

gen_attrs-Numbered :
    (ss : List Service) (h : ℕ)
    → h + db_size ss < 65536
    → (length (gen_attrs ss h).0 ≡ db_size ss) × Numbered h (gen_attrs ss h).0
unfolding gen_attrs
gen_attrs-Numbered [] h b = (refl, tt)
gen_attrs-Numbered (s ∷ ss) h b =
    let one = gen_svc_attr (is_last ss) s h in
    let r = gen_svc_attr-Block (is_last ss) s h (omega (arith, b)) in
    let t = gen_attrs-Numbered ss one.0 (omega (arith, b, r.1)) in
    (
      omega (arith, length-append one.1 (gen_attrs ss one.0).0, r.0, t.0),
      Numbered-append h one.0 one.1 (gen_attrs ss one.0).0 r.2 (omega (arith, r.0, r.1)) t.1,
    )

-- A service's declaration, with the range of its group, and then its body; the last group is open.
pub Grouped : List Service → ℕ → List Attr → Type 0
Grouped [] h xs = xs ≡ []
Grouped (s ∷ ss) h xs =
    (a : Attr) × (body : List Attr) × (rest : List Attr) × (xs ≡ a ∷ body ++ rest)
    × (a.h ≡ h)
    × (a.typ ≡ primary_service_uuid)
    × (a.v ≡ some s.uuid)
    × (length body ≡ svc_body s.characteristics)
    × (a.endh ≡ (if is_last ss then 0xFFFF else h + length body))
    × Grouped ss (h + 1 + length body) rest

gen_attrs-Grouped :
    (ss : List Service) (h : ℕ) → 0 < h → h + db_size ss < 65536 → Grouped ss h (gen_attrs ss h).0
unfolding gen_attrs Grouped gen_svc_attr svc_attr
gen_attrs-Grouped [] h p b = refl
gen_attrs-Grouped (s ∷ ss) h p b =
    let one = gen_svc_attr (is_last ss) s h in
    let i = inc_lem h (omega (arith, b)) in
    let r = gen_char_attrs-Block s.characteristics (h + 1) (omega (arith, b)) in
    let c = gen_char_attrs s.characteristics (inc h) in
    let l : length c.1 ≡ svc_body s.characteristics =
      ap (λ (t : ℕ). length (gen_char_attrs s.characteristics t).1) i ∙ r.0 in
    let n : c.0 ≡ h + 1 + svc_body s.characteristics =
      ap (λ (t : ℕ). (gen_char_attrs s.characteristics t).0) i ∙ r.1 in
    let e : dec c.0 ≡ h + length c.1 = omega (arith, l, n, b, dec_lem c.0) in
    (
      svc_attr s h (if is_last ss then 0xFFFF else dec c.0),
      c.1,
      (gen_attrs ss c.0).0,
      refl,
      refl,
      refl,
      refl,
      l,
      ap (λ (x : ℕ). if is_last ss then 0xFFFF else x) e,
      subst (λ t. Grouped ss t (gen_attrs ss c.0).0) (omega (arith, l, n))
          (gen_attrs-Grouped ss c.0 (omega (arith, n)) (omega (arith, b, n))),
    )

-- The database of services that fit behind `base` numbers its attributes without a gap from base on, in
-- the order of the services. Each service is one declaration with its UUID, the two attributes and the
-- descriptors of its characteristics (with one more for a characteristic that notifies or indicates),
-- and an end handle: the handle of its last attribute, or 0xFFFF for the last service.
pub new_db-Grouped :
    (ss : List Service) (base : ℕ)
    → 0 < base
    → base + db_size ss < 65536
    → ((new_db ss base).0.base ≡ base)
      × (length (new_db ss base).0.attrs ≡ db_size ss)
      × Numbered base (new_db ss base).0.attrs
      × Grouped ss base (new_db ss base).0.attrs
unfolding new_db
new_db-Grouped ss base p b =
    let r = gen_attrs-Numbered ss base b in (refl, r.0, r.1, gen_attrs-Grouped ss base p b)
