-- ===== src/Profile/Flags.antt =====
-- A characteristic that is built by its setters has the flags of what it can do, and not both a static
-- value and a read handler.
use mathlib.Core.Path.{subst}
use ble.Base.{
  sym, ℕ, ◌+◌, ◌/◌, ◌%◌, Option, none, some, List, [], ◌∷◌, Go, ok, panic, ◌>>=◌, Returns, ◌==◌,
  if◌then◌else◌, ◌≡◌, refl, ◌∙◌, ◌⊎◌, inl, inr, arith, Option-cases,
}
use ble.Att.Db.{Handler}
use ble.Profile.{
  Characteristic, set_value, handle_read, handle_write, handle_notify, handle_indicate, configure,
  set_flag, new_characteristic,
}

pub data Setter : Type 0 where
  sets_value : List ℕ → Setter
  reads writes : Handler → Setter
  notifies indicates : ℕ → Setter

unfoldable pub apply : Setter → Characteristic → Go Characteristic
apply (sets_value b) c = set_value b c
apply (reads h) c = handle_read h c
apply (writes h) c = ok (handle_write h c)
apply (notifies h) c = ok (handle_notify h c)
apply (indicates h) c = ok (handle_indicate h c)

unfoldable pub build : List Setter → Characteristic → Go Characteristic
build [] c = ok c
build (s ∷ ss) c = apply s c >>= build ss

abbrev pub is_some {ℓ} : {A : Type ℓ} → Option A → ℕ
is_some none = 0
is_some (some a) = 1

-- Each flag of the property is 1 exactly where there is something behind it.
pub record Flagged (c : Characteristic) : Type 0 where
  pub exclusive : (c.value ≡ none) ⊎ (c.read_handler ≡ none)
  pub read : c.property / 2 % 2 ≡ is_some c.value + is_some c.read_handler
  pub write_nr : c.property / 4 % 2 ≡ is_some c.write_handler
  pub write : c.property / 8 % 2 ≡ is_some c.write_handler
  pub notify : c.property / 16 % 2 ≡ is_some c.notify_handler
  pub indicate : c.property / 32 % 2 ≡ is_some c.indicate_handler

-- A flag that is set in a property, and the others.
pub record Set (bit p q : ℕ) : Type 0 where
  pub b1 : q / 2 % 2 ≡ (if bit == 2 then 1 else p / 2 % 2)
  pub b2 : q / 4 % 2 ≡ (if bit == 4 then 1 else p / 4 % 2)
  pub b3 : q / 8 % 2 ≡ (if bit == 8 then 1 else p / 8 % 2)
  pub b4 : q / 16 % 2 ≡ (if bit == 16 then 1 else p / 16 % 2)
  pub b5 : q / 32 % 2 ≡ (if bit == 32 then 1 else p / 32 % 2)

set_read-Set : (p : ℕ) → Set 2 p (set_flag 2 p)
unfolding set_flag
set_read-Set p = ground arith

set_write_nr-Set : (p : ℕ) → Set 4 p (set_flag 4 p)
unfolding set_flag
set_write_nr-Set p = ground arith

set_write-Set : (p : ℕ) → Set 8 p (set_flag 8 p)
unfolding set_flag
set_write-Set p = ground arith

set_notify-Set : (p : ℕ) → Set 16 p (set_flag 16 p)
unfolding set_flag
set_notify-Set p = ground arith

set_indicate-Set : (p : ℕ) → Set 32 p (set_flag 32 p)
unfolding set_flag
set_indicate-Set p = ground arith

panic-ok : (c : Characteristic) → panic ≡ ok c → ⊥
panic-ok c e = cc

module _ (c : Characteristic) (h : Flagged c) where
  set_value-Flagged : (b : List ℕ) → (set_value b c ≡ panic) ⊎ Returns Flagged (set_value b c)
  unfolding set_value configure
  set_value-Flagged b = elim (Option-cases c.read_handler) [
    | inr (f, e) ↦ inl (rw e refl)
    | inl e ↦
        let s = set_read-Set c.property in
        let k : is_some c.read_handler ≡ 0 = rw e refl in
        inr (
          rw (e, Returns, set_value)
            (record {
              exclusive = inr e;
              read = omega (arith, s.b1, k);
              write_nr = s.b2 ∙ h.write_nr;
              write = s.b3 ∙ h.write;
              notify = s.b4 ∙ h.notify;
              indicate = s.b5 ∙ h.indicate;
            }))
  ]

  handle_read-Flagged :
      (f : Handler) → (handle_read f c ≡ panic) ⊎ Returns Flagged (handle_read f c)
  unfolding handle_read configure
  handle_read-Flagged f = elim (Option-cases c.value) [
    | inr (b, e) ↦ inl (rw e refl)
    | inl e ↦
        let s = set_read-Set c.property in
        let k : is_some c.value ≡ 0 = rw e refl in
        inr (
          rw (e, Returns, handle_read)
            (record {
              exclusive = inl e;
              read = omega (arith, s.b1, k);
              write_nr = s.b2 ∙ h.write_nr;
              write = s.b3 ∙ h.write;
              notify = s.b4 ∙ h.notify;
              indicate = s.b5 ∙ h.indicate;
            }))
  ]

  handle_write-Flagged : (f : Handler) → Flagged (handle_write f c)
  unfolding handle_write configure
  handle_write-Flagged f =
      let s = set_write-Set c.property in
      let t = set_write_nr-Set (set_flag 8 c.property) in
      record {
        exclusive = h.exclusive;
        read = t.b1 ∙ s.b1 ∙ h.read;
        write_nr = t.b2;
        write = t.b3 ∙ s.b3;
        notify = t.b4 ∙ s.b4 ∙ h.notify;
        indicate = t.b5 ∙ s.b5 ∙ h.indicate;
      }

  handle_notify-Flagged : (f : ℕ) → Flagged (handle_notify f c)
  unfolding handle_notify configure
  handle_notify-Flagged f =
      let s = set_notify-Set c.property in
      record {
        exclusive = h.exclusive;
        read = s.b1 ∙ h.read;
        write_nr = s.b2 ∙ h.write_nr;
        write = s.b3 ∙ h.write;
        notify = s.b4;
        indicate = s.b5 ∙ h.indicate;
      }

  handle_indicate-Flagged : (f : ℕ) → Flagged (handle_indicate f c)
  unfolding handle_indicate configure
  handle_indicate-Flagged f =
      let s = set_indicate-Set c.property in
      record {
        exclusive = h.exclusive;
        read = s.b1 ∙ h.read;
        write_nr = s.b2 ∙ h.write_nr;
        write = s.b3 ∙ h.write;
        notify = s.b4 ∙ h.notify;
        indicate = s.b5;
      }

  apply-Flagged : (s : Setter) → (apply s c ≡ panic) ⊎ Returns Flagged (apply s c)
  unfolding apply
  apply-Flagged (sets_value b) = set_value-Flagged b
  apply-Flagged (reads f) = handle_read-Flagged f
  apply-Flagged (writes f) = inr (handle_write-Flagged f)
  apply-Flagged (notifies f) = inr (handle_notify-Flagged f)
  apply-Flagged (indicates f) = inr (handle_indicate-Flagged f)

-- A panic, or a characteristic with the right flags.
abbrev Sound : Go Characteristic → Type 0
Sound m = (m ≡ panic) ⊎ Returns Flagged m

>>=-Sound :
    (m : Go Characteristic) (f : Characteristic → Go Characteristic)
    → Sound m
    → ((c : Characteristic) → Flagged c → Sound (f c))
    → Sound (m >>= f)
>>=-Sound panic f h k = inl refl
>>=-Sound (ok c) f (inl e) k = absurd (panic-ok c (sym e))
>>=-Sound (ok c) f (inr q) k = k c q

build-Sound : (ss : List Setter) (c : Characteristic) → Flagged c → Sound (build ss c)
unfolding build
build-Sound [] c h = inr h
build-Sound (s ∷ ss) c h =
    >>=-Sound (apply s c) (build ss) (apply-Flagged c h s) (λ d q. build-Sound ss d q)

build-from : (ss : List Setter) (c d : Characteristic) → Flagged c → build ss c ≡ ok d → Flagged d
build-from ss c d h e = elim (build-Sound ss c h) [
  | inl p ↦ absurd (panic-ok d (sym p ∙ e))
  | inr q ↦ subst (Returns Flagged) e q
]

-- A characteristic that any setters build has the flag of each of its abilities and no other: read where
-- it has a static value or a read handler, and it never has both; write and write without response
-- where it has a write handler; notify and indicate where it has their handlers.
pub build-Flagged :
    (u : List ℕ) (ss : List Setter) (d : Characteristic)
    → build ss (new_characteristic u) ≡ ok d
    → Flagged d
unfolding new_characteristic
build-Flagged u ss d e =
    build-from ss (new_characteristic u) d
      (record {
        exclusive = inl refl;
        read = refl;
        write_nr = refl;
        write = refl;
        notify = refl;
        indicate = refl;
      })
      e
