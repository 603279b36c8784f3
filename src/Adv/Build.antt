-- ===== src/Adv/Build.antt =====
-- Packets that are built by appending: what is written is read back.
use ble.Base.{
  ℕ, ◌+◌, ◌≤◌, ◌<◌, ◌%◌, none, some, List, [], ◌∷◌, ◌++◌, done, length, length-append, ltb, ◌⊎◌,
  ◌≡◌, refl, sym, ap, ◌∙◌, arith, inl, inr, Bool-cases, append_assoc, append-nil,
}
use ble.Adv.{append, field, fit, err, not_fit}
use ble.Adv.Structures.{Structure, Reading, encode, find_type, field-find_type}

encode-snoc :
    (ss : List Structure) (t : ℕ) (d : List ℕ)
    → encode (ss ++ ((t, d) ∷ [])) ≡ encode ss ++ ((length d + 1) ∷ t ∷ d)
encode-snoc [] t d = ap (λ (x : List ℕ). (length d + 1) ∷ t ∷ x) (append-nil d)
encode-snoc ((u, c) ∷ ss) t d = rw (encode-snoc ss t d) (
    ap (λ (x : List ℕ). (length c + 1) ∷ u ∷ x)
      (sym (append_assoc c (encode ss) ((length d + 1) ∷ t ∷ d))))

-- Appending to a packet of the structures `ss` either fails, because more than 31 bytes would be
-- needed, or adds one structure at the end of a packet of at most 31 bytes.
pub append-encode :
    (ss : List Structure) (typ : ℕ) (d : List ℕ)
    → ((31 < length (encode ss) + 2 + length d) × (append typ d (encode ss) ≡ err not_fit))
      ⊎ ((length (encode (ss ++ ((typ, d) ∷ []))) ≤ 31)
          × (append typ d (encode ss) ≡ fit (encode (ss ++ ((typ, d) ∷ [])))))
unfolding append
append-encode ss typ d = elim (Bool-cases (ltb 31 (length (encode ss) + 1 + 1 + length d))) [
  | inl e ↦ inl (ground arith, rw e refl)
  | inr e ↦
      let h : (length d + 1) % 256 ≡ length d + 1 = ground arith in
      inr (
        rw (encode-snoc ss typ d)
            (ground (arith, length-append (encode ss) ((length d + 1) ∷ typ ∷ d))),
        rw (e, encode-snoc ss typ d, h) refl,
      )
]

find_type-append :
    (typ : ℕ) (ss ts : List Structure)
    → find_type typ ss ≡ none
    → find_type typ (ss ++ ts) ≡ find_type typ ts
find_type-append typ [] ts h = refl
find_type-append typ ((t, d) ∷ ss) ts h = ground (arith, find_type-append typ ss ts)

-- What has been appended is read back, if the packet had no structure of the type before.
pub field-append :
    (ss : List Structure) (typ : ℕ) (d p : List ℕ)
    → find_type typ ss ≡ none
    → append typ d (encode ss) ≡ fit p
    → field p typ ≡ done (some d)
field-append ss typ d p h e = elim (append-encode ss typ d) [
  | inl (_, f) ↦ absurd (unfit (sym f ∙ e))
  | inr (_, f) ↦
      field-find_type p (whole (sym f ∙ e)) typ
      ∙ ap done (find_type-append typ ss ((typ, d) ∷ []) h ∙ ground arith)
]
  where
    unfit : err not_fit ≡ fit p → ⊥
    unfit e = cc

    whole : fit (encode (ss ++ ((typ, d) ∷ []))) ≡ fit p → Reading p
    whole e = record {
      structures = ss ++ ((typ, d) ∷ []);
      tail = [];
      split = cc (append-nil (encode (ss ++ ((typ, d) ∷ []))));
      stopped = refl;
    }
