-- ===== src/Hci/Cmd/RoundTrip.antt =====
-- linux/hci/cmd/cmd.go: unmarshal against marshal, and the responses that are too short.
use ble.Base.{
  ℕ, ◌+◌, ◌^◌, ◌≡◌, ◌<◌, ◌↔◌, refl, ap, true, List, [], ◌∷◌, ◌++◌, length, take, drop, map,
  take-append_eq, drop-append_eq, length-drop, length-append, append_assoc, Option, none, some, leb,
  le→leb, Option-cases, arith, inl, inr, All,
}
use ble.Hci.Cmd.Wire.{
  Field, Kind, u8, u16, u64, array, byte, word, quad, block, zeros, encode_field, encode_fields,
  decode_field, unmarshal,
}
use mathlib.Core.Path.{subst}

abbrev pub kind_of : Field → Kind
kind_of (u8 v) = byte
kind_of (u16 v) = word
kind_of (u64 v) = quad
kind_of (array n ds) = block n

-- The value of a field is one of its type.
abbrev pub InRange : Field → Type 0
InRange (u8 v) = v < 256
InRange (u16 v) = v < 65536
InRange (u64 v) = v < 2 ^ 64
InRange (array n ds) = length ds ≡ n

decode-encode_field :
    (f : Field) (rest : List ℕ)
    → InRange f
    → decode_field (kind_of f) (encode_field f ++ rest) ≡ some (f, rest)
unfolding encode_field decode_field
decode-encode_field (u8 v) rest h = ap (λ w. some (u8 w, rest)) (omega arith)
decode-encode_field (u16 v) rest h = ap (λ w. some (u16 w, rest)) (omega arith)
decode-encode_field (u64 v) rest h = ap (λ w. some (u64 w, rest)) (omega arith)
decode-encode_field (array n ds) rest h =
    let same : take n (ds ++ zeros n) ≡ ds = take-append_eq n ds (zeros n) h in
    let front : take n (ds ++ rest) ≡ ds = take-append_eq n ds rest h in
    let back : drop n (ds ++ rest) ≡ rest = drop-append_eq n ds rest h in
    let room : leb n (length (ds ++ rest)) ≡ true =
      le→leb n (length (ds ++ rest)) (omega (arith, length-append ds rest)) in
    rw same (rw room (rw front (rw back refl)))

-- A struct of values of their types is read back as it was written, and the bytes behind it are left.
pub unmarshal-encode_fields :
    (fs : List Field) (rest : List ℕ)
    → All InRange fs
    → unmarshal (map kind_of fs) (encode_fields fs ++ rest) ≡ some (fs, rest)
unfolding unmarshal encode_fields
unmarshal-encode_fields [] rest _ = refl
unmarshal-encode_fields (f ∷ fs) rest (h, hs) =
    let swap = append_assoc (encode_field f) (encode_fields fs) rest in
    let first = decode-encode_field f (encode_fields fs ++ rest) h in
    let others = unmarshal-encode_fields fs rest hs in
    rw swap (rw (first, unmarshal) (rw others refl))

abbrev pub size : Kind → ℕ
size byte = 1
size word = 2
size quad = 8
size (block n) = n

abbrev pub sizes : List Kind → ℕ
sizes [] = 0
sizes (k ∷ ks) = size k + sizes ks

-- What decode_field returns: an error where the bytes are too few, else what is behind them.
abbrev Decoded : Kind → List ℕ → Option (Field × List ℕ) → Type 0
Decoded k b none = length b < size k
Decoded k b (some (_, rest)) = length b ≡ size k + length rest

decode_field-Decoded : (k : Kind) (b : List ℕ) → Decoded k b (decode_field k b)
unfolding decode_field
decode_field-Decoded byte [] = omega arith
decode_field-Decoded byte (_ ∷ _) = omega arith
decode_field-Decoded word [] = omega arith
decode_field-Decoded word (_ ∷ []) = omega arith
decode_field-Decoded word (_ ∷ _ ∷ _) = omega arith
decode_field-Decoded quad [] = omega arith
decode_field-Decoded quad (_ ∷ []) = omega arith
decode_field-Decoded quad (_ ∷ _ ∷ []) = omega arith
decode_field-Decoded quad (_ ∷ _ ∷ _ ∷ []) = omega arith
decode_field-Decoded quad (_ ∷ _ ∷ _ ∷ _ ∷ []) = omega arith
decode_field-Decoded quad (_ ∷ _ ∷ _ ∷ _ ∷ _ ∷ []) = omega arith
decode_field-Decoded quad (_ ∷ _ ∷ _ ∷ _ ∷ _ ∷ _ ∷ []) = omega arith
decode_field-Decoded quad (_ ∷ _ ∷ _ ∷ _ ∷ _ ∷ _ ∷ _ ∷ []) = omega arith
decode_field-Decoded quad (_ ∷ _ ∷ _ ∷ _ ∷ _ ∷ _ ∷ _ ∷ _ ∷ _) = omega arith
decode_field-Decoded (block n) b = ground (arith, length-drop n b)

decode_field_short : (k : Kind) (b : List ℕ) → decode_field k b ≡ none → length b < size k
decode_field_short k b e = subst (λ o. Decoded k b o) e (decode_field-Decoded k b)

decode_field_rest :
    (k : Kind) (b : List ℕ) (f : Field) (rest : List ℕ)
    → decode_field k b ≡ some (f, rest)
    → length b ≡ size k + length rest
decode_field_rest k b f rest e = subst (λ o. Decoded k b o) e (decode_field-Decoded k b)

-- unmarshal fails exactly where the bytes are fewer than the struct has.
pub unmarshal-none_iff :
    (ks : List Kind) (b : List ℕ) → (unmarshal ks b ≡ none) ↔ (length b < sizes ks)
unfolding unmarshal
unmarshal-none_iff [] b = ground arith
unmarshal-none_iff (k ∷ ks) b = elim (Option-cases (decode_field k b)) [
  | inl short ↦ let few = decode_field_short k b short in ground arith
  | inr ((f, rest), read) ↦
      let sum = decode_field_rest k b f rest read in
      let others = unmarshal-none_iff ks rest in ground arith
]
