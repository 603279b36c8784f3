-- ===== src/Hci/Cmd/Wire.antt =====
-- linux/hci/cmd/cmd.go: marshal and unmarshal, by what binary.Write and binary.Read of the standard library do
-- with a struct of fixed-size fields in little-endian order; and the buffer that send of linux/hci/hci.go
-- fills.
use ble.Base.{
  ℕ, zero, suc, ◌+◌, ◌*◌, ◌/◌, ◌%◌, Option, none, some, List, [], ◌∷◌, ◌++◌, length, take, drop,
  le16, leb, ltb, if◌then◌else◌,
}
use Prim.Native.String.{String}

-- A field with its value; an array of n bytes has n, here the first ones of the list or
-- zeros; an int8 is its byte.
pub data Field : Type 0 where
  u8 u16 u64 : ℕ → Field
  array : ℕ → List ℕ → Field

pub data Kind : Type 0 where
  byte word quad : Kind
  block : ℕ → Kind

-- String, OpCode, Len and the struct of a command.
pub record Command : Type 0 where
  pub text : String
  pub op_code : ℕ
  pub len : ℕ
  pub fields : List Field

unfoldable pub zeros : ℕ → List ℕ
zeros zero = []
zeros (suc n) = 0 ∷ zeros n

abbrev pub le64 : ℕ → List ℕ
le64 v = le16 v ++ (le16 (v / 65536) ++ (le16 (v / 4294967296) ++ le16 (v / 281474976710656)))

unfoldable pub encode_field : Field → List ℕ
unfolding zeros
encode_field (u8 v) = v % 256 ∷ []
encode_field (u16 v) = le16 v
encode_field (u64 v) = le64 v
encode_field (array n ds) = take n (ds ++ zeros n)

-- binary.Write of a struct.
unfoldable pub encode_fields : List Field → List ℕ
unfolding encode_field
encode_fields [] = []
encode_fields (f ∷ fs) = encode_field f ++ encode_fields fs

-- marshal into a buffer of `cap` bytes; `none` is ErrShortBuffer.
unfoldable pub marshal : ℕ → Command → Option (List ℕ)
unfolding encode_fields
marshal cap c = if ltb cap c.len then none else some (encode_fields c.fields)

-- The buffer of send that holds 64 bytes of before: it is filled, marshalled into from its fifth
-- byte on, and cut to the length of the command.
unfoldable pub command_packet : List ℕ → Command → Option (List ℕ)
unfolding marshal
command_packet before c =
    let params = marshal 60 c in
    elim params [
      | none ↦ none
      | some ps ↦ some (
          take (4 + c.len) (
            1
            ∷ c.op_code % 256
            ∷ c.op_code / 256 % 256
            ∷ c.len % 256
            ∷ (ps ++ drop (4 + length ps) before)))
    ]

abbrev u16_of : ℕ → ℕ → ℕ
u16_of a b = a + 256 * b

-- binary.Read of a struct; `none` is an error for too few bytes.
unfoldable pub decode_field : Kind → List ℕ → Option (Field × List ℕ)
decode_field byte (a ∷ rest) = some (u8 a, rest)
decode_field word (a ∷ b ∷ rest) = some (u16 (u16_of a b), rest)
decode_field quad (a ∷ b ∷ c ∷ d ∷ e ∷ f ∷ g ∷ h ∷ rest) = some (
  u64 (u16_of a b + 65536 * u16_of c d + 4294967296 * u16_of e f + 281474976710656 * u16_of g h),
  rest,
)
decode_field (block n) b = if leb n (length b) then some (array n (take n b), drop n b) else none
decode_field _ _ = none

-- unmarshal
unfoldable pub unmarshal : List Kind → List ℕ → Option (List Field × List ℕ)
unfolding decode_field
unmarshal [] b = some ([], b)
unmarshal (k ∷ ks) b = elim (decode_field k b) [
  | none ↦ none
  | some (f, rest) ↦ elim (unmarshal ks rest) [
    | none ↦ none
    | some (fs, left) ↦ some (f ∷ fs, left)
  ]
]
