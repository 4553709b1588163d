-- ===== src/Hash.antt =====
-- hash.go: hashes and their texts; reference.go: references and their two strings.
--
-- A text is its bytes. `decode` is what `hex.DecodeString` returns beside its error, which the code
-- drops: the bytes before the first pair that is no number.
pub mod Roundtrip
use test_perf.Prelude.{
  ℕ, ◌+◌, ◌-◌, ◌*◌, ◌/◌, ◌%◌, ◌<◌, ◌≡◌, Bool, true, false, ◌&&◌, Option, none, some, List, [], ◌∷◌,
  ◌++◌, if◌then◌else◌, ltb, leb, ◌==◌, length, take, drop, replicate,
}

abbrev pub Bytes : Type 0
Bytes = List ℕ

-- `Hash` is an array of so many bytes.
abbrev pub hash_size : ℕ
hash_size = 20

abbrev pub zero_bytes : Bytes
zero_bytes = replicate hash_size 0

-- `hex.EncodeToString`
abbrev pub hex_digit : ℕ → ℕ
hex_digit v = if ltb v 10 then 48 + v else 87 + v

abbrev pub encode : Bytes → Bytes
encode [] = []
encode (b ∷ bs) = hex_digit (b / 16) ∷ hex_digit (b % 16) ∷ encode bs

abbrev pub from_hex : ℕ → Option ℕ
from_hex c =
    if leb 48 c && leb c 57
    then some (c - 48)
    else if leb 97 c && leb c 102
    then some (c - 87)
    else if leb 65 c && leb c 70
    then some (c - 55)
    else none

abbrev pub pair_value : Option ℕ → Option ℕ → Option ℕ
pair_value (some hi) (some lo) = some (hi * 16 + lo)
pair_value _ _ = none

abbrev pub decode : Bytes → Bytes
decode [] = []
decode (c ∷ []) = []
decode (c ∷ d ∷ s) =
    let rest = decode s in
    elim (pair_value (from_hex c) (from_hex d)) [ none ↦ [] | some b ↦ b ∷ rest ]

-- `NewHash`: the array is filled from the front.
unfoldable pub new_hash : Bytes → Bytes
new_hash s = take hash_size (decode s) ++ replicate (hash_size - length (decode s)) 0

-- `Hash.String`
unfoldable pub hash_string : Bytes → Bytes
hash_string h = encode h

-- `ReferenceType`
pub data ReferenceType : Type 0 where
  invalid_reference hash_reference symbolic_reference : ReferenceType

-- `Reference`
pub record Reference : Type 0 where
  pub type : ReferenceType
  pub name : Bytes
  pub hash : Bytes
  pub target : Bytes

abbrev pub has_prefix : Bytes → Bytes → Bool
has_prefix s [] = true
has_prefix [] (p ∷ ps) = false
has_prefix (b ∷ s) (p ∷ ps) = let rest = has_prefix s ps in if b == p then rest else false

-- `ref: `
abbrev pub symref_prefix : Bytes
symref_prefix = 114 ∷ 101 ∷ 102 ∷ 58 ∷ 32 ∷ []

unfoldable pub new_symbolic_reference : Bytes → Bytes → Reference
new_symbolic_reference n target = record {
  type = symbolic_reference;
  name = n;
  hash = zero_bytes;
  target = target;
}

unfoldable pub new_hash_reference : Bytes → Bytes → Reference
new_hash_reference n h = record { type = hash_reference; name = n; hash = h; target = [] }

-- `NewReferenceFromStrings`
unfoldable pub new_reference_from_strings : Bytes × Bytes → Reference
new_reference_from_strings (name, target) =
    if has_prefix target symref_prefix
    then new_symbolic_reference name (drop (length symref_prefix) target)
    else new_hash_reference name (new_hash target)

-- `Reference.Strings`
unfoldable pub strings : Reference → Bytes × Bytes
strings r = (
  r.name,
  elim r.type [
    | hash_reference ↦ hash_string r.hash
    | symbolic_reference ↦ symref_prefix ++ r.target
    | invalid_reference ↦ []
  ],
)
