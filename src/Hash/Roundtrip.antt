-- ===== src/Hash/Roundtrip.antt =====
-- Hashes and references, from their texts and back.
use test_perf.Prelude.{
  ℕ, zero, suc, ◌-◌, ◌/◌, ◌%◌, ◌<◌, ◌≡◌, ◌∙◌, refl, sym, ap, false, Option, none, some, [], ◌∷◌,
  ◌++◌, if◌then◌else◌, ◌==◌, length, take, drop, replicate, take_all, arith, length-append,
  length-take, length-replicate,
}
use mathlib.Core.List.{append-nil}
use mathlib.Core.Path.{subst}
use test_perf.Hash.{
  Bytes, hash_size, hex_digit, encode, from_hex, pair_value, decode, new_hash, hash_string,
  Reference, has_prefix, symref_prefix, new_symbolic_reference, new_hash_reference,
  new_reference_from_strings, strings,
}

abbrev pub AllBytes : Bytes → Type 0
AllBytes [] = Unit
AllBytes (b ∷ bs) = (b < 256) × AllBytes bs

pub record IsHash (h : Bytes) : Type 0 where
  pub size : length h ≡ hash_size
  pub bytes : AllBytes h

from_hex-lt : (c : ℕ) (v : ℕ) → from_hex c ≡ some v → v < 16
from_hex-lt c v h = ground arith

from_hex-hex_digit : (v : ℕ) → v < 16 → from_hex (hex_digit v) ≡ some v
from_hex-hex_digit v h = ground arith

pair_value-lt :
    (x y : Option ℕ)
    → ((v : ℕ) → x ≡ some v → v < 16)
    → ((v : ℕ) → y ≡ some v → v < 16)
    → (b : ℕ) → pair_value x y ≡ some b
    → b < 256
pair_value-lt none y f g b h = cc
pair_value-lt (some hi) none f g b h = cc
pair_value-lt (some hi) (some lo) f g b h = ground (arith, f hi refl, g lo refl)

decoded : Option ℕ → Bytes → Bytes
decoded none rest = []
decoded (some b) rest = b ∷ rest

decode-cons :
    (c d : ℕ) (s : Bytes)
    → decode (c ∷ d ∷ s) ≡ decoded (pair_value (from_hex c) (from_hex d)) (decode s)
unfolding decoded
decode-cons c d s = at (pair_value (from_hex c) (from_hex d))
  where
    at :
        (o : Option ℕ)
        → (elim o as (λ x. Bytes) [ none ↦ [] | some b ↦ b ∷ decode s ]) ≡ decoded o (decode s)
    at none = refl
    at (some b) = refl

decoded-AllBytes :
    (o : Option ℕ) (rest : Bytes)
    → ((b : ℕ) → o ≡ some b → b < 256)
    → AllBytes rest
    → AllBytes (decoded o rest)
unfolding decoded
decoded-AllBytes none rest f h = tt
decoded-AllBytes (some b) rest f h = (f b refl, h)

decode-AllBytes : (s : Bytes) → AllBytes (decode s)
decode-AllBytes [] = tt
decode-AllBytes (c ∷ []) = tt
decode-AllBytes (c ∷ d ∷ s) = subst AllBytes (sym (decode-cons c d s)) (
    decoded-AllBytes (pair_value (from_hex c) (from_hex d)) (decode s)
      (pair_value-lt (from_hex c) (from_hex d) (from_hex-lt c) (from_hex-lt d)) (decode-AllBytes s))

AllBytes-append : (a b : Bytes) → AllBytes a → AllBytes b → AllBytes (a ++ b)
AllBytes-append [] b h k = k
AllBytes-append (x ∷ a) b (h, hs) k = (h, AllBytes-append a b hs k)

AllBytes-take : (n : ℕ) (a : Bytes) → AllBytes a → AllBytes (take n a)
AllBytes-take zero a h = tt
AllBytes-take (suc n) [] h = tt
AllBytes-take (suc n) (x ∷ a) (h, hs) = (h, AllBytes-take n a hs)

AllBytes-replicate : (n : ℕ) → AllBytes (replicate n 0)
AllBytes-replicate zero = tt
AllBytes-replicate (suc n) = (omega arith, AllBytes-replicate n)

-- Whatever the text, `NewHash` gives 20 numbers below 256.
pub new_hash-IsHash : (s : Bytes) → IsHash (new_hash s)
unfolding new_hash
new_hash-IsHash s = record {
  size = omega (
    arith,
    length-append (take hash_size (decode s)) (replicate (hash_size - length (decode s)) 0),
    length-take hash_size (decode s),
    length-replicate {A = ℕ} (hash_size - length (decode s)) 0,
  );
  bytes =
      AllBytes-append (take hash_size (decode s)) (replicate (hash_size - length (decode s)) 0)
        (AllBytes-take hash_size (decode s) (decode-AllBytes s))
        (AllBytes-replicate (hash_size - length (decode s)));
}

decode-encode : (h : Bytes) → AllBytes h → decode (encode h) ≡ h
unfolding decoded
decode-encode [] a = refl
decode-encode (b ∷ bs) (k, ks) =
    decode-cons (hex_digit (b / 16)) (hex_digit (b % 16)) (encode bs) ∙ λ i.
    decoded (value i) (decode-encode bs ks i)
  where
    value : pair_value (from_hex (hex_digit (b / 16))) (from_hex (hex_digit (b % 16))) ≡ some b
    value =
        (λ i.
          pair_value (from_hex-hex_digit (b / 16) (omega arith) i)
            (from_hex-hex_digit (b % 16) (omega arith) i))
        ∙ ap some (omega arith)

fill : (h : Bytes) (n : ℕ) → length h ≡ n → take n h ++ replicate (n - length h) 0 ≡ h
fill h n e =
    subst (λ n. take n h ++ replicate (n - length h) 0 ≡ h) e
      ((λ i. take_all h i ++ replicate (none_left i) 0) ∙ append-nil h)
  where
    none_left : length h - length h ≡ 0
    none_left = omega arith

-- `NewHash` of the text of a hash is the hash.
pub new_hash-hash_string : (h : Bytes) → IsHash h → new_hash (hash_string h) ≡ h
unfolding new_hash hash_string
new_hash-hash_string h v = rw (decode-encode h v.bytes) (fill h hash_size v.size)

hex_digit-ne : (v : ℕ) → v < 16 → (hex_digit v == 114) ≡ false
hex_digit-ne v h = ground arith

has_prefix-encode : (h : Bytes) → AllBytes h → has_prefix (encode h) symref_prefix ≡ false
has_prefix-encode [] a = refl
has_prefix-encode (b ∷ bs) (k, ks) =
    ap
      (λ t.
        if t then has_prefix (hex_digit (b % 16) ∷ encode bs) (101 ∷ 102 ∷ 58 ∷ 32 ∷ []) else false)
      (hex_digit-ne (b / 16) (omega arith))

has_prefix-hash_string : (h : Bytes) → IsHash h → has_prefix (hash_string h) symref_prefix ≡ false
unfolding hash_string
has_prefix-hash_string h v = has_prefix-encode h v.bytes

-- A reference that is stored: a hash reference has no target, a symbolic one no hash.
pub data IsStored : Reference → Type 0 where
  to_hash : (n h : Bytes) → IsHash h → IsStored (new_hash_reference n h)
  to_name : (n target : Bytes) → IsStored (new_symbolic_reference n target)

-- A hash reference or a symbolic reference is got back from its two strings.
pub new_reference_from_strings-strings :
    {r : Reference} → IsStored r → new_reference_from_strings (strings r) ≡ r
unfolding new_reference_from_strings strings new_hash_reference new_symbolic_reference
new_reference_from_strings-strings (to_hash n h v) = (λ i.
    if has_prefix-hash_string h v i
    then new_symbolic_reference n (drop (length symref_prefix) (hash_string h))
    else new_hash_reference n (new_hash-hash_string h v i))
new_reference_from_strings-strings (to_name n target) = refl
