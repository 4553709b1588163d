-- ===== src/MergeBase/Flags.antt =====
-- The bits of the marks of a commit.
use Prim.Native.Nat.{bit_and, bit_or, digits, bit_and-bitwise, bit_or-bitwise, max}
use test_perf.Prelude.{ℕ, zero, suc, ◌+◌, ◌*◌, ◌/◌, ◌%◌, ◌≤◌, min, ◌≡◌, refl, arith}

-- More rounds than digits change nothing.
digits_fuel :
    (right : ℕ → ℕ) (digit : ℕ → ℕ → ℕ) (n m a b : ℕ)
    → a ≤ n
    → a ≤ m
    → digits right digit n a b ≡ digits right digit m a b
digits_fuel right digit zero zero a b p q = refl
digits_fuel right digit zero (suc m) zero b p q = refl
digits_fuel right digit zero (suc m) (suc a) b p q = absurd (omega arith)
digits_fuel right digit (suc n) zero zero b p q = refl
digits_fuel right digit (suc n) zero (suc a) b p q = absurd (omega arith)
digits_fuel right digit (suc n) (suc m) zero b p q = refl
digits_fuel right digit (suc n) (suc m) (suc a) b p q =
    omega (arith, digits_fuel right digit n m (suc a / 2) (b / 2) (omega arith) (omega arith))

and_next : (a b : ℕ) → bit_and (suc a) b ≡ bit_and (suc a / 2) (b / 2) * 2 + min (suc a % 2) (b % 2)
and_next a b = omega (
  arith,
  bit_and-bitwise (suc a) b,
  bit_and-bitwise (suc a / 2) (b / 2),
  digits_fuel (λ b. zero) min a (suc a / 2) (suc a / 2) (b / 2) (omega arith) (omega arith),
)

and_zero : (b : ℕ) → bit_and 0 b ≡ 0
and_zero b = bit_and-bitwise 0 b

pub and_law : (a b : ℕ) → bit_and a b ≡ bit_and (a / 2) (b / 2) * 2 + min (a % 2) (b % 2)
and_law zero b = omega (arith, and_zero b, and_zero (b / 2))
and_law (suc a) b = and_next a b

or_next : (a b : ℕ) → bit_or (suc a) b ≡ bit_or (suc a / 2) (b / 2) * 2 + max (suc a % 2) (b % 2)
or_next a b = omega (
  arith,
  bit_or-bitwise (suc a) b,
  bit_or-bitwise (suc a / 2) (b / 2),
  digits_fuel (λ b. b) max a (suc a / 2) (suc a / 2) (b / 2) (omega arith) (omega arith),
)

or_zero : (b : ℕ) → bit_or 0 b ≡ b
or_zero b = bit_or-bitwise 0 b

pub or_law : (a b : ℕ) → bit_or a b ≡ bit_or (a / 2) (b / 2) * 2 + max (a % 2) (b % 2)
or_law zero b = omega (arith, or_zero b, or_zero (b / 2))
or_law (suc a) b = or_next a b

-- `flags & bit != 0` for the bits 1 and 2, those of the two sides.
abbrev pub side1 : ℕ → ℕ
side1 flags = flags / 2 % 2

abbrev pub side2 : ℕ → ℕ
side2 flags = flags / 2 / 2 % 2

pub side1-or : (a b : ℕ) → side1 (bit_or a b) ≡ max (side1 a) (side1 b)
side1-or a b = omega (arith, or_law a b, or_law (a / 2) (b / 2))

pub side2-or : (a b : ℕ) → side2 (bit_or a b) ≡ max (side2 a) (side2 b)
side2-or a b = omega (arith, or_law a b, or_law (a / 2) (b / 2), or_law (a / 2 / 2) (b / 2 / 2))

pub side1-and : (a b : ℕ) → side1 (bit_and a b) ≡ min (side1 a) (side1 b)
side1-and a b = omega (arith, and_law a b, and_law (a / 2) (b / 2))

pub side2-and : (a b : ℕ) → side2 (bit_and a b) ≡ min (side2 a) (side2 b)
side2-and a b = omega (arith, and_law a b, and_law (a / 2) (b / 2), and_law (a / 2 / 2) (b / 2 / 2))
