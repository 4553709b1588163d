-- ===== src/MergeBase/Marks.antt =====
-- What the marks of a commit in the queue say: which of the two commits it is an ancestor of.
use Prim.Native.Nat.{bit_and}
use test_perf.Prelude.{
  ℕ, ◌+◌, ◌≤◌, ◌<◌, ◌≡◌, ◌⊎◌, true, List, [], ◌∷◌, ◌==◌, ==_iff, Bool-cases, inl, inr, arith,
}
use test_perf.CommitQueue.{PrioritizedCommit}
use test_perf.MergeBase.{Commits, side_flags, is_common, parent_flags}
use test_perf.MergeBase.Flags.{side1, side2, side1-or, side2-or, side1-and, side2-and}
use test_perf.MergeBase.Sift.{Joins}

abbrev pub Among : ℕ → List ℕ → Type 0
Among c [] = ⊥
Among c (p ∷ ps) = (c ≡ p) ⊎ Among c ps

-- `c` is `a` or one of its ancestors.
pub data Reaches (objects : Commits) (a : ℕ) : ℕ → Type 0 where
  self : Reaches objects a a
  parent : (b c : ℕ) → Reaches objects a b → Among c (objects.parent_hashes b) → Reaches objects a c

abbrev pub sum : (ℕ → ℕ) → List ℕ → ℕ
sum rank [] = 0
sum rank (p ∷ ps) = rank p + sum rank ps

-- A number for each commit that is more than those of its parents together, which there is as no
-- commit is its own ancestor.
pub record IsRank (objects : Commits) (rank : ℕ → ℕ) : Type 0 where
  pub sum_lt : (c : ℕ) → sum rank (objects.parent_hashes c) < rank c

-- The marks of a commit are true, and it is one of the two commits or an ancestor of one.
abbrev pub Marks : Commits → ℕ → ℕ → ℕ → ℕ → Type 0
Marks objects old new h flags =
    (side1 flags ≡ 1 → Reaches objects old h)
    × (side2 flags ≡ 1 → Reaches objects new h)
    × (Reaches objects old h ⊎ Reaches objects new h)

one_of : (a b m : ℕ) → m ≡ 1 → (m ≤ a) ⊎ (m ≤ b) → a < 2 → b < 2 → (a ≡ 1) ⊎ (b ≡ 1)
one_of a b m e (inl h) p q = inl (omega arith)
one_of a b m e (inr h) p q = inr (omega arith)

pub Marks-Joins : (objects : Commits) (old new : ℕ) (w : ℕ → ℕ) → Joins (Marks objects old new) w
Marks-Joins objects old new w h a b (p₁, p₂, p₃) (q₁, q₂, q₃) = (
  λ e. elim (Bool-cases (side1 a == 1)) [
    | inl t ↦ p₁ ((==_iff (side1 a) 1).0 t)
    | inr t ↦ q₁ (ground (arith, side1-or a b, ==_iff (side1 a) 1))
  ],
  λ e. elim (Bool-cases (side2 a == 1)) [
    | inl t ↦ p₂ ((==_iff (side2 a) 1).0 t)
    | inr t ↦ q₂ (ground (arith, side2-or a b, ==_iff (side2 a) 1))
  ],
  p₃,
)

pub side1-parent_flags : (el : PrioritizedCommit) → side1 (parent_flags el) ≤ side1 el.flags
unfolding parent_flags side_flags
side1-parent_flags el = elim (Bool-cases (is_common el)) [
  | inl e ↦ rw e (omega (arith, side1-or (bit_and el.flags 14) 8, side1-and el.flags 14))
  | inr e ↦ rw e (omega (arith, side1-and el.flags 14))
]

pub side2-parent_flags : (el : PrioritizedCommit) → side2 (parent_flags el) ≤ side2 el.flags
unfolding parent_flags side_flags
side2-parent_flags el = elim (Bool-cases (is_common el)) [
  | inl e ↦ rw e (omega (arith, side2-or (bit_and el.flags 14) 8, side2-and el.flags 14))
  | inr e ↦ rw e (omega (arith, side2-and el.flags 14))
]

pub common_sides :
    (el : PrioritizedCommit) → is_common el ≡ true → (side1 el.flags ≡ 1) × (side2 el.flags ≡ 1)
unfolding side_flags
common_sides el e =
    let q : bit_and el.flags 14 ≡ 6 = (==_iff (bit_and el.flags 14) 6).0 e in
    (omega (arith, side1-and el.flags 14, q), omega (arith, side2-and el.flags 14, q))
