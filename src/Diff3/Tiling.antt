-- ===== src/Diff3/Tiling.antt =====
-- How the loop of `writeChunks` divides the three files: positions, and divisions into chunks.
use test_perf.Prelude.{ℕ, suc, ◌+◌, ◌≤◌, ◌<◌, ◌≡◌, some, List, ◌++◌, length, String}
use test_perf.Diff3.{Diff3, Indexes, IntMap}
use test_perf.Diff3.Chunk.{InOrder, chunk}
use test_perf.Diff3.Matches.{}

abbrev pub end_of : Diff3 → Indexes
end_of d = record { base_index = length d.base; a_index = length d.a; b_index = length d.b }

-- `at`, `i` lines on.
abbrev pub shift : Indexes → ℕ → Indexes
shift at i = record {
  base_index = at.base_index + i;
  a_index = at.a_index + i;
  b_index = at.b_index + i;
}

abbrev pub origin : Indexes
origin = record { base_index = 0; a_index = 0; b_index = 0 }

abbrev pub sum : Indexes → ℕ
sum at = at.base_index + at.a_index + at.b_index

module _ (d : Diff3) (ma mb : IntMap) where
  -- The line of the base is matched in both files, at the position.
  pub record Matched (at : Indexes) : Type 0 where
    pub in_a : ma at.base_index ≡ some at.a_index
    pub in_b : mb at.base_index ≡ some at.b_index

  -- Where a chunk ends: at a matched line, behind one, or at the end of the files.
  pub data Boundary : Indexes → Type 0 where
    before : {at : Indexes} → Matched at → Boundary at
    behind : (at : Indexes) (i : ℕ) → Matched (shift at i) → Boundary (shift at (suc i))

  -- No line of the base from `i` up to `j` is matched in both files.
  abbrev pub NoMatch : ℕ → ℕ → Type 0
  NoMatch i j = (p : Indexes) → i ≤ p.base_index → p.base_index < j → ¬ Matched p

  -- A chunk is a run of matched lines, or has none of them.
  pub data Indivisible : Indexes → Indexes → Type 0 where
    agreed :
        (at : Indexes) (i : ℕ)
        → ((s : ℕ) → s < i → Matched (shift at s))
        → Indivisible at (shift at i)
    apart : {at to : Indexes} → NoMatch at.base_index to.base_index → Indivisible at to

  -- `Tiling at out n`: from `at` on the files are divided into chunks; what `resolve` makes of them
  -- is `out` together, with `n` conflicts.
  pub data Tiling : Indexes → List String → ℕ → Type 0 where
    last :
        {at : Indexes}
        → InOrder d at (end_of d)
        → NoMatch at.base_index (length d.base)
        → Tiling at (chunk d at (end_of d)).0 (chunk d at (end_of d)).1
    next :
        {at : Indexes} (to : Indexes) {out : List String} {n : ℕ}
        → InOrder d at to
        → Boundary to
        → Indivisible at to
        → Tiling to out n
        → Tiling at ((chunk d at to).0 ++ out) ((chunk d at to).1 + n)
