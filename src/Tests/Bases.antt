-- ===== src/Tests/Bases.antt =====
-- Runs of the search for the common parents.
use test_perf.Prelude.{
  ℕ, suc, ◌≡◌, refl, true, Bool-cases, inl, inr, List, [], ◌∷◌, ◌==◌, if◌then◌else◌, arith,
}
use test_perf.Result.{ok}
use test_perf.CommitQueue.{less, swap, mark, push, pop, interesting}
use test_perf.MergeBase.{
  Commits, up, child, down, heap_push, heap_pop, mark_commit, get_parents, push_parents, side_flags,
  parent_flags, next_result, common_parents_from, get_common_parents,
}
use test_perf.MergeBase.Marks.{IsRank}
use test_perf.MergeBase.Ancestors.{Bases, get_common_parents-Bases}

searching : Unit {0}
unfolding less swap mark push pop interesting up child down heap_push heap_pop mark_commit
    get_parents push_parents side_flags parent_flags next_result common_parents_from
    get_common_parents
searching = tt

abbrev parents : ℕ → List ℕ
parents c = if c == 2 then 1 ∷ [] else if c == 3 then 1 ∷ [] else []

-- The commits 2 and 3 have the parent 1.
abbrev objects : Commits
objects = record { parent_hashes = parents; when = λ c. c; loads = λ c. true }

abbrev rank : ℕ → ℕ
rank c = suc c

objects-IsRank : IsRank objects rank
objects-IsRank = record {
  sum_lt = λ c. elim (Bool-cases (c == 2)) [
    | inl e ↦ rw e (ground arith)
    | inr e ↦ elim (Bool-cases (c == 3)) [
      | inl f ↦ rw (e, f) (ground arith)
      | inr f ↦ rw (e, f) (omega arith)
    ]
  ];
}

get_common_parents_run : get_common_parents objects 8 2 3 ≡ ok (1 ∷ [])
unfolding searching
get_common_parents_run = refl

get_common_parents-Bases_example : Bases objects 2 3 (get_common_parents objects 8 2 3)
get_common_parents-Bases_example =
    get_common_parents-Bases objects 2 3 rank objects-IsRank 8 (omega arith)
