-- ===== src/MergeBase.antt =====
-- worktree_merge.go, the search for the common parents of two commits, over the queue of commits in a
-- heap of `container/heap`.
--
-- A commit is its hash. The objects are a parameter: the parents and the time of each commit, and
-- which can be loaded. `none` is an index out of range.
pub mod Flags
pub mod Heap
pub mod Sift
pub mod Marks
pub mod Ancestors
use Prim.Native.Nat.{bit_and, bit_or}
use test_perf.Prelude.{
  ℕ, zero, suc, ◌+◌, ◌*◌, ◌-◌, ◌/◌, Bool, true, false, not, Option, none, some, List, [], ◌∷◌, ◌++◌,
  ltb, leb, ◌==◌, length, if◌then◌else◌, pos,
}
use test_perf.Result.{Result, ok, err, panic, out_of_fuel, or_panic, read_failed, ◌>>=◌}
use test_perf.CommitQueue.{PrioritizedCommit, less, swap, push, pop, interesting, mark_stale}

pub record Commits : Type 0 where
  pub parent_hashes : ℕ → List ℕ
  pub when : ℕ → ℕ
  pub loads : ℕ → Bool

abbrev pub mark_parent1 : ℕ
mark_parent1 = 2

abbrev pub mark_parent2 : ℕ
mark_parent2 = 4

abbrev pub mark_result : ℕ
mark_result = 16

-- `heap.up`; `j` is halved in each round.
unfoldable pub up : ℕ → List PrioritizedCommit → ℕ → Option (List PrioritizedCommit)
up zero pq j = some pq
up (suc n) pq j =
    let i = (j - 1) / 2 in
    if i == j then some pq else elim (less pq j i) [
      | none ↦ none
      | some b ↦
          if not b then some pq else elim (swap pq i j) [ none ↦ none | some pq' ↦ up n pq' i ]
    ]

-- The child of `heap.down` that is compared with its parent.
unfoldable pub child : List PrioritizedCommit → ℕ → ℕ → Option ℕ
child pq j n =
    if ltb (j + 1) n
    then (elim (less pq (j + 1) j) [ none ↦ none | some b ↦ some (if b then j + 1 else j) ])
    else some j

-- `heap.down`; the position grows in each round up to `n`.
unfoldable pub down : ℕ → List PrioritizedCommit → ℕ → ℕ → Option (List PrioritizedCommit)
down zero pq i n = some pq
down (suc f) pq i n = if leb n (2 * i + 1) then some pq else elim (child pq (2 * i + 1) n) [
  | none ↦ none
  | some j ↦ elim (less pq j i) [
    | none ↦ none
    | some b ↦
        if not b then some pq else elim (swap pq i j) [ none ↦ none | some pq' ↦ down f pq' j n ]
  ]
]

-- `heap.Push`
unfoldable pub heap_push :
    List PrioritizedCommit → PrioritizedCommit → Option (List PrioritizedCommit)
heap_push pq item = let q = push pq item in up (length q - 1) q (length q - 1)

-- `heap.Pop`
unfoldable pub heap_pop :
    List PrioritizedCommit → Option (PrioritizedCommit × List PrioritizedCommit)
heap_pop pq =
    let n = length pq - 1 in
    elim (swap pq 0 n) [
      | none ↦ none
      | some pq₁ ↦ elim (down n pq₁ 0 n) [ none ↦ none | some pq₂ ↦ pop pq₂ ]
    ]

-- `el.flags & (markParent1 | markParent2 | markStale)`, with which the parents are marked if the
-- commit is no common one.
unfoldable pub side_flags : PrioritizedCommit → ℕ
side_flags el = bit_and el.flags (mark_parent1 + mark_parent2 + mark_stale)

abbrev pub is_common : PrioritizedCommit → Bool
is_common el = side_flags el == mark_parent1 + mark_parent2

unfoldable pub parent_flags : PrioritizedCommit → ℕ
parent_flags el = if is_common el then bit_or (side_flags el) mark_stale else side_flags el

unfoldable pub next_result : PrioritizedCommit → List ℕ → List ℕ
next_result el res =
    if is_common el
    then (if bit_and el.flags mark_result == 0 then res ++ el.hash ∷ [] else res)
    else res

module _ (objects : Commits) where
  unfoldable pub mark_commit : ℕ → ℕ → PrioritizedCommit
  mark_commit c flags = record { hash = c; flags = flags; priority = objects.when c; index = pos 0 }

  -- Of a list of hashes.
  unfoldable pub get_parents : List ℕ → Result (List ℕ)
  get_parents [] = ok []
  get_parents (h ∷ hs) =
      let rest = get_parents hs in
      if objects.loads h
      then (elim rest [
        | ok ps ↦ ok (h ∷ ps)
        | err e ↦ err e
        | panic ↦ panic
        | out_of_fuel ↦ out_of_fuel
      ])
      else err read_failed

  unfoldable pub push_parents :
      List PrioritizedCommit → List ℕ → ℕ → Option (List PrioritizedCommit)
  push_parents pq [] flags = some pq
  push_parents pq (p ∷ ps) flags = elim (heap_push pq (mark_commit p flags)) [
    | none ↦ none
    | some pq' ↦ push_parents pq' ps flags
  ]

  unfoldable pub common_parents_from : ℕ → List PrioritizedCommit → List ℕ → Result (List ℕ)
  common_parents_from zero pq res = out_of_fuel
  common_parents_from (suc fuel) pq res =
      if not (interesting pq) then ok res else elim (heap_pop pq) [
        | none ↦ panic
        | some (el, pq₁) ↦ elim (get_parents (objects.parent_hashes el.hash)) [
          | ok ps ↦ elim (push_parents pq₁ ps (parent_flags el)) [
            | none ↦ panic
            | some pq₂ ↦ common_parents_from fuel pq₂ (next_result el res)
          ]
          | err e ↦ err e
          | panic ↦ panic
          | out_of_fuel ↦ out_of_fuel
        ]
      ]

  unfoldable pub get_common_parents : ℕ → ℕ → ℕ → Result (List ℕ)
  get_common_parents fuel old_c new_c = do
    q₁ ← or_panic (heap_push [] (mark_commit old_c mark_parent1))
    q₂ ← or_panic (heap_push q₁ (mark_commit new_c mark_parent2))
    common_parents_from fuel q₂ []
