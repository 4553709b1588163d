-- ===== src/CommitQueue.antt =====
-- worktree_priority_queue.go: the slice of commits that `container/heap` keeps as a heap.
--
-- A pointer to an item is the item: none stands in the slice twice. `none` is an index out of range.
pub mod Indexed
use Prim.Native.Nat.{bit_and, bit_or}
use test_perf.Prelude.{
  ℕ, zero, suc, ◌+◌, ◌-◌, Bool, true, false, Option, none, some, List, [], ◌∷◌, ◌++◌, ltb, ◌==◌,
  length, get_elem?, set, take, if◌then◌else◌, ℤ, pos, negsuc,
}

-- `priority` is a time; `hash` is `value.Hash`.
pub record PrioritizedCommit : Type 0 where
  pub hash : ℕ
  pub flags : ℕ
  pub priority : ℕ
  pub index : ℤ

abbrev pub mark_stale : ℕ
mark_stale = 8

-- Pop should give the highest priority, so this is `After`.
unfoldable pub less : List PrioritizedCommit → ℕ → ℕ → Option Bool
less pq i j = elim (get_elem? pq i) [
  | none ↦ none
  | some a ↦ elim (get_elem? pq j) [ none ↦ none | some b ↦ some (ltb b.priority a.priority) ]
]

unfoldable pub swap : List PrioritizedCommit → ℕ → ℕ → Option (List PrioritizedCommit)
swap pq i j = elim (get_elem? pq i) [
  | none ↦ none
  | some a ↦ elim (get_elem? pq j) [
    | none ↦ none
    | some b ↦ some (set (set pq i (record b { index = pos i })) j (record a { index = pos j }))
  ]
]

-- The loop of `Push`: the first item of the same commit takes the flags; `none` if there is none.
unfoldable pub mark : PrioritizedCommit → List PrioritizedCommit → Option (List PrioritizedCommit)
mark item [] = none
mark item (el ∷ pq) =
    let rest = mark item pq in
    if el.hash == item.hash
    then some (record el { flags = bit_or el.flags item.flags } ∷ pq)
    else elim rest [ none ↦ none | some pq' ↦ some (el ∷ pq') ]

unfoldable pub push : List PrioritizedCommit → PrioritizedCommit → List PrioritizedCommit
push pq item = elim (mark item pq) [
  | some pq' ↦ pq'
  | none ↦ pq ++ record item { index = pos (length pq) } ∷ []
]

unfoldable pub pop : List PrioritizedCommit → Option (PrioritizedCommit × List PrioritizedCommit)
pop old = elim (get_elem? old (length old - 1)) [
  | none ↦ none
  | some item ↦ some (record item { index = negsuc 0 }, take (length old - 1) old)
]

unfoldable pub interesting : List PrioritizedCommit → Bool
interesting [] = false
interesting (el ∷ pq) =
    let rest = interesting pq in if bit_and el.flags mark_stale == 0 then true else rest
