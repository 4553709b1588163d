-- ===== src/WorktreeMerge/Reset.antt =====
-- worktree.go, `resetIndex`: the index without the entries of an unfinished merge, and with those of a
-- tree.
--
-- Of `index.Index` the call of `Remove` is a parameter; so are the entries of the tree, and the
-- changes from the index to the tree.
use test_perf.Prelude.{
  ℕ, true, not, ◌≡◌, refl, ap, Option-cases, Option, none, some, List, [], ◌∷◌, ◌++◌, String, ◌==◌,
  if◌then◌else◌, Bool-cases, inl, inr,
}
use test_perf.Result.{Result, ok, err, read_failed, ◌>>=◌}
use test_perf.WorktreeMerge.{Entry, merged, our_mode, conflict_entries_from, conflict_entries}
use test_perf.WorktreeMerge.Compare.{Change, ChangeAction, insert, delete, modify}

-- The entries of our side become the merged ones.
unfoldable pub merged_entries : List Entry → List Entry
merged_entries [] = []
merged_entries (e ∷ es) =
    let rest = merged_entries es in
    if not (e.stage == merged)
    then (if e.stage == our_mode then record e { stage = merged } ∷ rest else rest)
    else e ∷ rest

abbrev pub tree_entry : String → ℕ → Entry
tree_entry name hash = record { name = name; stage = merged; hash = hash }

module _ (remove : List Entry → String → List Entry) (find_entry : String → Option ℕ) where
  -- The loop over the changes; `none` is an error of `Action` or `FindEntry`.
  unfoldable pub apply_changes : List Entry → List Change → Result (List Entry)
  apply_changes es [] = ok es
  apply_changes es (ch ∷ changes) = elim ch.action [
    | none ↦ err read_failed
    | some a ↦ elim a [
      | delete ↦ apply_changes (remove es ch.from) changes
      | insert ↦ elim (find_entry ch.to) [
        | none ↦ err read_failed
        | some h ↦ apply_changes (remove es ch.to ++ tree_entry ch.to h ∷ []) changes
      ]
      | modify ↦ elim (find_entry ch.to) [
        | none ↦ err read_failed
        | some h ↦ apply_changes (remove es ch.to ++ tree_entry ch.to h ∷ []) changes
      ]
    ]
  ]

  -- The new entries of the index, which are then stored.
  unfoldable pub reset_index : Result (List Entry) → Result (List Change) → Result (List Entry)
  reset_index index changes = do es ← index; chs ← changes; apply_changes (merged_entries es) chs

-- No entry is of an unfinished merge.
abbrev pub AllMerged : List Entry → Type 0
AllMerged [] = Unit
AllMerged (e ∷ es) = ((e.stage == merged) ≡ true) × AllMerged es

AllMerged-merged_entries : (es : List Entry) → AllMerged (merged_entries es)
unfolding merged_entries
AllMerged-merged_entries [] = tt
AllMerged-merged_entries (e ∷ es) = elim (Bool-cases (e.stage == merged)) [
  | inl h ↦ rw h (h, AllMerged-merged_entries es)
  | inr h ↦ elim (Bool-cases (e.stage == our_mode)) [
    | inl k ↦ rw (h, k) (refl, AllMerged-merged_entries es)
    | inr k ↦ rw (h, k) (AllMerged-merged_entries es)
  ]
]

AllMerged-append :
    (es : List Entry) (e : Entry)
    → AllMerged es
    → (e.stage == merged) ≡ true
    → AllMerged (es ++ e ∷ [])
AllMerged-append [] e v h = (h, tt)
AllMerged-append (x ∷ es) e (p, v) h = (p, AllMerged-append es e v h)

conflict_entries_from-AllMerged :
    (m : List (String × List Entry)) (es : List Entry)
    → AllMerged es
    → conflict_entries_from m es ≡ m
unfolding conflict_entries_from
conflict_entries_from-AllMerged m [] v = refl
conflict_entries_from-AllMerged m (e ∷ es) (p, v) = rw p (conflict_entries_from-AllMerged m es v)

module _ (remove : List Entry → String → List Entry) (find_entry : String → Option ℕ)
    (keeps : (es : List Entry) (name : String) → AllMerged es → AllMerged (remove es name)) where
  apply_changes-AllMerged :
      (es es' : List Entry) (changes : List Change)
      → AllMerged es
      → apply_changes remove find_entry es changes ≡ ok es'
      → AllMerged es'
  unfolding apply_changes
  apply_changes-AllMerged es es' [] v h = let e : es ≡ es' = cc (h) in rw (← e) v
  apply_changes-AllMerged es es' (ch ∷ changes) v h =
      at ch.action refl (λ m u k. apply_changes-AllMerged m es' changes u k)
    where
      Rest : Type 0
      Rest =
          (m : List Entry)
          → AllMerged m
          → apply_changes remove find_entry m changes ≡ ok es'
          → AllMerged es'

      at : (o : Option ChangeAction) → ch.action ≡ o → Rest → AllMerged es'
      at none e rest = cc (e, h)
      at (some delete) e rest = rest (remove es ch.from) (keeps es ch.from v) (cc (e, h))
      at (some insert) e rest = elim (Option-cases (find_entry ch.to)) [
        | inl f ↦ cc (e, f, h)
        | inr (n, f) ↦
            rest (remove es ch.to ++ tree_entry ch.to n ∷ [])
              (AllMerged-append (remove es ch.to) (tree_entry ch.to n) (keeps es ch.to v) refl)
              (cc (e, f, h))
      ]
      at (some modify) e rest = elim (Option-cases (find_entry ch.to)) [
        | inl f ↦ cc (e, f, h)
        | inr (n, f) ↦
            rest (remove es ch.to ++ tree_entry ch.to n ∷ [])
              (AllMerged-append (remove es ch.to) (tree_entry ch.to n) (keeps es ch.to v) refl)
              (cc (e, f, h))
      ]

  -- After `resetIndex` without an error `ConflictEntries` finds nothing, if `Remove` only takes entries
  -- away.
  pub conflict_entries-reset_index :
      (es es' : List Entry) (changes : List Change)
      → reset_index remove find_entry (ok es) (ok changes) ≡ ok es'
      → conflict_entries (ok es') ≡ ok []
  unfolding reset_index conflict_entries
  conflict_entries-reset_index es es' changes h = ap ok (
      conflict_entries_from-AllMerged [] es'
        (apply_changes-AllMerged (merged_entries es) es' changes (AllMerged-merged_entries es) h))
