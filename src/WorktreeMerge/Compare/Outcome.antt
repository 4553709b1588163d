-- ===== src/WorktreeMerge/Compare/Outcome.antt =====
-- The result of the comparison for each path.
use test_perf.Prelude.{
  ◌≡◌, ◌⊎◌, ◌==◌, refl, inl, inr, Bool-cases, Option, none, some, List, [], ◌∷◌, String,
  if◌then◌else◌, ℕ,
}
use test_perf.Result.{ok}
use test_perf.Action.{Yields, Yields-pure, Yields-bind}
use test_perf.StringMap.{find, put, IsMap, put-IsMap}
use test_perf.Status.{
  StatusCode, unmodified, untracked, modified, added, deleted, renamed, copied,
  updated_but_unmerged,
}
use test_perf.WorktreeMerge.{ancestor_mode, our_mode, their_mode}
use test_perf.WorktreeMerge.Files.{
  World, WorkTree, zero_hash, on_world, merge_files, write_both_added_conflict_file,
}
use test_perf.WorktreeMerge.Compare.{
  Change, ChangeAction, insert, delete, modify, DiffType, no_conflict, both_modified_with_conflicts,
  both_modified_without_conflicts, both_added, modified_deleted, deleted_modified, MergingResult,
  MergingChanges, statuses_from, cached_blob, both_changed,
}

-- The kind of a path that both sides have changed.
abbrev pub Verdict : StatusCode → StatusCode → DiffType → Type 0
Verdict modified modified d =
    (d ≡ both_modified_without_conflicts) ⊎ (d ≡ both_modified_with_conflicts)
Verdict added added d = d ≡ both_added
Verdict modified deleted d = d ≡ modified_deleted
Verdict deleted modified d = d ≡ deleted_modified
Verdict _ _ d = d ≡ no_conflict

-- The result for a path, by what the two sides have done to it.
abbrev pub Outcome : Option StatusCode → Option StatusCode → Option MergingResult → Type 0
Outcome none none r = r ≡ none
Outcome (some s₁) none r =
    r ≡ some (record { ours_status = some s₁; theirs_status = none; diff_type = no_conflict })
Outcome none (some s₂) r =
    r ≡ some (record { ours_status = none; theirs_status = some s₂; diff_type = no_conflict })
Outcome (some s₁) (some s₂) r =
    (d : DiffType) × (r
      ≡ some (record { ours_status = some s₁; theirs_status = some s₂; diff_type = d }))
    × Verdict s₁ s₂ d

-- An order of a map has each key once, and under it what the map has.
pub record IsRange (range : List (String × StatusCode) → List (String × StatusCode)) : Type 0 where
  pub range-IsMap : (m : List (String × StatusCode)) → IsMap m → IsMap (range m)
  pub find-range :
      (m : List (String × StatusCode)) (p : String) → IsMap m → find p (range m) ≡ find p m

pub statuses_from-IsMap :
    (st st' : List (String × StatusCode)) (changes : List Change)
    → IsMap st
    → statuses_from st changes ≡ ok st'
    → IsMap st'
unfolding statuses_from
statuses_from-IsMap st st' [] u h = let e : st ≡ st' = cc (h) in rw (← e) u
statuses_from-IsMap st st' (ch ∷ changes) u h =
    at ch.action refl (λ m v k. statuses_from-IsMap m st' changes v k)
  where
    at :
        (o : Option ChangeAction)
        → ch.action ≡ o
        → ((m : List (String × StatusCode))
            → IsMap m
            → statuses_from m changes ≡ ok st'
            → IsMap st')
        → IsMap st'
    at none e rest = cc (e, h)
    at (some delete) e rest =
        rest (put ch.from deleted st) (put-IsMap ch.from deleted st u) (cc (e, h))
    at (some insert) e rest = rest (put ch.to added st) (put-IsMap ch.to added st u) (cc (e, h))
    at (some modify) e rest =
        rest (put ch.to modified st) (put-IsMap ch.to modified st u) (cc (e, h))

module _ {C I W : Type 0} (io : World C I W) where
  one_of :
      (n : ℕ)
      → let d : DiffType =
          (if n == 0 then both_modified_without_conflicts else both_modified_with_conflicts) in
        (d ≡ both_modified_without_conflicts) ⊎ (d ≡ both_modified_with_conflicts)
  one_of n = elim (Bool-cases (n == 0)) [ inl e ↦ inl (rw e refl) | inr e ↦ inr (rw e refl) ]

  modified_twice :
      (idx : I) (ours theirs : MergingChanges C I) (path : String)
      → Yields
          (λ d. (d ≡ both_modified_without_conflicts) ⊎ (d ≡ both_modified_with_conflicts))
          (both_changed io idx ours theirs path modified modified)
  unfolding both_changed
  modified_twice idx ours theirs path =
      Yields-bind (λ d. (d ≡ both_modified_without_conflicts) ⊎ (d ≡ both_modified_with_conflicts))
        (cached_blob io ours.base path ancestor_mode) _
        (λ b0.
          Yields-bind
            (λ d. (d ≡ both_modified_without_conflicts) ⊎ (d ≡ both_modified_with_conflicts))
            (cached_blob io ours.commit path our_mode) _
            (λ b1.
              Yields-bind
                (λ d. (d ≡ both_modified_without_conflicts) ⊎ (d ≡ both_modified_with_conflicts))
                (cached_blob io theirs.commit path their_mode) _
                (λ b2.
                  Yields-bind
                    (λ d.
                      (d ≡ both_modified_without_conflicts) ⊎ (d ≡ both_modified_with_conflicts))
                    (on_world (merge_files io idx path b0 b1 b2)) _
                    (λ b3.
                      Yields-pure
                        (λ d.
                          (d ≡ both_modified_without_conflicts)
                          ⊎ (d ≡ both_modified_with_conflicts))
                        _ (one_of b3)))))

  added_twice :
      (idx : I) (ours theirs : MergingChanges C I) (path : String)
      → Yields (λ d. d ≡ both_added) (both_changed io idx ours theirs path added added)
  unfolding both_changed
  added_twice idx ours theirs path =
      Yields-bind (λ d. d ≡ both_added) (cached_blob io ours.commit path our_mode) _
        (λ b0.
          Yields-bind (λ d. d ≡ both_added) (cached_blob io theirs.commit path their_mode) _
            (λ b1.
              Yields-bind (λ d. d ≡ both_added)
                (on_world (write_both_added_conflict_file io path b0 b1)) _
                (λ b2.
                  Yields-bind (λ d. d ≡ both_added)
                    (on_world (io.add_conflict_file idx path zero_hash b0.hash b1.hash)) _
                    (λ b3. Yields-pure (λ d. d ≡ both_added) _ refl))))

  modified_away :
      (idx : I) (ours theirs : MergingChanges C I) (path : String)
      → Yields (λ d. d ≡ modified_deleted) (both_changed io idx ours theirs path modified deleted)
  unfolding both_changed
  modified_away idx ours theirs path =
      Yields-bind (λ d. d ≡ modified_deleted) (cached_blob io ours.base path ancestor_mode) _
        (λ b0.
          Yields-bind (λ d. d ≡ modified_deleted) (cached_blob io ours.commit path our_mode) _
            (λ b1.
              Yields-bind (λ d. d ≡ modified_deleted)
                (on_world (io.add_conflict_file idx path b0.hash b1.hash zero_hash)) _
                (λ b2. Yields-pure (λ d. d ≡ modified_deleted) _ refl)))

  deleted_away :
      (idx : I) (ours theirs : MergingChanges C I) (path : String)
      → Yields (λ d. d ≡ deleted_modified) (both_changed io idx ours theirs path deleted modified)
  unfolding both_changed
  deleted_away idx ours theirs path =
      Yields-bind (λ d. d ≡ deleted_modified) (cached_blob io ours.base path ancestor_mode) _
        (λ b0.
          Yields-bind (λ d. d ≡ deleted_modified) (cached_blob io theirs.commit path their_mode) _
            (λ b1.
              Yields-bind (λ d. d ≡ deleted_modified)
                (on_world (io.add_conflict_file idx path b0.hash zero_hash b1.hash)) _
                (λ b2. Yields-pure (λ d. d ≡ deleted_modified) _ refl)))

  pub both_changed-Verdict :
      (idx : I) (ours theirs : MergingChanges C I) (path : String) (s₁ s₂ : StatusCode)
      (s s' : WorkTree W) (d : DiffType)
      → both_changed io idx ours theirs path s₁ s₂ s ≡ (s', ok d)
      → Verdict s₁ s₂ d
  unfolding both_changed
  both_changed-Verdict idx ours theirs path unmodified _ s s' d h = cc (h)
  both_changed-Verdict idx ours theirs path untracked _ s s' d h = cc (h)
  both_changed-Verdict idx ours theirs path modified unmodified s s' d h = cc (h)
  both_changed-Verdict idx ours theirs path modified untracked s s' d h = cc (h)
  both_changed-Verdict idx ours theirs path modified modified s s' d h =
      (modified_twice idx ours theirs path).yields s s' d h
  both_changed-Verdict idx ours theirs path modified added s s' d h = cc (h)
  both_changed-Verdict idx ours theirs path modified deleted s s' d h =
      (modified_away idx ours theirs path).yields s s' d h
  both_changed-Verdict idx ours theirs path modified renamed s s' d h = cc (h)
  both_changed-Verdict idx ours theirs path modified copied s s' d h = cc (h)
  both_changed-Verdict idx ours theirs path modified updated_but_unmerged s s' d h = cc (h)
  both_changed-Verdict idx ours theirs path added unmodified s s' d h = cc (h)
  both_changed-Verdict idx ours theirs path added untracked s s' d h = cc (h)
  both_changed-Verdict idx ours theirs path added modified s s' d h = cc (h)
  both_changed-Verdict idx ours theirs path added added s s' d h =
      (added_twice idx ours theirs path).yields s s' d h
  both_changed-Verdict idx ours theirs path added deleted s s' d h = cc (h)
  both_changed-Verdict idx ours theirs path added renamed s s' d h = cc (h)
  both_changed-Verdict idx ours theirs path added copied s s' d h = cc (h)
  both_changed-Verdict idx ours theirs path added updated_but_unmerged s s' d h = cc (h)
  both_changed-Verdict idx ours theirs path deleted unmodified s s' d h = cc (h)
  both_changed-Verdict idx ours theirs path deleted untracked s s' d h = cc (h)
  both_changed-Verdict idx ours theirs path deleted modified s s' d h =
      (deleted_away idx ours theirs path).yields s s' d h
  both_changed-Verdict idx ours theirs path deleted added s s' d h = cc (h)
  both_changed-Verdict idx ours theirs path deleted deleted s s' d h = cc (h)
  both_changed-Verdict idx ours theirs path deleted renamed s s' d h = cc (h)
  both_changed-Verdict idx ours theirs path deleted copied s s' d h = cc (h)
  both_changed-Verdict idx ours theirs path deleted updated_but_unmerged s s' d h = cc (h)
  both_changed-Verdict idx ours theirs path renamed _ s s' d h = cc (h)
  both_changed-Verdict idx ours theirs path copied _ s s' d h = cc (h)
  both_changed-Verdict idx ours theirs path updated_but_unmerged _ s s' d h = cc (h)
