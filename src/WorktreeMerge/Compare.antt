-- ===== src/WorktreeMerge/Compare.antt =====
-- worktree_merge.go: the comparison of the changes of the two sides, path by path.
--
-- `range` is the order in which a loop goes over a map of statuses.
pub mod Outcome
pub mod Paths
use test_perf.Prelude.{◌==◌, Option, none, some, List, [], ◌∷◌, String, if◌then◌else◌, ℕ}
use test_perf.Result.{Result, ok, err, panic, out_of_fuel, read_failed, unexpected_status}
use test_perf.Action.{Action, ◌>>=◌, ◌>>◌, pure, fail, reads}
use test_perf.StringMap.{find, put}
use test_perf.Status.{StatusCode, modified, added, deleted}
use test_perf.WorktreeMerge.{
  Stage, ancestor_mode, our_mode, their_mode, Blob, add_or_update_blob_to_cache,
}
use test_perf.WorktreeMerge.Files.{
  MergingCommit, World, WorkTree, zero_hash, on_world, lift, get_blob,
  write_both_added_conflict_file, copy_file_to_ours, merge_files,
}

-- `merkletrie.Action`
pub data ChangeAction : Type 0 where
  insert delete modify : ChangeAction

-- A change of a tree; `none` is an error of `Action`.
pub record Change : Type 0 where
  pub from : String
  pub to : String
  pub action : Option ChangeAction

pub data DiffType : Type 0 where
  no_conflict both_modified_with_conflicts both_modified_without_conflicts : DiffType
  both_added both_deleted modified_deleted deleted_modified : DiffType

-- `none` is a status that was not set.
pub record MergingResult : Type 0 where
  pub ours_status : Option StatusCode
  pub theirs_status : Option StatusCode
  pub diff_type : DiffType

pub record MergingChanges (C I : Type 0) : Type 0 where
  pub base : MergingCommit C I
  pub commit : MergingCommit C I
  pub changes : List Change

-- The statuses that the changes of one side come to.
unfoldable pub statuses_from :
    List (String × StatusCode) → List Change → Result (List (String × StatusCode))
statuses_from st [] = ok st
statuses_from st (ch ∷ changes) = elim ch.action [
  | none ↦ err read_failed
  | some a ↦ elim a [
    | delete ↦ statuses_from (put ch.from deleted st) changes
    | insert ↦ statuses_from (put ch.to added st) changes
    | modify ↦ statuses_from (put ch.to modified st) changes
  ]
]

module _ {C I W : Type 0} (io : World C I W) where
  -- The blob of a side, put into the cache.
  unfoldable pub cached_blob : MergingCommit C I → String → Stage → Action (WorkTree W) Blob
  cached_blob c path st s = elim (get_blob io c path) [
    | ok b ↦ (record s { blobs = add_or_update_blob_to_cache s.blobs path b st }, ok b)
    | err e ↦ (s, err e)
    | panic ↦ (s, panic)
    | out_of_fuel ↦ (s, out_of_fuel)
  ]

  -- A path that both sides have changed.
  unfoldable pub both_changed :
      I
      → MergingChanges C I
      → MergingChanges C I
      → String
      → StatusCode
      → StatusCode
      → Action (WorkTree W) DiffType
  both_changed idx ours theirs path modified modified = do
    base_b ← cached_blob ours.base path ancestor_mode
    ours_b ← cached_blob ours.commit path our_mode
    theirs_b ← cached_blob theirs.commit path their_mode
    conflicts ← on_world (merge_files io idx path base_b ours_b theirs_b)
    pure (if conflicts == 0 then both_modified_without_conflicts else both_modified_with_conflicts)
  both_changed idx ours theirs path added added = do
    ours_b ← cached_blob ours.commit path our_mode
    theirs_b ← cached_blob theirs.commit path their_mode
    on_world (write_both_added_conflict_file io path ours_b theirs_b)
    on_world (io.add_conflict_file idx path zero_hash ours_b.hash theirs_b.hash)
    pure both_added
  both_changed idx ours theirs path deleted deleted = pure no_conflict
  both_changed idx ours theirs path modified deleted = do
    base_b ← cached_blob ours.base path ancestor_mode
    ours_b ← cached_blob ours.commit path our_mode
    on_world (io.add_conflict_file idx path base_b.hash ours_b.hash zero_hash)
    pure modified_deleted
  both_changed idx ours theirs path modified _ = pure no_conflict
  both_changed idx ours theirs path added _ = pure no_conflict
  both_changed idx ours theirs path deleted modified = do
    base_b ← cached_blob ours.base path ancestor_mode
    theirs_b ← cached_blob theirs.commit path their_mode
    on_world (io.add_conflict_file idx path base_b.hash zero_hash theirs_b.hash)
    pure deleted_modified
  both_changed idx ours theirs path deleted _ = pure no_conflict
  both_changed idx ours theirs path _ _ = fail unexpected_status

  -- A path that ours has changed, theirs perhaps too.
  unfoldable pub ours_changed :
      I
      → MergingChanges C I
      → MergingChanges C I
      → String
      → StatusCode
      → Option StatusCode
      → Action (WorkTree W) MergingResult
  ours_changed idx ours theirs path s₁ none =
      pure (record { ours_status = some s₁; theirs_status = none; diff_type = no_conflict })
  ours_changed idx ours theirs path s₁ (some s₂) = do
    d ← both_changed idx ours theirs path s₁ s₂
    pure (record { ours_status = some s₁; theirs_status = some s₂; diff_type = d })

  unfoldable pub ours_loop :
      I
      → MergingChanges C I
      → MergingChanges C I
      → List (String × StatusCode)
      → List (String × StatusCode)
      → List (String × MergingResult)
      → Action (WorkTree W) (List (String × MergingResult))
  ours_loop idx ours theirs statuses₂ [] res = pure res
  ours_loop idx ours theirs statuses₂ ((path, s₁) ∷ l) res = do
    c ← ours_changed idx ours theirs path s₁ (find path statuses₂)
    ours_loop idx ours theirs statuses₂ l (put path c res)

  -- A path that only theirs has changed.
  unfoldable pub theirs_changed :
      MergingChanges C I → String → StatusCode → Action (WorkTree W) (Unit {0})
  theirs_changed theirs path modified = on_world (copy_file_to_ours io path theirs.commit.commit)
  theirs_changed theirs path added = on_world (copy_file_to_ours io path theirs.commit.commit)
  theirs_changed theirs path deleted = on_world (io.remove path)
  theirs_changed theirs path _ = fail unexpected_status

  unfoldable pub theirs_loop :
      MergingChanges C I
      → List (String × StatusCode)
      → List (String × StatusCode)
      → List (String × MergingResult)
      → Action (WorkTree W) (List (String × MergingResult))
  theirs_loop theirs statuses₁ [] res = pure res
  theirs_loop theirs statuses₁ ((path, s₂) ∷ l) res = elim (find path statuses₁) [
    | some s₁ ↦ theirs_loop theirs statuses₁ l res
    | none ↦ do
      theirs_changed theirs path s₂
      theirs_loop theirs statuses₁ l (
          put path (record { ours_status = none; theirs_status = some s₂; diff_type = no_conflict })
            res)
  ]

  unfoldable pub compare_commits_changes :
      (List (String × StatusCode) → List (String × StatusCode))
      → MergingChanges C I
      → MergingChanges C I
      → Action (WorkTree W) (List (String × MergingResult))
  compare_commits_changes range ours theirs = do
    idx ← reads read_failed (λ (s : WorkTree W). io.index s.world)
    statuses₁ ← lift (statuses_from [] ours.changes)
    statuses₂ ← lift (statuses_from [] theirs.changes)
    res ← ours_loop idx ours theirs statuses₂ (range statuses₁) []
    theirs_loop theirs statuses₁ (range statuses₂) res
