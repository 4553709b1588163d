-- ===== src/MergeSteps.antt =====
-- worktree_merge.go: the steps of `Merge` and of the merge that is no fast forward.
--
-- The references, the work tree and the merge of two commits with their base are a parameter, `Steps`.
-- `W` is the state of the repository; `range` is the order in which a loop goes over the results.
pub mod Ends
use test_perf.Prelude.{
  ℕ, Bool, true, false, not, Option, none, some, List, [], ◌∷◌, String, if◌then◌else◌,
}
use test_perf.Result.{
  Result, ok, err, panic, out_of_fuel, read_failed, not_exist, merge_in_progress, uncommitted_files,
  ◌>>=◌ as and_then,
}
use test_perf.Action.{Action, ◌>>=◌, ◌>>◌, pure, fail}
use test_perf.MergeMsg.{log_merge_conflicts}
use test_perf.WorktreeMerge.Compare.{MergingResult, Change, ChangeAction, insert, delete, modify}

-- What `Merge` comes to when no step fails: `ErrMergeCommitNeeded` and `ErrMergeWithConflicts` are
-- returned with a message, and after a fast forward there is no error.
pub data MergeEnd : Type 0 where
  fast_forwarded : MergeEnd
  commit_needed with_conflicts : List String → MergeEnd

pub record Steps (W : Type 0) : Type 0 where
  pub head : Action W (Option ℕ)
  pub branch : String → Action W ℕ
  pub is_fast_forward : ℕ → ℕ → Action W Bool
  pub update_head : ℕ → Action W (Unit {0})
  pub reset_hard : ℕ → Action W (Unit {0})
  pub merge_head : Action W (Option ℕ)
  pub diff_commit_with_staging : ℕ → Action W (List Change)
  pub diff_staging_with_worktree : Action W (List Change)
  pub get_commit : ℕ → Action W (Unit {0})
  pub compute_parent : ℕ → ℕ → Action W ℕ
  pub set_merge_head : ℕ → Action W (Unit {0})
  pub set_orig_head : ℕ → Action W (Unit {0})
  pub merge_commits : ℕ → ℕ → ℕ → Action W (List (String × MergingResult))
  pub range : List (String × MergingResult) → List (String × MergingResult)
  pub set_merge_msg : List String → Action W (Unit {0})

abbrev pub some_left : {A : Type 0} → List A → Bool
some_left [] = false
some_left (a ∷ l) = true

-- The changes that are no deletion.
unfoldable pub without_deletions : List Change → Result (List Change)
without_deletions [] = ok []
without_deletions (c ∷ cs) =
    let rest = without_deletions cs in
    elim c.action [
      | none ↦ err read_failed
      | some a ↦ elim a [
        | delete ↦ rest
        | insert ↦ and_then rest (λ l. ok (c ∷ l))
        | modify ↦ and_then rest (λ l. ok (c ∷ l))
      ]
    ]

-- An error is dropped, and `false` is what is returned beside it.
abbrev pub or_false : {W : Type 0} → Action W Bool → Action W Bool
or_false m s =
    let (s', r) = m s in
    elim r [
      | ok b ↦ (s', ok b)
      | err e ↦ (s', ok false)
      | panic ↦ (s', panic)
      | out_of_fuel ↦ (s', out_of_fuel)
    ]

module _ {W : Type 0} (io : Steps W) where
  unfoldable pub has_uncommitted_files : ℕ → Action W Bool
  has_uncommitted_files commit = do
    staged ← io.diff_commit_with_staging commit
    (if some_left staged then pure true else (do
      unstaged ← io.diff_staging_with_worktree
      left ← (λ s. (s, without_deletions unstaged))
      pure (some_left left)))

  -- The part of `nonFastForwardMerge` after the test for uncommitted files.
  unfoldable pub merge_checked : ℕ → ℕ → String → Action W MergeEnd
  merge_checked ours theirs theirs_branch = do
    io.get_commit ours
    io.get_commit theirs
    p ← io.compute_parent ours theirs
    io.set_merge_head theirs
    io.set_orig_head ours
    merge_res ← io.merge_commits p ours theirs
    (conflicts, msg) ← log_merge_conflicts io.set_merge_msg io.range merge_res theirs_branch
    pure (if conflicts then with_conflicts msg else commit_needed msg)

  unfoldable pub non_fast_forward_merge : ℕ → ℕ → String → Action W MergeEnd
  non_fast_forward_merge ours theirs theirs_branch = do
    mh ← io.merge_head
    elim mh [
      | some h ↦ fail merge_in_progress
      | none ↦ do
        dirty ← or_false (has_uncommitted_files ours)
        (if dirty then fail uncommitted_files else merge_checked ours theirs theirs_branch)
    ]

  -- `Merge`
  unfoldable pub merge_branch : String → Action W MergeEnd
  merge_branch theirs_branch = do
    found ← io.head
    elim found [
      | none ↦ fail not_exist
      | some ours ↦ do
        theirs ← io.branch theirs_branch
        ff ← io.is_fast_forward ours theirs
        (if ff
            then (do io.update_head theirs; io.reset_hard theirs; pure fast_forwarded)
            else non_fast_forward_merge ours theirs theirs_branch)
    ]
