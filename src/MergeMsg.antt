-- ===== src/MergeMsg.antt =====
-- worktree_merge.go, `logMergeConflicts`: the message of a merge.
--
-- A text is its pieces, one for each write. The storer's `SetMergeMsg` is a parameter, and `range` the
-- order in which the loop goes over the results.
pub mod Conflicts
use test_perf.Prelude.{
  Bool, true, false, Option, none, some, List, [], ◌∷◌, ◌++◌, String, if◌then◌else◌,
}
use test_perf.Action.{Action, ◌>>=◌, ◌>>◌, pure}
use test_perf.WorktreeMerge.Compare.{
  DiffType, no_conflict, both_modified_with_conflicts, both_modified_without_conflicts, both_added,
  both_deleted, modified_deleted, deleted_modified, MergingResult,
}

-- `hasConflicts`, and the builders for the message and for the MERGE_MSG file.
pub record Log : Type 0 where
  pub has_conflicts : Bool
  pub b : List String
  pub fb : List String

-- What the switch writes to the message; `none` is a kind that is passed over.
unfoldable pub conflict_lines : String → String → DiffType → Option (List String)
conflict_lines theirs path both_added =
    some
      ("Auto-merging " ∷ path ∷ "\n" ∷ "CONFLICT (add/add): Merge conflict in " ∷ path ∷ "\n" ∷ [])
conflict_lines theirs path both_deleted = none
conflict_lines theirs path both_modified_with_conflicts =
    some
      ("Auto-merging " ∷ path ∷ "\n" ∷ "CONFLICT (content): Merge conflict in " ∷ path ∷ "\n" ∷ [])
conflict_lines theirs path both_modified_without_conflicts = none
conflict_lines theirs path modified_deleted =
    some ("(modify/delete): " ∷ path ∷ " modified in HEAD and deleted in " ∷ theirs ∷ ".\n" ∷ [])
conflict_lines theirs path deleted_modified =
    some ("(delete/modify): " ∷ path ∷ " deleted in HEAD and modified in " ∷ theirs ∷ ".\n" ∷ [])
conflict_lines theirs path no_conflict = none

-- One round of the loop.
unfoldable pub log_result : String → Log → String × MergingResult → Log
log_result theirs l (path, r) = elim (conflict_lines theirs path r.diff_type) [
  | none ↦ l
  | some ls ↦ record { has_conflicts = true; b = l.b ++ ls; fb = l.fb ++ "#\t" ∷ path ∷ "\n" ∷ [] }
]

unfoldable pub log_results : String → Log → List (String × MergingResult) → Log
log_results theirs l [] = l
log_results theirs l (r ∷ rs) = log_results theirs (log_result theirs l r) rs

abbrev pub merge_title : String → List String
merge_title theirs = "Merge branch '" ∷ theirs ∷ "'\n\n" ∷ []

-- The message for the commit of a merge that has no conflict.
abbrev pub commit_help : String
commit_help =
    "# Please enter a commit message to explain why this merge is necessary,\n# especially if it merges an updated upstream into a topic branch.\n#\n# Lines starting with '#' will be ignored, and an empty message aborts\n# the commit."

-- `theirs` is the short name of the branch.
unfoldable pub log_merge_conflicts :
    {W : Type 0}
    → (List String → Action W (Unit {0}))
    → (List (String × MergingResult) → List (String × MergingResult))
    → List (String × MergingResult)
    → String
    → Action W (Bool × List String)
log_merge_conflicts set_merge_msg range results theirs =
    let start : Log = record {
      has_conflicts = false;
      b = [];
      fb = merge_title theirs ++ "# Conflicts:\n" ∷ [];
    } in
    let l : Log = log_results theirs start (range results) in
    if l.has_conflicts
    then (do
      set_merge_msg l.fb
      pure
          (true, l.b ++ "Automatic merge failed; fix conflicts and then commit the result.\n" ∷ []))
    else (do
      set_merge_msg (merge_title theirs ++ commit_help ∷ [])
      pure (false, "Create merge commit to continue merge process" ∷ []))
