-- ===== src/Tests/Merging.antt =====
-- Runs of the merge of work trees.
use test_perf.Prelude.{
  ◌≡◌, Bool-cases, inl, inr, if◌then◌else◌, str_eq, Option, refl, true, false, none, some, List, [],
  ◌∷◌, String, ℕ,
}
use test_perf.Result.{Result, ok, err, not_exist}
use test_perf.Action.{Action, pure}
use test_perf.StringMap.{find}
use test_perf.Status.{Status, StatusCode, modified, added, deleted, unmodified, file, is_untracked}
use test_perf.WorktreeMerge.{
  Entry, Stage, merged, ancestor_mode, our_mode, Blob, add_entry, conflict_entries_from,
  conflict_entries, add_stage, unmerged_files_from, get_unmerged_files, update_blob,
  add_or_update_blob_to_cache, find_blob, read_file_by_stage,
}
use test_perf.WorktreeMerge.Entries.{
  unmerged_of, nonempty, first_stage, find-conflict_entries, find-get_unmerged_files,
}
use test_perf.WorktreeMerge.Blobs.{content, read_file_by_stage-add_or_update_blob_to_cache}
use test_perf.WorktreeMerge.Files.{
  World, WorkTree, missing, MergingCommit, entry_hash, write_lines, write_side, write_delim,
  both_added_file, get_blob, write_both_added_conflict_file, copy_file_to_ours, merge_files,
}
use test_perf.WorktreeMerge.Compare.{
  Change, insert, delete, modify, MergingChanges, MergingResult, no_conflict, deleted_modified,
  statuses_from, cached_blob, both_changed, ours_changed, ours_loop, theirs_changed, theirs_loop,
  compare_commits_changes,
}
use test_perf.WorktreeMerge.Compare.Outcome.{Outcome, IsRange}
use test_perf.WorktreeMerge.Reset.{
  AllMerged, merged_entries, apply_changes, reset_index, conflict_entries-reset_index,
}
use test_perf.MergeMsg.{log_merge_conflicts}
use test_perf.MergeMsg.Conflicts.{merge_msg, log_merge_conflicts_lem}
use test_perf.WorktreeMerge.Compare.Paths.{compare_commits_changes-Outcome}

merging : Unit {0}
unfolding file is_untracked add_entry conflict_entries_from conflict_entries add_stage
    unmerged_files_from get_unmerged_files update_blob add_or_update_blob_to_cache find_blob
    read_file_by_stage entry_hash write_lines write_side write_delim both_added_file get_blob
    write_both_added_conflict_file copy_file_to_ours merge_files statuses_from cached_blob
    both_changed ours_changed ours_loop theirs_changed theirs_loop compare_commits_changes
    merged_entries apply_changes reset_index
merging = tt

abbrev status : Status
status = ("a", record { staging = unmodified; worktree = modified; extra = "" }) ∷ []

abbrev index : List Entry
index =
    record { name = "a"; stage = merged; hash = 1 }
    ∷ record { name = "b"; stage = ancestor_mode; hash = 2 }
    ∷ record { name = "b"; stage = our_mode; hash = 3 }
    ∷ []

find-conflict_entries_example :
    (m : List (String × List Entry)) × (conflict_entries (ok index) ≡ ok m)
    × ((p : String) → find p m ≡ nonempty (unmerged_of p index))
find-conflict_entries_example = find-conflict_entries index

find-get_unmerged_files_example :
    (m : List (String × List Stage)) × (get_unmerged_files (ok index) ≡ ok m)
    × ((p : String) → find p m ≡ first_stage (unmerged_of p index))
find-get_unmerged_files_example = find-get_unmerged_files index

-- Of the two stages of the path only the first is there.
unmerged_files_run : get_unmerged_files (ok index) ≡ ok (("b", ancestor_mode ∷ []) ∷ [])
unfolding merging
unmerged_files_run = refl

abbrev blob : ℕ → Blob
blob n = record { hash = n; reader = some (n ∷ []) }

abbrev no_file : String → Result (List ℕ)
no_file path = err not_exist

read_file_by_stage-add_or_update_blob_to_cache_example :
    read_file_by_stage no_file (add_or_update_blob_to_cache none "a" (blob 7) our_mode) "a" our_mode
    ≡ content (blob 7)
read_file_by_stage-add_or_update_blob_to_cache_example =
    read_file_by_stage-add_or_update_blob_to_cache no_file none "a" "a" (blob 7) our_mode our_mode
      refl

-- A repository in which every call ends well; its state counts nothing.
abbrev repository : World (Unit {0}) (Unit {0}) (Unit {0})
repository = record {
  index = λ w. some tt;
  file = λ c path. some (blob 5);
  blob_object = λ h. none;
  entry = λ i path. missing;
  scan = λ b. some (record { lines = "x" ∷ []; fails = false });
  temp_file = λ w. record { creates = true; fails = λ f. false; closes = true };
  create = λ path. pure tt;
  copy = λ path r. pure tt;
  rename_to = λ f path. pure tt;
  add = λ path. pure tt;
  remove = λ path. pure tt;
  remove_file = λ path. pure tt;
  add_conflict_file = λ i path a b c. pure tt;
}

abbrev commit : MergingCommit (Unit {0}) (Unit {0})
commit = record { commit = tt; idx = tt; is_virtual = false }

abbrev side : List Change → MergingChanges (Unit {0}) (Unit {0})
side changes = record { base = commit; commit = commit; changes = changes }

abbrev ours : MergingChanges (Unit {0}) (Unit {0})
ours = side (
    record { from = "a"; to = "a"; action = some modify }
    ∷ record { from = "b"; to = ""; action = some delete }
    ∷ [])

abbrev theirs : MergingChanges (Unit {0}) (Unit {0})
theirs = side (
    record { from = "b"; to = "b"; action = some modify }
    ∷ record { from = ""; to = "c"; action = some insert }
    ∷ [])

abbrev tree : WorkTree (Unit {0})
tree = record { world = tt; blobs = none }

abbrev same : List (String × StatusCode) → List (String × StatusCode)
same m = m

same-IsRange : IsRange same
same-IsRange = record { range-IsMap = λ m u. u; find-range = λ m p u. refl }

compared :
    (s : WorkTree (Unit {0})) × (res : List (String × MergingResult)) × (compare_commits_changes
        repository same ours theirs tree
      ≡ (s, ok res))
unfolding merging
compared = (_, _, refl)

statuses_ours : statuses_from [] ours.changes ≡ ok (("a", modified) ∷ ("b", deleted) ∷ [])
unfolding merging
statuses_ours = refl

statuses_theirs : statuses_from [] theirs.changes ≡ ok (("b", modified) ∷ ("c", added) ∷ [])
unfolding merging
statuses_theirs = refl

compare_commits_changes-Outcome_example :
    Outcome
      (find "b" (("a", modified) ∷ ("b", deleted) ∷ []))
      (find "b" (("b", modified) ∷ ("c", added) ∷ []))
      (find "b" compared.1)
compare_commits_changes-Outcome_example =
    compare_commits_changes-Outcome repository same ours theirs tree compared.0
      (("a", modified) ∷ ("b", deleted) ∷ []) (("b", modified) ∷ ("c", added) ∷ []) compared.1
      same-IsRange statuses_ours statuses_theirs compared.2 "b"

-- A storer whose state is the text of the message.
abbrev set_merge_msg : List String → Action (List String) (Unit {0})
set_merge_msg text s = (text, ok tt)

abbrev same_results : List (String × MergingResult) → List (String × MergingResult)
same_results rs = rs

abbrev two_results : List (String × MergingResult)
two_results =
    ("a", record { ours_status = some modified; theirs_status = none; diff_type = no_conflict })
    ∷ (
      "b",
      record {
        ours_status = some deleted;
        theirs_status = some modified;
        diff_type = deleted_modified;
      },
    )
    ∷ []

log_merge_conflicts_lem_example :
    (msg : List String) × (log_merge_conflicts set_merge_msg same_results two_results "topic" []
      ≡ (merge_msg "topic" ("b" ∷ []), ok (true, msg)))
log_merge_conflicts_lem_example =
    log_merge_conflicts_lem set_merge_msg same_results two_results "topic" []
      (merge_msg "topic" ("b" ∷ [])) refl

-- The first entry with the name goes.
abbrev remove_named : List Entry → String → List Entry
remove_named [] name = []
remove_named (e ∷ es) name =
    let rest = remove_named es name in if str_eq e.name name then es else e ∷ rest

remove_named-AllMerged :
    (es : List Entry) (name : String) → AllMerged es → AllMerged (remove_named es name)
remove_named-AllMerged [] name v = tt
remove_named-AllMerged (e ∷ es) name (p, v) = elim (Bool-cases (str_eq e.name name)) [
  | inl h ↦ rw h v
  | inr h ↦ rw h (p, remove_named-AllMerged es name v)
]

abbrev tree_hash : String → Option ℕ
tree_hash name = some 9

abbrev one_change : List Change
one_change = record { from = "a"; to = "a"; action = some modify } ∷ []

reset : (es : List Entry) × (reset_index remove_named tree_hash (ok index) (ok one_change) ≡ ok es)
unfolding merging
reset = (_, refl)

conflict_entries-reset_index_example : conflict_entries (ok reset.0) ≡ ok []
conflict_entries-reset_index_example =
    conflict_entries-reset_index remove_named tree_hash remove_named-AllMerged index reset.0
      one_change reset.1
