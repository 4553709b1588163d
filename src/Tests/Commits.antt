-- ===== src/Tests/Commits.antt =====
-- Runs of commits.
use test_perf.Prelude.{
  ℕ, ◌+◌, arith, ◌≡◌, refl, false, Option, none, some, List, [], ◌∷◌, ◌++◌, String, str_eq,
  if◌then◌else◌, length, inl,
}
use test_perf.Result.{Result, ok, err, has_unmerged_files, reference_not_found}
use test_perf.Action.{pure}
use test_perf.FilePath.{clean_step, clean_from}
use test_perf.WorktreeMerge.{unmerged_files_from, add_stage, get_unmerged_files}
use test_perf.WorktreeMerge.Files.{WorkTree}
use test_perf.TreeBuild.{
  TreeEntry, path_join, append_to, do_build_tree, commit_parts, commit_index_entry, commit_index,
  name_lt, sort_name, less_entry, insert_entry, sort_entries, copy_entries, copy_tree, build_tree,
}
use test_perf.TreeBuild.Walk.{entry}
use test_perf.WorktreeCommit.{
  IndexItem, symbolic_reference, CommitObject, CommitOptions, CommitStore, merge_head_name,
  head_name, merge_head, head_or_none, worktree_merge_msg, validate, take_merge, if_merging,
  merging_options, unmerged, add_changed, auto_add_modified_and_deleted, commit_object,
  build_commit_object, update_head, remove_merge_head, remove_orig_head, finish_commit, commit_tree,
  commit_entries, add_all, commit_from_index, commit_unless, commit_valid, commit_merging, commit,
  abort_merge,
}
use test_perf.WorktreeCommit.Unmerged.{commit-unmerged}

committing : Unit {0}
unfolding clean_step clean_from unmerged_files_from add_stage get_unmerged_files path_join append_to
    do_build_tree commit_parts commit_index_entry commit_index name_lt sort_name less_entry
    insert_entry sort_entries copy_entries copy_tree build_tree merge_head head_or_none
    worktree_merge_msg validate take_merge if_merging merging_options unmerged add_changed
    auto_add_modified_and_deleted commit_object build_commit_object update_head remove_merge_head
    remove_orig_head finish_commit commit_tree commit_entries add_all commit_from_index
    commit_unless commit_valid commit_merging commit abort_merge
committing = tt

-- A repository on a branch, with a merge that is going on.
record Memory : Type 0 where
  head : Option ℕ
  merging : Option ℕ
  trees : List (List TreeEntry)
  commits : List CommitObject
  index : List IndexItem

abbrev found : Option ℕ → Result ℕ
found none = err reference_not_found
found (some h) = ok h

abbrev resolve : String → Memory → Result ℕ
resolve name m =
    if str_eq name head_name
    then found m.head
    else if str_eq name merge_head_name
    then found m.merging
    else err reference_not_found

abbrev memory_store : CommitStore Memory
memory_store = record {
  resolve = resolve;
  reference = λ name m. ok (symbolic_reference "refs/heads/master");
  set_reference = λ name h m. (record m { head = some h }, ok tt);
  remove_reference = λ name m. (record m { merging = none }, ok tt);
  merge_msg = λ m. ok "Merge branch";
  remove_merge_msg = pure tt;
  index = λ m. ok m.index;
  status = λ m. ok [];
  add = λ path. pure tt;
  set_tree = λ es m. (record m { trees = m.trees ++ es ∷ [] }, ok (length m.trees));
  sign = λ c k. ok "";
  set_commit = λ c m. (record m { commits = m.commits ++ c ∷ [] }, ok (10 + length m.commits));
  reset_hard = λ h. pure tt;
}

abbrev options : CommitOptions
options = record { all = false; author = some "A"; committer = none; parents = []; sign_key = none }

abbrev item : ℕ → IndexItem
item st = record { name = "a"; mode = 33188; hash = 8; stage = st }

abbrev before : ℕ → WorkTree Memory
before st = record {
  world = record {
    head = some 4;
    merging = some 5;
    trees = [];
    commits = [];
    index = item st ∷ [];
  };
  blobs = some [];
}

abbrev after : WorkTree Memory
after = record {
  world = record {
    head = some 10;
    merging = none;
    trees = (entry (97 ∷ []) 33188 8 ∷ []) ∷ [];
    commits =
        record {
          author = "A";
          committer = "A";
          message = "Merge branch";
          tree_hash = 0;
          parent_hashes = 4 ∷ 5 ∷ [];
          pgp_signature = "";
        }
        ∷ [];
    index = item 0 ∷ [];
  };
  blobs = none;
}

merging_run_unmerged : merge_head memory_store (before 2).world ≡ ok (some 5)
unfolding committing
merging_run_unmerged = refl

head_run_unmerged : head_or_none memory_store (before 2).world ≡ ok (some 4)
unfolding committing
head_run_unmerged = refl

commit-unmerged_example :
    commit memory_store "" options (before 2) ≡ (before 2, err has_unmerged_files)
commit-unmerged_example =
    commit-unmerged memory_store "" options (before 2) (some 5) (some 4) merging_run_unmerged
      head_run_unmerged "A" refl (item 2 ∷ []) (item 2) refl (inl refl) (omega arith)
