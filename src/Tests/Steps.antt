-- ===== src/Tests/Steps.antt =====
-- Runs of the steps of a merge.
use test_perf.Prelude.{ℕ, ◌≡◌, ◌↔◌, str_eq, if◌then◌else◌, refl, true, none, some, List, [], String}
use test_perf.Result.{ok, read_failed}
use test_perf.Action.{pure, fail}
use test_perf.WorktreeMerge.Compare.{MergingResult}
use test_perf.MergeSteps.{
  fast_forwarded, Steps, without_deletions, has_uncommitted_files, merge_checked,
  non_fast_forward_merge, merge_branch,
}
use test_perf.MergeSteps.Ends.{FastForward, merge_branch-fast_forwarded}

stepping : Unit {0}
unfolding without_deletions has_uncommitted_files merge_checked non_fast_forward_merge merge_branch
stepping = tt

abbrev order : List (String × MergingResult) → List (String × MergingResult)
order rs = rs

-- A repository whose state is the commit of HEAD. `topic` is at commit 9, and other branches are at 3; the
-- first diff cannot be had.
abbrev steps : Steps ℕ
steps = record {
  head = λ s. (s, ok (some s));
  branch = λ b s. (s, ok (if str_eq b "topic" then 9 else 3));
  is_fast_forward = λ ours theirs s. (s, ok true);
  update_head = λ c s. (c, ok tt);
  reset_hard = λ c. pure tt;
  merge_head = pure none;
  diff_commit_with_staging = λ c. fail read_failed;
  diff_staging_with_worktree = pure [];
  get_commit = λ c. pure tt;
  compute_parent = λ a b. pure 1;
  set_merge_head = λ c. pure tt;
  set_orig_head = λ c. pure tt;
  merge_commits = λ p a b. pure [];
  range = order;
  set_merge_msg = λ text. pure tt;
}

merge_run : merge_branch steps "topic" 4 ≡ (9, ok fast_forwarded)
unfolding stepping
merge_run = refl

merge_branch-fast_forwarded_example :
    (merge_branch steps "topic" 4 ≡ (9, ok fast_forwarded)) ↔ FastForward steps "topic" 4 9
merge_branch-fast_forwarded_example = merge_branch-fast_forwarded steps "topic" 4 9

topic_forward : FastForward steps "topic" 4 9
topic_forward = (merge_branch-fast_forwarded steps "topic" 4 9).0 merge_run
