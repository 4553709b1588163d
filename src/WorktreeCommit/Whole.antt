-- ===== src/WorktreeCommit/Whole.antt =====
-- `Commit` as a whole.
use Prim.Native.String.{String}
use test_perf.Prelude.{ℕ, ◌≡◌, refl, ap, ◌∙◌, Option, none, some, List, [], ◌∷◌, ◌++◌}
use test_perf.Result.{Result, ok}
use test_perf.Action.{Action, ◌>>=◌, >>=-ok}
use test_perf.WorktreeMerge.Files.{WorkTree}
use test_perf.WorktreeCommit.{
  CommitOptions, CommitStore, merge_head, head_or_none, validate, merging_options, commit_valid,
  commit_merging,
}
use test_perf.WorktreeCommit.Options.{
  commit_parents, or_author, commit_message, merged_options, merging_options-ok, valid_options,
  validate-ok,
}

-- The options with which a commit is made: its committer is the author if there is none, and its
-- parents are as MERGE_HEAD and HEAD have it.
abbrev pub final_options : Option ℕ → Option ℕ → String → CommitOptions → CommitOptions
final_options mh hd author opts = record opts {
  committer = some (or_author opts.committer author);
  parents = commit_parents mh hd opts.parents;
}

merged_parents :
    (mh hd : Option ℕ) (opts : CommitOptions)
    → commit_parents none hd (merged_options mh hd opts).parents ≡ commit_parents mh hd opts.parents
merged_parents none hd opts = refl
merged_parents (some m) (some h) opts = refl
merged_parents (some m) none opts = at opts.parents
  where
    at : (ps : List ℕ) → commit_parents none none (ps ++ m ∷ []) ≡ ps ++ m ∷ []
    at [] = refl
    at (p ∷ ps) = refl

merged_options-final :
    (mh hd : Option ℕ) (author : String) (opts : CommitOptions)
    → valid_options hd author (merged_options mh hd opts) ≡ final_options mh hd author opts
merged_options-final none hd author opts = refl
merged_options-final (some m) hd author opts = λ i. record opts {
  committer = some (or_author opts.committer author);
  parents = merged_parents (some m) hd opts i;
}

merged_author :
    (mh hd : Option ℕ) (opts : CommitOptions) → (merged_options mh hd opts).author ≡ opts.author
merged_author none hd opts = refl
merged_author (some m) hd opts = refl

module _ {W : Type 0} (io : CommitStore W) where
  module _ (msg : String) (opts : CommitOptions) (s : WorkTree W) (mh hd : Option ℕ)
      (merging : merge_head io s.world ≡ ok mh) (head : head_or_none io s.world ≡ ok hd) where
    -- With an author, what `Commit` comes to.
    pub commit-final :
        (author : String)
        → opts.author ≡ some author
        → (merging_options io msg opts >>= commit_merging io) s.world
          ≡ commit_valid io
              (commit_message io mh s.world msg)
              (final_options mh hd author opts)
              s.world
    unfolding commit_merging
    commit-final author a =
        >>=-ok (merging_options io msg opts) (commit_merging io) s.world s.world
          (commit_message io mh s.world msg, merged_options mh hd opts)
          (merging_options-ok io msg opts s.world mh hd merging head)
        ∙ >>=-ok (validate io (merged_options mh hd opts))
            (commit_valid io (commit_message io mh s.world msg)) s.world s.world
            (valid_options hd author (merged_options mh hd opts))
            (validate-ok io (merged_options mh hd opts) s.world hd author
              (merged_author mh hd opts ∙ a) head)
        ∙ ap (λ o. commit_valid io (commit_message io mh s.world msg) o s.world)
            (merged_options-final mh hd author opts)
