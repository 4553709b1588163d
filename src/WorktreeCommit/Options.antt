-- ===== src/WorktreeCommit/Options.antt =====
-- The options that a commit is made with.
use Prim.Native.String.{String}
use test_perf.Prelude.{
  ℕ, ◌≡◌, refl, ap, ◌∙◌, Option, none, some, List, [], ◌∷◌, ◌++◌, str_eq, if◌then◌else◌,
}
use test_perf.Result.{Result, ok}
use test_perf.Action.{Action, ◌>>=◌, >>=-ok}
use test_perf.WorktreeCommit.{
  CommitOptions, CommitStore, reading, opt_list, first_parents, merge_head, head_or_none,
  worktree_merge_msg, validate, set_parents, if_merging, take_merge, merging_options,
}

-- The parents of a commit, from MERGE_HEAD, HEAD and the parents that the options name.
abbrev pub commit_parents : Option ℕ → Option ℕ → List ℕ → List ℕ
commit_parents none head [] = opt_list head
commit_parents none head (p ∷ ps) = p ∷ ps
commit_parents (some m) none ps = ps ++ m ∷ []
commit_parents (some m) (some h) ps = h ∷ m ∷ []

abbrev pub or_author : Option String → String → String
or_author none a = a
or_author (some c) a = c

-- The options after the search for a merge.
abbrev pub merged_options : Option ℕ → Option ℕ → CommitOptions → CommitOptions
merged_options none head opts = opts
merged_options (some m) head opts = record opts {
  parents = first_parents head opts.parents ++ m ∷ [];
}

abbrev pub valid_options : Option ℕ → String → CommitOptions → CommitOptions
valid_options hd author opts = record opts {
  committer = some (or_author opts.committer author);
  parents = commit_parents none hd opts.parents;
}

module _ {W : Type 0} (io : CommitStore W) where
  abbrev pub commit_message : Option ℕ → W → String → String
  commit_message none w msg = msg
  commit_message (some m) w msg = if str_eq msg "" then worktree_merge_msg io w else msg

  pub reading-ok :
      {A B : Type 0} (f : W → Result A) (k : A → Action W B) (w : W) (a : A)
      → f w ≡ ok a
      → (reading io f >>= k) w ≡ k a w
  reading-ok f k w a e = >>=-ok (reading io f) k w w a (ap (λ r. (w, r)) e)

  pub merging_options-ok :
      (msg : String) (opts : CommitOptions) (w : W) (mh hd : Option ℕ)
      → merge_head io w ≡ ok mh
      → head_or_none io w ≡ ok hd
      → merging_options io msg opts w ≡ (w, ok (commit_message mh w msg, merged_options mh hd opts))
  unfolding merging_options if_merging take_merge
  merging_options-ok msg opts w none hd e f =
      reading-ok (merge_head io) (if_merging io msg opts) w none e
  merging_options-ok msg opts w (some m) hd e f =
      reading-ok (merge_head io) (if_merging io msg opts) w (some m) e
      ∙ reading-ok (head_or_none io) (take_merge io msg opts m) w hd f

  pub validate-ok :
      (opts : CommitOptions) (w : W) (hd : Option ℕ) (author : String)
      → opts.author ≡ some author
      → head_or_none io w ≡ ok hd
      → validate io opts w ≡ (w, ok (valid_options hd author opts))
  unfolding validate
  validate-ok opts w hd author e f = at opts.author opts.committer opts.parents e
    where
      at :
          (a c : Option String) (ps : List ℕ)
          → a ≡ some author
          → validate io (record opts { author = a; committer = c; parents = ps }) w ≡ (
            w,
            ok (valid_options hd author (record opts { author = a; committer = c; parents = ps })),
          )
      at none c ps e = cc
      at (some a) none [] e =
          reading-ok (head_or_none io)
            (set_parents io (record opts { author = some a; committer = some a; parents = [] })) w
            hd f
          ∙ rw e refl
      at (some a) (some c) [] e =
          reading-ok (head_or_none io)
            (set_parents io (record opts { author = some a; committer = some c; parents = [] })) w
            hd f
      at (some a) none (p ∷ ps) e = rw (e) refl
      at (some a) (some c) (p ∷ ps) e = refl
