-- ===== src/WorktreeCommit.antt =====
-- worktree_commit.go: `Commit`; worktree_merge.go: `AbortMerge`; options.go and repository.go: what these
-- call.
--
-- The storer of the repository and the work tree behind it are a parameter, `CommitStore`; reading
-- them changes nothing. `W` is their state. The options are passed on as `Commit` changes them. A
-- commit that is returned beside an error is left out, and so are the texts that are printed.
pub mod Options
pub mod Outcome
pub mod Whole
pub mod Unmerged
use Prim.Native.Char.{code}
use Prim.Native.String.{String}
use test_perf.Prelude.{
  ℕ, Bool, true, false, Option, none, some, List, [], ◌∷◌, ◌++◌, map, str_eq, if◌then◌else◌,
}
use test_perf.Result.{
  Result, Error, ok, err, panic, out_of_fuel, missing_author, has_unmerged_files,
  reference_not_found,
}
use test_perf.Action.{Action, ◌>>=◌, ◌>>◌, pure, fail, ignore}
use test_perf.WorktreeMerge.{Entry, Stage, get_unmerged_files}
use test_perf.WorktreeMerge.Files.{WorkTree, on_world}
use test_perf.TreeBuild.{IndexEntry, TreeEntry, build_tree}
use test_perf.Status.{StatusCode, FileStatus, modified, deleted, code as status_code}

-- `index.Entry`
pub record IndexItem : Type 0 where
  pub name : String
  pub mode : ℕ
  pub hash : ℕ
  pub stage : Stage

-- `plumbing.Reference`
pub data RefTarget : Type 0 where
  hash_reference : ℕ → RefTarget
  symbolic_reference : String → RefTarget

pub record CommitObject : Type 0 where
  pub author : String
  pub committer : String
  pub message : String
  pub tree_hash : ℕ
  pub parent_hashes : List ℕ
  pub pgp_signature : String

-- `CommitOptions`; `none` is nil.
pub record CommitOptions : Type 0 where
  pub all : Bool
  pub author : Option String
  pub committer : Option String
  pub parents : List ℕ
  pub sign_key : Option ℕ

-- `resolve` is `storer.ResolveReference`, and `sign` is `buildCommitSignature`.
pub record CommitStore (W : Type 0) : Type 0 where
  pub resolve : String → W → Result ℕ
  pub reference : String → W → Result RefTarget
  pub set_reference : String → ℕ → Action W (Unit {0})
  pub remove_reference : String → Action W (Unit {0})
  pub merge_msg : W → Result String
  pub remove_merge_msg : Action W (Unit {0})
  pub index : W → Result (List IndexItem)
  pub status : W → Result (List (String × FileStatus))
  pub add : String → Action W (Unit {0})
  pub set_tree : List TreeEntry → Action W ℕ
  pub sign : CommitObject → ℕ → Result String
  pub set_commit : CommitObject → Action W ℕ
  pub reset_hard : ℕ → Action W (Unit {0})

abbrev pub head_name : String
head_name = "HEAD"

abbrev pub merge_head_name : String
merge_head_name = "MERGE_HEAD"

abbrev pub orig_head_name : String
orig_head_name = "ORIG_HEAD"

-- `ErrReferenceNotFound` is no reference, here `none`.
abbrev pub or_none : {A : Type 0} → Result A → Result (Option A)
or_none (ok a) = ok (some a)
or_none (err reference_not_found) = ok none
or_none (err e) = err e
or_none panic = panic
or_none out_of_fuel = out_of_fuel

-- The code points of a text; in their order they sort as its bytes do.
abbrev pub codes : String → List ℕ
codes String.[] = []
codes (String.◌∷◌ c s) = code c ∷ codes s

abbrev pub merge_entry : IndexItem → Entry
merge_entry i = record { name = i.name; stage = i.stage; hash = i.hash }

abbrev pub tree_item : IndexItem → IndexEntry
tree_item i = record { name = codes i.name; mode = i.mode; hash = i.hash }

abbrev pub map_ok : {A B : Type 0} → (A → B) → Result A → Result B
map_ok f (ok a) = ok (f a)
map_ok f (err e) = err e
map_ok f panic = panic
map_ok f out_of_fuel = out_of_fuel

abbrev pub or_empty : Result String → String
or_empty (ok m) = m
or_empty _ = ""

abbrev pub opt_list : Option ℕ → List ℕ
opt_list none = []
opt_list (some h) = h ∷ []

-- The parents before that of MERGE_HEAD.
abbrev pub first_parents : Option ℕ → List ℕ → List ℕ
first_parents none ps = ps
first_parents (some h) ps = h ∷ []

abbrev pub none_left : {A : Type 0} → List A → Bool
none_left [] = true
none_left (a ∷ l) = false

-- `blobs` is set to nil.
abbrev pub forget_blobs : {W A : Type 0} → A → Action (WorkTree W) A
forget_blobs a s = (record s { blobs = none }, ok a)

module _ {W : Type 0} (io : CommitStore W) where
  abbrev pub reading : {A : Type 0} → (W → Result A) → Action W A
  reading f w = (w, f w)

  -- `Repository.MergeHead`
  unfoldable pub merge_head : W → Result (Option ℕ)
  merge_head w = or_none (io.resolve merge_head_name w)

  -- `Repository.Head`, where the caller lets `ErrReferenceNotFound` pass.
  unfoldable pub head_or_none : W → Result (Option ℕ)
  head_or_none w = or_none (io.resolve head_name w)

  -- `Worktree.MergeMsg`, which drops its error.
  unfoldable pub worktree_merge_msg : W → String
  worktree_merge_msg w = or_empty (io.merge_msg w)

  abbrev pub set_parents : CommitOptions → Option ℕ → Action W CommitOptions
  set_parents opts head = pure (record opts { parents = opt_list head })

  abbrev pub with_committer : CommitOptions → String → CommitOptions
  with_committer opts author = elim opts.committer [
    | none ↦ record opts { committer = some author }
    | some c ↦ opts
  ]

  -- `CommitOptions.Validate`
  unfoldable pub validate : CommitOptions → Action W CommitOptions
  validate opts = elim opts.author [
    | none ↦ fail missing_author
    | some author ↦ elim opts.parents [
      | p ∷ ps ↦ pure (with_committer opts author)
      | [] ↦ reading head_or_none >>= set_parents (with_committer opts author)
    ]
  ]

  -- The part of `Commit` for a merge, from MERGE_HEAD and HEAD.
  unfoldable pub take_merge :
      String → CommitOptions → ℕ → Option ℕ → Action W (String × CommitOptions)
  take_merge msg opts m head w = (
    w,
    ok (
      if str_eq msg "" then worktree_merge_msg w else msg,
      record opts { parents = first_parents head opts.parents ++ m ∷ [] },
    ),
  )

  unfoldable pub if_merging : String → CommitOptions → Option ℕ → Action W (String × CommitOptions)
  if_merging msg opts none = pure (msg, opts)
  if_merging msg opts (some m) = reading head_or_none >>= take_merge msg opts m

  unfoldable pub merging_options : String → CommitOptions → Action W (String × CommitOptions)
  merging_options msg opts = reading merge_head >>= if_merging msg opts

  unfoldable pub unmerged : W → Result (List (String × List Stage))
  unmerged w = get_unmerged_files (map_ok (map merge_entry) (io.index w))

  -- The loop of `autoAddModifiedAndDeleted`.
  unfoldable pub add_changed : List (String × FileStatus) → Action W (Unit {0})
  add_changed [] = pure tt
  add_changed ((path, fs) ∷ s) =
      let next = add_changed s in
      elim fs.worktree [ modified ↦ io.add path >> next | deleted ↦ io.add path >> next | _ ↦ next ]

  unfoldable pub auto_add_modified_and_deleted : Action W (Unit {0})
  auto_add_modified_and_deleted = reading io.status >>= add_changed

  -- `buildCommitObject`, with a nil `Author` or `Committer` as a panic.
  unfoldable pub commit_object : String → CommitOptions → ℕ → Result CommitObject
  commit_object msg opts tree = elim opts.author [
    | none ↦ panic
    | some author ↦ elim opts.committer [
      | none ↦ panic
      | some committer ↦
          let commit : CommitObject = record {
            author = author;
            committer = committer;
            message = msg;
            tree_hash = tree;
            parent_hashes = opts.parents;
            pgp_signature = "";
          } in
          elim opts.sign_key [
            | none ↦ ok commit
            | some key ↦ map_ok (λ sig. record commit { pgp_signature = sig }) (io.sign commit key)
          ]
    ]
  ]

  unfoldable pub build_commit_object : String → CommitOptions → ℕ → Action W ℕ
  build_commit_object msg opts tree = do
    commit ← reading (λ w. commit_object msg opts tree)
    io.set_commit commit

  -- `updateHEAD`
  unfoldable pub update_head : ℕ → Action W (Unit {0})
  update_head commit = do
    head ← reading (io.reference head_name)
    elim head [
      | hash_reference h ↦ io.set_reference head_name commit
      | symbolic_reference target ↦ io.set_reference target commit
    ]

  unfoldable pub remove_merge_head : Action W (Unit {0})
  remove_merge_head = do
    mh ← reading merge_head
    elim mh [ none ↦ pure tt | some h ↦ io.remove_reference merge_head_name ]

  unfoldable pub remove_orig_head : Action W (Unit {0})
  remove_orig_head = do
    head ← reading (λ w. or_none (io.resolve orig_head_name w))
    elim head [ none ↦ pure tt | some h ↦ io.remove_reference orig_head_name ]

  -- The steps of `Commit` when the options are valid, last one first.
  unfoldable pub finish_commit : ℕ → Action W ℕ
  finish_commit commit = do
    update_head commit
    remove_merge_head
    ignore io.remove_merge_msg
    ignore remove_orig_head
    pure commit

  unfoldable pub commit_tree : String → CommitOptions → ℕ → Action W ℕ
  commit_tree msg opts tree = build_commit_object msg opts tree >>= finish_commit

  unfoldable pub commit_entries : String → CommitOptions → List IndexItem → Action W ℕ
  commit_entries msg opts idx = build_tree io.set_tree (map tree_item idx) >>= commit_tree msg opts

  unfoldable pub add_all : CommitOptions → Action W (Unit {0})
  add_all opts = if opts.all then auto_add_modified_and_deleted else pure tt

  unfoldable pub commit_from_index : String → CommitOptions → Unit {0} → Action W ℕ
  commit_from_index msg opts u = reading io.index >>= commit_entries msg opts

  unfoldable pub commit_unless : String → CommitOptions → List (String × List Stage) → Action W ℕ
  commit_unless msg opts left =
      if none_left left
      then add_all opts >>= commit_from_index msg opts
      else fail has_unmerged_files

  unfoldable pub commit_valid : String → CommitOptions → Action W ℕ
  commit_valid msg opts = reading unmerged >>= commit_unless msg opts

  unfoldable pub commit_merging : String × CommitOptions → Action W ℕ
  commit_merging (msg, opts) = validate opts >>= commit_valid msg

  -- `Commit`
  unfoldable pub commit : String → CommitOptions → Action (WorkTree W) ℕ
  commit msg opts = on_world (merging_options msg opts >>= commit_merging) >>= forget_blobs

  -- `AbortMerge`
  unfoldable pub abort_merge : Action (WorkTree W) (Unit {0})
  abort_merge = do
    on_world remove_merge_head
    on_world (ignore io.remove_merge_msg)
    orig ← on_world (reading (io.resolve orig_head_name))
    on_world (io.reset_hard orig)
    on_world (ignore remove_orig_head)
    forget_blobs tt
