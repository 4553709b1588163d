-- ===== src/Checkout.antt =====
-- worktree.go and options.go: `Checkout` and `Reset`.
--
-- The storer of the references and what is behind the index and the work tree are a parameter,
-- `RefStore`; reading changes nothing. `W` is their state. A reference has the name it is asked for by.
-- The hash 0 is `ZeroHash`.
pub mod References
pub mod Head
use Prim.Native.String.{String}
use test_perf.Prelude.{
  ℕ, Bool, true, false, not, ◌&&◌, ◌||◌, Option, none, some, List, [], ◌∷◌, str_eq, if◌then◌else◌,
  ◌==◌,
}
use test_perf.Result.{
  Result, ok, err, panic, out_of_fuel, ◌>>=◌ as and_then, read_failed, reference_not_found,
  branch_hash_exclusive, create_requires_branch, branch_exists, unstaged_changes, unsupported_tag,
  invalid_head,
}
use test_perf.Action.{Action, ◌>>=◌, ◌>>◌, pure, fail}
use test_perf.Hash.{has_prefix}
use test_perf.WorktreeMerge.Compare.{Change, ChangeAction, insert, delete, modify}
use test_perf.WorktreeCommit.{RefTarget, hash_reference, symbolic_reference, codes, head_name}

-- What `Repository.Object` finds: a commit, a tag of a commit, or another object.
pub data FoundObject : Type 0 where
  a_commit tag_of_commit : ℕ → FoundObject
  other_object : FoundObject

-- `resolve` is `storer.ResolveReference`, with the name of the reference at the end; `unstaged` is
-- `diffStagingWithWorktree(false)`.
pub record RefStore (W : Type 0) : Type 0 where
  pub reference : String → W → Result RefTarget
  pub resolve : String → W → Result (String × ℕ)
  pub set_reference : String → RefTarget → Action W (Unit {0})
  pub object : ℕ → W → Result FoundObject
  pub unstaged : W → Result (List Change)
  pub tree_of : ℕ → W → Result ℕ
  pub reset_index : ℕ → Action W (Unit {0})
  pub reset_worktree : ℕ → Action W (Unit {0})

-- `ResetMode`
pub data ResetMode : Type 0 where
  mixed_reset hard_reset merge_reset soft_reset : ResetMode

pub record CheckoutOptions : Type 0 where
  pub hash : ℕ
  pub branch : String
  pub create : Bool
  pub force : Bool
  pub keep : Bool

abbrev pub is_zero : ℕ → Bool
is_zero h = h == 0

-- `ReferenceName.IsBranch` and `IsTag`
unfoldable pub is_branch : String → Bool
is_branch n = has_prefix (codes n) (codes "refs/heads/")

unfoldable pub is_tag : String → Bool
is_tag n = has_prefix (codes n) (codes "refs/tags/")

-- `CheckoutOptions.Validate`
unfoldable pub validate_checkout : CheckoutOptions → Result CheckoutOptions
validate_checkout o =
    if not o.create && (not (is_zero o.hash) && not (str_eq o.branch ""))
    then err branch_hash_exclusive
    else if o.create && str_eq o.branch ""
    then err create_requires_branch
    else if str_eq o.branch ""
    then ok (record o { branch = "refs/heads/master" })
    else ok o

-- The loop of `containsUnstagedChanges`.
unfoldable pub some_unstaged : List Change → Result Bool
some_unstaged [] = ok false
some_unstaged (c ∷ cs) =
    let rest = some_unstaged cs in
    elim c.action [
      | none ↦ err read_failed
      | some a ↦ elim a [ insert ↦ rest | delete ↦ ok true | modify ↦ ok true ]
    ]

abbrev pub checkout_mode : CheckoutOptions → ResetMode
checkout_mode o = if o.force then hard_reset else if o.keep then soft_reset else merge_reset

-- What a tag stands for.
unfoldable pub tagged_commit : FoundObject → Result ℕ
tagged_commit (a_commit h) = ok h
tagged_commit (tag_of_commit h) = ok h
tagged_commit other_object = err unsupported_tag

module _ {W : Type 0} (io : RefStore W) where
  abbrev pub look : {A : Type 0} → (W → Result A) → Action W A
  look f w = (w, f w)

  unfoldable pub contains_unstaged_changes : W → Result Bool
  contains_unstaged_changes w = and_then (io.unstaged w) some_unstaged

  -- The part of `setHEADCommit` for a symbolic HEAD.
  unfoldable pub set_branch_commit : ℕ → String → RefTarget → Action W (Unit {0})
  set_branch_commit commit target r =
      if is_branch target
      then io.set_reference target (hash_reference commit)
      else fail invalid_head

  unfoldable pub set_commit_of : ℕ → RefTarget → Action W (Unit {0})
  set_commit_of commit (hash_reference h) = io.set_reference head_name (hash_reference commit)
  set_commit_of commit (symbolic_reference target) =
      look (io.reference target) >>= set_branch_commit commit target

  -- `setHEADCommit`
  unfoldable pub set_head_commit : ℕ → Action W (Unit {0})
  set_head_commit commit = look (io.reference head_name) >>= set_commit_of commit

  -- The end of `Reset`: the index and the work tree.
  unfoldable pub reset_files : ResetMode → ℕ → Action W (Unit {0})
  reset_files mixed_reset t = io.reset_index t
  reset_files _ t = io.reset_index t >> io.reset_worktree t

  unfoldable pub reset_tree : ResetMode → ℕ → Unit {0} → Action W (Unit {0})
  reset_tree soft_reset commit u = pure tt
  reset_tree mode commit u = look (io.tree_of commit) >>= reset_files mode

  unfoldable pub refuse_unstaged : Bool → Action W (Unit {0})
  refuse_unstaged b = if b then fail unstaged_changes else pure tt

  unfoldable pub check_unstaged : ResetMode → Action W (Unit {0})
  check_unstaged merge_reset = look contains_unstaged_changes >>= refuse_unstaged
  check_unstaged _ = pure tt

  -- `ResetOptions.Validate`
  unfoldable pub reset_commit : ℕ → W → Result ℕ
  reset_commit commit w =
      if is_zero commit then and_then (io.resolve head_name w) (λ h. ok h.1) else ok commit

  unfoldable pub reset_to : ResetMode → ℕ → Action W (Unit {0})
  reset_to mode commit =
      check_unstaged mode >>= λ u. set_head_commit commit >>= reset_tree mode commit

  -- `Reset`
  unfoldable pub reset : ResetMode → ℕ → Action W (Unit {0})
  reset mode commit = look (reset_commit commit) >>= reset_to mode

  -- The commit of HEAD where none is given.
  unfoldable pub start_hash : ℕ → W → Result ℕ
  start_hash h w = if is_zero h then and_then (io.resolve head_name w) (λ r. ok r.1) else ok h

  -- `createBranch`, with the hash of the options as it leaves it.
  unfoldable pub create_branch : CheckoutOptions → Action W CheckoutOptions
  create_branch o w = elim (io.reference o.branch w) [
    | ok r ↦ (w, err branch_exists)
    | err reference_not_found ↦
        (do
          h ← look (start_hash o.hash)
          io.set_reference o.branch (hash_reference h)
          pure (record o { hash = h }))
          w
    | err e ↦ (w, err e)
    | panic ↦ (w, panic)
    | out_of_fuel ↦ (w, out_of_fuel)
  ]

  unfoldable pub commit_of_reference : W → String × ℕ → Result ℕ
  commit_of_reference w (name, h) =
      if is_tag name then and_then (io.object h w) tagged_commit else ok h

  -- `getCommitFromCheckoutOptions`
  unfoldable pub get_commit_from_checkout_options : CheckoutOptions → W → Result ℕ
  get_commit_from_checkout_options o w =
      if is_zero o.hash then and_then (io.resolve o.branch w) (commit_of_reference w) else ok o.hash

  -- `setHEADToBranch`
  unfoldable pub set_head_to_branch : String → ℕ → Action W (Unit {0})
  set_head_to_branch branch commit = look (io.reference branch) >>= λ target.
      io.set_reference head_name
        (if is_branch branch then symbolic_reference branch else hash_reference commit)

  unfoldable pub set_head : CheckoutOptions → ℕ → Action W (Unit {0})
  set_head o c =
      if not (is_zero o.hash) && not o.create
      then io.set_reference head_name (hash_reference o.hash)
      else set_head_to_branch o.branch c

  unfoldable pub checkout_commit : CheckoutOptions → ℕ → Action W (Unit {0})
  checkout_commit o c = set_head o c >>= λ u. reset (checkout_mode o) c

  unfoldable pub checkout_created : CheckoutOptions → Action W (Unit {0})
  checkout_created o = look (get_commit_from_checkout_options o) >>= checkout_commit o

  unfoldable pub checkout_valid : CheckoutOptions → Action W (Unit {0})
  checkout_valid o = (if o.create then create_branch o else pure o) >>= checkout_created

  -- `Checkout`
  unfoldable pub checkout : CheckoutOptions → Action W (Unit {0})
  checkout o = look (λ w. validate_checkout o) >>= checkout_valid
