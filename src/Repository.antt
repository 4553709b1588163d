-- ===== src/Repository.antt =====
-- repository.go: the update of references after a fetch.
--
-- A storer of references is a parameter, `RefDb`; reading it changes nothing, and `set` is
-- `CheckAndSetReference` with no old reference. A name is its bytes. A `RefSpec` is what it makes of a
-- name, `none` where it does not match.
pub mod Update
pub mod Extras
pub mod Branch
use test_perf.Prelude.{
  ℕ, zero, suc, Bool, true, false, not, ◌||◌, Option, none, some, List, [], ◌∷◌, ◌++◌,
  if◌then◌else◌,
}
use test_perf.Result.{
  Result, Error, ok, err, panic, out_of_fuel, ◌>>=◌ as and_then, reference_not_found,
  unsupported_tag,
}
use test_perf.Action.{Action, ◌>>=◌, ◌>>◌, pure}
use test_perf.FilePath.{same_name}
use test_perf.Hash.{
  Bytes, Reference, has_prefix, new_symbolic_reference, new_hash_reference, strings,
}

-- What the storer has under a hash.
pub data StoredObject : Type 0 where
  commit_object : StoredObject
  tag_object : Bytes → StoredObject
  other_object : StoredObject

pub record RefDb (W : Type 0) : Type 0 where
  pub reference : Bytes → W → Result Reference
  pub set : Reference → Action W (Unit {0})
  pub object : Bytes → W → Result StoredObject

abbrev pub RefSpec : Type 0
RefSpec = Bytes → Option Bytes

-- `HEAD`
abbrev pub head_bytes : Bytes
head_bytes = 72 ∷ 69 ∷ 65 ∷ 68 ∷ []

-- `IsBranch`, with `refs/heads/`.
abbrev pub is_branch_name : Bytes → Bool
is_branch_name n = has_prefix n (114 ∷ 101 ∷ 102 ∷ 115 ∷ 47 ∷ 104 ∷ 101 ∷ 97 ∷ 100 ∷ 115 ∷ 47 ∷ [])

-- `Reference.String`
unfoldable pub reference_string : Reference → Bytes
reference_string r = (strings r).1 ++ 32 ∷ (strings r).0

-- What `resolveToCommitHash` does with an object, `again` being its call of itself.
unfoldable pub commit_hash_of : (Bytes → Result Bytes) → Bytes → StoredObject → Result Bytes
commit_hash_of again h commit_object = ok h
commit_hash_of again h (tag_object target) = again target
commit_hash_of again h other_object = err unsupported_tag

module _ {W : Type 0} (db : RefDb W) where
  -- `resolveToCommitHash`
  unfoldable pub resolve_to_commit_hash : ℕ → W → Bytes → Result Bytes
  resolve_to_commit_hash zero w h = out_of_fuel
  resolve_to_commit_hash (suc fuel) w h =
      and_then (db.object h w) (commit_hash_of (resolve_to_commit_hash fuel w) h)

  abbrev pub set_updated : Reference → Action W Bool
  set_updated r = db.set r >>= λ u. pure true

  -- The test of `checkAndUpdateReferenceStorerIfNeeded`, on what the storer has.
  unfoldable pub update_from : Reference → Result Reference → Action W Bool
  update_from r (ok p) =
      if same_name (reference_string r) (reference_string p) then pure false else set_updated r
  update_from r (err reference_not_found) = set_updated r
  update_from r (err e) = λ w. (w, err e)
  update_from r panic = λ w. (w, panic)
  update_from r out_of_fuel = λ w. (w, out_of_fuel)

  -- `updateReferenceStorerIfNeeded`
  unfoldable pub update_if_needed : Reference → Action W Bool
  update_if_needed r w = update_from r (db.reference r.name w) w

  unfoldable pub is_missing : Result Reference → Bool
  is_missing (err reference_not_found) = true
  is_missing _ = false

  unfoldable pub remote_head : W → Bytes → Option Bytes → List Reference → List Reference
  remote_head w h none rest = rest
  remote_head w h (some name) rest =
      if is_missing (db.reference name w) then new_hash_reference name h ∷ rest else rest

  -- `calculateRemoteHeadReference`
  unfoldable pub calculate_remote_head_reference : W → List RefSpec → Reference → List Reference
  calculate_remote_head_reference w [] r = []
  calculate_remote_head_reference w (rs ∷ spec) r =
      remote_head w r.hash (rs r.name) (calculate_remote_head_reference w spec r)

  -- The loop of `updateReferences`.
  unfoldable pub update_all : List Reference → Action W Bool
  update_all [] = pure false
  update_all (r ∷ refs) =
      let rest = update_all refs in update_if_needed r >>= λ u. rest >>= λ v. pure (u || v)

  -- The references that `updateReferences` sets for a branch.
  abbrev pub branch_references : W → List RefSpec → Reference → List Reference
  branch_references w spec r =
      r ∷ new_symbolic_reference head_bytes r.name ∷ calculate_remote_head_reference w spec r

  abbrev pub update_detached : Result Bytes → Action W Bool
  update_detached (ok h) = update_if_needed (new_hash_reference head_bytes h)
  update_detached (err e) = λ w. (w, err e)
  update_detached panic = λ w. (w, panic)
  update_detached out_of_fuel = λ w. (w, out_of_fuel)

  -- `updateReferences`; the flag is dropped beside an error.
  unfoldable pub update_references : ℕ → List RefSpec → Reference → Action W Bool
  update_references fuel spec r w =
      if not (is_branch_name r.name)
      then update_detached (resolve_to_commit_hash fuel w r.hash) w
      else update_all (branch_references w spec r) w
