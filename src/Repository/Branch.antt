-- ===== src/Repository/Branch.antt =====
-- The update of the references after a fetch of a branch.
use mathlib.Core.Path.{subst}
use test_perf.Prelude.{
  ℕ, ◌≡◌, ◌≢◌, refl, sym, ap, ◌∙◌, inl, inr, Bool, true, false, some, List, if◌then◌else◌,
  Bool-cases,
}
use test_perf.Result.{Result, ok, err, reference_not_found}
use test_perf.FilePath.{same_name}
use test_perf.FilePath.Same.{same_name_iff}
use test_perf.TreeBuild.Walk.{In}
use test_perf.Hash.{Bytes, Reference, new_symbolic_reference, new_hash_reference}
use test_perf.Hash.Roundtrip.{IsStored, to_name}
use test_perf.Repository.{
  RefDb, RefSpec, head_bytes, is_branch_name, update_all, branch_references, update_references,
}
use test_perf.Repository.Update.{DbLaws, written, update_all-written}
use test_perf.Repository.Extras.{
  extras-AllStored, same_name-ne, written-extras_new, written-extras_other, written-extras_existing,
}

-- The references after the update for a branch that was fetched.
pub record BranchUpdated {W : Type 0} (db : RefDb W) (spec : List RefSpec) (r : Reference)
    (s s' : W) : Type 0 where
  pub branch : db.reference r.name s' ≡ ok r
  pub head : db.reference head_bytes s' ≡ ok (new_symbolic_reference head_bytes r.name)
  pub remote :
      (rs : RefSpec) (n : Bytes)
      → In rs spec
      → rs r.name ≡ some n
      → db.reference n s ≡ err reference_not_found
      → db.reference n s' ≡ ok (new_hash_reference n r.hash)
  pub existing :
      (n : Bytes)
      → n ≢ r.name
      → n ≢ head_bytes
      → db.reference n s ≢ err reference_not_found
      → db.reference n s' ≡ db.reference n s
  pub others :
      (n : Bytes)
      → n ≢ r.name
      → n ≢ head_bytes
      → ((rs : RefSpec) → In rs spec → rs r.name ≢ some n)
      → db.reference n s' ≡ db.reference n s

head-ne-branch : (n : Bytes) → is_branch_name n ≡ true → same_name head_bytes n ≡ false
head-ne-branch n h = elim (Bool-cases (same_name head_bytes n)) [
  | inr e ↦ e
  | inl e ↦
      let q : head_bytes ≡ n = (same_name_iff head_bytes n).0 e in
      let k : is_branch_name head_bytes ≡ true = subst (λ x. is_branch_name x ≡ true) (sym q) h in
      cc (k)
]

symbolic-name : (n t : Bytes) → (new_symbolic_reference n t).name ≡ n
unfolding new_symbolic_reference
symbolic-name n t = refl

symbolic-IsStored : (n t : Bytes) → IsStored (new_symbolic_reference n t)
symbolic-IsStored n t = to_name n t

module _ {W : Type 0} (db : RefDb W) (laws : DbLaws db) (spec : List RefSpec) (r : Reference)
    (stored : IsStored r) (is_branch : is_branch_name r.name ≡ true) (s : W) where
  -- What is written under a name before the references of the specs.
  abbrev first : Bytes → Result Reference → Result Reference
  first n o =
      if same_name (new_symbolic_reference head_bytes r.name).name n
      then ok (new_symbolic_reference head_bytes r.name)
      else if same_name r.name n
      then ok r
      else o

  first-at :
      (n : Bytes) (o : Result Reference) (a b : Bool)
      → same_name head_bytes n ≡ a
      → same_name r.name n ≡ b
      → first n o
        ≡ (if a then ok (new_symbolic_reference head_bytes r.name) else if b then ok r else o)
  first-at n o a b e f =
      ap
        (λ t.
          if t
          then ok (new_symbolic_reference head_bytes r.name)
          else if same_name r.name n
          then ok r
          else o)
        (ap (λ m. same_name m n) (symbolic-name head_bytes r.name) ∙ e)
      ∙ ap (λ t. if a then ok (new_symbolic_reference head_bytes r.name) else if t then ok r else o)
          f

  -- On a storer that gives references back as they were set, if no spec leads from a fetched branch to the
  -- branch itself or to HEAD, `updateReferences` of the branch, where it succeeds, leaves the branch as it was
  -- fetched, HEAD symbolic at it, under each name that a spec leads to and that was missing the hash of the
  -- branch, and all other references, also those that a spec leads to and that were there, as they were.
  pub update_references-BranchUpdated :
      (fuel : ℕ) (s' : W) (b : Bool)
      → ((rs : RefSpec) → In rs spec → (rs r.name ≢ some r.name) × (rs r.name ≢ some head_bytes))
      → update_references db fuel spec r s ≡ (s', ok b)
      → BranchUpdated db spec r s s'
  unfolding update_references
  update_references-BranchUpdated fuel s' b apart h =
      let k : update_all db (branch_references db s spec r) s ≡ (s', ok b) =
        sym (rw is_branch refl) ∙ h in
      let after : (n : Bytes)
          → db.reference n s' ≡ written (branch_references db s spec r) n (db.reference n s) =
        λ n.
          update_all-written db laws (branch_references db s spec r) s s' b
            (stored, (symbolic-IsStored head_bytes r.name, extras-AllStored db s r stored spec)) k
            n in
      record {
        branch =
            after r.name
            ∙ written-extras_other db s r stored spec r.name (first r.name (db.reference r.name s))
                (λ rs i. (apart rs i).0)
            ∙ first-at r.name (db.reference r.name s) false true (head-ne-branch r.name is_branch)
                ((same_name_iff r.name r.name).1 refl);
        head =
            after head_bytes
            ∙ written-extras_other db s r stored spec head_bytes
                (first head_bytes (db.reference head_bytes s)) (λ rs i. (apart rs i).1)
            ∙ first-at head_bytes (db.reference head_bytes s) true (same_name r.name head_bytes)
                refl refl;
        remote = λ rs n i q e.
            after n ∙ written-extras_new db s r stored spec n (first n (db.reference n s)) rs i q e;
        existing = λ n a c h.
            after n
            ∙ written-extras_existing db s r stored spec n (first n (db.reference n s)) h
            ∙ first-at n (db.reference n s) false false (same_name-ne head_bytes n (λ q. c (sym q)))
                (same_name-ne r.name n (λ q. a (sym q)));
        others = λ n a c h.
            after n
            ∙ written-extras_other db s r stored spec n (first n (db.reference n s)) h
            ∙ first-at n (db.reference n s) false false (same_name-ne head_bytes n (λ q. c (sym q)))
                (same_name-ne r.name n (λ q. a (sym q)));
      }
