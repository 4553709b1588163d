-- ===== src/Tests/Checkouts.antt =====
-- Runs of a checkout.
use Prim.Native.String.{String}
use test_perf.Prelude.{
  ℕ, ◌≡◌, refl, sym, ap, ◌∙◌, Bool, true, false, none, some, List, [], ◌∷◌, str_eq, eq_iff,
  if◌then◌else◌, arith, Bool-cases, inl, inr, Option,
}
use test_perf.Result.{Result, ok, err, reference_not_found, unstaged_changes}
use test_perf.StringMap.{find, put, find-put, find-put_ne}
use test_perf.WorktreeMerge.Compare.{modify}
use test_perf.WorktreeCommit.{RefTarget, hash_reference, symbolic_reference, head_name}
use test_perf.Checkout.{
  RefStore, CheckoutOptions, a_commit, is_branch, is_tag, validate_checkout, some_unstaged,
  contains_unstaged_changes, set_branch_commit, set_commit_of, set_head_commit, reset_files,
  reset_tree, refuse_unstaged, check_unstaged, reset_commit, reset_to, reset, start_hash,
  create_branch, tagged_commit, commit_of_reference, get_commit_from_checkout_options,
  set_head_to_branch, set_head, checkout_commit, checkout_created, checkout_valid, checkout,
}
use test_perf.Checkout.References.{RefLaws}
use test_perf.Checkout.Head.{checkout-branch, checkout-unstaged}

checking_out : Unit {0}
unfolding is_branch is_tag validate_checkout some_unstaged contains_unstaged_changes
    set_branch_commit set_commit_of set_head_commit reset_files reset_tree refuse_unstaged
    check_unstaged reset_commit reset_to reset start_hash create_branch tagged_commit
    commit_of_reference get_commit_from_checkout_options set_head_to_branch set_head checkout_commit
    checkout_created checkout_valid checkout
checking_out = tt

-- A repository that is its references; a file is changed and not staged.
abbrev Refs : Type 0
Refs = List (String × RefTarget)

abbrev found : {A : Type 0} → Option A → Result A
found none = err reference_not_found
found (some r) = ok r

abbrev named : String → RefTarget → Result (String × ℕ)
named n (hash_reference h) = ok (n, h)
named n (symbolic_reference m) = err reference_not_found

abbrev resolved : String → Option RefTarget → Result (String × ℕ)
resolved n none = err reference_not_found
resolved n (some r) = named n r

abbrev refs_store : RefStore Refs
refs_store = record {
  reference = λ n s. found (find n s);
  resolve = λ n s. resolved n (find n s);
  set_reference = λ n r s. (put n r s, ok tt);
  object = λ h s. ok (a_commit h);
  unstaged = λ s. ok (record { from = "f"; to = "f"; action = some modify } ∷ []);
  tree_of = λ c s. ok c;
  reset_index = λ t s. (s, ok tt);
  reset_worktree = λ t s. (s, ok tt);
}

refs_store-RefLaws : RefLaws refs_store
refs_store-RefLaws = record {
  set_get = λ n r s s' h m.
      ap (λ (o : Refs × Result (Unit {0})). found (find m o.0)) (sym h) ∙ given n r s m;
  set_unstaged = λ n r s s' h. refl;
  index_kept = λ t s m. refl;
  worktree_kept = λ t s m. refl;
}
  where
    given :
        (n : String) (r : RefTarget) (s : Refs) (m : String)
        → found (find m (put n r s)) ≡ (if str_eq n m then ok r else found (find m s))
    given n r s m = elim (Bool-cases (str_eq n m)) [
      | inl e ↦
          let q : n ≡ m = (eq_iff n m).0 e in
          rw e (ap (λ x. found (find x (put n r s))) (sym q) ∙ ap found (find-put n r s))
      | inr e ↦ rw e (ap found (find-put_ne m n r s e))
    ]

abbrev refs : Refs
refs =
    (head_name, symbolic_reference "refs/heads/master")
    ∷ ("refs/heads/master", hash_reference 3)
    ∷ ("refs/heads/topic", hash_reference 4)
    ∷ []

abbrev moved : Refs
moved =
    (head_name, symbolic_reference "refs/heads/topic")
    ∷ ("refs/heads/master", hash_reference 3)
    ∷ ("refs/heads/topic", hash_reference 4)
    ∷ []

abbrev to_topic : Bool → CheckoutOptions
to_topic force = record {
  hash = 0;
  branch = "refs/heads/topic";
  create = false;
  force = force;
  keep = false;
}

topic_valid : (force : Bool) → validate_checkout (to_topic force) ≡ ok (to_topic force)
unfolding checking_out
topic_valid force = refl

topic-IsBranch : is_branch "refs/heads/topic" ≡ true
unfolding checking_out
topic-IsBranch = refl

topic_commit :
    (force : Bool) → get_commit_from_checkout_options refs_store (to_topic force) refs ≡ ok 4
unfolding checking_out
topic_commit force = refl

forced_run : checkout refs_store (to_topic true) refs ≡ (moved, ok tt)
unfolding checking_out
forced_run = refl

checkout-branch_example :
    (refs_store.reference head_name moved ≡ ok (symbolic_reference "refs/heads/topic"))
    × (refs_store.reference "refs/heads/topic" moved ≡ ok (hash_reference 4))
checkout-branch_example =
    checkout-branch refs_store (to_topic true) (to_topic true) refs (topic_valid true) refl refl
      topic-IsBranch 4 (topic_commit true) refs_store-RefLaws moved (λ h. omega arith) forced_run

changed : contains_unstaged_changes refs_store refs ≡ ok true
unfolding checking_out
changed = refl

checkout-unstaged_example :
    (checkout refs_store (to_topic false) refs ≡ (moved, err unstaged_changes))
    × (refs_store.reference head_name moved ≡ ok (symbolic_reference "refs/heads/topic"))
checkout-unstaged_example =
    checkout-unstaged refs_store (to_topic false) (to_topic false) refs (topic_valid false) refl
      refl topic-IsBranch 4 (topic_commit false) refs_store-RefLaws (hash_reference 4) moved refl
      refl refl refl changed (λ h. omega arith)
