-- ===== src/Checkout/Head.antt =====
-- HEAD after `Checkout`.
use test_perf.Prelude.{ℕ, ◌≡◌, ◌≢◌, refl, sym, ap, ◌∙◌, true, false, not, ◌&&◌, if◌then◌else◌}
use test_perf.Result.{ok, err, ◌>>=◌ as and_then, unstaged_changes}
use test_perf.Action.{◌>>=◌, pure, >>=-ok, >>=-err, >>=-ok_inv}
use test_perf.WorktreeCommit.{RefTarget, hash_reference, symbolic_reference, head_name}
use test_perf.Checkout.{
  RefStore, hard_reset, merge_reset, soft_reset, CheckoutOptions, is_zero, is_branch,
  validate_checkout, contains_unstaged_changes, set_head_commit, reset_tree, refuse_unstaged,
  check_unstaged, reset_commit, reset_to, reset, get_commit_from_checkout_options,
  set_head_to_branch, set_head, checkout_mode, checkout_commit, checkout_created, checkout_valid,
  checkout, create_branch, some_unstaged,
}
use test_perf.Checkout.References.{RefLaws, is_zero-false, look_inv, look-ok, reset-branch}

module _ {W : Type 0} (io : RefStore W) where
  module _ (o v : CheckoutOptions) (s : W) (valid : validate_checkout o ≡ ok v)
      (old : v.create ≡ false) (no_hash : v.hash ≡ 0) (branch : is_branch v.branch ≡ true) (c : ℕ)
      (commit : get_commit_from_checkout_options io v s ≡ ok c) where
    -- `Checkout` of a branch that is there, up to the setting of HEAD.
    checkout-steps :
        checkout io o s ≡ (set_head_to_branch io v.branch c >>= λ u. reset io (checkout_mode v) c) s
    unfolding checkout checkout_valid checkout_created checkout_commit set_head
    checkout-steps =
        look-ok io (λ w. validate_checkout o) (checkout_valid io) s v valid
        ∙ ap (λ t. ((if t then create_branch io v else pure v) >>= checkout_created io) s) old
        ∙ look-ok io (get_commit_from_checkout_options io v) (checkout_commit io v) s c commit
        ∙ ap
            (λ (h : ℕ).
              ((if not (is_zero h) && not v.create
                    then io.set_reference head_name (hash_reference h)
                    else set_head_to_branch io v.branch c)
                  >>= λ u. reset io (checkout_mode v) c)
                s)
            no_hash

    set_head_to_branch-steps :
        (r : RefTarget)
        → io.reference v.branch s ≡ ok r
        → set_head_to_branch io v.branch c s
          ≡ io.set_reference head_name (symbolic_reference v.branch) s
    unfolding set_head_to_branch
    set_head_to_branch-steps r e =
        look-ok io (io.reference v.branch)
          (λ target.
            io.set_reference head_name
              (if is_branch v.branch then symbolic_reference v.branch else hash_reference c))
          s r e
        ∙ ap
            (λ t.
              io.set_reference head_name
                (if t then symbolic_reference v.branch else hash_reference c) s)
            branch

    module _ (laws : RefLaws io) where
      -- On a storer that gives references back as they were set, a successful `Checkout` of a branch that
      -- exists, with a commit, leaves HEAD symbolic at the branch, and the branch at that commit, whether it is
      -- forced, keeps the files, or neither.
      pub checkout-branch :
          (s' : W)
          → c ≢ 0
          → checkout io o s ≡ (s', ok tt)
          → (io.reference head_name s' ≡ ok (symbolic_reference v.branch))
            × (io.reference v.branch s' ≡ ok (hash_reference c))
      unfolding set_head_to_branch
      checkout-branch s' z h =
          let (s₁, u, e₁, k₁) =
            >>=-ok_inv (set_head_to_branch io v.branch c) (λ u. reset io (checkout_mode v) c) s s'
              tt (sym checkout-steps ∙ h) in
          let (r, e, k) =
            look_inv io (io.reference v.branch)
              (λ target.
                io.set_reference head_name
                  (if is_branch v.branch then symbolic_reference v.branch else hash_reference c))
              s s₁ u e₁ in
          let set : io.set_reference head_name (symbolic_reference v.branch) s ≡ (s₁, ok tt) =
            sym (set_head_to_branch-steps r e) ∙ e₁ in
          let head : io.reference head_name s₁ ≡ ok (symbolic_reference v.branch) =
            laws.set_get head_name (symbolic_reference v.branch) s s₁ set head_name in
          reset-branch io laws (checkout_mode v) c s₁ s' v.branch z head branch k₁

      -- If a file is changed and not staged, `Checkout` of a branch, neither forced nor keeping the files,
      -- fails with `ErrUnstagedChanges`, and HEAD has been moved to the branch by then.
      pub checkout-unstaged :
          (r : RefTarget) (s₁ : W)
          → v.force ≡ false
          → v.keep ≡ false
          → io.reference v.branch s ≡ ok r
          → io.set_reference head_name (symbolic_reference v.branch) s ≡ (s₁, ok tt)
          → contains_unstaged_changes io s ≡ ok true
          → c ≢ 0
          → (checkout io o s ≡ (s₁, err unstaged_changes))
            × (io.reference head_name s₁ ≡ ok (symbolic_reference v.branch))
      unfolding reset reset_to reset_commit check_unstaged refuse_unstaged contains_unstaged_changes
      checkout-unstaged r s₁ f k e set un z = (
        checkout-steps
            ∙ >>=-ok (set_head_to_branch io v.branch c) (λ u. reset io (checkout_mode v) c) s s₁ tt
                (set_head_to_branch-steps r e ∙ set)
            ∙ ap (λ m. reset io m c s₁)
                (λ i. if f i then hard_reset else if k i then soft_reset else merge_reset)
            ∙ look-ok io (reset_commit io c) (reset_to io merge_reset) s₁ c
                (rw (is_zero-false c z) refl)
            ∙ >>=-err (check_unstaged io merge_reset)
                (λ u. set_head_commit io c >>= reset_tree io merge_reset c) s₁ s₁ unstaged_changes
                (look-ok io (contains_unstaged_changes io) (refuse_unstaged io) s₁ true (
                  ap (λ x. and_then x some_unstaged)
                    (laws.set_unstaged head_name (symbolic_reference v.branch) s s₁ set)
                  ∙ un)),
        laws.set_get head_name (symbolic_reference v.branch) s s₁ set head_name,
      )
