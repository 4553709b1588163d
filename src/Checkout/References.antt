-- ===== src/Checkout/References.antt =====
-- The references in `Reset`.
use mathlib.Core.Path.{subst}
use Prim.Native.String.{String}
use test_perf.Prelude.{
  ℕ, ◌≡◌, ◌≢◌, refl, sym, ap, ◌∙◌, Bool, true, false, str_eq, eq_iff, if◌then◌else◌, ==_iff,
  Bool-cases, inl, inr,
}
use test_perf.Result.{Result, ok, invalid_head}
use test_perf.Action.{Action, ◌>>=◌, fail, >>=-ok, >>=-ok_inv}
use test_perf.StringMap.{str_eq_refl, str_eq_sym}
use test_perf.WorktreeCommit.{RefTarget, hash_reference, symbolic_reference, head_name}
use test_perf.Checkout.{
  RefStore, ResetMode, mixed_reset, hard_reset, merge_reset, soft_reset, is_zero, is_branch, look,
  contains_unstaged_changes, set_branch_commit, set_commit_of, set_head_commit, reset_files,
  reset_tree, refuse_unstaged, check_unstaged, reset_commit, reset_to, reset,
}

-- A storer that gives a reference back as it was set, and that the index and the files have nothing
-- to do with.
pub record RefLaws {W : Type 0} (io : RefStore W) : Type 0 where
  pub set_get :
      (n : String) (r : RefTarget) (s s' : W)
      → io.set_reference n r s ≡ (s', ok tt)
      → (m : String) → io.reference m s' ≡ (if str_eq n m then ok r else io.reference m s)
  pub set_unstaged :
      (n : String) (r : RefTarget) (s s' : W)
      → io.set_reference n r s ≡ (s', ok tt)
      → io.unstaged s' ≡ io.unstaged s
  pub index_kept :
      (t : ℕ) (s : W) (m : String) → io.reference m (io.reset_index t s).0 ≡ io.reference m s
  pub worktree_kept :
      (t : ℕ) (s : W) (m : String) → io.reference m (io.reset_worktree t s).0 ≡ io.reference m s

head_name-ne : (b : String) → is_branch b ≡ true → str_eq head_name b ≡ false
unfolding is_branch
head_name-ne b h = elim (Bool-cases (str_eq head_name b)) [
  | inr e ↦ e
  | inl e ↦
      let q : head_name ≡ b = (eq_iff head_name b).0 e in
      let k : is_branch head_name ≡ true = subst (λ x. is_branch x ≡ true) (sym q) h in cc (k)
]

pub is_zero-false : (c : ℕ) → c ≢ 0 → is_zero c ≡ false
is_zero-false c h = elim (Bool-cases (is_zero c)) [
  | inl e ↦ absurd (h ((==_iff c 0).0 e))
  | inr e ↦ e
]

module _ {W : Type 0} (io : RefStore W) where
  pub look_inv :
      {A B : Type 0} (f : W → Result A) (k : A → Action W B) (s s' : W) (b : B)
      → (look io f >>= k) s ≡ (s', ok b)
      → (a : A) × (f s ≡ ok a) × (k a s ≡ (s', ok b))
  look_inv f k s s' b h =
      let (s₁, a, e, g) = >>=-ok_inv (look io f) k s s' b h in
      let q : s ≡ s₁ = ap (λ r. r.0) e in (a, ap (λ r. r.1) e, ap (k a) q ∙ g)

  pub look-ok :
      {A B : Type 0} (f : W → Result A) (k : A → Action W B) (s : W) (a : A)
      → f s ≡ ok a
      → (look io f >>= k) s ≡ k a s
  look-ok f k s a e = >>=-ok (look io f) k s s a (ap (λ r. (s, r)) e)

  check_unstaged_inv :
      (mode : ResetMode) (s s' : W) (u : Unit {0}) → check_unstaged io mode s ≡ (s', ok u) → s ≡ s'
  unfolding check_unstaged refuse_unstaged
  check_unstaged_inv mixed_reset s s' u h = ap (λ r. r.0) h
  check_unstaged_inv hard_reset s s' u h = ap (λ r. r.0) h
  check_unstaged_inv soft_reset s s' u h = ap (λ r. r.0) h
  check_unstaged_inv merge_reset s s' u h =
      let (b, e, k) = look_inv (contains_unstaged_changes io) (refuse_unstaged io) s s' u h in
      at b k
    where
      at : (b : Bool) → refuse_unstaged io b s ≡ (s', ok u) → s ≡ s'
      at true k = cc
      at false k = ap (λ r. r.0) k

  module _ (laws : RefLaws io) where
    -- The references are not touched behind HEAD.
    files-kept :
        (t : ℕ) (s s' : W) (m : String)
        → (io.reset_index t >>= λ _. io.reset_worktree t) s ≡ (s', ok tt)
        → io.reference m s' ≡ io.reference m s
    files-kept t s s' m k =
        let (s₁, u, e₁, k₁) = >>=-ok_inv (io.reset_index t) (λ _. io.reset_worktree t) s s' tt k in
        ap (λ r. io.reference m r.0) (sym k₁)
        ∙ laws.worktree_kept t s₁ m
        ∙ ap (λ r. io.reference m r.0) (sym e₁)
        ∙ laws.index_kept t s m

    reset_tree-kept :
        (mode : ResetMode) (c : ℕ) (s s' : W) (m : String)
        → reset_tree io mode c tt s ≡ (s', ok tt)
        → io.reference m s' ≡ io.reference m s
    unfolding reset_tree reset_files
    reset_tree-kept soft_reset c s s' m h = ap (λ r. io.reference m r.0) (sym h)
    reset_tree-kept mixed_reset c s s' m h =
        let (t, e, k) = look_inv (io.tree_of c) (reset_files io mixed_reset) s s' tt h in
        ap (λ r. io.reference m r.0) (sym k) ∙ laws.index_kept t s m
    reset_tree-kept hard_reset c s s' m h =
        let (t, e, k) = look_inv (io.tree_of c) (reset_files io hard_reset) s s' tt h in
        files-kept t s s' m k
    reset_tree-kept merge_reset c s s' m h =
        let (t, e, k) = look_inv (io.tree_of c) (reset_files io merge_reset) s s' tt h in
        files-kept t s s' m k

    set_head_commit-branch :
        (c : ℕ) (s s' : W) (b : String)
        → io.reference head_name s ≡ ok (symbolic_reference b)
        → is_branch b ≡ true
        → set_head_commit io c s ≡ (s', ok tt)
        → (io.reference head_name s' ≡ ok (symbolic_reference b))
          × (io.reference b s' ≡ ok (hash_reference c))
    unfolding set_head_commit set_commit_of set_branch_commit
    set_head_commit-branch c s s' b head br h =
        let (r, e, k) = look_inv (io.reference head_name) (set_commit_of io c) s s' tt h in
        let q : r ≡ symbolic_reference b = cc (e, head) in
        let k' : set_commit_of io c (symbolic_reference b) s ≡ (s', ok tt) =
          subst (λ x. set_commit_of io c x s ≡ (s', ok tt)) q k in
        let (r', e', g) = look_inv (io.reference b) (set_branch_commit io c b) s s' tt k' in
        let set : io.set_reference b (hash_reference c) s ≡ (s', ok tt) =
          ap (λ t. (if t then io.set_reference b (hash_reference c) else fail invalid_head) s)
            (sym br)
          ∙ g in
        (
          laws.set_get b (hash_reference c) s s' set head_name ∙ rw other head,
          laws.set_get b (hash_reference c) s s' set b ∙ rw (str_eq_refl b) refl,
        )
      where
        other : str_eq b head_name ≡ false
        other = str_eq_sym b head_name (head_name-ne b br)

    pub reset-branch :
        (mode : ResetMode) (c : ℕ) (s s' : W) (b : String)
        → c ≢ 0
        → io.reference head_name s ≡ ok (symbolic_reference b)
        → is_branch b ≡ true
        → reset io mode c s ≡ (s', ok tt)
        → (io.reference head_name s' ≡ ok (symbolic_reference b))
          × (io.reference b s' ≡ ok (hash_reference c))
    unfolding reset reset_to reset_commit
    reset-branch mode c s s' b z head br h =
        let (c₁, e, k) = look_inv (reset_commit io c) (reset_to io mode) s s' tt h in
        let given : reset_commit io c s ≡ ok c = rw (is_zero-false c z) refl in
        let q : c₁ ≡ c = cc (e, given) in
        let (s₁, u, e₁, k₁) =
          >>=-ok_inv (check_unstaged io mode) (λ u. set_head_commit io c >>= reset_tree io mode c) s
            s' tt (subst (λ x. reset_to io mode x s ≡ (s', ok tt)) q k) in
        let same : s ≡ s₁ = check_unstaged_inv mode s s₁ u e₁ in
        let (s₂, v, e₂, k₂) =
          >>=-ok_inv (set_head_commit io c) (reset_tree io mode c) s₁ s' tt k₁ in
        let (hd, bc) =
          set_head_commit-branch c s s₂ b head br (ap (set_head_commit io c) same ∙ e₂) in
        (reset_tree-kept mode c s₂ s' head_name k₂ ∙ hd, reset_tree-kept mode c s₂ s' b k₂ ∙ bc)
