-- ===== src/TreeBuild/Grow.antt =====
-- One more entry in a tree of the helper.
use mathlib.Core.Path.{subst}
use test_perf.Prelude.{
  ◌≡◌, ◌≢◌, refl, sym, ap, ◌∙◌, ◌⊎◌, inl, inr, none, some, List, [], ◌∷◌, ◌++◌, false, Bool-cases,
}
use test_perf.FilePath.{Name, same_elems}
use test_perf.FilePath.Same.{same_elems_iff}
use test_perf.TreeBuild.{TreeEntry, Trees, dir_mode, set_tree_at}
use test_perf.TreeBuild.Walk.{In, In-append_left, In-snoc, In-snoc_inv, Keeps}

set_tree_at_self :
    (p : List Name) (es : List TreeEntry) (t : Trees) → set_tree_at p es t p ≡ some es
set_tree_at_self p es t = rw ((same_elems_iff p p).1 refl) refl

set_tree_at_ne :
    (p q : List Name) (es : List TreeEntry) (t : Trees)
    → same_elems p q ≡ false
    → set_tree_at p es t q ≡ t q
set_tree_at_ne p q es t h = rw h refl

-- `t'` is `t` with the entry `te` in the tree at `p`, and with an empty tree at the entry's path when
-- it is a directory.
pub record Grows (t t' : Trees) (p : List Name) (te : TreeEntry) : Type 0 where
  pub keeps : Keeps t t'
  pub back :
      (q : List Name) (es' : List TreeEntry)
      → t' q ≡ some es'
      → ((es : List TreeEntry) × (t q ≡ some es)
          × ((x : TreeEntry) → In x es' → In x es ⊎ ((p ≡ q) × (x ≡ te))))
        ⊎ ((es' ≡ []) × (q ≡ p ++ te.name ∷ []) × (te.mode ≡ dir_mode))
  pub added : (es' : List TreeEntry) × (t' p ≡ some es') × In te es'
  pub made : te.mode ≡ dir_mode → t' (p ++ te.name ∷ []) ≡ some []
  pub fresh : te.mode ≡ dir_mode → t (p ++ te.name ∷ []) ≡ none

module _ (t : Trees) (p : List Name) (es : List TreeEntry) (te : TreeEntry)
    (e : t p ≡ some es) where
  append-Keeps : Keeps t (set_tree_at p (es ++ te ∷ []) t)
  append-Keeps q as' f = elim (Bool-cases (same_elems p q)) [
    | inl g ↦
        let pq : p ≡ q = (same_elems_iff p q).0 g in
        let same : as' ≡ es = cc (f, e, pq) in
        (es ++ te ∷ [], rw g refl, λ x i. In-append_left x es (te ∷ []) (rw (← same) i))
    | inr g ↦ (as', set_tree_at_ne p q (es ++ te ∷ []) t g ∙ f, λ x i. i)
  ]

  append_back :
      (q : List Name) (es' : List TreeEntry)
      → set_tree_at p (es ++ te ∷ []) t q ≡ some es'
      → (old : List TreeEntry) × (t q ≡ some old)
        × ((x : TreeEntry) → In x es' → In x old ⊎ ((p ≡ q) × (x ≡ te)))
  append_back q es' f = elim (Bool-cases (same_elems p q)) [
    | inl g ↦
        let pq : p ≡ q = (same_elems_iff p q).0 g in
        let same : es' ≡ es ++ te ∷ [] =
          cc (f, set_tree_at_self p (es ++ te ∷ []) t, ap (set_tree_at p (es ++ te ∷ []) t) pq) in
        (
          es,
          ap t (sym pq) ∙ e,
          λ x i. elim (In-snoc_inv x es te (subst (In x) same i)) [
            | inl j ↦ inl j
            | inr k ↦ inr (pq, k)
          ],
        )
    | inr g ↦ (es', sym (set_tree_at_ne p q (es ++ te ∷ []) t g) ∙ f, λ x i. inl i)
  ]

  pub Grows-file : te.mode ≢ dir_mode → Grows t (set_tree_at p (es ++ te ∷ []) t) p te
  Grows-file d = record {
    keeps = append-Keeps;
    back = λ q es' f. inl (append_back q es' f);
    added = (es ++ te ∷ [], set_tree_at_self p (es ++ te ∷ []) t, In-snoc te es);
    made = λ m. absurd (d m);
    fresh = λ m. absurd (d m);
  }

module _ (t : Trees) (p : List Name) (es : List TreeEntry) (te : TreeEntry) (e : t p ≡ some es)
    (new : t (p ++ te.name ∷ []) ≡ none) where
  with_dir : Trees
  with_dir = set_tree_at (p ++ te.name ∷ []) [] t

  not_here : same_elems (p ++ te.name ∷ []) p ≡ false
  not_here = elim (Bool-cases (same_elems (p ++ te.name ∷ []) p)) [
    | inl g ↦
        let pq : p ++ te.name ∷ [] ≡ p = (same_elems_iff (p ++ te.name ∷ []) p).0 g in
        let n : t p ≡ none = ap t (sym pq) ∙ new in cc (n, e)
    | inr g ↦ g
  ]

  not_there : same_elems p (p ++ te.name ∷ []) ≡ false
  not_there = elim (Bool-cases (same_elems p (p ++ te.name ∷ []))) [
    | inl g ↦
        let pq : p ≡ p ++ te.name ∷ [] = (same_elems_iff p (p ++ te.name ∷ [])).0 g in
        let n : t p ≡ none = ap t pq ∙ new in cc (n, e)
    | inr g ↦ g
  ]

  pub with_dir_here : set_tree_at (p ++ te.name ∷ []) [] t p ≡ some es
  with_dir_here = set_tree_at_ne (p ++ te.name ∷ []) p [] t not_here ∙ e

  with_dir_there : with_dir (p ++ te.name ∷ []) ≡ some []
  unfolding with_dir
  with_dir_there = set_tree_at_self (p ++ te.name ∷ []) [] t

  with_dir-Keeps : Keeps t with_dir
  unfolding with_dir
  with_dir-Keeps q as' f = elim (Bool-cases (same_elems (p ++ te.name ∷ []) q)) [
    | inl g ↦
        let pq : p ++ te.name ∷ [] ≡ q = (same_elems_iff (p ++ te.name ∷ []) q).0 g in
        let n : t q ≡ none = ap t (sym pq) ∙ new in cc (n, f)
    | inr g ↦ (as', set_tree_at_ne (p ++ te.name ∷ []) q [] t g ∙ f, λ x i. i)
  ]

  pub Grows-dir :
      te.mode ≡ dir_mode
      → Grows t (set_tree_at p (es ++ te ∷ []) (set_tree_at (p ++ te.name ∷ []) [] t)) p te
  unfolding with_dir
  Grows-dir m = record {
    keeps = λ q as' f.
        let (bs, g, sub) = with_dir-Keeps q as' f in
        let (cs, h, sub') = append-Keeps with_dir p es te with_dir_here q bs g in
        (cs, h, λ x i. sub' x (sub x i));
    back = λ q es' f. elim (Bool-cases (same_elems (p ++ te.name ∷ []) q)) [
      | inl g ↦
          let pq : p ++ te.name ∷ [] ≡ q = (same_elems_iff (p ++ te.name ∷ []) q).0 g in
          let there : set_tree_at p (es ++ te ∷ []) with_dir q ≡ some [] =
            ap (set_tree_at p (es ++ te ∷ []) with_dir) (sym pq)
            ∙ set_tree_at_ne p (p ++ te.name ∷ []) (es ++ te ∷ []) with_dir not_there
            ∙ with_dir_there in
          inr (cc (f, there), sym pq, m)
      | inr g ↦
          let (old, h, sub) = append_back with_dir p es te with_dir_here q es' f in
          inl (old, sym (set_tree_at_ne (p ++ te.name ∷ []) q [] t g) ∙ h, sub)
    ];
    added = (es ++ te ∷ [], set_tree_at_self p (es ++ te ∷ []) with_dir, In-snoc te es);
    made = λ k.
        set_tree_at_ne p (p ++ te.name ∷ []) (es ++ te ∷ []) with_dir not_there ∙ with_dir_there;
    fresh = λ k. new;
  }
