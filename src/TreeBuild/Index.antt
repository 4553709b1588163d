-- ===== src/TreeBuild/Index.antt =====
-- `commitIndexEntry` and the loop of `BuildTree` over the index.
use test_perf.Prelude.{
  ℕ, ◌≡◌, ◌≢◌, refl, sym, ◌⊎◌, inl, inr, none, some, List, [], ◌∷◌, ◌++◌, true, false, Option-cases,
}
use test_perf.Result.{ok}
use test_perf.FilePath.{Name, same_elems, dot}
use test_perf.FilePath.Same.{same_elems_iff}
use test_perf.TreeBuild.{
  IndexEntry, TreeEntry, Trees, dir_mode, set_tree_at, parts, append_to, do_build_tree,
}
use test_perf.TreeBuild.Grow.{Grows-file, Grows-dir, with_dir_here}
use test_perf.TreeBuild.Valid.{IsValid, Grows-IsValid, Has-Grows}
use test_perf.TreeBuild.Walk.{Proper, In, entry, Has, Keeps, Linked-Keeps, Linked-Has, last-snoc}

append_to-some :
    (p : List Name) (te : TreeEntry) (t : Trees) (es : List TreeEntry)
    → t p ≡ some es
    → append_to p te t ≡ ok (set_tree_at p (es ++ te ∷ []) t)
unfolding append_to
append_to-some p te t es h = rw (append_to, h) refl

-- The entries of the index have this file.
abbrev pub Listed : List Name → ℕ → ℕ → List IndexEntry → Type 0
Listed r m k idx = (e : IndexEntry) × In e idx × (parts e ≡ r) × (e.mode ≡ m) × (e.hash ≡ k)

-- What a call for the entry `e` does to the trees; the path `full` has a tree afterwards if it is a
-- directory.
pub record Stepped (t t' : Trees) (full : List Name) : Type 0 where
  pub valid : IsValid t'
  pub keeps : Keeps t t'
  pub there : (es : List TreeEntry) × (t' full ≡ some es)
  pub back : (r : List Name) (m k : ℕ) → Has t' [] r m k → Has t [] r m k
  pub trees :
      (q : List Name) (es : List TreeEntry)
      → t' q ≡ some es
      → (full ≡ q) ⊎ ((as' : List TreeEntry) × (t q ≡ some as'))

pub record Filed (t t' : Trees) (full : List Name) (mode hash : ℕ) : Type 0 where
  pub valid : IsValid t'
  pub keeps : Keeps t t'
  pub there : Has t' [] full mode hash
  pub back :
      (r : List Name) (m k : ℕ)
      → Has t' [] r m k
      → Has t [] r m k ⊎ ((full ≡ r) × (mode ≡ m) × (hash ≡ k))
  pub trees :
      (q : List Name) (es : List TreeEntry)
      → t' q ≡ some es
      → ((as' : List TreeEntry) × (t q ≡ some as'))
        ⊎ ((x : Name) × (r : List Name) × (full ≡ q ++ x ∷ r))

module _ (e : IndexEntry) (t : Trees) (v : IsValid t) (p : List Name) (n : Name)
    (es : List TreeEntry) (h : t p ≡ some es) (proper : Proper n) where
  pub dir_step :
      same_elems (p ++ n ∷ []) (parts e) ≡ false
      → (t' : Trees) × (do_build_tree e t p (p ++ n ∷ []) ≡ ok t') × Stepped t t' (p ++ n ∷ [])
  unfolding do_build_tree
  dir_step differ = elim (Option-cases (t (p ++ n ∷ []))) [
    | inr (bs, k) ↦ (
      t,
      rw (do_build_tree, k) refl,
      record {
        valid = v;
        keeps = λ q as' f. (as', f, λ x i. i);
        there = (bs, k);
        back = λ r m k h. h;
        trees = λ q as' f. inr (as', f);
      },
    )
    | inl k ↦
        let te : TreeEntry = entry n dir_mode 0 in
        let g = Grows-dir t p es te h k refl in
        (
          set_tree_at p (es ++ te ∷ []) (set_tree_at (p ++ n ∷ []) [] t),
          rw (do_build_tree, k, differ)
              (rw (last-snoc p n dot) (
                append_to-some p te (set_tree_at (p ++ n ∷ []) [] t) es
                  (with_dir_here t p es te h k))),
          record {
            valid = Grows-IsValid t _ p te g v es h proper (inr (refl, refl));
            keeps = g.keeps;
            there = ([], g.made refl);
            back = λ r m k i. elim (Has-Grows t _ p te g [] r m k i) [
              | inl j ↦ j
              | inr (_, m, _, d) ↦ absurd (d (sym m))
            ];
            trees = λ q as' f. elim (g.back q as' f) [
              | inl (bs, f', sub) ↦ inr (bs, f')
              | inr (z, r, m) ↦ inl (sym r)
            ];
          },
        )
  ]

  pub file_step :
      parts e ≡ p ++ n ∷ []
      → t (p ++ n ∷ []) ≡ none
      → e.mode ≢ dir_mode
      → e.hash ≢ 0
      → (t' : Trees) × (do_build_tree e t p (p ++ n ∷ []) ≡ ok t')
        × Filed t t' (p ++ n ∷ []) e.mode e.hash
  unfolding do_build_tree
  file_step here k d z =
      let te : TreeEntry = entry n e.mode e.hash in
      let g = Grows-file t p es te h d in
      let (bs, f, i) = g.added in
      let same : same_elems (p ++ n ∷ []) (parts e) ≡ true =
        (same_elems_iff (p ++ n ∷ []) (parts e)).1 (sym here) in
      (
        set_tree_at p (es ++ te ∷ []) t,
        rw (do_build_tree, k, same) (rw (last-snoc p n dot) (append_to-some p te t es h)),
        record {
          valid = Grows-IsValid t _ p te g v es h proper (inl (d, z));
          keeps = g.keeps;
          there =
              Linked-Has _ [] p n e.mode e.hash bs (Linked-Keeps t _ g.keeps [] p (v.linked p es h))
                f d i;
          back = λ r m k i. elim (Has-Grows t _ p te g [] r m k i) [
            | inl j ↦ inl j
            | inr (eq, m, k, _) ↦ inr (sym eq, m, k)
          ];
          trees = λ q as' f. elim (g.back q as' f) [
            | inl (bs, f', sub) ↦ inl (bs, f')
            | inr (z, r, m) ↦ absurd (d m)
          ];
        },
      )
