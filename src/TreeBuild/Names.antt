-- ===== src/TreeBuild/Names.antt =====
-- `BuildTree` as a whole: the names that its trees lead to.
use mathlib.Core.Path.{subst}
use native.Mathlib.Nat.{le-max_left, le-max_right}
use test_perf.Prelude.{
  ℕ, zero, suc, ◌≤◌, ◌≡◌, ◌↔◌, refl, sym, ap, ◌∙◌, inl, inr, Option, some, List, [], ◌∷◌, ◌++◌,
  length, length-append, arith,
}
use test_perf.Result.{ok, or_panic}
use test_perf.Action.{Action, ◌>>=◌, >>=-ok}
use test_perf.FilePath.{Name}
use test_perf.TreeBuild.{
  IndexEntry, TreeEntry, Trees, dir_mode, parts, sort_entries, copy_tree, depth, commit_index,
  build_tree, root_only,
}
use test_perf.TreeBuild.Valid.{IsValid}
use test_perf.TreeBuild.Index.{Listed}
use test_perf.TreeBuild.Entries.{IsTidy, Inside, commit_index-Indexed}
use test_perf.TreeBuild.Copy.{
  sort_entries-In, sort_entries-In_inv, Pairs-In, Pairs-In_inv, StandsFor, Extends, Stores,
}
use test_perf.TreeBuild.Stored.{copy_tree-Copies}
use test_perf.TreeBuild.Walk.{Proper, All, In, entry, Has, Leads}

module _ (get : ℕ → Option (List TreeEntry)) (t : Trees) where
  Leads-Has :
      (f r : ℕ) (p q : List Name) (m k : ℕ)
      → StandsFor get t f r p
      → Leads get r q m k
      → Has t p q m k
  Leads-Has zero r p q m k h l = absurd h
  Leads-Has (suc f) r p [] m k h l = absurd l
  Leads-Has (suc f) r p (n ∷ q) m k (es, es', e, e', ps) (bs, b, inl (z, d, i)) =
      let same : bs ≡ es' = cc (b, e') in
      let (x, j, l) =
        Pairs-In_inv (StandsFor get t f) p (sort_entries es) es' (entry n m k) ps
          (subst (In (entry n m k)) same i) in
      elim l [
        | inl (d', eq) ↦
            (es, e, inl (z, d, subst (λ y. In y es) (sym eq) (sort_entries-In_inv x es j)))
        | inr (m', z', eq, stands) ↦ absurd (d (ap (λ (y : TreeEntry). y.mode) eq ∙ m'))
      ]
  Leads-Has (suc f) r p (n ∷ q) m k (es, es', e, e', ps) (bs, b, inr (h, i, l)) =
      let same : bs ≡ es' = cc (b, e') in
      let (x, j, c) =
        Pairs-In_inv (StandsFor get t f) p (sort_entries es) es' (entry n dir_mode h) ps
          (subst (In (entry n dir_mode h)) same i) in
      elim c [
        | inl (d', eq) ↦ absurd (d' (ap (λ (y : TreeEntry). y.mode) (sym eq)))
        | inr (m', z, eq, stands) ↦
            let named : x.name ≡ n = ap (λ (y : TreeEntry). y.name) (sym eq) in
            let is : x ≡ entry n dir_mode 0 = λ i. entry (named i) (m' i) (z i) in
            (
              es,
              e,
              inr (
                subst (λ y. In y es) is (sort_entries-In_inv x es j),
                Leads-Has f h (p ++ n ∷ []) q m k
                    (subst (λ a. StandsFor get t f h (p ++ a ∷ [])) named stands) l,
              ),
            )
      ]

  Has-Leads :
      (f r : ℕ) (p q : List Name) (m k : ℕ)
      → StandsFor get t f r p
      → Has t p q m k
      → Leads get r q m k
  Has-Leads zero r p q m k h l = absurd h
  Has-Leads (suc f) r p [] m k h l = absurd l
  Has-Leads (suc f) r p (n ∷ q) m k (es, es', e, e', ps) (bs, b, inl (z, d, i)) =
      let same : bs ≡ es = cc (b, e) in
      let (x', j, l) =
        Pairs-In (StandsFor get t f) p (sort_entries es) es' (entry n m k) ps
          (sort_entries-In (entry n m k) es (subst (In (entry n m k)) same i)) in
      elim l [
        | inl (d', eq) ↦ (es', e', inl (z, d, subst (λ y. In y es') eq j))
        | inr (m', z', eq, stands) ↦ absurd (d m')
      ]
  Has-Leads (suc f) r p (n ∷ q) m k (es, es', e, e', ps) (bs, b, inr (i, h)) =
      let same : bs ≡ es = cc (b, e) in
      let (x', j, l) =
        Pairs-In (StandsFor get t f) p (sort_entries es) es' (entry n dir_mode 0) ps
          (sort_entries-In (entry n dir_mode 0) es (subst (In (entry n dir_mode 0)) same i)) in
      elim l [
        | inl (d', eq) ↦ absurd (d' refl)
        | inr (m', z', eq, stands) ↦ (
          es',
          e',
          inr (
            x'.hash,
            subst (λ y. In y es') eq j,
            Has-Leads f x'.hash (p ++ n ∷ []) q m k stands h,
          ),
        )
      ]

root_only-cases :
    (q : List Name) (es : List TreeEntry) → root_only q ≡ some es → (q ≡ []) × (es ≡ [])
root_only-cases [] es h = (refl, cc)
root_only-cases (n ∷ q) es h = cc

root_only-IsValid : IsValid root_only
root_only-IsValid = record {
  root = ([], refl);
  proper = λ p es h. let (z, y) = root_only-cases p es h in subst (All Proper) (sym z) tt;
  linked = λ p es h. let (z, y) = root_only-cases p es h in rw z tt;
  named = λ p es x h i. let (z, y) = root_only-cases p es h in absurd (subst (In x) y i);
  filled = λ p es x h i. let (z, y) = root_only-cases p es h in absurd (subst (In x) y i);
  opened = λ p es x h i. let (z, y) = root_only-cases p es h in absurd (subst (In x) y i);
}

root_only-Has : (q : List Name) (m k : ℕ) → Has root_only [] q m k → ⊥
root_only-Has [] m k h = h
root_only-Has (n ∷ q) m k (es, e, inl (z, d, i)) =
    let (y, w) = root_only-cases [] es e in subst (In (entry n m k)) w i
root_only-Has (n ∷ q) m k (es, e, inr (i, h)) =
    let (y, w) = root_only-cases [] es e in subst (In (entry n dir_mode 0)) w i

length-parts-le-depth :
    (d : IndexEntry) (idx : List IndexEntry) → In d idx → length (parts d) ≤ depth idx
length-parts-le-depth d [] i = absurd i
length-parts-le-depth d (e ∷ es) (inl q) =
    let n : length (parts d) ≡ length (parts e) = ap (λ (x : IndexEntry). length (parts x)) q in
    omega (arith, le-max_left (length (parts e)) (depth es))
length-parts-le-depth d (e ∷ es) (inr i) =
    omega (arith, length-parts-le-depth d es i, le-max_right (length (parts e)) (depth es))

Inside-deep :
    (idx : List IndexEntry) (t : Trees)
    → Inside idx t
    → (q : List Name) (es : List TreeEntry) → t q ≡ some es
    → length q ≤ depth idx
Inside-deep idx t ins q es h = elim (ins q es h) [
  | inl z ↦ let n : length q ≡ 0 = ap length z in omega arith
  | inr (d, x, r, i, j) ↦
      omega (arith, length-parts-le-depth d idx i, ap length j, length-append q (x ∷ r))
]

module _ {S : Type 0} (set_tree : List TreeEntry → Action S ℕ)
    (tree : S → ℕ → Option (List TreeEntry)) (stores : Stores set_tree tree) (idx : List IndexEntry)
    (tidy : IsTidy idx) (s : S) where
  -- If every tree is stored and given back, and the index is of files with a hash under clean names, none of
  -- them a directory of another, `BuildTree` returns the hash of a tree that leads along a name to a mode and a
  -- hash exactly if an entry of the index has them under that name, and every tree that was stored before is
  -- still there.
  pub build_tree-Leads :
      (s' : S) × (root : ℕ) × (build_tree set_tree idx s ≡ (s', ok root))
      × Extends (tree s) (tree s')
      × ((r : List Name) (m k : ℕ) → Leads (tree s') root r m k ↔ Listed r m k idx)
  unfolding build_tree
  build_tree-Leads =
      let (t, eq, ixd) =
        commit_index-Indexed idx tidy idx root_only (λ e i. i) root_only-IsValid
          (λ q es h. inl (root_only-cases q es h).0) in
      let (es, e) = ixd.valid.root in
      let (s', h, eq', x, stands) =
        copy_tree-Copies set_tree tree stores t ixd.valid (depth idx) (Inside-deep idx t ixd.inside)
          (suc (depth idx)) [] (omega arith) es s e in
      (
        s',
        h,
        >>=-ok (λ s. (s, commit_index idx root_only))
              (λ t. (λ s. (s, or_panic (t []))) >>= λ root.
                copy_tree set_tree (suc (depth idx)) t [] root)
              s s t (ap (λ a. (s, a)) eq)
            ∙ >>=-ok (λ s. (s, or_panic (t [])))
                (λ root. copy_tree set_tree (suc (depth idx)) t [] root) s s es
                (ap (λ a. (s, or_panic a)) e)
            ∙ eq',
        x,
        λ r m k. (
          λ l. elim (ixd.back r m k (Leads-Has (tree s') t (suc (depth idx)) h [] r m k stands l)) [
            | inl a ↦ absurd (root_only-Has r m k a)
            | inr a ↦ a
          ],
          λ a. Has-Leads (tree s') t (suc (depth idx)) h [] r m k stands (ixd.listed r m k a),
        ),
      )
