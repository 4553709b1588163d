-- ===== src/TreeBuild/Stored.antt =====
-- The trees that the storer has after `BuildTree`.
use test_perf.Prelude.{
  ℕ, zero, suc, ◌+◌, ◌≤◌, ◌<◌, ◌≡◌, ◌≢◌, refl, ap, ◌∙◌, inl, inr, Option, some, List, [], ◌∷◌, ◌++◌,
  true, false, if◌then◌else◌, length, length-append, arith, ==_iff,
}
use test_perf.Result.{ok, or_panic}
use test_perf.Action.{Action, ◌>>=◌, pure, >>=-ok}
use test_perf.FilePath.{Name}
use test_perf.TreeBuild.{
  TreeEntry, Trees, dir_mode, path_join, has_hash, sort_entries, copy_entries, copy_tree,
}
use test_perf.TreeBuild.Valid.{IsValid, FileOrDir}
use test_perf.TreeBuild.Copy.{
  sort_entries-In_inv, LinkedTo, Pairs, Pairs-map, StandsFor, Extends, StandsFor-Extends, Stores,
}
use test_perf.TreeBuild.Walk.{Proper, All, In, path_join-Proper}

has_hash-file : (e : TreeEntry) → e.mode ≢ dir_mode → e.hash ≢ 0 → has_hash e ≡ true
has_hash-file e d z = ground (arith, ==_iff e.mode dir_mode, ==_iff e.hash 0)

has_hash-dir : (e : TreeEntry) → e.mode ≡ dir_mode → has_hash e ≡ false
has_hash-dir e d = ground (arith, ==_iff e.mode dir_mode)

module _ {S : Type 0} (set_tree : List TreeEntry → Action S ℕ)
    (tree : S → ℕ → Option (List TreeEntry)) (stores : Stores set_tree tree) (t : Trees)
    (v : IsValid t) (most : ℕ)
    (deep : (q : List Name) (es : List TreeEntry) → t q ≡ some es → length q ≤ most) where
  -- What a call that copies the trees from a path on comes to.
  abbrev Copies : (List Name → List TreeEntry → Action S ℕ) → ℕ → List Name → Type 0
  Copies copy f p =
      (es : List TreeEntry) (s : S)
      → t p ≡ some es
      → (s' : S) × (h : ℕ) × (copy p es s ≡ (s', ok h))
        × Extends (tree s) (tree s')
        × StandsFor (tree s') t f h p

  module _ (copy : List Name → List TreeEntry → Action S ℕ) (f : ℕ) (p : List Name)
      (ps : All Proper p) (copies : (n : Name) → Copies copy f (p ++ n ∷ [])) where
    sub_tree : TreeEntry → Action S TreeEntry
    sub_tree e = do
      sub ← (λ s. (s, or_panic (t (path_join p e.name))))
      h ← copy (path_join p e.name) sub
      pure (record e { hash = h })

    one_entry :
        (e : TreeEntry) (s : S)
        → Proper e.name
        → FileOrDir e
        → (e.mode ≡ dir_mode → (es : List TreeEntry) × (t (p ++ e.name ∷ []) ≡ some es))
        → (s' : S) × (e' : TreeEntry) × ((if has_hash e then pure e else sub_tree e) s
            ≡ (s', ok e'))
          × Extends (tree s) (tree s')
          × LinkedTo (StandsFor (tree s') t f) p e e'
    unfolding sub_tree
    one_entry e s n (inl (d, z)) o =
        (s, e, rw (has_hash-file e d z) refl, λ k ts h. h, inl (d, refl))
    one_entry e s n (inr (d, z)) o =
        let (es, k) = o d in
        let (s', h, eq, x, stands) = copies e.name es s k in
        let j : path_join p e.name ≡ p ++ e.name ∷ [] = path_join-Proper p e.name ps n in
        (
          s',
          record e { hash = h },
          rw (has_hash-dir e d, j)
              (>>=-ok (λ s. (s, or_panic (t (p ++ e.name ∷ []))))
                  (λ sub. copy (p ++ e.name ∷ []) sub >>= λ h. pure (record e { hash = h })) s s es
                  (ap (λ a. (s, or_panic a)) k)
                ∙ >>=-ok (copy (p ++ e.name ∷ []) es) (λ h. pure (record e { hash = h })) s s' h
                    eq),
          x,
          inr (d, z, refl, stands),
        )

    all_entries :
        (es : List TreeEntry) (s : S)
        → ((x : TreeEntry) → In x es → Proper x.name)
        → ((x : TreeEntry) → In x es → FileOrDir x)
        → ((x : TreeEntry)
            → In x es
            → x.mode ≡ dir_mode
            → (bs : List TreeEntry) × (t (p ++ x.name ∷ []) ≡ some bs))
        → (s' : S) × (es' : List TreeEntry) × (copy_entries copy t p es s ≡ (s', ok es'))
          × Extends (tree s) (tree s')
          × Pairs (StandsFor (tree s') t f) p es es'
    unfolding copy_entries sub_tree
    all_entries [] s n k o = (s, [], refl, λ k ts h. h, tt)
    all_entries (e ∷ es) s n k o =
        let (s₁, e', eq, x₁, l) =
          one_entry e s (n e (inl refl)) (k e (inl refl)) (o e (inl refl)) in
        let (s₂, es', eq₂, x₂, ls) =
          all_entries es s₁ (λ y i. n y (inr i)) (λ y i. k y (inr i)) (λ y i. o y (inr i)) in
        (
          s₂,
          e' ∷ es',
          >>=-ok (if has_hash e then pure e else sub_tree e)
                (λ e'. copy_entries copy t p es >>= λ rest. pure (e' ∷ rest)) s s₁ e' eq
              ∙ >>=-ok (copy_entries copy t p es) (λ rest. pure (e' ∷ rest)) s₁ s₂ es' eq₂,
          λ k ts h. x₂ k ts (x₁ k ts h),
          (kept l x₂, ls),
        )
      where
        kept :
            {g g' : ℕ → Option (List TreeEntry)} {e e' : TreeEntry}
            → LinkedTo (StandsFor g t f) p e e'
            → Extends g g'
            → LinkedTo (StandsFor g' t f) p e e'
        kept (inl a) x = inl a
        kept {g} {g'} (inr (m, z, q, r)) x = inr (m, z, q, StandsFor-Extends g g' t x f _ _ r)

  pub copy_tree-Copies :
      (f : ℕ) (p : List Name) → most < length p + f → Copies (copy_tree set_tree f t) f p
  unfolding copy_tree
  copy_tree-Copies zero p low es s e = absurd (omega (arith, deep p es e))
  copy_tree-Copies (suc f) p low es s e =
      let ps : All Proper p = v.proper p es e in
      let (s₁, done, eq, x₁, ls) =
        all_entries (copy_tree set_tree f t) f p ps
          (λ n. copy_tree-Copies f (p ++ n ∷ []) (omega (arith, length-append p (n ∷ []))))
          (sort_entries es) s (λ y i. v.named p es y e (sort_entries-In_inv y es i))
          (λ y i. v.filled p es y e (sort_entries-In_inv y es i))
          (λ y i. v.opened p es y e (sort_entries-In_inv y es i)) in
      let (s₂, h, eq₂, got, x₂) = stores.stored done s₁ in
      (
        s₂,
        h,
        >>=-ok (copy_entries (copy_tree set_tree f t) t p (sort_entries es)) set_tree s s₁ done eq
            ∙ eq₂,
        λ k ts i. x₂ k ts (x₁ k ts i),
        (
          es,
          done,
          e,
          got,
          Pairs-map (StandsFor (tree s₁) t f) (StandsFor (tree s₂) t f) p
              (StandsFor-Extends (tree s₁) (tree s₂) t x₂ f) (sort_entries es) done ls,
        ),
      )
