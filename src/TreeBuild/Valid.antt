-- ===== src/TreeBuild/Valid.antt =====
-- The trees of the helper between two calls of `doBuildTree`.
use mathlib.Core.Path.{subst}
use test_perf.Prelude.{ℕ, ◌≡◌, ◌≢◌, sym, ap, ◌∙◌, ◌⊎◌, inl, inr, none, some, List, [], ◌∷◌, ◌++◌}
use test_perf.FilePath.{Name}
use test_perf.TreeBuild.{TreeEntry, Trees, dir_mode}
use test_perf.TreeBuild.Grow.{Grows}
use test_perf.TreeBuild.Walk.{
  Proper, All, All-snoc, In, entry, Has, Linked, Linked-Keeps, Linked-snoc, snoc_append,
}

-- What an entry of a tree of the helper says of itself: a directory has no hash yet.
abbrev pub FileOrDir : TreeEntry → Type 0
FileOrDir x = ((x.mode ≢ dir_mode) × (x.hash ≢ 0)) ⊎ ((x.mode ≡ dir_mode) × (x.hash ≡ 0))

pub record IsValid (t : Trees) : Type 0 where
  pub root : (es : List TreeEntry) × (t [] ≡ some es)
  pub proper : (p : List Name) (es : List TreeEntry) → t p ≡ some es → All Proper p
  pub linked : (p : List Name) (es : List TreeEntry) → t p ≡ some es → Linked t [] p
  pub named :
      (p : List Name) (es : List TreeEntry) (x : TreeEntry)
      → t p ≡ some es
      → In x es
      → Proper x.name
  pub filled :
      (p : List Name) (es : List TreeEntry) (x : TreeEntry) → t p ≡ some es → In x es → FileOrDir x
  pub opened :
      (p : List Name) (es : List TreeEntry) (x : TreeEntry)
      → t p ≡ some es
      → In x es
      → x.mode ≡ dir_mode
      → (es' : List TreeEntry) × (t (p ++ x.name ∷ []) ≡ some es')

entry_eq : (x : TreeEntry) → x.mode ≡ dir_mode → x.hash ≡ 0 → x ≡ entry x.name dir_mode 0
entry_eq x m h = λ i. record { name = x.name; mode = m i; hash = h i }

no_hash : (x : TreeEntry) → FileOrDir x → x.mode ≡ dir_mode → x.hash ≡ 0
no_hash x (inl (d, h)) m = absurd (d m)
no_hash x (inr (m', h)) m = h

module _ (t t' : Trees) (p : List Name) (te : TreeEntry) (g : Grows t t' p te) where
  -- A property of all entries of all trees.
  every :
      (P : List Name → TreeEntry → Type 0)
      → ((q : List Name) (es : List TreeEntry) (x : TreeEntry) → t q ≡ some es → In x es → P q x)
      → P p te
      → (q : List Name) (es : List TreeEntry) (x : TreeEntry) → t' q ≡ some es
      → In x es
      → P q x
  every P old new q es x e i = elim (g.back q es e) [
    | inl (as', f, sub) ↦ elim (sub x i) [
      | inl j ↦ old q as' x f j
      | inr (pq, k) ↦ subst (λ r. P r x) pq (subst (P p) (sym k) new)
    ]
    | inr (n, r, m) ↦ absurd (subst (In x) n i)
  ]

  pub Grows-IsValid :
      IsValid t → (es : List TreeEntry) → t p ≡ some es → Proper te.name → FileOrDir te → IsValid t'
  Grows-IsValid v es e n k = record {
    root = let (as', f) = v.root in let (bs, h, sub) = g.keeps [] as' f in (bs, h);
    proper = λ q es' f. elim (g.back q es' f) [
      | inl (as', h, sub) ↦ v.proper q as' h
      | inr (z, r, m) ↦ subst (All Proper) (sym r) (All-snoc Proper p te.name (v.proper p es e) n)
    ];
    linked = λ q es' f. elim (g.back q es' f) [
      | inl (as', h, sub) ↦ Linked-Keeps t t' g.keeps [] q (v.linked q as' h)
      | inr (z, r, m) ↦
          let (bs, h, i) = g.added in
          subst (Linked t' []) (sym r) (
            Linked-snoc t' [] p te.name bs (Linked-Keeps t t' g.keeps [] p (v.linked p es e)) h
              (subst (λ x. In x bs) (entry_eq te m (no_hash te k m)) i))
    ];
    named = every (λ q x. Proper x.name) v.named n;
    filled = every (λ q x. FileOrDir x) v.filled k;
    opened =
        every
          (λ q x. x.mode ≡ dir_mode → (es' : List TreeEntry) × (t' (q ++ x.name ∷ []) ≡ some es'))
          (λ q as' x f i m.
            let (bs, h) = v.opened q as' x f i m in
            let (cs, h', sub) = g.keeps (q ++ x.name ∷ []) bs h in (cs, h'))
          (λ m. ([], g.made m));
  }

  Has-none : (q r : List Name) (m k : ℕ) → t q ≡ none → Has t q r m k → ⊥
  Has-none q [] m k e h = h
  Has-none q (n ∷ r) m k e (es, f, c) = cc (e, f)

  -- A file of `t'` is one of `t`, or the new one.
  pub Has-Grows :
      (q r : List Name) (m k : ℕ)
      → Has t' q r m k
      → Has t q r m k
        ⊎ ((q ++ r ≡ p ++ te.name ∷ []) × (te.mode ≡ m) × (te.hash ≡ k) × (m ≢ dir_mode))
  Has-Grows q [] m k h = absurd h
  Has-Grows q (n ∷ r) m k (es', e, inl (z, d, i)) = elim (g.back q es' e) [
    | inr (y, _, _) ↦ absurd (subst (In (entry n m k)) y i)
    | inl (es, f, sub) ↦ elim (sub (entry n m k) i) [
      | inl j ↦ inl (es, f, inl (z, d, j))
      | inr (pq, x) ↦ inr (
        λ i. sym pq i ++ (x i).name ∷ z i,
        ap (λ (a : TreeEntry). a.mode) (sym x),
        ap (λ (a : TreeEntry). a.hash) (sym x),
        d,
      )
    ]
  ]
  Has-Grows q (n ∷ r) m k (es', e, inr (i, h)) = elim (g.back q es' e) [
    | inr (y, _, _) ↦ absurd (subst (In (entry n dir_mode 0)) y i)
    | inl (es, f, sub) ↦ elim (Has-Grows (q ++ n ∷ []) r m k h) [
      | inr (eq, a, b, c) ↦ inr (sym (snoc_append q n r) ∙ eq, a, b, c)
      | inl old ↦ elim (sub (entry n dir_mode 0) i) [
        | inl j ↦ inl (es, f, inr (j, old))
        | inr (pq, x) ↦
            let here : p ++ te.name ∷ [] ≡ q ++ n ∷ [] = λ i. pq i ++ (sym x i).name ∷ [] in
            absurd (
              Has-none (q ++ n ∷ []) r m k
                (ap t (sym here) ∙ g.fresh (ap (λ (a : TreeEntry). a.mode) (sym x))) old)
      ]
    ]
  ]
