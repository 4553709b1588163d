-- ===== src/TreeBuild/Walk.antt =====
-- What trees lead to, along a path.
use mathlib.Core.List.{append_assoc, append-nil, reverse-cons}
use test_perf.Prelude.{
  ℕ, ◌≡◌, ◌≢◌, refl, sym, ap, ◌∙◌, ◌⊎◌, inl, inr, Option, some, List, [], ◌∷◌, ◌++◌, reverse, false,
}
use test_perf.FilePath.{Name, dot, dot_dot, clean_from, clean_step, same_name, last}
use test_perf.TreeBuild.{TreeEntry, Trees, path_join, dir_mode}

-- A name that `path.Clean` keeps.
pub record Proper (n : Name) : Type 0 where
  pub not_empty : same_name n [] ≡ false
  pub not_dot : same_name n dot ≡ false
  pub not_dot_dot : same_name n dot_dot ≡ false

abbrev pub All : {A : Type 0} → (A → Type 0) → List A → Type 0
All P [] = Unit
All P (x ∷ xs) = P x × All P xs

abbrev pub In : {A : Type 0} → A → List A → Type 0
In x [] = ⊥
In x (y ∷ ys) = (x ≡ y) ⊎ In x ys

module _ {A : Type 0} where
  pub In-append_left : (x : A) (xs ys : List A) → In x xs → In x (xs ++ ys)
  In-append_left x [] ys h = absurd h
  In-append_left x (y ∷ xs) ys (inl e) = inl e
  In-append_left x (y ∷ xs) ys (inr h) = inr (In-append_left x xs ys h)

  pub In-snoc : (x : A) (xs : List A) → In x (xs ++ x ∷ [])
  In-snoc x [] = inl refl
  In-snoc x (y ∷ xs) = inr (In-snoc x xs)

  pub In-snoc_inv : (x : A) (xs : List A) (y : A) → In x (xs ++ y ∷ []) → In x xs ⊎ (x ≡ y)
  In-snoc_inv x [] y (inl e) = inr e
  In-snoc_inv x [] y (inr h) = absurd h
  In-snoc_inv x (z ∷ xs) y (inl e) = inl (inl e)
  In-snoc_inv x (z ∷ xs) y (inr h) = elim (In-snoc_inv x xs y h) [
    | inl k ↦ inl (inr k)
    | inr e ↦ inr e
  ]

pub All-snoc :
    {A : Type 0} (P : A → Type 0) (xs : List A) (y : A) → All P xs → P y → All P (xs ++ y ∷ [])
All-snoc P [] y h p = (p, tt)
All-snoc P (x ∷ xs) y (q, h) p = (q, All-snoc P xs y h p)

pub snoc_append : (p : List Name) (n : Name) (q : List Name) → (p ++ n ∷ []) ++ q ≡ p ++ n ∷ q
snoc_append p n q = append_assoc p (n ∷ []) q

clean_from_lem : (out ns : List Name) → All Proper ns → clean_from false out ns ≡ reverse out ++ ns
unfolding clean_from clean_step
clean_from_lem out [] h = sym (append-nil (reverse out))
clean_from_lem out (n ∷ ns) (p, h) =
    rw (p.not_empty, p.not_dot, p.not_dot_dot)
      (clean_from_lem (n ∷ out) ns h
        ∙ ap (λ (l : List Name). l ++ ns) (reverse-cons n out)
        ∙ snoc_append (reverse out) n ns)

pub path_join-Proper :
    (p : List Name) (n : Name) → All Proper p → Proper n → path_join p n ≡ p ++ n ∷ []
unfolding path_join
path_join-Proper [] n hp hn = rw (clean_from_lem [] (n ∷ []) (hn, tt), path_join) refl
path_join-Proper (q ∷ p) n hp hn =
    rw (clean_from_lem [] (q ∷ p ++ n ∷ []) (All-snoc Proper (q ∷ p) n hp hn), path_join) refl

pub last-snoc : (p : List Name) (n d : Name) → last (p ++ n ∷ []) d ≡ n
last-snoc [] n d = refl
last-snoc (q ∷ p) n d = last-snoc p n q

abbrev pub entry : Name → ℕ → ℕ → TreeEntry
entry n m h = record { name = n; mode = m; hash = h }

-- A file with this mode and hash lies under the path `q` from `p` in the trees of the helper, where a
-- directory's tree is that of its path.
abbrev pub Has : Trees → List Name → List Name → ℕ → ℕ → Type 0
Has t p [] m k = ⊥
Has t p (n ∷ q) m k =
    (es : List TreeEntry) × (t p ≡ some es)
    × (((q ≡ []) × (m ≢ dir_mode) × In (entry n m k) es)
        ⊎ (In (entry n dir_mode 0) es × Has t (p ++ n ∷ []) q m k))

-- Directories lead from `p` along `q`.
abbrev pub Linked : Trees → List Name → List Name → Type 0
Linked t p [] = Unit
Linked t p (n ∷ q) =
    (es : List TreeEntry) × (t p ≡ some es) × In (entry n dir_mode 0) es × Linked t (p ++ n ∷ []) q

-- A file under a path in the trees of a storer, from the tree with the hash `r` on.
abbrev pub Leads : (ℕ → Option (List TreeEntry)) → ℕ → List Name → ℕ → ℕ → Type 0
Leads get r [] m k = ⊥
Leads get r (n ∷ q) m k =
    (es : List TreeEntry) × (get r ≡ some es)
    × (((q ≡ []) × (m ≢ dir_mode) × In (entry n m k) es)
        ⊎ ((h : ℕ) × In (entry n dir_mode h) es × Leads get h q m k))

-- The trees of `t` are in `t'`, with their entries.
abbrev pub Keeps : Trees → Trees → Type 0
Keeps t t' =
    (p : List Name) (es : List TreeEntry)
    → t p ≡ some es
    → (es' : List TreeEntry) × (t' p ≡ some es') × ((x : TreeEntry) → In x es → In x es')

module _ (t t' : Trees) (keeps : Keeps t t') where
  pub Linked-Keeps : (p q : List Name) → Linked t p q → Linked t' p q
  Linked-Keeps p [] h = tt
  Linked-Keeps p (n ∷ q) (es, e, i, h) =
      let (es', e', sub) = keeps p es e in (es', e', sub _ i, Linked-Keeps (p ++ n ∷ []) q h)

  pub Has-Keeps : (p q : List Name) (m k : ℕ) → Has t p q m k → Has t' p q m k
  Has-Keeps p [] m k h = absurd h
  Has-Keeps p (n ∷ q) m k (es, e, inl (z, d, i)) =
      let (es', e', sub) = keeps p es e in (es', e', inl (z, d, sub _ i))
  Has-Keeps p (n ∷ q) m k (es, e, inr (i, h)) =
      let (es', e', sub) = keeps p es e in (es', e', inr (sub _ i, Has-Keeps (p ++ n ∷ []) q m k h))

module _ (t : Trees) where
  pub Linked-snoc :
      (p q : List Name) (n : Name) (es : List TreeEntry)
      → Linked t p q
      → t (p ++ q) ≡ some es
      → In (entry n dir_mode 0) es
      → Linked t p (q ++ n ∷ [])
  Linked-snoc p [] n es h e i = (es, ap t (sym (append-nil p)) ∙ e, i, tt)
  Linked-snoc p (a ∷ q) n es (as', f, j, h) e i =
      (as', f, j, Linked-snoc (p ++ a ∷ []) q n es h (ap t (snoc_append p a q) ∙ e) i)

  pub Linked-Has :
      (p q : List Name) (n : Name) (m k : ℕ) (es : List TreeEntry)
      → Linked t p q
      → t (p ++ q) ≡ some es
      → m ≢ dir_mode
      → In (entry n m k) es
      → Has t p (q ++ n ∷ []) m k
  Linked-Has p [] n m k es h e d i = (es, ap t (sym (append-nil p)) ∙ e, inl (refl, d, i))
  Linked-Has p (a ∷ q) n m k es (as', f, j, h) e d i =
      (as', f, inr (j, Linked-Has (p ++ a ∷ []) q n m k es h (ap t (snoc_append p a q) ∙ e) d i))
