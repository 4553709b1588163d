-- ===== src/TreeBuild/Copy.antt =====
-- `copyTreeToStorageRecursive`, from the trees of the helper to those of the storer.
use mathlib.Core.Path.{subst}
use test_perf.Prelude.{
  ℕ, zero, suc, ◌≡◌, ◌≢◌, refl, sym, ◌⊎◌, inl, inr, Option, some, List, [], ◌∷◌, ◌++◌, Bool-cases,
}
use test_perf.Result.{ok}
use test_perf.Action.{Action}
use test_perf.FilePath.{Name}
use test_perf.TreeBuild.{TreeEntry, Trees, dir_mode, less_entry, insert_entry, sort_entries}
use test_perf.TreeBuild.Walk.{In}

insert_entry-In :
    (a x : TreeEntry) (bs : List TreeEntry) → (x ≡ a) ⊎ In x bs → In x (insert_entry a bs)
unfolding insert_entry
insert_entry-In a x [] (inl e) = inl e
insert_entry-In a x [] (inr h) = absurd h
insert_entry-In a x (b ∷ bs) h = elim (Bool-cases (less_entry b a)) [
  | inr k ↦ rw k h
  | inl k ↦ rw k (elim h [
    | inl e ↦ inr (insert_entry-In a x bs (inl e))
    | inr i ↦ elim i [ inl e ↦ inl e | inr j ↦ inr (insert_entry-In a x bs (inr j)) ]
  ])
]

insert_entry-In_inv :
    (a x : TreeEntry) (bs : List TreeEntry) → In x (insert_entry a bs) → (x ≡ a) ⊎ In x bs
unfolding insert_entry
insert_entry-In_inv a x [] h = h
insert_entry-In_inv a x (b ∷ bs) h = elim (Bool-cases (less_entry b a)) [
  | inr k ↦ let q : insert_entry a (b ∷ bs) ≡ a ∷ b ∷ bs = rw k refl in subst (In x) q h
  | inl k ↦
      let q : insert_entry a (b ∷ bs) ≡ b ∷ insert_entry a bs = rw k refl in
      let next : In x (b ∷ insert_entry a bs) = subst (In x) q h in
      elim next [
        | inl e ↦ inr (inl e)
        | inr i ↦ elim (insert_entry-In_inv a x bs i) [ inl e ↦ inl e | inr j ↦ inr (inr j) ]
      ]
]

pub sort_entries-In : (x : TreeEntry) (es : List TreeEntry) → In x es → In x (sort_entries es)
unfolding sort_entries
sort_entries-In x [] h = h
sort_entries-In x (a ∷ es) (inl e) = insert_entry-In a x (sort_entries es) (inl e)
sort_entries-In x (a ∷ es) (inr h) =
    insert_entry-In a x (sort_entries es) (inr (sort_entries-In x es h))

pub sort_entries-In_inv : (x : TreeEntry) (es : List TreeEntry) → In x (sort_entries es) → In x es
unfolding sort_entries
sort_entries-In_inv x [] h = h
sort_entries-In_inv x (a ∷ es) h = elim (insert_entry-In_inv a x (sort_entries es) h) [
  | inl e ↦ inl e
  | inr i ↦ inr (sort_entries-In_inv x es i)
]

-- An entry as it is stored: a directory has the hash of a tree that stands for its path.
abbrev pub LinkedTo : (ℕ → List Name → Type 0) → List Name → TreeEntry → TreeEntry → Type 0
LinkedTo R p e e' =
    ((e.mode ≢ dir_mode) × (e' ≡ e))
    ⊎ ((e.mode ≡ dir_mode)
        × (e.hash ≡ 0)
        × (e' ≡ record e { hash = e'.hash })
        × R e'.hash (p ++ e.name ∷ []))

abbrev pub Pairs : (ℕ → List Name → Type 0) → List Name → List TreeEntry → List TreeEntry → Type 0
Pairs R p [] [] = Unit
Pairs R p (e ∷ es) (e' ∷ es') = LinkedTo R p e e' × Pairs R p es es'
Pairs R p _ _ = ⊥

module _ (R R' : ℕ → List Name → Type 0) (p : List Name)
    (f : (h : ℕ) (q : List Name) → R h q → R' h q) where
  pub Pairs-map : (es es' : List TreeEntry) → Pairs R p es es' → Pairs R' p es es'
  Pairs-map [] [] h = tt
  Pairs-map [] (e' ∷ es') h = absurd h
  Pairs-map (e ∷ es) [] h = absurd h
  Pairs-map (e ∷ es) (e' ∷ es') (inl l, h) = (inl l, Pairs-map es es' h)
  Pairs-map (e ∷ es) (e' ∷ es') (inr (m, z, q, r), h) = (inr (m, z, q, f _ _ r), Pairs-map es es' h)

module _ (R : ℕ → List Name → Type 0) (p : List Name) where
  pub Pairs-In :
      (es es' : List TreeEntry) (x : TreeEntry)
      → Pairs R p es es'
      → In x es
      → (x' : TreeEntry) × In x' es' × LinkedTo R p x x'
  Pairs-In [] es' x h i = absurd i
  Pairs-In (e ∷ es) [] x h i = absurd h
  Pairs-In (e ∷ es) (e' ∷ es') x (l, h) (inl q) =
      (e', inl refl, subst (λ y. LinkedTo R p y e') (sym q) l)
  Pairs-In (e ∷ es) (e' ∷ es') x (l, h) (inr i) =
      let (x', i', l') = Pairs-In es es' x h i in (x', inr i', l')

  pub Pairs-In_inv :
      (es es' : List TreeEntry) (x' : TreeEntry)
      → Pairs R p es es'
      → In x' es'
      → (x : TreeEntry) × In x es × LinkedTo R p x x'
  Pairs-In_inv es [] x' h i = absurd i
  Pairs-In_inv [] (e' ∷ es') x' h i = absurd h
  Pairs-In_inv (e ∷ es) (e' ∷ es') x' (l, h) (inl q) =
      (e, inl refl, subst (LinkedTo R p e) (sym q) l)
  Pairs-In_inv (e ∷ es) (e' ∷ es') x' (l, h) (inr i) =
      let (x, i', l') = Pairs-In_inv es es' x' h i in (x, inr i', l')

-- The tree with the hash `r` stands for the path `p`, down to `f` names below.
abbrev pub StandsFor : (ℕ → Option (List TreeEntry)) → Trees → ℕ → ℕ → List Name → Type 0
StandsFor get t zero r p = ⊥
StandsFor get t (suc f) r p =
    (es : List TreeEntry) × (es' : List TreeEntry) × (t p ≡ some es)
    × (get r ≡ some es')
    × Pairs (StandsFor get t f) p (sort_entries es) es'

-- What was stored stays.
abbrev pub Extends : (ℕ → Option (List TreeEntry)) → (ℕ → Option (List TreeEntry)) → Type 0
Extends g g' = (k : ℕ) (ts : List TreeEntry) → g k ≡ some ts → g' k ≡ some ts

pub StandsFor-Extends :
    (g g' : ℕ → Option (List TreeEntry)) (t : Trees)
    → Extends g g'
    → (f r : ℕ) (p : List Name) → StandsFor g t f r p
    → StandsFor g' t f r p
StandsFor-Extends g g' t x zero r p h = absurd h
StandsFor-Extends g g' t x (suc f) r p (es, es', e, e', h) = (
  es,
  es',
  e,
  x r es' e',
  Pairs-map (StandsFor g t f) (StandsFor g' t f) p (StandsFor-Extends g g' t x f) (sort_entries es)
      es' h,
)

-- A storer that stores every tree it is given, and gives it back.
pub record Stores {S : Type 0} (set_tree : List TreeEntry → Action S ℕ)
    (tree : S → ℕ → Option (List TreeEntry)) : Type 0 where
  pub stored :
      (es : List TreeEntry) (s : S)
      → (s' : S) × (h : ℕ) × (set_tree es s ≡ (s', ok h))
        × (tree s' h ≡ some es)
        × Extends (tree s) (tree s')
