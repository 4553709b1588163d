-- ===== src/TreeBuild/Order.antt =====
-- The order of the entries in the trees that `BuildTree` stores.
use mathlib.Core.Path.{subst}
use test_perf.Prelude.{
  Bool, ℕ, zero, suc, ◌<◌, ◌≡◌, ◌≢◌, ◌==◌, ltb, refl, sym, List, [], ◌∷◌, ◌++◌, map, true, false,
  Bool-cases, inl, inr, if◌then◌else◌, arith,
}
use test_perf.Result.{out_of_fuel, or_panic}
use test_perf.Action.{Action, ◌>>=◌, pure}
use test_perf.Action.Ensures.{Ensures, Ensures-bind, Ensures-pure, Ensures-lift}
use test_perf.FilePath.{Name}
use test_perf.TreeBuild.{
  IndexEntry, TreeEntry, Trees, path_join, name_lt, sort_name, less_entry, insert_entry,
  sort_entries, has_hash, copy_entries, copy_tree, depth, commit_index, build_tree, root_only,
}

-- No byte string is smaller than the one before, and the smaller of two is the one that ends first or
-- has the smaller byte where they differ first.
pub data Precedes : Name → Name → Type 0 where
  ends : (n : Name) → Precedes [] n
  smaller : (a b : ℕ) (m n : Name) → a < b → Precedes (a ∷ m) (b ∷ n)
  same : (a : ℕ) (m n : Name) → Precedes m n → Precedes (a ∷ m) (a ∷ n)

-- The name by which an entry is sorted: that of a directory has a slash behind.
pub data SortsAs : TreeEntry → Name → Type 0 where
  directory :
      (n : Name) (h : ℕ) → SortsAs (record { name = n; mode = 16384; hash = h }) (n ++ 47 ∷ [])
  other : (n : Name) (m h : ℕ) → m ≢ 16384 → SortsAs (record { name = n; mode = m; hash = h }) n

abbrev pub InOrder : TreeEntry → TreeEntry → Type 0
InOrder d e = (m n : Name) → SortsAs d m → SortsAs e n → Precedes m n

abbrev pub Ascending : List TreeEntry → Type 0
Ascending [] = Unit
Ascending (d ∷ []) = Unit
Ascending (d ∷ e ∷ es) = InOrder d e × Ascending (e ∷ es)

abbrev InOrderNames : List Name → Type 0
InOrderNames [] = Unit
InOrderNames (m ∷ []) = Unit
InOrderNames (m ∷ n ∷ ns) = (name_lt n m ≡ false) × InOrderNames (n ∷ ns)

name_lt-Precedes : (m n : Name) → name_lt n m ≡ false → Precedes m n
unfolding name_lt
name_lt-Precedes [] n h = ends n
name_lt-Precedes (a ∷ m) [] h = cc
name_lt-Precedes (a ∷ m) (b ∷ n) h = elim (Bool-cases (ltb a b)) [
  | inl e ↦ smaller a b m n (ground arith)
  | inr e ↦
      let q : b ≡ a = ground arith in
      let k : name_lt n m ≡ false = ground arith in
      subst (λ x. Precedes (a ∷ m) (x ∷ n)) (sym q) (same a m n (name_lt-Precedes m n k))
]

sort_name-SortsAs : (e : TreeEntry) (n : Name) → SortsAs e n → sort_name e ≡ n
unfolding sort_name
sort_name-SortsAs _ _ (directory n h) = refl
sort_name-SortsAs _ _ (other n m h d) = let e : (m == 16384) ≡ false = ground arith in rw e refl

InOrderNames-Ascending : (es : List TreeEntry) → InOrderNames (map sort_name es) → Ascending es
InOrderNames-Ascending [] h = tt
InOrderNames-Ascending (d ∷ []) h = tt
InOrderNames-Ascending (d ∷ e ∷ es) (h, k) = (
  λ m n p q.
      subst (λ x. Precedes x n) (sort_name-SortsAs d m p)
        (subst (Precedes (sort_name d)) (sort_name-SortsAs e n q)
          (name_lt-Precedes (sort_name d) (sort_name e) h)),
  InOrderNames-Ascending (e ∷ es) k,
)

name_lt_asymm : (m n : Name) → name_lt m n ≡ true → name_lt n m ≡ false
unfolding name_lt
name_lt_asymm [] [] h = cc
name_lt_asymm (a ∷ m) [] h = cc
name_lt_asymm [] (b ∷ n) h = refl
name_lt_asymm (a ∷ m) (b ∷ n) h = ground (arith, name_lt_asymm m n)

less_entry-false :
    (a b : TreeEntry) → less_entry a b ≡ false → name_lt (sort_name a) (sort_name b) ≡ false
unfolding less_entry
less_entry-false a b h = h

less_asymm : (a b : TreeEntry) → less_entry a b ≡ true → name_lt (sort_name b) (sort_name a) ≡ false
unfolding less_entry
less_asymm a b h = name_lt_asymm (sort_name a) (sort_name b) h

insert_entry-before :
    (a b : TreeEntry) (bs : List TreeEntry)
    → less_entry b a ≡ false
    → insert_entry a (b ∷ bs) ≡ a ∷ b ∷ bs
unfolding insert_entry
insert_entry-before a b bs h = rw h refl

insert_entry-behind :
    (a b : TreeEntry) (bs : List TreeEntry)
    → less_entry b a ≡ true
    → insert_entry a (b ∷ bs) ≡ b ∷ insert_entry a bs
unfolding insert_entry
insert_entry-behind a b bs h = rw h refl

abbrev Sorted : List TreeEntry → Type 0
Sorted es = InOrderNames (map sort_name es)

Sorted-behind :
    (a b : TreeEntry) (bs : List TreeEntry)
    → less_entry b a ≡ true
    → Sorted (b ∷ bs)
    → Sorted (insert_entry a bs)
    → Sorted (b ∷ insert_entry a bs)
unfolding insert_entry
Sorted-behind a b [] k h i = (less_asymm b a k, tt)
Sorted-behind a b (c ∷ bs) k h i = elim (Bool-cases (less_entry c a)) [
  | inr l ↦
      let q = insert_entry-before a c bs l in
      subst (λ es. Sorted (b ∷ es)) (sym q) (less_asymm b a k, subst Sorted q i)
  | inl l ↦
      let q = insert_entry-behind a c bs l in
      subst (λ es. Sorted (b ∷ es)) (sym q) (h.0, subst Sorted q i)
]

Sorted-tail : (b : TreeEntry) (bs : List TreeEntry) → Sorted (b ∷ bs) → Sorted bs
Sorted-tail b [] h = tt
Sorted-tail b (c ∷ bs) h = h.1

insert_entry-Sorted : (a : TreeEntry) (bs : List TreeEntry) → Sorted bs → Sorted (insert_entry a bs)
unfolding insert_entry
insert_entry-Sorted a [] h = tt
insert_entry-Sorted a (b ∷ bs) h = elim (Bool-cases (less_entry b a)) [
  | inr k ↦ subst Sorted (sym (insert_entry-before a b bs k)) (less_entry-false b a k, h)
  | inl k ↦
      subst Sorted (sym (insert_entry-behind a b bs k))
        (Sorted-behind a b bs k h (insert_entry-Sorted a bs (Sorted-tail b bs h)))
]

sort_entries-Sorted : (es : List TreeEntry) → Sorted (sort_entries es)
unfolding sort_entries
sort_entries-Sorted [] = tt
sort_entries-Sorted (a ∷ es) = insert_entry-Sorted a (sort_entries es) (sort_entries-Sorted es)

sort_name-hash : (e : TreeEntry) (h : ℕ) → sort_name (record e { hash = h }) ≡ sort_name e
unfolding sort_name
sort_name-hash e h = refl

abbrev Any : {A : Type 0} → A → Type 0
Any a = Unit

-- The copies have the names of the entries.
abbrev SameNames : List TreeEntry → List TreeEntry → Type 0
SameNames es es' = map sort_name es' ≡ map sort_name es

module _ {S : Type 0} (Q : S → Type 0) where
  copy_entries-Ensures :
      (copy : List Name → List TreeEntry → Action S ℕ) (t : Trees) (p : List Name)
      → ((q : List Name) (es : List TreeEntry) → Ensures Q Any (copy q es))
      → (es : List TreeEntry) → Ensures Q (SameNames es) (copy_entries copy t p es)
  unfolding copy_entries
  copy_entries-Ensures copy t p c [] = Ensures-pure Q (SameNames []) [] refl
  copy_entries-Ensures copy t p c (e ∷ es) =
      Ensures-bind Q (λ x. sort_name x ≡ sort_name e) (SameNames (e ∷ es)) _ _ (one (has_hash e))
        λ x q.
          Ensures-bind Q (SameNames es) (SameNames (e ∷ es)) _ _
            (copy_entries-Ensures copy t p c es)
            λ xs qs. Ensures-pure Q (SameNames (e ∷ es)) (x ∷ xs) (λ i. q i ∷ qs i)
    where
      one :
          (b : Bool)
          → Ensures Q
              (λ x. sort_name x ≡ sort_name e)
              (if b then pure e else (do
                sub ← (λ s. (s, or_panic (t (path_join p e.name))))
                h ← copy (path_join p e.name) sub
                pure (record e { hash = h })))
      one true = Ensures-pure Q (λ x. sort_name x ≡ sort_name e) e refl
      one false =
          Ensures-bind Q Any (λ x. sort_name x ≡ sort_name e) _ _
            (Ensures-lift Q Any (or_panic (t (path_join p e.name))) (λ a. tt))
            λ sub u.
              Ensures-bind Q Any (λ x. sort_name x ≡ sort_name e) _ _ (c (path_join p e.name) sub)
                λ h v.
                  Ensures-pure Q (λ x. sort_name x ≡ sort_name e) (record e { hash = h })
                    (sort_name-hash e h)

module _ {S : Type 0} (Q : S → Type 0) (set_tree : List TreeEntry → Action S ℕ)
    (keeps : (es : List TreeEntry) (s : S) → Q s → Ascending es → Q (set_tree es s).0) where
  set_tree-Ensures : (es : List TreeEntry) → Sorted es → Ensures Q Any (set_tree es)
  set_tree-Ensures es o = record {
    keeps = λ s q. keeps es s q (InOrderNames-Ascending es o);
    gives = λ s b h. tt;
  }

  copy_tree-Ensures :
      (fuel : ℕ) (t : Trees) (p : List Name) (es : List TreeEntry)
      → Ensures Q Any (copy_tree set_tree fuel t p es)
  unfolding copy_tree
  copy_tree-Ensures zero t p es = Ensures-lift Q Any out_of_fuel (λ a. tt)
  copy_tree-Ensures (suc fuel) t p es =
      Ensures-bind Q (SameNames (sort_entries es)) Any
        (copy_entries (copy_tree set_tree fuel t) t p (sort_entries es)) set_tree
        (copy_entries-Ensures Q (copy_tree set_tree fuel t) t p (copy_tree-Ensures fuel t)
          (sort_entries es))
        λ done q. set_tree-Ensures done (subst InOrderNames (sym q) (sort_entries-Sorted es))

  -- Whatever index it is called with, and whether it fails or not, `BuildTree` keeps each property of the
  -- storer that is kept when a tree is stored in which no entry's name, a directory's with a slash behind,
  -- is smaller byte by byte than the one before: it stores no other tree.
  pub build_tree-Ascending : (idx : List IndexEntry) (s : S) → Q s → Q (build_tree set_tree idx s).0
  unfolding build_tree
  build_tree-Ascending idx s q =
      (Ensures-bind Q (λ t. Unit) Any (λ s. (s, commit_index idx root_only)) _
          (Ensures-lift Q (λ t. Unit) (commit_index idx root_only) (λ a. tt))
          λ t u.
            Ensures-bind Q Any Any (λ s. (s, or_panic (t []))) _
              (Ensures-lift Q Any (or_panic (t [])) (λ a. tt))
              λ root v. copy_tree-Ensures (suc (depth idx)) t [] root).keeps
        s q
