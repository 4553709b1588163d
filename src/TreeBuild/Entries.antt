-- ===== src/TreeBuild/Entries.antt =====
-- The trees of the helper after the entries of the index.
use mathlib.Core.Path.{subst}
use test_perf.Prelude.{
  ℕ, ◌≡◌, ◌≢◌, refl, sym, ap, ◌∙◌, ◌⊎◌, inl, inr, none, some, List, [], ◌∷◌, ◌++◌, true, false,
  Bool-cases, Option-cases, length, length-append, arith, reverse, ◌==◌,
}
use test_perf.Result.{Result, ok, ◌>>=◌ as and_then}
use test_perf.FilePath.{Name, same_elems, slash, split_from}
use test_perf.FilePath.Same.{same_elems_iff}
use test_perf.TreeBuild.{
  IndexEntry, TreeEntry, Trees, dir_mode, parts, path_join, commit_parts, commit_index_entry,
  commit_index,
}
use test_perf.TreeBuild.Valid.{IsValid}
use test_perf.TreeBuild.Index.{Listed, Filed, dir_step, file_step}
use test_perf.TreeBuild.Walk.{Proper, All, In, Has, Has-Keeps, Keeps, path_join-Proper, snoc_append}

not_last :
    (full p : List Name) (n n' : Name) (ns : List Name)
    → full ≡ p ++ n ∷ n' ∷ ns
    → same_elems (p ++ n ∷ []) full ≡ false
not_last full p n n' ns h = elim (Bool-cases (same_elems (p ++ n ∷ []) full)) [
  | inr e ↦ e
  | inl e ↦
      let q : p ++ n ∷ [] ≡ p ++ n ∷ n' ∷ ns = (same_elems_iff (p ++ n ∷ []) full).0 e ∙ h in
      absurd (omega (arith, ap length q, length-append p (n ∷ []), length-append p (n ∷ n' ∷ ns)))
]

and_then-ok :
    {A B : Type 0} (m : Result A) (f : A → Result B) (a : A) → m ≡ ok a → and_then m f ≡ f a
and_then-ok m f a h = ap (λ x. and_then x f) h

module _ (e : IndexEntry) (d : e.mode ≢ dir_mode) (z : e.hash ≢ 0) where
  pub commit_parts-Filed :
      (ns : List Name) (n : Name) (t : Trees) (p : List Name) (es : List TreeEntry)
      → IsValid t
      → t p ≡ some es
      → All Proper (n ∷ ns)
      → parts e ≡ p ++ n ∷ ns
      → t (parts e) ≡ none
      → (t' : Trees) × (commit_parts e t p (n ∷ ns) ≡ ok t') × Filed t t' (parts e) e.mode e.hash
  unfolding commit_parts
  commit_parts-Filed [] n t p es v h (pn, ps) here new =
      let (t', eq, f) = file_step e t v p n es h pn here (ap t (sym here) ∙ new) d z in
      let j : path_join p n ≡ p ++ n ∷ [] = path_join-Proper p n (v.proper p es h) pn in
      (
        t',
        rw j (and_then-ok _ (λ t'. ok t') t' eq),
        subst (λ r. Filed t t' r e.mode e.hash) (sym here) f,
      )
  commit_parts-Filed (n' ∷ ns) n t p es v h (pn, ps) here new =
      let (t₁, eq, s) = dir_step e t v p n es h pn (not_last (parts e) p n n' ns here) in
      let (bs, k) = s.there in
      let next : parts e ≡ (p ++ n ∷ []) ++ n' ∷ ns = here ∙ sym (snoc_append p n (n' ∷ ns)) in
      let (t₂, eq₂, f) =
        commit_parts-Filed ns n' t₁ (p ++ n ∷ []) bs s.valid k ps next
          (elim (Option-cases (t₁ (parts e))) [
            | inl o ↦ o
            | inr (as', o) ↦ elim (s.trees (parts e) as' o) [
              | inl q ↦
                  let no = not_last (parts e) p n n' ns here in
                  let is : same_elems (p ++ n ∷ []) (parts e) ≡ true = (same_elems_iff _ _).1 q in
                  cc (no, is)
              | inr (cs, o') ↦ cc (new, o')
            ]
          ]) in
      let j : path_join p n ≡ p ++ n ∷ [] = path_join-Proper p n (v.proper p es h) pn in
      (
        t₂,
        rw j (and_then-ok _ (λ t'. commit_parts e t' (p ++ n ∷ []) (n' ∷ ns)) t₁ eq ∙ eq₂),
        record {
          valid = f.valid;
          keeps = λ q as' o.
              let (x₁, o₁, sub₁) = s.keeps q as' o in
              let (x₂, o₂, sub₂) = f.keeps q x₁ o₁ in (x₂, o₂, λ x i. sub₂ x (sub₁ x i));
          there = f.there;
          back = λ r m k i. elim (f.back r m k i) [ inl b ↦ inl (s.back r m k b) | inr b ↦ inr b ];
          trees = λ q as' o. elim (f.trees q as' o) [
            | inr b ↦ inr b
            | inl (cs, o') ↦ elim (s.trees q cs o') [
              | inr b ↦ inl b
              | inl b ↦ inr (n', ns, subst (λ r. parts e ≡ r ++ n' ∷ ns) b next)
            ]
          ];
        },
      )

split_from-cons :
    (n : Name) (bs : List ℕ) → (m : Name) × (ms : List Name) × (split_from n bs ≡ m ∷ ms)
split_from-cons n [] = (reverse n, [], refl)
split_from-cons n (b ∷ bs) = elim (Bool-cases (b == slash)) [
  | inl e ↦ (reverse n, split_from [] bs, rw e refl)
  | inr e ↦ let (m, ms, h) = split_from-cons (b ∷ n) bs in (m, ms, rw e h)
]

-- An index whose names are clean paths, none of them a directory of another, of files that have a hash.
pub record IsTidy (idx : List IndexEntry) : Type 0 where
  pub clean : (e : IndexEntry) → In e idx → All Proper (parts e)
  pub file : (e : IndexEntry) → In e idx → (e.mode ≢ dir_mode) × (e.hash ≢ 0)
  pub apart :
      (d e : IndexEntry) (x : Name) (r : List Name)
      → In d idx
      → In e idx
      → parts d ≢ parts e ++ x ∷ r

Has_at :
    (t : Trees) {q r : List Name} {m m' k k' : ℕ}
    → q ≡ r
    → m ≡ m'
    → k ≡ k'
    → Has t [] q m k
    → Has t [] r m' k'
Has_at t j a b h = rw (← j, ← a, ← b) h

-- Every tree but the root is that of a directory in a name.
abbrev pub Inside : List IndexEntry → Trees → Type 0
Inside all t =
    (q : List Name) (es : List TreeEntry)
    → t q ≡ some es
    → (q ≡ [])
      ⊎ ((d : IndexEntry) × (x : Name) × (r : List Name) × In d all × (parts d ≡ q ++ x ∷ r))

pub record Indexed (all idx : List IndexEntry) (t t' : Trees) : Type 0 where
  pub valid : IsValid t'
  pub inside : Inside all t'
  pub keeps : Keeps t t'
  pub listed : (r : List Name) (m k : ℕ) → Listed r m k idx → Has t' [] r m k
  pub back : (r : List Name) (m k : ℕ) → Has t' [] r m k → Has t [] r m k ⊎ Listed r m k idx

module _ (all : List IndexEntry) (tidy : IsTidy all) where
  not_a_directory : (e : IndexEntry) (t : Trees) → In e all → Inside all t → t (parts e) ≡ none
  not_a_directory e t i ins = elim (Option-cases (t (parts e))) [
    | inl h ↦ h
    | inr (es, h) ↦ elim (ins (parts e) es h) [
      | inl z ↦ let (m, ms, k) = split_from-cons [] e.name in cc (z, k)
      | inr (d, x, r, j, k) ↦ absurd (tidy.apart d e x r j i k)
    ]
  ]

  entry_Filed :
      (e : IndexEntry) (t : Trees)
      → In e all
      → IsValid t
      → Inside all t
      → (t' : Trees) × (commit_index_entry e t ≡ ok t') × Filed t t' (parts e) e.mode e.hash
  unfolding commit_index_entry
  entry_Filed e t i v ins =
      let (m, ms, k) = split_from-cons [] e.name in
      let (d, z) = tidy.file e i in
      let (es, h) = v.root in
      let (t', eq, f) =
        commit_parts-Filed e d z ms m t [] es v h (subst (All Proper) k (tidy.clean e i)) k
          (not_a_directory e t i ins) in
      (t', rw k eq, f)

  pub commit_index-Indexed :
      (idx : List IndexEntry) (t : Trees)
      → ((e : IndexEntry) → In e idx → In e all)
      → IsValid t
      → Inside all t
      → (t' : Trees) × (commit_index idx t ≡ ok t') × Indexed all idx t t'
  unfolding commit_index
  commit_index-Indexed [] t sub v ins = (
    t,
    refl,
    record {
      valid = v;
      inside = ins;
      keeps = λ q as' f. (as', f, λ x i. i);
      listed = λ r m k (e, i, _, _, _). absurd i;
      back = λ r m k h. inl h;
    },
  )
  commit_index-Indexed (e ∷ idx) t sub v ins =
      let (t₁, eq, f) = entry_Filed e t (sub e (inl refl)) v ins in
      let ins₁ : Inside all t₁ = λ q es h. elim (f.trees q es h) [
        | inl (as', o) ↦ ins q as' o
        | inr (x, r, o) ↦ inr (e, x, r, sub e (inl refl), o)
      ] in
      let (t₂, eq₂, g) = commit_index-Indexed idx t₁ (λ d i. sub d (inr i)) f.valid ins₁ in
      (
        t₂,
        and_then-ok _ (λ t'. commit_index idx t') t₁ eq ∙ eq₂,
        record {
          valid = g.valid;
          inside = g.inside;
          keeps = λ q as' o.
              let (x₁, o₁, sub₁) = f.keeps q as' o in
              let (x₂, o₂, sub₂) = g.keeps q x₁ o₁ in (x₂, o₂, λ x i. sub₂ x (sub₁ x i));
          listed = λ r m k (d, i, j, a, b). elim i [
            | inr i' ↦ g.listed r m k (d, i', j, a, b)
            | inl q ↦
                let here : Has t₂ [] (parts e) e.mode e.hash =
                  Has-Keeps t₁ t₂ g.keeps [] (parts e) e.mode e.hash f.there in
                Has_at t₂ j a b
                  (subst (λ (d : IndexEntry). Has t₂ [] (parts d) d.mode d.hash) (sym q) here)
          ];
          back = λ r m k h. elim (g.back r m k h) [
            | inr (d, i, j, a, c) ↦ inr (d, inr i, j, a, c)
            | inl b ↦ elim (f.back r m k b) [
              | inl b' ↦ inl b'
              | inr (j, a, c) ↦ inr (e, inl refl, j, a, c)
            ]
          ];
        },
      )
