-- ===== src/MysqlStorage/Memory.antt =====
-- A database in memory: a list of rows whose keys are unique, so that the storage can be run.
use test_perf.Prelude.{
  ℕ, suc, ◌+◌, ◌<◌, ◌≡◌, refl, sym, ap, Bool, true, false, not, Option, none, some, List, [], ◌∷◌,
  ◌++◌, Bool-cases, inl, inr, arith, ==_iff,
}
use test_perf.FilePath.{same_path}
use test_perf.FilePath.Same.{same_path_iff}
use test_perf.MysqlStorage.{FileDb, Db, path_is, id_is}
use test_perf.MysqlStorage.Table.{keep, change, IsUnique, IsTable, keep-keep}

pub cons_ne : {r : FileDb} {rs : List FileDb} → r ∷ rs ≡ [] → ⊥
cons_ne h = cc

abbrev pub Rows : Type 0
Rows = (rs : List FileDb) × IsUnique rs

abbrev empty? : (rs : List FileDb) → Dec (rs ≡ [])
empty? [] = yes refl
empty? (r ∷ rs) = no cons_ne

abbrev unique? : (rs : List FileDb) → Dec (IsUnique rs)
unique? [] = yes tt
unique? (r ∷ rs) = elim (empty? (keep (path_is r.path) rs)) [
  | no n ↦ no (λ u. n u.0)
  | yes a ↦ elim (empty? (keep (id_is r.id) rs)) [
    | no n ↦ no (λ u. n u.1)
    | yes b ↦ elim (unique? rs) [ no n ↦ no (λ u. n u.2) | yes u ↦ yes (a, b, u) ]
  ]
]

abbrev checked : (rs : List FileDb) → Dec (IsUnique rs) → Option Rows
checked rs (yes u) = some (rs, u)
checked rs (no n) = none

pub checked_lem :
    (rs : List FileDb) (d : Dec (IsUnique rs))
    → IsUnique rs
    → (s : Rows) × (checked rs d ≡ some s) × (s.0 ≡ rs)
checked_lem rs (yes u) v = ((rs, u), refl, refl)
checked_lem rs (no n) v = absurd (n v)

pub checked_rows :
    (rs : List FileDb) (d : Dec (IsUnique rs)) (s : Rows) → checked rs d ≡ some s → s.0 ≡ rs
checked_rows rs (yes u) s h = let e : s ≡ (rs, u) = cc (h) in ap (λ (x : Rows). x.0) e
checked_rows rs (no n) s h = cc (h)

pub IsUnique-keep : (q : FileDb → Bool) (rs : List FileDb) → IsUnique rs → IsUnique (keep q rs)
IsUnique-keep q [] u = tt
IsUnique-keep q (r ∷ rs) (a, b, u) = elim (Bool-cases (q r)) [
  | inl e ↦ rw e (keep-keep _ q rs a, keep-keep _ q rs b, IsUnique-keep q rs u)
  | inr e ↦ rw e (IsUnique-keep q rs u)
]

-- At least every id.
abbrev total : List FileDb → ℕ
total [] = 0
total (r ∷ rs) = r.id + total rs

pub keep_id-total : (rs : List FileDb) (i : ℕ) → total rs < i → keep (id_is i) rs ≡ []
keep_id-total [] i h = refl
keep_id-total (r ∷ rs) i h =
    let e : id_is i r ≡ false = ground (arith, ==_iff r.id i) in
    rw e (keep_id-total rs i (omega arith))

keep-append_none :
    (p : FileDb → Bool) (rs : List FileDb) (r : FileDb)
    → keep p rs ≡ []
    → p r ≡ false
    → keep p (rs ++ r ∷ []) ≡ []
keep-append_none p [] r h e = rw e refl
keep-append_none p (x ∷ rs) r h e = elim (Bool-cases (p x)) [
  | inl f ↦ absurd (cons_ne (rw f at h))
  | inr f ↦ rw f (keep-append_none p rs r (rw f at h) e)
]

head_ne :
    (p : FileDb → Bool) (x : FileDb) (rs : List FileDb)
    → keep p (x ∷ rs) ≡ []
    → (p x ≡ false) × (keep p rs ≡ [])
head_ne p x rs h = elim (Bool-cases (p x)) [
  | inl f ↦ absurd (cons_ne (rw f at h))
  | inr f ↦ (f, rw f at h)
]

pub IsUnique-append :
    (rs : List FileDb) (r : FileDb)
    → IsUnique rs
    → keep (path_is r.path) rs ≡ []
    → keep (id_is r.id) rs ≡ []
    → IsUnique (rs ++ r ∷ [])
IsUnique-append [] r u p i = (refl, refl, tt)
IsUnique-append (x ∷ rs) r (a, b, u) p i =
    let (px, ps) = head_ne (path_is r.path) x rs p in
    let (ix, is) = head_ne (id_is r.id) x rs i in
    (
      keep-append_none (path_is x.path) rs r a (path_ne px),
      keep-append_none (id_is x.id) rs r b (ground (arith, ==_iff x.id r.id, ==_iff r.id x.id)),
      IsUnique-append rs r u ps is,
    )
  where
    path_ne : same_path x.path r.path ≡ false → same_path r.path x.path ≡ false
    path_ne e = elim (Bool-cases (same_path r.path x.path)) [
      | inl f ↦
          let g = (same_path_iff x.path r.path).1 (sym ((same_path_iff r.path x.path).0 f)) in
          cc (e, g)
      | inr f ↦ f
    ]

abbrev inserted :
    (s : Rows) (r : FileDb) → Dec (keep (path_is r.path) s.0 ≡ []) → Option (Rows × Option ℕ)
inserted s r (no n) = none
inserted s r (yes p) = some (
  (
    s.0 ++ record r { id = suc (total s.0) } ∷ [],
    IsUnique-append s.0 (record r { id = suc (total s.0) }) s.1 p
        (keep_id-total s.0 (suc (total s.0)) (omega arith)),
  ),
  some (suc (total s.0)),
)

abbrev pub memory : Db Rows
memory = record {
  prepare = λ s. true;
  select = λ s p. some (keep p s.0);
  insert = λ s r. inserted s r (empty? (keep (path_is r.path) s.0));
  update = λ s p f. checked (change p f s.0) (unique? (change p f s.0));
  delete = λ s p. some (keep (λ r. not (p r)) s.0, IsUnique-keep (λ r. not (p r)) s.0 s.1);
  commit = λ s t. some t;
}

pub inserted_lem :
    (s : Rows) (r : FileDb) (d : Dec (keep (path_is r.path) s.0 ≡ []))
    → keep (path_is r.path) s.0 ≡ []
    → (s' : Rows) × (i : ℕ) × (inserted s r d ≡ some (s', some (suc i)))
      × (s'.0 ≡ s.0 ++ record r { id = suc i } ∷ [])
      × (keep (id_is (suc i)) s.0 ≡ [])
inserted_lem s r (no n) p = absurd (n p)
inserted_lem s r (yes q) p =
    (_, total s.0, refl, refl, keep_id-total s.0 (suc (total s.0)) (omega arith))

-- It is a table.
unfoldable pub memory-IsTable : IsTable memory
memory-IsTable = record {
  rows = λ s. s.0;
  prepare_eq = λ s. refl;
  select_eq = λ s p. refl;
  update_eq = λ s p f u. checked_lem (change p f s.0) (unique? (change p f s.0)) u;
  update_rows = λ s s' p f h. checked_rows (change p f s.0) (unique? (change p f s.0)) s' h;
  delete_eq = λ s p. (_, refl, refl);
  insert_eq = λ s r p. inserted_lem s r (empty? (keep (path_is r.path) s.0)) p;
  unique = λ s. s.1;
  commit_eq = λ s t. refl;
}
