-- ===== src/MysqlStorage/Table.antt =====
-- What the statements of the storage do, on a database whose state is the rows of the table.
use test_perf.Prelude.{
  ℕ, suc, ◌≡◌, refl, ap, Bool, true, not, some, List, [], ◌∷◌, ◌++◌, if◌then◌else◌, ==_iff,
  Bool-cases, inl, inr,
}
use test_perf.FilePath.{FilePath}
use test_perf.FilePath.Same.{same_path_iff}
use test_perf.MysqlStorage.{FileDb, Db, path_is, id_is}

abbrev pub keep : (FileDb → Bool) → List FileDb → List FileDb
keep p [] = []
keep p (r ∷ rs) = let rest = keep p rs in if p r then r ∷ rest else rest

abbrev pub change : (FileDb → Bool) → (FileDb → FileDb) → List FileDb → List FileDb
change p f [] = []
change p f (r ∷ rs) = (if p r then f r else r) ∷ change p f rs

-- `UNIQUE (path)` and the primary key.
abbrev pub IsUnique : List FileDb → Type 0
IsUnique [] = Unit
IsUnique (r ∷ rs) = (keep (path_is r.path) rs ≡ []) × (keep (id_is r.id) rs ≡ []) × IsUnique rs

-- A database that is up: its state is a table, and a statement that keeps the two keys unique does
-- what SQL says. `insert` gives the row an id that is not 0 and that no row has.
pub record IsTable {S : Type 0} (db : Db S) : Type 0 where
  pub rows : S → List FileDb
  pub prepare_eq : (s : S) → db.prepare s ≡ true
  pub select_eq : (s : S) (p : FileDb → Bool) → db.select s p ≡ some (keep p (rows s))
  pub update_eq :
      (s : S) (p : FileDb → Bool) (f : FileDb → FileDb)
      → IsUnique (change p f (rows s))
      → (s' : S) × (db.update s p f ≡ some s') × (rows s' ≡ change p f (rows s))
  pub update_rows :
      (s s' : S) (p : FileDb → Bool) (f : FileDb → FileDb)
      → db.update s p f ≡ some s'
      → rows s' ≡ change p f (rows s)
  pub delete_eq :
      (s : S) (p : FileDb → Bool)
      → (s' : S) × (db.delete s p ≡ some s') × (rows s' ≡ keep (λ r. not (p r)) (rows s))
  pub insert_eq :
      (s : S) (r : FileDb)
      → keep (path_is r.path) (rows s) ≡ []
      → (s' : S) × (i : ℕ) × (db.insert s r ≡ some (s', some (suc i)))
        × (rows s' ≡ rows s ++ record r { id = suc i } ∷ [])
        × (keep (id_is (suc i)) (rows s) ≡ [])
  pub unique : (s : S) → IsUnique (rows s)
  pub commit_eq : (s t : S) → db.commit s t ≡ some t

-- A change of rows that has no row to change.
pub change_none :
    (p : FileDb → Bool) (f : FileDb → FileDb) (rs : List FileDb)
    → keep p rs ≡ []
    → change p f rs ≡ rs
change_none p f [] h = refl
change_none p f (r ∷ rs) h = elim (Bool-cases (p r)) [
  | inl e ↦ absurd (clash (rw e at h))
  | inr e ↦ rw e (ap (◌∷◌ r) (change_none p f rs (rw e at h)))
]
  where
    clash : r ∷ keep p rs ≡ [] → ⊥
    clash h = cc

pub keep-keep-not : (p : FileDb → Bool) (rs : List FileDb) → keep p (keep (λ r. not (p r)) rs) ≡ []
keep-keep-not p [] = refl
keep-keep-not p (r ∷ rs) = elim (Bool-cases (p r)) [
  | inl e ↦ rw e (keep-keep-not p rs)
  | inr e ↦ rw (e, e) (keep-keep-not p rs)
]

-- What is true of no row of a table is true of none of a part of it.
pub keep-keep : (p q : FileDb → Bool) (rs : List FileDb) → keep p rs ≡ [] → keep p (keep q rs) ≡ []
keep-keep p q [] h = refl
keep-keep p q (r ∷ rs) h = elim (Bool-cases (p r)) [
  | inl e ↦ absurd (clash (rw e at h))
  | inr e ↦ elim (Bool-cases (q r)) [
    | inl f ↦ rw (f, e) (keep-keep p q rs (rw e at h))
    | inr f ↦ rw f (keep-keep p q rs (rw e at h))
  ]
]
  where
    clash : r ∷ keep p rs ≡ [] → ⊥
    clash h = cc

-- Of the rows with one path there is at most one, and it is the one with its id.
pub keep_path-one :
    (p : FilePath) (rs rest : List FileDb) (r : FileDb)
    → IsUnique rs
    → keep (path_is p) rs ≡ r ∷ rest
    → (rest ≡ []) × (keep (path_is p) (keep (λ x. not (id_is r.id x)) rs) ≡ [])
keep_path-one p [] rest r u h = cc
keep_path-one p (x ∷ rs) rest r (a, b, u) h = elim (Bool-cases (path_is p x)) [
  | inl e ↦
      let f : x ∷ keep (path_is p) rs ≡ r ∷ rest = rw e at h in
      let q : x.path ≡ p = (same_path_iff x.path p).0 e in
      let g : keep (path_is p) rs ≡ [] = rw q at a in here x rest f g
  | inr e ↦
      let (l, k) = keep_path-one p rs rest r u (rw e at h) in
      (l, elim (Bool-cases (id_is r.id x)) [ inl i ↦ rw i k | inr i ↦ rw (i, e) k ])
]
  where
    here :
        (x : FileDb) (rest : List FileDb)
        → x ∷ keep (path_is p) rs ≡ r ∷ rest
        → keep (path_is p) rs ≡ []
        → (rest ≡ []) × (keep (path_is p) (keep (λ x. not (id_is r.id x)) (x ∷ rs)) ≡ [])
    here x rest f g =
        let e : x ≡ r = cc (f) in
        let i : x.id ≡ r.id = ap (λ y. y.id) e in
        let t : id_is r.id x ≡ true = (==_iff x.id r.id).1 i in
        (cc (f, g), rw t (keep-keep (path_is p) (λ y. not (id_is r.id y)) rs g))

-- The rows with a path or an id after a change that keeps paths and ids.
pub keep-change :
    (p q : FileDb → Bool) (f : FileDb → FileDb) (rs : List FileDb)
    → ((r : FileDb) → p (f r) ≡ p r)
    → keep p (change q f rs) ≡ change q f (keep p rs)
keep-change p q f [] h = refl
keep-change p q f (r ∷ rs) h = elim (Bool-cases (q r)) [
  | inl e ↦ elim (Bool-cases (p r)) [
    | inl i ↦ rw (e, h r, i, e) (ap (◌∷◌ (f r)) (keep-change p q f rs h))
    | inr i ↦ rw (e, h r, i) (keep-change p q f rs h)
  ]
  | inr e ↦ elim (Bool-cases (p r)) [
    | inl i ↦ rw (e, i, e) (ap (◌∷◌ r) (keep-change p q f rs h))
    | inr i ↦ rw (e, i) (keep-change p q f rs h)
  ]
]
