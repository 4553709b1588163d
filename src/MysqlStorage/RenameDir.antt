-- ===== src/MysqlStorage/RenameDir.antt =====
-- The rows that `RenameFile` of a directory does not reach.
use test_perf.Prelude.{
  ℕ, ◌≡◌, ◌≢◌, ◌∙◌, refl, sym, ap, true, false, none, some, Option-cases, List, [], ◌∷◌, map, ◌==◌,
  Bool-cases, inl, inr, arith, ==_iff,
}
use test_perf.Result.{ok, panic, storage_failed}
use test_perf.Action.{Action, changes, >>=-ok}
use test_perf.FilePath.{FilePath, clean, base, join}
use test_perf.MysqlFile.{File}
use test_perf.MysqlStorage.{
  FileDb, Db, is_dir, id_is, path_is, parent_is, file_db_to_file, children_by_file_id,
  move_children, rename_dir, rename_file,
}
use test_perf.MysqlStorage.Table.{keep, change, IsTable, change_none, keep-change}
use test_perf.MysqlStorage.Remove.{get_file_lem, rows_where_lem}
use test_perf.MysqlStorage.Rename.{keep_comm}

-- No file of the list has the id.
abbrev NoId : ℕ → List File → Type 0
NoId i [] = Unit
NoId i (c ∷ cs) = ((c.id == i) ≡ false) × NoId i cs

NoId-map : (i : ℕ) (rs : List FileDb) → keep (id_is i) rs ≡ [] → NoId i (map file_db_to_file rs)
unfolding file_db_to_file
NoId-map i [] h = tt
NoId-map i (r ∷ rs) h = elim (Bool-cases (id_is i r)) [
  | inl e ↦ absurd (clash (rw e at h))
  | inr e ↦ (e, NoId-map i rs (rw e at h))
]
  where
    clash : r ∷ keep (id_is i) rs ≡ [] → ⊥
    clash h = cc

keep_id_ne :
    (i j : ℕ) (rs : List FileDb) → (j == i) ≡ false → keep (id_is j) (keep (id_is i) rs) ≡ []
keep_id_ne i j [] h = refl
keep_id_ne i j (r ∷ rs) h = elim (Bool-cases (id_is i r)) [
  | inl e ↦ let f : id_is j r ≡ false = ground (arith) in rw (e, f) (keep_id_ne i j rs h)
  | inr e ↦ rw e (keep_id_ne i j rs h)
]

-- A change of the row with the id `j` leaves the row with another id.
keep-change_ne :
    (i j : ℕ) (f : FileDb → FileDb) (rs : List FileDb)
    → (j == i) ≡ false
    → ((r : FileDb) → id_is i (f r) ≡ id_is i r)
    → keep (id_is i) (change (id_is j) f rs) ≡ keep (id_is i) rs
keep-change_ne i j f rs h k =
    keep-change (id_is i) (id_is j) f rs k
    ∙ change_none (id_is j) f (keep (id_is i) rs) (keep_id_ne i j rs h)

-- The new row of the directory.
abbrev renamed : FilePath → FileDb → FileDb
renamed to r = record r { name = base to; path = to }

module _ {S : Type 0} (db : Db S) (t : IsTable db) where
  move_children_lem :
      (to : FilePath) (i : ℕ) (cs : List File) (s s' : S)
      → NoId i cs
      → move_children db to cs s ≡ some s'
      → keep (id_is i) (t.rows s') ≡ keep (id_is i) (t.rows s)
  unfolding move_children
  move_children_lem to i [] s s' n h = let e : s ≡ s' = cc (h) in rw e refl
  move_children_lem to i (c ∷ cs) s s' (n, ns) h =
      elim (Option-cases
        (db.update s (id_is c.id) (λ r. record r { path = join to (c.file_name ∷ []) }))) [
          | inl e ↦ cc (e, h)
          | inr (s₁, e) ↦
              move_children_lem to i cs s₁ s' ns (cc (e, h))
              ∙ ap (keep (id_is i)) (
                  t.update_rows s s₁ (id_is c.id)
                    (λ r. record r { path = join to (c.file_name ∷ []) }) e)
              ∙ keep-change_ne i c.id (λ r. record r { path = join to (c.file_name ∷ []) })
                  (t.rows s) n (λ r. refl)
        ]

  -- The transaction of the rename of a directory.
  rename_rest : File → FilePath → List File → Action S (Unit {0})
  rename_rest f to cs s = elim (db.update s (id_is f.id) (renamed to)) [
    | none ↦ (s, panic)
    | some s₁ ↦ elim (move_children db to cs s₁) [
      | none ↦ (s, panic)
      | some s₂ ↦ changes storage_failed (λ s. db.commit s s₂) s
    ]
  ]

  children_lem :
      (s : S) (i : ℕ)
      → children_by_file_id db i s ≡ (s, ok (map file_db_to_file (keep (parent_is i) (t.rows s))))
  unfolding children_by_file_id
  children_lem s i = cc (rows_where_lem db t s (parent_is i))

  children_of_dir :
      (d : FileDb) (s : S)
      → children_by_file_id db (file_db_to_file d).id s
        ≡ (s, ok (map file_db_to_file (keep (parent_is d.id) (t.rows s))))
  unfolding file_db_to_file
  children_of_dir d s = children_lem s d.id

  rename_dir_rest :
      (to : FilePath) (d : FileDb) (s : S)
      → rename_dir db (file_db_to_file d) to s
        ≡ rename_rest
            (file_db_to_file d)
            to
            (map file_db_to_file (keep (parent_is d.id) (t.rows s)))
            s
  unfolding rename_dir rename_rest
  rename_dir_rest to d s =
      >>=-ok (children_by_file_id db (file_db_to_file d).id) (rename_rest (file_db_to_file d) to) s
        s (map file_db_to_file (keep (parent_is d.id) (t.rows s))) (children_of_dir d s)

  rest_none :
      (to : FilePath) (d : FileDb) (cs : List File) (s : S)
      → db.update s (id_is d.id) (renamed to) ≡ none
      → rename_rest (file_db_to_file d) to cs s ≡ (s, panic)
  unfolding rename_rest file_db_to_file
  rest_none to d cs s e = cc (e)

  rest_stuck :
      (to : FilePath) (d : FileDb) (cs : List File) (s s₁ : S)
      → db.update s (id_is d.id) (renamed to) ≡ some s₁
      → move_children db to cs s₁ ≡ none
      → rename_rest (file_db_to_file d) to cs s ≡ (s, panic)
  unfolding rename_rest file_db_to_file
  rest_stuck to d cs s s₁ e f = cc (e, f)

  rest_some :
      (to : FilePath) (d : FileDb) (cs : List File) (s s₁ s₂ : S)
      → db.update s (id_is d.id) (renamed to) ≡ some s₁
      → move_children db to cs s₁ ≡ some s₂
      → rename_rest (file_db_to_file d) to cs s ≡ (s₂, ok tt)
  unfolding rename_rest file_db_to_file
  rest_some to d cs s s₁ s₂ e f = cc (e, f, t.commit_eq s s₂)

  -- The rename of the row of a directory, with its children.
  rename_dir_lem :
      (to : FilePath) (d : FileDb) (i : ℕ) (s s' : S)
      → (d.id == i) ≡ false
      → keep (id_is i) (keep (parent_is d.id) (t.rows s)) ≡ []
      → rename_dir db (file_db_to_file d) to s ≡ (s', ok tt)
      → keep (id_is i) (t.rows s') ≡ keep (id_is i) (t.rows s)
  rename_dir_lem to d i s s' ne none_of h =
      elim (Option-cases (db.update s (id_is d.id) (renamed to))) [
        | inl e ↦ cc (
          rename_dir_rest to d s,
          rest_none to d (map file_db_to_file (keep (parent_is d.id) (t.rows s))) s e,
          h,
        )
        | inr (s₁, e) ↦
            elim (Option-cases
              (move_children db to (map file_db_to_file (keep (parent_is d.id) (t.rows s))) s₁)) [
                | inl f ↦ cc (
                  rename_dir_rest to d s,
                  rest_stuck to d (map file_db_to_file (keep (parent_is d.id) (t.rows s))) s s₁ e f,
                  h,
                )
                | inr (s₂, f) ↦
                    let q : s₂ ≡ s' = cc (
                      rename_dir_rest to d s,
                      rest_some to d (map file_db_to_file (keep (parent_is d.id) (t.rows s))) s s₁
                          s₂ e f,
                      h,
                    ) in
                    ap (λ x. keep (id_is i) (t.rows x)) (sym q)
                    ∙ move_children_lem to i
                        (map file_db_to_file (keep (parent_is d.id) (t.rows s))) s₁ s₂
                        (NoId-map i (keep (parent_is d.id) (t.rows s)) none_of) f
                    ∙ ap (keep (id_is i)) (t.update_rows s s₁ (id_is d.id) (renamed to) e)
                    ∙ keep-change_ne i d.id (renamed to) (t.rows s) ne (λ r. refl)
              ]
      ]

  rename_file_dir :
      (fuel : ℕ) (s : S) (from to : FilePath) (d : FileDb) (rest : List FileDb)
      → clean from ≡ from
      → keep (path_is (clean from)) (t.rows s) ≡ d ∷ rest
      → is_dir d.mode ≡ true
      → rename_file db fuel from to s ≡ rename_dir db (file_db_to_file d) (clean to) s
  unfolding rename_file file_db_to_file
  rename_file_dir fuel s from to d rest c h k = cc (get_file_lem db t s (clean from), c, h, k)

  -- A successful rename of a directory leaves every row that is neither the directory nor one of its
  -- children as it is, also a row whose path is below the directory's.
  pub rename_file-below :
      (fuel : ℕ) (s s' : S) (from to : FilePath) (d g : FileDb) (rest : List FileDb)
      → clean from ≡ from
      → keep (path_is (clean from)) (t.rows s) ≡ d ∷ rest
      → is_dir d.mode ≡ true
      → keep (id_is g.id) (t.rows s) ≡ g ∷ []
      → d.id ≢ g.id
      → parent_is d.id g ≡ false
      → rename_file db fuel from to s ≡ (s', ok tt)
      → keep (id_is g.id) (t.rows s') ≡ g ∷ []
  rename_file-below fuel s s' from to d g rest c h k hg ne np run =
      let ne' : (d.id == g.id) ≡ false = ground (arith, ==_iff d.id g.id) in
      let gone : keep (parent_is d.id) (g ∷ []) ≡ [] = rw np refl in
      let none_of : keep (id_is g.id) (keep (parent_is d.id) (t.rows s)) ≡ [] =
        keep_comm (id_is g.id) (parent_is d.id) (t.rows s) ∙ ap (keep (parent_is d.id)) hg ∙ gone in
      rename_dir_lem (clean to) d g.id s s' ne' none_of
        (sym (rename_file_dir fuel s from to d rest c h k) ∙ run)
      ∙ hg
