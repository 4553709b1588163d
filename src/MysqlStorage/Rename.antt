-- ===== src/MysqlStorage/Rename.antt =====
-- `RenameFile` of a regular file to its own path.
use test_perf.Prelude.{
  ℕ, ◌≡◌, ◌≢◌, ◌∙◌, refl, ap, Bool, true, false, not, none, some, List, [], ◌∷◌, ◌==◌,
  if◌then◌else◌, arith, ==_iff,
}
use test_perf.Result.{Result, ok}
use test_perf.Action.{Action, ◌>>=◌, ◌>>◌, ignore, >>=-ok}
use test_perf.FilePath.{FilePath, clean, dir}
use test_perf.MysqlFile.{File}
use test_perf.MysqlStorage.{
  FileDb, Db, is_dir, id_is, path_is, file_db_to_file, prepared, updated, moved, get_file,
  get_file_id, remove_file, create_parent, new_file, rename_regular, rename_file,
}
use test_perf.MysqlStorage.Table.{keep, IsTable, change_none, keep-keep-not}
use test_perf.MysqlStorage.Remove.{
  first, first_id, get_file_lem, get_file_id_lem, Removal, absent, full, removed,
  remove_file-Removal,
}

pub keep_comm : (p q : FileDb → Bool) (rs : List FileDb) → keep p (keep q rs) ≡ keep q (keep p rs)
keep_comm p q [] = refl
keep_comm p q (r ∷ rs) = ground (arith, keep_comm p q rs)

module _ {S : Type 0} (db : Db S) (t : IsTable db) where
  -- The removal of a regular file whose row is `r`.
  regular_removed :
      (s : S) (path : FilePath) (r : FileDb) (rest : List FileDb) (o : S × Result (Unit {0}))
      → Removal db t s path o
      → remove_file db path s ≡ o
      → keep (path_is (clean path)) (t.rows s) ≡ r ∷ rest
      → is_dir r.mode ≡ false
      → (s' : S) × (remove_file db path s ≡ (s', ok tt))
        × (t.rows s' ≡ keep (λ x. not (id_is r.id x)) (t.rows s))
        × (keep (path_is (clean path)) (t.rows s') ≡ [])
  regular_removed s path r rest o (absent e) run h d = cc (e, h)
  regular_removed s path r rest o (full r' rest' e d' n) run h d =
      let q : r' ≡ r = cc (e, h) in cc (ap (λ x. is_dir x.mode) q, d, d')
  regular_removed s path r rest o (removed r' s' e n after gone) run h d =
      let q : r' ≡ r = cc (e, h) in
      (s', run, after ∙ ap (λ x. keep (λ y. not (id_is x.id y)) (t.rows s)) q, gone)

  -- `RenameFile` after the removal, and after that with the id of the new parent.
  rename_to : ℕ → File → FilePath → ℕ → Action S (Unit {0})
  rename_to fuel f to parent_id =
      if not (parent_id == 0)
      then (do prepared db; updated db (id_is f.id) (moved to (some parent_id)))
      else (do
        parent ← create_parent db (new_file db fuel) to 420
        prepared db
        ignore
            (updated db (id_is f.id) (moved to (elim parent [ none ↦ none | some p ↦ some p.id ]))))

  rename_rest : ℕ → File → FilePath → Action S (Unit {0})
  rename_rest fuel f to = do parent_id ← get_file_id db (dir to); rename_to fuel f to parent_id

  rename_regular_lem :
      (fuel : ℕ) (s s₁ s₂ : S) (f : File) (to : FilePath) (i : ℕ)
      → remove_file db to s ≡ (s₁, ok tt)
      → get_file_id db (dir to) s₁ ≡ (s₁, ok i)
      → (i == 0) ≡ false
      → db.prepare s₁ ≡ true
      → db.update s₁ (id_is f.id) (moved to (some i)) ≡ some s₂
      → rename_regular db fuel f to s ≡ (s₂, ok tt)
  unfolding rename_regular rename_rest rename_to
  rename_regular_lem fuel s s₁ s₂ f to i a b c e g =
      >>=-ok (ignore (remove_file db to)) (λ u. rename_rest fuel f to) s s₁ tt (cc (a))
      ∙ >>=-ok (get_file_id db (dir to)) (rename_to fuel f to) s₁ s₁ i b
      ∙ cc (c, e, g)

  -- The row of the directory, once another row is gone.
  dir_stays :
      (p : FilePath) (i : ℕ) (d : FileDb) (rest rs : List FileDb)
      → keep (path_is p) rs ≡ d ∷ rest
      → id_is i d ≡ false
      → first_id (keep (path_is p) (keep (λ x. not (id_is i x)) rs)) ≡ d.id
  dir_stays p i d rest rs h e = rw (keep_comm (path_is p) (λ x. not (id_is i x)) rs, h, e) refl

  -- A regular file in a directory of the table that is renamed to its own path is removed, and
  -- `RenameFile` returns no error.
  pub rename_file_self :
      (fuel : ℕ) (s : S) (path : FilePath) (r d : FileDb) (rest above : List FileDb)
      → clean path ≡ path
      → keep (path_is (clean path)) (t.rows s) ≡ r ∷ rest
      → is_dir r.mode ≡ false
      → keep (path_is (clean (dir path))) (t.rows s) ≡ d ∷ above
      → d.id ≢ 0
      → d.id ≢ r.id
      → (s' : S) × (rename_file db fuel path path s ≡ (s', ok tt))
        × (get_file db path s' ≡ (s', ok none))
  unfolding rename_file file_db_to_file
  rename_file_self fuel s path r d rest above c h reg hd nz ne =
      let (s₁, run, after, gone) =
        regular_removed s path r rest _ (remove_file-Removal db t s path c) refl h reg in
      let none_left : keep (id_is r.id) (t.rows s₁) ≡ [] =
        ap (keep (id_is r.id)) after ∙ keep-keep-not (id_is r.id) (t.rows s) in
      let same = change_none (id_is r.id) (moved path (some d.id)) (t.rows s₁) none_left in
      let (s₂, upd, after₂) =
        t.update_eq s₁ (id_is r.id) (moved path (some d.id)) (rw same (t.unique s₁)) in
      let ne' : id_is r.id d ≡ false = ground (arith, ==_iff d.id r.id) in
      let nz' : (d.id == 0) ≡ false = ground (arith, ==_iff d.id 0) in
      let parent : get_file_id db (dir path) s₁ ≡ (s₁, ok d.id) =
        get_file_id_lem db t s₁ (dir path)
        ∙ ap (λ l. (s₁, ok (first_id (keep (path_is (clean (dir path))) l)))) after
        ∙ ap (λ i. (s₁, ok i)) (dir_stays (clean (dir path)) r.id d above (t.rows s) hd ne') in
      let body =
        rename_regular_lem fuel s s₁ s₂ (file_db_to_file r) path d.id run parent nz'
          (t.prepare_eq s₁) upd in
      (
        s₂,
        cc (get_file_lem db t s (clean path), c, h, reg, body),
        get_file_lem db t s₂ path
            ∙ ap (λ l. (s₂, ok (first (keep (path_is (clean path)) l)))) (after₂ ∙ same)
            ∙ ap (λ l. (s₂, ok (first l))) gone,
      )
