-- ===== src/MysqlStorage/Remove.antt =====
-- `GetFile` and `RemoveFile` on a table.
use test_perf.Prelude.{
  ℕ, ◌≡◌, ◌≢◌, ◌∙◌, refl, ap, Bool, true, false, not, ◌&&◌, Option, none, some, List, [], ◌∷◌, map,
  length, ◌==◌, if◌then◌else◌, Bool-cases, inl, inr, arith,
}
use test_perf.Result.{Result, ok, err, not_exist, dir_not_empty, storage_failed}
use test_perf.Action.{Action, ◌>>=◌, ◌>>◌, fail, changes, reads-some, changes-some}
use test_perf.FilePath.{FilePath, clean}
use test_perf.MysqlFile.{File}
use test_perf.MysqlStorage.{
  FileDb, Db, is_dir, id_is, path_is, parent_is, file_db_to_file, rows_where, prepared, get_file,
  get_file_id, children_ids_by_file_id, remove_file,
}
use test_perf.MysqlStorage.Table.{keep, IsTable, keep_path-one}

abbrev pub first : List FileDb → Option File
first [] = none
first (r ∷ rs) = some (file_db_to_file r)

abbrev pub first_id : List FileDb → ℕ
first_id [] = 0
first_id (r ∷ rs) = r.id

module _ {S : Type 0} (db : Db S) (t : IsTable db) where
  pub rows_where_lem : (s : S) (p : FileDb → Bool) → rows_where db p s ≡ (s, ok (keep p (t.rows s)))
  rows_where_lem s p = reads-some storage_failed (λ s. db.select s p) s _ (t.select_eq s p)

  pub get_file_lem :
      (s : S) (path : FilePath)
      → get_file db path s ≡ (s, ok (first (keep (path_is (clean path)) (t.rows s))))
  unfolding get_file
  get_file_lem s path = cc (rows_where_lem s (path_is (clean path)))

  pub get_file_id_lem :
      (s : S) (path : FilePath)
      → get_file_id db path s ≡ (s, ok (first_id (keep (path_is (clean path)) (t.rows s))))
  unfolding get_file_id
  get_file_id_lem s path = cc (rows_where_lem s (path_is (clean path)))

  children_ids_lem :
      (s : S) (id : ℕ)
      → children_ids_by_file_id db id s ≡ (s, ok (map (λ r. r.id) (keep (parent_is id) (t.rows s))))
  unfolding children_ids_by_file_id
  children_ids_lem s id = cc (rows_where_lem s (parent_is id))

  pub prepared_lem : (s : S) → prepared db s ≡ (s, ok tt)
  prepared_lem s =
      let e : (if db.prepare s then some s else none) ≡ some s = rw (t.prepare_eq s) refl in
      changes-some storage_failed (λ s. if db.prepare s then some s else none) s s e

  -- What `RemoveFile` comes to: no such row, a directory with children, or a row that goes.
  pub data Removal (s : S) (path : FilePath) : S × Result (Unit {0}) → Type 0 where
    absent : keep (path_is (clean path)) (t.rows s) ≡ [] → Removal s path (s, err not_exist)
    full :
        (r : FileDb) (rest : List FileDb)
        → keep (path_is (clean path)) (t.rows s) ≡ r ∷ rest
        → is_dir r.mode ≡ true
        → keep (parent_is r.id) (t.rows s) ≢ []
        → Removal s path (s, err dir_not_empty)
    removed :
        (r : FileDb) (s' : S)
        → keep (path_is (clean path)) (t.rows s) ≡ r ∷ []
        → (is_dir r.mode ≡ true → keep (parent_is r.id) (t.rows s) ≡ [])
        → t.rows s' ≡ keep (λ x. not (id_is r.id x)) (t.rows s)
        → keep (path_is (clean path)) (t.rows s') ≡ []
        → Removal s path (s', ok tt)

  nothing_there :
      (s : S) (path : FilePath)
      → keep (path_is (clean (clean path))) (t.rows s) ≡ []
      → remove_file db path s ≡ (s, err not_exist)
  unfolding remove_file
  nothing_there s path h = cc (get_file_lem s (clean path), h)

  -- The rest of `RemoveFile`, once the row is found.
  remove_row : FileDb → Action S (Unit {0})
  remove_row r = do
    ids ← children_ids_by_file_id db r.id
    (if is_dir r.mode && not (length ids == 0)
        then fail dir_not_empty
        else (do prepared db; changes storage_failed (λ s. db.delete s (id_is r.id))))

  something_there :
      (s : S) (path : FilePath) (r : FileDb) (rest : List FileDb)
      → keep (path_is (clean (clean path))) (t.rows s) ≡ r ∷ rest
      → remove_file db path s ≡ remove_row r s
  unfolding remove_file remove_row file_db_to_file
  something_there s path r rest h = cc (get_file_lem s (clean path), h)

  remove_row_full :
      (s : S) (r : FileDb)
      → is_dir r.mode ≡ true
      → (length (map (λ x. x.id) (keep (parent_is r.id) (t.rows s))) == 0) ≡ false
      → remove_row r s ≡ (s, err dir_not_empty)
  unfolding remove_row
  remove_row_full s r d n = cc (children_ids_lem s r.id, d, n)

  remove_row_gone :
      (s s' : S) (r : FileDb)
      → (is_dir r.mode && not (length (map (λ x. x.id) (keep (parent_is r.id) (t.rows s))) == 0))
        ≡ false
      → db.delete s (id_is r.id) ≡ some s'
      → remove_row r s ≡ (s', ok tt)
  unfolding remove_row
  remove_row_gone s s' r n e = cc (children_ids_lem s r.id, n, t.prepare_eq s, e)

  -- A path that is clean: the code cleans it again on the way down.
  remove_there :
      (s : S) (path : FilePath) (r : FileDb) (rest : List FileDb)
      → clean path ≡ path
      → keep (path_is (clean path)) (t.rows s) ≡ r ∷ rest
      → Removal s path (remove_file db path s)
  remove_there s path r rest c h =
      rw (something_there s path r rest (rw (c, c) (rw c at h)))
        (elim (Bool-cases (
          is_dir r.mode
          && not (length (map (λ x. x.id) (keep (parent_is r.id) (t.rows s))) == 0))) [
            | inl e ↦ full_case e
            | inr e ↦ gone e
          ])
    where
      full_case :
          (is_dir r.mode && not (length (map (λ x. x.id) (keep (parent_is r.id) (t.rows s))) == 0))
            ≡ true
          → Removal s path (remove_row r s)
      full_case e =
          let d : is_dir r.mode ≡ true = ground arith in
          let n : (length (map (λ x. x.id) (keep (parent_is r.id) (t.rows s))) == 0) ≡ false =
            ground arith in
          rw (remove_row_full s r d n)
            (full r rest h d (λ q. clash (ap (λ l. length (map (λ x. x.id) l) == 0) q) n))
        where
          clash : {a : Bool} → a ≡ true → a ≡ false → ⊥
          clash p q = cc

      empty :
          (l : List FileDb)
          → is_dir r.mode ≡ true
          → (is_dir r.mode && not (length (map (λ x. x.id) l) == 0)) ≡ false
          → l ≡ []
      empty [] d e = refl
      empty (x ∷ l) d e = absurd (ground arith)

      gone :
          (is_dir r.mode && not (length (map (λ x. x.id) (keep (parent_is r.id) (t.rows s))) == 0))
            ≡ false
          → Removal s path (remove_row r s)
      gone e =
          let (s', run, after) = t.delete_eq s (id_is r.id) in
          let (one, none_left) = keep_path-one (clean path) (t.rows s) rest r (t.unique s) h in
          rw (remove_row_gone s s' r e run) (
            removed r s' (rw one at h) (λ d. empty (keep (parent_is r.id) (t.rows s)) d e) after
              (ap (keep (path_is (clean path))) after ∙ none_left))

  -- `RemoveFile` of a clean path: an error that changes nothing if there is no such row, or if it is a
  -- directory with children; else just the row of the path goes.
  pub remove_file-Removal :
      (s : S) (path : FilePath) → clean path ≡ path → Removal s path (remove_file db path s)
  remove_file-Removal s path c = at (keep (path_is (clean path)) (t.rows s)) refl
    where
      at :
          (l : List FileDb)
          → keep (path_is (clean path)) (t.rows s) ≡ l
          → Removal s path (remove_file db path s)
      at [] h = rw (nothing_there s path (rw (c, c) (rw c at h))) (absent h)
      at (r ∷ rest) h = remove_there s path r rest c h
