-- ===== src/MysqlStorage.antt =====
-- storage.go: the files of the filesystem as the rows of a table.
--
-- The database is a parameter: a record of the kinds of statements that the code sends, each of which
-- may fail. Its state is a parameter too.
pub mod Table
pub mod Memory
pub mod Ends
pub mod Remove
pub mod Content
pub mod Rename
pub mod RenameDir
use test_perf.Prelude.{
  ℕ, zero, suc, ◌+◌, ◌%◌, ◌^◌, Bool, true, false, not, ◌&&◌, Option, none, some, List, [], ◌∷◌,
  ◌++◌, map, ◌==◌, length, if◌then◌else◌, pos,
}
use test_perf.Result.{
  Result, Error, ok, err, panic, out_of_fuel, storage_failed, not_exist, already_exists,
  dir_not_empty,
}
use test_perf.Action.{Action, ◌>>=◌, ◌>>◌, pure, fail, reads, changes, ignore}
use test_perf.FilePath.{Name, FilePath, same_path, clean, dir, base, join, is_root}
use test_perf.MysqlFile.{File, has_bit}

-- contract.go, `FileDB`; `none` is a NULL parent
pub record FileDb : Type 0 where
  pub id : ℕ
  pub parent_id : Option ℕ
  pub name : Name
  pub path : FilePath
  pub content : List ℕ
  pub flag : ℕ
  pub mode : ℕ

-- `select s p` is a SELECT of the rows with `p`, `update s p f` changes these rows by `f`, `insert`
-- also gives the id of the new row, if the driver knows it. `commit s t` makes `t`, that a
-- transaction on `s` has come to, the state.
pub record Db (S : Type 0) : Type 0 where
  pub prepare : S → Bool
  pub select : S → (FileDb → Bool) → Option (List FileDb)
  pub insert : S → FileDb → Option (S × Option ℕ)
  pub update : S → (FileDb → Bool) → (FileDb → FileDb) → Option S
  pub delete : S → (FileDb → Bool) → Option S
  pub commit : S → S → Option S

-- `FileMode.IsDir`
abbrev pub is_dir : ℕ → Bool
is_dir mode = has_bit mode 31

-- `mode.Perm()|os.ModeDir`
abbrev pub dir_mode : ℕ → ℕ
dir_mode mode = mode % 512 + 2 ^ 31

abbrev pub id_is : ℕ → FileDb → Bool
id_is i r = r.id == i

abbrev pub path_is : FilePath → FileDb → Bool
path_is p r = same_path r.path p

abbrev pub parent_is : ℕ → FileDb → Bool
parent_is i r = elim r.parent_id [ none ↦ false | some j ↦ j == i ]

abbrev pub has_no_parent : FileDb → Bool
has_no_parent r = elim r.parent_id [ none ↦ true | some j ↦ false ]

unfoldable pub file_db_to_file : FileDb → File
file_db_to_file f = record {
  id = f.id;
  parent_id = elim f.parent_id [ none ↦ 0 | some i ↦ i ];
  file_name = f.name;
  path = f.path;
  content = f.content;
  position = pos 0;
  flag = f.flag;
  mode = f.mode;
  is_closed = false;
}

abbrev pub row_of : FilePath → ℕ → ℕ → FileDb
row_of path mode flag = record {
  id = 0;
  parent_id = none;
  name = base path;
  path = path;
  content = [];
  flag = flag;
  mode = mode;
}

abbrev pub moved : FilePath → Option ℕ → FileDb → FileDb
moved to parent r = record r { name = base to; path = to; parent_id = parent }

module _ {S : Type 0} (db : Db S) where
  abbrev pub rows_where : (FileDb → Bool) → Action S (List FileDb)
  rows_where p = reads storage_failed (λ s. db.select s p)

  abbrev pub prepared : Action S (Unit {0})
  prepared = changes storage_failed (λ s. if db.prepare s then some s else none)

  abbrev pub updated : (FileDb → Bool) → (FileDb → FileDb) → Action S (Unit {0})
  updated p f = changes storage_failed (λ s. db.update s p f)

  unfoldable pub get_file : FilePath → Action S (Option File)
  get_file path = do
    rows ← rows_where (path_is (clean path))
    pure (elim rows [ [] ↦ none | r ∷ rs ↦ some (file_db_to_file r) ])

  -- 0 if there is no such row
  unfoldable pub get_file_id : FilePath → Action S ℕ
  get_file_id path = do
    rows ← rows_where (path_is (clean path))
    pure (elim rows [ [] ↦ 0 | r ∷ rs ↦ r.id ])

  unfoldable pub children_by_file_id : ℕ → Action S (List File)
  children_by_file_id id = do rows ← rows_where (parent_is id); pure (map file_db_to_file rows)

  unfoldable pub children_ids_by_file_id : ℕ → Action S (List ℕ)
  children_ids_by_file_id id = do rows ← rows_where (parent_is id); pure (map (λ r. r.id) rows)

  unfoldable pub children : FilePath → Action S (List File)
  children path =
      if is_root (clean path)
      then (do rows ← rows_where has_no_parent; pure (map file_db_to_file rows))
      else (do
        rows ← rows_where (path_is (clean path))
        elim rows [ [] ↦ pure [] | r ∷ rs ↦ children_by_file_id r.id ])

  unfoldable pub children_ids : FilePath → Action S (List ℕ)
  children_ids path = do
    rows ← rows_where (path_is (clean path))
    elim rows [ [] ↦ pure [] | r ∷ rs ↦ children_ids_by_file_id r.id ]

  -- `none` is the root; `new` is `NewFile`
  unfoldable pub create_parent :
      (FilePath → ℕ → ℕ → Action S (Option File)) → FilePath → ℕ → Action S (Option File)
  create_parent new path mode = if is_root (clean (dir path)) then pure none else (do
    parent ← new (clean (dir path)) (dir_mode mode) 0
    elim parent [ some f ↦ pure (some f) | none ↦ get_file (clean (dir path)) ])

  -- The file with its parent.
  unfoldable pub create_parent_add_to_file :
      (FilePath → ℕ → ℕ → Action S (Option File)) → FilePath → ℕ → File → Action S File
  create_parent_add_to_file new path mode f = do
    parent ← create_parent new path mode
    elim parent [
      | none ↦ pure f
      | some p ↦ do
        prepared
        updated (id_is f.id) (λ r. record r { parent_id = some p.id })
        pure (record f { parent_id = p.id })
    ]

  -- The INSERT, and `LastInsertId`.
  unfoldable pub insert_row : FileDb → Action S ℕ
  insert_row r s = elim (db.insert s r) [
    | none ↦ (s, err storage_failed)
    | some (s', id) ↦ elim id [ none ↦ (s', err storage_failed) | some i ↦ (s', ok i) ]
  ]

  -- The part of `NewFile` after the test for a file that is there; `new` is `NewFile`.
  unfoldable pub add_file :
      (FilePath → ℕ → ℕ → Action S (Option File)) → FilePath → ℕ → ℕ → Action S (Option File)
  add_file new path mode flag = do
    prepared
    id ← insert_row (row_of path mode flag)
    f ←
        create_parent_add_to_file new path mode
          (file_db_to_file (record (row_of path mode flag) { id = id }))
    pure (some f)

  -- `none` is a nil file with no error: the directory is there. Each call of itself is for the
  -- directory above.
  unfoldable pub new_file : ℕ → FilePath → ℕ → ℕ → Action S (Option File)
  new_file zero path mode flag s = (s, out_of_fuel)
  new_file (suc fuel) path mode flag s =
      (do
        found ← get_file (clean path)
        elim found [
          | some f ↦ if not (is_dir f.mode) then fail already_exists else pure none
          | none ↦ add_file (new_file fuel) (clean path) mode flag
        ])
        s

  unfoldable pub remove_file : FilePath → Action S (Unit {0})
  remove_file path = do
    found ← get_file (clean path)
    elim found [
      | none ↦ fail not_exist
      | some f ↦ do
        ids ← children_ids_by_file_id f.id
        (if is_dir f.mode && not (length ids == 0)
            then fail dir_not_empty
            else (do prepared; changes storage_failed (λ s. db.delete s (id_is f.id))))
    ]

  -- The statements of the transaction for the children of a directory. One that fails panics.
  unfoldable pub move_children : FilePath → List File → S → Option S
  move_children to [] s = some s
  move_children to (c ∷ cs) s =
      elim (db.update s (id_is c.id) (λ r. record r { path = join to (c.file_name ∷ []) })) [
        | none ↦ none
        | some s' ↦ move_children to cs s'
      ]

  unfoldable pub rename_dir : File → FilePath → Action S (Unit {0})
  rename_dir f to = do
    cs ← children_by_file_id f.id
    λ s. elim (db.update s (id_is f.id) (λ r. record r { name = base to; path = to })) [
      | none ↦ (s, panic)
      | some s₁ ↦ elim (move_children to cs s₁) [
        | none ↦ (s, panic)
        | some s₂ ↦ changes storage_failed (λ s. db.commit s s₂) s
      ]
    ]

  -- The error of `RemoveFile` is dropped. So is that of the last statement, since `err` is shadowed
  -- where it is assigned.
  unfoldable pub rename_regular : ℕ → File → FilePath → Action S (Unit {0})
  rename_regular fuel f to = do
    ignore (remove_file to)
    parent_id ← get_file_id (dir to)
    (if not (parent_id == 0)
        then (do prepared; updated (id_is f.id) (moved to (some parent_id)))
        else (do
          parent ← create_parent (new_file fuel) to 420
          prepared
          ignore
              (updated (id_is f.id) (moved to (elim parent [ none ↦ none | some p ↦ some p.id ])))))

  unfoldable pub rename_file : ℕ → FilePath → FilePath → Action S (Unit {0})
  rename_file fuel from to = do
    found ← get_file (clean from)
    elim found [
      | none ↦ fail not_exist
      | some f ↦ if is_dir f.mode then rename_dir f (clean to) else rename_regular fuel f (clean to)
    ]

  unfoldable pub update_file_content : ℕ → List ℕ → Action S (Unit {0})
  update_file_content id content = do
    prepared
    updated (id_is id) (λ r. record r { content = content })
