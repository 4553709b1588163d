-- ===== src/MysqlFs.antt =====
-- filesystem.go, `Mysqlfs`: the operations of the filesystem over the storage.
--
-- A symbolic link is a file whose content is the path that it leads to. Fuel counts the links that an
-- operation goes along, and `depth` the directories that `NewFile` may add.
pub mod Links
use test_perf.Prelude.{
  ℕ, zero, suc, ◌%◌, ◌^◌, ◌+◌, Bool, true, false, not, Option, none, some, List, [], ◌∷◌, ◌++◌, map,
  length, ◌==◌, if◌then◌else◌,
}
use test_perf.Result.{
  Result, Error, ok, err, panic, out_of_fuel, not_exist, already_exists, is_directory, not_a_link,
}
use test_perf.Action.{Action, ◌>>=◌, ◌>>◌, pure, fail, ignore}
use test_perf.FilePath.{Name, FilePath, dir_of, base_of, join, slash, split}
use test_perf.MysqlFile.{File, has_bit, duplicate}
use test_perf.MysqlStorage.{Db, is_dir, get_file, new_file, remove_file, rename_file, children}

pub record FileInfo : Type 0 where
  pub file_name : Name
  pub file_mode : ℕ
  pub file_size : ℕ

abbrev pub is_create : ℕ → Bool
is_create flag = has_bit flag 6

abbrev pub is_symlink : ℕ → Bool
is_symlink mode = has_bit mode 27

-- `0777|os.ModeSymlink`
abbrev pub link_mode : ℕ
link_mode = 511 + 2 ^ 27

-- `os.O_RDWR|os.O_CREATE|os.O_TRUNC`
abbrev pub create_flag : ℕ
create_flag = 2 + 64 + 512

abbrev pub is_abs : List ℕ → Bool
is_abs [] = false
is_abs (b ∷ bs) = b == slash

-- `File.Stat`
unfoldable pub stat_file : File → FileInfo
stat_file f = record { file_name = f.file_name; file_mode = f.mode; file_size = length f.content }

-- The target, and whether the file is a link.
unfoldable pub resolve_link : FilePath → File → FilePath × Bool
resolve_link full_path f =
    if not (is_symlink f.mode)
    then (full_path, false)
    else if not (is_abs f.content)
    then (join (dir_of full_path) (split f.content).elems, true)
    else (split f.content, true)

module _ {S : Type 0} (db : Db S) where
  -- The end of `OpenFile`.
  unfoldable pub opened : ℕ → ℕ → File → Action S File
  opened flag perm f = if is_dir f.mode then fail is_directory else pure (duplicate f perm flag)

  -- A nil file of `NewFile` is dereferenced.
  unfoldable pub open_file : ℕ → ℕ → FilePath → ℕ → ℕ → Action S File
  open_file depth zero filename flag perm s = (s, out_of_fuel)
  open_file depth (suc fuel) filename flag perm s =
      (do
        found ← get_file db filename
        elim found [
          | none ↦ if not (is_create flag) then fail not_exist else (do
            new ← new_file db depth filename perm flag
            elim new [ none ↦ λ s. (s, panic) | some f ↦ opened flag perm f ])
          | some f ↦
              let link = resolve_link filename f in
              if link.1 then open_file depth fuel link.0 flag perm else opened flag perm f
        ])
        s

  unfoldable pub create : ℕ → ℕ → FilePath → Action S File
  create depth fuel filename = open_file depth fuel filename create_flag 438

  -- `Open`
  unfoldable pub open_only : ℕ → ℕ → FilePath → Action S File
  open_only depth fuel filename = open_file depth fuel filename 0 0

  -- The name is that of the path asked for, also behind a link.
  unfoldable pub stat : ℕ → FilePath → Action S FileInfo
  stat zero filename s = (s, out_of_fuel)
  stat (suc fuel) filename s =
      (do
        found ← get_file db filename
        elim found [
          | none ↦ fail not_exist
          | some f ↦
              let link = resolve_link filename f in
              (do
                info ← (if link.1 then stat fuel link.0 else pure (stat_file f))
                pure (record info { file_name = base_of filename }))
        ])
        s

  unfoldable pub rename : ℕ → FilePath → FilePath → Action S (Unit {0})
  rename depth oldpath newpath = rename_file db depth oldpath newpath

  unfoldable pub remove : FilePath → Action S (Unit {0})
  remove filename = remove_file db filename

  -- A directory that is not there has no entries.
  unfoldable pub read_dir : ℕ → FilePath → Action S (List FileInfo)
  read_dir zero path s = (s, out_of_fuel)
  read_dir (suc fuel) path s =
      (do
        found ← get_file db path
        let entries : Action S (List FileInfo) = (do fs ← children db path; pure (map stat_file fs))
        elim found [
          | none ↦ entries
          | some f ↦
              let link = resolve_link path f in if link.1 then read_dir fuel link.0 else entries
        ])
        s

  unfoldable pub mkdir_all : ℕ → FilePath → ℕ → Action S (Unit {0})
  mkdir_all depth path perm = do
    new_file db depth path (if is_dir perm then perm else perm + 2 ^ 31) 0
    pure tt

  unfoldable pub lstat : FilePath → Action S FileInfo
  lstat filename = do
    found ← get_file db filename
    elim found [ none ↦ fail not_exist | some f ↦ pure (stat_file f) ]

  -- `write_file` is `util.WriteFile` on this filesystem.
  unfoldable pub symlink :
      (FilePath → List ℕ → ℕ → Action S (Unit {0})) → ℕ → List ℕ → FilePath → Action S (Unit {0})
  symlink write_file fuel target link s =
      let (s', r) = stat fuel link s in
      elim r [
        | ok info ↦ (s', err already_exists)
        | err e ↦ if not (is_not_exist e) then (s', err e) else write_file link target link_mode s'
        | panic ↦ (s', panic)
        | out_of_fuel ↦ (s', out_of_fuel)
      ]
    where
      is_not_exist : Error → Bool
      is_not_exist not_exist = true
      is_not_exist _ = false

  unfoldable pub readlink : FilePath → Action S (List ℕ)
  readlink link = do
    found ← get_file db link
    elim found [
      | none ↦ fail not_exist
      | some f ↦ if not (is_symlink f.mode) then fail not_a_link else pure f.content
    ]
