-- ===== src/Tests/Tables.antt =====
-- Runs of the storage on a database in memory.
pub mod Symlinks
use test_perf.Prelude.{
  ◌+◌, ◌<◌, ◌≡◌, ◌≢◌, refl, ap, false, true, Option, none, some, List, [], ◌∷◌, ◌++◌, arith, ℕ,
  ◌==◌, pos, length,
}
use test_perf.Result.{Result, ok, err, panic, out_of_fuel, not_exist, already_exists}
use test_perf.Action.{Action, ◌>>=◌, ◌>>◌, pure}
use test_perf.FilePath.{Name, FilePath, clean_step, clean_from, clean, dir, base, join}
use test_perf.MysqlFile.{File, written, seek_start, read_at, read, write_at, write, seek}
use test_perf.MysqlFile.Roundtrip.{Open}
use test_perf.MysqlStorage.{
  FileDb, Db, id_is, path_is, parent_is, file_db_to_file, get_file, get_file_id,
  children_by_file_id, children_ids_by_file_id, children, children_ids, create_parent,
  create_parent_add_to_file, insert_row, add_file, new_file, remove_file, move_children, rename_dir,
  rename_regular, rename_file, update_file_content,
}
use test_perf.MysqlStorage.Table.{keep, change, IsTable}
use test_perf.MysqlStorage.Memory.{Rows, memory, memory-IsTable}
use test_perf.MysqlStorage.Ends.{new_file-Ends}
use test_perf.MysqlStorage.Remove.{Removal, remove_file-Removal}
use test_perf.MysqlStorage.Content.{as_storage, read-write-IsTable}
use test_perf.MysqlStorage.Rename.{rename_file_self}
use test_perf.MysqlStorage.RenameDir.{rename_file-below}

pub storing : Unit {0}
unfolding clean_step clean_from clean dir base join file_db_to_file get_file get_file_id
    children_by_file_id children_ids_by_file_id children children_ids create_parent
    create_parent_add_to_file insert_row add_file new_file remove_file move_children rename_dir
    rename_regular rename_file update_file_content memory-IsTable written read read_at write
    write_at seek
storing = tt

abbrev pub at : List ℕ → FilePath
at names = record { rooted = true; elems = singletons names }
  where
    singletons : List ℕ → List Name
    singletons [] = []
    singletons (n ∷ ns) = (n ∷ []) ∷ singletons ns

abbrev nothing : Rows
nothing = ([], tt)

abbrev row : ℕ → Option ℕ → ℕ → List ℕ → ℕ → FileDb
row id parent name path mode = record {
  id = id;
  parent_id = parent;
  name = name ∷ [];
  path = at path;
  content = [];
  flag = 0;
  mode = mode;
}

abbrev dir_bits : ℕ
dir_bits = 2147483648 + 420

abbrev keys : List FileDb → List (ℕ × Option ℕ × FilePath)
keys [] = []
keys (r ∷ rs) = (r.id, r.parent_id, r.path) ∷ keys rs

-- `NewFile` of `/a/b` makes `/a` too.
new_file_runs :
    keys (new_file memory 3 (at (97 ∷ 98 ∷ [])) 420 2 nothing).0.0
    ≡ (1, some 2, at (97 ∷ 98 ∷ [])) ∷ (2, none, at (97 ∷ [])) ∷ []
unfolding storing
new_file_runs = refl

abbrev one_file : Rows
one_file = (
  row 1 none 97 (97 ∷ []) dir_bits ∷ row 2 (some 1) 98 (97 ∷ 98 ∷ []) 420 ∷ [],
  (refl, refl, (refl, refl, tt)),
)

abbrev above : FilePath
above = at (97 ∷ [])

abbrev below : FilePath
below = at (97 ∷ 98 ∷ [])

below-clean : clean below ≡ below
unfolding storing
below-clean = refl

above-clean : clean above ≡ above
unfolding storing
above-clean = refl

new_file-Ends_example : (new_file memory 3 below 420 2 nothing).1 ≢ out_of_fuel
new_file-Ends_example = (new_file-Ends memory 3 below 420 2 refl (omega arith)).ends nothing

remove_file-Removal_example :
    Removal memory memory-IsTable one_file above (remove_file memory above one_file)
remove_file-Removal_example = remove_file-Removal memory memory-IsTable one_file above above-clean

rename_file_self_example :
    (s' : Rows) × (rename_file memory 9 below below one_file ≡ (s', ok tt))
    × (get_file memory below s' ≡ (s', ok none))
unfolding storing
rename_file_self_example =
    rename_file_self memory memory-IsTable 9 one_file below (row 2 (some 1) 98 (97 ∷ 98 ∷ []) 420)
      (row 1 none 97 (97 ∷ []) dir_bits) [] [] below-clean refl refl refl (omega arith)
      (omega arith)

abbrev three_rows : Rows
three_rows = (
  row 1 none 97 (97 ∷ []) dir_bits
      ∷ row 2 (some 1) 98 (97 ∷ 98 ∷ []) dir_bits
      ∷ row 3 (some 2) 99 (97 ∷ 98 ∷ 99 ∷ []) 420
      ∷ [],
  (refl, refl, (refl, refl, (refl, refl, tt))),
)

abbrev elsewhere : FilePath
elsewhere = at (122 ∷ [])

abbrev after : Rows
after = (rename_file memory 9 above elsewhere three_rows).0

-- The rename of `/a` to `/z`: the path of `/a/b` changes, that of `/a/b/c` does not.
after_lem :
    keys after.0
    ≡ (1, none, at (122 ∷ []))
      ∷ (2, some 1, at (122 ∷ 98 ∷ []))
      ∷ (3, some 2, at (97 ∷ 98 ∷ 99 ∷ []))
      ∷ []
unfolding storing
after_lem = refl

rename_file-below_example : keep (id_is 3) after.0 ≡ row 3 (some 2) 99 (97 ∷ 98 ∷ 99 ∷ []) 420 ∷ []
unfolding storing
rename_file-below_example =
    rename_file-below memory memory-IsTable 9 three_rows after above elsewhere
      (row 1 none 97 (97 ∷ []) dir_bits) (row 3 (some 2) 99 (97 ∷ 98 ∷ 99 ∷ []) 420) [] above-clean
      refl refl refl (omega arith) refl refl

abbrev opened : File
opened = record {
  id = 2;
  parent_id = 1;
  file_name = 98 ∷ [];
  path = below;
  content = [];
  position = pos 0;
  flag = 2;
  mode = 420;
  is_closed = false;
}

opened-Open : Open opened 0
opened-Open = record { open_eq = refl; mode_eq = refl; at = refl }

read-write-IsTable_example :
    (s' : Rows) × (f₁ : File) × (f₂ : File) × (f₃ : File) × (write
        (as_storage memory)
        one_file
        opened
        (7 ∷ 8 ∷ [])
      ≡ ok (s', f₁, 2, none))
    × (seek f₁ (pos 0) seek_start ≡ ok (f₂, pos 0))
    × (read (as_storage memory) s' f₂ 2 ≡ ok (f₃, 7 ∷ 8 ∷ [], none))
    × (s'.0 ≡ change (id_is 2) (λ x. record x { content = written [] 0 (7 ∷ 8 ∷ []) }) one_file.0)
unfolding storing
read-write-IsTable_example =
    read-write-IsTable memory memory-IsTable one_file opened 0 (7 ∷ 8 ∷ [])
      (row 2 (some 1) 98 (97 ∷ 98 ∷ []) 420) [] opened-Open (omega arith) refl refl
