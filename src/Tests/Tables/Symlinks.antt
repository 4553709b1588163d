-- ===== src/Tests/Tables/Symlinks.antt =====
-- Runs of the filesystem on links.
use test_perf.Prelude.{◌≡◌, refl, false, true, none, List, [], ◌∷◌, ℕ, pos}
use test_perf.Result.{ok, out_of_fuel}
use test_perf.FilePath.{FilePath, split, dir_of, base_of, join}
use test_perf.MysqlFile.{File, duplicate}
use test_perf.MysqlStorage.{FileDb, file_db_to_file}
use test_perf.MysqlStorage.Memory.{Rows, memory, memory-IsTable}
use test_perf.MysqlFs.{
  link_mode, stat_file, resolve_link, opened, open_file, create, open_only, stat, rename, remove,
  read_dir, mkdir_all, lstat, symlink, readlink,
}
use test_perf.MysqlFs.Links.{
  Links, here, along, relative, absolute, EndsAt, IsCycle, open_file-EndsAt, stat-EndsAt,
  open_file-IsCycle,
}
use test_perf.Tests.Tables.{storing, at}

linking : Unit {0}
unfolding storing split duplicate dir_of base_of join stat_file resolve_link opened open_file create
    open_only stat rename remove read_dir mkdir_all lstat symlink readlink
linking = tt

abbrev row : ℕ → ℕ → List ℕ → ℕ → FileDb
row id name content mode = record {
  id = id;
  parent_id = none;
  name = name ∷ [];
  path = at (name ∷ []);
  content = content;
  flag = 0;
  mode = mode;
}

-- `/l` leads to `f` beside it, and `/c` to itself.
abbrev rows : Rows
rows = (
  row 1 108 (102 ∷ []) link_mode
      ∷ row 2 102 (1 ∷ 2 ∷ []) 420
      ∷ row 3 99 (47 ∷ 99 ∷ []) link_mode
      ∷ [],
  (refl, refl, (refl, refl, (refl, refl, tt))),
)

abbrev link : FilePath
link = at (108 ∷ [])

abbrev regular : FilePath
regular = at (102 ∷ [])

-- As the link has it: it is cleaned where it is looked up.
abbrev cyclic : FilePath
cyclic = record { rooted = true; elems = [] ∷ (99 ∷ []) ∷ [] }

abbrev regular_file : File
regular_file = record {
  id = 2;
  parent_id = 0;
  file_name = 102 ∷ [];
  path = at (102 ∷ []);
  content = 1 ∷ 2 ∷ [];
  position = pos 0;
  flag = 0;
  mode = 420;
  is_closed = false;
}

one_link : Links memory memory-IsTable rows link 1 regular
unfolding linking
one_link =
    along _ _ _ _ (_, refl, refl, relative true [] (108 ∷ []) (102 ∷ []) (λ cs h. cc h)) (here _)

regular-EndsAt : EndsAt memory memory-IsTable rows regular regular_file
unfolding linking
regular-EndsAt = (refl, refl)

open_file-EndsAt_example :
    open_file memory 1 2 link 2 384 rows ≡ (rows, ok (duplicate regular_file 384 2))
open_file-EndsAt_example =
    open_file-EndsAt memory memory-IsTable 1 0 rows link regular 1 2 384 regular_file one_link
      regular-EndsAt

stat-EndsAt_example :
    stat memory 2 link rows
    ≡ (rows, ok (record { file_name = 108 ∷ []; file_mode = 420; file_size = 2 }))
stat-EndsAt_example =
    stat-EndsAt memory memory-IsTable 0 rows true [] 108 [] regular 1 regular_file one_link
      regular-EndsAt

abbrev Here : FilePath → Type 0
Here p = p ≡ cyclic

cyclic-IsCycle : IsCycle memory memory-IsTable rows Here
unfolding linking
cyclic-IsCycle p h = (cyclic, (file_of, rw h refl, refl, absolute p (99 ∷ [])), refl)
  where
    file_of : File
    file_of = file_db_to_file (row 3 99 (47 ∷ 99 ∷ []) link_mode)

open_file-IsCycle_example :
    (open_file memory 1 7 cyclic 0 0 rows ≡ (rows, out_of_fuel))
    × (stat memory 7 cyclic rows ≡ (rows, out_of_fuel))
    × (read_dir memory 7 cyclic rows ≡ (rows, out_of_fuel))
open_file-IsCycle_example =
    open_file-IsCycle memory memory-IsTable rows Here cyclic 1 7 0 0 cyclic-IsCycle refl
