-- ===== src/Tests/Files.antt =====
-- Runs of an open file.
use test_perf.Prelude.{
  ◌+◌, ◌-◌, ltb, get_elem?, if◌then◌else◌, pos, ◌≡◌, refl, false, true, none, some, List, [], ◌∷◌,
  ◌++◌, arith, ℕ,
}
use test_perf.Result.{ok}
use test_perf.MysqlFile.{
  File, Storage, found, seek_start, written, read_at, read, write_at, write as write_file, seek,
  truncate,
}
use test_perf.MysqlFile.Write.{get_elem?-written}
use test_perf.MysqlFile.Roundtrip.{Open, read-write}
use test_perf.MysqlFile.Truncate.{read-truncate}

filer : Unit {0}
unfolding written read_at read write_at write_file seek truncate
filer = tt

-- A storage that holds the content of one file.
abbrev one_file : Storage (List ℕ)
one_file = record { get_file = λ s path. found s; update_file_content = λ s id c. some c }

abbrev file : File
file = record {
  id = 1;
  parent_id = 0;
  file_name = 102 ∷ [];
  path = record { rooted = true; elems = (102 ∷ []) ∷ [] };
  content = 1 ∷ 2 ∷ 3 ∷ [];
  position = pos 1;
  flag = 2;
  mode = 420;
  is_closed = false;
}

file-Open : Open file 1
file-Open = record { open_eq = refl; mode_eq = refl; at = refl }

get_elem?-written_example : get_elem? (written (1 ∷ 2 ∷ 3 ∷ []) 1 (9 ∷ [])) 2 ≡ (
    if ltb 2 1
    then get_elem? ((1 ∷ 2 ∷ 3 ∷ []) ++ []) 2
    else if ltb 2 (1 + 1)
    then get_elem? (9 ∷ []) (2 - 1)
    else get_elem? (1 ∷ 2 ∷ 3 ∷ []) 2)
get_elem?-written_example = get_elem?-written (1 ∷ 2 ∷ 3 ∷ []) 1 (9 ∷ []) 2

read-write_example :
    (f₁ : File) × (f₂ : File) × (f₃ : File) × (write_file one_file (1 ∷ 2 ∷ 3 ∷ []) file (9 ∷ [])
      ≡ ok (1 ∷ 9 ∷ 3 ∷ [], f₁, 1, none))
    × (seek f₁ (pos 1) seek_start ≡ ok (f₂, pos 1))
    × (read one_file (1 ∷ 9 ∷ 3 ∷ []) f₂ 1 ≡ ok (f₃, 9 ∷ [], none))
    × (f₃.position ≡ f₁.position)
unfolding filer
read-write_example =
    read-write one_file (1 ∷ 2 ∷ 3 ∷ []) (1 ∷ 9 ∷ 3 ∷ []) file 1 (9 ∷ []) file-Open (omega arith)
      refl refl

read-truncate_example :
    read one_file (1 ∷ 2 ∷ 3 ∷ []) (record file { content = [] }) 2
    ≡ read one_file (1 ∷ 2 ∷ 3 ∷ []) file 2
unfolding filer
read-truncate_example =
    read-truncate one_file (1 ∷ 2 ∷ 3 ∷ []) file (record file { content = [] }) (1 ∷ 2 ∷ 3 ∷ [])
      (pos 0) 2 refl refl
