-- ===== src/WorktreeMerge.antt =====
-- worktree_merge.go and worktree_commit.go: the entries of an unfinished merge in the index, and the
-- blobs that a work tree keeps of it.
pub mod Entries
pub mod Blobs
pub mod Files
pub mod Compare
pub mod Reset
use test_perf.Prelude.{
  ℕ, Bool, true, false, not, ◌≡◌, ◌↔◌, refl, Option, none, some, List, [], ◌∷◌, ◌++◌, String,
  str_eq, if◌then◌else◌, ◌==◌,
}
use test_perf.Result.{
  Result, ◌>>=◌, Error, ok, err, file_not_found, not_exist, read_failed, panic, out_of_fuel,
}
use test_perf.StringMap.{find, put}

-- `index.Stage`
abbrev pub Stage : Type 0
Stage = ℕ

abbrev pub merged : Stage
merged = 0

abbrev pub ancestor_mode : Stage
ancestor_mode = 1

abbrev pub our_mode : Stage
our_mode = 2

abbrev pub their_mode : Stage
their_mode = 3

-- `index.Entry`, what is read of it
pub record Entry : Type 0 where
  pub name : String
  pub stage : Stage
  pub hash : ℕ

-- The entry under its name.
unfoldable pub add_entry : Entry → List (String × List Entry) → List (String × List Entry)
add_entry e with_conf = elim (find e.name with_conf) [
  | some c ↦ put e.name (c ++ e ∷ []) with_conf
  | none ↦ put e.name (e ∷ []) with_conf
]

unfoldable pub conflict_entries_from :
    List (String × List Entry) → List Entry → List (String × List Entry)
conflict_entries_from with_conf [] = with_conf
conflict_entries_from with_conf (e ∷ entries) =
    conflict_entries_from (if not ((e.stage == merged)) then add_entry e with_conf else with_conf)
      entries

-- Of what reading the index gives.
unfoldable pub conflict_entries : Result (List Entry) → Result (List (String × List Entry))
conflict_entries index = do entries ← index; ok (conflict_entries_from [] entries)

-- The longer list of stages is not put back into the map.
unfoldable pub add_stage : Entry → List (String × List Stage) → List (String × List Stage)
add_stage e unmerged = elim (find e.name unmerged) [
  | some stages ↦ unmerged
  | none ↦ put e.name (e.stage ∷ []) unmerged
]

unfoldable pub unmerged_files_from :
    List (String × List Stage) → List Entry → List (String × List Stage)
unmerged_files_from unmerged [] = unmerged
unmerged_files_from unmerged (e ∷ entries) =
    unmerged_files_from (if not ((e.stage == merged)) then add_stage e unmerged else unmerged)
      entries

unfoldable pub get_unmerged_files : Result (List Entry) → Result (List (String × List Stage))
get_unmerged_files index = do entries ← index; ok (unmerged_files_from [] entries)

-- `none` is a blob whose reader cannot be had.
pub record Blob : Type 0 where
  pub hash : ℕ
  pub reader : Option (List ℕ)

pub record BlobInfo : Type 0 where
  pub path : String
  pub stage : Stage
  pub blob : Blob

-- `Worktree.blobs`; `none` is nil.
abbrev pub Blobs : Type 0
Blobs = Option (List (String × List BlobInfo))

-- The loop of `addOrUpdateBlobToCache`, and the append after it.
unfoldable pub update_blob : String → Blob → Stage → List BlobInfo → List BlobInfo
update_blob path b st [] = record { path = path; stage = st; blob = b } ∷ []
update_blob path b st (i ∷ blobs) =
    let rest = update_blob path b st blobs in
    if i.stage == st then record i { blob = b } ∷ blobs else i ∷ rest

unfoldable pub add_or_update_blob_to_cache : Blobs → String → Blob → Stage → Blobs
add_or_update_blob_to_cache cache path b st =
    let m : List (String × List BlobInfo) = elim cache [ none ↦ [] | some m ↦ m ] in
    elim (find path m) [
      | none ↦ some (put path (record { path = path; stage = st; blob = b } ∷ []) m)
      | some blobs ↦ some (put path (update_blob path b st blobs) m)
    ]

unfoldable pub find_blob : Stage → List BlobInfo → Result (List ℕ)
find_blob st [] = err file_not_found
find_blob st (b ∷ blobs) =
    let rest = find_blob st blobs in
    if b.stage == st then (elim b.blob.reader [ none ↦ err read_failed | some r ↦ ok r ]) else rest

-- `open` is `Filesystem.Open` with what is read of the file.
unfoldable pub read_file_by_stage :
    (String → Result (List ℕ)) → Blobs → String → Stage → Result (List ℕ)
read_file_by_stage open_file cache path st =
    if st == merged
    then (elim (open_file path) [
      | ok f ↦ ok f
      | err e ↦ err (found_error e)
      | panic ↦ panic
      | out_of_fuel ↦ out_of_fuel
    ])
    else elim cache [
      | none ↦ err file_not_found
      | some m ↦ elim (find path m) [ none ↦ err file_not_found | some blobs ↦ find_blob st blobs ]
    ]
  where
    found_error : Error → Error
    found_error not_exist = file_not_found
    found_error e = e
