-- ===== src/WorktreeMerge/Files.antt =====
-- worktree_merge.go: what the merge of work trees reads of objects and does to files.
--
-- The repository, its index and the file system are a parameter, `World`.
use test_perf.Prelude.{
  ℕ, Bool, not, ◌||◌, ◌==◌, ◌++◌, Option, none, some, List, [], ◌∷◌, String, if◌then◌else◌,
}
use test_perf.Result.{Result, ok, err, panic, out_of_fuel, read_failed, write_failed, create_failed}
use test_perf.Action.{Action, ◌>>=◌, ◌>>◌, pure, undo_on_error}
use test_perf.Diff3.{Scan, TempFile, delim_start, delim_middle, delim_end, merge, newline}
use test_perf.WorktreeMerge.{merged, our_mode, Entry, Blob, Blobs}

-- What `Index.Entry` returns: an error, `ErrEntryNotFound`, or entries.
pub data Entries : Type 0 where
  failed missing : Entries
  entries : List Entry → Entries

pub record MergingCommit (C I : Type 0) : Type 0 where
  pub commit : C
  pub idx : I
  pub is_virtual : Bool

-- Commits `C`, an index `I`, and the state `W` of the repository and the file system.
pub record World (C I W : Type 0) : Type 0 where
  pub index : W → Option I
  pub file : C → String → Option Blob
  pub blob_object : ℕ → Option Blob
  pub entry : I → String → Entries
  pub scan : Blob → Option Scan
  pub temp_file : W → TempFile
  pub create : String → Action W (Unit {0})
  pub copy : String → List ℕ → Action W (Unit {0})
  pub rename_to : List String → String → Action W (Unit {0})
  pub add : String → Action W (Unit {0})
  pub remove : String → Action W (Unit {0})
  pub remove_file : String → Action W (Unit {0})
  pub add_conflict_file : I → String → ℕ → ℕ → ℕ → Action W (Unit {0})

pub record WorkTree (W : Type 0) : Type 0 where
  pub world : W
  pub blobs : Blobs

abbrev pub zero_hash : ℕ
zero_hash = 0

abbrev pub on_world : {W A : Type 0} → Action W A → Action (WorkTree W) A
on_world m s = let (w, r) = m s.world in (record s { world = w }, r)

-- A call that changes nothing.
abbrev pub lift : {S A : Type 0} → Result A → Action S A
lift r s = (s, r)

abbrev pub found_blob : Option Blob → Result Blob
found_blob none = err read_failed
found_blob (some b) = ok b

-- The loop of `getBlob` over the entries of a path.
unfoldable pub entry_hash : List Entry → ℕ
entry_hash [] = zero_hash
entry_hash (e ∷ es) =
    let rest = entry_hash es in if e.stage == merged || e.stage == our_mode then e.hash else rest

-- Lines written with no look at the error.
unfoldable pub write_lines : TempFile → List String → List String → List String
write_lines fs f [] = f
write_lines fs f (l ∷ ls) =
    let wrote = write_lines fs (f ++ newline l ∷ []) ls in
    let dropped = write_lines fs f ls in if fs.fails f then dropped else wrote

-- The part of `writeBothAddedConflictFile` for one side: the lines are written, then the error of the
-- scanner is looked at.
unfoldable pub write_side : TempFile → Option Scan → List String → Result (List String)
write_side fs side f = elim side [
  | none ↦ err read_failed
  | some sc ↦ if sc.fails then err read_failed else ok (write_lines fs f sc.lines)
]

unfoldable pub write_delim : TempFile → String → List String → Result (List String)
write_delim fs delim f = if fs.fails f then err write_failed else ok (f ++ delim ∷ [])

-- The lines of the file that is then moved to the path.
unfoldable pub both_added_file : TempFile → Option Scan → Option Scan → Result (List String)
both_added_file fs ours theirs =
    if not fs.creates
    then err create_failed
    else and_then (write_delim fs delim_start []) (λ f₁. and_then (write_side fs ours f₁) (λ f₂.
      and_then (write_delim fs delim_middle f₂)
        (λ f₃. and_then (write_side fs theirs f₃) (λ f₄. write_delim fs delim_end f₄))))
  where
    and_then : Result (List String) → (List String → Result (List String)) → Result (List String)
    and_then (ok f) k = k f
    and_then (err e) k = err e
    and_then panic k = panic
    and_then out_of_fuel k = out_of_fuel

module _ {C I W : Type 0} (io : World C I W) where
  unfoldable pub get_blob : MergingCommit C I → String → Result Blob
  get_blob c path =
      if c.is_virtual
      then (elim (io.entry c.idx path) [
        | failed ↦ err read_failed
        | missing ↦ found_blob (io.file c.commit path)
        | entries es ↦ found_blob (io.blob_object (entry_hash es))
      ])
      else found_blob (io.file c.commit path)

  unfoldable pub write_both_added_conflict_file : String → Blob → Blob → Action W (Unit {0})
  write_both_added_conflict_file path ours theirs w =
      (do
        f ← lift (both_added_file (io.temp_file w) (io.scan ours) (io.scan theirs))
        io.rename_to f path)
        w

  -- The reader of the blob, and the copy of what it reads.
  unfoldable pub copy_file_to_ours : String → C → Action W (Unit {0})
  copy_file_to_ours path theirs = do
    f ← lift (found_blob (io.file theirs path))
    r ← lift (elim f.reader [ none ↦ err read_failed | some r ↦ ok r ])
    io.create path
    undo_on_error (io.copy path r) (io.remove_file path)
    undo_on_error (io.add path) (io.remove_file path)

  -- The merge of the three blobs, and `unResolvedConflicts`.
  unfoldable pub merge_files : I → String → Blob → Blob → Blob → Action W ℕ
  merge_files idx path base ours theirs w =
      (do
        (f, conflicts) ←
            lift (merge (io.temp_file w) (io.scan base) (io.scan ours) (io.scan theirs))
        io.rename_to f path
        (if not (conflicts == 0)
            then io.add_conflict_file idx path base.hash ours.hash theirs.hash
            else io.add path)
        pure conflicts)
        w
