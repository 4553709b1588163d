-- ===== src/TreeBuild.antt =====
-- worktree_commit.go: `buildTreeHelper`, the trees of a commit from the entries of the index.
--
-- A name in the index is its bytes, a path of the helper the names between separators. `Trees` is the
-- map `trees`; nothing writes the map `entries`, so its test never holds and is left out. `set_tree`
-- encodes a tree and stores it, and is a parameter: `S` is the state of the storer.
pub mod Walk
pub mod Grow
pub mod Valid
pub mod Index
pub mod Entries
pub mod Copy
pub mod Stored
pub mod Names
pub mod Order
use test_perf.Prelude.{
  ℕ, suc, zero, ◌==◌, ltb, Bool, true, false, not, ◌&&◌, Option, none, some, List, [], ◌∷◌, ◌++◌,
  if◌then◌else◌, length,
}
use Prim.Native.Nat.{max}
use test_perf.Result.{Result, ok, err, panic, out_of_fuel, ◌>>=◌ as and_then, or_panic}
use test_perf.Action.{Action, ◌>>=◌, pure}
use test_perf.FilePath.{Name, same_elems, clean_from, last, dot, slash, split_from}

-- `index.Entry`
pub record IndexEntry : Type 0 where
  pub name : List ℕ
  pub mode : ℕ
  pub hash : ℕ

-- `object.TreeEntry`; the hash 0 is `ZeroHash`.
pub record TreeEntry : Type 0 where
  pub name : Name
  pub mode : ℕ
  pub hash : ℕ

-- `filemode.Dir`
abbrev pub dir_mode : ℕ
dir_mode = 16384

abbrev pub Trees : Type 0
Trees = List Name → Option (List TreeEntry)

-- `strings.Split(e.Name, "/")`
abbrev pub parts : IndexEntry → List Name
parts e = split_from [] e.name

-- `path.Join`, where the empty path is of no names and `.` of one.
unfoldable pub path_join : List Name → Name → List Name
path_join p n = elim (clean_from false [] (p ++ n ∷ [])) [
  | m ∷ ms ↦ m ∷ ms
  | [] ↦ elim p [ q ∷ qs ↦ dot ∷ [] | [] ↦ elim n [ b ∷ bs ↦ dot ∷ [] | [] ↦ [] ] ]
]

abbrev pub set_tree_at : List Name → List TreeEntry → Trees → Trees
set_tree_at p es t q = if same_elems p q then some es else t q

-- `h.trees[parent].Entries = append(h.trees[parent].Entries, te)`; a missing tree is a nil pointer.
unfoldable pub append_to : List Name → TreeEntry → Trees → Result Trees
append_to parent te t = elim (t parent) [
  | none ↦ panic
  | some es ↦ ok (set_tree_at parent (es ++ te ∷ []) t)
]

-- `doBuildTree`
unfoldable pub do_build_tree : IndexEntry → Trees → List Name → List Name → Result Trees
do_build_tree e t parent fullpath = elim (t fullpath) [
  | some es ↦ ok t
  | none ↦
      if same_elems fullpath (parts e)
      then append_to parent (record { name = last fullpath dot; mode = e.mode; hash = e.hash }) t
      else append_to parent (record { name = last fullpath dot; mode = dir_mode; hash = 0 })
          (set_tree_at fullpath [] t)
]

-- The loop of `commitIndexEntry`.
unfoldable pub commit_parts : IndexEntry → Trees → List Name → List Name → Result Trees
commit_parts e t parent [] = ok t
commit_parts e t parent (part ∷ rest) =
    and_then (do_build_tree e t parent (path_join parent part))
      λ t'. commit_parts e t' (path_join parent part) rest

unfoldable pub commit_index_entry : IndexEntry → Trees → Result Trees
commit_index_entry e t = commit_parts e t [] (parts e)

-- The loop of `BuildTree`.
unfoldable pub commit_index : List IndexEntry → Trees → Result Trees
commit_index [] t = ok t
commit_index (e ∷ es) t = and_then (commit_index_entry e t) λ t'. commit_index es t'

abbrev pub root_only : Trees
root_only = set_tree_at [] [] (λ p. none)

-- The order of strings, byte by byte.
unfoldable pub name_lt : Name → Name → Bool
name_lt m [] = false
name_lt [] (b ∷ n) = true
name_lt (a ∷ m) (b ∷ n) =
    let rest = name_lt m n in if ltb a b then true else if a == b then rest else false

-- `sortableEntries`
unfoldable pub sort_name : TreeEntry → Name
sort_name te = if te.mode == dir_mode then te.name ++ slash ∷ [] else te.name

unfoldable pub less_entry : TreeEntry → TreeEntry → Bool
unfolding name_lt sort_name
less_entry a b = name_lt (sort_name a) (sort_name b)

unfoldable pub insert_entry : TreeEntry → List TreeEntry → List TreeEntry
unfolding less_entry
insert_entry a [] = a ∷ []
insert_entry a (b ∷ bs) =
    let rest = insert_entry a bs in if less_entry b a then b ∷ rest else a ∷ b ∷ bs

-- `sort.Sort(sortableEntries(t.Entries))`
unfoldable pub sort_entries : List TreeEntry → List TreeEntry
unfolding insert_entry
sort_entries [] = []
sort_entries (a ∷ as') = insert_entry a (sort_entries as')

-- An entry that has its hash.
abbrev pub has_hash : TreeEntry → Bool
has_hash e = not (e.mode == dir_mode) && not (e.hash == 0)

module _ {S : Type 0} where
  -- The loop of `copyTreeToStorageRecursive`, `copy` being its call of itself; a missing tree is a
  -- nil pointer.
  unfoldable pub copy_entries :
      (List Name → List TreeEntry → Action S ℕ)
      → Trees
      → List Name
      → List TreeEntry
      → Action S (List TreeEntry)
  copy_entries copy t parent [] = pure []
  copy_entries copy t parent (e ∷ es) =
      let next = copy_entries copy t parent es in
      do
        e' ←
            (if has_hash e then pure e else (do
              sub ← (λ s. (s, or_panic (t (path_join parent e.name))))
              h ← copy (path_join parent e.name) sub
              pure (record e { hash = h })))
        rest ← next
        pure (e' ∷ rest)

module _ {S : Type 0} (set_tree : List TreeEntry → Action S ℕ) where
  -- `copyTreeToStorageRecursive`
  unfoldable pub copy_tree : ℕ → Trees → List Name → List TreeEntry → Action S ℕ
  unfolding copy_entries sort_entries
  copy_tree zero t parent es = λ s. (s, out_of_fuel)
  copy_tree (suc fuel) t parent es = do
    done ← copy_entries (copy_tree fuel t) t parent (sort_entries es)
    set_tree done

-- The names of the longest path.
abbrev pub depth : List IndexEntry → ℕ
depth [] = 0
depth (e ∷ es) = max (length (parts e)) (depth es)

module _ {S : Type 0} (set_tree : List TreeEntry → Action S ℕ) where
  -- `BuildTree`
  unfoldable pub build_tree : List IndexEntry → Action S ℕ
  unfolding copy_tree commit_index
  build_tree idx = do
    t ← (λ s. (s, commit_index idx root_only))
    root ← (λ s. (s, or_panic (t [])))
    copy_tree set_tree (suc (depth idx)) t [] root
