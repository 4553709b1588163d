-- ===== src/FilePath.antt =====
-- What storage.go and filesystem.go use of `path/filepath` on Unix: a path is whether it starts with
-- a separator, and the names between separators. A name is its bytes.
pub mod Same
pub mod Length
use test_perf.Prelude.{
  ℕ, Bool, true, false, not, ◌&&◌, ◌||◌, List, [], ◌∷◌, ◌++◌, reverse, ◌==◌, if◌then◌else◌,
}

abbrev pub Name : Type 0
Name = List ℕ

abbrev pub same_name : Name → Name → Bool
same_name [] [] = true
same_name (a ∷ m) (b ∷ n) = let rest = same_name m n in if a == b then rest else false
same_name _ _ = false

pub record FilePath : Type 0 where
  pub rooted : Bool
  pub elems : List Name

abbrev pub same_elems : List Name → List Name → Bool
same_elems [] [] = true
same_elems (a ∷ m) (b ∷ n) = let rest = same_elems m n in if same_name a b then rest else false
same_elems _ _ = false

abbrev pub same_bool : Bool → Bool → Bool
same_bool true b = b
same_bool false b = not b

abbrev pub same_path : FilePath → FilePath → Bool
same_path p q = if same_bool p.rooted q.rooted then same_elems p.elems q.elems else false

abbrev pub dot : Name
dot = 46 ∷ []

abbrev pub dot_dot : Name
dot_dot = 46 ∷ 46 ∷ []

abbrev pub slash : ℕ
slash = 47

-- One round of the loop of `Clean`, on the names kept so far, last one first.
unfoldable pub clean_step : Bool → List Name → Name → List Name
clean_step rooted out n =
    if same_name n [] || same_name n dot
    then out
    else if same_name n dot_dot
    then (elim out [
      | [] ↦ if rooted then [] else dot_dot ∷ []
      | o ∷ os ↦ if same_name o dot_dot then dot_dot ∷ o ∷ os else os
    ])
    else n ∷ out

unfoldable pub clean_from : Bool → List Name → List Name → List Name
clean_from rooted out [] = reverse out
clean_from rooted out (n ∷ ns) = clean_from rooted (clean_step rooted out n) ns

-- `filepath.Clean(filepath.FromSlash(path))`; `.` and the root have no names.
unfoldable pub clean : FilePath → FilePath
clean p = record { rooted = p.rooted; elems = clean_from p.rooted [] p.elems }

abbrev pub init : List Name → List Name
init [] = []
init (a ∷ []) = []
init (a ∷ b ∷ m) = a ∷ init (b ∷ m)

abbrev pub last : List Name → Name → Name
last [] n = n
last (a ∷ m) n = last m a

-- `filepath.Dir` of a clean path, and of any path before it is cleaned
unfoldable pub dir : FilePath → FilePath
dir p = record { rooted = p.rooted; elems = init p.elems }

-- `filepath.Base` of a clean path
unfoldable pub base : FilePath → Name
base p = last p.elems (if p.rooted then slash ∷ [] else dot)

-- `filepath.Dir` of any path: what is in front of the last separator, cleaned
unfoldable pub dir_of : FilePath → FilePath
dir_of p = clean (dir p)

abbrev pub filled : List Name → List Name
filled [] = []
filled ([] ∷ ns) = filled ns
filled ((b ∷ n) ∷ ns) = (b ∷ n) ∷ filled ns

-- `filepath.Base` of any path: its last name that is not empty
unfoldable pub base_of : FilePath → Name
base_of p = base (record { rooted = p.rooted; elems = filled p.elems })

-- `filepath.Join` of a path and what follows it
unfoldable pub join : FilePath → List Name → FilePath
join p ns = clean (record { rooted = p.rooted; elems = p.elems ++ ns })

abbrev pub is_root : FilePath → Bool
is_root p = elim p.elems [ [] ↦ p.rooted | n ∷ ns ↦ false ]

-- The names of a path that is given as bytes.
abbrev pub split_from : Name → List ℕ → List Name
split_from n [] = reverse n ∷ []
split_from n (b ∷ bs) =
    let here = split_from [] bs in
    let more = split_from (b ∷ n) bs in if b == slash then reverse n ∷ here else more

unfoldable pub split : List ℕ → FilePath
split [] = record { rooted = false; elems = [] }
split (b ∷ bs) = record { rooted = b == slash; elems = split_from [] (b ∷ bs) }
