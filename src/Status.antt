-- ===== src/Status.antt =====
-- status.go: the status of the files of a work tree.
--
-- A status code is a byte, here the constructor of its constant.
pub mod Codes
use test_perf.Prelude.{
  ℕ, Bool, true, false, not, ◌&&◌, ◌||◌, ◌==◌, ◌++◌, Option, none, some, List, [], ◌∷◌, String,
  get_elem?, if◌then◌else◌,
}
use test_perf.StringMap.{find, put}

pub data StatusCode : Type 0 where
  unmodified untracked modified added deleted renamed copied updated_but_unmerged : StatusCode

-- The byte of a constant.
abbrev pub code : StatusCode → ℕ
code unmodified = 32
code untracked = 63
code modified = 77
code added = 65
code deleted = 68
code renamed = 82
code copied = 67
code updated_but_unmerged = 85

-- `StatusCode.String`; `none` is an index out of range.
unfoldable pub string : StatusCode → Option String
string sc =
    get_elem?
      ("Unmodified" ∷ "Untracked" ∷ "Modified" ∷ "Added" ∷ "Deleted" ∷ "Renamed" ∷ "Copied"
        ∷ "UpdatedButUnmerged" ∷ [])
      (code sc)

pub record FileStatus : Type 0 where
  pub staging : StatusCode
  pub worktree : StatusCode
  pub extra : String

abbrev pub Status : Type 0
Status = List (String × FileStatus)

abbrev pub same_code : StatusCode → StatusCode → Bool
same_code a b = code a == code b

-- The status of a path, which the map has from then on.
unfoldable pub file : Status → String → FileStatus × Status
file s path = elim (find path s) [
  | some f ↦ (f, s)
  | none ↦
      let f : FileStatus = record { staging = untracked; worktree = untracked; extra = "" } in
      (f, put path f s)
]

unfoldable pub is_untracked : Status → String → Bool
is_untracked s path = elim (find path s) [ none ↦ false | some f ↦ same_code f.worktree untracked ]

unfoldable pub is_clean : Status → Bool
is_clean [] = true
is_clean ((path, f) ∷ s) =
    let rest = is_clean s in
    if not (same_code f.worktree unmodified) || not (same_code f.staging unmodified)
    then false
    else rest

-- One line of `Status.String` in its parts: the two codes and the path.
unfoldable pub lines : Status → List (ℕ × ℕ × List String)
lines [] = []
lines ((path, f) ∷ s) =
    let rest = lines s in
    if same_code f.staging unmodified && same_code f.worktree unmodified
    then rest
    else (
      code f.staging,
      code f.worktree,
      if same_code f.staging renamed then path ∷ " -> " ∷ f.extra ∷ [] else path ∷ [],
    )
      ∷ rest
