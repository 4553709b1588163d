-- ===== src/WorktreeMerge/Entries.antt =====
-- The unmerged entries of the index, by path.
use test_perf.Prelude.{
  false, not, ◌≡◌, ◌∙◌, refl, sym, ap, Option, none, some, List, [], ◌∷◌, ◌++◌, String, str_eq,
  eq_iff, if◌then◌else◌, ◌==◌, Bool-cases, inl, inr, Option-cases,
}
use mathlib.Core.List.{append-nil}
use test_perf.Result.{ok}
use test_perf.StringMap.{find, put, find-put, find-put_ne}
use test_perf.WorktreeMerge.{
  Entry, Stage, merged, add_entry, conflict_entries_from, conflict_entries, add_stage,
  unmerged_files_from, get_unmerged_files,
}

-- The entries of a path that are not merged, in the order of the index.
abbrev pub unmerged_of : String → List Entry → List Entry
unmerged_of p [] = []
unmerged_of p (e ∷ es) =
    let rest = unmerged_of p es in
    if not (e.stage == merged) then (if str_eq e.name p then e ∷ rest else rest) else rest

abbrev pub nonempty : {A : Type 0} → List A → Option (List A)
nonempty [] = none
nonempty (a ∷ l) = some (a ∷ l)

-- What the map has under a path, with more entries behind.
abbrev more : Option (List Entry) → List Entry → Option (List Entry)
more none es = nonempty es
more (some c) es = some (c ++ es)

append_one : {A : Type 0} (c : List A) (e : A) (es : List A) → (c ++ e ∷ []) ++ es ≡ c ++ e ∷ es
append_one [] e es = refl
append_one (x ∷ c) e es = ap (◌∷◌ x) (append_one c e es)

add_entry-none :
    (e : Entry) (m : List (String × List Entry))
    → find e.name m ≡ none
    → add_entry e m ≡ put e.name (e ∷ []) m
unfolding add_entry
add_entry-none e m h = rw (add_entry, h) refl

add_entry-some :
    (e : Entry) (m : List (String × List Entry)) (c : List Entry)
    → find e.name m ≡ some c
    → add_entry e m ≡ put e.name (c ++ e ∷ []) m
unfolding add_entry
add_entry-some e m c h = rw (add_entry, h) refl

find-add_entry_self :
    (e : Entry) (m : List (String × List Entry)) (es : List Entry)
    → more (find e.name (add_entry e m)) es ≡ more (find e.name m) (e ∷ es)
find-add_entry_self e m es = elim (Option-cases (find e.name m)) [
  | inl n ↦ rw (add_entry-none e m n, n, find-put e.name (e ∷ []) m) refl
  | inr (c, k) ↦
      rw (add_entry-some e m c k, k, find-put e.name (c ++ e ∷ []) m) (ap some (append_one c e es))
]

find-add_entry_self_at :
    (e : Entry) (m : List (String × List Entry)) (p : String) (es : List Entry)
    → e.name ≡ p
    → more (find p (add_entry e m)) es ≡ more (find p m) (e ∷ es)
find-add_entry_self_at e m p es q = rw (← q) (find-add_entry_self e m es)

find-add_entry_ne :
    (e : Entry) (m : List (String × List Entry)) (p : String)
    → str_eq e.name p ≡ false
    → find p (add_entry e m) ≡ find p m
find-add_entry_ne e m p h = elim (Option-cases (find e.name m)) [
  | inl n ↦ rw (add_entry-none e m n) (find-put_ne p e.name (e ∷ []) m h)
  | inr (c, k) ↦ rw (add_entry-some e m c k) (find-put_ne p e.name (c ++ e ∷ []) m h)
]

more_nil : (o : Option (List Entry)) → more o [] ≡ o
more_nil none = refl
more_nil (some c) = ap some (append-nil c)

find-conflict_entries_from :
    (es : List Entry) (m : List (String × List Entry)) (p : String)
    → find p (conflict_entries_from m es) ≡ more (find p m) (unmerged_of p es)
unfolding conflict_entries_from
find-conflict_entries_from [] m p = sym (more_nil (find p m))
find-conflict_entries_from (e ∷ es) m p = elim (Bool-cases (e.stage == merged)) [
  | inl s ↦ rw s (find-conflict_entries_from es m p)
  | inr s ↦ elim (Bool-cases (str_eq e.name p)) [
    | inl k ↦
        let q : e.name ≡ p = (eq_iff e.name p).0 k in
        rw (s, k)
          (find-conflict_entries_from es (add_entry e m) p
            ∙ find-add_entry_self_at e m p (unmerged_of p es) q)
    | inr k ↦
        rw (s, k)
          (find-conflict_entries_from es (add_entry e m) p
            ∙ ap (λ o. more o (unmerged_of p es)) (find-add_entry_ne e m p k))
  ]
]

-- If the index is read, `ConflictEntries` has under a path just its entries that are not merged, in the order of the index,
-- and no path without one.
pub find-conflict_entries :
    (es : List Entry)
    → (m : List (String × List Entry)) × (conflict_entries (ok es) ≡ ok m)
      × ((p : String) → find p m ≡ nonempty (unmerged_of p es))
unfolding conflict_entries
find-conflict_entries es = (conflict_entries_from [] es, refl, find-conflict_entries_from es [])

-- What `getUnmergedFiles` has for the entries of one path.
abbrev pub first_stage : List Entry → Option (List Stage)
first_stage [] = none
first_stage (e ∷ es) = some (e.stage ∷ [])

abbrev first_or : Option (List Stage) → List Entry → Option (List Stage)
first_or none es = first_stage es
first_or (some c) es = some c

add_stage-none :
    (e : Entry) (m : List (String × List Stage))
    → find e.name m ≡ none
    → add_stage e m ≡ put e.name (e.stage ∷ []) m
unfolding add_stage
add_stage-none e m h = rw (add_stage, h) refl

add_stage-some :
    (e : Entry) (m : List (String × List Stage)) (c : List Stage)
    → find e.name m ≡ some c
    → add_stage e m ≡ m
unfolding add_stage
add_stage-some e m c h = rw (add_stage, h) refl

find-add_stage_self :
    (e : Entry) (m : List (String × List Stage)) (es : List Entry)
    → first_or (find e.name (add_stage e m)) es ≡ first_or (find e.name m) (e ∷ es)
find-add_stage_self e m es = elim (Option-cases (find e.name m)) [
  | inl n ↦ rw (add_stage-none e m n, n, find-put e.name (e.stage ∷ []) m) refl
  | inr (c, k) ↦ rw (add_stage-some e m c k, k) refl
]

find-add_stage_self_at :
    (e : Entry) (m : List (String × List Stage)) (p : String) (es : List Entry)
    → e.name ≡ p
    → first_or (find p (add_stage e m)) es ≡ first_or (find p m) (e ∷ es)
find-add_stage_self_at e m p es q = rw (← q) (find-add_stage_self e m es)

find-add_stage_ne :
    (e : Entry) (m : List (String × List Stage)) (p : String)
    → str_eq e.name p ≡ false
    → find p (add_stage e m) ≡ find p m
find-add_stage_ne e m p h = elim (Option-cases (find e.name m)) [
  | inl n ↦ rw (add_stage-none e m n) (find-put_ne p e.name (e.stage ∷ []) m h)
  | inr (c, k) ↦ rw (add_stage-some e m c k) refl
]

first_or_nil : (o : Option (List Stage)) → first_or o [] ≡ o
first_or_nil none = refl
first_or_nil (some c) = refl

find-unmerged_files_from :
    (es : List Entry) (m : List (String × List Stage)) (p : String)
    → find p (unmerged_files_from m es) ≡ first_or (find p m) (unmerged_of p es)
unfolding unmerged_files_from
find-unmerged_files_from [] m p = sym (first_or_nil (find p m))
find-unmerged_files_from (e ∷ es) m p = elim (Bool-cases (e.stage == merged)) [
  | inl s ↦ rw s (find-unmerged_files_from es m p)
  | inr s ↦ elim (Bool-cases (str_eq e.name p)) [
    | inl k ↦
        let q : e.name ≡ p = (eq_iff e.name p).0 k in
        rw (s, k)
          (find-unmerged_files_from es (add_stage e m) p
            ∙ find-add_stage_self_at e m p (unmerged_of p es) q)
    | inr k ↦
        rw (s, k)
          (find-unmerged_files_from es (add_stage e m) p
            ∙ ap (λ o. first_or o (unmerged_of p es)) (find-add_stage_ne e m p k))
  ]
]

-- If the index is read, `getUnmergedFiles` has under a path only the stage of the first of its entries that are not merged,
-- however many there are, and no path without one.
pub find-get_unmerged_files :
    (es : List Entry)
    → (m : List (String × List Stage)) × (get_unmerged_files (ok es) ≡ ok m)
      × ((p : String) → find p m ≡ first_stage (unmerged_of p es))
unfolding get_unmerged_files
find-get_unmerged_files es = (unmerged_files_from [] es, refl, find-unmerged_files_from es [])
