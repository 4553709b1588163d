-- ===== src/MergeMsg/Conflicts.antt =====
-- Which paths the message of a merge names.
use mathlib.Core.List.{append-nil}
use test_perf.Prelude.{
  Bool, true, false, ◌≡◌, ◌∙◌, refl, sym, ap, List, [], ◌∷◌, ◌++◌, String, if◌then◌else◌,
  Bool-cases, inl, inr,
}
use test_perf.Result.{ok}
use test_perf.Action.{Action, pure, >>=-ok}
use test_perf.WorktreeMerge.Compare.{
  DiffType, no_conflict, both_modified_with_conflicts, both_modified_without_conflicts, both_added,
  both_deleted, modified_deleted, deleted_modified, MergingResult,
}
use test_perf.MergeMsg.{
  Log, conflict_lines, log_result, log_results, merge_title, commit_help, log_merge_conflicts,
}

-- The kinds that need a hand.
abbrev pub is_conflict : DiffType → Bool
is_conflict both_added = true
is_conflict both_modified_with_conflicts = true
is_conflict modified_deleted = true
is_conflict deleted_modified = true
is_conflict _ = false

-- The paths in conflict, in order.
abbrev pub conflicts : List (String × MergingResult) → List String
conflicts [] = []
conflicts ((path, r) ∷ rs) =
    let rest = conflicts rs in if is_conflict r.diff_type then path ∷ rest else rest

abbrev pub path_lines : List String → List String
path_lines [] = []
path_lines (p ∷ ps) = "#\t" ∷ p ∷ "\n" ∷ path_lines ps

abbrev pub any : List String → Bool
any [] = false
any (p ∷ ps) = true

-- The text of the MERGE_MSG file.
abbrev pub merge_msg : String → List String → List String
merge_msg theirs [] = merge_title theirs ++ commit_help ∷ []
merge_msg theirs (p ∷ ps) = (merge_title theirs ++ "# Conflicts:\n" ∷ []) ++ path_lines (p ∷ ps)

log_result_conflict :
    (theirs : String) (l : Log) (path : String) (r : MergingResult)
    → is_conflict r.diff_type ≡ true
    → ((log_result theirs l (path, r)).has_conflicts ≡ true)
      × ((log_result theirs l (path, r)).fb ≡ l.fb ++ "#\t" ∷ path ∷ "\n" ∷ [])
unfolding log_result conflict_lines
log_result_conflict theirs l path r h = at r.diff_type refl h
  where
    at :
        (d : DiffType)
        → r.diff_type ≡ d
        → is_conflict d ≡ true
        → ((log_result theirs l (path, r)).has_conflicts ≡ true)
          × ((log_result theirs l (path, r)).fb ≡ l.fb ++ "#\t" ∷ path ∷ "\n" ∷ [])
    at both_added e h = rw (log_result, e) (refl, refl)
    at both_modified_with_conflicts e h = rw (log_result, e) (refl, refl)
    at modified_deleted e h = rw (log_result, e) (refl, refl)
    at deleted_modified e h = rw (log_result, e) (refl, refl)
    at no_conflict e h = cc (h)
    at both_modified_without_conflicts e h = cc (h)
    at both_deleted e h = cc (h)

log_result_pass :
    (theirs : String) (l : Log) (path : String) (r : MergingResult)
    → is_conflict r.diff_type ≡ false
    → log_result theirs l (path, r) ≡ l
unfolding log_result conflict_lines
log_result_pass theirs l path r h = at r.diff_type refl h
  where
    at :
        (d : DiffType) → r.diff_type ≡ d → is_conflict d ≡ false → log_result theirs l (path, r) ≡ l
    at both_added e h = cc (h)
    at both_modified_with_conflicts e h = cc (h)
    at modified_deleted e h = cc (h)
    at deleted_modified e h = cc (h)
    at no_conflict e h = rw (log_result, e) refl
    at both_modified_without_conflicts e h = rw (log_result, e) refl
    at both_deleted e h = rw (log_result, e) refl

append_line :
    (a : List String) (x y z : String) (r : List String)
    → (a ++ x ∷ y ∷ z ∷ []) ++ r ≡ a ++ x ∷ y ∷ z ∷ r
append_line [] x y z r = refl
append_line (b ∷ a) x y z r = ap (◌∷◌ b) (append_line a x y z r)

log_results_lem :
    (theirs : String) (l : Log) (rs : List (String × MergingResult))
    → ((log_results theirs l rs).has_conflicts
        ≡ (if any (conflicts rs) then true else l.has_conflicts))
      × ((log_results theirs l rs).fb ≡ l.fb ++ path_lines (conflicts rs))
unfolding log_results
log_results_lem theirs l [] = (refl, sym (append-nil l.fb))
log_results_lem theirs l ((path, r) ∷ rs) =
    let (h, f) = log_results_lem theirs (log_result theirs l (path, r)) rs in
    elim (Bool-cases (is_conflict r.diff_type)) [
      | inr e ↦
          let q = log_result_pass theirs l path r e in
          rw e (
            h ∙ ap (λ (k : Log). if any (conflicts rs) then true else k.has_conflicts) q,
            f ∙ ap (λ (k : Log). k.fb ++ path_lines (conflicts rs)) q,
          )
      | inl e ↦
          let (a, b) = log_result_conflict theirs l path r e in
          rw e (
            h ∙ always (any (conflicts rs)) (log_result theirs l (path, r)).has_conflicts a,
            f
                ∙ ap (λ x. x ++ path_lines (conflicts rs)) b
                ∙ append_line l.fb "#\t" path "\n" (path_lines (conflicts rs)),
          )
    ]
  where
    always : (a b : Bool) → b ≡ true → (if a then true else b) ≡ true
    always true b e = refl
    always false b e = e

if_same : (b : Bool) → (if b then true else false) ≡ b
if_same true = refl
if_same false = refl

module _ {W : Type 0} (set_merge_msg : List String → Action W (Unit {0})) where
  -- If the text is stored, `logMergeConflicts` says whether a path is in conflict, and the text names
  -- just the paths in conflict, or else is the message for the commit of the merge.
  pub log_merge_conflicts_lem :
      (range : List (String × MergingResult) → List (String × MergingResult))
      (results : List (String × MergingResult)) (theirs : String) (s s' : W)
      → set_merge_msg (merge_msg theirs (conflicts (range results))) s ≡ (s', ok tt)
      → (msg : List String) × (log_merge_conflicts set_merge_msg range results theirs s
          ≡ (s', ok (any (conflicts (range results)), msg)))
  unfolding log_merge_conflicts
  log_merge_conflicts_lem range results theirs s s' h = at (conflicts (range results)) refl h
    where
      start : Log
      start = record {
        has_conflicts = false;
        b = [];
        fb = merge_title theirs ++ "# Conflicts:\n" ∷ [];
      }

      at :
          (c : List String)
          → conflicts (range results) ≡ c
          → set_merge_msg (merge_msg theirs c) s ≡ (s', ok tt)
          → (msg : List String) × (log_merge_conflicts set_merge_msg range results theirs s
              ≡ (s', ok (any c, msg)))
      at [] e h =
          let (a, b) = log_results_lem theirs start (range results) in
          let no : (log_results theirs start (range results)).has_conflicts ≡ false = rw e at a in
          (
            "Create merge commit to continue merge process" ∷ [],
            rw (log_merge_conflicts, no)
                (>>=-ok (set_merge_msg (merge_msg theirs []))
                  (λ u. pure (false, "Create merge commit to continue merge process" ∷ [])) s s' tt
                  h),
          )
      at (p ∷ ps) e h =
          let (a, b) = log_results_lem theirs start (range results) in
          let some_there : (log_results theirs start (range results)).has_conflicts ≡ true =
            rw e at a in
          let text : (log_results theirs start (range results)).fb ≡ merge_msg theirs (p ∷ ps) =
            b ∙ ap (λ x. start.fb ++ path_lines x) e in
          (
            (log_results theirs start (range results)).b
                ++ "Automatic merge failed; fix conflicts and then commit the result.\n" ∷ [],
            rw (log_merge_conflicts, some_there, text)
                (>>=-ok (set_merge_msg (merge_msg theirs (p ∷ ps)))
                  (λ u. pure (
                    true,
                    (log_results theirs start (range results)).b
                        ++ "Automatic merge failed; fix conflicts and then commit the result.\n"
                          ∷ [],
                  ))
                  s s' tt h),
          )
