-- ===== src/WorktreeCommit/Unmerged.antt =====
-- `Commit` with unmerged files in the index.
use Prim.Native.String.{String}
use test_perf.Prelude.{
  ℕ, true, false, ◌≡◌, ◌≢◌, refl, sym, ap, ◌∙◌, Option, some, List, [], ◌∷◌, map, str_eq,
  Bool-cases, inl, inr, ◌==◌, ==_iff,
}
use test_perf.Result.{Result, ok, err, has_unmerged_files}
use test_perf.Action.{◌>>=◌, >>=-err}
use test_perf.StringMap.{find, str_eq_refl}
use test_perf.WorktreeMerge.{Entry, Stage, merged, get_unmerged_files}
use test_perf.WorktreeMerge.Entries.{unmerged_of, first_stage, find-get_unmerged_files}
use test_perf.WorktreeMerge.Files.{WorkTree, on_world}
use test_perf.TreeBuild.Walk.{In}
use test_perf.WorktreeCommit.{
  IndexItem, CommitOptions, CommitStore, map_ok, merge_entry, none_left, merge_head, head_or_none,
  merging_options, unmerged, commit_unless, commit_valid, commit_merging, forget_blobs, commit,
}
use test_perf.WorktreeCommit.Options.{commit_message, reading-ok}
use test_perf.WorktreeCommit.Whole.{commit-final, final_options}

unmerged_of-In :
    (i : IndexItem) (idx : List IndexItem)
    → In i idx
    → i.stage ≢ merged
    → (e : Entry) × (es : List Entry) × (unmerged_of i.name (map merge_entry idx) ≡ e ∷ es)
unmerged_of-In i [] h n = absurd h
unmerged_of-In i (j ∷ idx) (inl q) n =
    let st : (j.stage == merged) ≡ false =
      ap (λ (x : IndexItem). x.stage == merged) (sym q) ∙ not_merged i.stage n in
    let same : str_eq j.name i.name ≡ true =
      ap (λ (x : IndexItem). str_eq x.name i.name) (sym q) ∙ str_eq_refl i.name in
    (merge_entry j, unmerged_of i.name (map merge_entry idx), rw (st, same) refl)
  where
    not_merged : (st : Stage) → st ≢ merged → (st == merged) ≡ false
    not_merged st n = elim (Bool-cases (st == merged)) [
      | inl e ↦ absurd (n ((==_iff st merged).0 e))
      | inr e ↦ e
    ]
unmerged_of-In i (j ∷ idx) (inr h) n =
    let (e, es, k) = unmerged_of-In i idx h n in
    elim (Bool-cases (j.stage == merged)) [
      | inl a ↦ (e, es, rw a k)
      | inr a ↦ elim (Bool-cases (str_eq j.name i.name)) [
        | inl b ↦ (merge_entry j, unmerged_of i.name (map merge_entry idx), rw (a, b) refl)
        | inr b ↦ (e, es, rw (a, b) k)
      ]
    ]

some_unmerged :
    (idx : List IndexItem) (i : IndexItem)
    → In i idx
    → i.stage ≢ merged
    → (m : List (String × List Stage)) × (get_unmerged_files (ok (map merge_entry idx)) ≡ ok m)
      × (none_left m ≡ false)
some_unmerged idx i h n =
    let (m, e, f) = find-get_unmerged_files (map merge_entry idx) in
    let (x, xs, k) = unmerged_of-In i idx h n in (m, e, at m (f i.name ∙ ap first_stage k))
  where
    at :
        {st : List Stage} (m : List (String × List Stage))
        → find i.name m ≡ some st
        → none_left m ≡ false
    at [] k = cc
    at (a ∷ m) k = refl

module _ {W : Type 0} (io : CommitStore W) (msg : String) (opts : CommitOptions) (s : WorkTree W)
    (mh hd : Option ℕ) (merging : merge_head io s.world ≡ ok mh)
    (head : head_or_none io s.world ≡ ok hd) (author : String) (a : opts.author ≡ some author) where
  -- If MERGE_HEAD and HEAD can be read, there is an author, and the index has an entry that is not merged,
  -- `Commit` fails with `ErrHasUnmergedFiles` and changes nothing.
  pub commit-unmerged :
      (idx : List IndexItem) (i : IndexItem)
      → io.index s.world ≡ ok idx
      → In i idx
      → i.stage ≢ merged
      → commit io msg opts s ≡ (s, err has_unmerged_files)
  unfolding commit commit_valid commit_unless unmerged
  commit-unmerged idx i e h n =
      let (m, f, left) = some_unmerged idx i h n in
      let found : unmerged io s.world ≡ ok m =
        ap (λ r. get_unmerged_files (map_ok (map merge_entry) r)) e ∙ f in
      let refused : commit_valid io (commit_message io mh s.world msg)
            (final_options mh hd author opts) s.world
          ≡ (s.world, err has_unmerged_files) =
        reading-ok io (unmerged io)
          (commit_unless io (commit_message io mh s.world msg) (final_options mh hd author opts))
          s.world m found
        ∙ rw left refl in
      >>=-err (on_world (merging_options io msg opts >>= commit_merging io)) forget_blobs s s
        has_unmerged_files
        (ap (λ (r : W × Result ℕ). (record s { world = r.0 }, r.1))
          (commit-final io msg opts s mh hd merging head author a ∙ refused))
