-- ===== src/MergeSteps/Ends.antt =====
-- What the end of a merge says of its steps.
use test_perf.Prelude.{
  ℕ, ◌≡◌, ◌≢◌, ◌↔◌, ◌∙◌, refl, sym, Bool, true, false, Option, none, some, List, String,
  if◌then◌else◌,
}
use test_perf.Result.{Error, ok, not_exist, merge_in_progress, uncommitted_files}
use test_perf.Action.{
  Action, ◌>>=◌, ◌>>◌, pure, fail, >>=-ok, >>=-ok_inv, Yields, Yields-pure, Yields-bind,
}
use test_perf.MergeMsg.{log_merge_conflicts}
use test_perf.MergeSteps.{
  MergeEnd, fast_forwarded, commit_needed, with_conflicts, Steps, or_false, has_uncommitted_files,
  merge_checked, non_fast_forward_merge, merge_branch,
}

module _ {W : Type 0} (io : Steps W) where
  -- A merge that is no fast forward does not end as one.
  abbrev Other : MergeEnd → Type 0
  Other m = m ≢ fast_forwarded

  Other-end :
      (c : Bool) (msg : List String) → Other (if c then with_conflicts msg else commit_needed msg)
  Other-end true msg h = cc (h)
  Other-end false msg h = cc (h)

  merge_checked-Other :
      (ours theirs : ℕ) (b : String) → Yields Other (merge_checked io ours theirs b)
  unfolding merge_checked
  merge_checked-Other ours theirs b = Yields-bind Other (io.get_commit ours) _ (λ u₁.
      Yields-bind Other (io.get_commit theirs) _ (λ u₂.
        Yields-bind Other (io.compute_parent ours theirs) _ (λ p.
          Yields-bind Other (io.set_merge_head theirs) _ (λ u₃.
            Yields-bind Other (io.set_orig_head ours) _ (λ u₄.
              Yields-bind Other (io.merge_commits p ours theirs) _ (λ r.
                Yields-bind Other (log_merge_conflicts io.set_merge_msg io.range r b) _
                  (λ (c, msg). Yields-pure Other _ (Other-end c msg))))))))

  Other-fail : (e : Error) → Yields {S = W} Other (fail e)
  Other-fail e = record { yields = λ s s' a h. cc (h) }

  non_fast_forward_merge-Other :
      (ours theirs : ℕ) (b : String) → Yields Other (non_fast_forward_merge io ours theirs b)
  unfolding non_fast_forward_merge
  non_fast_forward_merge-Other ours theirs b = Yields-bind Other io.merge_head _ (λ mh. at mh)
    where
      dirty :
          (d : Bool)
          → Yields Other (if d then fail uncommitted_files else merge_checked io ours theirs b)
      dirty true = Other-fail uncommitted_files
      dirty false = merge_checked-Other ours theirs b

      at :
          (mh : Option ℕ)
          → Yields Other (elim mh as (λ x. Action W MergeEnd) [
            | some h ↦ fail merge_in_progress
            | none ↦ (do
              d ← or_false (has_uncommitted_files io ours)
              (if d then fail uncommitted_files else merge_checked io ours theirs b))
          ])
      at (some h) = Other-fail merge_in_progress
      at none = Yields-bind Other (or_false (has_uncommitted_files io ours)) _ (λ d. dirty d)

  -- A fast forward to a branch: the branch of that name is at `theirs`, which HEAD can be moved forward to,
  -- and it is, with the work tree.
  pub record FastForward (b : String) (s s' : W) : Type 0 where
    pub ours : ℕ
    pub theirs : ℕ
    pub found : W
    pub looked : W
    pub tested : W
    pub moved : W
    pub head : io.head s ≡ (found, ok (some ours))
    pub branch : io.branch b found ≡ (looked, ok theirs)
    pub ahead : io.is_fast_forward ours theirs looked ≡ (tested, ok true)
    pub moves_head : io.update_head theirs tested ≡ (moved, ok tt)
    pub resets : io.reset_hard theirs moved ≡ (s', ok tt)

  module _ (b : String) where
    after_reset : Unit {0} → Action W MergeEnd
    after_reset u = pure fast_forwarded

    after_update : ℕ → Unit {0} → Action W MergeEnd
    after_update theirs u = do io.reset_hard theirs; pure fast_forwarded

    after_test : ℕ → ℕ → Bool → Action W MergeEnd
    after_test ours theirs ff =
        if ff
        then (do io.update_head theirs; io.reset_hard theirs; pure fast_forwarded)
        else non_fast_forward_merge io ours theirs b

    after_theirs : ℕ → ℕ → Action W MergeEnd
    after_theirs ours theirs = do ff ← io.is_fast_forward ours theirs; after_test ours theirs ff

    after_head : Option ℕ → Action W MergeEnd
    after_head found = elim found [
      | none ↦ fail not_exist
      | some ours ↦ do theirs ← io.branch b; after_theirs ours theirs
    ]

    merge_branch_lem : (s : W) → merge_branch io b s ≡ (io.head >>= after_head) s
    unfolding merge_branch after_test after_theirs after_head
    merge_branch_lem s = refl

    -- The test said that it is a fast forward.
    after_test_inv :
        (ours theirs : ℕ) (ff : Bool) (s s' : W)
        → after_test ours theirs ff s ≡ (s', ok fast_forwarded)
        → (ff ≡ true)
          × (moved : W) × (io.update_head theirs s ≡ (moved, ok tt))
          × (io.reset_hard theirs moved ≡ (s', ok tt))
    unfolding after_test after_update after_reset
    after_test_inv ours theirs false s s' h =
        absurd ((non_fast_forward_merge-Other ours theirs b).yields s s' fast_forwarded h refl)
    after_test_inv ours theirs true s s' h =
        let (moved, u, e, k) =
          >>=-ok_inv (io.update_head theirs) (after_update theirs) s s' fast_forwarded h in
        let (last, v, f, l) =
          >>=-ok_inv (io.reset_hard theirs) after_reset moved s' fast_forwarded k in
        let q : last ≡ s' = cc (l) in (refl, moved, e, rw (← q) f)

    FastForward-run :
        (s s' : W) → FastForward b s s' → merge_branch io b s ≡ (s', ok fast_forwarded)
    unfolding after_test after_theirs after_head after_update after_reset
    FastForward-run s s' f =
        merge_branch_lem s
        ∙ >>=-ok io.head after_head s f.found (some f.ours) f.head
        ∙ >>=-ok (io.branch b) (after_theirs f.ours) f.found f.looked f.theirs f.branch
        ∙ >>=-ok (io.is_fast_forward f.ours f.theirs) (after_test f.ours f.theirs) f.looked f.tested
            true f.ahead
        ∙ >>=-ok (io.update_head f.theirs) (after_update f.theirs) f.tested f.moved tt f.moves_head
        ∙ >>=-ok (io.reset_hard f.theirs) after_reset f.moved s' tt f.resets

    headed :
        (found : Option ℕ) (s t s' : W)
        → io.head s ≡ (t, ok found)
        → after_head found t ≡ (s', ok fast_forwarded)
        → FastForward b s s'
    unfolding after_head after_theirs
    headed none s t s' e h = cc (h)
    headed (some ours) s t s' e h =
        let (looked, theirs, e₂, h₂) =
          >>=-ok_inv (io.branch b) (after_theirs ours) t s' fast_forwarded h in
        let (tested, ff, e₃, h₃) =
          >>=-ok_inv (io.is_fast_forward ours theirs) (after_test ours theirs) looked s'
            fast_forwarded h₂ in
        let (q, moved, f, g) = after_test_inv ours theirs ff tested s' h₃ in
        record {
          ours = ours;
          theirs = theirs;
          found = t;
          looked = looked;
          tested = tested;
          moved = moved;
          head = e;
          branch = e₂;
          ahead = rw (← q) e₃;
          moves_head = f;
          resets = g;
        }

  -- `Merge` of a branch returns no error exactly if HEAD has a commit, the branch of that name has one that
  -- HEAD can be moved forward to, and HEAD is set to this commit and the work tree reset to it, each call
  -- on the state that the one before left; no other merge ends without an error.
  pub merge_branch-fast_forwarded :
      (b : String) (s s' : W) → (merge_branch io b s ≡ (s', ok fast_forwarded)) ↔ FastForward b s s'
  merge_branch-fast_forwarded b s s' = (
    λ h.
        let (t, found, e, k) =
          >>=-ok_inv io.head (after_head b) s s' fast_forwarded (sym (merge_branch_lem b s) ∙ h) in
        headed b found s t s' e k,
    FastForward-run b s s',
  )
