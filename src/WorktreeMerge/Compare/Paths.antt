-- ===== src/WorktreeMerge/Compare/Paths.antt =====
-- The loops of the comparison over the paths that the two sides have changed.
use test_perf.Prelude.{
  ◌≡◌, ◌∙◌, refl, sym, ap, inl, inr, Bool-cases, Option, none, some, Option-cases, List, [], ◌∷◌,
  String, str_eq, eq_iff,
}
use test_perf.Result.{ok, read_failed}
use test_perf.Action.{Action, ◌>>=◌, pure, reads, >>=-ok_inv, Yields, Yields-pure}
use test_perf.StringMap.{find, put, IsMap, find-put, find-put_ne}
use test_perf.Status.{StatusCode}
use test_perf.WorktreeMerge.Files.{World, WorkTree, lift}
use test_perf.WorktreeMerge.Compare.{
  no_conflict, MergingResult, MergingChanges, statuses_from, both_changed, ours_changed, ours_loop,
  theirs_changed, theirs_loop, compare_commits_changes,
}
use test_perf.WorktreeMerge.Compare.Outcome.{
  Outcome, IsRange, statuses_from-IsMap, both_changed-Verdict,
}

-- What the first loop leaves under a path: what was there if ours has not changed it.
abbrev pub AfterOurs :
    Option StatusCode → Option StatusCode → Option MergingResult → Option MergingResult → Type 0
AfterOurs none o r r' = r' ≡ r
AfterOurs (some s₁) o r r' = Outcome (some s₁) o r'

-- What the second loop leaves under a path.
abbrev pub AfterTheirs :
    Option StatusCode → Option StatusCode → Option MergingResult → Option MergingResult → Type 0
AfterTheirs none o r r' = r' ≡ r
AfterTheirs (some s₂) none r r' = Outcome none (some s₂) r'
AfterTheirs (some s₂) (some s₁) r r' = r' ≡ r

ours_here :
    (s₁ : StatusCode) (c : MergingResult) (f f₂ : Option StatusCode) (r r' : Option MergingResult)
    → f ≡ none
    → r ≡ some c
    → AfterOurs f f₂ r r'
    → Outcome (some s₁) f₂ (some c)
    → Outcome (some s₁) f₂ r'
ours_here s₁ c f f₂ r r' a b x y = let e : r' ≡ some c = (rw a at x) ∙ b in rw e y

theirs_here :
    (s₂ : StatusCode) (f : Option StatusCode) (f₁ : Option StatusCode)
    (c r r' : Option MergingResult)
    → f ≡ none
    → r ≡ c
    → AfterTheirs f f₁ r r'
    → r' ≡ c
theirs_here s₂ f f₁ c r r' a b x = let e : r' ≡ r = rw a at x in e ∙ b

module _ {C I W : Type 0} (io : World C I W) where
  ours_changed-Outcome :
      (idx : I) (ours theirs : MergingChanges C I) (path : String) (s₁ : StatusCode)
      (o : Option StatusCode)
      → Yields (λ c. Outcome (some s₁) o (some c)) (ours_changed io idx ours theirs path s₁ o)
  unfolding ours_changed
  ours_changed-Outcome idx ours theirs path s₁ none =
      Yields-pure (λ c. Outcome (some s₁) none (some c)) _ refl
  ours_changed-Outcome idx ours theirs path s₁ (some s₂) = record {
    yields = λ s s' c h.
        let (t, d, e, k) =
          >>=-ok_inv (both_changed io idx ours theirs path s₁ s₂)
            (λ d. pure (record { ours_status = some s₁; theirs_status = some s₂; diff_type = d })) s
            s' c h in
        (d, cc (k), both_changed-Verdict io idx ours theirs path s₁ s₂ s t d e);
  }

  ours_loop-AfterOurs :
      (idx : I) (ours theirs : MergingChanges C I) (st₂ l : List (String × StatusCode))
      (res res' : List (String × MergingResult)) (s s' : WorkTree W)
      → IsMap l
      → ours_loop io idx ours theirs st₂ l res s ≡ (s', ok res')
      → (p : String) → AfterOurs (find p l) (find p st₂) (find p res) (find p res')
  unfolding ours_loop
  ours_loop-AfterOurs idx ours theirs st₂ [] res res' s s' u h p =
      let e : res ≡ res' = cc (h) in ap (find p) (sym e)
  ours_loop-AfterOurs idx ours theirs st₂ ((path, s₁) ∷ l) res res' s s' (n, u) h p =
      let (t, c, e, k) =
        >>=-ok_inv (ours_changed io idx ours theirs path s₁ (find path st₂))
          (λ c. ours_loop io idx ours theirs st₂ l (put path c res)) s s' res' h in
      let rest = ours_loop-AfterOurs idx ours theirs st₂ l (put path c res) res' t s' u k p in
      let here = (ours_changed-Outcome idx ours theirs path s₁ (find path st₂)).yields s t c e in
      elim (Bool-cases (str_eq path p)) [
        | inl q ↦
            let at_path : path ≡ p = (eq_iff path p).0 q in
            rw q (
              ours_here s₁ c (find p l) (find p st₂) (find p (put path c res)) (find p res')
                (rw (← at_path) n) (rw (← at_path) (find-put path c res)) rest (rw at_path at here))
        | inr q ↦ rw q (rw (find-put_ne p path c res q) at rest)
      ]

  theirs_loop-AfterTheirs :
      (theirs : MergingChanges C I) (st₁ l : List (String × StatusCode))
      (res res' : List (String × MergingResult)) (s s' : WorkTree W)
      → IsMap l
      → theirs_loop io theirs st₁ l res s ≡ (s', ok res')
      → (p : String) → AfterTheirs (find p l) (find p st₁) (find p res) (find p res')
  unfolding theirs_loop
  theirs_loop-AfterTheirs theirs st₁ [] res res' s s' u h p =
      let e : res ≡ res' = cc (h) in ap (find p) (sym e)
  theirs_loop-AfterTheirs theirs st₁ ((path, s₂) ∷ l) res res' s s' (n, u) h p =
      elim (Option-cases (find path st₁)) [
        | inr (s₁, f) ↦
            let k : theirs_loop io theirs st₁ l res s ≡ (s', ok res') = cc (f, h) in
            let rest = theirs_loop-AfterTheirs theirs st₁ l res res' s s' u k p in
            elim (Bool-cases (str_eq path p)) [
              | inl q ↦
                  let at_path : path ≡ p = (eq_iff path p).0 q in
                  rw (q, ← at_path, f)
                    (theirs_here s₂ (find path l) (find path st₁) (find path res) (find path res)
                      (find path res') n refl (rw (← at_path) at rest))
              | inr q ↦ rw q rest
            ]
        | inl f ↦
            let c : MergingResult = record {
              ours_status = none;
              theirs_status = some s₂;
              diff_type = no_conflict;
            } in
            let (t, v, e, k) =
              >>=-ok_inv (theirs_changed io theirs path s₂)
                (λ v. theirs_loop io theirs st₁ l (put path c res)) s s' res' (cc (f, h)) in
            let rest = theirs_loop-AfterTheirs theirs st₁ l (put path c res) res' t s' u k p in
            elim (Bool-cases (str_eq path p)) [
              | inl q ↦
                  let at_path : path ≡ p = (eq_iff path p).0 q in
                  rw (q, ← at_path, f)
                    (theirs_here s₂ (find path l) (find path st₁) (some c)
                      (find path (put path c res)) (find path res') n (find-put path c res)
                      (rw (← at_path) at rest))
              | inr q ↦ rw q (rw (find-put_ne p path c res q) at rest)
            ]
      ]

  -- Both loops together.
  both_loops :
      (o₁ o₂ : Option StatusCode) (r₁ r₂ r₃ : Option MergingResult)
      → r₁ ≡ none
      → AfterOurs o₁ o₂ r₁ r₂
      → AfterTheirs o₂ o₁ r₂ r₃
      → Outcome o₁ o₂ r₃
  both_loops none none r₁ r₂ r₃ e a b = b ∙ a ∙ e
  both_loops none (some s₂) r₁ r₂ r₃ e a b = b
  both_loops (some s₁) none r₁ r₂ r₃ e a b = rw b a
  both_loops (some s₁) (some s₂) r₁ r₂ r₃ e a b = rw b a

  -- If `compareCommitsChanges` ends without an error, its result has just the paths that a side has
  -- changed, each with the statuses that the changes of the two sides come to and the kind that belongs
  -- to them, in whatever order the loops go over the maps.
  pub compare_commits_changes-Outcome :
      (range : List (String × StatusCode) → List (String × StatusCode))
      (ours theirs : MergingChanges C I) (s s' : WorkTree W) (st₁ st₂ : List (String × StatusCode))
      (res : List (String × MergingResult))
      → IsRange range
      → statuses_from [] ours.changes ≡ ok st₁
      → statuses_from [] theirs.changes ≡ ok st₂
      → compare_commits_changes io range ours theirs s ≡ (s', ok res)
      → (p : String) → Outcome (find p st₁) (find p st₂) (find p res)
  unfolding compare_commits_changes
  compare_commits_changes-Outcome range ours theirs s s' st₁ st₂ res g e₁ e₂ h p =
      let (t₀, idx, e₀, h₀) =
        >>=-ok_inv (reads read_failed (λ (s : WorkTree W). io.index s.world)) (after_index) s s' res
          h in
      let u₁ = statuses_from-IsMap [] st₁ ours.changes tt e₁ in
      let u₂ = statuses_from-IsMap [] st₂ theirs.changes tt e₂ in
      let (t₁, r₁, k₁, k₂) =
        >>=-ok_inv (ours_loop io idx ours theirs st₂ (range st₁) [])
          (theirs_loop io theirs st₁ (range st₂)) t₀ s' res (after_statuses idx t₀ h₀) in
      let a =
        ours_loop-AfterOurs idx ours theirs st₂ (range st₁) [] r₁ t₀ t₁ (g.range-IsMap st₁ u₁) k₁
          p in
      let b =
        theirs_loop-AfterTheirs theirs st₁ (range st₂) r₁ res t₁ s' (g.range-IsMap st₂ u₂) k₂ p in
      both_loops (find p st₁) (find p st₂) none (find p r₁) (find p res) refl
        (rw (g.find-range st₁ p u₁) at a) (rw (g.find-range st₂ p u₂) at b)
    where
      after_index : I → Action (WorkTree W) (List (String × MergingResult))
      after_index idx = do
        statuses₁ ← lift (statuses_from [] ours.changes)
        statuses₂ ← lift (statuses_from [] theirs.changes)
        res ← ours_loop io idx ours theirs statuses₂ (range statuses₁) []
        theirs_loop io theirs statuses₁ (range statuses₂) res

      after_statuses :
          (idx : I) (t : WorkTree W)
          → after_index idx t ≡ (s', ok res)
          → (ours_loop io idx ours theirs st₂ (range st₁) []
                >>= theirs_loop io theirs st₁ (range st₂))
              t
            ≡ (s', ok res)
      after_statuses idx t h₀ = rw (e₁, e₂) at h₀
