-- ===== src/MergeBase/Ancestors.antt =====
-- The search for the common parents: its end, and the commits that it finds.
use Prim.Native.Nat.{bit_and}
use test_perf.Prelude.{
  ℕ, zero, suc, ◌+◌, ◌≤◌, ◌<◌, ◌≡◌, ◌⊎◌, refl, ◌∙◌, true, false, some, List, [], ◌∷◌, ◌++◌, ◌==◌,
  Bool-cases, inl, inr, arith,
}
use test_perf.Result.{Result, ok, err, read_failed}
use test_perf.CommitQueue.{PrioritizedCommit, interesting}
use test_perf.MergeBase.{
  Commits, mark_parent1, mark_parent2, mark_result, heap_push, heap_pop, mark_commit, get_parents,
  push_parents, is_common, parent_flags, next_result, common_parents_from, get_common_parents,
}
use test_perf.MergeBase.Heap.{All, weight}
use test_perf.MergeBase.Sift.{heap_pop_lem, heap_push_lem}
use test_perf.MergeBase.Marks.{
  Among, Reaches, self, parent, sum, IsRank, Marks, Marks-Joins, side1-parent_flags,
  side2-parent_flags, common_sides,
}

module _ (objects : Commits) (old new : ℕ) where
  -- The parents of the commit can be loaded.
  abbrev pub IsLoaded : List ℕ → Type 0
  IsLoaded ps = (p : ℕ) → Among p ps → objects.loads p ≡ true

  abbrev pub AllCommon : List ℕ → Type 0
  AllCommon [] = Unit
  AllCommon (c ∷ res) =
      Reaches objects old c
      × Reaches objects new c
      × IsLoaded (objects.parent_hashes c)
      × AllCommon res

  -- One of the two commits, or an ancestor of one of them.
  abbrev pub Visited : ℕ → Type 0
  Visited c = Reaches objects old c ⊎ Reaches objects new c

  -- What the search comes to: an error where a parent of a commit that it visits cannot be loaded, or
  -- common ancestors.
  pub data Bases : Result (List ℕ) → Type 0 where
    failed :
        (c p : ℕ)
        → Visited c
        → Among p (objects.parent_hashes c)
        → objects.loads p ≡ false
        → Bases (err read_failed)
    based : (res : List ℕ) → AllCommon res → Bases (ok res)

  AllCommon-append :
      (res : List ℕ) (c : ℕ)
      → AllCommon res
      → Reaches objects old c
      → Reaches objects new c
      → IsLoaded (objects.parent_hashes c)
      → AllCommon (res ++ c ∷ [])
  AllCommon-append [] c v a b l = (a, b, l, tt)
  AllCommon-append (d ∷ res) c (p, q, k, v) a b l = (p, q, k, AllCommon-append res c v a b l)

  next_result-AllCommon :
      (el : PrioritizedCommit) (res : List ℕ)
      → Marks objects old new el.hash el.flags
      → AllCommon res
      → IsLoaded (objects.parent_hashes el.hash)
      → AllCommon (next_result el res)
  unfolding next_result
  next_result-AllCommon el res (a, b, o) v l = elim (Bool-cases (is_common el)) [
    | inr e ↦ rw e v
    | inl e ↦ elim (Bool-cases (bit_and el.flags mark_result == 0)) [
      | inr f ↦ rw (e, f) v
      | inl f ↦
          let (p, q) = common_sides el e in rw (e, f) (AllCommon-append res el.hash v (a p) (b q) l)
    ]
  ]

  -- The parents of a commit carry its marks.
  Marks-parent :
      (el : PrioritizedCommit) (p : ℕ)
      → Marks objects old new el.hash el.flags
      → Among p (objects.parent_hashes el.hash)
      → Marks objects old new p (parent_flags el)
  Marks-parent el p (a, b, o) m = (
    λ e. parent el.hash p (a (omega (arith, side1-parent_flags el, e))) m,
    λ e. parent el.hash p (b (omega (arith, side2-parent_flags el, e))) m,
    elim o [ inl r ↦ inl (parent el.hash p r m) | inr r ↦ inr (parent el.hash p r m) ],
  )

  get_parents_lem :
      (hs : List ℕ)
      → ((get_parents objects hs ≡ err read_failed)
          × (p : ℕ) × Among p hs
          × (objects.loads p ≡ false))
        ⊎ ((get_parents objects hs ≡ ok hs) × IsLoaded hs)
  unfolding get_parents
  get_parents_lem [] = inr (refl, λ p i. absurd i)
  get_parents_lem (h ∷ hs) = elim (Bool-cases (objects.loads h)) [
    | inr e ↦ inl (rw e refl, h, inl refl, e)
    | inl e ↦ elim (get_parents_lem hs) [
      | inl (f, p, i, q) ↦ inl (rw (e, f) refl, p, inr i, q)
      | inr (f, l) ↦ inr (rw (e, f) refl, λ p i. elim i [ inl q ↦ cc (q, e) | inr j ↦ l p j ])
    ]
  ]

  module _ (rank : ℕ → ℕ) where
    abbrev Good : List PrioritizedCommit → Type 0
    Good = All (Marks objects old new) rank

    abbrev size : List PrioritizedCommit → ℕ
    size = weight (Marks objects old new) rank

    push_parents_cons :
        (p : ℕ) (ps : List ℕ) (flags : ℕ) (pq q : List PrioritizedCommit)
        → heap_push pq (mark_commit objects p flags) ≡ some q
        → push_parents objects pq (p ∷ ps) flags ≡ push_parents objects q ps flags
    unfolding push_parents
    push_parents_cons p ps flags pq q e = rw (push_parents, e) refl

    push_parents_lem :
        (ps : List ℕ) (flags : ℕ) (pq : List PrioritizedCommit)
        → ((p : ℕ) → Among p ps → Marks objects old new p flags)
        → Good pq
        → (pq' : List PrioritizedCommit) × (push_parents objects pq ps flags ≡ some pq')
          × Good pq'
          × (size pq' ≤ size pq + sum rank ps)
    unfolding mark_commit push_parents
    push_parents_lem [] flags pq m v = (pq, refl, v, omega arith)
    push_parents_lem (p ∷ ps) flags pq m v =
        let (q, e, k, l) =
          heap_push_lem (Marks objects old new) rank (mark_commit objects p flags) pq
            (Marks-Joins objects old new rank) (m p (inl refl)) in
        let (q', e', v', l') = push_parents_lem ps flags q (λ x i. m x (inr i)) (k v) in
        (q', push_parents_cons p ps flags pq q e ∙ e', v', omega (arith, l, l'))

    loop_done :
        (fuel : ℕ) (pq : List PrioritizedCommit) (res : List ℕ)
        → interesting pq ≡ false
        → common_parents_from objects (suc fuel) pq res ≡ ok res
    unfolding common_parents_from
    loop_done fuel pq res e = rw (common_parents_from, e) refl

    loop_failed :
        (fuel : ℕ) (pq q : List PrioritizedCommit) (res : List ℕ) (el : PrioritizedCommit)
        → interesting pq ≡ true
        → heap_pop pq ≡ some (el, q)
        → get_parents objects (objects.parent_hashes el.hash) ≡ err read_failed
        → common_parents_from objects (suc fuel) pq res ≡ err read_failed
    unfolding common_parents_from
    loop_failed fuel pq q res el e f g = rw (common_parents_from, e, f, g) refl

    loop_next :
        (fuel : ℕ) (pq q q' : List PrioritizedCommit) (res ps : List ℕ) (el : PrioritizedCommit)
        → interesting pq ≡ true
        → heap_pop pq ≡ some (el, q)
        → get_parents objects (objects.parent_hashes el.hash) ≡ ok ps
        → push_parents objects q ps (parent_flags el) ≡ some q'
        → common_parents_from objects (suc fuel) pq res
          ≡ common_parents_from objects fuel q' (next_result el res)
    unfolding common_parents_from
    loop_next fuel pq q q' res ps el e f g h = rw (common_parents_from, e, f, g, h) refl

    interesting_nil : interesting [] ≡ false
    unfolding interesting
    interesting_nil = refl

    common_parents_from-Bases :
        IsRank objects rank
        → (fuel : ℕ) (pq : List PrioritizedCommit) (res : List ℕ) → Good pq
        → AllCommon res
        → size pq < fuel
        → Bases (common_parents_from objects fuel pq res)
    common_parents_from-Bases r zero pq res v c l = absurd (omega arith)
    common_parents_from-Bases r (suc fuel) [] res v c l =
        rw (loop_done fuel [] res interesting_nil) (based res c)
    common_parents_from-Bases r (suc fuel) (x ∷ xs) res v c l =
        elim (Bool-cases (interesting (x ∷ xs))) [
          | inr e ↦ rw (loop_done fuel (x ∷ xs) res e) (based res c)
          | inl e ↦
              let (el, q, f, good, lt) = heap_pop_lem (Marks objects old new) rank x xs in
              let (m, v₁) = good v in
              elim (get_parents_lem (objects.parent_hashes el.hash)) [
                | inl (g, p, i, n) ↦
                    rw (loop_failed fuel (x ∷ xs) q res el e f g) (failed el.hash p m.2 i n)
                | inr (g, loaded) ↦
                    let (q', h, v₂, k) =
                      push_parents_lem (objects.parent_hashes el.hash) (parent_flags el) q
                        (λ p i. Marks-parent el p m i) v₁ in
                    rw (loop_next fuel (x ∷ xs) q q' res (objects.parent_hashes el.hash) el e f g h)
                      (common_parents_from-Bases r fuel q' (next_result el res) v₂
                        (next_result-AllCommon el res m c loaded)
                        (omega (arith, lt, k, r.sum_lt el.hash)))
              ]
        ]

    Marks-old : Marks objects old new old mark_parent1
    Marks-old = (λ e. self, λ e. absurd (ground arith), inl self)

    Marks-new : Marks objects old new new mark_parent2
    Marks-new = (λ e. absurd (ground arith), λ e. self, inr self)

    -- With fuel for more rounds than the ranks of the two commits, `getCommonParents` ends, without a
    -- panic: either with an error, and then a parent of one of the two commits or of an ancestor of one
    -- cannot be loaded; or with commits of which each is the first commit or an ancestor of it, and the
    -- second or an ancestor of that, and has parents that can be loaded.
    pub get_common_parents-Bases :
        IsRank objects rank
        → (fuel : ℕ) → rank old + rank new < fuel
        → Bases (get_common_parents objects fuel old new)
    unfolding get_common_parents mark_commit
    get_common_parents-Bases r fuel l =
        let join = Marks-Joins objects old new rank in
        let (q₁, e₁, a₁, w₁) =
          heap_push_lem (Marks objects old new) rank (mark_commit objects old mark_parent1) [] join
            Marks-old in
        let (q₂, e₂, a₂, w₂) =
          heap_push_lem (Marks objects old new) rank (mark_commit objects new mark_parent2) q₁ join
            Marks-new in
        rw (e₁, e₂) (common_parents_from-Bases r fuel q₂ [] (a₂ (a₁ tt)) tt (omega (arith, w₁, w₂)))
