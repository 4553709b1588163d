-- ===== src/MergeBase/Sift.antt =====
-- Push and Pop of the heap of commits.
use Prim.Native.Nat.{bit_or}
use test_perf.Prelude.{
  ℕ, zero, suc, ◌+◌, ◌*◌, ◌-◌, ◌/◌, ◌≤◌, ◌<◌, ◌≡◌, ◌∙◌, refl, ap, some, Option-cases, List, [], ◌∷◌,
  ◌++◌, ltb, leb, ◌==◌, ==_iff, length, length-append, get_elem?, get_elem?_of_lt, take, Bool-cases,
  inl, inr, pos, negsuc, arith,
}
use test_perf.CommitQueue.{PrioritizedCommit, swap, mark, push, pop}
use test_perf.CommitQueue.Indexed.{push_new, push_known}
use test_perf.MergeBase.{up, child, down, heap_push, heap_pop}
use test_perf.MergeBase.Heap.{
  All, weight, Keeps, Keeps-refl, Keeps-trans, All-get, swap-Keeps, less-some,
}

module _ (P : ℕ → ℕ → Type 0) (w : ℕ → ℕ) where
  pub up-Keeps :
      (n : ℕ) (pq : List PrioritizedCommit) (j : ℕ)
      → j < length pq
      → (pq' : List PrioritizedCommit) × (up n pq j ≡ some pq') × Keeps P w pq pq'
  unfolding up
  up-Keeps zero pq j h = (pq, refl, Keeps-refl P w pq)
  up-Keeps (suc n) pq j h = elim (Bool-cases ((j - 1) / 2 == j)) [
    | inl e ↦ (pq, rw e refl, Keeps-refl P w pq)
    | inr e ↦
        let l : (j - 1) / 2 < length pq = omega arith in
        let (b, f) = less-some P w pq j ((j - 1) / 2) h l in
        elim (Bool-cases b) [
          | inr g ↦ (pq, rw (e, f, g) refl, Keeps-refl P w pq)
          | inl g ↦
              let (pq₁, k, s) = swap-Keeps P w pq ((j - 1) / 2) j l h in
              let m : (j - 1) / 2 < length pq₁ = omega (arith, s.length_eq) in
              let (pq₂, u, r) = up-Keeps n pq₁ ((j - 1) / 2) m in
              (pq₂, rw (e, f, g, k) u, Keeps-trans P w pq pq₁ pq₂ s r)
        ]
  ]

  child-some :
      (pq : List PrioritizedCommit) (j n : ℕ)
      → j < n
      → n ≤ length pq
      → (c : ℕ) × (child pq j n ≡ some c) × (c < n)
  unfolding child
  child-some pq j n h l = elim (Bool-cases (ltb (j + 1) n)) [
    | inr e ↦ (j, rw e refl, h)
    | inl e ↦
        let m : j + 1 < n = ground arith in
        let (b, f) = less-some P w pq (j + 1) j (omega arith) (omega arith) in
        elim (Bool-cases b) [
          | inl g ↦ (j + 1, rw (e, f, g) refl, m)
          | inr g ↦ (j, rw (e, f, g) refl, h)
        ]
  ]

  pub down-Keeps :
      (f : ℕ) (pq : List PrioritizedCommit) (i n : ℕ)
      → n ≤ length pq
      → (pq' : List PrioritizedCommit) × (down f pq i n ≡ some pq') × Keeps P w pq pq'
  unfolding down
  down-Keeps zero pq i n h = (pq, refl, Keeps-refl P w pq)
  down-Keeps (suc f) pq i n h = elim (Bool-cases (leb n (2 * i + 1))) [
    | inl e ↦ (pq, rw e refl, Keeps-refl P w pq)
    | inr e ↦
        let l : 2 * i + 1 < n = ground arith in
        let (j, c, m) = child-some pq (2 * i + 1) n l h in
        let (b, g) = less-some P w pq j i (omega arith) (omega arith) in
        elim (Bool-cases b) [
          | inr t ↦ (pq, rw (e, c, g, t) refl, Keeps-refl P w pq)
          | inl t ↦
              let (pq₁, k, s) = swap-Keeps P w pq i j (omega arith) (omega arith) in
              let (pq₂, u, r) = down-Keeps f pq₁ j n (omega (arith, s.length_eq)) in
              (pq₂, rw (e, c, g, t, k) u, Keeps-trans P w pq pq₁ pq₂ s r)
        ]
  ]

  take_last :
      (pq : List PrioritizedCommit) (n : ℕ) (a : PrioritizedCommit)
      → get_elem? pq n ≡ some a
      → length pq ≡ suc n
      → (w a.hash + weight P w (take n pq) ≡ weight P w pq) × (All P w pq → All P w (take n pq))
  take_last [] n a h l = cc (h)
  take_last (el ∷ []) zero a h l =
      let e : w el.hash ≡ w a.hash = cc (h) in (omega (arith, e), λ v. tt)
  take_last (el ∷ x ∷ pq) zero a h l = absurd (omega (arith, l))
  take_last (el ∷ pq) (suc n) a h l =
      let (e, v) = take_last pq n a h (omega (arith, l)) in (omega (arith, e), λ (p, q). (p, v q))

  pop_eq :
      (q : List PrioritizedCommit) (n : ℕ) (a : PrioritizedCommit)
      → length q - 1 ≡ n
      → get_elem? q n ≡ some a
      → pop q ≡ some (record a { index = negsuc 0 }, take n q)
  unfolding pop
  pop_eq q n a m g =
      let g' : get_elem? q (length q - 1) ≡ some a = rw m g in
      rw (pop, g') (ap (λ k. some (record a { index = negsuc 0 }, take k q)) m)

  heap_pop_eq :
      (q q₁ q₂ : List PrioritizedCommit)
      → swap q 0 (length q - 1) ≡ some q₁
      → down (length q - 1) q₁ 0 (length q - 1) ≡ some q₂
      → heap_pop q ≡ pop q₂
  unfolding heap_pop
  heap_pop_eq q q₁ q₂ e₁ e₂ = rw (heap_pop, e₁, e₂) refl

  -- `heap.Pop` of a queue that is not empty.
  pub heap_pop_lem :
      (x : PrioritizedCommit) (xs : List PrioritizedCommit)
      → (el : PrioritizedCommit) × (pq' : List PrioritizedCommit) × (heap_pop (x ∷ xs)
          ≡ some (el, pq'))
        × (All P w (x ∷ xs) → P el.hash el.flags × All P w pq')
        × (w el.hash + weight P w pq' ≡ weight P w (x ∷ xs))
  heap_pop_lem x xs =
      let n = length (x ∷ xs) - 1 in
      let (q₁, e₁, k₁) = swap-Keeps P w (x ∷ xs) 0 n (omega arith) (omega arith) in
      let (q₂, e₂, k₂) = down-Keeps n q₁ 0 n (omega (arith, k₁.length_eq)) in
      let len : length q₂ ≡ suc n = omega (arith, k₁.length_eq, k₂.length_eq) in
      let (a, g) = get_elem?_of_lt q₂ n (omega (arith, len)) in
      let same : length q₂ - 1 ≡ n = omega (arith, len) in
      let (e, v) = take_last q₂ n a g len in
      (
        record a { index = negsuc 0 },
        take n q₂,
        heap_pop_eq (x ∷ xs) q₁ q₂ e₁ e₂ ∙ pop_eq q₂ n a same g,
        λ u. let u₂ = k₂.all (k₁.all u) in (All-get P w q₂ n a g u₂, v u₂),
        omega (arith, e, k₁.weight_eq, k₂.weight_eq),
      )

  -- Marks of one commit come together.
  abbrev pub Joins : Type 0
  Joins = (h a b : ℕ) → P h a → P h b → P h (bit_or a b)

  mark-All :
      (item : PrioritizedCommit) (pq pq' : List PrioritizedCommit)
      → Joins
      → mark item pq ≡ some pq'
      → P item.hash item.flags
      → (All P w pq → All P w pq') × (weight P w pq' ≡ weight P w pq) × (length pq' ≡ length pq)
  unfolding mark
  mark-All item [] pq' j h p = cc (h)
  mark-All item (el ∷ pq) pq' j h p = elim (Bool-cases (el.hash == item.hash)) [
    | inl e ↦
        let q : record el { flags = bit_or el.flags item.flags } ∷ pq ≡ pq' = cc (e, h) in
        let same : el.hash ≡ item.hash = (==_iff el.hash item.hash).0 e in
        rw (← q) (λ (u, v). (j el.hash el.flags item.flags u (rw same p), v), refl, refl)
    | inr e ↦ elim (Option-cases (mark item pq)) [
      | inl f ↦ cc (e, f, h)
      | inr (pq₁, f) ↦
          let q : el ∷ pq₁ ≡ pq' = cc (e, f, h) in
          let (a, b, c) = mark-All item pq pq₁ j f p in
          rw (← q) (λ (u, v). (u, a v), ap (λ x. w el.hash + x) b, ap suc c)
    ]
  ]

  append-All :
      (item : PrioritizedCommit) (pq : List PrioritizedCommit)
      → P item.hash item.flags
      → (All P w pq → All P w (pq ++ item ∷ []))
        × (weight P w (pq ++ item ∷ []) ≡ weight P w pq + w item.hash)
  append-All item [] p = (λ v. (p, tt), omega arith)
  append-All item (el ∷ pq) p =
      let (a, b) = append-All item pq p in (λ (u, v). (u, a v), omega (arith, b))

  marked :
      (item : PrioritizedCommit) (pq pq' : List PrioritizedCommit)
      → mark item pq ≡ some pq'
      → 0 < length pq
  unfolding mark
  marked item [] pq' e = cc (e)
  marked item (el ∷ pq) pq' e = omega arith

  push-All :
      (item : PrioritizedCommit) (pq : List PrioritizedCommit)
      → Joins
      → P item.hash item.flags
      → (All P w pq → All P w (push pq item))
        × (weight P w (push pq item) ≤ weight P w pq + w item.hash)
        × (0 < length (push pq item))
  push-All item pq j p = elim (Option-cases (mark item pq)) [
    | inl e ↦
        let (a, b) = append-All (record item { index = pos (length pq) }) pq p in
        let l : 0 < length (pq ++ record item { index = pos (length pq) } ∷ []) =
          omega (arith, length-append pq (record item { index = pos (length pq) } ∷ [])) in
        rw (push_new pq item e) (a, omega (arith, b), l)
    | inr (pq', e) ↦
        let (a, b, c) = mark-All item pq pq' j e p in
        rw (push_known pq pq' item e) (a, omega (arith, b), omega (arith, c, marked item pq pq' e))
  ]

  -- `heap.Push`
  pub heap_push_lem :
      (item : PrioritizedCommit) (pq : List PrioritizedCommit)
      → Joins
      → P item.hash item.flags
      → (pq' : List PrioritizedCommit) × (heap_push pq item ≡ some pq')
        × (All P w pq → All P w pq')
        × (weight P w pq' ≤ weight P w pq + w item.hash)
  unfolding heap_push
  heap_push_lem item pq j p =
      let (a, b, c) = push-All item pq j p in
      let (pq', e, k) =
        up-Keeps (length (push pq item) - 1) (push pq item) (length (push pq item) - 1)
          (omega (arith, c)) in
      (pq', rw (heap_push, e) refl, λ v. k.all (a v), omega (arith, b, k.weight_eq))
