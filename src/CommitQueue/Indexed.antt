-- ===== src/CommitQueue/Indexed.antt =====
-- The operations of the queue, and the indexes of its items.
use Prim.Native.Nat.{bit_or}
use test_perf.Prelude.{
  ℕ, zero, suc, ◌+◌, ◌-◌, ◌<◌, ◌≡◌, refl, sym, ap, none, some, Option-cases, List, [], ◌∷◌, ◌++◌,
  ◌==◌, length, get_elem?_of_lt, length-take, set, take, Bool-cases, inl, inr, pos, negsuc, arith,
}
use test_perf.CommitQueue.{PrioritizedCommit, swap, mark, push, pop}

-- The items from the position `n` on know their positions.
abbrev pub IsIndexed : ℕ → List PrioritizedCommit → Type 0
IsIndexed n [] = Unit
IsIndexed n (el ∷ pq) = (el.index ≡ pos n) × IsIndexed (suc n) pq

IsIndexed-mark :
    (n : ℕ) (item : PrioritizedCommit) (pq pq' : List PrioritizedCommit)
    → mark item pq ≡ some pq'
    → IsIndexed n pq
    → IsIndexed n pq'
unfolding mark
IsIndexed-mark n item [] pq' h v = cc
IsIndexed-mark n item (el ∷ pq) pq' h (p, v) = elim (Bool-cases (el.hash == item.hash)) [
  | inl e ↦
      let q : record el { flags = bit_or el.flags item.flags } ∷ pq ≡ pq' = cc (e, h) in
      rw (sym q) (p, v)
  | inr e ↦ elim (Option-cases (mark item pq)) [
    | inl f ↦ absurd (clash (rw (e, f) at h))
    | inr (pq₁, f) ↦
        let q : el ∷ pq₁ ≡ pq' = cc (e, f, h) in
        rw (sym q) (p, IsIndexed-mark (suc n) item pq pq₁ f v)
  ]
]
  where
    clash : none ≡ some pq' → ⊥
    clash h = cc

IsIndexed-append :
    (n m : ℕ) (pq : List PrioritizedCommit) (item : PrioritizedCommit)
    → m ≡ n + length pq
    → IsIndexed n pq
    → IsIndexed n (pq ++ record item { index = pos m } ∷ [])
IsIndexed-append n m [] item e v = let q : m ≡ n = omega arith in (ap pos q, tt)
IsIndexed-append n m (el ∷ pq) item e (p, v) =
    (p, IsIndexed-append (suc n) m pq item (omega arith) v)

IsIndexed-take : (n k : ℕ) (pq : List PrioritizedCommit) → IsIndexed n pq → IsIndexed n (take k pq)
IsIndexed-take n zero pq v = tt
IsIndexed-take n (suc k) [] v = tt
IsIndexed-take n (suc k) (el ∷ pq) (p, v) = (p, IsIndexed-take (suc n) k pq v)

IsIndexed-set :
    (n i j : ℕ) (pq : List PrioritizedCommit) (b : PrioritizedCommit)
    → j ≡ n + i
    → IsIndexed n pq
    → IsIndexed n (set pq i (record b { index = pos j }))
IsIndexed-set n i j [] b e v = tt
IsIndexed-set n zero j (el ∷ pq) b e (p, v) = let q : j ≡ n = omega arith in (ap pos q, v)
IsIndexed-set n (suc i) j (el ∷ pq) b e (p, v) = (p, IsIndexed-set (suc n) i j pq b (omega arith) v)

pub push_new :
    (pq : List PrioritizedCommit) (item : PrioritizedCommit)
    → mark item pq ≡ none
    → push pq item ≡ pq ++ record item { index = pos (length pq) } ∷ []
unfolding push
push_new pq item e = rw (e, push) refl

pub push_known :
    (pq pq' : List PrioritizedCommit) (item : PrioritizedCommit)
    → mark item pq ≡ some pq'
    → push pq item ≡ pq'
unfolding push
push_known pq pq' item e = rw (e, push) refl

-- If the items of the queue know their positions, they do after `Push` of any item.
pub push-IsIndexed :
    (pq : List PrioritizedCommit) (item : PrioritizedCommit)
    → IsIndexed 0 pq
    → IsIndexed 0 (push pq item)
push-IsIndexed pq item v = elim (Option-cases (mark item pq)) [
  | inl e ↦ rw (push_new pq item e) (IsIndexed-append 0 (length pq) pq item (omega arith) v)
  | inr (pq', e) ↦ rw (push_known pq pq' item e) (IsIndexed-mark 0 item pq pq' e v)
]

-- If the items of the queue know their positions, `Swap` of two positions in the queue does not
-- panic, and they do after it.
pub swap-IsIndexed :
    (pq : List PrioritizedCommit) (i j : ℕ)
    → i < length pq
    → j < length pq
    → IsIndexed 0 pq
    → (pq' : List PrioritizedCommit) × (swap pq i j ≡ some pq') × IsIndexed 0 pq'
unfolding swap
swap-IsIndexed pq i j hi hj v =
    let (a, p) = get_elem?_of_lt pq i hi in
    let (b, q) = get_elem?_of_lt pq j hj in
    (
      set (set pq i (record b { index = pos i })) j (record a { index = pos j }),
      rw (p, swap, q) refl,
      IsIndexed-set 0 j j _ a (omega arith) (IsIndexed-set 0 i i pq b (omega arith) v),
    )

-- If the items of the queue know their positions, they do after `Pop`, and the item that it returns
-- has the index -1.
pub pop-IsIndexed :
    (x : PrioritizedCommit) (xs : List PrioritizedCommit)
    → IsIndexed 0 (x ∷ xs)
    → (item : PrioritizedCommit) × (pq : List PrioritizedCommit) × (pop (x ∷ xs) ≡ some (item, pq))
      × IsIndexed 0 pq
      × (item.index ≡ negsuc 0)
      × (length pq ≡ length xs)
unfolding pop
pop-IsIndexed x xs v =
    let k = length (x ∷ xs) - 1 in
    let (item, e) = get_elem?_of_lt (x ∷ xs) k (omega arith) in
    (
      record item { index = negsuc 0 },
      take k (x ∷ xs),
      rw (e, pop) refl,
      IsIndexed-take 0 k (x ∷ xs) v,
      refl,
      omega (arith, length-take k (x ∷ xs)),
    )
