-- ===== src/MergeBase/Heap.antt =====
-- The swaps of the heap, and the items of the queue.
use test_perf.Prelude.{
  ℕ, zero, suc, ◌+◌, ◌<◌, ◌≡◌, ◌≢◌, ◌∙◌, refl, ap, Bool, true, false, some, List, [], ◌∷◌, ltb,
  ◌==◌, ==_iff, length, length-set, get_elem?, get_elem?_of_lt, get_elem?-set_ne,
  get_elem?-set_self, set, Bool-cases, inl, inr, pos, arith,
}
use test_perf.CommitQueue.{PrioritizedCommit, less, swap}

module _ (P : ℕ → ℕ → Type 0) (w : ℕ → ℕ) where
  -- Every item has the property of its hash and its flags.
  abbrev pub All : List PrioritizedCommit → Type 0
  All [] = Unit
  All (el ∷ pq) = P el.hash el.flags × All pq

  abbrev pub weight : List PrioritizedCommit → ℕ
  weight [] = 0
  weight (el ∷ pq) = w el.hash + weight pq

  -- Another order of the queue.
  pub record Keeps (pq pq' : List PrioritizedCommit) : Type 0 where
    pub all : All pq → All pq'
    pub weight_eq : weight pq' ≡ weight pq
    pub length_eq : length pq' ≡ length pq

  pub Keeps-refl : (pq : List PrioritizedCommit) → Keeps pq pq
  Keeps-refl pq = record { all = λ a. a; weight_eq = refl; length_eq = refl }

  pub Keeps-trans : (p q r : List PrioritizedCommit) → Keeps p q → Keeps q r → Keeps p r
  Keeps-trans p q r k l = record {
    all = λ a. l.all (k.all a);
    weight_eq = l.weight_eq ∙ k.weight_eq;
    length_eq = l.length_eq ∙ k.length_eq;
  }

  pub All-get :
      (pq : List PrioritizedCommit) (i : ℕ) (a : PrioritizedCommit)
      → get_elem? pq i ≡ some a
      → All pq
      → P a.hash a.flags
  All-get [] i a h v = cc (h)
  All-get (el ∷ pq) zero a h (p, v) = let e : el ≡ a = cc (h) in rw (← e) p
  All-get (el ∷ pq) (suc i) a h (p, v) = All-get pq i a h v

  All-set :
      (pq : List PrioritizedCommit) (i : ℕ) (b : PrioritizedCommit)
      → P b.hash b.flags
      → All pq
      → All (set pq i b)
  All-set [] i b q v = tt
  All-set (el ∷ pq) zero b q (p, v) = (q, v)
  All-set (el ∷ pq) (suc i) b q (p, v) = (p, All-set pq i b q v)

  weight-set :
      (pq : List PrioritizedCommit) (i : ℕ) (a b : PrioritizedCommit)
      → get_elem? pq i ≡ some a
      → weight (set pq i b) + w a.hash ≡ weight pq + w b.hash
  weight-set [] i a b h = cc (h)
  weight-set (el ∷ pq) zero a b h = let e : w el.hash ≡ w a.hash = cc (h) in omega (arith, e)
  weight-set (el ∷ pq) (suc i) a b h = omega (arith, weight-set pq i a b h)

  swap_eq :
      (pq : List PrioritizedCommit) (i j : ℕ) (a b : PrioritizedCommit)
      → get_elem? pq i ≡ some a
      → get_elem? pq j ≡ some b
      → swap pq i j
        ≡ some (set (set pq i (record b { index = pos i })) j (record a { index = pos j }))
  unfolding swap
  swap_eq pq i j a b p q = rw (swap, p, q) refl

  -- What stands at `j` once the item from there is at `i`.
  there :
      (pq : List PrioritizedCommit) (i j : ℕ) (b b' : PrioritizedCommit)
      → i < length pq
      → get_elem? pq j ≡ some b
      → b'.hash ≡ b.hash
      → (c : PrioritizedCommit) × (get_elem? (set pq i b') j ≡ some c) × (w c.hash ≡ w b.hash)
  there pq i j b b' l h e = elim (Bool-cases (i == j)) [
    | inl t ↦
        let q : i ≡ j = (==_iff i j).0 t in (b', rw (← q) (get_elem?-set_self pq i b' l), ap w e)
    | inr f ↦
        let n : i ≢ j = λ q. clash ((==_iff i j).1 q) f in (b, get_elem?-set_ne pq b' n ∙ h, refl)
  ]
    where
      clash : {a : Bool} → a ≡ true → a ≡ false → ⊥
      clash p q = cc (p, q)

  pub swap-Keeps :
      (pq : List PrioritizedCommit) (i j : ℕ)
      → i < length pq
      → j < length pq
      → (pq' : List PrioritizedCommit) × (swap pq i j ≡ some pq') × Keeps pq pq'
  swap-Keeps pq i j hi hj =
      let (a, p) = get_elem?_of_lt pq i hi in
      let (b, q) = get_elem?_of_lt pq j hj in
      let b' : PrioritizedCommit = record b { index = pos i } in
      let a' : PrioritizedCommit = record a { index = pos j } in
      let (c, r, e) = there pq i j b b' hi q refl in
      (
        set (set pq i b') j a',
        swap_eq pq i j a b p q,
        record {
          all = λ v.
              All-set (set pq i b') j a' (All-get pq i a p v)
                (All-set pq i b' (All-get pq j b q v) v);
          weight_eq = omega (arith, weight-set pq i a b' p, weight-set (set pq i b') j c a' r, e);
          length_eq = length-set (set pq i b') j a' ∙ length-set pq i b';
        },
      )

  pub less-some :
      (pq : List PrioritizedCommit) (i j : ℕ)
      → i < length pq
      → j < length pq
      → (b : Bool) × (less pq i j ≡ some b)
  unfolding less
  less-some pq i j hi hj =
      let (a, p) = get_elem?_of_lt pq i hi in
      let (b, q) = get_elem?_of_lt pq j hj in (ltb b.priority a.priority, rw (less, p, q) refl)
