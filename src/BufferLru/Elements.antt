-- ===== src/BufferLru/Elements.antt =====
-- The list of the cache: the entries with their keys, all different, and their sizes.
use test_perf.Prelude.{
  ℕ, suc, ◌+◌, ◌≡◌, ◌∙◌, refl, ap, Bool, true, false, some, List, [], ◌∷◌, ◌++◌, ◌==◌, length,
  if◌then◌else◌, Bool-cases, inl, inr, arith,
}
use test_perf.BufferLru.{Buffer, size, find, remove, back}

abbrev pub total : List Buffer → ℕ
total [] = 0
total (b ∷ ll) = size b + total ll

abbrev pub has : ℕ → List Buffer → Bool
has k [] = false
has k (b ∷ ll) = let rest = has k ll in if b.key == k then true else rest

abbrev pub Distinct : List Buffer → Type 0
Distinct [] = Unit
Distinct (b ∷ ll) = (has b.key ll ≡ false) × Distinct ll

pub find_of_has :
    (k : ℕ) (ll : List Buffer) → has k ll ≡ true → (b : Buffer) × (find k ll ≡ some b) × (b.key ≡ k)
find_of_has k [] h = cc
find_of_has k (b ∷ ll) h = elim (Bool-cases (b.key == k)) [
  | inl e ↦ (b, rw e refl, ground arith)
  | inr e ↦ let (x, f, p) = find_of_has k ll (rw e at h) in (x, rw e f, p)
]

pub total-remove :
    (k : ℕ) (ll : List Buffer) (b : Buffer)
    → find k ll ≡ some b
    → total ll ≡ size b + total (remove k ll)
total-remove k [] b h = cc
total-remove k (x ∷ ll) b h = elim (Bool-cases (x.key == k)) [
  | inl e ↦ let f : x ≡ b = cc (e, h) in rw (e, f) refl
  | inr e ↦ rw e (omega (arith, total-remove k ll b (rw e at h)))
]

pub length-remove :
    (k : ℕ) (ll : List Buffer) (b : Buffer)
    → find k ll ≡ some b
    → length ll ≡ suc (length (remove k ll))
length-remove k [] b h = cc
length-remove k (x ∷ ll) b h = elim (Bool-cases (x.key == k)) [
  | inl e ↦ rw e refl
  | inr e ↦ rw e (ap suc (length-remove k ll b (rw e at h)))
]

-- A key is in the list after a removal if it is another one and was there.
pub has-remove :
    (j k : ℕ) (ll : List Buffer)
    → Distinct ll
    → has j (remove k ll) ≡ (if k == j then false else has j ll)
has-remove j k [] d = ground arith
has-remove j k (x ∷ ll) (p, d) = elim (Bool-cases (x.key == k)) [
  | inl e ↦ elim (Bool-cases (k == j)) [
    | inl f ↦ let q : x.key ≡ j = ground arith in rw (e, f) (rw q at p)
    | inr f ↦ let q : (x.key == j) ≡ false = ground arith in rw (e, f, q) refl
  ]
  | inr e ↦ elim (Bool-cases (x.key == j)) [
    | inl f ↦ let q : (k == j) ≡ false = ground arith in rw (e, q, f) refl
    | inr f ↦ rw (e, f) (has-remove j k ll d)
  ]
]

pub Distinct-remove : (k : ℕ) (ll : List Buffer) → Distinct ll → Distinct (remove k ll)
Distinct-remove k [] d = tt
Distinct-remove k (x ∷ ll) (p, d) = elim (Bool-cases (x.key == k)) [
  | inl e ↦ rw e d
  | inr e ↦
      let q : (k == x.key) ≡ false = ground arith in
      rw e (has-remove x.key k ll d ∙ rw q p, Distinct-remove k ll d)
]

pub remove_absent : (k : ℕ) (ll : List Buffer) → has k ll ≡ false → remove k ll ≡ ll
remove_absent k [] h = refl
remove_absent k (x ∷ ll) h = elim (Bool-cases (x.key == k)) [
  | inl e ↦ absurd (clash (rw e at h))
  | inr e ↦ rw e (ap (◌∷◌ x) (remove_absent k ll (rw e at h)))
]
  where
    clash : true ≡ false → ⊥
    clash h = cc

has_of_find : (k : ℕ) (ll : List Buffer) (b : Buffer) → find k ll ≡ some b → has k ll ≡ true
has_of_find k [] b h = cc
has_of_find k (x ∷ ll) b h = elim (Bool-cases (x.key == k)) [
  | inl e ↦ rw e refl
  | inr e ↦ rw e (has_of_find k ll b (rw e at h))
]

-- The last entry is found by its key, and its removal leaves the others.
pub back_lem :
    (b : Buffer) (ll : List Buffer)
    → Distinct (b ∷ ll)
    → (x : Buffer) × (back (b ∷ ll) ≡ some x)
      × (find x.key (b ∷ ll) ≡ some x)
      × (b ∷ ll ≡ remove x.key (b ∷ ll) ++ x ∷ [])
back_lem b [] d = let e : (b.key == b.key) ≡ true = ground arith in (b, refl, rw e refl, rw e refl)
back_lem b (c ∷ ll) (p, d) =
    let (x, run, f, s) = back_lem c ll d in
    let e = other b x (c ∷ ll) p f in (x, run, rw e f, rw e (ap (◌∷◌ b) s))
  where
    other :
        (b x : Buffer) (ll : List Buffer)
        → has b.key ll ≡ false
        → find x.key ll ≡ some x
        → (b.key == x.key) ≡ false
    other b x ll p f = elim (Bool-cases (b.key == x.key)) [
      | inl e ↦
          let q : b.key ≡ x.key = ground arith in
          let g : has b.key ll ≡ true = rw q (has_of_find x.key ll x f) in cc (p, g)
      | inr e ↦ e
    ]
