-- ===== src/MysqlFile/Write.antt =====
-- The content after `WriteAt`, byte by byte.
use mathlib.Core.List.{append-nil}
use test_perf.Prelude.{
  ℕ, zero, suc, ◌+◌, ◌-◌, ◌≤◌, ◌<◌, ◌≡◌, ◌∙◌, refl, sym, ap, none, List, [], ◌∷◌, ◌++◌, ltb, length,
  take, drop, replicate, get_elem?, get_elem?-take, length-take, length-append, length-replicate,
  if◌then◌else◌, Bool-cases, inl, inr, arith,
}
use test_perf.MysqlFile.{written}

module _ {ℓ} {A : Type ℓ} where
  get_elem?-append-left :
      (xs ys : List A) (i : ℕ) → i < length xs → get_elem? (xs ++ ys) i ≡ get_elem? xs i
  get_elem?-append-left [] ys i h = absurd (omega arith)
  get_elem?-append-left (x ∷ xs) ys zero h = refl
  get_elem?-append-left (x ∷ xs) ys (suc i) h = get_elem?-append-left xs ys i (omega arith)

  get_elem?-append-right :
      (xs ys : List A) (i j : ℕ) → i ≡ length xs + j → get_elem? (xs ++ ys) i ≡ get_elem? ys j
  get_elem?-append-right [] ys i j h = let e : i ≡ j = omega arith in ap (get_elem? ys) e
  get_elem?-append-right (x ∷ xs) ys zero j h = absurd (omega arith)
  get_elem?-append-right (x ∷ xs) ys (suc i) j h = get_elem?-append-right xs ys i j (omega arith)

  get_elem?-drop : (n : ℕ) (xs : List A) (j : ℕ) → get_elem? (drop n xs) j ≡ get_elem? xs (n + j)
  get_elem?-drop zero xs j = let e : j ≡ 0 + j = omega arith in ap (get_elem? xs) e
  get_elem?-drop (suc n) [] j = refl
  get_elem?-drop (suc n) (x ∷ xs) j =
      let e : suc n + j ≡ suc (n + j) = omega arith in rw e (get_elem?-drop n xs j)

  get_elem?-past : (xs : List A) (i : ℕ) → length xs ≤ i → get_elem? xs i ≡ none
  get_elem?-past [] i h = refl
  get_elem?-past (x ∷ xs) zero h = absurd (omega arith)
  get_elem?-past (x ∷ xs) (suc i) h = get_elem?-past xs i (omega arith)

  drop-append : (n : ℕ) (xs ys : List A) → length xs ≡ n → drop n (xs ++ ys) ≡ ys
  drop-append zero [] ys h = refl
  drop-append zero (x ∷ xs) ys h = absurd (omega arith)
  drop-append (suc n) [] ys h = absurd (omega arith)
  drop-append (suc n) (x ∷ xs) ys h = drop-append n xs ys (omega arith)

  take-append : (xs ys : List A) → take (length xs) (xs ++ ys) ≡ xs
  take-append [] ys = refl
  take-append (x ∷ xs) ys = ap (◌∷◌ x) (take-append xs ys)

abbrev padded : List ℕ → ℕ → List ℕ
padded c o = c ++ replicate (o - length c) 0

front_length : (c : List ℕ) (o : ℕ) → length (take o (padded c o)) ≡ o
front_length c o = omega (
  arith,
  length-take o (padded c o),
  length-append c (replicate (o - length c) 0),
  length-replicate {A = ℕ} (o - length c) 0,
)

-- The bytes behind the written ones.
abbrev rest_of : List ℕ → ℕ → List ℕ → List ℕ
rest_of c o p = if ltb (o + length p) (length c) then drop (o + length p) c else []

written_lem :
    (c : List ℕ) (o : ℕ) (p : List ℕ) → written c o p ≡ take o (padded c o) ++ (p ++ rest_of c o p)
unfolding written
written_lem c o p = elim (Bool-cases (ltb (o + length p) (length c))) [
  | inl e ↦ rw e refl
  | inr e ↦ rw (e, append-nil) refl
]

-- The bytes that were written stand at their offset.
pub written-at : (c : List ℕ) (o : ℕ) (p : List ℕ) → take (length p) (drop o (written c o p)) ≡ p
written-at c o p =
    rw
      (
        written_lem c o p,
        drop-append o (take o (padded c o)) (p ++ rest_of c o p) (front_length c o),
      )
      (take-append p (rest_of c o p))

pub written-length : (c : List ℕ) (o : ℕ) (p : List ℕ) → o + length p ≤ length (written c o p)
written-length c o p = rw (written_lem c o p) (
    omega (
      arith,
      length-append (take o (padded c o)) (p ++ rest_of c o p),
      length-append p (rest_of c o p),
      front_length c o,
    ))

-- Byte `i` after a write of `p` at `o`: before `o` it is the old one, or 0 past the old end; then it
-- is the written one; behind that the old one.
pub get_elem?-written :
    (c : List ℕ) (o : ℕ) (p : List ℕ) (i : ℕ)
    → get_elem? (written c o p) i ≡ (
        if ltb i o
        then get_elem? (c ++ replicate (o - length c) 0) i
        else if ltb i (o + length p)
        then get_elem? p (i - o)
        else get_elem? c i)
get_elem?-written c o p i = elim (Bool-cases (ltb i o)) [
  | inl e ↦
      rw (written_lem c o p, e)
        (get_elem?-append-left (take o (padded c o)) _ i (ground (arith, front_length c o))
          ∙ get_elem?-take o (padded c o) i (ground arith))
  | inr e ↦
      rw
        (
          written_lem c o p,
          e,
          get_elem?-append-right (take o (padded c o)) (p ++ rest_of c o p) i (i - o)
              (ground (arith, front_length c o)),
        )
        (behind (ground arith))
]
  where
    behind :
        o ≤ i
        → get_elem? (p ++ rest_of c o p) (i - o)
          ≡ (if ltb i (o + length p) then get_elem? p (i - o) else get_elem? c i)
    behind h = elim (Bool-cases (ltb i (o + length p))) [
      | inl e ↦ rw e (get_elem?-append-left p _ (i - o) (ground arith))
      | inr e ↦
          let j = i - o - length p in
          rw (e, get_elem?-append-right p (rest_of c o p) (i - o) j (ground arith))
            (elim (Bool-cases (ltb (o + length p) (length c))) [
              | inl f ↦
                  let q : o + length p + j ≡ i = ground arith in
                  rw f (get_elem?-drop (o + length p) c j ∙ ap (get_elem? c) q)
              | inr f ↦ rw f (sym (get_elem?-past c i (ground arith)))
            ])
    ]
