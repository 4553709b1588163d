-- ===== src/StringMap.antt =====
-- A map from strings: an association list with each key once. Go leaves the order open in which a loop
-- goes over a map.
use test_perf.Prelude.{
  ◌≡◌, refl, sym, ◌≢◌, true, false, Option, none, some, List, [], ◌∷◌, String, str_eq, eq_iff,
  if◌then◌else◌, Bool-cases, inl, inr,
}

module _ {A : Type 0} where
  abbrev pub find : String → List (String × A) → Option A
  find p [] = none
  find p ((q, a) ∷ m) = let rest = find p m in if str_eq q p then some a else rest

  abbrev pub put : String → A → List (String × A) → List (String × A)
  put p a [] = (p, a) ∷ []
  put p a ((q, b) ∷ m) = let rest = put p a m in if str_eq q p then (q, a) ∷ m else (q, b) ∷ rest

  -- Each key stands once.
  abbrev pub IsMap : List (String × A) → Type 0
  IsMap [] = Unit
  IsMap ((p, a) ∷ m) = (find p m ≡ none) × IsMap m

pub str_eq_refl : (p : String) → str_eq p p ≡ true
str_eq_refl p = (eq_iff p p).1 refl

pub str_eq_ne : {p q : String} → p ≢ q → str_eq p q ≡ false
str_eq_ne {p} {q} h = elim (Bool-cases (str_eq p q)) [
  | inl e ↦ absurd (h ((eq_iff p q).0 e))
  | inr e ↦ e
]

pub str_eq_sym : (p q : String) → str_eq q p ≡ false → str_eq p q ≡ false
str_eq_sym p q e = elim (Bool-cases (str_eq p q)) [
  | inl f ↦ let g : str_eq q p ≡ true = (eq_iff q p).1 (sym ((eq_iff p q).0 f)) in cc (g, e)
  | inr f ↦ f
]

module _ {A : Type 0} where
  pub find-put : (p : String) (a : A) (m : List (String × A)) → find p (put p a m) ≡ some a
  find-put p a [] = rw (str_eq_refl p) refl
  find-put p a ((q, b) ∷ m) = elim (Bool-cases (str_eq q p)) [
    | inl e ↦ rw (e, e) refl
    | inr e ↦ rw (e, e) (find-put p a m)
  ]

  pub find-put_ne :
      (p q : String) (a : A) (m : List (String × A))
      → str_eq q p ≡ false
      → find p (put q a m) ≡ find p m
  find-put_ne p q a [] h = rw h refl
  find-put_ne p q a ((r, b) ∷ m) h = elim (Bool-cases (str_eq r q)) [
    | inl e ↦
        let k : r ≡ q = (eq_iff r q).0 e in let n : str_eq r p ≡ false = rw k h in rw (e, n) refl
    | inr e ↦ elim (Bool-cases (str_eq r p)) [
      | inl f ↦ rw (e, f) refl
      | inr f ↦ rw (e, f) (find-put_ne p q a m h)
    ]
  ]

  pub put-IsMap : (p : String) (a : A) (m : List (String × A)) → IsMap m → IsMap (put p a m)
  put-IsMap p a [] u = (refl, tt)
  put-IsMap p a ((q, b) ∷ m) (n, u) = elim (Bool-cases (str_eq q p)) [
    | inl e ↦ rw e (n, u)
    | inr e ↦ rw e (rw (find-put_ne q p a m (str_eq_sym p q e)) n, put-IsMap p a m u)
  ]
