-- ===== src/Action.antt =====
-- Calls that change a state and may fail: the state comes back after an error too, since what was
-- written stays written.
pub mod Ends
pub mod Ensures
use test_perf.Prelude.{Option, none, some, ◌≡◌, ap, refl}
use test_perf.Result.{Result, Error, ok, err, panic, out_of_fuel}

abbrev pub Action : Type 0 → Type 0 → Type 0
Action S A = S → S × Result A

infixl 5 ◌>>=◌ ◌>>◌
abbrev pub ◌>>=◌ : {S A B : Type 0} → Action S A → (A → Action S B) → Action S B
◌>>=◌ m f s =
    let (s', r) = m s in
    elim r [
      | ok a ↦ f a s'
      | err e ↦ (s', err e)
      | panic ↦ (s', panic)
      | out_of_fuel ↦ (s', out_of_fuel)
    ]

abbrev pub ◌>>◌ : {S A B : Type 0} → Action S A → Action S B → Action S B
m >> k = m >>= λ _. k

module _ {S A : Type 0} where
  abbrev pub pure : A → Action S A
  pure a s = (s, ok a)

  abbrev pub fail : Error → Action S A
  fail e s = (s, err e)

  -- A call that only reads, `none` being an error.
  abbrev pub reads : Error → (S → Option A) → Action S A
  reads e f s = elim (f s) [ none ↦ (s, err e) | some a ↦ (s, ok a) ]

module _ {S : Type 0} where
  -- A call that only changes the state, `none` being an error that changes nothing.
  abbrev pub changes : Error → (S → Option S) → Action S (Unit {0})
  changes e f s = elim (f s) [ none ↦ (s, err e) | some s' ↦ (s', ok tt) ]

  -- A call whose error the code drops.
  abbrev pub ignore : Action S (Unit {0}) → Action S (Unit {0})
  ignore m s =
      let (s', r) = m s in
      elim r [
        | ok a ↦ (s', ok tt)
        | err e ↦ (s', ok tt)
        | panic ↦ (s', panic)
        | out_of_fuel ↦ (s', out_of_fuel)
      ]

module _ {S A : Type 0} where
  -- A call after whose error another is made, with its own error dropped.
  abbrev pub undo_on_error : Action S A → Action S (Unit {0}) → Action S A
  undo_on_error m undo s =
      let (s', r) = m s in
      elim r [
        | ok a ↦ (s', ok a)
        | err e ↦ (ignore undo >>= λ u. fail e) s'
        | panic ↦ (s', panic)
        | out_of_fuel ↦ (s', out_of_fuel)
      ]

-- A step of a run whose outcome is known.
module _ {S A B : Type 0} (m : Action S A) (f : A → Action S B) (s s' : S) where
  pub >>=-ok : (a : A) → m s ≡ (s', ok a) → (m >>= f) s ≡ f a s'
  >>=-ok a e =
      ap
        (λ (r : S × Result A). elim r.1 as (λ x. S × Result B) [
          | ok a ↦ f a r.0
          | err e ↦ (r.0, err e)
          | panic ↦ (r.0, panic)
          | out_of_fuel ↦ (r.0, out_of_fuel)
        ])
        e

  pub >>=-err : (e : Error) → m s ≡ (s', err e) → (m >>= f) s ≡ (s', err e)
  >>=-err e h =
      ap
        (λ (r : S × Result A). elim r.1 as (λ x. S × Result B) [
          | ok a ↦ f a r.0
          | err e ↦ (r.0, err e)
          | panic ↦ (r.0, panic)
          | out_of_fuel ↦ (r.0, out_of_fuel)
        ])
        h

  pub >>=-out_of_fuel : m s ≡ (s', out_of_fuel) → (m >>= f) s ≡ (s', out_of_fuel)
  >>=-out_of_fuel h =
      ap
        (λ (r : S × Result A). elim r.1 as (λ x. S × Result B) [
          | ok a ↦ f a r.0
          | err e ↦ (r.0, err e)
          | panic ↦ (r.0, panic)
          | out_of_fuel ↦ (r.0, out_of_fuel)
        ])
        h

  -- The steps of a run that has ended well.
  pub >>=-ok_inv :
      (b : B)
      → (m >>= f) s ≡ (s', ok b)
      → (s₁ : S) × (a : A) × (m s ≡ (s₁, ok a)) × (f a s₁ ≡ (s', ok b))
  >>=-ok_inv b h = at (m s) h
    where
      at :
          (o : S × Result A)
          → elim o.1 as (λ x. S × Result B) [
            | ok a ↦ f a o.0
            | err e ↦ (o.0, err e)
            | panic ↦ (o.0, panic)
            | out_of_fuel ↦ (o.0, out_of_fuel)
          ]
            ≡ (s', ok b)
          → (s₁ : S) × (a : A) × (o ≡ (s₁, ok a)) × (f a s₁ ≡ (s', ok b))
      at (s₁, ok a) h = (s₁, a, refl, h)
      at (s₁, err e) h = cc
      at (s₁, panic) h = cc
      at (s₁, out_of_fuel) h = cc

pub reads-some :
    {S A : Type 0} (e : Error) (f : S → Option A) (s : S) (a : A)
    → f s ≡ some a
    → reads e f s ≡ (s, ok a)
reads-some {S} {A} e f s a h =
    ap (λ o. elim o as (λ x. S × Result A) [ none ↦ (s, err e) | some a ↦ (s, ok a) ]) h

pub changes-some :
    {S : Type 0} (e : Error) (f : S → Option S) (s s' : S)
    → f s ≡ some s'
    → changes e f s ≡ (s', ok tt)
changes-some {S} e f s s' h =
    ap (λ o. elim o as (λ x. S × Result (Unit {0})) [ none ↦ (s, err e) | some s' ↦ (s', ok tt) ]) h

pub changes-none :
    {S : Type 0} (e : Error) (f : S → Option S) (s : S) → f s ≡ none → changes e f s ≡ (s, err e)
changes-none {S} e f s h =
    ap (λ o. elim o as (λ x. S × Result (Unit {0})) [ none ↦ (s, err e) | some s' ↦ (s', ok tt) ]) h

-- Whenever the call ends well, its value has the property.
pub record Yields {S A : Type 0} (P : A → Type 0) (m : Action S A) : Type 0 where
  pub yields : (s s' : S) (a : A) → m s ≡ (s', ok a) → P a

pub Yields-pure : {S A : Type 0} (P : A → Type 0) (a : A) → P a → Yields {S = S} P (pure a)
Yields-pure {S} P a p = record { yields = λ s s' b h. let e : a ≡ b = cc (h) in rw (← e) p }

pub Yields-bind :
    {S A B : Type 0} (P : B → Type 0) (m : Action S A) (f : A → Action S B)
    → ((a : A) → Yields P (f a))
    → Yields P (m >>= f)
Yields-bind P m f y = record {
  yields = λ s s' b h. let (s₁, a, e, k) = >>=-ok_inv m f s s' b h in (y a).yields s₁ s' b k;
}
