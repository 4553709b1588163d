-- ===== src/Action/Ensures.antt =====
-- Calls that keep a property of the state, whatever they come to.
use mathlib.Core.Path.{subst}
use test_perf.Prelude.{◌≡◌, refl}
use test_perf.Result.{Result, ok, err, panic, out_of_fuel}
use test_perf.Action.{Action, ◌>>=◌, pure}

-- The call keeps `Q` of the state, and what it returns has the property `P`.
pub record Ensures {S A : Type 0} (Q : S → Type 0) (P : A → Type 0) (m : Action S A) : Type 0 where
  pub keeps : (s : S) → Q s → Q (m s).0
  pub gives : (s : S) (a : A) → (m s).1 ≡ ok a → P a

module _ {S A B : Type 0} (Q : S → Type 0) (P : A → Type 0) (R : B → Type 0) where
  pub Ensures-bind :
      (m : Action S A) (f : A → Action S B)
      → Ensures Q P m
      → ((a : A) → P a → Ensures Q R (f a))
      → Ensures Q R (m >>= f)
  Ensures-bind m f em ef = record {
    keeps = λ s q. kept (m s) (em.keeps s q) (em.gives s);
    gives = λ s. given (m s) (em.gives s);
  }
    where
      kept :
          (o : S × Result A)
          → Q o.0
          → ((a : A) → o.1 ≡ ok a → P a)
          → Q
              (elim o.1 as (λ x. S × Result B) [
                | ok a ↦ f a o.0
                | err e ↦ (o.0, err e)
                | panic ↦ (o.0, panic)
                | out_of_fuel ↦ (o.0, out_of_fuel)
              ]).0
      kept (s, ok a) q g = (ef a (g a refl)).keeps s q
      kept (s, err e) q g = q
      kept (s, panic) q g = q
      kept (s, out_of_fuel) q g = q

      given :
          (o : S × Result A)
          → ((a : A) → o.1 ≡ ok a → P a)
          → (b : B)
          → (elim o.1 as (λ x. S × Result B) [
            | ok a ↦ f a o.0
            | err e ↦ (o.0, err e)
            | panic ↦ (o.0, panic)
            | out_of_fuel ↦ (o.0, out_of_fuel)
          ]).1
            ≡ ok b
          → R b
      given (s, ok a) g b h = (ef a (g a refl)).gives s b h
      given (s, err e) g b h = cc
      given (s, panic) g b h = cc
      given (s, out_of_fuel) g b h = cc

module _ {S : Type 0} (Q : S → Type 0) where
  pub Ensures-pure : {A : Type 0} (P : A → Type 0) (a : A) → P a → Ensures Q P (pure a)
  Ensures-pure P a p = record {
    keeps = λ s q. q;
    gives = λ s b h. let e : a ≡ b = cc (h) in subst P e p;
  }

  pub Ensures-lift :
      {A : Type 0} (P : A → Type 0) (r : Result A)
      → ((a : A) → P a)
      → Ensures {S = S} Q P (λ s. (s, r))
  Ensures-lift P r p = record { keeps = λ s q. q; gives = λ s b h. p b }
