-- ===== src/Action/Ends.antt =====
-- Calls that do not run out of fuel.
use test_perf.Prelude.{◌≢◌, refl, Option, none, some}
use test_perf.Result.{Result, Error, ok, err, panic, out_of_fuel}
use test_perf.Action.{Action, ◌>>=◌, pure, fail, reads, changes}

-- The call ends, whatever the state.
pub record Ends {S A : Type 0} (m : Action S A) : Type 0 where
  pub ends : (s : S) → (m s).1 ≢ out_of_fuel

module _ {S A : Type 0} where
  pub Ends-pure : (a : A) → Ends {S = S} (pure a)
  Ends-pure a = record { ends = λ s h. cc }

  pub Ends-fail : (e : Error) → Ends {S = S} {A = A} (fail e)
  Ends-fail e = record { ends = λ s h. cc }

  pub Ends-reads : (e : Error) (f : S → Option A) → Ends (reads e f)
  Ends-reads e f = record { ends = λ s. at (f s) s }
    where
      at :
          (o : Option A) (s : S)
          → (elim o as (λ x. S × Result A) [ none ↦ (s, err e) | some a ↦ (s, ok a) ]).1
            ≢ out_of_fuel
      at none s h = cc
      at (some a) s h = cc

module _ {S : Type 0} where
  pub Ends-changes : (e : Error) (f : S → Option S) → Ends (changes e f)
  Ends-changes e f = record { ends = λ s. at (f s) s }
    where
      at :
          (o : Option S) (s : S)
          → (elim o as (λ x. S × Result (Unit {0})) [ none ↦ (s, err e) | some s' ↦ (s', ok tt) ]).1
            ≢ out_of_fuel
      at none s h = cc
      at (some s') s h = cc

module _ {S A B : Type 0} where
  pub Ends-bind :
      (m : Action S A) (f : A → Action S B) → Ends m → ((a : A) → Ends (f a)) → Ends (m >>= f)
  Ends-bind m f hm hf = record { ends = λ s. at (m s) (hm.ends s) }
    where
      at :
          (o : S × Result A)
          → o.1 ≢ out_of_fuel
          → (elim o.1 as (λ x. S × Result B) [
            | ok a ↦ f a o.0
            | err e ↦ (o.0, err e)
            | panic ↦ (o.0, panic)
            | out_of_fuel ↦ (o.0, out_of_fuel)
          ]).1
            ≢ out_of_fuel
      at (s, ok a) h = (hf a).ends s
      at (s, err e) h = λ g. cc
      at (s, panic) h = λ g. cc
      at (s, out_of_fuel) h = λ g. h refl
