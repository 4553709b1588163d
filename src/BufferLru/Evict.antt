-- ===== src/BufferLru/Evict.antt =====
-- The eviction loop takes entries from the back, as few as make the sizes fit.
use mathlib.Core.List.{append-nil, append_assoc}
use test_perf.Prelude.{
  ℕ, zero, suc, ◌+◌, ◌-◌, ◌≤◌, ◌<◌, ◌≡◌, ◌∙◌, refl, sym, ap, Bool, true, false, some, List, [], ◌∷◌,
  ◌++◌, ltb, length, Bool-cases, inl, inr, arith,
}
use test_perf.Result.{ok}
use test_perf.BufferLru.{Buffer, size, Entries, find, remove, back, assign, evict}
use test_perf.BufferLru.Elements.{
  total, has, Distinct, total-remove, length-remove, has-remove, Distinct-remove, back_lem,
}

-- The size is that of the entries, and the map leads to each of them by its key.
pub record IsCache (actual : ℕ) (e : Entries) : Type 0 where
  pub sum : actual ≡ total e.ll
  pub keys : (k : ℕ) → e.cache k ≡ has k e.ll
  pub distinct : Distinct e.ll

-- `ll'` is the longest front part of `ll` that fits: with one entry more it does not.
pub record Evicted (max_size : ℕ) (ll ll' : List Buffer) : Type 0 where
  pub gone : List Buffer
  pub split : ll ≡ ll' ++ gone
  pub fits : total ll' ≤ max_size
  pub needed : (g : Buffer) (rest : List Buffer) → gone ≡ g ∷ rest → max_size < total ll' + size g

Evicted-more :
    (max_size : ℕ) (ll ll₁ ll' : List Buffer) (x : Buffer)
    → ll ≡ ll₁ ++ x ∷ []
    → max_size < total ll₁ + size x
    → Evicted max_size ll₁ ll'
    → Evicted max_size ll ll'
Evicted-more max_size ll ll₁ ll' x s over e = record {
  gone = e.gone ++ x ∷ [];
  split = s ∙ ap (λ l. l ++ x ∷ []) e.split ∙ append_assoc ll' e.gone (x ∷ []);
  fits = e.fits;
  needed = first e.gone e.split e.needed;
}
  where
    first :
        (gone : List Buffer)
        → ll₁ ≡ ll' ++ gone
        → ((g : Buffer) (rest : List Buffer) → gone ≡ g ∷ rest → max_size < total ll' + size g)
        → (g : Buffer) (rest : List Buffer) → gone ++ x ∷ [] ≡ g ∷ rest
        → max_size < total ll' + size g
    first [] p h g rest q =
        let a : ll₁ ≡ ll' = p ∙ append-nil ll' in let b : x ≡ g = cc (q) in rw (sym a, sym b) over
    first (y ∷ gone) p h g rest q = let b : y ≡ g = cc (q) in rw (sym b) (h y gone refl)

IsCache-remove :
    (actual : ℕ) (e : Entries) (x : Buffer)
    → IsCache actual e
    → find x.key e.ll ≡ some x
    → IsCache
        (actual - size x)
        (record { ll = remove x.key e.ll; cache = assign e.cache x.key false })
IsCache-remove actual e x c f = record {
  sum = omega (arith, c.sum, total-remove x.key e.ll x f);
  keys = λ k. rw (has-remove k x.key e.ll c.distinct, c.keys k) refl;
  distinct = Distinct-remove x.key e.ll c.distinct;
}

-- What the loop comes to: the entries that stay, and that they are a cache.
abbrev pub Evicts : ℕ → ℕ → ℕ → Entries → Type 0
Evicts max_size fuel actual e =
    (actual' : ℕ) × (e' : Entries) × (evict max_size fuel actual e ≡ ok (actual', e'))
    × IsCache actual' e'
    × Evicted max_size e.ll e'.ll

Evicts-stop :
    (max_size fuel actual : ℕ) (e : Entries)
    → ltb max_size actual ≡ false
    → IsCache actual e
    → Evicts max_size (suc fuel) actual e
unfolding evict
Evicts-stop max_size fuel actual e p c = (
  actual,
  e,
  rw (p, evict) refl,
  c,
  record {
    gone = [];
    split = sym (append-nil e.ll);
    fits = ground (arith, c.sum);
    needed = λ g rest q. cc;
  },
)

Evicts-next :
    (max_size fuel actual : ℕ) (e : Entries) (x : Buffer)
    → ltb max_size actual ≡ true
    → IsCache actual e
    → back e.ll ≡ some x
    → find x.key e.ll ≡ some x
    → e.ll ≡ remove x.key e.ll ++ x ∷ []
    → Evicts max_size fuel
        (actual - size x)
        (record { ll = remove x.key e.ll; cache = assign e.cache x.key false })
    → Evicts max_size (suc fuel) actual e
unfolding evict
Evicts-next max_size fuel actual e x p c b f s (actual', e', run, c', ev) = (
  actual',
  e',
  rw (p, evict, b) run,
  c',
  Evicted-more max_size e.ll (remove x.key e.ll) e'.ll x s
      (ground (arith, c.sum, total-remove x.key e.ll x f)) ev,
)

pub evict_lem :
    (max_size fuel actual : ℕ) (ll : List Buffer) (cache : ℕ → Bool)
    → length ll < fuel
    → IsCache actual (record { ll = ll; cache = cache })
    → Evicts max_size fuel actual (record { ll = ll; cache = cache })
evict_lem max_size zero actual ll cache h c = absurd (omega arith)
evict_lem max_size (suc fuel) actual [] cache h c =
    Evicts-stop max_size fuel actual _ (ground (arith, c.sum)) c
evict_lem max_size (suc fuel) actual (b ∷ ll) cache h c = elim (Bool-cases (ltb max_size actual)) [
  | inl p ↦
      let (x, run, f, s) = back_lem b ll c.distinct in
      Evicts-next max_size fuel actual _ x p c run f s (
        evict_lem max_size fuel (actual - size x) (remove x.key (b ∷ ll)) _
          (omega (arith, length-remove x.key (b ∷ ll) x f)) (IsCache-remove actual _ x c f))
  | inr p ↦ Evicts-stop max_size fuel actual _ p c
]
