-- ===== src/BufferLru/Valid.antt =====
-- The operations of the cache keep it well formed, and what they find and leave.
use test_perf.Prelude.{
  ℕ, ◌+◌, ◌-◌, ◌≤◌, ◌<◌, ◌≡◌, ◌∙◌, refl, sym, ap, true, false, some, List, [], ◌∷◌, ltb, ◌==◌,
  length, if◌then◌else◌, Bool-cases, inl, inr, arith,
}
use test_perf.Result.{ok}
use test_perf.BufferLru.{
  Buffer, size, Entries, BufferLru, new_buffer_lru, find, remove, assign, started, evict_all, put,
  clear,
}
use test_perf.BufferLru.Elements.{
  total, has, find_of_has, total-remove, has-remove, Distinct-remove, remove_absent,
}
use test_perf.BufferLru.Evict.{IsCache, Evicted, Evicts, evict_lem}

abbrev pub contents : BufferLru → List Buffer
contents c = (started c).1.ll

pub record IsValid (c : BufferLru) : Type 0 where
  pub cache : IsCache (started c).0 (started c).1
  pub bounded : total (contents c) ≤ c.max_size

empty-IsCache : IsCache 0 (record { ll = []; cache = λ k. false })
empty-IsCache = record { sum = refl; keys = λ k. refl; distinct = tt }

pub new_buffer_lru-IsValid : (m : ℕ) → IsValid (new_buffer_lru m)
new_buffer_lru-IsValid m = record { cache = empty-IsCache; bounded = omega arith }

pub clear-IsValid : (c : BufferLru) → IsValid (clear c)
clear-IsValid c = record { cache = empty-IsCache; bounded = omega arith }

-- What `Put` leaves: a new slice that is too large for the cache changes nothing. Any other, and
-- any for a key that is there, comes to the front, and as few entries as needed leave at the back.
pub data Stored (c : BufferLru) (key : ℕ) (slice : List ℕ) (c' : BufferLru) : Type 0 where
  refused :
      has key (contents c) ≡ false
      → c.max_size < length slice
      → contents c' ≡ contents c
      → Stored c key slice c'
  stored :
      (has key (contents c) ≡ false → length slice ≤ c.max_size)
      → Evicted c.max_size
          (record { key = key; slice = slice } ∷ remove key (contents c))
          (contents c')
      → Stored c key slice c'

evict_all_lem :
    (max_size actual : ℕ) (e : Entries)
    → IsCache actual e
    → (c' : BufferLru) × (evict_all max_size actual e ≡ ok c')
      × IsValid c'
      × (c'.max_size ≡ max_size)
      × Evicted max_size e.ll (contents c')
unfolding evict_all
evict_all_lem max_size actual e c =
    whole (evict_lem max_size (length e.ll + 1) actual e.ll e.cache (omega arith) c)
  where
    whole :
        Evicts max_size (length e.ll + 1) actual e
        → (c' : BufferLru) × (evict_all max_size actual e ≡ ok c')
          × IsValid c'
          × (c'.max_size ≡ max_size)
          × Evicted max_size e.ll (contents c')
    whole (actual', e', run, k, ev) = (
      record { max_size = max_size; actual_size = actual'; entries = some e' },
      rw run refl,
      record { cache = k; bounded = ev.fits },
      refl,
      ev,
    )

-- The entries before the eviction, if the key was there and if it was not.
IsCache-replace :
    (actual key : ℕ) (slice : List ℕ) (e : Entries) (old : Buffer)
    → IsCache actual e
    → has key e.ll ≡ true
    → find key e.ll ≡ some old
    → IsCache
        (actual + length slice - size old)
        (record { ll = record { key = key; slice = slice } ∷ remove key e.ll; cache = e.cache })
IsCache-replace actual key slice e old c h f = record {
  sum = omega (arith, c.sum, total-remove key e.ll old f);
  keys = λ k. elim (Bool-cases (key == k)) [
    | inl p ↦ let q : key ≡ k = ground arith in rw p (c.keys k ∙ ap (λ j. has j e.ll) (sym q) ∙ h)
    | inr p ↦ rw (p, has-remove k key e.ll c.distinct, p) (c.keys k)
  ];
  distinct = (has-remove key key e.ll c.distinct ∙ self, Distinct-remove key e.ll c.distinct);
}
  where
    self : (if key == key then false else has key e.ll) ≡ false
    self = let p : (key == key) ≡ true = ground arith in rw p refl

IsCache-insert :
    (actual key : ℕ) (slice : List ℕ) (e : Entries)
    → IsCache actual e
    → has key e.ll ≡ false
    → IsCache (actual + length slice) (record {
      ll = record { key = key; slice = slice } ∷ e.ll;
      cache = assign e.cache key true;
    })
IsCache-insert actual key slice e c h = record {
  sum = omega (arith, c.sum);
  keys = λ k. rw (c.keys k) refl;
  distinct = (h, c.distinct);
}

-- On a well formed cache, `Put` of any slice under any key ends without a panic, keeps the cache well
-- formed and its maximum, and leaves what `Stored` says: a slice for a new key that is larger than the
-- maximum changes nothing, and any other is at the front of the entries, of which the longest front part
-- stays that fits.
pub put-IsValid :
    (c : BufferLru) (key : ℕ) (slice : List ℕ)
    → IsValid c
    → (c' : BufferLru) × (put c key slice ≡ ok c')
      × IsValid c'
      × (c'.max_size ≡ c.max_size)
      × Stored c key slice c'
unfolding put
put-IsValid c key slice v =
    let actual = (started c).0 in
    let e = (started c).1 in
    elim (Bool-cases (e.cache key)) [
      | inl p ↦
          let h : has key e.ll ≡ true = sym (v.cache.keys key) ∙ p in
          let (old, f, q) = find_of_has key e.ll h in
          let (c', run, v', m, ev) =
            evict_all_lem c.max_size (actual + length slice - size old) _
              (IsCache-replace actual key slice e old v.cache h f) in
          (c', rw (p, put, f) run, v', m, stored (λ n. cc (n, h)) ev)
      | inr p ↦
          let h : has key e.ll ≡ false = sym (v.cache.keys key) ∙ p in
          elim (Bool-cases (ltb c.max_size (length slice))) [
            | inl q ↦ (
              record { max_size = c.max_size; actual_size = actual; entries = some e },
              rw (p, put, q) refl,
              record { cache = v.cache; bounded = v.bounded },
              refl,
              refused h (ground arith) refl,
            )
            | inr q ↦
                let (c', run, v', m, ev) =
                  evict_all_lem c.max_size (actual + length slice) _
                    (IsCache-insert actual key slice e v.cache h) in
                (
                  c',
                  rw (p, put, q) run,
                  v',
                  m,
                  stored (λ n. ground arith) (rw (remove_absent key e.ll h) ev),
                )
          ]
    ]
