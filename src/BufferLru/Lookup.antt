-- ===== src/BufferLru/Lookup.antt =====
-- What `Get` finds, and that it finds what `Put` has stored.
use test_perf.Prelude.{
  ℕ, ◌≤◌, ◌≡◌, ◌∙◌, refl, sym, ap, true, false, Option, none, some, List, [], ◌∷◌, ◌==◌, length,
  if◌then◌else◌, Bool-cases, inl, inr, arith,
}
use test_perf.Result.{ok}
use test_perf.BufferLru.{Buffer, size, Entries, BufferLru, find, remove, put, get}
use test_perf.BufferLru.Elements.{has, find_of_has, total-remove, has-remove, Distinct-remove}
use test_perf.BufferLru.Evict.{IsCache, Evicted}
use test_perf.BufferLru.Valid.{contents, IsValid, Stored, refused, stored, put-IsValid}

-- What `Get` returns and leaves: nothing under a key that is not there; else the slice, and its
-- entry comes to the front.
pub data Looked (c : BufferLru) (key : ℕ) (c' : BufferLru) : Option (List ℕ) → Type 0 where
  miss : has key (contents c) ≡ false → c' ≡ c → Looked c key c' none
  hit :
      (b : Buffer)
      → find key (contents c) ≡ some b
      → contents c' ≡ b ∷ remove key (contents c)
      → Looked c key c' (some b.slice)

IsCache-front :
    (actual key : ℕ) (e : Entries) (b : Buffer)
    → IsCache actual e
    → find key e.ll ≡ some b
    → b.key ≡ key
    → has key e.ll ≡ true
    → IsCache actual (record { ll = b ∷ remove key e.ll; cache = e.cache })
IsCache-front actual key e b c f p h = record {
  sum = omega (arith, c.sum, total-remove key e.ll b f);
  keys = λ k. elim (Bool-cases (key == k)) [
    | inl q ↦
        let r : key ≡ k = ground arith in rw (p, q) (c.keys k ∙ ap (λ j. has j e.ll) (sym r) ∙ h)
    | inr q ↦ rw (p, q, has-remove k key e.ll c.distinct, q) (c.keys k)
  ];
  distinct =
      (rw p (has-remove key key e.ll c.distinct ∙ self), Distinct-remove key e.ll c.distinct);
}
  where
    self : (if key == key then false else has key e.ll) ≡ false
    self = let q : (key == key) ≡ true = ground arith in rw q refl

abbrev Got : BufferLru → ℕ → Type 0
Got c key =
    (c' : BufferLru) × (o : Option (List ℕ)) × (get c key ≡ ok (c', o))
    × IsValid c'
    × (c'.max_size ≡ c.max_size)
    × Looked c key c' o

abbrev cache_of : ℕ → ℕ → Option Entries → BufferLru
cache_of m a entries = record { max_size = m; actual_size = a; entries = entries }

got :
    (m a key : ℕ) (entries : Option Entries)
    → IsValid (cache_of m a entries)
    → Got (cache_of m a entries) key
unfolding get
got m a key none v = (_, none, refl, v, refl, miss refl refl)
got m a key (some e) v = elim (Bool-cases (e.cache key)) [
  | inl p ↦
      let h : has key e.ll ≡ true = sym (v.cache.keys key) ∙ p in
      let (b, f, q) = find_of_has key e.ll h in
      (
        cache_of m a (some (record { ll = b ∷ remove key e.ll; cache = e.cache })),
        some b.slice,
        rw (p, f) refl,
        record {
          cache = IsCache-front a key e b v.cache f q h;
          bounded = omega (arith, v.bounded, total-remove key e.ll b f);
        },
        refl,
        hit b f refl,
      )
  | inr p ↦
      let h : has key e.ll ≡ false = sym (v.cache.keys key) ∙ p in
      (_, none, rw p refl, v, refl, miss h refl)
]

-- On a well formed cache, `Get` of any key does not panic, keeps the cache well formed and its
-- maximum, and returns and leaves what `Looked` says.
pub get-IsValid :
    (c : BufferLru) (key : ℕ)
    → IsValid c
    → (c' : BufferLru) × (o : Option (List ℕ)) × (get c key ≡ ok (c', o))
      × IsValid c'
      × (c'.max_size ≡ c.max_size)
      × Looked c key c' o
get-IsValid c key v = got c.max_size c.actual_size key c.entries v

first_lem :
    (max_size : ℕ) (b : Buffer) (rest ll' : List Buffer)
    → size b ≤ max_size
    → Evicted max_size (b ∷ rest) ll'
    → (ll'' : List Buffer) × (ll' ≡ b ∷ ll'')
first_lem max_size b rest [] h e = absurd (omega (arith, e.needed b rest (sym e.split)))
first_lem max_size b rest (x ∷ ll'') h e = let s = e.split in (ll'', cc (s))

found_lem :
    (c : BufferLru) (b : Buffer) (ll : List Buffer) (key : ℕ)
    → contents c ≡ b ∷ ll
    → b.key ≡ key
    → Got c key
    → (c' : BufferLru) × (get c key ≡ ok (c', some b.slice))
found_lem c b ll key s p (c', o, run, v, m, l) =
    let k : (b.key == key) ≡ true = ground arith in
    let h : has key (contents c) ≡ true = rw (s, k) refl in
    let f : find key (contents c) ≡ some b = rw (s, k) refl in
    (c', rw (run) (ap (λ o. ok (c', o)) (slice_of l h f)))
  where
    slice_of :
        {o : Option (List ℕ)}
        → Looked c key c' o
        → has key (contents c) ≡ true
        → find key (contents c) ≡ some b
        → o ≡ some b.slice
    slice_of (miss g q) h f = cc
    slice_of (hit x g q) h f = let e : x ≡ b = cc in rw e refl

-- On a well formed cache, a slice that is not larger than the maximum is found under its key after
-- `Put`.
pub get-put :
    (c c' : BufferLru) (key : ℕ) (slice : List ℕ)
    → IsValid c
    → length slice ≤ c.max_size
    → put c key slice ≡ ok c'
    → (c'' : BufferLru) × (get c' key ≡ ok (c'', some slice))
get-put c c' key slice v h run =
    let (c₁, run₁, v₁, m, s) = put-IsValid c key slice v in
    let e : c₁ ≡ c' = cc (run, run₁) in rw (sym e) (lookup c₁ v₁ s)
  where
    lookup :
        (c₁ : BufferLru)
        → IsValid c₁
        → Stored c key slice c₁
        → (c'' : BufferLru) × (get c₁ key ≡ ok (c'', some slice))
    lookup c₁ v₁ (refused g l q) = absurd (omega arith)
    lookup c₁ v₁ (stored _ ev) =
        let (ll, q) = first_lem c.max_size _ _ (contents c₁) h ev in
        found_lem c₁ (record { key = key; slice = slice }) ll key q refl (get-IsValid c₁ key v₁)
