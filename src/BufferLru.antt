-- ===== src/BufferLru.antt =====
-- buffer_lru.go: a cache of byte slices that evicts the least recently used.
--
-- The list is the entries from front to back. An element of it is known by the key of its value,
-- which never changes; `cache` says which keys lead to an element. Sizes are not negative, and a sum
-- of sizes is below 2^63. The mutex makes each operation one step.
pub mod Elements
pub mod Evict
pub mod Valid
pub mod Lookup
use test_perf.Prelude.{
  ℕ, zero, suc, ◌+◌, ◌-◌, Bool, true, false, Option, none, some, List, [], ◌∷◌, ltb, ◌==◌, length,
  if◌then◌else◌,
}
use test_perf.Result.{Result, ok, out_of_fuel, or_panic, ◌>>=◌}

pub record Buffer : Type 0 where
  pub key : ℕ
  pub slice : List ℕ

abbrev pub size : Buffer → ℕ
size b = length b.slice

-- `ll` and `cache`, which are nil together
pub record Entries : Type 0 where
  pub ll : List Buffer
  pub cache : ℕ → Bool

pub record BufferLru : Type 0 where
  pub max_size : ℕ
  pub actual_size : ℕ
  pub entries : Option Entries

abbrev pub new_buffer_lru : ℕ → BufferLru
new_buffer_lru max_size = record { max_size = max_size; actual_size = 0; entries = none }

abbrev pub new_buffer_lru_default : BufferLru
new_buffer_lru_default = new_buffer_lru 100663296

-- The element that a key leads to.
abbrev pub find : ℕ → List Buffer → Option Buffer
find k [] = none
find k (b ∷ ll) = if b.key == k then some b else find k ll

-- `list.Remove` of that element
abbrev pub remove : ℕ → List Buffer → List Buffer
remove k [] = []
remove k (b ∷ ll) = let rest = remove k ll in if b.key == k then ll else b ∷ rest

-- `list.Back`, nil for an empty list
abbrev pub back : List Buffer → Option Buffer
back [] = none
back (b ∷ []) = some b
back (b ∷ c ∷ ll) = back (c ∷ ll)

abbrev pub assign : (ℕ → Bool) → ℕ → Bool → ℕ → Bool
assign cache k v i = if k == i then v else cache i

-- `for c.actualSize > c.MaxSize { … }`; a nil element makes the code panic
unfoldable pub evict : ℕ → ℕ → ℕ → Entries → Result (ℕ × Entries)
evict max_size zero actual e = out_of_fuel
evict max_size (suc fuel) actual e = elim (ltb max_size actual) [
  | true ↦ do
    last ← or_panic (back e.ll)
    evict max_size fuel (actual - size last)
        (record { ll = remove last.key e.ll; cache = assign e.cache last.key false })
  | false ↦ ok (actual, e)
]

-- `if c.cache == nil { … }`
abbrev pub started : BufferLru → ℕ × Entries
started c = elim c.entries [
  | none ↦ (0, record { ll = []; cache = λ k. false })
  | some e ↦ (c.actual_size, e)
]

-- The end of `Put`: an entry has come to the front, and the sizes add up to `actual`. Each round
-- takes an entry away.
unfoldable pub evict_all : ℕ → ℕ → Entries → Result BufferLru
evict_all max_size actual e = do
  (actual', e') ← evict max_size (length e.ll + 1) actual e
  ok (record { max_size = max_size; actual_size = actual'; entries = some e' })

-- `bufSize` is the new size less the old one, which is part of `actual`.
unfoldable pub put : BufferLru → ℕ → List ℕ → Result BufferLru
put c key slice =
    let (actual, e) = started c in
    let b : Buffer = record { key = key; slice = slice } in
    elim (e.cache key) [
      | true ↦ do
        old ← or_panic (find key e.ll)
        evict_all c.max_size (actual + length slice - size old)
            (record { ll = b ∷ remove key e.ll; cache = e.cache })
      | false ↦ elim (ltb c.max_size (length slice)) [
        | true ↦ ok (record { max_size = c.max_size; actual_size = actual; entries = some e })
        | false ↦
            evict_all c.max_size (actual + length slice)
              (record { ll = b ∷ e.ll; cache = assign e.cache key true })
      ]
    ]

-- A read of a nil map finds nothing.
unfoldable pub get : BufferLru → ℕ → Result (BufferLru × Option (List ℕ))
get c key = elim c.entries [
  | none ↦ ok (c, none)
  | some e ↦ elim (e.cache key) [
    | false ↦ ok (c, none)
    | true ↦ do
      b ← or_panic (find key e.ll)
      ok (
        record {
          max_size = c.max_size;
          actual_size = c.actual_size;
          entries = some (record { ll = b ∷ remove key e.ll; cache = e.cache });
        },
        some b.slice,
      )
  ]
]

abbrev pub clear : BufferLru → BufferLru
clear c = record { max_size = c.max_size; actual_size = 0; entries = none }
