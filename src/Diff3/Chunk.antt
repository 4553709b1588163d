-- ===== src/Diff3/Chunk.antt =====
-- `writeChunk` merges the chunks between two positions by `resolve`.
use mathlib.Core.List.{append-nil, append_assoc}
use test_perf.Prelude.{
  ℕ, zero, suc, ◌+◌, ◌-◌, ◌≤◌, ◌≡◌, ◌∙◌, refl, sym, ap, String, Bool, true, false, ◌&&◌, ◌||◌, not,
  some, List, [], ◌∷◌, ◌++◌, map, length, get_elem?, take, drop, drop_head, ltb, leb, ◌==◌, str_eq,
  if◌then◌else◌, Bool-cases, inl, inr, arith, length-drop, length-take, ◌≢◌, ℕ_discrete,
  get_elem?-take,
}
use test_perf.Result.{ok}
use test_perf.Myers.{FileLine}
use test_perf.Diff3.{Diff3, Indexes, Side, side_step, side_rest, both_sides, write_chunk, is_nil}
use test_perf.Diff3.Resolve.{resolve, same_texts, write_resolved-eq-resolve}

-- The lines of a file from one position up to another, and their texts.
abbrev pub between : List FileLine → ℕ → ℕ → List FileLine
between l from to = drop from (take to l)

abbrev pub texts : List FileLine → List String
texts = map (λ l. l.text)

-- The lines in `xs` are those from `at` up to `to`.
record Left (l : List FileLine) (at to : ℕ) (xs : List FileLine) : Type 0 where
  inside : to ≤ length l
  count : at + length xs ≡ to
  here : drop at (take to l) ≡ xs

Left-head :
    (l : List FileLine) (at to : ℕ) (x : FileLine) (xs : List FileLine)
    → Left l at to (x ∷ xs)
    → (get_elem? l at ≡ some x) × Left l (at + 1) to xs
Left-head l at to x xs h =
    let (e, rest) = drop_head (take to l) at x xs h.here in
    let p : at + 1 ≡ suc at = omega arith in
    (
      sym (get_elem?-take to l at (omega (arith, h.count))) ∙ e,
      record { inside = h.inside; count = omega (arith, h.count); here = rw p rest },
    )

-- The loop over the lines of the base, and what is left after it.
after : List FileLine → List FileLine → Side → Side
after bs [] s = s
after [] (x ∷ xs) s = s
after (b ∷ bs) (x ∷ xs) s = after bs xs (record {
  at = s.at + 1;
  block = s.block ++ x.text ∷ [];
  not_eql = if str_eq b.text x.text then s.not_eql else s.not_eql ++ x ∷ [];
})

unpaired : List FileLine → List FileLine → List FileLine
unpaired bs [] = []
unpaired [] (x ∷ xs) = x ∷ xs
unpaired (b ∷ bs) (x ∷ xs) = unpaired bs xs

finish : List FileLine → Side → Side
finish [] s = s
finish (x ∷ xs) s =
    finish xs
      (record { at = s.at + 1; block = s.block ++ x.text ∷ []; not_eql = s.not_eql ++ x ∷ [] })

side_step_lem :
    (l : List FileLine) (to : ℕ) (b : FileLine) (bs xs : List FileLine) (s : Side)
    → Left l s.at to xs
    → (s' : Side) × (xs' : List FileLine) × (side_step l to b s ≡ ok s')
      × Left l s'.at to xs'
      × (after (b ∷ bs) xs s ≡ after bs xs' s')
      × (unpaired (b ∷ bs) xs ≡ unpaired bs xs')
unfolding side_step after unpaired
side_step_lem l to b bs [] s h =
    let p : ltb s.at to ≡ false = ground (arith, h.count) in (s, [], rw p refl, h, refl, refl)
side_step_lem l to b bs (x ∷ xs) s h =
    let p : ltb s.at to ≡ true = ground (arith, h.count) in
    let (e, rest) = Left-head l s.at to x xs h in (_, xs, rw (p, e) refl, rest, refl, refl)

after-nil : (xs : List FileLine) (s : Side) → after [] xs s ≡ s
unfolding after
after-nil [] s = refl
after-nil (x ∷ xs) s = refl

unpaired-nil : (xs : List FileLine) → unpaired [] xs ≡ xs
unfolding unpaired
unpaired-nil [] = refl
unpaired-nil (x ∷ xs) = refl

module _ (d : Diff3) (to : Indexes) where
  both_sides_lem :
      (i : ℕ) (bs xa xb : List FileLine) (sa sb : Side)
      → Left d.base i to.base_index bs
      → Left d.a sa.at to.a_index xa
      → Left d.b sb.at to.b_index xb
      → (both_sides d to (length bs) i sa sb ≡ ok (after bs xa sa, after bs xb sb))
        × Left d.a (after bs xa sa).at to.a_index (unpaired bs xa)
        × Left d.b (after bs xb sb).at to.b_index (unpaired bs xb)
  unfolding both_sides
  both_sides_lem i [] xa xb sa sb h ha hb = (
    rw (after-nil xa sa, after-nil xb sb) refl,
    rw (after-nil xa sa, unpaired-nil xa) ha,
    rw (after-nil xb sb, unpaired-nil xb) hb,
  )
  both_sides_lem i (b ∷ bs) xa xb sa sb h ha hb =
      let (e, rest) = Left-head d.base i to.base_index b bs h in
      let (sa', xa', ra, la, aa, ua) = side_step_lem d.a to.a_index b bs xa sa ha in
      let (sb', xb', rb, lb, ab, ub) = side_step_lem d.b to.b_index b bs xb sb hb in
      let (run, fa, fb) = both_sides_lem (i + 1) bs xa' xb' sa' sb' rest la lb in
      (rw (e, ra, rb, aa, ab) run, rw (aa, ua) fa, rw (ab, ub) fb)

side_rest_lem :
    (l : List FileLine) (to : ℕ) (xs : List FileLine) (s : Side)
    → Left l s.at to xs
    → side_rest l (length xs) s ≡ ok (finish xs s)
unfolding side_rest finish
side_rest_lem l to [] s h = refl
side_rest_lem l to (x ∷ xs) s h =
    let (e, rest) = Left-head l s.at to x xs h in rw e (side_rest_lem l to xs _ rest)

-- The block of a side is its lines.
block_finish : (xs : List FileLine) (s : Side) → (finish xs s).block ≡ s.block ++ texts xs
unfolding finish
block_finish [] s = sym (append-nil s.block)
block_finish (x ∷ xs) s = block_finish xs _ ∙ append_assoc s.block (x.text ∷ []) (texts xs)

block_lem :
    (bs xs : List FileLine) (s : Side)
    → (finish (unpaired bs xs) (after bs xs s)).block ≡ s.block ++ texts xs
unfolding after unpaired
block_lem bs [] s = unfold finish in sym (append-nil s.block)
block_lem [] (x ∷ xs) s = block_finish (x ∷ xs) s
block_lem (b ∷ bs) (x ∷ xs) s = block_lem bs xs _ ∙ append_assoc s.block (x.text ∷ []) (texts xs)

is_nil-append : {A : Type 0} (xs : List A) (x : A) → is_nil (xs ++ x ∷ []) ≡ false
is_nil-append [] x = refl
is_nil-append (y ∷ xs) x = refl

-- Against as many lines of the base, nothing differs exactly when the texts are the same.
not_eql_lem :
    (bs xs : List FileLine) (s : Side)
    → length bs ≡ length xs
    → is_nil (finish (unpaired bs xs) (after bs xs s)).not_eql
      ≡ (is_nil s.not_eql && same_texts (texts bs) (texts xs))
unfolding after unpaired finish
not_eql_lem [] [] s h = ground arith
not_eql_lem [] (x ∷ xs) s h = absurd (omega arith)
not_eql_lem (b ∷ bs) [] s h = absurd (omega arith)
not_eql_lem (b ∷ bs) (x ∷ xs) s h = not_eql_lem bs xs _ (omega arith) ∙ here
  where
    here :
        (is_nil (if str_eq b.text x.text then s.not_eql else s.not_eql ++ x ∷ [])
          && same_texts (texts bs) (texts xs))
        ≡ (is_nil s.not_eql && (str_eq b.text x.text && same_texts (texts bs) (texts xs)))
    here = elim (Bool-cases (str_eq b.text x.text)) [
      | inl e ↦ rw e refl
      | inr e ↦ rw (e, is_nil-append s.not_eql x) (ground arith)
    ]

same_texts-length :
    (bs xs : List FileLine) → length bs ≢ length xs → same_texts (texts bs) (texts xs) ≡ false
same_texts-length [] [] h = absurd (h refl)
same_texts-length [] (x ∷ xs) h = refl
same_texts-length (b ∷ bs) [] h = refl
same_texts-length (b ∷ bs) (x ∷ xs) h = ground (arith, same_texts-length bs xs (λ e. h (ap suc e)))

same_texts_empty :
    (bs xs : List FileLine)
    → length bs ≡ 0
    → length xs ≡ 0
    → same_texts (texts bs) (texts xs) ≡ true
same_texts_empty [] [] p q = refl
same_texts_empty [] (x ∷ xs) p q = absurd (omega arith)
same_texts_empty (b ∷ bs) xs p q = absurd (omega arith)

is_eql_of :
    (lb la from to : ℕ) (nil same : Bool)
    → from + la ≡ to
    → (lb ≡ la → nil ≡ same)
    → (lb ≢ la → same ≡ false)
    → (lb ≡ 0 → la ≡ 0 → same ≡ true)
    → (ltb lb 1 && ltb la 1 || lb == la && not (from == to) && nil) ≡ same
is_eql_of zero zero from to nil same h p q r = ground (arith, r refl refl)
is_eql_of zero (suc la) from to nil same h p q r = ground (arith, q (omega arith))
is_eql_of (suc lb) zero from to nil same h p q r = ground (arith, q (omega arith))
is_eql_of (suc lb) (suc la) from to nil same h p q r = elim (ℕ_discrete lb la) [
  | yes e ↦ ground (arith, p (omega arith))
  | no e ↦ ground (arith, q (omega arith))
]

abbrev empty_at : ℕ → Side
empty_at i = record { at = i; block = []; not_eql = [] }

-- `isEqlA`, `isEqlB`: whether the texts of a side are those of the base.
is_eql_lem :
    (bs xs : List FileLine) (lb la from to : ℕ)
    → lb ≡ length bs
    → la ≡ length xs
    → from + la ≡ to
    → (ltb lb 1 && ltb la 1
        || lb == la
          && not (from == to)
          && is_nil (finish (unpaired bs xs) (after bs xs (empty_at from))).not_eql)
      ≡ same_texts (texts bs) (texts xs)
is_eql_lem bs xs lb la from to eb ea h =
    is_eql_of lb la from to _ _ h (λ e. not_eql_lem bs xs (empty_at from) (omega arith))
      (λ e. same_texts-length bs xs (λ f. e (omega arith)))
      (λ p q. same_texts_empty bs xs (omega arith) (omega arith))

-- A chunk of the three files.
pub record InOrder (d : Diff3) (from to : Indexes) : Type 0 where
  pub base_le : from.base_index ≤ to.base_index
  pub a_le : from.a_index ≤ to.a_index
  pub b_le : from.b_index ≤ to.b_index
  pub base_in : to.base_index ≤ length d.base
  pub a_in : to.a_index ≤ length d.a
  pub b_in : to.b_index ≤ length d.b

abbrev pub chunk : Diff3 → Indexes → Indexes → List String × ℕ
chunk d from to =
    resolve (texts (between d.base from.base_index to.base_index))
      (texts (between d.a from.a_index to.a_index)) (texts (between d.b from.b_index to.b_index))

Left-between :
    (l : List FileLine) (from to : ℕ)
    → from ≤ to
    → to ≤ length l
    → Left l from to (between l from to)
Left-between l from to h k = record {
  inside = k;
  count = omega (arith, length-drop from (take to l), length-take to l);
  here = refl;
}

both_empty_lem :
    (xa xb : List FileLine) (fa ta fb tb : ℕ)
    → fa + length xa ≡ ta
    → fb + length xb ≡ tb
    → (leb ta fa && leb tb fb) ≡ (is_nil (texts xa) && is_nil (texts xb))
both_empty_lem [] [] fa ta fb tb p q = ground arith
both_empty_lem [] (x ∷ xb) fa ta fb tb p q = ground arith
both_empty_lem (x ∷ xa) xb fa ta fb tb p q = ground arith

write_chunk_lem :
    (fails : List String → Bool) (d : Diff3) (from to : Indexes) (f : List String)
    (bs xa xb : List FileLine)
    → ((g : List String) → fails g ≡ false)
    → Left d.base from.base_index to.base_index bs
    → Left d.a from.a_index to.a_index xa
    → Left d.b from.b_index to.b_index xb
    → write_chunk fails d from to f
      ≡ ok (
        f ++ (resolve (texts bs) (texts xa) (texts xb)).0,
        (resolve (texts bs) (texts xa) (texts xb)).1,
      )
unfolding write_chunk
write_chunk_lem fails d from to f bs xa xb works hb ha hc =
    let sa = empty_at from.a_index in
    let sb = empty_at from.b_index in
    let (run, la, lb) = both_sides_lem d to from.base_index bs xa xb sa sb hb ha hc in
    let eb : to.base_index - from.base_index ≡ length bs = omega (arith, hb.count) in
    let ea : to.a_index - from.a_index ≡ length xa = omega (arith, ha.count) in
    let ec : to.b_index - from.b_index ≡ length xb = omega (arith, hc.count) in
    let ra : to.a_index - (after bs xa sa).at ≡ length (unpaired bs xa) = omega (arith, la.count) in
    let rb : to.b_index - (after bs xb sb).at ≡ length (unpaired bs xb) = omega (arith, lb.count) in
    rw
      (
        eb,
        ea,
        ec,
        run,
        ra,
        side_rest_lem d.a to.a_index (unpaired bs xa) (after bs xa sa) la,
        rb,
        side_rest_lem d.b to.b_index (unpaired bs xb) (after bs xb sb) lb,
        block_lem bs xa sa,
        block_lem bs xb sb,
      )
      (write_resolved-eq-resolve fails works _ _ _ (texts bs) (texts xa) (texts xb) f
        (is_eql_lem bs xa _ _ from.a_index to.a_index refl refl ha.count)
        (is_eql_lem bs xb _ _ from.b_index to.b_index refl refl hc.count)
        (both_empty_lem xa xb from.a_index to.a_index from.b_index to.b_index ha.count hc.count))

-- If no write fails, `writeChunk` appends what `resolve` makes of the chunk, and counts as it does.
pub write_chunk-eq-resolve :
    (fails : List String → Bool) (d : Diff3) (from to : Indexes) (f : List String)
    → ((g : List String) → fails g ≡ false)
    → InOrder d from to
    → write_chunk fails d from to f ≡ ok (f ++ (chunk d from to).0, (chunk d from to).1)
write_chunk-eq-resolve fails d from to f works o =
    write_chunk_lem fails d from to f _ _ _ works
      (Left-between d.base from.base_index to.base_index o.base_le o.base_in)
      (Left-between d.a from.a_index to.a_index o.a_le o.a_in)
      (Left-between d.b from.b_index to.b_index o.b_le o.b_in)
