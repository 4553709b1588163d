-- ===== src/Diff3/Search.antt =====
-- What `getNextMismatch` and `getNextMatch` find, and that the loop stays inside the files.
use test_perf.Prelude.{
  ℕ, zero, suc, ◌+◌, ◌-◌, ◌≤◌, ◌<◌, ◌≡◌, ◌↔◌, ◌∙◌, inl, inr, refl, sym, ap, Bool, true, false,
  Bool-cases, Option, none, some, Option-cases, length, ◌==◌, arith, dec_lt,
}
use test_perf.Result.{ok}
use test_perf.Diff3.{
  Diff3, Indexes, IntMap, is_match, is_in_bounds, next_mismatch_from, get_next_mismatch,
  next_match_from, get_next_match,
}
use test_perf.Diff3.Chunk.{InOrder}
use test_perf.Diff3.Matches.{IsMatching}
use test_perf.Diff3.Tiling.{end_of, origin, sum, shift, Matched, NoMatch}

module _ (d : Diff3) (ma mb : IntMap) (ga : IsMatching (length d.base) (length d.a) 0 0 ma)
    (gb : IsMatching (length d.base) (length d.b) 0 0 mb) where
  -- A position of the loop: inside the files, and no match from there on leads back.
  pub record IsReady (at : Indexes) : Type 0 where
    pub base_in : at.base_index ≤ length d.base
    pub a_in : at.a_index ≤ length d.a
    pub b_in : at.b_index ≤ length d.b
    pub a_ahead : (k v : ℕ) → at.base_index ≤ k → ma k ≡ some v → at.a_index ≤ v
    pub b_ahead : (k v : ℕ) → at.base_index ≤ k → mb k ≡ some v → at.b_index ≤ v

  is_match_iff :
      (m : IntMap) (base off i : ℕ)
      → (is_match m base off i ≡ true) ↔ (m (base + i) ≡ some (off + i))
  unfolding is_match
  is_match_iff m base off i = (there (m (base + i)) (off + i), back (m (base + i)) (off + i))
    where
      there :
          (o : Option ℕ) (x : ℕ) → elim o [ none ↦ false | some el ↦ el == x ] ≡ true → o ≡ some x
      there none x h = cc
      there (some el) x h = let e : el ≡ x = ground arith in ap some e

      back :
          (o : Option ℕ) (x : ℕ) → o ≡ some x → elim o [ none ↦ false | some el ↦ el == x ] ≡ true
      back none x h = cc
      back (some el) x h = ground arith

  -- The next mismatch is `r` lines on, and all before it are matched.
  pub record Mismatch (at : Indexes) (r : ℕ) : Type 0 where
    pub inside : at.base_index + r ≤ length d.base
    pub matched : (s : ℕ) → s < r → Matched d ma mb (shift at s)
    pub not_matched : ¬ Matched d ma mb (shift at r)

  in_bounds :
      (at : Indexes) (i : ℕ)
      → at.base_index + i ≤ length d.base
      → is_in_bounds d i at.base_index at.a_index at.b_index ≡ true
  unfolding is_in_bounds
  in_bounds at i h = ground arith

  Matched-suc :
      (at : Indexes) (i : ℕ)
      → ((s : ℕ) → s < i → Matched d ma mb (shift at s))
      → Matched d ma mb (shift at i)
      → (s : ℕ) → s < i + 1
      → Matched d ma mb (shift at s)
  Matched-suc at i all m s h = elim (dec_lt s i) [
    | yes l ↦ all s l
    | no l ↦ let e : s ≡ i = omega arith in rw e m
  ]

  next_mismatch_lem :
      (at : Indexes) (fuel i : ℕ)
      → length d.base < at.base_index + i + fuel
      → at.base_index + i ≤ length d.base
      → ((s : ℕ) → s < i → Matched d ma mb (shift at s))
      → (r : ℕ) × (next_mismatch_from d ma mb fuel at i ≡ ok (some r)) × Mismatch at r
  unfolding next_mismatch_from
  next_mismatch_lem at zero i f h all = absurd (omega arith)
  next_mismatch_lem at (suc fuel) i f h all =
      elim (Bool-cases (is_match ma at.base_index at.a_index i)) [
        | inl p ↦ elim (Bool-cases (is_match mb at.base_index at.b_index i)) [
          | inl q ↦
              let m : Matched d ma mb (shift at i) = record {
                in_a = (is_match_iff ma at.base_index at.a_index i).0 p;
                in_b = (is_match_iff mb at.base_index at.b_index i).0 q;
              } in
              let (x, y, below, z) = ga.in_range _ _ m.in_a in
              let (r, run, found) =
                next_mismatch_lem at fuel (i + 1) (omega arith) (omega arith)
                  (Matched-suc at i all m) in
              (r, rw (in_bounds at i h, p, q, next_mismatch_from) run, found)
          | inr q ↦ (
            i,
            rw (in_bounds at i h, p, q, next_mismatch_from, in_bounds at i h) refl,
            record {
              inside = h;
              matched = all;
              not_matched = λ m. clash ((is_match_iff mb at.base_index at.b_index i).1 m.in_b) q;
            },
          )
        ]
        | inr p ↦ (
          i,
          rw (in_bounds at i h, p, next_mismatch_from, in_bounds at i h) refl,
          record {
            inside = h;
            matched = all;
            not_matched = λ m. clash ((is_match_iff ma at.base_index at.a_index i).1 m.in_a) p;
          },
        )
      ]
    where
      clash : {x : Bool} → x ≡ true → x ≡ false → ⊥
      clash p q = cc

  pub get_next_mismatch_lem :
      (at : Indexes)
      → IsReady at
      → (r : ℕ) × (get_next_mismatch d ma mb at ≡ ok (some r)) × Mismatch at r
  unfolding get_next_mismatch
  get_next_mismatch_lem at h =
      next_mismatch_lem at (length d.base + 1) 0 (omega arith) (omega (arith, h.base_in))
        (λ s l. absurd (omega arith))

  -- What the search for a match from the line `n` on finds, with `r` rounds left.
  pub data Found (n r : ℕ) : Type 0 where
    nothing : next_match_from d ma mb r n ≡ none → NoMatch d ma mb n (n + r) → Found n r
    found :
        (q : Indexes)
        → next_match_from d ma mb r n ≡ some q
        → n ≤ q.base_index
        → NoMatch d ma mb n q.base_index
        → Matched d ma mb q
        → Found n r

  Found-later :
      (n r : ℕ)
      → next_match_from d ma mb (suc r) n ≡ next_match_from d ma mb r (n + 1)
      → NoMatch d ma mb n (n + 1)
      → Found (n + 1) r
      → Found n (suc r)
  Found-later n r e here (nothing f none_at) = nothing (e ∙ f) (λ p l h.
      elim (dec_lt n p.base_index) [
        | yes k ↦ none_at p (omega arith) (omega arith)
        | no k ↦ here p l (omega arith)
      ])
  Found-later n r e here (found q f l none_at m) =
      found q (e ∙ f) (omega arith)
        (λ p l' h. elim (dec_lt n p.base_index) [
          | yes k ↦ none_at p (omega arith) h
          | no k ↦ here p l' (omega arith)
        ])
        m

  only_here : (n : ℕ) → ((i j : ℕ) → ma n ≡ some i → mb n ≡ some j → ⊥) → NoMatch d ma mb n (n + 1)
  only_here n h p l k m =
      let e : p.base_index ≡ n = omega arith in
      h p.a_index p.b_index (ap ma (sym e) ∙ m.in_a) (ap mb (sym e) ∙ m.in_b)

  pub next_match_lem : (r n : ℕ) → Found n r
  unfolding next_match_from
  next_match_lem zero n = nothing refl (λ p l h. absurd (omega arith))
  next_match_lem (suc r) n = elim (Option-cases (ma n)) [
    | inl e ↦
        Found-later n r (rw (e, next_match_from) refl) (only_here n (λ i j f g. cc (e, f)))
          (next_match_lem r (n + 1))
    | inr (v, e) ↦ elim (Option-cases (mb n)) [
      | inl f ↦
          Found-later n r (rw (e, next_match_from, f) refl) (only_here n (λ i j g h. cc (f, h)))
            (next_match_lem r (n + 1))
      | inr (w, f) ↦
          found (record { base_index = n; a_index = v; b_index = w })
            (rw (e, next_match_from, f) refl) (omega arith) (λ p l h. absurd (omega arith))
            (record { in_a = e; in_b = f })
    ]
  ]

  -- The positions the loop comes to are ready.
  pub IsReady-behind :
      (at : Indexes) (i : ℕ) → Matched d ma mb (shift at i) → IsReady (shift at (suc i))
  IsReady-behind at i m =
      let (x, y, base_lt, a_lt) = ga.in_range _ _ m.in_a in
      let (x', y', base_lt', b_lt) = gb.in_range _ _ m.in_b in
      record {
        base_in = omega arith;
        a_in = omega arith;
        b_in = omega arith;
        a_ahead = λ k v l e. omega (arith, ga.increasing _ _ k v m.in_a e (omega arith));
        b_ahead = λ k v l e. omega (arith, gb.increasing _ _ k v m.in_b e (omega arith));
      }

  ahead :
      (m : IntMap) (na b v : ℕ)
      → IsMatching (length d.base) na 0 0 m
      → m b ≡ some v
      → (k w : ℕ) → b ≤ k
      → m k ≡ some w
      → v ≤ w
  ahead m na b v g e k w l f = elim (dec_lt b k) [
    | yes h ↦ omega (arith, g.increasing b v k w e f h)
    | no h ↦
        let p : k ≡ b = omega arith in
        let q : m b ≡ some w = rw p at f in omega (arith, same v w (sym e ∙ q))
  ]
    where
      same : (x y : ℕ) → some x ≡ some y → x ≡ y
      same x y h = cc

  pub IsReady-at : (q : Indexes) → Matched d ma mb q → IsReady q
  IsReady-at q m =
      let (x, y, base_lt, a_lt) = ga.in_range _ _ m.in_a in
      let (x', y', base_lt', b_lt) = gb.in_range _ _ m.in_b in
      record {
        base_in = omega arith;
        a_in = omega arith;
        b_in = omega arith;
        a_ahead = ahead ma _ _ _ ga m.in_a;
        b_ahead = ahead mb _ _ _ gb m.in_b;
      }

  -- Where there is no match at `at` itself, the next one is further on.
  pub further :
      (at q : Indexes) → Mismatch at 0 → InOrder d at q → Matched d ma mb q → sum at < sum q
  further at q miss o m = elim (dec_lt (sum at) (sum q)) [
    | yes h ↦ h
    | no h ↦
        let x : q.base_index ≡ at.base_index + 0 = omega (arith, o.base_le, o.a_le, o.b_le) in
        let y : q.a_index ≡ at.a_index + 0 = omega (arith, o.base_le, o.a_le, o.b_le) in
        let z : q.b_index ≡ at.b_index + 0 = omega (arith, o.base_le, o.a_le, o.b_le) in
        absurd (
          miss.not_matched
            (record { in_a = rw (sym x, sym y) m.in_a; in_b = rw (sym x, sym z) m.in_b }))
  ]

  pub get_next_match_eq :
      {o : Option Indexes} (at : Indexes)
      → next_match_from d ma mb (length d.base - at.base_index) at.base_index ≡ o
      → get_next_match d ma mb at.base_index ≡ o
  unfolding get_next_match
  get_next_match_eq at e = e

  pub IsReady-origin : IsReady origin
  IsReady-origin = record {
    base_in = omega arith;
    a_in = omega arith;
    b_in = omega arith;
    a_ahead = λ k v l e. omega arith;
    b_ahead = λ k v l e. omega arith;
  }

  -- The chunks of the loop lie inside the files.
  pub to_end : (at : Indexes) → IsReady at → InOrder d at (end_of d)
  to_end at r = record {
    base_le = r.base_in;
    a_le = r.a_in;
    b_le = r.b_in;
    base_in = omega arith;
    a_in = omega arith;
    b_in = omega arith;
  }

  pub to_match :
      (at to : Indexes)
      → IsReady at
      → at.base_index ≤ to.base_index
      → Matched d ma mb to
      → InOrder d at to
  to_match at to r l m =
      let s = IsReady-at to m in
      record {
        base_le = l;
        a_le = r.a_ahead to.base_index to.a_index l m.in_a;
        b_le = r.b_ahead to.base_index to.b_index l m.in_b;
        base_in = s.base_in;
        a_in = s.a_in;
        b_in = s.b_in;
      }

  pub to_shift :
      (at : Indexes) (i : ℕ) → Matched d ma mb (shift at i) → InOrder d at (shift at (suc i))
  to_shift at i m =
      let s = IsReady-behind at i m in
      record {
        base_le = omega arith;
        a_le = omega arith;
        b_le = omega arith;
        base_in = s.base_in;
        a_in = s.a_in;
        b_in = s.b_in;
      }
