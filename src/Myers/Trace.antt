-- ===== src/Myers/Trace.antt =====
-- `GetShortestPath` computes `furthest`: the array `v`, round by round.
use mathlib.Core.List.{reverse-append}
use test_perf.Prelude.{
  ℕ, zero, suc, ◌+◌, ◌-◌, ◌*◌, ◌≤◌, ◌<◌, ◌≡◌, ◌⊎◌, ◌∙◌, ℕ_discrete, dec_le, inl, inr, refl, ap,
  Bool, true, false, ◌&&◌, ltb, leb, ◌==◌, Bool-cases, some, List, [], ◌∷◌, ◌++◌, reverse, length,
  get_elem?, set, replicate, get_elem?-set_self, get_elem?-set_ne, get_elem?-replicate, length-set,
  length-replicate, arith,
}
use test_perf.Myers.{
  FileLine, snake, goes_down, start_x, extend, diagonals, rounds, get_shortest_path,
}
use test_perf.Myers.Furthest.{
  start, furthest, first_x, row, first_x-ge, furthest_lem, furthest-ge, Ended, last_round_ends,
}

module _ (a b : List FileLine) where
  -- `v` before round `d`, where `c = max - d`: the diagonals of the round before, which lie between
  -- those of round `d`.
  pub record Before (max c d : ℕ) (v : List ℕ) : Type 0 where
    pub size : length v ≡ 2 * max + 1
    pub diagonal : (j : ℕ) → j ≤ d - 1 → get_elem? v (c + 1 + 2 * j) ≡ some (row a b d j)

  goes_down-first :
      (max c d : ℕ) (v : List ℕ)
      → c + d ≡ max
      → Before max c d v
      → (goes_down max d (c + 2 * 0) v ≡ some true)
        × (get_elem? v (c + 2 * 0 + 1) ≡ some (row a b d 0))
        × (first_x a b d 0 ≡ row a b d 0)
  unfolding goes_down start
  goes_down-first max c zero v cd h = (ground arith, ground (arith, h.diagonal 0), refl)
  goes_down-first max c (suc d) v cd h = (ground arith, ground (arith, h.diagonal 0), refl)

  -- What a round chooses on its `i`-th diagonal: down, or to the right.
  abbrev pub Chosen : (max c d i : ℕ) → List ℕ → Type 0
  Chosen max c d i v =
      ((goes_down max d (c + 2 * i) v ≡ some true)
        × (i ≤ d - 1)
        × (get_elem? v (c + 2 * i + 1) ≡ some (row a b d i))
        × (first_x a b d i ≡ row a b d i))
      ⊎ ((j : ℕ) × (i ≡ suc j)
          × (goes_down max d (c + 2 * i) v ≡ some false)
          × (get_elem? v (c + 2 * i - 1) ≡ some (row a b d j))
          × (first_x a b d i ≡ row a b d j + 1))

  goes_down-later :
      (max c d i : ℕ) (v : List ℕ)
      → c + suc d ≡ max
      → Before max c (suc d) v
      → i ≤ d
      → Chosen max c (suc d) (suc i) v
  unfolding goes_down start
  goes_down-later max c d i v cd h k =
      let p : c + 2 * suc i - 1 ≡ c + 1 + 2 * i = omega arith in
      let q : c + 2 * suc i + 1 ≡ c + 1 + 2 * suc i = omega arith in
      let lo : get_elem? v (c + 2 * suc i - 1) ≡ some (furthest a b d i) =
        rw p (h.diagonal i (omega arith)) in
      let first : (c + 2 * suc i + suc d == max) ≡ false = ground arith in
      elim (Bool-cases (i == d)) [
        | inl e ↦
            let last : (c + 2 * suc i == max + suc d) ≡ true = ground arith in
            inr (i, refl, rw (first, last) refl, lo, rw e refl)
        | inr e ↦
            let last : (c + 2 * suc i == max + suc d) ≡ false = ground arith in
            let hi : get_elem? v (c + 2 * suc i + 1) ≡ some (furthest a b d (suc i)) =
              rw q (h.diagonal (suc i) (ground arith)) in
            elim (Bool-cases (ltb (furthest a b d i) (furthest a b d (suc i)))) [
              | inl l ↦ inl (rw (first, last, lo, hi, l) refl, ground arith, hi, rw (e, l) refl)
              | inr l ↦ inr (i, refl, rw (first, last, lo, hi, l) refl, lo, rw (e, l) refl)
            ]
      ]

  pub goes_down-cases :
      (max c d i : ℕ) (v : List ℕ) → c + d ≡ max → Before max c d v → i ≤ d → Chosen max c d i v
  goes_down-cases max c d zero v cd h k =
      let (p, q, r) = goes_down-first max c d v cd h in inl (p, omega arith, q, r)
  goes_down-cases max c zero (suc i) v cd h k = absurd (omega arith)
  goes_down-cases max c (suc d) (suc i) v cd h k = goes_down-later max c d i v cd h (omega arith)

  start_x-eq-first_x :
      (max c d i : ℕ) (v : List ℕ)
      → c + d ≡ max
      → Before max c d v
      → i ≤ d
      → start_x max d (c + 2 * i) v ≡ some (first_x a b d i)
  unfolding start_x
  start_x-eq-first_x max c d i v cd h k = elim (goes_down-cases max c d i v cd h k) [
    | inl (p, _, q, r) ↦ rw (p, q, r) refl
    | inr (j, _, p, q, r) ↦ rw (p, q, r) refl
  ]

  -- The test for the end of both files, on the `i`-th diagonal of round `d`.
  abbrev ended? : ℕ → ℕ → Bool
  ended? d i = leb (length a) (furthest a b d i) && leb (length b) (furthest a b d i + d - 2 * i)

  extend_lem :
      (max c d i : ℕ) (v : List ℕ)
      → c + d ≡ max
      → Before max c d v
      → i ≤ d
      → extend a b max d (c + 2 * i) v ≡ some (ended? d i, set v (c + 2 * i) (furthest a b d i))
  unfolding extend
  extend_lem max c d i v cd h k =
      let x = first_x a b d i in
      let big = first_x-ge a b d i k in
      let fits : leb (c + 2 * i) (x + max) ≡ true = ground (arith, big) in
      let y : x + max - (c + 2 * i) ≡ x + d - 2 * i = omega arith in
      let room : ltb (c + 2 * i) (length v) ≡ true = ground (arith, h.size) in
      let run = snake a b (length a - x) x (x + d - 2 * i) in
      let y' : x + d - 2 * i + run ≡ x + run + d - 2 * i = omega arith in
      rw (start_x-eq-first_x max c d i v cd h k, fits, y, room, y', ← furthest_lem a b d i k) refl

  -- `v` after `i` diagonals of a round.
  record During (max c d i : ℕ) (v : List ℕ) : Type 0 where
    before : Before max c d v
    reached : (j : ℕ) → j < i → get_elem? v (c + 2 * j) ≡ some (furthest a b d j)
    not_ended : (j : ℕ) → j < i → ¬ Ended a b d j

  -- A write on a diagonal of the round leaves the diagonals of the round before.
  Before-set :
      (max c d i x : ℕ) (v : List ℕ) → Before max c d v → Before max c d (set v (c + 2 * i) x)
  Before-set max c d i x v h = record {
    size = length-set v (c + 2 * i) x ∙ h.size;
    diagonal = λ j k.
        get_elem?-set_ne v {i = c + 2 * i} {j = c + 1 + 2 * j} x (omega arith) ∙ h.diagonal j k;
  }

  During-set :
      (max c d i : ℕ) (v : List ℕ)
      → c + d ≡ max
      → During max c d i v
      → i ≤ d
      → ¬ Ended a b d i
      → During max c d (suc i) (set v (c + 2 * i) (furthest a b d i))
  During-set max c d i v cd h k e = record {
    before = Before-set max c d i (furthest a b d i) v h.before;
    reached = λ j l. elim (ℕ_discrete j i) [
      | yes p ↦
          rw p (get_elem?-set_self v (c + 2 * i) (furthest a b d i) (omega (arith, h.before.size)))
      | no p ↦
          get_elem?-set_ne v {i = c + 2 * i} {j = c + 2 * j} _ (omega arith)
          ∙ h.reached j (omega arith)
    ];
    not_ended =
        λ j l. elim (ℕ_discrete j i) [ yes p ↦ rw p e | no p ↦ h.not_ended j (omega arith) ];
  }

  -- After a round: the end is found on a diagonal of it, or all of it is recorded and goes on.
  After : (max c d : ℕ) → Bool → List ℕ → Type 0
  After max c d done v =
      Before max c d v
      × ((done ≡ true) × ((i : ℕ) × (i ≤ d) × Ended a b d i)
          ⊎ (done ≡ false) × During max c d (suc d) v)

  ended?_cases :
      (d i : ℕ)
      → i ≤ d
      → (ended? d i ≡ true) × Ended a b d i ⊎ (ended? d i ≡ false) × (¬ Ended a b d i)
  ended?_cases d i h = elim (dec_le (length a) (furthest a b d i)) [
    | yes p ↦ elim (dec_le (length b + 2 * i) (furthest a b d i + d)) [
      | yes q ↦ inl (ground arith, (p, q))
      | no q ↦ inr (ground (arith, furthest-ge a b d i h), λ e. q e.1)
    ]
    | no p ↦ inr (ground arith, λ e. p e.0)
  ]

  diagonals_lem :
      (max c d j i : ℕ) (v : List ℕ)
      → c + d ≡ max
      → j + i ≡ suc d
      → During max c d i v
      → (done : Bool) × (v' : List ℕ) × (diagonals a b max d j (c + 2 * i) v ≡ some (done, v'))
        × After max c d done v'
  unfolding diagonals After
  diagonals_lem max c d zero i v cd ji h =
      let e : i ≡ suc d = omega arith in (false, v, refl, (h.before, inr (refl, rw e at h)))
  diagonals_lem max c d (suc j) i v cd ji h = elim (ended?_cases d i (omega arith)) [
    | inl (t, e) ↦ (
      true,
      set v (c + 2 * i) (furthest a b d i),
      rw (extend_lem max c d i v cd h.before (omega arith), t) refl,
      (Before-set max c d i (furthest a b d i) v h.before, inl (refl, (i, omega arith, e))),
    )
    | inr (t, e) ↦
        let v' = set v (c + 2 * i) (furthest a b d i) in
        let (done, v'', run, post) =
          diagonals_lem max c d j (suc i) v' cd (omega arith)
            (During-set max c d i v cd h (omega arith) e) in
        let p : c + 2 * i + 2 ≡ c + 2 * suc i = omega arith in
        (done, v'', rw (extend_lem max c d i v cd h.before (omega arith), t, p) run, post)
  ]

  -- The rounds of a trace, last one first, each recorded over the row of the round before it.
  unfoldable pub Rows : ℕ → List (List ℕ) → Type 0
  Rows max [] = Unit
  Rows max (v ∷ before) =
      ((c : ℕ) × (c + length before ≡ max) × Before max c (length before) v) × Rows max before

  -- A trace whose last round is the first to find the end of both files.
  pub record Finished (max : ℕ) (trace : List (List ℕ)) : Type 0 where
    pub last : List ℕ
    pub before : List (List ℕ)
    pub reversed : reverse trace ≡ last ∷ before
    pub rows : Rows max (last ∷ before)
    pub at : ℕ
    pub in_round : at ≤ length before
    pub ended : Ended a b (length before) at
    pub first : (e j : ℕ) → e < length before → j ≤ e → ¬ Ended a b e j

  Before-suc : (max c d : ℕ) (v : List ℕ) → During max (suc c) d (suc d) v → Before max c (suc d) v
  Before-suc max c d v h = record {
    size = h.before.size;
    diagonal = λ j k.
        let e : c + 1 + 2 * j ≡ suc c + 2 * j = omega arith in rw e (h.reached j (omega arith));
  }

  Before-next :
      (max d : ℕ) (v : List ℕ)
      → d + 1 ≤ max
      → During max (max - d) d (suc d) v
      → Before max (max - (d + 1)) (d + 1) v
  Before-next max d v le h =
      let q : d + 1 ≡ suc d = omega arith in rw q (Before-suc max (max - suc d) d v (move h))
    where
      move : During max (max - d) d (suc d) v → During max (suc (max - suc d)) d (suc d) v
      move g = let p : suc (max - suc d) ≡ max - d = omega arith in rw p g

  -- The rounds before `d` have not found the end.
  abbrev Open : ℕ → Type 0
  Open d = (e j : ℕ) → e < d → j ≤ e → ¬ Ended a b e j

  Rows-cons :
      (max d : ℕ) (v : List ℕ) (before : List (List ℕ))
      → length before ≡ d
      → d ≤ max
      → Before max (max - d) d v
      → Rows max before
      → Rows max (v ∷ before)
  unfolding Rows
  Rows-cons max d v before len le h rows = ((max - d, omega arith, rw len h), rows)

  Finished-found :
      (max d i : ℕ) (v : List ℕ) (trace before : List (List ℕ))
      → reverse trace ≡ before
      → length before ≡ d
      → Rows max (v ∷ before)
      → Open d
      → i ≤ d
      → Ended a b d i
      → Finished max (trace ++ v ∷ [])
  Finished-found max d i v trace before rev len rows open_ k e = record {
    last = v;
    before = before;
    reversed = reverse-append trace (v ∷ []) ∙ ap (◌∷◌ v) rev;
    rows = rows;
    at = i;
    in_round = omega arith;
    ended = rw len e;
    first = λ e' j q l. open_ e' j (omega arith) l;
  }

  Open-suc : (max c d : ℕ) (v : List ℕ) → Open d → During max c d (suc d) v → Open (suc d)
  Open-suc max c d v open_ h e j l k = elim (ℕ_discrete e d) [
    | yes q ↦ rw q (h.not_ended j (omega arith))
    | no q ↦ open_ e j (omega arith) k
  ]

  round_lem :
      (max d : ℕ) (v : List ℕ)
      → d ≤ max
      → Before max (max - d) d v
      → (done : Bool) × (v' : List ℕ) × (diagonals a b max d (d + 1) (max - d) v ≡ some (done, v'))
        × After max (max - d) d done v'
  round_lem max d v le h =
      let (done, v', run, post) =
        diagonals_lem max (max - d) d (d + 1) 0 v (omega arith) (omega arith) (record {
          before = h;
          reached = λ j l. absurd (omega arith);
          not_ended = λ j l. absurd (omega arith);
        }) in
      let p : max - d + 2 * 0 ≡ max - d = omega arith in (done, v', rw p at run, post)

  -- The loop runs to the first round that finds the end, and there is one.
  rounds_lem :
      (max r d : ℕ) (v : List ℕ) (trace before : List (List ℕ))
      → max ≡ length a + length b
      → r + d ≡ suc max
      → reverse trace ≡ before
      → length before ≡ d
      → (d ≤ max → Before max (max - d) d v)
      → Rows max before
      → Open d
      → (t : List (List ℕ)) × (rounds a b max r d v trace ≡ some t) × Finished max t
  unfolding rounds After
  rounds_lem max zero d v trace before m rd rev len ready rows open_ =
      absurd
        (open_ (length a + length b) (length a) (omega arith) (omega arith) (last_round_ends a b))
  rounds_lem max (suc r) d v trace before m rd rev len ready rows open_ =
      go (round_lem max d v (omega arith) (ready (omega arith))) λ v' post h.
        rounds_lem max r (d + 1) v' (trace ++ v' ∷ []) (v' ∷ before) m (omega arith)
          (reverse-append trace (v' ∷ []) ∙ ap (◌∷◌ v') rev) (omega arith)
          (λ le. Before-next max d v' le h) (Rows-cons max d v' before len (omega arith) post rows)
          (λ e j l k. Open-suc max (max - d) d v' open_ h e j (omega arith) k)
    where
      go :
          (done : Bool) × (v' : List ℕ) × (diagonals a b max d (d + 1) (max - d) v
              ≡ some (done, v'))
            × After max (max - d) d done v'
          → ((v' : List ℕ)
              → Before max (max - d) d v'
              → During max (max - d) d (suc d) v'
              → (t : List (List ℕ)) × (rounds a b max r (d + 1) v' (trace ++ v' ∷ []) ≡ some t)
                × Finished max t)
          → (t : List (List ℕ)) × (rounds a b max (suc r) d v trace ≡ some t) × Finished max t
      go (done, v', run, (post, inl (t, (i, k, e)))) next = (
        trace ++ v' ∷ [],
        rw (run, t) refl,
        Finished-found max d i v' trace before rev len
            (Rows-cons max d v' before len (omega arith) post rows) open_ k e,
      )
      go (done, v', run, (post, inr (t, h))) next =
          let (tr, ran, fin) = next v' post h in (tr, rw (run, t) ran, fin)

  Before-init : (max : ℕ) → 0 < max → Before max (max - 0) 0 (replicate (2 * max + 1) 0)
  Before-init max h = record {
    size = length-replicate (2 * max + 1) 0;
    diagonal = λ j k. get_elem?-replicate (2 * max + 1) (max - 0 + 1 + 2 * j) 0 (omega arith);
  }

  -- On two files of which one has a line, the search ends with a finished trace.
  pub get_shortest_path_lem :
      0 < length a + length b
      → (t : List (List ℕ)) × (get_shortest_path a b ≡ some t) × Finished (length a + length b) t
  unfolding get_shortest_path Rows
  get_shortest_path_lem h =
      let max = length a + length b in
      rounds_lem max (max + 1) 0 (replicate (2 * max + 1) 0) [] [] refl (omega arith) refl refl
        (λ _. Before-init max h) tt (λ e j l. absurd (omega arith))
