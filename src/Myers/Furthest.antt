-- ===== src/Myers/Furthest.antt =====
-- The recurrence behind Myers' algorithm, with no arrays: how far a path gets on each diagonal.
use test_perf.Prelude.{
  ℕ, zero, suc, ◌+◌, ◌-◌, ◌*◌, ◌≤◌, ◌<◌, ◌≡◌, ◌⊎◌, inl, inr, refl, true, ltb, ◌==◌, if◌then◌else◌,
  Bool-cases, List, length, get_elem?, ap, dec_lt, get_elem?-lt, Option-cases, arith,
}
use test_perf.Myers.{FileLine, same_at, snake}

-- `x` before the snake, on the `i`-th diagonal of round `d + 1`, from the row of round `d`.
unfoldable pub start : ℕ → ℕ → (ℕ → ℕ) → ℕ
start d zero row = row 0
start d (suc i) row =
    if i == d then row i + 1 else if ltb (row i) (row (suc i)) then row (suc i) else row i + 1

pub start-ge-right : (d i : ℕ) (row : ℕ → ℕ) → row i + 1 ≤ start d (suc i) row
unfolding start
start-ge-right d i row = ground arith

pub start-ge-down : (d i : ℕ) (row : ℕ → ℕ) → i ≤ d → row i ≤ start d i row
unfolding start
start-ge-down d zero row h = ground arith
start-ge-down d (suc i) row h = ground arith

-- The start of a path's last run on a diagonal: it came down, or from the left.
pub start-cases :
    (d i : ℕ) (row : ℕ → ℕ)
    → i ≤ d
    → ((suc i ≤ d) × (start d (suc i) row ≡ row (suc i))) ⊎ (start d (suc i) row ≡ row i + 1)
unfolding start
start-cases d i row h = elim (Bool-cases (i == d)) [
  | inl e ↦ inr (rw e refl)
  | inr e ↦ elim (Bool-cases (ltb (row i) (row (suc i)))) [
    | inl l ↦ inl (ground arith, rw (e, l) refl)
    | inr l ↦ inr (rw (e, l) refl)
  ]
]

module _ (a b : List FileLine) where
  pub same_at-lt : (x y : ℕ) → same_at a b x y ≡ true → (x < length a) × (y < length b)
  unfolding same_at
  same_at-lt x y h = elim (Option-cases (get_elem? a x)) [
    | inl p ↦ absurd (ground arith)
    | inr (l, p) ↦ elim (Option-cases (get_elem? b y)) [
      | inl q ↦ absurd (ground arith)
      | inr (r, q) ↦ (get_elem?-lt a x p, get_elem?-lt b y q)
    ]
  ]

  -- The run of equal lines stays inside both files.
  pub snake_fits :
      (f x y : ℕ)
      → (snake a b f x y ≡ 0)
        ⊎ ((x + snake a b f x y ≤ length a) × (y + snake a b f x y ≤ length b))
  unfolding snake
  snake_fits zero x y = inl refl
  snake_fits (suc f) x y = elim (Bool-cases (same_at a b x y)) [
    | inl e ↦ rw (e, snake) (inr (ground (arith, snake_fits f (x + 1) (y + 1), same_at-lt x y e)))
    | inr e ↦ rw (e, snake) (inl refl)
  ]

  -- The `i`-th diagonal of round `d` is `x - y = 2 i - d`.
  pub furthest : ℕ → ℕ → ℕ
  furthest zero i = snake a b (length a) 0 0
  furthest (suc d) i =
      let x = start d i (furthest d) in x + snake a b (length a - x) x (x + suc d - 2 * i)

  pub furthest-start-le : (d i : ℕ) → start d i (furthest d) ≤ furthest (suc d) i
  unfolding furthest
  furthest-start-le d i = omega arith

  -- Each round adds a step, so `x` is at least `i`, and `y` is not negative.
  pub furthest-ge : (d i : ℕ) → i ≤ d → i ≤ furthest d i
  furthest-ge zero i h = omega arith
  furthest-ge (suc d) zero h = omega arith
  furthest-ge (suc d) (suc i) h = elim (start-cases d i (furthest d) (omega arith)) [
    | inl (k, e) ↦ omega (arith, furthest-ge d (suc i) k, furthest-start-le d (suc i))
    | inr e ↦ omega (arith, furthest-ge d i (omega arith), furthest-start-le d (suc i))
  ]

  -- A run past the end of a file adds nothing.
  furthest_past :
      (d i : ℕ)
      → i ≤ suc d
      → (furthest (suc d) i ≡ start d i (furthest d))
        ⊎ ((furthest (suc d) i ≤ length a) × (furthest (suc d) i + suc d ≤ length b + 2 * i))
  unfolding furthest
  furthest_past d i h =
      let x = start d i (furthest d) in
      elim (snake_fits (length a - x) x (x + suc d - 2 * i)) [
        | inl e ↦ inl (omega arith)
        | inr (p, q) ↦ inr (p, omega arith)
      ]

  furthest_first_fits : (i : ℕ) → (furthest 0 i ≤ length a) × (furthest 0 i ≤ length b)
  unfolding furthest
  furthest_first_fits i = elim (snake_fits (length a) 0 0) [
    | inl e ↦ (omega arith, omega arith)
    | inr (p, q) ↦ (omega arith, omega arith)
  ]

  -- On the first diagonal a path has only come down, on the last it has only come from the left.
  furthest_first_diagonal : (d : ℕ) → furthest d 0 ≤ length a
  unfolding start
  furthest_first_diagonal zero = (furthest_first_fits 0).0
  furthest_first_diagonal (suc d) = elim (furthest_past d 0 (omega arith)) [
    | inl e ↦ omega (arith, furthest_first_diagonal d)
    | inr p ↦ p.0
  ]

  furthest_last_diagonal : (d : ℕ) → furthest d d ≤ length b + d
  unfolding start
  furthest_last_diagonal zero = omega (arith, furthest_first_fits 0)
  furthest_last_diagonal (suc d) = elim (furthest_past d (suc d) (omega arith)) [
    | inl e ↦ ground (arith, furthest_last_diagonal d)
    | inr p ↦ omega arith
  ]

  -- A path that has left the first file on the right was one step further back a round before.
  past_right_step :
      (d i : ℕ)
      → i ≤ d
      → length a < furthest (suc d) (suc i)
      → (suc i ≤ d → length a < furthest d (suc i) → furthest d (suc i) ≤ furthest d i + 1)
      → furthest (suc d) (suc i) ≤ furthest d i + 1
  past_right_step d i h l ih = elim (furthest_past d (suc i) (omega arith)) [
    | inl e ↦ elim (start-cases d i (furthest d) h) [
      | inl (k, c) ↦ omega (arith, ih k (omega arith))
      | inr c ↦ omega arith
    ]
    | inr p ↦ absurd (omega arith)
  ]

  past_right :
      (d i : ℕ)
      → i ≤ d
      → length a < furthest (suc d) (suc i)
      → furthest (suc d) (suc i) ≤ furthest d i + 1
  past_right zero i h l = past_right_step 0 i h l (λ k _. absurd (omega arith))
  past_right (suc d) i h l = past_right_step (suc d) i h l λ k m. omega (
    arith,
    past_right d i (omega arith) m,
    start-ge-down d i (furthest d) (omega arith),
    furthest-start-le d i,
  )

  -- A path that has left the second file below was one step further up a round before.
  past_below_first :
      (d : ℕ) → length b < furthest (suc d) 0 + suc d → furthest (suc d) 0 ≤ furthest d 0
  unfolding start
  past_below_first d l = elim (furthest_past d 0 (omega arith)) [
    | inl e ↦ omega arith
    | inr p ↦ absurd (omega arith)
  ]

  past_below :
      (d i : ℕ)
      → i ≤ d
      → length b + 2 * i < furthest (suc d) i + suc d
      → furthest (suc d) i ≤ furthest d i
  past_below d zero h l = past_below_first d (omega arith)
  past_below zero (suc i) h l = absurd (omega arith)
  past_below (suc d) (suc i) h l = elim (furthest_past (suc d) (suc i) (omega arith)) [
    | inl e ↦ elim (start-cases (suc d) i (furthest (suc d)) (omega arith)) [
      | inl (k, c) ↦ omega arith
      | inr c ↦ omega (
        arith,
        past_below d i (omega arith) (omega arith),
        start-ge-right d i (furthest d),
        furthest-start-le d (suc i),
      )
    ]
    | inr p ↦ absurd (omega arith)
  ]

  -- The test of the code for the end of both files, at the `i`-th diagonal of round `d`.
  abbrev pub Ended : ℕ → ℕ → Type 0
  Ended d i = (length a ≤ furthest d i) × (length b + 2 * i ≤ furthest d i + d)

  no_end_right :
      (d i : ℕ)
      → i ≤ suc d
      → length a < furthest (suc d) i
      → Ended (suc d) i
      → ((j : ℕ) → j ≤ d → ¬ Ended d j)
      → ⊥
  no_end_right d zero h r e before = omega (arith, furthest_first_diagonal (suc d))
  no_end_right d (suc i) h r e before =
      before i (omega arith) (
        omega (arith, past_right d i (omega arith) r),
        omega (arith, past_right d i (omega arith) r),
      )

  no_end_below :
      (d i : ℕ)
      → i ≤ suc d
      → length b + 2 * i < furthest (suc d) i + suc d
      → Ended (suc d) i
      → (i ≤ d → ¬ Ended d i)
      → ⊥
  no_end_below d i h l e before = elim (dec_lt d i) [
    | yes k ↦
        let p : i ≡ suc d = omega arith in
        omega (arith, furthest_last_diagonal (suc d), ap (furthest (suc d)) p)
    | no k ↦ before (omega arith) (
      omega (arith, past_below d i (omega arith) l),
      omega (arith, past_below d i (omega arith) l),
    )
  ]

  -- The first round that passes the test does so at the end of both files, and not beyond it.
  pub first_end :
      (d i : ℕ)
      → i ≤ d
      → Ended d i
      → ((e j : ℕ) → d ≡ suc e → j ≤ e → ¬ Ended e j)
      → (furthest d i ≡ length a) × (length a + d ≡ length b + 2 * i)
  first_end zero i h e before =
      (omega (arith, furthest_first_fits i), omega (arith, furthest_first_fits i))
  first_end (suc d) i h e before = elim (dec_lt (length a) (furthest (suc d) i)) [
    | yes r ↦ absurd (no_end_right d i h r e (λ j. before d j refl))
    | no r ↦ elim (dec_lt (length b + 2 * i) (furthest (suc d) i + suc d)) [
      | yes l ↦ absurd (no_end_below d i h l e (before d i refl))
      | no l ↦ (omega arith, omega arith)
    ]
  ]

  -- A round that the loop makes passes the test.
  pub last_round_ends : Ended (length a + length b) (length a)
  last_round_ends = omega (arith, furthest-ge (length a + length b) (length a))

  -- `x` before the snake, in every round.
  abbrev pub first_x : ℕ → ℕ → ℕ
  first_x zero i = 0
  first_x (suc d) i = start d i (furthest d)

  -- What `v` holds before a round.
  abbrev pub row : ℕ → ℕ → ℕ
  row zero i = 0
  row (suc d) i = furthest d i

  pub first_x-ge : (d i : ℕ) → i ≤ d → i ≤ first_x d i
  unfolding start
  first_x-ge zero i h = omega arith
  first_x-ge (suc d) zero h = omega arith
  first_x-ge (suc d) (suc i) h = elim (start-cases d i (furthest d) (omega arith)) [
    | inl (k, e) ↦ omega (arith, furthest-ge d (suc i) k)
    | inr e ↦ omega (arith, furthest-ge d i (omega arith))
  ]

  pub furthest_lem :
      (d i : ℕ)
      → i ≤ d
      → furthest d i
        ≡ first_x d i + snake a b (length a - first_x d i) (first_x d i) (first_x d i + d - 2 * i)
  unfolding furthest
  furthest_lem zero zero h = let e : length a - 0 ≡ length a = omega arith in rw e (omega arith)
  furthest_lem zero (suc i) h = absurd (omega arith)
  furthest_lem (suc d) i h = refl
