-- ===== src/Myers/Shortest.antt =====
-- `Diff` makes as few edits as any alignment of the two files.
use test_perf.Prelude.{
  ℕ, zero, suc, ◌+◌, ◌-◌, ◌*◌, ◌≤◌, ◌<◌, ◌≡◌, refl, true, false, Bool-cases, some, List, [], ◌∷◌,
  map, length, get_elem?, drop, drop_head, dec_lt, eq_iff, arith, get_elem?-lt, inl, inr,
}
use test_perf.Myers.{FileLine, FileDiff, BacktrackEl, same_at, snake, file_diff, diff}
use test_perf.Myers.Furthest.{
  furthest, first_x, furthest_lem, first_x-ge, same_at-lt, Ended, start-ge-right, start-ge-down,
  furthest-start-le,
}
use test_perf.Myers.Walk.{Walk, done, keep, delete, insert}
use test_perf.Myers.Script.{edits, Walk-Covers, diff-Walk, diff_empty}

-- `Alignment e a b`: the two files side by side, equal texts kept, with `e` lines that stand alone.
pub data Alignment : ℕ → List FileLine → List FileLine → Type 0 where
  nil : Alignment 0 [] []
  both :
      {e : ℕ} {a b : List FileLine} (l r : FileLine)
      → l.text ≡ r.text
      → Alignment e a b
      → Alignment e (l ∷ a) (r ∷ b)
  left :
      {e : ℕ} {a b : List FileLine} (l : FileLine) → Alignment e a b → Alignment (suc e) (l ∷ a) b
  right :
      {e : ℕ} {a b : List FileLine} (r : FileLine) → Alignment e a b → Alignment (suc e) a (r ∷ b)

module _ (a b : List FileLine) where
  -- The run of equal lines is as long as it can be.
  snake_stops :
      (f x y : ℕ)
      → length a ≤ x + f
      → same_at a b (x + snake a b f x y) (y + snake a b f x y) ≡ false
  unfolding snake
  snake_stops zero x y h = past (x + 0) (y + 0) h
    where
      past : (x' y' : ℕ) → length a ≤ x' → same_at a b x' y' ≡ false
      past x' y' l = elim (Bool-cases (same_at a b x' y')) [
        | inl e ↦ absurd (omega (arith, (same_at-lt a b x' y' e).0))
        | inr e ↦ e
      ]
  snake_stops (suc f) x y h = elim (Bool-cases (same_at a b x y)) [
    | inl e ↦
        let t = snake a b f (x + 1) (y + 1) in
        let ex : x + suc t ≡ x + 1 + t = omega arith in
        let ey : y + suc t ≡ y + 1 + t = omega arith in
        rw (e, snake) (rw (ex, ey) (snake_stops f (x + 1) (y + 1) (omega arith)))
    | inr e ↦
        let ex : x + 0 ≡ x = omega arith in
        let ey : y + 0 ≡ y = omega arith in rw (e, snake) (rw (ex, ey) e)
  ]

  furthest_stops :
      (d i : ℕ) → i ≤ d → same_at a b (furthest a b d i) (furthest a b d i + d - 2 * i) ≡ false
  furthest_stops d i h =
      let x0 = first_x a b d i in
      let y0 = x0 + d - 2 * i in
      let t = snake a b (length a - x0) x0 y0 in
      let ex = furthest_lem a b d i h in
      let ey : furthest a b d i + d - 2 * i ≡ y0 + t = omega (arith, first_x-ge a b d i h) in
      rw (ey, ex) (snake_stops (length a - x0) x0 y0 (omega arith))

  -- No walk with `e` edits gets further than `furthest`.
  record Within (e x y : ℕ) : Type 0 where
    at : ℕ
    in_round : at ≤ e
    diagonal : x + e ≡ y + 2 * at
    bound : x ≤ furthest a b e at

  Walk-Within : {e x y : ℕ} {els : List BacktrackEl} → Walk a b e x y els → Within e x y
  Walk-Within done = record { at = 0; in_round = omega arith; diagonal = refl; bound = omega arith }
  Walk-Within (keep {e} {x} {y} h w) =
      let i = Walk-Within w in
      record {
        at = i.at;
        in_round = i.in_round;
        diagonal = omega (arith, i.diagonal);
        bound = elim (dec_lt x (furthest a b e i.at)) [
          | yes l ↦ l
          | no l ↦
              let ex : furthest a b e i.at ≡ x = omega (arith, i.bound) in
              let ey : x + e - 2 * i.at ≡ y = omega (arith, i.diagonal) in
              absurd (clash (rw ey at (rw ex at (furthest_stops e i.at i.in_round))))
        ];
      }
    where
      clash : same_at a b x y ≡ false → ⊥
      clash f = cc
  Walk-Within (delete {e} {x} {y} h w) =
      let i = Walk-Within w in
      record {
        at = suc i.at;
        in_round = omega (arith, i.in_round);
        diagonal = omega (arith, i.diagonal);
        bound = omega (
          arith,
          i.bound,
          start-ge-right e i.at (furthest a b e),
          furthest-start-le a b e (suc i.at),
        );
      }
  Walk-Within (insert {e} {x} {y} h w) =
      let i = Walk-Within w in
      record {
        at = i.at;
        in_round = omega (arith, i.in_round);
        diagonal = omega (arith, i.diagonal);
        bound = omega (
          arith,
          i.bound,
          start-ge-down e i.at (furthest a b e) i.in_round,
          furthest-start-le a b e i.at,
        );
      }

  same_at_of :
      (x y : ℕ) (l r : FileLine)
      → get_elem? a x ≡ some l
      → get_elem? b y ≡ some r
      → l.text ≡ r.text
      → same_at a b x y ≡ true
  unfolding same_at
  same_at_of x y l r p q t = rw (p, same_at, q) ((eq_iff l.text r.text).1 t)

  -- An alignment of what is left of the two files takes a walk to their end.
  Walk-on :
      (k x y : ℕ) (els : List BacktrackEl) {e : ℕ} {a' b' : List FileLine}
      → Alignment e a' b'
      → drop x a ≡ a'
      → drop y b ≡ b'
      → x + length a' ≡ length a
      → y + length b' ≡ length b
      → Walk a b k x y els
      → (c : ℕ) × (els' : List BacktrackEl) × (c ≡ e + k) × Walk a b c (length a) (length b) els'
  Walk-on k x y els nil ea eb na nb w =
      let ex : length a ≡ x = omega arith in
      let ey : length b ≡ y = omega arith in (k, els, omega arith, rw (ex, ey) w)
  Walk-on k x y els (both {e} l r t al) ea eb na nb w =
      let (pa, qa) = drop_head a x l _ ea in
      let (pb, qb) = drop_head b y r _ eb in
      Walk-on k (suc x) (suc y) _ al qa qb (omega arith) (omega arith)
        (keep (same_at_of x y l r pa pb t) w)
  Walk-on k x y els (left {e} l al) ea eb na nb w =
      let (pa, qa) = drop_head a x l _ ea in
      let (c, els', ec, w') =
        Walk-on (suc k) (suc x) y _ al qa eb (omega arith) nb (delete (get_elem?-lt a x pa) w) in
      (c, els', omega arith, w')
  Walk-on k x y els (right {e} r al) ea eb na nb w =
      let (pb, qb) = drop_head b y r _ eb in
      let (c, els', ec, w') =
        Walk-on (suc k) x (suc y) _ al ea qb na (omega arith) (insert (get_elem?-lt b y pb) w) in
      (c, els', omega arith, w')

  no_fewer :
      (d e : ℕ) {els : List BacktrackEl}
      → ((e' j : ℕ) → e' < d → j ≤ e' → ¬ Ended a b e' j)
      → Walk a b e (length a) (length b) els
      → d ≤ e
  no_fewer d e first w = elim (dec_lt e d) [
    | yes l ↦
        let i = Walk-Within w in
        absurd (first e i.at l i.in_round (i.bound, omega (arith, i.bound, i.diagonal)))
    | no l ↦ omega arith
  ]

  edits-diff :
      (e : ℕ)
      → 0 < length a + length b
      → Alignment e a b
      → (ds : List FileDiff) → diff a b ≡ some ds
      → edits ds ≤ e
  edits-diff e h al ds run =
      let (t, els, f, ran, walk) = diff-Walk a b h in
      let (c, els', ec, other) = Walk-on 0 0 0 [] al refl refl (omega arith) (omega arith) done in
      let count = (Walk-Covers a b walk).count in
      let same : ds ≡ map (file_diff a b) els = cc (ran) in
      rw same (omega (arith, count, no_fewer (length f.before) c f.first other))

-- No alignment of the two files leaves fewer lines alone than `Diff` has insertions and deletions.
pub diff_shortest :
    (a b : List FileLine) (ds : List FileDiff) (e : ℕ)
    → diff a b ≡ some ds
    → Alignment e a b
    → edits ds ≤ e
diff_shortest [] [] ds e run al = cc diff_empty
diff_shortest (l ∷ a) b ds e run al = edits-diff (l ∷ a) b e (omega arith) al ds run
diff_shortest [] (r ∷ b) ds e run al = edits-diff [] (r ∷ b) e (omega arith) al ds run
