-- ===== src/Myers/Backtrack.antt =====
-- `Backtrack` reads a walk out of a finished trace.
use mathlib.Core.List.{append-nil}
use test_perf.Prelude.{
  ℕ, zero, suc, ◌+◌, ◌-◌, ◌*◌, ◌≤◌, ◌<◌, ◌≡◌, ◌∙◌, inl, inr, refl, sym, ap, Bool, true, false, ◌&&◌,
  ltb, leb, ◌==◌, if◌then◌else◌, Bool-cases, some, List, [], ◌∷◌, ◌++◌, length, get_elem?, arith,
}
use test_perf.Myers.{
  FileLine, BacktrackEl, same_at, snake, goes_down, slide, backtrack_from, backtrack, sub?,
}
use test_perf.Myers.Furthest.{furthest, first_x, first_x-ge, furthest_lem, furthest-ge, first_end}
use test_perf.Myers.Trace.{Before, Rows, Finished, Chosen, goes_down-cases}
use test_perf.Myers.Walk.{Walk, step, done, keep, delete, insert}

module _ (a b : List FileLine) where
  -- The rounds of the run are over equal lines.
  snake-same : (f x y s : ℕ) → s < snake a b f x y → same_at a b (x + s) (y + s) ≡ true
  unfolding snake
  snake-same zero x y s h = absurd (omega arith)
  snake-same (suc f) x y s h = elim (Bool-cases (same_at a b x y)) [
    | inl e ↦ later e (λ r l. snake-same f (x + 1) (y + 1) r l) s (rw (e, snake) at h)
    | inr e ↦ absurd (none (rw (e, snake) at h))
  ]
    where
      none : s < 0 → ⊥
      none l = omega arith

      later :
          same_at a b x y ≡ true
          → ((r : ℕ) → r < snake a b f (x + 1) (y + 1) → same_at a b (x + 1 + r) (y + 1 + r) ≡ true)
          → (r : ℕ) → r < suc (snake a b f (x + 1) (y + 1))
          → same_at a b (x + r) (y + r) ≡ true
      later e ih zero l =
          let ex : x + 0 ≡ x = omega arith in let ey : y + 0 ≡ y = omega arith in rw (ex, ey) e
      later e ih (suc r) l =
          let ex : x + suc r ≡ x + 1 + r = omega arith in
          let ey : y + suc r ≡ y + 1 + r = omega arith in rw (ex, ey) (ih r (omega arith))

  -- `slide` goes back over a run of `t` equal lines, and stops where the run starts.
  slide_lem :
      (max px pk x0 y0 t : ℕ)
      → px ≤ x0
      → px + max ≤ y0 + pk
      → (ltb px x0 && ltb (px + max) (y0 + pk)) ≡ false
      → ((s : ℕ) → s < t → same_at a b (x0 + s) (y0 + s) ≡ true)
      → (els : List BacktrackEl) × (slide max px pk (x0 + t) (y0 + t) ≡ some (els, x0, y0))
        × ((e : ℕ) (rest : List BacktrackEl)
            → Walk a b e x0 y0 rest
            → Walk a b e (x0 + t) (y0 + t) (els ++ rest))
  unfolding slide
  slide_lem max px pk x0 y0 zero p q stop same =
      let ex : x0 + 0 ≡ x0 = omega arith in
      let ey : y0 + 0 ≡ y0 = omega arith in rw (ex, ey) ([], stay x0 stop, λ e rest w. w)
    where
      stay :
          (x : ℕ)
          → (ltb px x && ltb (px + max) (y0 + pk)) ≡ false
          → slide max px pk x y0 ≡ some ([], x, y0)
      stay zero s = refl
      stay (suc x) s = rw (s, slide) refl
  slide_lem max px pk x0 y0 (suc t) p q stop same =
      let (els, run, walk) = slide_lem max px pk x0 y0 t p q stop (λ s l. same s (omega arith)) in
      let ex : x0 + suc t ≡ suc (x0 + t) = omega arith in
      let ey : y0 + suc t ≡ suc (y0 + t) = omega arith in
      let on : (ltb px (suc (x0 + t)) && ltb (px + max) (suc (y0 + t) + pk)) ≡ true =
        ground arith in
      let back : sub? (suc (y0 + t)) 1 ≡ some (y0 + t) = ground arith in
      rw (ex, ey)
        (
          step (x0 + t) (y0 + t) (suc (x0 + t)) (suc (y0 + t)) ∷ els,
          rw (on, slide, back, run) refl,
          λ e rest w. keep (same t (omega arith)) (walk e rest w),
        )

  slide_at :
      (max px pk x0 y0 t x y : ℕ)
      → x ≡ x0 + t
      → y ≡ y0 + t
      → px ≤ x0
      → px + max ≤ y0 + pk
      → (ltb px x0 && ltb (px + max) (y0 + pk)) ≡ false
      → ((s : ℕ) → s < t → same_at a b (x0 + s) (y0 + s) ≡ true)
      → (els : List BacktrackEl) × (slide max px pk x y ≡ some (els, x0, y0))
        × ((e : ℕ) (rest : List BacktrackEl) → Walk a b e x0 y0 rest → Walk a b e x y (els ++ rest))
  slide_at max px pk x0 y0 t x y ex ey p q stop same =
      rw (ex, ey) (slide_lem max px pk x0 y0 t p q stop same)

  -- A point of `furthest`, as the end of a run of `t` equal lines.
  abbrev Run : (d i x y : ℕ) → Type 0
  Run d i x y =
      (t y0 : ℕ) × (x ≡ first_x a b d i + t)
      × (y ≡ y0 + t)
      × (first_x a b d i + d ≡ y0 + 2 * i)
      × ((s : ℕ) → s < t → same_at a b (first_x a b d i + s) (y0 + s) ≡ true)

  furthest-Run : (d i x y : ℕ) → i ≤ d → x ≡ furthest a b d i → x + d ≡ y + 2 * i → Run d i x y
  furthest-Run d i x y k ex ey =
      let x0 = first_x a b d i in
      let y0 = x0 + d - 2 * i in
      let t = snake a b (length a - x0) x0 y0 in
      (
        t,
        y0,
        ex ∙ furthest_lem a b d i k,
        omega (arith, furthest_lem a b d i k, first_x-ge a b d i k),
        omega (arith, first_x-ge a b d i k),
        λ s l. snake-same (length a - x0) x0 y0 s l,
      )

  BackAt : (max d x y : ℕ) (v : List ℕ) (before : List (List ℕ)) → Type 0
  BackAt max d x y v before =
      (els : List BacktrackEl) × (backtrack_from max (v ∷ before) x y ≡ some els)
      × Walk a b d x y els

  diagonal_of :
      (max c d i x y : ℕ)
      → c + d ≡ max
      → i ≤ d
      → x + d ≡ y + 2 * i
      → sub? (x + max) y ≡ some (c + 2 * i)
  diagonal_of max c d i x y cd k e =
      let t : leb y (x + max) ≡ true = ground arith in
      let p : x + max - y ≡ c + 2 * i = omega arith in rw (t, p) refl

  -- The first round: the run starts at `(0, 0)`.
  back_first :
      (max x y : ℕ) (v : List ℕ)
      → Before a b max max 0 v
      → x ≡ furthest a b 0 0
      → x + 0 ≡ y + 2 * 0
      → BackAt max 0 x y v []
  unfolding BackAt backtrack_from goes_down
  back_first max x y v h ex ey =
      let (t, y0, px, py, pz, same) = furthest-Run 0 0 x y (omega arith) ex ey in
      let ez : y0 ≡ 0 = omega arith in
      let (els, run, walk) =
        slide_at max 0 (max + 2 * 0 + 1) 0 0 t x y px (omega arith) (omega arith) (omega arith) refl
          (rw ez at same) in
      let kk = diagonal_of max max 0 0 x y (omega arith) (omega arith) ey in
      let first : (max + 2 * 0 + 0 == max) ≡ true = ground arith in
      let at : max + 2 * 0 + 1 ≡ max + 1 + 2 * 0 = omega arith in
      let read : get_elem? v (max + 2 * 0 + 1) ≡ some 0 = rw at (h.diagonal 0 (omega arith)) in
      (els, rw (kk, first, read, run) refl, rw (append-nil els) at (walk 0 [] done))

  abbrev next_kk : Bool → ℕ → ℕ
  next_kk down kk = if down then kk + 1 else kk - 1

  -- A later round: back over the run, then one step to the row of the round before.
  back_later :
      (max px py x0 y0 t x y kk : ℕ) (down : Bool) (v w : List ℕ) (before : List (List ℕ))
      (rest : List BacktrackEl)
      → x ≡ x0 + t
      → y ≡ y0 + t
      → sub? (x + max) y ≡ some kk
      → goes_down max (suc (length before)) kk v ≡ some down
      → get_elem? v (next_kk down kk) ≡ some px
      → px ≤ x0
      → px + max ≤ y0 + next_kk down kk
      → (ltb px x0 && ltb (px + max) (y0 + next_kk down kk)) ≡ false
      → ((s : ℕ) → s < t → same_at a b (x0 + s) (y0 + s) ≡ true)
      → sub? (px + max) (next_kk down kk) ≡ some py
      → backtrack_from max (w ∷ before) px py ≡ some rest
      → Walk a b (suc (length before)) x0 y0 (step px py x0 y0 ∷ rest)
      → BackAt max (suc (length before)) x y v (w ∷ before)
  unfolding BackAt backtrack_from
  back_later max px py x0 y0 t x y kk down v w before rest ex ey ekk choice read p q stop same epy
        prev walk =
      let (els, run, back) = slide_at max px (next_kk down kk) x0 y0 t x y ex ey p q stop same in
      let more : ltb 0 (suc (length before)) ≡ true = ground arith in
      (
        els ++ step px py x0 y0 ∷ rest,
        rw (ekk, choice, read, run, more, epy, prev) refl,
        back (suc (length before)) (step px py x0 y0 ∷ rest) walk,
      )

  -- What is known of the round before, from which the walk goes on.
  Continues : (max d : ℕ) (w : List ℕ) (before : List (List ℕ)) → Type 0
  Continues max d w before =
      (i x y : ℕ)
      → i ≤ d
      → x ≡ furthest a b d i
      → x + d ≡ y + 2 * i
      → x ≤ length a
      → y ≤ length b
      → BackAt max d x y w before

  module _ (max c x y t y0 : ℕ) (v w : List ℕ) (before : List (List ℕ))
      (cd : c + suc (length before) ≡ max) (ih : Continues max (length before) w before)
      (xn : x ≤ length a) (ym : y ≤ length b) (ey : y ≡ y0 + t) where
    back_down :
        (i px : ℕ)
        → i ≤ length before
        → px ≡ furthest a b (length before) i
        → goes_down max (suc (length before)) (c + 2 * i) v ≡ some true
        → get_elem? v (c + 2 * i + 1) ≡ some px
        → x ≡ px + t
        → px + suc (length before) ≡ y0 + 2 * i
        → ((s : ℕ) → s < t → same_at a b (px + s) (y0 + s) ≡ true)
        → BackAt max (suc (length before)) x y v (w ∷ before)
    unfolding Continues BackAt
    back_down i px k epx choice read ex ey0 same =
        let ge = furthest-ge a b (length before) i k in
        let py = px + length before - 2 * i in
        let e : y0 ≡ suc py = omega arith in
        let (rest, prev, walk) = ih i px py k epx (omega arith) (omega arith) (omega arith) in
        let fits : leb (c + 2 * i + 1) (px + max) ≡ true = ground arith in
        let p : px + max - (c + 2 * i + 1) ≡ py = omega arith in
        back_later max px py px (suc py) t x y (c + 2 * i) true v w before rest ex (omega arith)
          (diagonal_of max c (suc (length before)) i x y cd (omega arith) (omega arith)) choice read
          (omega arith) (omega arith) (ground arith) (rw e at same) (rw (fits, p) refl) prev
          (insert (omega arith) walk)

    back_right :
        (j px : ℕ)
        → j ≤ length before
        → px ≡ furthest a b (length before) j
        → goes_down max (suc (length before)) (c + 2 * suc j) v ≡ some false
        → get_elem? v (c + 2 * suc j - 1) ≡ some px
        → x ≡ px + 1 + t
        → px + 1 + suc (length before) ≡ y0 + 2 * suc j
        → ((s : ℕ) → s < t → same_at a b (px + 1 + s) (y0 + s) ≡ true)
        → BackAt max (suc (length before)) x y v (w ∷ before)
    unfolding Continues BackAt
    back_right j px k epx choice read ex ey0 same =
        let ge = furthest-ge a b (length before) j k in
        let e : px + 1 ≡ suc px = omega arith in
        let (rest, prev, walk) = ih j px y0 k epx (omega arith) (omega arith) (omega arith) in
        let fits : leb (c + 2 * suc j - 1) (px + max) ≡ true = ground arith in
        let p : px + max - (c + 2 * suc j - 1) ≡ y0 = omega arith in
        back_later max px y0 (suc px) y0 t x y (c + 2 * suc j) false v w before rest (omega arith)
          ey (diagonal_of max c (suc (length before)) (suc j) x y cd (omega arith) (omega arith))
          choice read (omega arith) (omega arith) (ground arith) (rw e at same) (rw (fits, p) refl)
          prev (delete (omega arith) walk)

  back_round :
      (max c i x y : ℕ) (v w : List ℕ) (before : List (List ℕ))
      → c + suc (length before) ≡ max
      → Before a b max c (suc (length before)) v
      → Continues max (length before) w before
      → i ≤ suc (length before)
      → x ≡ furthest a b (suc (length before)) i
      → x + suc (length before) ≡ y + 2 * i
      → x ≤ length a
      → y ≤ length b
      → BackAt max (suc (length before)) x y v (w ∷ before)
  back_round max c i x y v w before cd h ih k ex ey xn ym =
      go (furthest-Run (suc (length before)) i x y k ex ey)
        (goes_down-cases a b max c (suc (length before)) i v cd h k)
    where
      go :
          Run (suc (length before)) i x y
          → Chosen a b max c (suc (length before)) i v
          → BackAt max (suc (length before)) x y v (w ∷ before)
      go (t, y0, px, py, pz, same) (inl (choice, l, read, e)) =
          back_down max c x y t y0 v w before cd ih xn ym py i _ (omega arith) refl choice read
            (px ∙ ap (λ z. z + t) e) (rw e at pz) (rw e at same)
      go (t, y0, px, py, pz, same) (inr (j, ij, choice, read, e)) =
          back_right max c x y t y0 v w before cd ih xn ym py j _ (omega arith) refl
            (rw ij at choice) (rw ij at read) (px ∙ ap (λ z. z + t) e) (rw ij at (rw e at pz))
            (rw e at same)

  back_rounds :
      (max : ℕ) (before : List (List ℕ)) (v : List ℕ)
      → Rows a b max (v ∷ before)
      → Continues max (length before) v before
  unfolding Rows Continues
  back_rounds max [] v ((c, cd, h), rows) zero x y k ex ey xn ym =
      let e : c ≡ max = omega arith in back_first max x y v (rw e at h) ex ey
  back_rounds max [] v rows (suc i) x y k ex ey xn ym = absurd (omega arith)
  back_rounds max (w ∷ before) v ((c, cd, h), rows) i x y k ex ey xn ym =
      back_round max c i x y v w before cd h (back_rounds max before w rows) k ex ey xn ym

  -- From a finished trace `Backtrack` reads a walk with as many edits as the search made rounds
  -- after the first.
  pub backtrack_lem :
      (t : List (List ℕ)) (f : Finished a b (length a + length b) t)
      → (els : List BacktrackEl) × (backtrack a b t ≡ some els)
        × Walk a b (length f.before) (length a) (length b) els
  unfolding backtrack Continues BackAt
  backtrack_lem t f =
      let (ex, ey) =
        first_end a b (length f.before) f.at f.in_round f.ended
          (λ e j p k. f.first e j (omega arith) k) in
      let (els, run, walk) =
        back_rounds (length a + length b) f.before f.last f.rows f.at (length a) (length b)
          f.in_round (sym ex) (omega arith) (omega arith) (omega arith) in
      (els, rw f.reversed run, walk)
