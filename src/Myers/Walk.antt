-- ===== src/Myers/Walk.antt =====
-- What the elements of `Backtrack` mean: a walk through the grid of two files, from its end.
use test_perf.Prelude.{ℕ, suc, ◌<◌, ◌≡◌, true, List, [], ◌∷◌, length}
use test_perf.Myers.{FileLine, BacktrackEl, same_at}

abbrev pub step : ℕ → ℕ → ℕ → ℕ → BacktrackEl
step px py x y = record { prev_x = px; prev_y = py; x = x; y = y }

-- `Walk a b e x y els`: `els` leads from `(x, y)` to `(0, 0)` by equal lines, by `e` deletions of a
-- line of `a` and insertions of a line of `b`, and by nothing else.
pub data Walk (a b : List FileLine) : ℕ → ℕ → ℕ → List BacktrackEl → Type 0 where
  done : Walk a b 0 0 0 []
  keep :
      {e x y : ℕ} {els : List BacktrackEl}
      → same_at a b x y ≡ true
      → Walk a b e x y els
      → Walk a b e (suc x) (suc y) (step x y (suc x) (suc y) ∷ els)
  delete :
      {e x y : ℕ} {els : List BacktrackEl}
      → x < length a
      → Walk a b e x y els
      → Walk a b (suc e) (suc x) y (step x y (suc x) y ∷ els)
  insert :
      {e x y : ℕ} {els : List BacktrackEl}
      → y < length b
      → Walk a b e x y els
      → Walk a b (suc e) x (suc y) (step x y x (suc y) ∷ els)
