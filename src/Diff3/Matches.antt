-- ===== src/Diff3/Matches.antt =====
-- `getMatches` of the result of `Diff`: an increasing map between the lines of two files.
use test_perf.Prelude.{
  ℕ, suc, ◌+◌, ◌≤◌, ◌<◌, ◌≡◌, refl, inl, inr, ◌⊎◌, Bool-cases, none, some, List, map, length, ◌==◌,
  arith,
}
use test_perf.Myers.{FileLine, FileDiff, BacktrackEl, line_at, file_diff, diff}
use test_perf.Myers.Furthest.{same_at-lt}
use test_perf.Myers.Walk.{Walk, done, keep, delete, insert}
use test_perf.Myers.Script.{diff-Walk, file_diff-keep, file_diff-delete, file_diff-insert}
use test_perf.Diff3.{IntMap, put, matches_from, get_matches}

-- The lines are numbered as the scanner delivers them.
pub record IsNumbered (l : List FileLine) : Type 0 where
  pub at : (i : ℕ) → i < length l → (line_at l i).number ≡ i

-- Pairs of lines of two files with `na` and `nb` lines, from `(x, y)` on, in the same order in both.
pub record IsMatching (na nb x y : ℕ) (m : IntMap) : Type 0 where
  pub in_range : (k v : ℕ) → m k ≡ some v → (x ≤ k) × (y ≤ v) × (k < na) × (v < nb)
  pub increasing : (k v j w : ℕ) → m k ≡ some v → m j ≡ some w → k < j → v < w

pub put-cases :
    (m : IntMap) (x y k v : ℕ) → put m x y k ≡ some v → ((k ≡ x) × (v ≡ y)) ⊎ (m k ≡ some v)
put-cases m x y k v h = elim (Bool-cases (x == k)) [
  | inl p ↦ inl (ground arith, ground arith)
  | inr p ↦ inr (ground arith)
]

IsMatching-put :
    (na nb x y : ℕ) (m : IntMap)
    → x < na
    → y < nb
    → IsMatching na nb (suc x) (suc y) m
    → IsMatching na nb x y (put m x y)
IsMatching-put na nb x y m hx hy h = record {
  in_range = λ k v e. elim (put-cases m x y k v e) [
    | inl (p, q) ↦ (omega arith, omega arith, omega arith, omega arith)
    | inr f ↦ let (p, q, r, s) = h.in_range k v f in (omega arith, omega arith, r, s)
  ];
  increasing = λ k v j w e f l. elim (put-cases m x y k v e) [
    | inl (p, q) ↦ elim (put-cases m x y j w f) [
      | inl (r, s) ↦ absurd (omega arith)
      | inr g ↦ omega (arith, h.in_range j w g)
    ]
    | inr d ↦ elim (put-cases m x y j w f) [
      | inl (r, s) ↦ absurd (omega (arith, h.in_range k v d))
      | inr g ↦ h.increasing k v j w d g l
    ]
  ];
}

IsMatching-weaken :
    (na nb x y x' y' : ℕ) (m : IntMap)
    → x' ≤ x
    → y' ≤ y
    → IsMatching na nb x y m
    → IsMatching na nb x' y' m
IsMatching-weaken na nb x y x' y' m px py h = record {
  in_range = λ k v e. let (p, q, r, s) = h.in_range k v e in (omega arith, omega arith, r, s);
  increasing = h.increasing;
}

module _ (a b : List FileLine) (na : IsNumbered a) (nb : IsNumbered b) where
  matches_lem :
      (m : IntMap) {e x y : ℕ} {els : List BacktrackEl}
      → Walk a b e x y els
      → IsMatching (length a) (length b) x y m
      → (m' : IntMap) × (matches_from m (map (file_diff a b) els) ≡ some m')
        × IsMatching (length a) (length b) 0 0 m'
  unfolding matches_from
  matches_lem m done h = (m, refl, h)
  matches_lem m (keep {e} {x} {y} s w) h =
      let (p, q) = same_at-lt a b x y s in
      let (m', run, g) =
        matches_lem (put m x y) w (IsMatching-put (length a) (length b) x y m p q h) in
      (m', rw (file_diff-keep a b x y, na.at x p, nb.at y q) run, g)
  matches_lem m (delete {e} {x} {y} s w) h =
      let (m', run, g) =
        matches_lem m w
          (IsMatching-weaken (length a) (length b) (suc x) y x y m (omega arith) (omega arith) h) in
      (m', rw (file_diff-delete a b x y) run, g)
  matches_lem m (insert {e} {x} {y} s w) h =
      let (m', run, g) =
        matches_lem m w
          (IsMatching-weaken (length a) (length b) x (suc y) x y m (omega arith) (omega arith) h) in
      (m', rw (file_diff-insert a b x y) run, g)

  -- The matches of the script of `Diff` are a matching.
  pub get_matches-diff :
      0 < length a + length b
      → (ds : List FileDiff) × (m : IntMap) × (diff a b ≡ some ds)
        × (get_matches ds ≡ some m)
        × IsMatching (length a) (length b) 0 0 m
  unfolding get_matches
  get_matches-diff h =
      let (t, els, f, run, walk) = diff-Walk a b h in
      let (m, get, good) =
        matches_lem (λ _. none) walk
          (record { in_range = λ k v e. cc; increasing = λ k v j w e. cc }) in
      (map (file_diff a b) els, m, run, get, good)
