-- ===== src/Myers/Script.antt =====
-- The result of `Diff` as an edit script, read from the end of the files.
use mathlib.Core.List.{reverse-append, reverse-reverse}
use test_perf.Prelude.{
  ℕ, suc, ◌+◌, ◌≤◌, ◌<◌, ◌≡◌, ◌≢◌, ◌↔◌, ◌∙◌, refl, sym, ap, true, false, Option, none, some, List,
  [], ◌∷◌, map, reverse, length, get_elem?, take, take_all, take-suc, get_elem?_of_lt, ◌==◌, str_eq,
  eq_iff, arith,
}
use test_perf.Myers.{
  FileLine, FileDiff, ins, del, eql, BacktrackEl, same_at, line_at, file_diff, diff,
  get_shortest_path, rounds, diagonals, extend, start_x, goes_down,
}
use test_perf.Myers.Furthest.{same_at-lt}
use test_perf.Myers.Trace.{Finished, get_shortest_path_lem}
use test_perf.Myers.Walk.{Walk, step, done, keep, delete, insert}
use test_perf.Myers.Backtrack.{backtrack_lem}

-- The lines of one file that a script holds.
abbrev pub side : (FileDiff → Option FileLine) → List FileDiff → List FileLine
side f [] = []
side f (d ∷ ds) = elim (f d) [ none ↦ side f ds | some l ↦ l ∷ side f ds ]

-- How many entries are insertions or deletions.
abbrev pub edits : List FileDiff → ℕ
edits [] = 0
edits (d ∷ ds) = elim d.diff_type [ eql ↦ edits ds | _ ↦ suc (edits ds) ]

-- An entry that keeps a line has equal texts in both files.
abbrev pub KeepsText : List FileDiff → Type 0
KeepsText [] = Unit
KeepsText (d ∷ ds) =
    ((l r : FileLine) → d.diff_type ≡ eql → d.line_a ≡ some l → d.line_b ≡ some r → l.text ≡ r.text)
    × KeepsText ds

-- An insertion has a line of the new file only, a deletion one of the old file only, and an entry that
-- keeps a line has both.
abbrev pub IsLabelled : FileDiff → Type 0
IsLabelled d = elim d.diff_type [
  | ins ↦ (d.line_a ≡ none) × (d.line_b ≢ none)
  | del ↦ (d.line_a ≢ none) × (d.line_b ≡ none)
  | eql ↦ (d.line_a ≢ none) × (d.line_b ≢ none)
]

abbrev pub Labels : List FileDiff → Type 0
Labels [] = Unit
Labels (d ∷ ds) = IsLabelled d × Labels ds

-- The script turns `a` into `b`: its lines of the old file are `a`, its lines of the new file are `b`,
-- the insertions are those of the new file only and the deletions those of the old file only, and what it
-- keeps is the same text in both.
pub record IsScript (a b : List FileLine) (ds : List FileDiff) : Type 0 where
  pub old : reverse (side (λ d. d.line_a) ds) ≡ a
  pub new : reverse (side (λ d. d.line_b) ds) ≡ b
  pub labels : Labels ds
  pub kept : KeepsText ds

module _ (a b : List FileLine) where
  -- What the script of a walk from `(x, y)` holds.
  pub record Covers (x y e : ℕ) (ds : List FileDiff) : Type 0 where
    pub in_a : x ≤ length a
    pub in_b : y ≤ length b
    pub old : side (λ d. d.line_a) ds ≡ reverse (take x a)
    pub new : side (λ d. d.line_b) ds ≡ reverse (take y b)
    pub labels : Labels ds
    pub kept : KeepsText ds
    pub count : edits ds ≡ e

  pub line_at_lem : (l : List FileLine) (i : ℕ) → i < length l → get_elem? l i ≡ some (line_at l i)
  unfolding line_at
  line_at_lem l i h = let (v, e) = get_elem?_of_lt l i h in rw (e, line_at) refl

  reverse-take-suc :
      (l : List FileLine) (i : ℕ)
      → i < length l
      → reverse (take (suc i) l) ≡ line_at l i ∷ reverse (take i l)
  reverse-take-suc l i h =
      rw (take-suc l i (line_at l i) (line_at_lem l i h)) (reverse-append (take i l) _)

  same_at-text : (x y : ℕ) → same_at a b x y ≡ true → (line_at a x).text ≡ (line_at b y).text
  unfolding same_at
  same_at-text x y h =
      let (p, q) = same_at-lt a b x y h in
      let equal : str_eq (line_at a x).text (line_at b y).text ≡ true =
        rw (line_at_lem b y q) at (rw (line_at_lem a x p, same_at) at h) in
      (eq_iff _ _).0 equal

  pub file_diff-keep :
      (x y : ℕ)
      → file_diff a b (step x y (suc x) (suc y))
        ≡ record { line_a = some (line_at a x); line_b = some (line_at b y); diff_type = eql }
  unfolding file_diff
  file_diff-keep x y =
      let p : (suc x == x) ≡ false = ground arith in
      let q : (suc y == y) ≡ false = ground arith in rw (p, q) refl

  pub file_diff-delete :
      (x y : ℕ)
      → file_diff a b (step x y (suc x) y)
        ≡ record { line_a = some (line_at a x); line_b = none; diff_type = del }
  unfolding file_diff
  file_diff-delete x y =
      let p : (suc x == x) ≡ false = ground arith in
      let q : (y == y) ≡ true = ground arith in rw (p, q) refl

  pub file_diff-insert :
      (x y : ℕ)
      → file_diff a b (step x y x (suc y))
        ≡ record { line_a = none; line_b = some (line_at b y); diff_type = ins }
  unfolding file_diff
  file_diff-insert x y = let p : (x == x) ≡ true = ground arith in rw p refl

  pub Walk-Covers :
      {e x y : ℕ} {els : List BacktrackEl}
      → Walk a b e x y els
      → Covers x y e (map (file_diff a b) els)
  Walk-Covers done = record {
    in_a = omega arith;
    in_b = omega arith;
    old = refl;
    new = refl;
    labels = tt;
    kept = tt;
    count = refl;
  }
  Walk-Covers (keep {e} {x} {y} h w) =
      let c = Walk-Covers w in
      let (p, q) = same_at-lt a b x y h in
      rw (file_diff-keep x y) (record {
        in_a = p;
        in_b = q;
        old = ap (◌∷◌ (line_at a x)) c.old ∙ sym (reverse-take-suc a x p);
        new = ap (◌∷◌ (line_at b y)) c.new ∙ sym (reverse-take-suc b y q);
        labels = ((λ q. cc q, λ q. cc q), c.labels);
        kept = (λ l r _ el er. cc (same_at-text x y h), c.kept);
        count = c.count;
      })
  Walk-Covers (delete {e} {x} {y} h w) =
      let c = Walk-Covers w in
      rw (file_diff-delete x y) (record {
        in_a = h;
        in_b = c.in_b;
        old = ap (◌∷◌ (line_at a x)) c.old ∙ sym (reverse-take-suc a x h);
        new = c.new;
        labels = ((λ q. cc q, refl), c.labels);
        kept = (λ l r t _ _. cc, c.kept);
        count = ap suc c.count;
      })
  Walk-Covers (insert {e} {x} {y} h w) =
      let c = Walk-Covers w in
      rw (file_diff-insert x y) (record {
        in_a = c.in_a;
        in_b = h;
        old = c.old;
        new = ap (◌∷◌ (line_at b y)) c.new ∙ sym (reverse-take-suc b y h);
        labels = ((refl, λ q. cc q), c.labels);
        kept = (λ l r t _ _. cc, c.kept);
        count = ap suc c.count;
      })

  reverse-side :
      (f : FileDiff → Option FileLine) (l : List FileLine) (ds : List FileDiff)
      → side f ds ≡ reverse (take (length l) l)
      → reverse (side f ds) ≡ l
  reverse-side f l ds h = ap reverse h ∙ reverse-reverse _ ∙ take_all l

  pub diff-Walk :
      0 < length a + length b
      → (t : List (List ℕ)) × (els : List BacktrackEl) × (f : Finished a b (length a + length b) t)
        × (diff a b ≡ some (map (file_diff a b) els))
        × Walk a b (length f.before) (length a) (length b) els
  unfolding diff
  diff-Walk h =
      let (t, search, f) = get_shortest_path_lem a b h in
      let (els, back, walk) = backtrack_lem a b t f in (t, els, f, rw (search, back) refl, walk)

  -- If one of the two files has a line, `Diff` does not panic, and its result is an edit script: an insertion
  -- has a line of the second file only, a deletion one of the first only, and an entry that keeps a line has
  -- both, with equal texts; the lines of the first file in the script are that file, and those of the second
  -- the second.
  pub diff-IsScript :
      0 < length a + length b → (ds : List FileDiff) × (diff a b ≡ some ds) × IsScript a b ds
  diff-IsScript h =
      let (t, els, f, run, walk) = diff-Walk h in
      let c = Walk-Covers walk in
      (
        map (file_diff a b) els,
        run,
        record {
          old = reverse-side (λ d. d.line_a) a (map (file_diff a b) els) c.old;
          new = reverse-side (λ d. d.line_b) b (map (file_diff a b) els) c.new;
          labels = c.labels;
          kept = c.kept;
        },
      )

-- Two empty files make `GetShortestPath` read `v[1]` of an array with one entry.
pub diff_empty : diff [] [] ≡ none
unfolding diff get_shortest_path rounds diagonals extend start_x goes_down
diff_empty = refl

-- `Diff` panics exactly on two empty files.
pub diff-eq-none_iff : (a b : List FileLine) → (diff a b ≡ none) ↔ ((a ≡ []) × (b ≡ []))
diff-eq-none_iff [] [] = (λ _. (refl, refl), λ _. diff_empty)
diff-eq-none_iff (l ∷ a) b =
    (λ h. let (ds, run, s) = diff-IsScript (l ∷ a) b (omega arith) in cc (run, h), λ h. cc h.0)
diff-eq-none_iff [] (r ∷ b) =
    (λ h. let (ds, run, s) = diff-IsScript [] (r ∷ b) (omega arith) in cc (run, h), λ h. cc h.1)
