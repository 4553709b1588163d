-- ===== src/Myers.antt =====
-- myers_differer.go: Myers' difference of two files, line by line.
--
-- `none` is a run-time panic (an index out of range). The diagonal `k` of the code, an integer from
-- `-max` to `max`, is kept as the index `k + max` that `getIndexV` makes of it (`kk` below); `y` is
-- then `x + max - kk`, and a run in which it went below 0 would be `none`.
pub mod Furthest
pub mod Trace
pub mod Walk
pub mod Backtrack
pub mod Script
pub mod Shortest
use test_perf.Prelude.{
  ℕ, zero, suc, ◌+◌, ◌-◌, ◌*◌, String, Bool, true, false, ◌&&◌, Option, none, some, List, [], ◌∷◌,
  ◌++◌, map, reverse, ltb, leb, ◌==◌, str_eq, if◌then◌else◌, length, get_elem?, set, replicate,
}

-- diff3.go, `fileLine`
pub record FileLine : Type 0 where
  pub number : ℕ
  pub text : String

pub data FileDiffType : Type 0 where
  ins del eql : FileDiffType

-- `none` is a nil pointer
pub record FileDiff : Type 0 where
  pub line_a : Option FileLine
  pub line_b : Option FileLine
  pub diff_type : FileDiffType

pub record BacktrackEl : Type 0 where
  pub prev_x : ℕ
  pub prev_y : ℕ
  pub x : ℕ
  pub y : ℕ

infixl 5 ◌>>=◌
abbrev pub ◌>>=◌ {ℓ κ} : {A : Type ℓ} {B : Type κ} → Option A → (A → Option B) → Option B
none >>= f = none
some a >>= f = f a

abbrev pub sub? : ℕ → ℕ → Option ℕ
sub? a b = if leb b a then some (a - b) else none

abbrev pub set? {ℓ} : {A : Type ℓ} → List A → ℕ → A → Option (List A)
set? v i x = if ltb i (length v) then some (set v i x) else none

module _ (a b : List FileLine) where
  -- `x < n && y < m && md.a[x].text == md.b[y].text`
  unfoldable pub same_at : ℕ → ℕ → Bool
  same_at x y = elim (get_elem? a x) [
    | none ↦ false
    | some l ↦ elim (get_elem? b y) [ none ↦ false | some r ↦ str_eq l.text r.text ]
  ]

  -- How many rounds the loop `for x < n && y < m && … { x++; y++ }` makes. `n - x` bounds them.
  unfoldable pub snake : ℕ → ℕ → ℕ → ℕ
  snake zero x y = 0
  snake (suc f) x y = elim (same_at x y) [ true ↦ suc (snake f (x + 1) (y + 1)) | false ↦ 0 ]

-- `k == -d || (k != d && v[i1] < v[i2])`, where `&&` and `||` read `v` only if they must
unfoldable pub goes_down : ℕ → ℕ → ℕ → List ℕ → Option Bool
goes_down max d kk v =
    if kk + d == max
    then some true
    else if kk == max + d
    then some false
    else do lo ← get_elem? v (kk - 1); hi ← get_elem? v (kk + 1); some (ltb lo hi)

-- `x` before the snake
unfoldable pub start_x : ℕ → ℕ → ℕ → List ℕ → Option ℕ
start_x max d kk v = do
  down ← goes_down max d kk v
  if down then get_elem? v (kk + 1) else do x ← get_elem? v (kk - 1); some (x + 1)

module _ (a b : List FileLine) where
  -- One round of the inner loop: the new `v`, and whether the end of both files is reached.
  unfoldable pub extend : ℕ → ℕ → ℕ → List ℕ → Option (Bool × List ℕ)
  extend max d kk v = do
    x ← start_x max d kk v
    y ← sub? (x + max) kk
    let t = snake a b (length a - x) x y
    v' ← set? v kk (x + t)
    some (leb (length a) (x + t) && leb (length b) (y + t), v')

  -- `for k := -d; k <= d; k = k + 2`, with `j` rounds left
  unfoldable pub diagonals : ℕ → ℕ → ℕ → ℕ → List ℕ → Option (Bool × List ℕ)
  diagonals max d zero kk v = some (false, v)
  diagonals max d (suc j) kk v = do
    (done, v') ← extend max d kk v
    elim done [ true ↦ some (true, v') | false ↦ diagonals max d j (kk + 2) v' ]

  -- `for d := 0; d <= max; d++`, with `r` rounds left. Past the last one the code returns nil.
  unfoldable pub rounds : ℕ → ℕ → ℕ → List ℕ → List (List ℕ) → Option (List (List ℕ))
  rounds max zero d v trace = some []
  rounds max (suc r) d v trace = do
    (done, v') ← diagonals max d (d + 1) (max - d) v
    elim done [
      | true ↦ some (trace ++ v' ∷ [])
      | false ↦ rounds max r (d + 1) v' (trace ++ v' ∷ [])
    ]

  unfoldable pub get_shortest_path : Option (List (List ℕ))
  get_shortest_path =
      let max = length a + length b in rounds max (max + 1) 0 (replicate (2 * max + 1) 0) []

-- `for x > prevX && y > prevY`: the elements sent, and `x` and `y` after the loop. `y > prevY` is
-- `x - k` against `prevX - prevK`, since `prevY` is -1 in the last round.
unfoldable pub slide : ℕ → ℕ → ℕ → ℕ → ℕ → Option (List BacktrackEl × ℕ × ℕ)
slide max prev_x prev_kk zero y = some ([], zero, y)
slide max prev_x prev_kk (suc x) y = elim (ltb prev_x (suc x) && ltb (prev_x + max) (y + prev_kk)) [
  | true ↦ do
    y' ← sub? y 1
    (els, x', y'') ← slide max prev_x prev_kk x y'
    some (record { prev_x = x; prev_y = y'; x = suc x; y = y } ∷ els, x', y'')
  | false ↦ some ([], suc x, y)
]

-- The body of the loop of `Backtrack` over the rounds, last one first: `d` is the number of rounds
-- before `v`. The elements come in the order in which the channel delivers them.
unfoldable pub backtrack_from : ℕ → List (List ℕ) → ℕ → ℕ → Option (List BacktrackEl)
backtrack_from max [] x y = some []
backtrack_from max (v ∷ before) x y = do
  let d = length before
  kk ← sub? (x + max) y
  down ← goes_down max d kk v
  let prev_kk = if down then kk + 1 else kk - 1
  prev_x ← get_elem? v prev_kk
  (els, x', y') ← slide max prev_x prev_kk x y
  elim (ltb 0 d) [
    | true ↦ do
      prev_y ← sub? (prev_x + max) prev_kk
      rest ← backtrack_from max before prev_x prev_y
      some (els ++ record { prev_x = prev_x; prev_y = prev_y; x = x'; y = y' } ∷ rest)
    | false ↦ some els
  ]

-- `lineA` and `lineB`, which stay the zero value past the end of their file
unfoldable pub line_at : List FileLine → ℕ → FileLine
line_at l i = elim (get_elem? l i) [ some line ↦ line | none ↦ record { number = 0; text = "" } ]

module _ (a b : List FileLine) where
  unfoldable pub backtrack : List (List ℕ) → Option (List BacktrackEl)
  backtrack trace = backtrack_from (length a + length b) (reverse trace) (length a) (length b)

  -- the body of the loop of `Diff`
  unfoldable pub file_diff : BacktrackEl → FileDiff
  file_diff res =
      let line_a = line_at a res.prev_x in
      let line_b = line_at b res.prev_y in
      if res.x == res.prev_x
      then record { line_a = none; line_b = some line_b; diff_type = ins }
      else if res.y == res.prev_y
      then record { line_a = some line_a; line_b = none; diff_type = del }
      else record { line_a = some line_a; line_b = some line_b; diff_type = eql }

  unfoldable pub diff : Option (List FileDiff)
  diff = do trace ← get_shortest_path a b; els ← backtrack trace; some (map file_diff els)
