-- ===== src/Diff3.antt =====
-- diff3.go: the three-way merge of the lines of a file.
--
-- What `bufio.Scanner` delivers of a blob, and whether a write to the temporary file fails, are
-- parameters. The file is the list of what was written to it. A map from `int` to `int` is the
-- function that looks a key up.
pub mod Resolve
pub mod Chunk
pub mod Matches
pub mod Tiling
pub mod Search
pub mod Loop
pub mod Merge
pub mod Clean
pub mod Errors
use Prim.Native.String.{◌++◌ as ◌++ₛ◌}
use test_perf.Prelude.{
  ℕ, zero, suc, ◌+◌, ◌-◌, String, Bool, true, false, not, ◌&&◌, ◌||◌, Option, none, some, List, [],
  ◌∷◌, ◌++◌, ltb, leb, ◌==◌, str_eq, if◌then◌else◌, length, get_elem?,
}
use test_perf.Result.{
  Result, Error, ok, err, panic, out_of_fuel, or_panic, ◌>>=◌, read_failed, create_failed,
  write_failed, close_failed,
}
use test_perf.Myers.{FileLine, FileDiff, FileDiffType, ins, del, eql}
use test_perf.Myers

pub record Diff3 : Type 0 where
  pub diff_a : List FileDiff
  pub diff_b : List FileDiff
  pub base : List FileLine
  pub a : List FileLine
  pub b : List FileLine

-- `indexes`, and `match`, which has the same fields
pub record Indexes : Type 0 where
  pub base_index : ℕ
  pub a_index : ℕ
  pub b_index : ℕ

abbrev pub IntMap : Type 0
IntMap = ℕ → Option ℕ

abbrev pub put : IntMap → ℕ → ℕ → IntMap
put m k v i = if k == i then some v else m i

-- the loop of `getMatches`
unfoldable pub matches_from : IntMap → List FileDiff → Option IntMap
matches_from m [] = some m
matches_from m (el ∷ fd) = elim el.diff_type [
  | eql ↦ elim el.line_a [
    | none ↦ none
    | some l ↦ elim el.line_b [ none ↦ none | some r ↦ matches_from (put m l.number r.number) fd ]
  ]
  | _ ↦ matches_from m fd
]

unfoldable pub get_matches : List FileDiff → Option IntMap
get_matches fd = matches_from (λ _. none) fd

unfoldable pub is_match : IntMap → ℕ → ℕ → ℕ → Bool
is_match matches line_base offset i = elim (matches (line_base + i)) [
  | none ↦ false
  | some el ↦ el == offset + i
]

-- The body of `isBlockEqual` after the test of the lengths.
unfoldable pub all_equal : List String → List String → Bool
all_equal [] bl_b = true
all_equal (a ∷ bl_a) [] = false
all_equal (a ∷ bl_a) (b ∷ bl_b) = if str_eq a b then all_equal bl_a bl_b else false

unfoldable pub is_block_equal : List String → List String → Bool
is_block_equal bl_a bl_b = if length bl_a == length bl_b then all_equal bl_a bl_b else false

-- `j`, `blockA` and `notEqlA` of `writeChunk`, or `k`, `blockB` and `notEqlB`
pub record Side : Type 0 where
  pub at : ℕ
  pub block : List String
  pub not_eql : List FileLine

-- `if j < ir.to.aIndex { … }` in the loop over the lines of the base
unfoldable pub side_step : List FileLine → ℕ → FileLine → Side → Result Side
side_step lines to base_line s =
    if ltb s.at to
    then (do
      line ← or_panic (get_elem? lines s.at)
      ok (record {
        at = s.at + 1;
        block = s.block ++ line.text ∷ [];
        not_eql = if str_eq base_line.text line.text then s.not_eql else s.not_eql ++ line ∷ [];
      }))
    else ok s

-- `for j < ir.to.aIndex { … }`, with `r` rounds left
unfoldable pub side_rest : List FileLine → ℕ → Side → Result Side
side_rest lines zero s = ok s
side_rest lines (suc r) s = do
  line ← or_panic (get_elem? lines s.at)
  side_rest lines r (record {
    at = s.at + 1;
    block = s.block ++ line.text ∷ [];
    not_eql = s.not_eql ++ line ∷ [];
  })

abbrev pub newline : String → String
newline l = l ++ₛ "\n"

abbrev pub delim_start : String
delim_start = "<<<<<<< yours\n"

abbrev pub delim_middle : String
delim_middle = "=======\n"

abbrev pub delim_end : String
delim_end = ">>>>>>> theirs\n"

abbrev pub is_nil {ℓ} : {A : Type ℓ} → List A → Bool
is_nil [] = true
is_nil (x ∷ xs) = false

-- `fails f`: the next write to a file that holds `f` fails
module _ (fails : List String → Bool) where
  unfoldable pub write : List String → String → Result (List String)
  write f text = if fails f then err write_failed else ok (f ++ text ∷ [])

  unfoldable pub write_block_to_file : List String → List String → Result (List String)
  write_block_to_file [] f = ok f
  write_block_to_file (l ∷ bl) f = do f' ← write f (newline l); write_block_to_file bl f'

  unfoldable pub write_conflict_to_file :
      List String → List String → List String → Result (List String)
  write_conflict_to_file ours theirs f = if is_nil ours && is_nil theirs then ok f else do
    f₁ ← write f delim_start
    f₂ ← write_block_to_file ours f₁
    f₃ ← write f₂ delim_middle
    f₄ ← write_block_to_file theirs f₃
    write f₄ delim_end

  -- The end of `writeChunk`: what is written, and how many conflicts.
  unfoldable pub write_resolved :
      Bool → Bool → Bool → List String → List String → List String → Result (List String × ℕ)
  write_resolved is_eql_a is_eql_b are_both_empty block_a block_b f =
      if is_eql_a && is_eql_b
      then (do f' ← write_block_to_file block_a f; ok (f', 0))
      else if is_eql_a
      then (do f' ← write_block_to_file block_b f; ok (f', 0))
      else if is_eql_b
      then (do f' ← write_block_to_file block_a f; ok (f', 0))
      else if are_both_empty
      then ok (f, 0)
      else if is_block_equal block_a block_b
      then (do f' ← write_block_to_file block_a f; ok (f', 0))
      else do f' ← write_conflict_to_file block_a block_b f; ok (f', 1)

module _ (d : Diff3) where
  -- `for i := ir.from.baseIndex; i < ir.to.baseIndex; i++`, with `r` rounds left
  unfoldable pub both_sides : Indexes → ℕ → ℕ → Side → Side → Result (Side × Side)
  both_sides to zero i sa sb = ok (sa, sb)
  both_sides to (suc r) i sa sb = do
    base_line ← or_panic (get_elem? d.base i)
    sa' ← side_step d.a to.a_index base_line sa
    sb' ← side_step d.b to.b_index base_line sb
    both_sides to r (i + 1) sa' sb'

  unfoldable pub is_in_bounds : ℕ → ℕ → ℕ → ℕ → Bool
  is_in_bounds i line_base line_a line_b =
      leb (line_base + i) (length d.base)
      || leb (line_a + i) (length d.a)
      || leb (line_b + i) (length d.b)

  -- `none` is -1
  unfoldable pub next_mismatch_from : IntMap → IntMap → ℕ → Indexes → ℕ → Result (Option ℕ)
  next_mismatch_from ma mb zero at i = out_of_fuel
  next_mismatch_from ma mb (suc fuel) at i =
      let on = is_in_bounds i at.base_index at.a_index at.b_index in
      elim (on
        && is_match ma at.base_index at.a_index i
        && is_match mb at.base_index at.b_index i) [
          | true ↦ next_mismatch_from ma mb fuel at (i + 1)
          | false ↦ ok (if on then some i else none)
        ]

  -- A match is at a line of the base, so no more rounds than those are made, and one.
  unfoldable pub get_next_mismatch : IntMap → IntMap → Indexes → Result (Option ℕ)
  get_next_mismatch ma mb at = next_mismatch_from ma mb (length d.base + 1) at 0

  -- `for baseNum < len(d.base)`, with `r` rounds left
  unfoldable pub next_match_from : IntMap → IntMap → ℕ → ℕ → Option Indexes
  next_match_from ma mb zero base_num = none
  next_match_from ma mb (suc r) base_num = elim (ma base_num) [
    | none ↦ next_match_from ma mb r (base_num + 1)
    | some m_a ↦ elim (mb base_num) [
      | none ↦ next_match_from ma mb r (base_num + 1)
      | some m_b ↦ some (record { base_index = base_num; a_index = m_a; b_index = m_b })
    ]
  ]

  unfoldable pub get_next_match : IntMap → IntMap → ℕ → Option Indexes
  get_next_match ma mb line_base = next_match_from ma mb (length d.base - line_base) line_base

module _ (fails : List String → Bool) (d : Diff3) where
  -- The lengths of the code are differences of `int`; where one is negative it is 0 here, and each
  -- test on them comes out the same.
  unfoldable pub write_chunk : Indexes → Indexes → List String → Result (List String × ℕ)
  write_chunk from to f = do
    (sa₁, sb₁) ←
        both_sides d to (to.base_index - from.base_index) from.base_index
          (record { at = from.a_index; block = []; not_eql = [] })
          (record { at = from.b_index; block = []; not_eql = [] })
    sa ← side_rest d.a (to.a_index - sa₁.at) sa₁
    sb ← side_rest d.b (to.b_index - sb₁.at) sb₁
    let len_base = to.base_index - from.base_index
    let len_a = to.a_index - from.a_index
    let len_b = to.b_index - from.b_index
    let is_eql_a =
        ltb len_base 1 && ltb len_a 1
        || len_base == len_a && not (from.a_index == to.a_index) && is_nil sa.not_eql
    let is_eql_b =
        ltb len_base 1 && ltb len_b 1
        || len_base == len_b && not (from.b_index == to.b_index) && is_nil sb.not_eql
    let are_both_empty = leb to.a_index from.a_index && leb to.b_index from.b_index
    write_resolved fails is_eql_a is_eql_b are_both_empty sa.block sb.block f

  -- `emitChunk` returns its second argument as the new position.
  unfoldable pub emit_chunk : Indexes → Indexes → List String → Result (List String × ℕ × Indexes)
  emit_chunk current match f = do
    (f', conflicts) ← write_chunk current match f
    ok (f', conflicts, match)

  unfoldable pub emit_final_chunk : Indexes → List String → Result (List String × ℕ)
  emit_final_chunk from f =
      write_chunk from
        (record { base_index = length d.base; a_index = length d.a; b_index = length d.b }) f

  -- the loop of `writeChunks`
  unfoldable pub chunks_from :
      IntMap → IntMap → ℕ → Indexes → List String → ℕ → Result (List String × ℕ)
  chunks_from ma mb zero at f conflicts = out_of_fuel
  chunks_from ma mb (suc fuel) at f conflicts = do
    i ← get_next_mismatch d ma mb at
    elim i [
      | none ↦ do (f', conf) ← emit_final_chunk at f; ok (f', conflicts + conf)
      | some zero ↦ elim (get_next_match d ma mb at.base_index) [
        | some match ↦ do
          (f', conf, at') ← emit_chunk at match f
          chunks_from ma mb fuel at' f' (conflicts + conf)
        | none ↦ do (f', conf) ← emit_final_chunk at f; ok (f', conflicts + conf)
      ]
      | some (suc i) ↦ do
        (f', conf, at') ←
            emit_chunk at
              (record {
                base_index = at.base_index + suc i;
                a_index = at.a_index + suc i;
                b_index = at.b_index + suc i;
              })
              f
        chunks_from ma mb fuel at' f' (conflicts + conf)
    ]

  -- Each round but the last goes on by a line, so the lines of the three files bound the rounds.
  unfoldable pub write_chunks : List String → Result (List String × ℕ)
  write_chunks f = do
    ma ← or_panic (get_matches d.diff_a)
    mb ← or_panic (get_matches d.diff_b)
    chunks_from ma mb (length d.base + length d.a + length d.b + 1)
        (record { base_index = 0; a_index = 0; b_index = 0 }) f 0

-- What a reader delivers: the texts of the lines, and whether it then fails.
pub record Scan : Type 0 where
  pub lines : List String
  pub fails : Bool

unfoldable pub number_from : ℕ → List String → List FileLine
number_from i [] = []
number_from i (text ∷ texts) = record { number = i; text = text } ∷ number_from (i + 1) texts

-- `none` is a blob that cannot be opened
unfoldable pub prepare_blob : Option Scan → Result (List FileLine)
prepare_blob none = err read_failed
prepare_blob (some r) = if r.fails then err read_failed else ok (number_from 0 r.lines)

unfoldable pub setup : Option Scan → Option Scan → Option Scan → Result Diff3
setup base_b ours_b theirs_b = do
  lines_base ← prepare_blob base_b
  lines_ours ← prepare_blob ours_b
  lines_theirs ← prepare_blob theirs_b
  diff_ours ← or_panic (Myers.diff lines_base lines_ours)
  diff_theirs ← or_panic (Myers.diff lines_base lines_theirs)
  ok (record {
    diff_a = diff_ours;
    diff_b = diff_theirs;
    base = lines_base;
    a = lines_ours;
    b = lines_theirs;
  })

-- The file system: whether the temporary file is created, written and closed.
pub record TempFile : Type 0 where
  pub creates : Bool
  pub fails : List String → Bool
  pub closes : Bool

-- `Merge`: what the temporary file holds, and `unResolvedConflicts`.
unfoldable pub merge : TempFile → Option Scan → Option Scan → Option Scan → Result (List String × ℕ)
merge fs base_b ours_b theirs_b = do
  d ← setup base_b ours_b theirs_b
  f₀ ← (if fs.creates then ok [] else err create_failed)
  (f, conflicts) ← write_chunks fs.fails d f₀
  (if fs.closes then ok (f, conflicts) else err close_failed)
