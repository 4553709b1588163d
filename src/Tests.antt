-- ===== src/Tests.antt =====
-- Runs of the program, and the theorems at inputs that meet their hypotheses.
pub mod Files
pub mod Bases
pub mod Merging
pub mod Steps
pub mod Trees
pub mod Commits
pub mod References
pub mod Checkouts
pub mod Tables
use test_perf.Prelude.{
  ℕ, ◌+◌, ◌-◌, ◌≤◌, ltb, get_elem?, if◌then◌else◌, pos, ◌⊎◌, inl, inr, ◌≡◌, ◌↔◌, refl, String,
  false, true, Option, none, some, List, [], ◌∷◌, ◌++◌, map, arith,
}
use test_perf.Result.{Result, ◌>>=◌, ok, err, panic, read_failed}
use test_perf.Myers.{
  FileLine, FileDiff, eql, del, same_at, snake, goes_down, start_x, extend, diagonals, rounds,
  get_shortest_path, slide, backtrack_from, backtrack, line_at, file_diff, diff,
}
use test_perf.Myers.Script.{IsScript, edits, diff-IsScript, diff-eq-none_iff}
use test_perf.Myers.Shortest.{Alignment, left, right, nil, diff_shortest}
use test_perf.Diff3.{
  Diff3, Indexes, matches_from, get_matches, is_match, all_equal, is_block_equal, side_step,
  side_rest, write, write_block_to_file, write_conflict_to_file, both_sides, is_in_bounds,
  next_mismatch_from, get_next_mismatch, next_match_from, get_next_match, write_chunk,
  write_resolved, emit_chunk, emit_final_chunk, chunks_from, write_chunks, Scan, number_from,
  prepare_blob, setup, TempFile, merge,
}
use test_perf.Diff3.Merge.{Works, Division, readable, merge-Division}
use test_perf.Diff3.Clean.{merge_ours_same, merge_theirs_same, merge_same_change}
use test_perf.Diff3.Errors.{missing, merge-Unreadable, merge-eq-panic_iff}
use test_perf.BufferLru.{BufferLru, new_buffer_lru, evict, evict_all, put, get}
use test_perf.BufferLru.Valid.{IsValid, Stored, new_buffer_lru-IsValid, put-IsValid}
use test_perf.BufferLru.Lookup.{Looked, get-IsValid, get-put}
use test_perf.MysqlFile.{
  File, Storage, found, seek_start, written, read_at, read, write_at, write as write_file, seek,
  truncate,
}
use test_perf.MysqlFile.Write.{get_elem?-written}
use test_perf.MysqlFile.Roundtrip.{Open, read-write}
use test_perf.MysqlFile.Truncate.{read-truncate}
use test_perf.CommitQueue.{PrioritizedCommit, push, swap}
use test_perf.CommitQueue.Indexed.{IsIndexed, push-IsIndexed, swap-IsIndexed}
use test_perf.Diff3.Chunk.{InOrder, chunk, write_chunk-eq-resolve}

differ : Unit {0}
unfolding same_at snake goes_down start_x extend diagonals rounds get_shortest_path slide
    backtrack_from backtrack line_at file_diff diff
differ = tt

merger : Unit {0}
unfolding differ matches_from get_matches is_match all_equal is_block_equal side_step side_rest
    write write_block_to_file write_conflict_to_file both_sides is_in_bounds next_mismatch_from
    get_next_mismatch next_match_from get_next_match write_chunk write_resolved emit_chunk
    emit_final_chunk chunks_from write_chunks number_from prepare_blob setup merge
merger = tt

abbrev scan : List String → Option Scan
scan lines = some (record { lines = lines; fails = false })

abbrev disk : TempFile
disk = record { creates = true; fails = λ _. false; closes = true }

merge_both :
    merge disk
      (scan ("a" ∷ "b" ∷ "c" ∷ []))
      (scan ("x" ∷ "b" ∷ "c" ∷ []))
      (scan ("a" ∷ "b" ∷ "y" ∷ []))
    ≡ ok ("x\n" ∷ "b\n" ∷ "y\n" ∷ [], 0)
unfolding merger
merge_both = refl

merge_conflict :
    merge disk (scan ("a" ∷ "b" ∷ [])) (scan ("x" ∷ "b" ∷ [])) (scan ("y" ∷ "b" ∷ []))
    ≡ ok ("<<<<<<< yours\n" ∷ "x\n" ∷ "=======\n" ∷ "y\n" ∷ ">>>>>>> theirs\n" ∷ "b\n" ∷ [], 1)
unfolding merger
merge_conflict = refl

merge_panics : merge disk (scan []) (scan []) (scan ("y" ∷ [])) ≡ panic
unfolding merger
merge_panics = refl

abbrev old : List FileLine
old = record { number = 0; text = "a" } ∷ record { number = 1; text = "b" } ∷ []

abbrev new : List FileLine
new = record { number = 0; text = "b" } ∷ []

abbrev script : List FileDiff
script =
    record {
      line_a = some (record { number = 1; text = "b" });
      line_b = some (record { number = 0; text = "b" });
      diff_type = eql;
    }
    ∷ record { line_a = some (record { number = 0; text = "a" }); line_b = none; diff_type = del }
    ∷ []

diff_runs : diff old new ≡ some script
unfolding differ
diff_runs = refl

diff-IsScript_example : (ds : List FileDiff) × (diff old new ≡ some ds) × IsScript old new ds
diff-IsScript_example = diff-IsScript old new (omega arith)

apart : Alignment 3 old new
apart = left _ (left _ (right _ nil))

diff_shortest_example : edits script ≤ 3
diff_shortest_example = diff_shortest old new script 3 diff_runs apart

abbrev chunks : Diff3
chunks = record { diff_a = script; diff_b = script; base = old; a = new; b = new }

abbrev position : ℕ → ℕ → ℕ → Indexes
position i j k = record { base_index = i; a_index = j; b_index = k }

in_order : InOrder chunks (position 0 0 0) (position 1 0 0)
in_order = omega arith

write_chunk-eq-resolve_example :
    write_chunk (λ _. false) chunks (position 0 0 0) (position 1 0 0) []
    ≡ ok (
      [] ++ (chunk chunks (position 0 0 0) (position 1 0 0)).0,
      (chunk chunks (position 0 0 0) (position 1 0 0)).1,
    )
write_chunk-eq-resolve_example =
    write_chunk-eq-resolve (λ _. false) chunks (position 0 0 0) (position 1 0 0) [] (λ _. refl)
      in_order

disk-Works : Works disk
disk-Works = record { creates_eq = refl; writes = λ g. refl; closes_eq = refl }

abbrev two_lines : List String
two_lines = "a" ∷ "b" ∷ []

abbrev no_lines : List String
no_lines = []

abbrev other_lines : List String
other_lines = "x" ∷ "b" ∷ "c" ∷ []

merge-Division_example :
    (out : List String) × (n : ℕ) × (merge disk
        (readable two_lines)
        (readable other_lines)
        (readable [])
      ≡ ok (out, n))
    × Division two_lines other_lines [] out n
merge-Division_example =
    merge-Division disk two_lines other_lines [] disk-Works (omega arith) (omega arith)

merge_ours_same_example :
    merge disk (readable two_lines) (readable two_lines) (readable other_lines)
    ≡ ok ("x\n" ∷ "b\n" ∷ "c\n" ∷ [], 0)
merge_ours_same_example = merge_ours_same disk disk-Works two_lines other_lines (omega arith)

merge_theirs_same_example :
    merge disk (readable two_lines) (readable other_lines) (readable two_lines)
    ≡ ok ("x\n" ∷ "b\n" ∷ "c\n" ∷ [], 0)
merge_theirs_same_example = merge_theirs_same disk disk-Works two_lines other_lines (omega arith)

merge-eq-panic_iff_example :
    (merge disk (readable no_lines) (readable two_lines) (readable no_lines) ≡ panic)
    ↔ ((no_lines ≡ []) × ((two_lines ≡ []) ⊎ (no_lines ≡ [])))
merge-eq-panic_iff_example = merge-eq-panic_iff disk no_lines two_lines no_lines disk-Works

cacher : Unit {0}
unfolding evict evict_all put get
cacher = tt

abbrev cache : BufferLru
cache = new_buffer_lru 5

abbrev keys : BufferLru → List ℕ
keys c = elim c.entries [ none ↦ [] | some e ↦ map (λ b. b.key) e.ll ]

abbrev four_steps : Result (List ℕ × Option (List ℕ))
four_steps = do
  c₁ ← put cache 1 (7 ∷ 7 ∷ [])
  c₂ ← put c₁ 2 (8 ∷ 8 ∷ [])
  (c₃, o) ← get c₂ 1
  c₄ ← put c₃ 3 (9 ∷ 9 ∷ [])
  ok (keys c₄, o)

-- The least recently used entry leaves: 1 has been read, so 2 goes.
four_steps_lem : four_steps ≡ ok (3 ∷ 1 ∷ [], some (7 ∷ 7 ∷ []))
unfolding cacher
four_steps_lem = refl

put-IsValid_example :
    (c' : BufferLru) × (put cache 1 (7 ∷ 7 ∷ []) ≡ ok c')
    × IsValid c'
    × (c'.max_size ≡ 5)
    × Stored cache 1 (7 ∷ 7 ∷ []) c'
put-IsValid_example = put-IsValid cache 1 (7 ∷ 7 ∷ []) (new_buffer_lru-IsValid 5)

filled : (c : BufferLru) × (put cache 1 (7 ∷ 7 ∷ []) ≡ ok c)
unfolding cacher
filled = (_, refl)

held : (c : BufferLru) × IsValid c
held = let (c, run, v, m, s) = put-IsValid cache 1 (7 ∷ 7 ∷ []) (new_buffer_lru-IsValid 5) in (c, v)

get-IsValid_example :
    (c' : BufferLru) × (o : Option (List ℕ)) × (get held.0 1 ≡ ok (c', o))
    × IsValid c'
    × (c'.max_size ≡ held.0.max_size)
    × Looked held.0 1 c' o
get-IsValid_example = get-IsValid held.0 1 held.1

get-put_example : (c : BufferLru) × (get filled.0 1 ≡ ok (c, some (7 ∷ 7 ∷ [])))
get-put_example =
    get-put cache filled.0 1 (7 ∷ 7 ∷ []) (new_buffer_lru-IsValid 5) (omega arith) filled.1

abbrev commit : ℕ → ℕ → PrioritizedCommit
commit hash i = record { hash = hash; flags = 1; priority = hash; index = pos i }

abbrev queue : List PrioritizedCommit
queue = commit 5 0 ∷ commit 7 1 ∷ []

push-IsIndexed_example : IsIndexed 0 (push queue (commit 9 0))
push-IsIndexed_example = push-IsIndexed queue (commit 9 0) (refl, (refl, tt))
