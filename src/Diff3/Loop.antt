-- ===== src/Diff3/Loop.antt =====
-- The loop of `writeChunks` ends, and merges the chunks of a division in order.
use mathlib.Core.List.{append_assoc}
use test_perf.Prelude.{
  ℕ, zero, suc, ◌+◌, ◌-◌, ◌<◌, ◌≡◌, ◌∙◌, refl, Bool, false, none, some, List, ◌++◌, length, String,
  arith,
}
use test_perf.Result.{Result, ok}
use test_perf.Diff3.{
  Diff3, Indexes, IntMap, get_next_mismatch, get_next_match, emit_chunk, emit_final_chunk,
  chunks_from, get_matches, write_chunks,
}
use test_perf.Diff3.Chunk.{InOrder, chunk, write_chunk-eq-resolve}
use test_perf.Diff3.Matches.{IsMatching}
use test_perf.Diff3.Tiling.{
  end_of, origin, sum, shift, Boundary, before, behind, NoMatch, Indivisible, agreed, apart, Tiling,
  last, next,
}
use test_perf.Diff3.Search.{
  IsReady, Mismatch, get_next_mismatch_lem, next_match_lem, IsReady-behind, IsReady-at,
  get_next_match_eq, IsReady-origin, to_end, to_match, to_shift, further, nothing, found,
}

module _ (d : Diff3) (ma mb : IntMap) (ga : IsMatching (length d.base) (length d.a) 0 0 ma)
    (gb : IsMatching (length d.base) (length d.b) 0 0 mb) (fails : List String → Bool)
    (works : (g : List String) → fails g ≡ false) where
  emit_chunk_lem :
      (at to : Indexes) (f : List String)
      → InOrder d at to
      → emit_chunk fails d at to f ≡ ok (f ++ (chunk d at to).0, (chunk d at to).1, to)
  unfolding emit_chunk
  emit_chunk_lem at to f o = rw (write_chunk-eq-resolve fails d at to f works o) refl

  emit_final_chunk_lem :
      (at : Indexes) (f : List String)
      → InOrder d at (end_of d)
      → emit_final_chunk fails d at f
        ≡ ok (f ++ (chunk d at (end_of d)).0, (chunk d at (end_of d)).1)
  unfolding emit_final_chunk
  emit_final_chunk_lem at f o = write_chunk-eq-resolve fails d at (end_of d) f works o

  -- What the loop does from `at` on, with the file and the count at `f` and `c`.
  abbrev Runs : ℕ → Indexes → List String → ℕ → Type 0
  Runs fuel at f c =
      (out : List String) × (n : ℕ) × Tiling d ma mb at out n
      × (chunks_from fails d ma mb fuel at f c ≡ ok (f ++ out, c + n))

  Runs-next :
      (fuel fuel' : ℕ) (at to : Indexes) (f : List String) (c : ℕ)
      → chunks_from fails d ma mb fuel' at f c
        ≡ chunks_from fails d ma mb fuel to (f ++ (chunk d at to).0) (c + (chunk d at to).1)
      → InOrder d at to
      → Boundary d ma mb to
      → Indivisible d ma mb at to
      → Runs fuel to (f ++ (chunk d at to).0) (c + (chunk d at to).1)
      → Runs fuel' at f c
  Runs-next fuel fuel' at to f c e o b w (out, n, t, run) = (
    (chunk d at to).0 ++ out,
    (chunk d at to).1 + n,
    next to o b w t,
    e ∙ run ∙ joined f (chunk d at to).0 out c (chunk d at to).1 n,
  )
    where
      joined :
          (f g h : List String) (i j k : ℕ)
          → ◌≡◌ {A = Result (List String × ℕ)}
              (ok ((f ++ g) ++ h, i + j + k))
              (ok (f ++ (g ++ h), i + (j + k)))
      joined f g h i j k =
          let e : i + j + k ≡ i + (j + k) = omega arith in rw (append_assoc, e) refl

  run_last :
      (fuel : ℕ) (at : Indexes) (f : List String) (c : ℕ)
      → get_next_mismatch d ma mb at ≡ ok (some 0)
      → get_next_match d ma mb at.base_index ≡ none
      → InOrder d at (end_of d)
      → NoMatch d ma mb at.base_index (length d.base)
      → Runs (suc fuel) at f c
  unfolding chunks_from
  run_last fuel at f c e g o none_at =
      (_, _, last o none_at, cc (e, g, emit_final_chunk_lem at f o))

  run_match :
      (fuel : ℕ) (at to : Indexes) (f : List String) (c : ℕ)
      → get_next_mismatch d ma mb at ≡ ok (some 0)
      → get_next_match d ma mb at.base_index ≡ some to
      → InOrder d at to
      → chunks_from fails d ma mb (suc fuel) at f c
        ≡ chunks_from fails d ma mb fuel to (f ++ (chunk d at to).0) (c + (chunk d at to).1)
  unfolding chunks_from
  run_match fuel at to f c e g o = cc (e, g, emit_chunk_lem at to f o)

  run_agreed :
      (fuel i : ℕ) (at : Indexes) (f : List String) (c : ℕ)
      → get_next_mismatch d ma mb at ≡ ok (some (suc i))
      → InOrder d at (shift at (suc i))
      → chunks_from fails d ma mb (suc fuel) at f c
        ≡ chunks_from fails d ma mb fuel
            (shift at (suc i))
            (f ++ (chunk d at (shift at (suc i))).0)
            (c + (chunk d at (shift at (suc i))).1)
  unfolding chunks_from
  run_agreed fuel i at f c e o = rw (e, emit_chunk_lem at (shift at (suc i)) f o) refl

  round :
      (fuel : ℕ) (at : Indexes) (f : List String) (c r : ℕ)
      → sum (end_of d) < sum at + suc fuel
      → IsReady d ma mb ga gb at
      → get_next_mismatch d ma mb at ≡ ok (some r)
      → Mismatch d ma mb ga gb at r
      → ((to : Indexes) (g : List String) (n : ℕ)
          → sum (end_of d) < sum to + fuel
          → IsReady d ma mb ga gb to
          → Runs fuel to g n)
      → Runs (suc fuel) at f c
  round fuel at f c zero h ready e miss rest =
      elim (next_match_lem d ma mb ga gb (length d.base - at.base_index) at.base_index) [
        | nothing g none_at ↦
            run_last fuel at f c e (get_next_match_eq d ma mb ga gb at g)
              (to_end d ma mb ga gb at ready) (λ p l h. none_at p l (omega arith))
        | found to g l none_at m ↦
            let o = to_match d ma mb ga gb at to ready l m in
            Runs-next fuel (suc fuel) at to f c
              (run_match fuel at to f c e (get_next_match_eq d ma mb ga gb at g) o) o (before m)
              (apart none_at)
              (rest to _ _ (omega (arith, further d ma mb ga gb at to miss o m))
                (IsReady-at d ma mb ga gb to m))
      ]
  round fuel at f c (suc i) h ready e miss rest =
      let m = miss.matched i (omega arith) in
      let o = to_shift d ma mb ga gb at i m in
      Runs-next fuel (suc fuel) at (shift at (suc i)) f c (run_agreed fuel i at f c e o) o
        (behind at i m) (agreed at (suc i) miss.matched)
        (rest (shift at (suc i)) _ _ (omega arith) (IsReady-behind d ma mb ga gb at i m))

  chunks_lem :
      (fuel : ℕ) (at : Indexes) (f : List String) (c : ℕ)
      → sum (end_of d) < sum at + fuel
      → IsReady d ma mb ga gb at
      → Runs fuel at f c
  chunks_lem zero at f c h r = absurd (omega (arith, r.base_in, r.a_in, r.b_in))
  chunks_lem (suc fuel) at f c h ready =
      let (r, e, miss) = get_next_mismatch_lem d ma mb ga gb at ready in
      round fuel at f c r h ready e miss (chunks_lem fuel)

  -- If no write fails, `writeChunks` ends, and merges the chunks of a division of the files.
  pub write_chunks_lem :
      (f : List String)
      → get_matches d.diff_a ≡ some ma
      → get_matches d.diff_b ≡ some mb
      → (out : List String) × (n : ℕ) × Tiling d ma mb origin out n
        × (write_chunks fails d f ≡ ok (f ++ out, n))
  unfolding write_chunks
  write_chunks_lem f ea eb = whole (
      chunks_lem (length d.base + length d.a + length d.b + 1) origin f 0 (omega arith)
        (IsReady-origin d ma mb ga gb))
    where
      whole :
          Runs (length d.base + length d.a + length d.b + 1) origin f 0
          → (out : List String) × (n : ℕ) × Tiling d ma mb origin out n
            × (write_chunks fails d f ≡ ok (f ++ out, n))
      whole (out, n, t, run) =
          let e : 0 + n ≡ n = omega arith in (out, n, t, rw (ea, eb) (rw e at run))
