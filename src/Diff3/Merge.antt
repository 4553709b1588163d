-- ===== src/Diff3/Merge.antt =====
-- `Merge` as a whole: the files are read, divided into chunks, and the chunks are merged.
use test_perf.Prelude.{
  ℕ, zero, suc, ◌+◌, ◌<◌, ◌≡◌, refl, ap, true, false, Option, some, List, [], ◌∷◌, length, String,
  arith,
}
use test_perf.Result.{ok}
use test_perf.Myers.{FileDiff, line_at, diff}
use test_perf.Diff3.{
  Diff3, IntMap, Scan, TempFile, number_from, prepare_blob, setup, write_chunks, merge, get_matches,
}
use test_perf.Diff3.Resolve.{}
use test_perf.Diff3.Chunk.{texts}
use test_perf.Diff3.Matches.{IsNumbered, get_matches-diff}
use test_perf.Diff3.Tiling.{origin, Tiling}
use test_perf.Diff3.Loop.{write_chunks_lem}

abbrev pub readable : List String → Option Scan
readable lines = some (record { lines = lines; fails = false })

pub texts-number_from : (i : ℕ) (ts : List String) → texts (number_from i ts) ≡ ts
unfolding number_from
texts-number_from i [] = refl
texts-number_from i (t ∷ ts) = ap (◌∷◌ t) (texts-number_from (i + 1) ts)

pub length-number_from : (i : ℕ) (ts : List String) → length (number_from i ts) ≡ length ts
unfolding number_from
length-number_from i [] = refl
length-number_from i (t ∷ ts) = ap suc (length-number_from (i + 1) ts)

number_at :
    (i : ℕ) (ts : List String) (k : ℕ)
    → k < length (number_from i ts)
    → (line_at (number_from i ts) k).number ≡ i + k
unfolding number_from line_at
number_at i [] k h = absurd (omega arith)
number_at i (t ∷ ts) zero h = omega arith
number_at i (t ∷ ts) (suc k) h = omega (arith, number_at (i + 1) ts k (omega arith))

pub number_from-IsNumbered : (ts : List String) → IsNumbered (number_from 0 ts)
number_from-IsNumbered ts = record { at = λ k h. omega (arith, number_at 0 ts k h) }

-- What `setup` makes of readable files.
abbrev pub prepared : (base ours theirs : List String) (da db : List FileDiff) → Diff3
prepared base ours theirs da db = record {
  diff_a = da;
  diff_b = db;
  base = number_from 0 base;
  a = number_from 0 ours;
  b = number_from 0 theirs;
}

setup_lem :
    (base ours theirs : List String) (da db : List FileDiff)
    → diff (number_from 0 base) (number_from 0 ours) ≡ some da
    → diff (number_from 0 base) (number_from 0 theirs) ≡ some db
    → setup (readable base) (readable ours) (readable theirs) ≡ ok (prepared base ours theirs da db)
unfolding setup prepare_blob
setup_lem base ours theirs da db ea eb = rw (ea, eb) refl

-- A division into chunks by the matches of the two differences.
pub record Division (base ours theirs out : List String) (n : ℕ) : Type 0 where
  pub diff_a : List FileDiff
  pub diff_b : List FileDiff
  pub matches_a : IntMap
  pub matches_b : IntMap
  pub diff_a_eq : diff (number_from 0 base) (number_from 0 ours) ≡ some diff_a
  pub diff_b_eq : diff (number_from 0 base) (number_from 0 theirs) ≡ some diff_b
  pub matches_a_eq : get_matches diff_a ≡ some matches_a
  pub matches_b_eq : get_matches diff_b ≡ some matches_b
  pub tiling : Tiling (prepared base ours theirs diff_a diff_b) matches_a matches_b origin out n

-- The temporary file is created, takes every write, and is closed.
pub record Works (fs : TempFile) : Type 0 where
  pub creates_eq : fs.creates ≡ true
  pub writes : (g : List String) → fs.fails g ≡ false
  pub closes_eq : fs.closes ≡ true

merge_lem :
    (fs : TempFile) (base ours theirs out : List String) (n : ℕ) (d : Diff3)
    → Works fs
    → setup (readable base) (readable ours) (readable theirs) ≡ ok d
    → write_chunks fs.fails d [] ≡ ok (out, n)
    → merge fs (readable base) (readable ours) (readable theirs) ≡ ok (out, n)
unfolding merge
merge_lem fs base ours theirs out n d w es ec = rw (es, w.creates_eq, ec, w.closes_eq) refl

-- If the files can be read, no side is empty together with the base, and the temporary file works,
-- then `Merge` ends and its result is that of the chunks of a division.
pub merge-Division :
    (fs : TempFile) (base ours theirs : List String)
    → Works fs
    → 0 < length base + length ours
    → 0 < length base + length theirs
    → (out : List String) × (n : ℕ) × (merge fs (readable base) (readable ours) (readable theirs)
        ≡ ok (out, n))
      × Division base ours theirs out n
merge-Division fs base ours theirs w pa pb =
    let lb = number_from 0 base in
    let la = number_from 0 ours in
    let lc = number_from 0 theirs in
    let nb = length-number_from 0 base in
    let (da, ma, ea, ga, ha) =
      get_matches-diff lb la (number_from-IsNumbered base) (number_from-IsNumbered ours)
        (omega (arith, nb, length-number_from 0 ours)) in
    let (db, mb, eb, gb, hb) =
      get_matches-diff lb lc (number_from-IsNumbered base) (number_from-IsNumbered theirs)
        (omega (arith, nb, length-number_from 0 theirs)) in
    let (out, n, t, run) =
      write_chunks_lem (prepared base ours theirs da db) ma mb ha hb fs.fails w.writes [] ga gb in
    (
      out,
      n,
      merge_lem fs base ours theirs out n _ w (setup_lem base ours theirs da db ea eb) run,
      record {
        diff_a = da;
        diff_b = db;
        matches_a = ma;
        matches_b = mb;
        diff_a_eq = ea;
        diff_b_eq = eb;
        matches_a_eq = ga;
        matches_b_eq = gb;
        tiling = t;
      },
    )
