-- ===== src/Diff3/Clean.antt =====
-- Merges without a conflict: a side that did not change, and the same change on both sides.
use mathlib.Core.List.{map-append}
use test_perf.Prelude.{
  ℕ, zero, suc, ◌+◌, ◌≤◌, ◌<◌, ◌≡◌, ◌∙◌, refl, sym, ap, none, some, List, [], ◌∷◌, ◌++◌, map,
  length, drop, take_all, String, arith, inl, inr,
}
use test_perf.Result.{ok}
use test_perf.Myers.{FileLine, FileDiff, BacktrackEl, file_diff, diff}
use test_perf.Myers.Furthest.{same_at-lt}
use test_perf.Myers.Walk.{Walk, done, keep, delete, insert}
use test_perf.Myers.Script.{Walk-Covers, diff-Walk, file_diff-keep}
use test_perf.Myers.Shortest.{Alignment, both, nil, diff_shortest}
use test_perf.Diff3.{
  Diff3, Indexes, IntMap, put, matches_from, get_matches, newline, TempFile, number_from, merge,
}
use test_perf.Diff3.Resolve.{resolve_ours_same, resolve_theirs_same, resolve_same_change}
use test_perf.Diff3.Chunk.{InOrder, chunk, between, texts}
use test_perf.Diff3.Matches.{IsNumbered, put-cases}
use test_perf.Diff3.Tiling.{end_of, Boundary, before, behind, Tiling, last, next}
use test_perf.Diff3.Merge.{
  readable, prepared, Works, merge-Division, texts-number_from, length-number_from,
  number_from-IsNumbered,
}

between_split : (l : List FileLine) (i j : ℕ) → i ≤ j → between l i j ++ drop j l ≡ drop i l
between_split [] zero zero h = refl
between_split [] zero (suc j) h = refl
between_split [] (suc i) zero h = refl
between_split [] (suc i) (suc j) h = refl
between_split (x ∷ l) zero zero h = refl
between_split (x ∷ l) zero (suc j) h = ap (◌∷◌ x) (between_split l zero j (omega arith))
between_split (x ∷ l) (suc i) zero h = absurd (omega arith)
between_split (x ∷ l) (suc i) (suc j) h = between_split l i j (omega arith)

map_split :
    (l : List FileLine) (i j : ℕ)
    → i ≤ j
    → map newline (texts (between l i j)) ++ map newline (texts (drop j l))
      ≡ map newline (texts (drop i l))
map_split l i j h =
    sym (map-append newline (texts (between l i j)) (texts (drop j l)))
    ∙ ap (map newline) (sym (map-append (λ x. x.text) (between l i j) (drop j l)))
    ∙ ap (λ xs. map newline (texts xs)) (between_split l i j h)

-- Where each chunk of a division comes out as its lines of one file, the whole does.
module _ (d : Diff3) (ma mb : IntMap) (Good : Indexes → Type 0) (l : List FileLine)
    (pos : Indexes → ℕ) (ordered : (at to : Indexes) → InOrder d at to → pos at ≤ pos to)
    (clean : (at to : Indexes)
      → InOrder d at to
      → Good at
      → Good to
      → chunk d at to ≡ (map newline (texts (between l (pos at) (pos to))), 0))
    (good : (at : Indexes) → Boundary d ma mb at → Good at) (good_end : Good (end_of d))
    (pos_end : pos (end_of d) ≡ length l) where
  Tiling-clean :
      {at : Indexes} {out : List String} {n : ℕ}
      → Tiling d ma mb at out n
      → Good at
      → (out ≡ map newline (texts (drop (pos at) l))) × (n ≡ 0)
  Tiling-clean (last {at} o w) g =
      let e = clean at (end_of d) o g good_end in
      (
        ap (λ p. p.0) e
            ∙ ap (λ k. map newline (texts (between l (pos at) k))) pos_end
            ∙ ap (λ xs. map newline (texts (drop (pos at) xs))) (take_all l),
        ap (λ p. p.1) e,
      )
  Tiling-clean (next {at} to {out} {n} o b w t) g =
      let (eo, en) = Tiling-clean t (good to b) in
      let e = clean at to o g (good to b) in
      (rw (e, eo) (map_split l (pos at) (pos to) (ordered at to o)), rw (e) (omega (arith, en)))

-- Every match is of lines with the same number.
abbrev Diagonal : IntMap → Type 0
Diagonal m = (k v : ℕ) → m k ≡ some v → k ≡ v

module _ (a b : List FileLine) (na : IsNumbered a) (nb : IsNumbered b) where
  matches-Diagonal :
      (m m' : IntMap) {e x y : ℕ} {els : List BacktrackEl}
      → Walk a b e x y els
      → e ≡ 0
      → x ≡ y
      → Diagonal m
      → matches_from m (map (file_diff a b) els) ≡ some m'
      → Diagonal m'
  unfolding matches_from
  matches-Diagonal m m' done pe pd g run = λ k v h. g k v cc
  matches-Diagonal m m' (keep {e} {x} {y} s w) pe pd g run =
      let (p, q) = same_at-lt a b x y s in
      matches-Diagonal (put m x y) m' w pe (omega arith)
        (λ k v f. elim (put-cases m x y k v f) [ inl (r, t) ↦ omega arith | inr h ↦ g k v h ])
        (rw (file_diff-keep a b x y, na.at x p, nb.at y q) at run)
  matches-Diagonal m m' (delete w l) pe pd g run = absurd (omega arith)
  matches-Diagonal m m' (insert w l) pe pd g run = absurd (omega arith)

Alignment-self : (l : List FileLine) → Alignment 0 l l
Alignment-self [] = nil
Alignment-self (x ∷ l) = both x x refl (Alignment-self l)

get_matches-Diagonal :
    (l : List FileLine) (ds : List FileDiff) (m : IntMap)
    → IsNumbered l
    → 0 < length l
    → diff l l ≡ some ds
    → get_matches ds ≡ some m
    → Diagonal m
unfolding get_matches
get_matches-Diagonal l ds m nl h ed em =
    let (t, els, f, run, walk) = diff-Walk l l (omega arith) in
    let e : ds ≡ map (file_diff l l) els = cc (run) in
    matches-Diagonal l l nl nl (λ _. none) m walk
      (omega (arith, (Walk-Covers l l walk).count, diff_shortest l l _ 0 run (Alignment-self l)))
      refl (λ k v g. cc) (rw e at em)

some_inj {ℓ} : {A : Type ℓ} {x y : A} → some x ≡ some y → x ≡ y
some_inj h = cc

same_match : {ma mb : IntMap} (k i j : ℕ) → ma ≡ mb → ma k ≡ some i → mb k ≡ some j → i ≡ j
same_match k i j e p q = some_inj (sym p ∙ ap (λ m. m k) e ∙ q)

module _ {d : Diff3} (ma mb : IntMap) where
  Diagonal-a : {at : Indexes} → Diagonal ma → Boundary d ma mb at → at.base_index ≡ at.a_index
  Diagonal-a g (before m) = g _ _ m.in_a
  Diagonal-a g (behind at i m) = omega (arith, g _ _ m.in_a)

  Diagonal-b : {at : Indexes} → Diagonal mb → Boundary d ma mb at → at.base_index ≡ at.b_index
  Diagonal-b g (before m) = g _ _ m.in_b
  Diagonal-b g (behind at i m) = omega (arith, g _ _ m.in_b)

  same_sides : {at : Indexes} → ma ≡ mb → Boundary d ma mb at → at.a_index ≡ at.b_index
  same_sides e (before m) = same_match _ _ _ e m.in_a m.in_b
  same_sides e (behind at i m) = omega (arith, same_match _ _ _ e m.in_a m.in_b)

module _ (fs : TempFile) (w : Works fs) where
  -- If the base has a line, our side is the base, and the temporary file works, `Merge` gives the
  -- lines of their side, each with a newline, and no conflict.
  pub merge_ours_same :
      (base theirs : List String)
      → 0 < length base
      → merge fs (readable base) (readable base) (readable theirs) ≡ ok (map newline theirs, 0)
  merge_ours_same base theirs h =
      let (out, n, run, div) = merge-Division fs base base theirs w (omega arith) (omega arith) in
      let l = number_from 0 base in
      let dia =
        get_matches-Diagonal l div.diff_a div.matches_a (number_from-IsNumbered base)
          (omega (arith, length-number_from 0 base)) div.diff_a_eq div.matches_a_eq in
      let (eo, en) =
        Tiling-clean (prepared base base theirs div.diff_a div.diff_b) div.matches_a div.matches_b
          (λ at. at.base_index ≡ at.a_index) (number_from 0 theirs) (λ at. at.b_index)
          (λ at to o. o.b_le) (λ at to o g k. rw (g, k) (resolve_ours_same _ _))
          (λ at b. Diagonal-a div.matches_a div.matches_b dia b) refl refl div.tiling refl in
      let et = texts-number_from 0 theirs in rw (run, eo, en, et) refl

  -- If the base has a line, their side is the base, and the temporary file works, `Merge` gives the
  -- lines of our side, each with a newline, and no conflict.
  pub merge_theirs_same :
      (base ours : List String)
      → 0 < length base
      → merge fs (readable base) (readable ours) (readable base) ≡ ok (map newline ours, 0)
  merge_theirs_same base ours h =
      let (out, n, run, div) = merge-Division fs base ours base w (omega arith) (omega arith) in
      let dia =
        get_matches-Diagonal (number_from 0 base) div.diff_b div.matches_b
          (number_from-IsNumbered base) (omega (arith, length-number_from 0 base)) div.diff_b_eq
          div.matches_b_eq in
      let (eo, en) =
        Tiling-clean (prepared base ours base div.diff_a div.diff_b) div.matches_a div.matches_b
          (λ at. at.base_index ≡ at.b_index) (number_from 0 ours) (λ at. at.a_index)
          (λ at to o. o.a_le) (λ at to o g k. rw (g, k) (resolve_theirs_same _ _))
          (λ at b. Diagonal-b div.matches_a div.matches_b dia b) refl refl div.tiling refl in
      let et = texts-number_from 0 ours in rw (run, eo, en, et) refl

  -- If both sides are the same file, that or the base has a line, and the temporary file works,
  -- `Merge` gives the lines of that file, each with a newline, and no conflict.
  pub merge_same_change :
      (base ours : List String)
      → 0 < length base + length ours
      → merge fs (readable base) (readable ours) (readable ours) ≡ ok (map newline ours, 0)
  merge_same_change base ours h =
      let (out, n, run, div) = merge-Division fs base ours ours w h h in
      let ed : div.diff_a ≡ div.diff_b = some_inj (sym div.diff_a_eq ∙ div.diff_b_eq) in
      let em : div.matches_a ≡ div.matches_b =
        some_inj (sym div.matches_a_eq ∙ ap get_matches ed ∙ div.matches_b_eq) in
      let (eo, en) =
        Tiling-clean (prepared base ours ours div.diff_a div.diff_b) div.matches_a div.matches_b
          (λ at. at.a_index ≡ at.b_index) (number_from 0 ours) (λ at. at.a_index)
          (λ at to o. o.a_le) (λ at to o g k. rw (sym g, sym k) (resolve_same_change _ _))
          (λ at b. same_sides div.matches_a div.matches_b em b) refl refl div.tiling refl in
      let et = texts-number_from 0 ours in rw (run, eo, en, et) refl
