-- ===== src/Diff3/Resolve.antt =====
-- The three-way merge of one chunk, as a rule on the texts of its lines.
use mathlib.Core.List.{append-nil, append_assoc}
use test_perf.Prelude.{
  ℕ, ◌≡◌, ◌↔◌, ◌∙◌, refl, sym, String, Bool, true, false, ◌&&◌, List, [], ◌∷◌, ◌++◌, map, str_eq,
  eq_iff, if◌then◌else◌, Bool-cases, inl, inr, arith,
}
use test_perf.Result.{ok}
use test_perf.Diff3.{
  all_equal, is_block_equal, newline, delim_start, delim_middle, delim_end, is_nil, write,
  write_block_to_file, write_conflict_to_file, write_resolved,
}

abbrev pub same_texts : List String → List String → Bool
same_texts [] [] = true
same_texts (x ∷ xs) (y ∷ ys) = str_eq x y && same_texts xs ys
same_texts _ _ = false

pub same_texts_iff : (xs ys : List String) → (same_texts xs ys ≡ true) ↔ (xs ≡ ys)
same_texts_iff [] [] = (λ _. refl, λ _. refl)
same_texts_iff [] (y ∷ ys) = (λ h. cc, λ h. cc)
same_texts_iff (x ∷ xs) [] = (λ h. cc, λ h. cc)
same_texts_iff (x ∷ xs) (y ∷ ys) = (
  λ h. ground (arith, eq_iff x y, same_texts_iff xs ys),
  λ h. ground (arith, eq_iff x y, same_texts_iff xs ys),
)

abbrev pub conflict_text : List String → List String → List String
conflict_text a b =
    delim_start ∷ (map newline a ++ (delim_middle ∷ (map newline b ++ (delim_end ∷ []))))

-- Both sides have changed: equal changes are one change, and other changes are both shown.
abbrev pub resolve_changed : List String → List String → List String × ℕ
resolve_changed a b = if same_texts a b then (map newline a, 0) else (conflict_text a b, 1)

-- What the chunk becomes, and how many conflicts that is: a side that did not change gives way to
-- the other.
unfoldable pub resolve : (base a b : List String) → List String × ℕ
resolve base a b =
    if same_texts base a
    then (map newline b, 0)
    else if same_texts base b
    then (map newline a, 0)
    else resolve_changed a b

is_block_equal-eq-same_texts : (a b : List String) → is_block_equal a b ≡ same_texts a b
unfolding is_block_equal all_equal
is_block_equal-eq-same_texts [] [] = refl
is_block_equal-eq-same_texts [] (y ∷ ys) = ground arith
is_block_equal-eq-same_texts (x ∷ xs) [] = ground arith
is_block_equal-eq-same_texts (x ∷ xs) (y ∷ ys) = ground (arith, is_block_equal-eq-same_texts xs ys)

module _ (fails : List String → Bool) (works : (f : List String) → fails f ≡ false) where
  write_lem : (f : List String) (text : String) → write fails f text ≡ ok (f ++ text ∷ [])
  unfolding write
  write_lem f text = rw (works f) refl

  pub write_block_lem :
      (bl f : List String) → write_block_to_file fails bl f ≡ ok (f ++ map newline bl)
  unfolding write_block_to_file
  write_block_lem [] f = rw append-nil refl
  write_block_lem (l ∷ bl) f = rw (write_lem f (newline l), write_block_lem bl, append_assoc) refl

  write_conflict_lem :
      (a b f : List String)
      → same_texts a b ≡ false
      → write_conflict_to_file fails a b f ≡ ok (f ++ conflict_text a b)
  unfolding write_conflict_to_file
  write_conflict_lem a b f h =
      rw
        (
          some_line a b h,
          write_lem f delim_start,
          write_block_lem a,
          write_lem _ delim_middle,
          write_block_lem b,
          write_lem _ delim_end,
        )
        (simp append_assoc)
    where
      some_line : (a b : List String) → same_texts a b ≡ false → (is_nil a && is_nil b) ≡ false
      some_line [] [] e = cc
      some_line [] (y ∷ ys) e = refl
      some_line (x ∷ xs) b e = refl

  -- The last three branches: both sides have changed.
  write_changed :
      (empty : Bool) (a b f : List String)
      → empty ≡ (is_nil a && is_nil b)
      → write_resolved fails false false empty a b f
        ≡ ok (f ++ (resolve_changed a b).0, (resolve_changed a b).1)
  unfolding write_resolved
  write_changed empty [] [] f pe = rw (pe, append-nil) refl
  write_changed empty [] (y ∷ ys) f pe =
      rw (pe, is_block_equal-eq-same_texts [] (y ∷ ys), write_conflict_lem [] (y ∷ ys) f refl) refl
  write_changed empty (x ∷ xs) b f pe = elim (Bool-cases (same_texts (x ∷ xs) b)) [
    | inl e ↦ rw (pe, is_block_equal-eq-same_texts (x ∷ xs) b, e, write_block_lem (x ∷ xs)) refl
    | inr e ↦
        rw (pe, is_block_equal-eq-same_texts (x ∷ xs) b, e, write_conflict_lem (x ∷ xs) b f e) refl
  ]

  -- The end of `writeChunk` writes what `resolve` says, if its tests are those of `resolve`.
  pub write_resolved-eq-resolve :
      (is_eql_a is_eql_b are_both_empty : Bool) (base a b f : List String)
      → is_eql_a ≡ same_texts base a
      → is_eql_b ≡ same_texts base b
      → are_both_empty ≡ (is_nil a && is_nil b)
      → write_resolved fails is_eql_a is_eql_b are_both_empty a b f
        ≡ ok (f ++ (resolve base a b).0, (resolve base a b).1)
  unfolding write_resolved resolve
  write_resolved-eq-resolve ea eb empty base a b f pa pb pe =
      elim (Bool-cases (same_texts base a)) [
        | inl p ↦ elim (Bool-cases (same_texts base b)) [
          | inl q ↦
              let e : a ≡ b = sym ((same_texts_iff base a).0 p) ∙ (same_texts_iff base b).0 q in
              rw (pa, pb, p, q, write_block_lem a, e) refl
          | inr q ↦ rw (pa, pb, p, q, write_block_lem b) refl
        ]
        | inr p ↦ elim (Bool-cases (same_texts base b)) [
          | inl q ↦ rw (pa, pb, p, q, write_block_lem a) refl
          | inr q ↦ rw (pa, pb, p, q) (write_changed empty a b f pe)
        ]
      ]

same_texts_self : (xs : List String) → same_texts xs xs ≡ true
same_texts_self xs = (same_texts_iff xs xs).1 refl

pub resolve_ours_same : (base b : List String) → resolve base base b ≡ (map newline b, 0)
unfolding resolve
resolve_ours_same base b = rw (same_texts_self base) refl

pub resolve_theirs_same : (base a : List String) → resolve base a base ≡ (map newline a, 0)
unfolding resolve
resolve_theirs_same base a = elim (Bool-cases (same_texts base a)) [
  | inl p ↦ let e : base ≡ a = (same_texts_iff base a).0 p in rw (p, e) refl
  | inr p ↦ rw (p, same_texts_self base) refl
]

pub resolve_same_change : (base a : List String) → resolve base a a ≡ (map newline a, 0)
unfolding resolve
resolve_same_change base a = elim (Bool-cases (same_texts base a)) [
  | inl p ↦ rw p refl
  | inr p ↦ rw (p, same_texts_self a) refl
]
