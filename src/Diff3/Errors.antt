-- ===== src/Diff3/Errors.antt =====
-- How `Merge` fails.
use test_perf.Prelude.{
  ◌≡◌, ◌↔◌, ◌⊎◌, inl, inr, refl, true, Bool-cases, Option, none, some, List, [], ◌∷◌, String, arith,
}
use test_perf.Result.{ok, err, panic, read_failed}
use test_perf.Myers.{FileLine}
use test_perf.Myers.Script.{diff-IsScript, diff_empty}
use test_perf.Diff3.{Scan, TempFile, number_from, prepare_blob, setup, merge}
use test_perf.Diff3.Merge.{readable, Works, merge-Division}

-- A blob that is not there, or whose reader fails before its end.
pub data Unreadable : Option Scan → Type 0 where
  missing : Unreadable none
  broken : (r : Scan) → r.fails ≡ true → Unreadable (some r)

prepare_blob_fails : {b : Option Scan} → Unreadable b → prepare_blob b ≡ err read_failed
unfolding prepare_blob
prepare_blob_fails missing = refl
prepare_blob_fails (broken r h) = rw h refl

prepare_blob-cases :
    (b : Option Scan)
    → (prepare_blob b ≡ err read_failed) ⊎ ((l : List FileLine) × (prepare_blob b ≡ ok l))
unfolding prepare_blob
prepare_blob-cases none = inl refl
prepare_blob-cases (some r) = elim (Bool-cases r.fails) [
  | inl h ↦ inl (rw h refl)
  | inr h ↦ inr (number_from 0 r.lines, rw h refl)
]

setup_fails :
    (base ours theirs : Option Scan)
    → Unreadable base ⊎ (Unreadable ours ⊎ Unreadable theirs)
    → setup base ours theirs ≡ err read_failed
unfolding setup
setup_fails base ours theirs (inl h) = rw (prepare_blob_fails h) refl
setup_fails base ours theirs (inr (inl h)) = elim (prepare_blob-cases base) [
  | inl e ↦ rw e refl
  | inr (l, e) ↦ rw (e, prepare_blob_fails h) refl
]
setup_fails base ours theirs (inr (inr h)) = elim (prepare_blob-cases base) [
  | inl e ↦ rw e refl
  | inr (l, e) ↦ elim (prepare_blob-cases ours) [
    | inl f ↦ rw (e, f) refl
    | inr (k, f) ↦ rw (e, f, prepare_blob_fails h) refl
  ]
]

setup_panics :
    (ours theirs : List String)
    → (ours ≡ []) ⊎ (theirs ≡ [])
    → setup (readable []) (readable ours) (readable theirs) ≡ panic
unfolding setup prepare_blob number_from
setup_panics ours theirs (inl e) = rw (e, diff_empty) refl
setup_panics [] theirs (inr e) = rw (diff_empty) refl
setup_panics (o ∷ ours) theirs (inr e) =
    let (ds, run, s) = diff-IsScript [] (number_from 0 (o ∷ ours)) (omega arith) in
    rw (e, diff_empty, run) refl

module _ (fs : TempFile) where
  merge_panics :
      (ours theirs : List String)
      → (ours ≡ []) ⊎ (theirs ≡ [])
      → merge fs (readable []) (readable ours) (readable theirs) ≡ panic
  unfolding merge
  merge_panics ours theirs h = rw (setup_panics ours theirs h) refl

  -- If one of the three files cannot be read, `Merge` returns that error.
  pub merge-Unreadable :
      (base ours theirs : Option Scan)
      → Unreadable base ⊎ (Unreadable ours ⊎ Unreadable theirs)
      → merge fs base ours theirs ≡ err read_failed
  unfolding merge
  merge-Unreadable base ours theirs h = rw (setup_fails base ours theirs h) refl

-- If the three files can be read and the temporary file works, `Merge` panics exactly if the base is
-- empty and one of the sides is.
pub merge-eq-panic_iff :
    (fs : TempFile) (base ours theirs : List String)
    → Works fs
    → (merge fs (readable base) (readable ours) (readable theirs) ≡ panic)
      ↔ ((base ≡ []) × ((ours ≡ []) ⊎ (theirs ≡ [])))
merge-eq-panic_iff fs base ours theirs w = (there base ours theirs, λ h. back base h.0 h.1)
  where
    there :
        (base ours theirs : List String)
        → merge fs (readable base) (readable ours) (readable theirs) ≡ panic
        → (base ≡ []) × ((ours ≡ []) ⊎ (theirs ≡ []))
    there [] [] theirs h = (refl, inl refl)
    there [] (o ∷ ours) [] h = (refl, inr refl)
    there [] (o ∷ ours) (t ∷ theirs) h =
        let (out, n, run, div) =
          merge-Division fs [] (o ∷ ours) (t ∷ theirs) w (omega arith) (omega arith) in
        cc (run, h)
    there (b ∷ base) ours theirs h =
        let (out, n, run, div) =
          merge-Division fs (b ∷ base) ours theirs w (omega arith) (omega arith) in
        cc (run, h)

    back :
        (base : List String)
        → base ≡ []
        → (ours ≡ []) ⊎ (theirs ≡ [])
        → merge fs (readable base) (readable ours) (readable theirs) ≡ panic
    back [] e h = merge_panics fs ours theirs h
    back (b ∷ base) e h = cc
