-- ===== src/Status/Codes.antt =====
-- What the methods of a status say of it.
use test_perf.Prelude.{true, ◌≡◌, ◌↔◌, refl, none, [], ◌∷◌, Bool-cases, inl, inr}
use test_perf.Status.{
  Status, StatusCode, unmodified, untracked, modified, added, deleted, renamed, copied,
  updated_but_unmerged, string, is_clean, lines, same_code,
}

-- `StatusCode.String` indexes its eight names with the byte of the code: on each of the eight
-- constants that is out of range.
pub string-eq-none : (sc : StatusCode) → string sc ≡ none
unfolding string
string-eq-none unmodified = refl
string-eq-none untracked = refl
string-eq-none modified = refl
string-eq-none added = refl
string-eq-none deleted = refl
string-eq-none renamed = refl
string-eq-none copied = refl
string-eq-none updated_but_unmerged = refl

-- A status is clean exactly if `Status.String` has no line for it.
pub is_clean_iff : (s : Status) → (is_clean s ≡ true) ↔ (lines s ≡ [])
unfolding is_clean lines
is_clean_iff [] = (λ h. refl, λ h. refl)
is_clean_iff ((path, f) ∷ s) =
    let (to, from) = is_clean_iff s in
    elim (Bool-cases (same_code f.staging unmodified)) [
      | inl a ↦ elim (Bool-cases (same_code f.worktree unmodified)) [
        | inl b ↦ rw (a, b) (to, from)
        | inr b ↦ rw (a, b) (λ h. cc, λ h. cc)
      ]
      | inr a ↦ elim (Bool-cases (same_code f.worktree unmodified)) [
        | inl b ↦ rw (a, b) (λ h. cc, λ h. cc)
        | inr b ↦ rw (a, b) (λ h. cc, λ h. cc)
      ]
    ]
