-- ===== src/FilePath/Same.antt =====
-- The comparison of paths.
use test_perf.Prelude.{◌≡◌, ◌↔◌, refl, sym, Bool, true, false, List, [], ◌∷◌, ==_iff, arith}
use test_perf.FilePath.{Name, FilePath, same_name, same_elems, same_bool, same_path}

pub same_name_iff : (m n : Name) → (same_name m n ≡ true) ↔ (m ≡ n)
same_name_iff [] [] = (λ _. refl, λ _. refl)
same_name_iff [] (b ∷ n) = (λ h. cc, λ h. cc)
same_name_iff (a ∷ m) [] = (λ h. cc, λ h. cc)
same_name_iff (a ∷ m) (b ∷ n) = (
  λ h. ground (arith, ==_iff a b, same_name_iff m n),
  λ h. ground (arith, ==_iff a b, same_name_iff m n),
)

pub same_elems_iff : (m n : List Name) → (same_elems m n ≡ true) ↔ (m ≡ n)
same_elems_iff [] [] = (λ _. refl, λ _. refl)
same_elems_iff [] (b ∷ n) = (λ h. cc, λ h. cc)
same_elems_iff (a ∷ m) [] = (λ h. cc, λ h. cc)
same_elems_iff (a ∷ m) (b ∷ n) = (
  λ h. ground (arith, same_name_iff a b, same_elems_iff m n),
  λ h. ground (arith, same_name_iff a b, same_elems_iff m n),
)

same_bool_iff : (a b : Bool) → (same_bool a b ≡ true) ↔ (a ≡ b)
same_bool_iff true true = (λ _. refl, λ _. refl)
same_bool_iff true false = (λ h. cc, λ h. cc)
same_bool_iff false true = (λ h. cc, λ h. cc)
same_bool_iff false false = (λ _. refl, λ _. refl)

pub same_path_iff : (p q : FilePath) → (same_path p q ≡ true) ↔ (p ≡ q)
same_path_iff p q = (
  λ h. there (parts h),
  λ h.
      rw (sym h, (same_bool_iff p.rooted p.rooted).1 refl)
        ((same_elems_iff p.elems p.elems).1 refl),
)
  where
    parts : same_path p q ≡ true → (p.rooted ≡ q.rooted) × (p.elems ≡ q.elems)
    parts h = (
      ground (arith, same_bool_iff p.rooted q.rooted),
      ground (arith, same_bool_iff p.rooted q.rooted, same_elems_iff p.elems q.elems),
    )

    there : (p.rooted ≡ q.rooted) × (p.elems ≡ q.elems) → p ≡ q
    there (e, f) = λ i. record { rooted = e i; elems = f i }
