-- ===== src/FilePath/Length.antt =====
-- The number of names of a path, clean or not.
use mathlib.Core.List.{reverse-cons}
use test_perf.Prelude.{
  suc, ◌+◌, ◌-◌, ◌≤◌, ◌<◌, ◌≡◌, ◌∙◌, refl, ap, Bool, true, false, List, [], ◌∷◌, reverse, length,
  length-append, arith,
}
use test_perf.FilePath.{Name, FilePath, clean_step, clean_from, clean, init, dir, is_root}

length-reverse {ℓ} : {A : Type ℓ} (l : List A) → length (reverse l) ≡ length l
length-reverse [] = refl
length-reverse (x ∷ l) =
    ap length (reverse-cons x l)
    ∙ omega (arith, length-append (reverse l) (x ∷ []), length-reverse l)

clean_step-length :
    (rooted : Bool) (out : List Name) (n : Name)
    → length (clean_step rooted out n) ≤ suc (length out)
unfolding clean_step
clean_step-length rooted [] n = ground arith
clean_step-length rooted (o ∷ os) n = ground arith

clean_from-length :
    (rooted : Bool) (out ns : List Name)
    → length (clean_from rooted out ns) ≤ length out + length ns
unfolding clean_from
clean_from-length rooted out [] = omega (arith, length-reverse out)
clean_from-length rooted out (n ∷ ns) =
    omega
      (arith, clean_from-length rooted (clean_step rooted out n) ns, clean_step-length rooted out n)

pub clean-length : (p : FilePath) → length (clean p).elems ≤ length p.elems
unfolding clean
clean-length p = omega (arith, clean_from-length p.rooted [] p.elems)

init-length : (ns : List Name) → length (init ns) ≡ length ns - 1
init-length [] = omega arith
init-length (a ∷ []) = omega arith
init-length (a ∷ b ∷ m) = omega (arith, init-length (b ∷ m))

pub clean-rooted : (p : FilePath) → p.rooted ≡ true → (clean p).rooted ≡ true
unfolding clean
clean-rooted p h = h

pub dir-rooted : (p : FilePath) → p.rooted ≡ true → (dir p).rooted ≡ true
unfolding dir
dir-rooted p h = h

is_root-length : (p : FilePath) → p.rooted ≡ true → is_root p ≡ false → 0 < length p.elems
is_root-length p h e = at p.elems p.rooted h e
  where
    at :
        (es : List Name) (b : Bool)
        → b ≡ true
        → elim es as (λ x. Bool) [ [] ↦ b | n ∷ ns ↦ false ] ≡ false
        → 0 < length es
    at [] b h e = cc
    at (n ∷ ns) b h e = omega arith

-- The directory above a rooted path is the root, or has fewer names.
pub is_root-lt :
    (p : FilePath)
    → p.rooted ≡ true
    → is_root (clean (dir (clean p))) ≡ false
    → length (clean (dir (clean p))).elems < length p.elems
unfolding dir
is_root-lt p h e =
    below (clean p) (clean (dir (clean p)))
      (clean-rooted (dir (clean p)) (dir-rooted (clean p) (clean-rooted p h))) e
      (clean-length (dir (clean p))) (clean-length p)
  where
    below :
        (q r : FilePath)
        → r.rooted ≡ true
        → is_root r ≡ false
        → length r.elems ≤ length (dir q).elems
        → length q.elems ≤ length p.elems
        → length r.elems < length p.elems
    below q r hr er l m = omega (arith, is_root-length r hr er, init-length q.elems)
