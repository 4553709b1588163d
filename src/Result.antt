-- ===== src/Result.antt =====
-- What a call of the program comes to.
use test_perf.Prelude.{Option, none, some}

-- The errors of the parts that are modelled.
pub data Error : Type 0 where
  read_failed create_failed write_failed close_failed : Error
  closed read_unsupported write_unsupported eof storage_failed : Error
  not_exist already_exists dir_not_empty is_directory not_a_link file_not_found unexpected_status
        merge_in_progress uncommitted_files missing_author has_unmerged_files reference_not_found
        branch_hash_exclusive create_requires_branch branch_exists unstaged_changes unsupported_tag
        invalid_head :
      Error

-- `panic` is a run-time panic; `out_of_fuel` is a loop or a recursion that has not ended within its
-- fuel.
pub data Result {ℓ} (A : Type ℓ) : Type ℓ where
  ok : A → Result A
  err : Error → Result A
  panic : Result A
  out_of_fuel : Result A

infixl 5 ◌>>=◌
abbrev pub ◌>>=◌ {ℓ κ} : {A : Type ℓ} {B : Type κ} → Result A → (A → Result B) → Result B
ok a >>= f = f a
err e >>= f = err e
panic >>= f = panic
out_of_fuel >>= f = out_of_fuel

-- An index out of range, or a nil pointer.
abbrev pub or_panic {ℓ} : {A : Type ℓ} → Option A → Result A
or_panic none = panic
or_panic (some a) = ok a
