-- ===== src/MysqlStorage/Ends.antt =====
-- The calls of `NewFile` of itself, for the directory above.
use test_perf.Prelude.{
  ℕ, zero, suc, ◌<◌, ◌≡◌, ◌≢◌, Bool, true, false, not, Option, none, some, length, if◌then◌else◌,
  Bool-cases, inl, inr, arith,
}
use test_perf.Result.{Result, ok, err, out_of_fuel, storage_failed, already_exists}
use test_perf.Action.{Action, ◌>>◌, pure, fail}
use test_perf.FilePath.{FilePath, clean, dir, is_root}
use test_perf.MysqlFile.{File}
use test_perf.MysqlStorage.{
  FileDb, Db, is_dir, dir_mode, id_is, prepared, updated, get_file, create_parent,
  create_parent_add_to_file, insert_row, add_file, new_file,
}
use test_perf.Action.Ends.{Ends, Ends-pure, Ends-fail, Ends-reads, Ends-changes, Ends-bind}
use test_perf.FilePath.Length.{clean-rooted, dir-rooted, is_root-lt}

module _ {S : Type 0} (db : Db S) where
  Ends-get_file : (path : FilePath) → Ends (get_file db path)
  unfolding get_file
  Ends-get_file path = Ends-bind _ _ (Ends-reads _ _) (λ rows. Ends-pure _)

  Ends-prepared : Ends (prepared db)
  Ends-prepared = Ends-changes storage_failed (λ s. if db.prepare s then some s else none)

  Ends-updated : (p : FileDb → Bool) (f : FileDb → FileDb) → Ends (updated db p f)
  Ends-updated p f = Ends-changes storage_failed (λ s. db.update s p f)

  Ends-insert_row : (r : FileDb) → Ends (insert_row db r)
  unfolding insert_row
  Ends-insert_row r = record { ends = λ s. at s (db.insert s r) }
    where
      at :
          (s : S) (o : Option (S × Option ℕ))
          → (elim o as (λ x. S × Result ℕ) [
            | none ↦ (s, err storage_failed)
            | some (s', id) ↦ elim id as (λ x. S × Result ℕ) [
              | none ↦ (s', err storage_failed)
              | some i ↦ (s', ok i)
            ]
          ]).1
            ≢ out_of_fuel
      at s none h = cc
      at s (some (s', none)) h = cc
      at s (some (s', some i)) h = cc

  Ends-set_parent :
      (f p : File)
      → Ends (
          prepared db
          >> (updated db (id_is f.id) (λ r. record r { parent_id = some p.id })
              >> pure (record f { parent_id = p.id })))
  Ends-set_parent f p =
      Ends-bind _ _ Ends-prepared
        (λ u. Ends-bind _ _ (Ends-updated _ _) (λ v. Ends-pure (record f { parent_id = p.id })))

  -- The calls for the directory above end, if `NewFile` ends for it.
  Ends-create_parent :
      (new : FilePath → ℕ → ℕ → Action S (Option File)) (path : FilePath) (mode : ℕ)
      → (is_root (clean (dir path)) ≡ false → Ends (new (clean (dir path)) (dir_mode mode) 0))
      → Ends (create_parent db new path mode)
  unfolding create_parent
  Ends-create_parent new path mode h = elim (Bool-cases (is_root (clean (dir path)))) [
    | inl e ↦ rw e (Ends-pure none)
    | inr e ↦ rw e (Ends-bind _ _ (h e) (λ parent. after parent))
  ]
    where
      after :
          (parent : Option File)
          → Ends (elim parent as (λ x. Action S (Option File)) [
            | some f ↦ pure (some f)
            | none ↦ get_file db (clean (dir path))
          ])
      after none = Ends-get_file (clean (dir path))
      after (some f) = Ends-pure (some f)

  Ends-create_parent_add_to_file :
      (new : FilePath → ℕ → ℕ → Action S (Option File)) (path : FilePath) (mode : ℕ) (f : File)
      → (is_root (clean (dir path)) ≡ false → Ends (new (clean (dir path)) (dir_mode mode) 0))
      → Ends (create_parent_add_to_file db new path mode f)
  unfolding create_parent_add_to_file
  Ends-create_parent_add_to_file new path mode f h =
      Ends-bind _ _ (Ends-create_parent new path mode h) after
    where
      after :
          (parent : Option File)
          → Ends (elim parent as (λ x. Action S File) [
            | none ↦ pure f
            | some p ↦ (do
              prepared db
              updated db (id_is f.id) (λ r. record r { parent_id = some p.id })
              pure (record f { parent_id = p.id }))
          ])
      after none = Ends-pure f
      after (some p) = Ends-set_parent f p

  Ends-add_file :
      (new : FilePath → ℕ → ℕ → Action S (Option File)) (path : FilePath) (mode flag : ℕ)
      → (is_root (clean (dir path)) ≡ false → Ends (new (clean (dir path)) (dir_mode mode) 0))
      → Ends (add_file db new path mode flag)
  unfolding add_file
  Ends-add_file new path mode flag h = Ends-bind _ _ Ends-prepared (λ u.
      Ends-bind _ _ (Ends-insert_row _) (λ id.
        Ends-bind _ _ (Ends-create_parent_add_to_file new path mode _ h) (λ f. Ends-pure (some f))))

  -- `NewFile` of a rooted path ends: it calls itself at most once for each of its names.
  pub new_file-Ends :
      (fuel : ℕ) (path : FilePath) (mode flag : ℕ)
      → path.rooted ≡ true
      → length path.elems < fuel
      → Ends (new_file db fuel path mode flag)
  unfolding new_file
  new_file-Ends zero path mode flag h l = absurd (omega arith)
  new_file-Ends (suc fuel) path mode flag h l =
      let up = λ (e : is_root (clean (dir (clean path))) ≡ false).
        new_file-Ends fuel (clean (dir (clean path))) (dir_mode mode) 0
          (clean-rooted (dir (clean path)) (dir-rooted (clean path) (clean-rooted path h)))
          (omega (arith, is_root-lt path h e)) in
      record { ends = (Ends-bind _ _ (Ends-get_file (clean path)) (after up)).ends }
    where
      Above : Type 0
      Above =
          is_root (clean (dir (clean path))) ≡ false
          → Ends (new_file db fuel (clean (dir (clean path))) (dir_mode mode) 0)

      after :
          Above
          → (found : Option File)
          → Ends (elim found as (λ x. Action S (Option File)) [
            | some f ↦ if not (is_dir f.mode) then fail already_exists else pure none
            | none ↦ add_file db (new_file db fuel) (clean path) mode flag
          ])
      after up none = Ends-add_file (new_file db fuel) (clean path) mode flag up
      after up (some f) = elim (Bool-cases (is_dir f.mode)) [
        | inl e ↦ rw e (Ends-pure none)
        | inr e ↦ rw e (Ends-fail already_exists)
      ]
