-- ===== src/MysqlStorage/Content.antt =====
-- An open file on the table.
use test_perf.Prelude.{
  ℕ, ◌<◌, ◌≡◌, ◌∙◌, refl, ap, true, Option, none, some, List, [], ◌∷◌, length, ◌==◌, Bool-cases,
  inl, inr, pos, ==_iff,
}
use test_perf.Result.{Result, ok, err, panic, out_of_fuel}
use test_perf.FilePath.{FilePath, clean}
use test_perf.MysqlFile.{
  File, Storage, Found, failed, missing, found, written, read, write, seek, seek_start,
}
use test_perf.MysqlFile.Roundtrip.{Open, read-write}
use test_perf.MysqlStorage.{
  FileDb, Db, id_is, path_is, file_db_to_file, get_file, update_file_content,
}
use test_perf.MysqlStorage.Table.{keep, change, IsUnique, IsTable, keep-change}
use test_perf.MysqlStorage.Remove.{get_file_lem}

abbrev pub content_of : Result (Option File) → Found
content_of (ok (some f)) = found f.content
content_of (ok none) = missing
content_of (err e) = failed
content_of panic = failed
content_of out_of_fuel = failed

abbrev pub state_of : {S : Type 0} → S × Result (Unit {0}) → Option S
state_of (s, ok u) = some s
state_of (s, err e) = none
state_of (s, panic) = none
state_of (s, out_of_fuel) = none

-- The storage as an open file sees it.
abbrev pub as_storage : {S : Type 0} → Db S → Storage S
as_storage db = record {
  get_file = λ s path. content_of (get_file db path s).1;
  update_file_content = λ s id content. state_of (update_file_content db id content s);
}

abbrev with_content : List ℕ → FileDb → FileDb
with_content c r = record r { content = c }

-- The keys stay unique where only contents change.
IsUnique-change :
    (i : ℕ) (c : List ℕ) (rs : List FileDb)
    → IsUnique rs
    → IsUnique (change (id_is i) (with_content c) rs)
IsUnique-change i c [] u = tt
IsUnique-change i c (r ∷ rs) (a, b, u) = elim (Bool-cases (id_is i r)) [
  | inl e ↦ rw e (of_path, of_id, IsUnique-change i c rs u)
  | inr e ↦ rw e (of_path, of_id, IsUnique-change i c rs u)
]
  where
    of_path : keep (path_is r.path) (change (id_is i) (with_content c) rs) ≡ []
    of_path =
        keep-change (path_is r.path) (id_is i) (with_content c) rs (λ x. refl)
        ∙ ap (change (id_is i) (with_content c)) a

    of_id : keep (id_is r.id) (change (id_is i) (with_content c) rs) ≡ []
    of_id =
        keep-change (id_is r.id) (id_is i) (with_content c) rs (λ x. refl)
        ∙ ap (change (id_is i) (with_content c)) b

module _ {S : Type 0} (db : Db S) (t : IsTable db) where
  update_file_content_lem :
      (s : S) (i : ℕ) (c : List ℕ)
      → (s' : S) × (update_file_content db i c s ≡ (s', ok tt))
        × (t.rows s' ≡ change (id_is i) (with_content c) (t.rows s))
  unfolding update_file_content
  update_file_content_lem s i c =
      let (s', run, after) =
        t.update_eq s (id_is i) (with_content c) (IsUnique-change i c (t.rows s) (t.unique s)) in
      (s', cc (t.prepare_eq s, run), after)

  -- The content under a path after the content of the row with that path has been updated.
  content_after :
      (s s' : S) (path : FilePath) (r : FileDb) (rest : List FileDb) (c : List ℕ)
      → t.rows s' ≡ change (id_is r.id) (with_content c) (t.rows s)
      → keep (path_is (clean path)) (t.rows s) ≡ r ∷ rest
      → content_of (get_file db path s').1 ≡ found c
  unfolding file_db_to_file
  content_after s s' path r rest c after h =
      let i : (r.id == r.id) ≡ true = (==_iff r.id r.id).1 refl in
      let e =
        ap (keep (path_is (clean path))) after
        ∙ keep-change (path_is (clean path)) (id_is r.id) (with_content c) (t.rows s) (λ x. refl)
        ∙ ap (change (id_is r.id) (with_content c)) h in
      rw (get_file_lem db t s' path, e, i) refl

  -- An open file of a row of the table: what `Write` writes, `Read` reads after a `Seek` back.
  pub read-write-IsTable :
      (s : S) (f : File) (o : ℕ) (p : List ℕ) (r : FileDb) (rest : List FileDb)
      → Open f o
      → 0 < length p
      → keep (path_is (clean f.path)) (t.rows s) ≡ r ∷ rest
      → r.id ≡ f.id
      → (s' : S) × (f₁ : File) × (f₂ : File) × (f₃ : File) × (write (as_storage db) s f p
          ≡ ok (s', f₁, length p, none))
        × (seek f₁ (pos o) seek_start ≡ ok (f₂, pos o))
        × (read (as_storage db) s' f₂ (length p) ≡ ok (f₃, p, none))
        × (t.rows s'
            ≡ change (id_is f.id) (λ x. record x { content = written f.content o p }) (t.rows s))
  read-write-IsTable s f o p r rest op l h i =
      let (s', run, after) = update_file_content_lem s f.id (written f.content o p) in
      let (f₁, f₂, f₃, w, k, g, e) =
        read-write (as_storage db) s s' f o p op l (ap state_of run)
          (content_after s s' f.path r rest (written f.content o p) (rw i after) h) in
      (s', f₁, f₂, f₃, w, k, g, after)
