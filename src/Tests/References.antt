-- ===== src/Tests/References.antt =====
-- Runs of the texts of references, and of their update.
use mathlib.Core.Path.{subst}
use test_perf.Prelude.{
  ℕ, ◌≢◌, drop, length, ◌≡◌, refl, sym, ap, ◌∙◌, true, none, some, List, [], ◌∷◌, if◌then◌else◌,
  replicate, arith, Bool-cases, inl, inr, Option,
}
use test_perf.Result.{Result, ok, err, reference_not_found}
use test_perf.Hash.{
  Reference, has_prefix, symref_prefix, Bytes, new_hash, hash_string, new_symbolic_reference,
  new_hash_reference, new_reference_from_strings, strings,
}
use test_perf.Hash.Roundtrip.{
  IsStored, to_name, IsHash, new_hash-IsHash, to_hash, new_reference_from_strings-strings,
}
use test_perf.FilePath.{same_name}
use test_perf.FilePath.Same.{same_name_iff}
use test_perf.TreeBuild.Walk.{In}
use test_perf.Repository.{
  RefDb, RefSpec, commit_object, head_bytes, is_branch_name, reference_string, commit_hash_of,
  resolve_to_commit_hash, update_from, update_if_needed, is_missing, remote_head,
  calculate_remote_head_reference, update_all, update_references,
}
use test_perf.Repository.Update.{DbLaws, Updated, update_if_needed-Updated}
use test_perf.Repository.Branch.{BranchUpdated, update_references-BranchUpdated}

reading_texts : Unit {0}
unfolding reference_string commit_hash_of resolve_to_commit_hash update_from update_if_needed
    is_missing remote_head calculate_remote_head_reference update_all update_references new_hash
    hash_string new_symbolic_reference new_hash_reference new_reference_from_strings strings
reading_texts = tt

abbrev tip : Bytes
tip = replicate 20 171

tip-IsHash : IsHash tip
tip-IsHash = record { size = refl; bytes = omega arith }

abbrev topic : Bytes
topic = 116 ∷ 111 ∷ []

new_reference_from_strings-strings_example :
    new_reference_from_strings (strings (new_hash_reference topic tip))
    ≡ new_hash_reference topic tip
new_reference_from_strings-strings_example =
    new_reference_from_strings-strings (to_hash topic tip tip-IsHash)

-- References as texts under their names.
abbrev Texts : Type 0
Texts = Bytes → Option Bytes

abbrev from_text : Bytes → Option Bytes → Result Reference
from_text n none = err reference_not_found
from_text n (some t) = ok (new_reference_from_strings (n, t))

abbrev texts_db : RefDb Texts
texts_db = record {
  reference = λ n s. from_text n (s n);
  set = λ r s. (λ n. if same_name r.name n then some (strings r).1 else s n, ok tt);
  object = λ h s. ok commit_object;
}

read_back :
    (n t : Bytes)
    → IsStored (new_reference_from_strings (n, t)) × ((new_reference_from_strings (n, t)).name ≡ n)
unfolding new_reference_from_strings new_symbolic_reference new_hash_reference
read_back n t = elim (Bool-cases (has_prefix t symref_prefix)) [
  | inl e ↦ rw e (to_name n (drop (length symref_prefix) t), refl)
  | inr e ↦ rw e (to_hash n (new_hash t) (new_hash-IsHash t), refl)
]

strings-name : (r : Reference) → (strings r).0 ≡ r.name
unfolding strings
strings-name r = refl

texts_db-DbLaws : DbLaws texts_db
texts_db-DbLaws = record {
  set_get = λ r s s' st h n.
      ap (λ (o : Texts × Result (Unit {0})). from_text n (o.0 n)) (sym h) ∙ given r s st n;
  well_stored = λ n s p h. stored n (s n) p h;
}
  where
    given :
        (r : Reference) (s : Texts) (st : IsStored r) (n : Bytes)
        → from_text n (if same_name r.name n then some (strings r).1 else s n)
          ≡ (if same_name r.name n then ok r else from_text n (s n))
    given r s st n = elim (Bool-cases (same_name r.name n)) [
      | inl e ↦
          let q : r.name ≡ n = (same_name_iff r.name n).0 e in
          rw e (
            (λ i. ok (new_reference_from_strings (sym q i, (strings r).1)))
            ∙ (λ i. ok (new_reference_from_strings (sym (strings-name r) i, (strings r).1)))
            ∙ ap ok (new_reference_from_strings-strings st))
      | inr e ↦ rw e refl
    ]

    stored :
        (n : Bytes) (o : Option Bytes) (p : Reference)
        → from_text n o ≡ ok p
        → IsStored p × (p.name ≡ n)
    stored n none p h = cc
    stored n (some t) p h =
        let q : new_reference_from_strings (n, t) ≡ p = cc (h) in
        subst (λ p. IsStored p × (p.name ≡ n)) q (read_back n t)

abbrev no_texts : Texts
no_texts n = none

abbrev branch_name : Bytes
branch_name = 114 ∷ 101 ∷ 102 ∷ 115 ∷ 47 ∷ 104 ∷ 101 ∷ 97 ∷ 100 ∷ 115 ∷ 47 ∷ 116 ∷ []

abbrev fetched : Reference
fetched = new_hash_reference branch_name tip

abbrev after_one : Texts
after_one = (update_if_needed texts_db fetched no_texts).0

one_run : update_if_needed texts_db fetched no_texts ≡ (after_one, ok true)
unfolding reading_texts
one_run = refl

update_if_needed-Updated_example : Updated texts_db fetched no_texts after_one true
update_if_needed-Updated_example =
    update_if_needed-Updated texts_db texts_db-DbLaws fetched no_texts after_one true
      (to_hash branch_name tip tip-IsHash) one_run

-- Each name goes to the one with an `o` before it.
abbrev to_remote : RefSpec
to_remote n = some (111 ∷ n)

abbrev specs : List RefSpec
specs = to_remote ∷ []

abbrev after_fetch : Texts
after_fetch = (update_references texts_db 1 specs fetched no_texts).0

fetch_run : update_references texts_db 1 specs fetched no_texts ≡ (after_fetch, ok true)
unfolding reading_texts
fetch_run = refl

is_fetched_branch : is_branch_name fetched.name ≡ true
unfolding reading_texts
is_fetched_branch = refl

abbrev first_of : Option Bytes → ℕ
first_of none = 0
first_of (some []) = 0
first_of (some (b ∷ n)) = b

specs_apart :
    (rs : RefSpec)
    → In rs specs
    → (rs fetched.name ≢ some fetched.name) × (rs fetched.name ≢ some head_bytes)
unfolding reading_texts
specs_apart rs (inl q) = (
  λ h. omega (arith, ap first_of (ap (λ (f : RefSpec). f fetched.name) (sym q) ∙ h)),
  λ h. omega (arith, ap first_of (ap (λ (f : RefSpec). f fetched.name) (sym q) ∙ h)),
)
specs_apart rs (inr h) = absurd h

update_references-BranchUpdated_example : BranchUpdated texts_db specs fetched no_texts after_fetch
update_references-BranchUpdated_example =
    update_references-BranchUpdated texts_db texts_db-DbLaws specs fetched
      (to_hash branch_name tip tip-IsHash) is_fetched_branch no_texts 1 after_fetch true specs_apart
      fetch_run
