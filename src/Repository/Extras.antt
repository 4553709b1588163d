-- ===== src/Repository/Extras.antt =====
-- The references that the specs of a remote add.
use mathlib.Core.Path.{subst}
use test_perf.Prelude.{
  ◌≡◌, ◌≢◌, refl, sym, ap, ◌∙◌, ◌⊎◌, inl, inr, true, false, Option, none, some, List, [], ◌∷◌,
  if◌then◌else◌, Bool-cases, arith,
}
use test_perf.Result.{Result, ok, err, reference_not_found}
use test_perf.FilePath.{same_name}
use test_perf.FilePath.Same.{same_name_iff}
use test_perf.TreeBuild.Walk.{In}
use test_perf.Hash.{Bytes, Reference, zero_bytes, new_symbolic_reference, new_hash_reference}
use test_perf.Hash.Roundtrip.{IsHash, IsStored, to_hash, to_name}
use test_perf.Repository.{RefDb, RefSpec, is_missing, remote_head, calculate_remote_head_reference}
use test_perf.Repository.Update.{written, AllStored}

pub same_name-ne : (m n : Bytes) → m ≢ n → same_name m n ≡ false
same_name-ne m n h = elim (Bool-cases (same_name m n)) [
  | inl e ↦ absurd (h ((same_name_iff m n).0 e))
  | inr e ↦ e
]

zero_bytes-IsHash : IsHash zero_bytes
zero_bytes-IsHash = record { size = refl; bytes = omega arith }

hash-IsHash : {r : Reference} → IsStored r → IsHash r.hash
unfolding new_hash_reference new_symbolic_reference
hash-IsHash (to_hash n h v) = v
hash-IsHash (to_name n target) = zero_bytes-IsHash

-- The name of a reference that is made for a hash.
hash_reference-name : (n h : Bytes) → (new_hash_reference n h).name ≡ n
unfolding new_hash_reference
hash_reference-name n h = refl

module _ {W : Type 0} (db : RefDb W) (w : W) where
  remote_head-cases :
      (h : Bytes) (o : Option Bytes) (rest : List Reference)
      → (remote_head db w h o rest ≡ rest)
        ⊎ ((name : Bytes) × (o ≡ some name)
            × (is_missing db (db.reference name w) ≡ true)
            × (remote_head db w h o rest ≡ new_hash_reference name h ∷ rest))
  unfolding remote_head
  remote_head-cases h none rest = inl refl
  remote_head-cases h (some name) rest = elim (Bool-cases (is_missing db (db.reference name w))) [
    | inl e ↦ inr (name, refl, e, rw e refl)
    | inr e ↦ inl (rw e refl)
  ]

  is_missing-not_found :
      (o : Result Reference) → is_missing db o ≡ true → o ≡ err reference_not_found
  unfolding is_missing
  is_missing-not_found (err reference_not_found) h = refl
  is_missing-not_found _ h = cc

  remote_head-is_missing :
      (h : Bytes) (o : Option Bytes) (name : Bytes) (rest : List Reference)
      → o ≡ some name
      → db.reference name w ≡ err reference_not_found
      → remote_head db w h o rest ≡ new_hash_reference name h ∷ rest
  unfolding remote_head is_missing
  remote_head-is_missing h none name rest q e = cc
  remote_head-is_missing h (some m) name rest q e =
      let k : m ≡ name = cc (q) in
      let f : db.reference m w ≡ err reference_not_found = ap (λ x. db.reference x w) k ∙ e in
      ap (λ o. if is_missing db o then new_hash_reference m h ∷ rest else rest) f
      ∙ ap (λ x. new_hash_reference x h ∷ rest) k

  module _ (r : Reference) (stored : IsStored r) where
    abbrev extras : List RefSpec → List Reference
    extras spec = calculate_remote_head_reference db w spec r

    pub extras-AllStored : (spec : List RefSpec) → AllStored (extras spec)
    unfolding calculate_remote_head_reference
    extras-AllStored [] = tt
    extras-AllStored (rs ∷ spec) = elim (remote_head-cases r.hash (rs r.name) (extras spec)) [
      | inl e ↦ subst AllStored (sym e) (extras-AllStored spec)
      | inr (name, q, _, e) ↦
          subst AllStored (sym e) (to_hash name r.hash (hash-IsHash stored), extras-AllStored spec)
    ]

    -- A name that no spec leads to is not written.
    pub written-extras_other :
        (spec : List RefSpec) (n : Bytes) (o : Result Reference)
        → ((rs : RefSpec) → In rs spec → rs r.name ≢ some n)
        → written (extras spec) n o ≡ o
    unfolding calculate_remote_head_reference
    written-extras_other [] n o h = refl
    written-extras_other (rs ∷ spec) n o h =
        let ih = written-extras_other spec n o (λ x i. h x (inr i)) in
        elim (remote_head-cases r.hash (rs r.name) (extras spec)) [
          | inl e ↦ ap (λ l. written l n o) e ∙ ih
          | inr (name, q, _, e) ↦
              let ne : same_name (new_hash_reference name r.hash).name n ≡ false =
                ap (λ m. same_name m n) (hash_reference-name name r.hash)
                ∙ same_name-ne name n (λ k. h rs (inl refl) (q ∙ ap some k)) in
              ap (λ l. written l n o) e
              ∙ ap
                  (λ t.
                    written (extras spec) n (if t then ok (new_hash_reference name r.hash) else o))
                  ne
              ∙ ih
        ]

    -- A name under which the storer has something is not written.
    pub written-extras_existing :
        (spec : List RefSpec) (n : Bytes) (o : Result Reference)
        → db.reference n w ≢ err reference_not_found
        → written (extras spec) n o ≡ o
    unfolding calculate_remote_head_reference
    written-extras_existing [] n o h = refl
    written-extras_existing (rs ∷ spec) n o h =
        let ih = written-extras_existing spec n o h in
        elim (remote_head-cases r.hash (rs r.name) (extras spec)) [
          | inl e ↦ ap (λ l. written l n o) e ∙ ih
          | inr (name, q, m, e) ↦
              let ne : same_name (new_hash_reference name r.hash).name n ≡ false =
                ap (λ m. same_name m n) (hash_reference-name name r.hash)
                ∙ same_name-ne name n
                    (λ k. h (ap (λ x. db.reference x w) (sym k) ∙ is_missing-not_found _ m)) in
              ap (λ l. written l n o) e
              ∙ ap
                  (λ t.
                    written (extras spec) n (if t then ok (new_hash_reference name r.hash) else o))
                  ne
              ∙ ih
        ]

    -- A reference for the hash stays.
    written-extras_same :
        (spec : List RefSpec) (n : Bytes)
        → written (extras spec) n (ok (new_hash_reference n r.hash))
          ≡ ok (new_hash_reference n r.hash)
    unfolding calculate_remote_head_reference
    written-extras_same [] n = refl
    written-extras_same (rs ∷ spec) n = elim (remote_head-cases r.hash (rs r.name) (extras spec)) [
      | inl e ↦
          ap (λ l. written l n (ok (new_hash_reference n r.hash))) e ∙ written-extras_same spec n
      | inr (name, q, _, e) ↦
          ap (λ l. written l n (ok (new_hash_reference n r.hash))) e
          ∙ ap (written (extras spec) n) (again name (hash_reference-name name r.hash))
          ∙ written-extras_same spec n
    ]
      where
        again :
            (name : Bytes)
            → (new_hash_reference name r.hash).name ≡ name
            → (if same_name (new_hash_reference name r.hash).name n
                then ok (new_hash_reference name r.hash)
                else ok (new_hash_reference n r.hash))
              ≡ ok (new_hash_reference n r.hash)
        again name k = elim (Bool-cases (same_name (new_hash_reference name r.hash).name n)) [
          | inl t ↦
              let q : name ≡ n =
                sym k ∙ (same_name_iff (new_hash_reference name r.hash).name n).0 t in
              rw t (ap (λ m. ok (new_hash_reference m r.hash)) q)
          | inr t ↦ rw t refl
        ]

    -- A name that a spec leads to, and that is not there, is written.
    pub written-extras_new :
        (spec : List RefSpec) (n : Bytes) (o : Result Reference) (rs : RefSpec)
        → In rs spec
        → rs r.name ≡ some n
        → db.reference n w ≡ err reference_not_found
        → written (extras spec) n o ≡ ok (new_hash_reference n r.hash)
    unfolding calculate_remote_head_reference
    written-extras_new [] n o rs i q e = absurd i
    written-extras_new (x ∷ spec) n o rs (inl k) q e =
        ap (λ l. written l n o)
          (remote_head-is_missing r.hash (x r.name) n (extras spec)
            (ap (λ (f : RefSpec). f r.name) (sym k) ∙ q) e)
        ∙ ap (λ t. written (extras spec) n (if t then ok (new_hash_reference n r.hash) else o))
            (ap (λ m. same_name m n) (hash_reference-name n r.hash) ∙ (same_name_iff n n).1 refl)
        ∙ written-extras_same spec n
    written-extras_new (x ∷ spec) n o rs (inr i) q e =
        let ih = λ (x : Result Reference). written-extras_new spec n x rs i q e in
        elim (remote_head-cases r.hash (x r.name) (extras spec)) [
          | inl k ↦ ap (λ l. written l n o) k ∙ ih o
          | inr (name, _, _, k) ↦ ap (λ l. written l n o) k ∙ ih _
        ]
