-- ===== src/Repository/Update.antt =====
-- What the storer has after an update of references.
use mathlib.Core.List.{append_cancel_right}
use test_perf.Prelude.{
  ◌≡◌, ◌≢◌, ◌↔◌, refl, sym, ap, ◌∙◌, inl, inr, Bool, true, false, ◌||◌, List, [], ◌∷◌, ◌++◌,
  if◌then◌else◌, Bool-cases,
}
use test_perf.Result.{Result, Error, ok, err, panic, out_of_fuel, reference_not_found}
use test_perf.Action.{◌>>=◌, pure, >>=-ok_inv}
use test_perf.FilePath.{same_name}
use test_perf.FilePath.Same.{same_name_iff}
use test_perf.Hash.{Bytes, Reference, strings, new_reference_from_strings}
use test_perf.Hash.Roundtrip.{IsStored, new_reference_from_strings-strings}
use test_perf.Repository.{
  RefDb, reference_string, set_updated, update_from, update_if_needed, update_all,
}

-- A storer that gives back what was set, under its name, and has only references that can be stored.
pub record DbLaws {W : Type 0} (db : RefDb W) : Type 0 where
  pub set_get :
      (r : Reference) (s s' : W)
      → IsStored r
      → db.set r s ≡ (s', ok tt)
      → (n : Bytes) → db.reference n s' ≡ (if same_name r.name n then ok r else db.reference n s)
  pub well_stored :
      (n : Bytes) (s : W) (p : Reference) → db.reference n s ≡ ok p → IsStored p × (p.name ≡ n)

append_cancel : (a b c : Bytes) → a ++ 32 ∷ c ≡ b ++ 32 ∷ c → a ≡ b
append_cancel a b c h = append_cancel_right a b (32 ∷ c) h

reference_string-inj :
    (r p : Reference)
    → IsStored r
    → IsStored p
    → p.name ≡ r.name
    → reference_string r ≡ reference_string p
    → r ≡ p
unfolding reference_string strings
reference_string-inj r p sr sp n h =
    let target : (strings r).1 ≡ (strings p).1 =
      append_cancel (strings r).1 (strings p).1 r.name (h ∙ ap (λ x. (strings p).1 ++ 32 ∷ x) n) in
    sym (new_reference_from_strings-strings sr)
    ∙ (λ i. new_reference_from_strings (sym n i, target i))
    ∙ new_reference_from_strings-strings sp

-- What the storer has under a name after references were set, the last one counting.
abbrev pub written : List Reference → Bytes → Result Reference → Result Reference
written [] n o = o
written (r ∷ refs) n o = written refs n (if same_name r.name n then ok r else o)

abbrev pub AllStored : List Reference → Type 0
AllStored [] = Unit
AllStored (r ∷ refs) = IsStored r × AllStored refs

-- What a call of `updateReferenceStorerIfNeeded` that succeeds comes to: the storer has the reference,
-- and the others as before; it answers `false` exactly if the reference was there, and changes nothing
-- then.
pub record Updated {W : Type 0} (db : RefDb W) (r : Reference) (s s' : W) (b : Bool) : Type 0 where
  pub now :
      (n : Bytes) → db.reference n s' ≡ (if same_name r.name n then ok r else db.reference n s)
  pub same : b ≡ false → s ≡ s'
  pub was : (b ≡ false) ↔ (db.reference r.name s ≡ ok r)

module _ {W : Type 0} (db : RefDb W) (laws : DbLaws db) where
  set_updated_inv :
      (r : Reference) (s s' : W) (b : Bool)
      → set_updated db r s ≡ (s', ok b)
      → (db.set r s ≡ (s', ok tt)) × (b ≡ true)
  set_updated_inv r s s' b h =
      let (s₁, u, e, k) = >>=-ok_inv (db.set r) (λ u. pure true) s s' b h in
      let q : s₁ ≡ s' = ap (λ x. x.0) k in
      let t : b ≡ true = cc (k) in (e ∙ ap (λ x. (x, ok tt)) q, t)

  Updated-set :
      (r : Reference) (s s' : W) (b : Bool)
      → IsStored r
      → db.reference r.name s ≢ ok r
      → set_updated db r s ≡ (s', ok b)
      → Updated db r s s' b
  Updated-set r s s' b st differs h =
      let (e, t) = set_updated_inv r s s' b h in
      record {
        now = laws.set_get r s s' st e;
        same = λ f. cc (t, f);
        was = (λ f. cc (t, f), λ g. absurd (differs g));
      }

  update_from-Updated :
      (r : Reference) (s s' : W) (b : Bool) (o : Result Reference)
      → IsStored r
      → db.reference r.name s ≡ o
      → update_from db r o s ≡ (s', ok b)
      → Updated db r s s' b
  unfolding update_from
  update_from-Updated r s s' b (ok p) st e h =
      let (stp, n) = laws.well_stored r.name s p e in
      elim (Bool-cases (same_name (reference_string r) (reference_string p))) [
        | inl t ↦
            let q : r ≡ p =
              reference_string-inj r p st stp n
                ((same_name_iff (reference_string r) (reference_string p)).0 t) in
            let here : db.reference r.name s ≡ ok r = e ∙ ap ok (sym q) in
            let k : update_from db r (ok p) s ≡ (s, ok false) = rw t refl in
            let ss : s ≡ s' = ap (λ x. x.0) (sym k ∙ h) in
            let f : b ≡ false = cc (k, h) in
            record {
              now = λ n. sym (ap (db.reference n) ss) ∙ unchanged n here;
              same = λ _. ss;
              was = (λ _. here, λ _. f);
            }
        | inr t ↦
            let k : update_from db r (ok p) s ≡ set_updated db r s = rw t refl in
            Updated-set r s s' b st
              (λ g.
                let q : p ≡ r = cc (g, e) in
                let same : same_name (reference_string r) (reference_string p) ≡ true =
                  (same_name_iff (reference_string r) (reference_string p)).1
                    (ap reference_string (sym q)) in
                cc (same, t))
              (sym k ∙ h)
      ]
    where
      unchanged :
          (n : Bytes)
          → db.reference r.name s ≡ ok r
          → db.reference n s ≡ (if same_name r.name n then ok r else db.reference n s)
      unchanged n here = elim (Bool-cases (same_name r.name n)) [
        | inl t ↦
            let q : r.name ≡ n = (same_name_iff r.name n).0 t in
            rw t (ap (λ m. db.reference m s) (sym q) ∙ here)
        | inr t ↦ rw t refl
      ]
  update_from-Updated r s s' b (err x) st e h = at x e h
    where
      at :
          (x : Error)
          → db.reference r.name s ≡ err x
          → update_from db r (err x) s ≡ (s', ok b)
          → Updated db r s s' b
      at reference_not_found e h = Updated-set r s s' b st (λ g. cc (g, e)) h
      at x e h = cc
  update_from-Updated r s s' b panic st e h = cc
  update_from-Updated r s s' b out_of_fuel st e h = cc

  -- On a storer that gives references back as they were set, a call of `updateReferenceStorerIfNeeded` that
  -- succeeds leaves the reference under its name and all others as they were; it returns `false` exactly if
  -- the reference was there already, and changes nothing then.
  pub update_if_needed-Updated :
      (r : Reference) (s s' : W) (b : Bool)
      → IsStored r
      → update_if_needed db r s ≡ (s', ok b)
      → Updated db r s s' b
  unfolding update_if_needed
  update_if_needed-Updated r s s' b st h =
      update_from-Updated r s s' b (db.reference r.name s) st refl h

  pub update_all-written :
      (refs : List Reference) (s s' : W) (b : Bool)
      → AllStored refs
      → update_all db refs s ≡ (s', ok b)
      → (n : Bytes) → db.reference n s' ≡ written refs n (db.reference n s)
  unfolding update_all
  update_all-written [] s s' b st h n = ap (λ x. db.reference n x.0) (sym h)
  update_all-written (r ∷ refs) s s' b (st, sts) h n =
      let (s₁, u, e, k) =
        >>=-ok_inv (update_if_needed db r) (λ u. update_all db refs >>= λ v. pure (u || v)) s s' b
          h in
      let (s₂, v, e₂, k₂) = >>=-ok_inv (update_all db refs) (λ v. pure (u || v)) s₁ s' b k in
      let q : s₂ ≡ s' = ap (λ x. x.0) k₂ in
      ap (db.reference n) (sym q)
      ∙ update_all-written refs s₁ s₂ v sts e₂ n
      ∙ ap (written refs n) ((update_if_needed-Updated r s s₁ u st e).now n)
