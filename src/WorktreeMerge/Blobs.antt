-- ===== src/WorktreeMerge/Blobs.antt =====
-- The blobs of an unfinished merge, by path and stage.
use test_perf.Prelude.{
  true, false, ◌≡◌, refl, ℕ, Option, none, some, List, [], ◌∷◌, String, str_eq, eq_iff,
  if◌then◌else◌, ◌==◌, arith, ==_iff, Bool-cases, inl, inr,
}
use test_perf.Result.{Result, ok, err, read_failed, file_not_found}
use test_perf.StringMap.{find, put, find-put, find-put_ne}
use test_perf.WorktreeMerge.{
  Stage, merged, Blob, BlobInfo, Blobs, update_blob, add_or_update_blob_to_cache, find_blob,
  read_file_by_stage,
}

-- Reading a blob.
abbrev pub content : Blob → Result (List ℕ)
content b = elim b.reader [ none ↦ err read_failed | some r ↦ ok r ]

-- What a cache has under a path and a stage.
abbrev held : Option (List BlobInfo) → Stage → Result (List ℕ)
held none st = err file_not_found
held (some blobs) st = find_blob st blobs

abbrev entries : Blobs → List (String × List BlobInfo)
entries none = []
entries (some m) = m

find_blob-update_blob :
    (path : String) (b : Blob) (st st' : Stage) (blobs : List BlobInfo)
    → find_blob st' (update_blob path b st blobs)
      ≡ (if st == st' then content b else find_blob st' blobs)
unfolding find_blob update_blob
find_blob-update_blob path b st st' [] = refl
find_blob-update_blob path b st st' (i ∷ blobs) = elim (Bool-cases (i.stage == st)) [
  | inl e ↦ elim (Bool-cases (st == st')) [
    | inl f ↦
        let g : (i.stage == st') ≡ true = ground (arith, ==_iff i.stage st, ==_iff st st') in
        rw (e, f, g) refl
    | inr f ↦
        let g : (i.stage == st') ≡ false = ground (arith, ==_iff i.stage st, ==_iff st st') in
        rw (e, f, g) refl
  ]
  | inr e ↦ elim (Bool-cases (i.stage == st')) [
    | inl g ↦
        let f : (st == st') ≡ false = ground (arith, ==_iff i.stage st', ==_iff st st') in
        rw (e, f, g) refl
    | inr g ↦ rw (e, g) (find_blob-update_blob path b st st' blobs)
  ]
]

read-cached :
    (open_file : String → Result (List ℕ)) (cache : Blobs) (p : String) (st : Stage)
    → st == merged ≡ false
    → read_file_by_stage open_file cache p st ≡ held (find p (entries cache)) st
unfolding read_file_by_stage
read-cached open_file none p st h = rw h refl
read-cached open_file (some m) p st h = rw h (at (find p m))
  where
    at :
        (o : Option (List BlobInfo))
        → (elim o as (λ x. Result (List ℕ)) [
          | none ↦ err file_not_found
          | some blobs ↦ find_blob st blobs
        ])
          ≡ held o st
    at none = refl
    at (some blobs) = refl

-- The list of blobs under a path, once one more is added.
abbrev with_blob : String → Blob → Stage → Option (List BlobInfo) → List BlobInfo
with_blob path b st none = record { path = path; stage = st; blob = b } ∷ []
with_blob path b st (some blobs) = update_blob path b st blobs

entries-add_or_update_blob_to_cache :
    (cache : Blobs) (path : String) (b : Blob) (st : Stage)
    → entries (add_or_update_blob_to_cache cache path b st)
      ≡ put path (with_blob path b st (find path (entries cache))) (entries cache)
unfolding add_or_update_blob_to_cache
entries-add_or_update_blob_to_cache none path b st = refl
entries-add_or_update_blob_to_cache (some m) path b st = at (find path m)
  where
    at :
        (o : Option (List BlobInfo))
        → entries (elim o as (λ x. Blobs) [
          | none ↦ some (put path (record { path = path; stage = st; blob = b } ∷ []) m)
          | some blobs ↦ some (put path (update_blob path b st blobs) m)
        ])
          ≡ put path (with_blob path b st o) m
    at none = refl
    at (some blobs) = refl

held-with_blob :
    (path : String) (b : Blob) (st st' : Stage) (o : Option (List BlobInfo))
    → held (some (with_blob path b st o)) st' ≡ (if st == st' then content b else held o st')
unfolding find_blob
held-with_blob path b st st' none = refl
held-with_blob path b st st' (some blobs) = find_blob-update_blob path b st st' blobs

-- After `addOrUpdateBlobToCache` of a blob, `ReadFileByStage` reads that blob under its path and
-- stage, and under another path or another stage of the merge what it has read before.
pub read_file_by_stage-add_or_update_blob_to_cache :
    (open_file : String → Result (List ℕ)) (cache : Blobs) (path p : String) (b : Blob)
    (st st' : Stage)
    → st' == merged ≡ false
    → read_file_by_stage open_file (add_or_update_blob_to_cache cache path b st) p st' ≡ (
        if str_eq path p
        then (if st == st' then content b else read_file_by_stage open_file cache p st')
        else read_file_by_stage open_file cache p st')
read_file_by_stage-add_or_update_blob_to_cache open_file cache path p b st st' h =
    rw
      (
        read-cached open_file (add_or_update_blob_to_cache cache path b st) p st' h,
        read-cached open_file cache p st' h,
        entries-add_or_update_blob_to_cache cache path b st,
      )
      (elim (Bool-cases (str_eq path p)) [
        | inl e ↦
            let q : path ≡ p = (eq_iff path p).0 e in
            rw (e, q, find-put p (with_blob p b st (find p (entries cache))) (entries cache))
              (held-with_blob p b st st' (find p (entries cache)))
        | inr e ↦
            rw
              (
                e,
                find-put_ne p path (with_blob path b st (find path (entries cache))) (entries cache)
                    e,
              )
              refl
      ])
