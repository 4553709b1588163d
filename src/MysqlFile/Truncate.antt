-- ===== src/MysqlFile/Truncate.antt =====
-- `Truncate` changes the open file only: a read goes by what the storage holds.
use test_perf.Prelude.{
  ℕ, ◌-◌, ◌≡◌, refl, Bool-cases, inl, inr, List, ◌++◌, length, ltb, take, replicate, ℤ, pos, negsuc,
}
use test_perf.Result.{ok}
use test_perf.MysqlFile.{File, Storage, found, read, truncate}

module _ {S : Type 0} (st : Storage S) (s : S) where
  read_content :
      (f : File) (held content : List ℕ) (l : ℕ)
      → st.get_file s f.path ≡ found held
      → read st s (record f { content = content }) l ≡ read st s f l
  unfolding read
  read_content f held content l g = rw (g, read) refl

  truncate_content :
      (f f' : File) (size : ℤ)
      → truncate f size ≡ ok f'
      → (content : List ℕ) × (f' ≡ record f { content = content })
  unfolding truncate
  truncate_content f f' (negsuc n) h = cc
  truncate_content f f' (pos n) h = elim (Bool-cases (ltb n (length f.content))) [
    | inl e ↦ (take n f.content, cc (rw e at h))
    | inr e ↦ (f.content ++ replicate (n - length f.content) 0, cc (rw e at h))
  ]

  -- If the storage has the file and `Truncate` returns, a read after it comes out as without it.
  pub read-truncate :
      (f f' : File) (held : List ℕ) (size : ℤ) (l : ℕ)
      → st.get_file s f.path ≡ found held
      → truncate f size ≡ ok f'
      → read st s f' l ≡ read st s f l
  read-truncate f f' held size l g h =
      let (content, e) = truncate_content f f' size h in rw e (read_content f held content l g)
