-- ===== src/MysqlFile/Roundtrip.antt =====
-- What is written to an open file is read back from its offset.
use test_perf.Prelude.{
  ℕ, ◌+◌, ◌≤◌, ◌<◌, ◌≡◌, refl, true, false, none, some, List, length, ltb, leb, take, drop, pos,
  arith,
}
use test_perf.Result.{ok}
use test_perf.MysqlFile.{
  File, Storage, found, is_read_and_write, read_at, read, written, write_at, write, seek,
  seek_start,
}
use test_perf.MysqlFile.Write.{written-at, written-length}

-- A file that is open for reading and writing at the offset `o`.
pub record Open (f : File) (o : ℕ) : Type 0 where
  pub open_eq : f.is_closed ≡ false
  pub mode_eq : is_read_and_write f.flag ≡ true
  pub at : f.position ≡ pos o

module _ {S : Type 0} (st : Storage S) where
  write_lem :
      (s s' : S) (f : File) (o : ℕ) (p : List ℕ)
      → Open f o
      → st.update_file_content s f.id (written f.content o p) ≡ some s'
      → write st s f p
        ≡ ok (
          s',
          record f { content = written f.content o p; position = pos (o + length p) },
          length p,
          none,
        )
  unfolding write write_at
  write_lem s s' f o p h u = rw (h.open_eq, h.mode_eq, h.at, u, h.at) refl

  read_at_lem :
      (f : File) (l o : ℕ)
      → f.is_closed ≡ false
      → is_read_and_write f.flag ≡ true
      → 0 < l
      → o + l ≤ length f.content
      → read_at f l (pos o) ≡ ok (take l (drop o f.content), none)
  unfolding read_at
  read_at_lem f l o c m h k =
      let e : leb (length f.content) o ≡ false = ground arith in
      let g : ltb (length f.content) (o + l) ≡ false = ground arith in rw (c, m, e, g) refl

  read_lem :
      (s : S) (f : File) (content p : List ℕ) (o : ℕ)
      → f.is_closed ≡ false
      → is_read_and_write f.flag ≡ true
      → st.get_file s f.path ≡ found content
      → 0 < length p
      → o + length p ≤ length content
      → take (length p) (drop o content) ≡ p
      → read st s (record f { position = pos o }) (length p)
        ≡ ok (record f { content = content; position = pos (o + length p) }, p, none)
  unfolding read
  read_lem s f content p o c m g h k e =
      rw
        (
          g,
          read,
          read_at_lem (record f { content = content; position = pos o }) (length p) o c m h k,
          e,
        )
        refl

  -- On a file open for reading and writing, if the update of the storage succeeds and it then holds
  -- the new content under the path, `Write` of some bytes, `Seek` back to the offset and `Read` of as
  -- many succeed, give these bytes, and leave the position where `Write` left it.
  pub read-write :
      (s s' : S) (f : File) (o : ℕ) (p : List ℕ)
      → Open f o
      → 0 < length p
      → st.update_file_content s f.id (written f.content o p) ≡ some s'
      → st.get_file s' f.path ≡ found (written f.content o p)
      → (f₁ : File) × (f₂ : File) × (f₃ : File) × (write st s f p ≡ ok (s', f₁, length p, none))
        × (seek f₁ (pos o) seek_start ≡ ok (f₂, pos o))
        × (read st s' f₂ (length p) ≡ ok (f₃, p, none))
        × (f₃.position ≡ f₁.position)
  unfolding seek
  read-write s s' f o p h l u g = (
    record f { content = written f.content o p; position = pos (o + length p) },
    record f { content = written f.content o p; position = pos o },
    record f { content = written f.content o p; position = pos (o + length p) },
    write_lem s s' f o p h u,
    rw (h.open_eq) refl,
    read_lem s' (record f { content = written f.content o p }) (written f.content o p) p o h.open_eq
        h.mode_eq g l (written-length f.content o p) (written-at f.content o p),
    refl,
  )
