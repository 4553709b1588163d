-- ===== src/MysqlFile.antt =====
-- filesystem.go and flagHelper.go: an open file of the MySQL filesystem.
--
-- The storage is a parameter: what it holds under a path, and the update of a content by id. A byte
-- is a number; a slice of bytes is its value. Offsets do not reach 2^63.
pub mod Write
pub mod Roundtrip
pub mod Truncate
use test_perf.Prelude.{
  ℕ, zero, suc, ◌+◌, ◌-◌, ◌/◌, ◌%◌, ◌^◌, String, Bool, true, false, not, ◌&&◌, Option, none, some,
  List, [], ◌∷◌, ◌++◌, ltb, leb, ◌==◌, if◌then◌else◌, length, take, drop, replicate, ℤ, pos, negsuc,
  ◌+ℤ◌,
}
use test_perf.FilePath.{Name, FilePath}
use test_perf.Result.{
  Result, Error, ok, err, panic, ◌>>=◌, closed, read_unsupported, write_unsupported, eof,
  storage_failed,
}

-- `flag & bit != 0` for the bit with the number `i`
abbrev pub has_bit : ℕ → ℕ → Bool
has_bit flag i = flag / 2 ^ i % 2 == 1

-- The numbers of the bits are those of the `os` package on Linux.
abbrev pub is_append : ℕ → Bool
is_append flag = has_bit flag 10

abbrev pub is_truncate : ℕ → Bool
is_truncate flag = has_bit flag 9

abbrev pub is_read_and_write : ℕ → Bool
is_read_and_write flag = has_bit flag 1

abbrev pub is_read_only : ℕ → Bool
is_read_only flag = flag == 0

abbrev pub is_write_only : ℕ → Bool
is_write_only flag = has_bit flag 0

pub record File : Type 0 where
  pub id : ℕ
  pub parent_id : ℕ
  pub file_name : Name
  pub path : FilePath
  pub content : List ℕ
  pub position : ℤ
  pub flag : ℕ
  pub mode : ℕ
  pub is_closed : Bool

-- What `GetFile` returns: an error, a nil file, or a file with its content.
pub data Found : Type 0 where
  failed missing : Found
  found : List ℕ → Found

-- The operations of `Storage` that an open file calls; `none` is an error.
pub record Storage (S : Type 0) : Type 0 where
  pub get_file : S → FilePath → Found
  pub update_file_content : S → ℕ → List ℕ → Option S

pub data Whence : Type 0 where
  seek_start seek_current seek_end : Whence

-- `ReadAt` into a buffer of `l` bytes: the bytes read, and the error beside them. A slice from a
-- negative offset panics.
unfoldable pub read_at : File → ℕ → ℤ → Result (List ℕ × Option Error)
read_at f l off =
    if f.is_closed
    then ok ([], some closed)
    else if not (is_read_and_write f.flag) && not (is_read_only f.flag)
    then ok ([], some read_unsupported)
    else elim off [
      | negsuc o ↦ panic
      | pos o ↦
          if leb (length f.content) o
          then ok ([], some eof)
          else if ltb (length f.content) (o + l)
          then ok (drop o f.content, some eof)
          else ok (take l (drop o f.content), none)
    ]

abbrev pub is_eof : Option Error → Bool
is_eof (some eof) = true
is_eof _ = false

-- `Read` and what it leaves of the file.
unfoldable pub read :
    {S : Type 0} → Storage S → S → File → ℕ → Result (File × List ℕ × Option Error)
read st s f l = elim (st.get_file s f.path) [
  | failed ↦ ok (f, [], some storage_failed)
  | missing ↦ panic
  | found content ↦ do
    let f₁ : File = record f { content = content }
    (bytes, e) ← read_at f₁ l f.position
    ok (
      record f₁ { position = f.position +ℤ pos (length bytes) },
      bytes,
      if is_eof e && not (length bytes == 0) then none else e,
    )
]

-- The content after `WriteAt` at `o`: the bytes behind the written ones are still in the array.
unfoldable pub written : List ℕ → ℕ → List ℕ → List ℕ
written content o p =
    let padded = content ++ replicate (o - length content) 0 in
    if ltb (o + length p) (length content)
    then take o padded ++ (p ++ drop (o + length p) content)
    else take o padded ++ p

unfoldable pub write_at : File → List ℕ → Result (File × ℕ)
write_at f p = elim f.position [
  | negsuc o ↦ panic
  | pos o ↦ ok (record f { content = written f.content o p }, length p)
]

unfoldable pub seek : File → ℤ → Whence → Result (File × ℤ)
seek f offset whence =
    if f.is_closed
    then err closed
    else let p : ℤ = elim whence [
      | seek_current ↦ f.position +ℤ offset
      | seek_start ↦ offset
      | seek_end ↦ pos (length f.content) +ℤ offset
    ] in
      ok (record f { position = p }, p)

-- `Write` and what it leaves of the storage and of the file, which has changed also where the update
-- fails.
unfoldable pub write :
    {S : Type 0} → Storage S → S → File → List ℕ → Result (S × File × ℕ × Option Error)
write st s f p =
    if f.is_closed
    then ok (s, f, 0, some closed)
    else if not (is_read_and_write f.flag) && not (is_write_only f.flag)
    then ok (s, f, 0, some write_unsupported)
    else (do
      (f₁, n) ← write_at f p
      let f₂ : File = record f₁ { position = f₁.position +ℤ pos n }
      elim (st.update_file_content s f₂.id f₂.content) [
        | none ↦ ok (s, f₂, 0, some storage_failed)
        | some s' ↦ ok (s', f₂, n, none)
      ])

unfoldable pub close : File → Result File
close f = if f.is_closed then err closed else ok (record f { is_closed = true })

-- A size below 0 makes the slice panic.
unfoldable pub truncate : File → ℤ → Result File
truncate f size = elim size [
  | negsuc n ↦ panic
  | pos n ↦
      if ltb n (length f.content)
      then ok (record f { content = take n f.content })
      else ok (record f { content = f.content ++ replicate (n - length f.content) 0 })
]

unfoldable pub duplicate : File → ℕ → ℕ → File
duplicate f mode flag = record {
  id = f.id;
  parent_id = f.parent_id;
  file_name = f.file_name;
  path = f.path;
  content = if is_truncate flag then [] else f.content;
  position = if is_append flag then pos (length f.content) else f.position;
  flag = flag;
  mode = mode;
  is_closed = false;
}
