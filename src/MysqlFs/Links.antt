-- ===== src/MysqlFs/Links.antt =====
-- Symbolic links under `OpenFile`, `Stat` and `ReadDir`.
use test_perf.Prelude.{
  ℕ, zero, suc, ◌+◌, ◌≡◌, ◌≢◌, ◌∙◌, refl, ap, Bool, true, false, not, List, [], ◌∷◌, ◌++◌, ◌==◌,
  length, Option, none, some, if◌then◌else◌, Bool-cases, inl, inr, arith,
}
use test_perf.Result.{Result, ok, err, out_of_fuel, is_directory, not_exist}
use test_perf.Action.{Action, ◌>>=◌, pure, fail, >>=-ok, >>=-out_of_fuel}
use test_perf.FilePath.{
  Name, FilePath, clean, dir, dir_of, base, base_of, filled, last, dot, init, join, slash, split,
}
use test_perf.MysqlFile.{File, duplicate}
use test_perf.MysqlStorage.{Db, is_dir, path_is, get_file}
use test_perf.MysqlStorage.Table.{keep, IsTable}
use test_perf.MysqlStorage.Remove.{first, get_file_lem}
use test_perf.MysqlFs.{
  FileInfo, is_symlink, is_abs, stat_file, resolve_link, opened, open_file, stat, read_dir,
}

-- Where a link leads: to the path that is its content if that starts with a slash, and else to the path
-- that follows the directory of the link, which is its own path without the name in the end.
pub data LeadsTo : FilePath → List ℕ → FilePath → Type 0 where
  absolute : (p : FilePath) (bs : List ℕ) → LeadsTo p (slash ∷ bs) (split (slash ∷ bs))
  relative :
      (rooted : Bool) (ns : List Name) (n : Name) (bs : List ℕ)
      → ((cs : List ℕ) → bs ≢ slash ∷ cs)
      → LeadsTo
          (record { rooted = rooted; elems = ns ++ n ∷ [] })
          bs
          (clean (record {
            rooted = rooted;
            elems = (clean (record { rooted = rooted; elems = ns })).elems ++ (split bs).elems;
          }))

init-append : (ns : List Name) (n : Name) → init (ns ++ n ∷ []) ≡ ns
init-append [] n = refl
init-append (a ∷ []) n = refl
init-append (a ∷ b ∷ ns) n = ap (◌∷◌ a) (init-append (b ∷ ns) n)

not_absolute : (bs : List ℕ) → ((cs : List ℕ) → bs ≢ slash ∷ cs) → is_abs bs ≡ false
not_absolute [] h = refl
not_absolute (b ∷ bs) h = elim (Bool-cases (b == slash)) [
  | inr e ↦ e
  | inl e ↦ let q : b ≡ slash = ground arith in absurd (h bs (ap (λ x. x ∷ bs) q))
]

-- What `resolve_link` gives, on the mode and the content.
link_of : FilePath → Bool → List ℕ → FilePath × Bool
link_of p l bs =
    if not l
    then (p, false)
    else if not (is_abs bs)
    then (join (dir_of p) (split bs).elems, true)
    else (split bs, true)

link_of-LeadsTo :
    (p : FilePath) (bs : List ℕ) (q : FilePath) → LeadsTo p bs q → link_of p true bs ≡ (q, true)
unfolding link_of join dir_of dir clean
link_of-LeadsTo _ _ _ (absolute p bs) = refl
link_of-LeadsTo _ _ _ (relative rooted ns n bs h) = rw (not_absolute bs h, init-append ns n) refl

resolve_link-LeadsTo :
    (p q : FilePath) (f : File)
    → is_symlink f.mode ≡ true
    → LeadsTo p f.content q
    → resolve_link p f ≡ (q, true)
unfolding resolve_link link_of
resolve_link-LeadsTo p q f l h = ap (λ b. link_of p b f.content) l ∙ link_of-LeadsTo p f.content q h

filled-append :
    (ns : List Name) (b : ℕ) (n : Name) → filled (ns ++ (b ∷ n) ∷ []) ≡ filled ns ++ (b ∷ n) ∷ []
filled-append [] b n = refl
filled-append ([] ∷ ns) b n = filled-append ns b n
filled-append ((a ∷ m) ∷ ns) b n = ap (◌∷◌ (a ∷ m)) (filled-append ns b n)

last-append : (ns : List Name) (n d : Name) → last (ns ++ n ∷ []) d ≡ n
last-append [] n d = refl
last-append (m ∷ ns) n d = last-append ns n m

base_of-append :
    (rooted : Bool) (ns : List Name) (b : ℕ) (n : Name)
    → base_of (record { rooted = rooted; elems = ns ++ (b ∷ n) ∷ [] }) ≡ b ∷ n
unfolding base_of base
base_of-append rooted ns b n =
    ap (λ l. last l (if rooted then slash ∷ [] else dot)) (filled-append ns b n)
    ∙ last-append (filled ns) (b ∷ n) (if rooted then slash ∷ [] else dot)

resolve_link_lem : (p : FilePath) (f : File) → (resolve_link p f).1 ≡ is_symlink f.mode
unfolding resolve_link
resolve_link_lem p f = ground arith

module _ {S : Type 0} (db : Db S) (t : IsTable db) where
  -- The file that the table has under the path.
  abbrev pub stored : S → FilePath → Option File
  stored s p = first (keep (path_is (clean p)) (t.rows s))

  abbrev pub IsLink : S → FilePath → FilePath → Type 0
  IsLink s p q =
      (f : File) × (stored s p ≡ some f) × (is_symlink f.mode ≡ true) × LeadsTo p f.content q

  abbrev pub EndsAt : S → FilePath → File → Type 0
  EndsAt s p f = (stored s p ≡ some f) × (is_symlink f.mode ≡ false)

  -- From one path to another along so many links.
  pub data Links (s : S) : FilePath → ℕ → FilePath → Type 0 where
    here : (p : FilePath) → Links s p 0 p
    along : (p r q : FilePath) (n : ℕ) → IsLink s p r → Links s r n q → Links s p (suc n) q

  open_file-IsLink :
      (depth fuel : ℕ) (s : S) (p q : FilePath) (flag perm : ℕ)
      → IsLink s p q
      → open_file db depth (suc fuel) p flag perm s ≡ open_file db depth fuel q flag perm s
  unfolding open_file
  open_file-IsLink depth fuel s p q flag perm (f, h, l, e) =
      cc (get_file_lem db t s p, h, resolve_link-LeadsTo p q f l e)

  -- `Stat` once the file is there.
  stat_file_of : ℕ → FilePath → Option File → Action S FileInfo
  stat_file_of fuel p found = elim found [
    | none ↦ fail not_exist
    | some f ↦
        let link = resolve_link p f in
        (do
          info ← (if link.1 then stat db fuel link.0 else pure (stat_file f))
          pure (record info { file_name = base_of p }))
  ]

  stat-stored :
      (fuel : ℕ) (s : S) (p : FilePath)
      → stat db (suc fuel) p s ≡ stat_file_of fuel p (stored s p) s
  unfolding stat stat_file_of
  stat-stored fuel s p =
      >>=-ok (get_file db p) (stat_file_of fuel p) s s (stored s p) (get_file_lem db t s p)

  stat_onward :
      (fuel : ℕ) (s : S) (p q : FilePath)
      → IsLink s p q
      → stat db (suc fuel) p s
        ≡ (stat db fuel q >>= λ info. pure (record info { file_name = base_of p })) s
  unfolding stat_file_of
  stat_onward fuel s p q (f, h, l, e) =
      stat-stored fuel s p ∙ rw (h, resolve_link-LeadsTo p q f l e) refl

  stat-IsLink :
      (fuel : ℕ) (s : S) (p q : FilePath) (i : FileInfo)
      → IsLink s p q
      → stat db fuel q s ≡ (s, ok i)
      → stat db (suc fuel) p s ≡ (s, ok (record i { file_name = base_of p }))
  stat-IsLink fuel s p q i l run =
      stat_onward fuel s p q l
      ∙ >>=-ok (stat db fuel q) (λ info. pure (record info { file_name = base_of p })) s s i run

  read_dir-IsLink :
      (fuel : ℕ) (s : S) (p q : FilePath)
      → IsLink s p q
      → read_dir db (suc fuel) p s ≡ read_dir db fuel q s
  unfolding read_dir
  read_dir-IsLink fuel s p q (f, h, l, e) =
      cc (get_file_lem db t s p, h, resolve_link-LeadsTo p q f l e)

  -- `OpenFile` of a path from which so many links lead to another is `OpenFile` of that one.
  open_file-Links :
      (depth fuel : ℕ) (s : S) (p q : FilePath) (n flag perm : ℕ)
      → Links s p n q
      → open_file db depth (n + fuel) p flag perm s ≡ open_file db depth fuel q flag perm s
  open_file-Links depth fuel s p q n flag perm (here _) =
      let k : 0 + fuel ≡ fuel = omega arith in rw k refl
  open_file-Links depth fuel s p q _ flag perm (along _ r _ n l ls) =
      let k : suc n + fuel ≡ suc (n + fuel) = omega arith in
      rw k refl
      ∙ open_file-IsLink depth (n + fuel) s p r flag perm l
      ∙ open_file-Links depth fuel s r q n flag perm ls

  opened-EndsAt :
      (depth fuel : ℕ) (s : S) (p : FilePath) (f : File) (flag perm : ℕ)
      → EndsAt s p f
      → open_file db depth (suc fuel) p flag perm s ≡ opened db flag perm f s
  unfolding open_file
  opened-EndsAt depth fuel s p f flag perm (h, l) =
      cc (get_file_lem db t s p, h, l, resolve_link_lem p f)

  -- What `OpenFile` gives at the end of the links.
  abbrev pub opened_as : S → ℕ → ℕ → File → S × Result File
  opened_as s flag perm f =
      if is_dir f.mode then (s, err is_directory) else (s, ok (duplicate f perm flag))

  opened_lem :
      (s : S) (flag perm : ℕ) (f : File) → opened db flag perm f s ≡ opened_as s flag perm f
  unfolding opened
  opened_lem s flag perm f = elim (Bool-cases (is_dir f.mode)) [
    | inl e ↦ rw e refl
    | inr e ↦ rw e refl
  ]

  -- If `n` links lead from a path to one that holds a file and no link, then with fuel for `n + 1`
  -- rounds or more `OpenFile` of the path gives the duplicate of that file, or the error for a directory
  -- if it is one.
  pub open_file-EndsAt :
      (depth fuel : ℕ) (s : S) (p q : FilePath) (n flag perm : ℕ) (f : File)
      → Links s p n q
      → EndsAt s q f
      → open_file db depth (n + suc fuel) p flag perm s ≡ opened_as s flag perm f
  open_file-EndsAt depth fuel s p q n flag perm f ls e =
      open_file-Links depth (suc fuel) s p q n flag perm ls
      ∙ opened-EndsAt depth fuel s q f flag perm e
      ∙ opened_lem s flag perm f

  stat_at :
      (fuel : ℕ) (s : S) (p : FilePath) (f : File)
      → EndsAt s p f
      → stat db (suc fuel) p s ≡ (s, ok (record (stat_file f) { file_name = base_of p }))
  unfolding stat_file_of
  stat_at fuel s p f (h, l) = stat-stored fuel s p ∙ rw (h, resolve_link_lem p f, l) refl

  stat-Links :
      (fuel : ℕ) (s : S) (p q : FilePath) (n : ℕ) (f : File)
      → Links s p n q
      → EndsAt s q f
      → stat db (n + suc fuel) p s ≡ (s, ok (record (stat_file f) { file_name = base_of p }))
  stat-Links fuel s p q n f (here _) e =
      let k : 0 + suc fuel ≡ suc fuel = omega arith in rw k (stat_at fuel s p f e)
  stat-Links fuel s p q _ f (along _ r _ n l ls) e =
      let k : suc n + suc fuel ≡ suc (n + suc fuel) = omega arith in
      rw k (stat-IsLink (n + suc fuel) s p r _ l (stat-Links fuel s r q n f ls e))

  -- If `n` links lead from a path to one that holds a file and no link, then with fuel for `n + 1` rounds or
  -- more `Stat` of the path gives the mode and the size of that file, under the last name of the path that
  -- was asked for.
  pub stat-EndsAt :
      (fuel : ℕ) (s : S) (rooted : Bool) (ns : List Name) (b : ℕ) (name : Name) (q : FilePath)
      (n : ℕ) (f : File)
      → Links s (record { rooted = rooted; elems = ns ++ (b ∷ name) ∷ [] }) n q
      → EndsAt s q f
      → stat db (n + suc fuel) (record { rooted = rooted; elems = ns ++ (b ∷ name) ∷ [] }) s ≡ (
        s,
        ok (record { file_name = b ∷ name; file_mode = f.mode; file_size = length f.content }),
      )
  unfolding stat_file
  stat-EndsAt fuel s rooted ns b name q n f ls e =
      stat-Links fuel s (record { rooted = rooted; elems = ns ++ (b ∷ name) ∷ [] }) q n f ls e
      ∙ rw (base_of-append rooted ns b name) refl

  -- Paths that are links to one another and lead nowhere else.
  abbrev pub IsCycle : S → (FilePath → Type 0) → Type 0
  IsCycle s In = (p : FilePath) → In p → (q : FilePath) × IsLink s p q × In q

  open_file_cycle :
      (s : S) (In : FilePath → Type 0) (p : FilePath) (depth fuel flag perm : ℕ)
      → IsCycle s In
      → In p
      → open_file db depth fuel p flag perm s ≡ (s, out_of_fuel)
  unfolding open_file
  open_file_cycle s In p depth zero flag perm c i = refl
  open_file_cycle s In p depth (suc fuel) flag perm c i =
      let (q, l, j) = c p i in
      open_file-IsLink depth fuel s p q flag perm l
      ∙ open_file_cycle s In q depth fuel flag perm c j

  stat_cycle :
      (s : S) (In : FilePath → Type 0) (p : FilePath) (fuel : ℕ)
      → IsCycle s In
      → In p
      → stat db fuel p s ≡ (s, out_of_fuel)
  unfolding stat
  stat_cycle s In p zero c i = refl
  stat_cycle s In p (suc fuel) c i =
      let (q, l, j) = c p i in
      stat_onward fuel s p q l
      ∙ >>=-out_of_fuel (stat db fuel q) (λ info. pure (record info { file_name = base_of p })) s s
          (stat_cycle s In q fuel c j)

  read_dir_cycle :
      (s : S) (In : FilePath → Type 0) (p : FilePath) (fuel : ℕ)
      → IsCycle s In
      → In p
      → read_dir db fuel p s ≡ (s, out_of_fuel)
  unfolding read_dir
  read_dir_cycle s In p zero c i = refl
  read_dir_cycle s In p (suc fuel) c i =
      let (q, l, j) = c p i in read_dir-IsLink fuel s p q l ∙ read_dir_cycle s In q fuel c j

  -- On a path among links that lead only to one another `OpenFile`, `Stat` and `ReadDir` end with no
  -- fuel: they call themselves for ever.
  pub open_file-IsCycle :
      (s : S) (In : FilePath → Type 0) (p : FilePath) (depth fuel flag perm : ℕ)
      → IsCycle s In
      → In p
      → (open_file db depth fuel p flag perm s ≡ (s, out_of_fuel))
        × (stat db fuel p s ≡ (s, out_of_fuel))
        × (read_dir db fuel p s ≡ (s, out_of_fuel))
  open_file-IsCycle s In p depth fuel flag perm c i = (
    open_file_cycle s In p depth fuel flag perm c i,
    stat_cycle s In p fuel c i,
    read_dir_cycle s In p fuel c i,
  )
