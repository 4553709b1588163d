-- ===== src/WorktreeCommit/Outcome.antt =====
-- What `Commit` stores.
use mathlib.Core.Path.{subst}
use Prim.Native.String.{String}
use test_perf.Prelude.{
  ℕ, true, ◌≡◌, refl, sym, ap, ◌∙◌, Option, none, some, List, [], ◌∷◌, map, Bool-cases, inl, inr,
}
use test_perf.Result.{Result, ok, err, panic, out_of_fuel, has_unmerged_files}
use test_perf.Action.{Action, ◌>>=◌, pure, ignore, >>=-ok_inv}
use test_perf.TreeBuild.{build_tree}
use test_perf.WorktreeCommit.{
  RefTarget, hash_reference, symbolic_reference, head_name, merge_head_name, merge_head, map_ok,
  IndexItem, CommitObject, CommitOptions, CommitStore, reading, tree_item, none_left, unmerged,
  add_all, commit_entries, commit_tree, commit_from_index, commit_unless, finish_commit,
  commit_object, build_commit_object, update_head, remove_merge_head, remove_orig_head,
  commit_valid,
}

-- HEAD leads to the commit: where it is symbolic, the reference that it names was set to the commit, and
-- else HEAD itself.
pub data HeadMoved {W : Type 0} (io : CommitStore W) (h : ℕ) (w w' : W) : Type 0 where
  on_branch :
      (target : String)
      → io.reference "HEAD" w ≡ ok (symbolic_reference target)
      → io.set_reference target h w ≡ (w', ok tt)
      → HeadMoved io h w w'
  detached :
      (old : ℕ)
      → io.reference "HEAD" w ≡ ok (hash_reference old)
      → io.set_reference "HEAD" h w ≡ (w', ok tt)
      → HeadMoved io h w w'

-- MERGE_HEAD was removed if there was one.
pub data MergeClosed {W : Type 0} (io : CommitStore W) (w w' : W) : Type 0 where
  no_merge : merge_head io w ≡ ok none → w' ≡ w → MergeClosed io w w'
  removed :
      (m : ℕ)
      → merge_head io w ≡ ok (some m)
      → io.remove_reference "MERGE_HEAD" w ≡ (w', ok tt)
      → MergeClosed io w w'

-- What a commit that succeeds has done: there was no unmerged file, the changed files were added if the
-- options say so, the tree was built from the index, the commit was stored with that tree, the branch of
-- HEAD, or HEAD, was moved to it, and MERGE_HEAD removed.
pub record Stored {W : Type 0} (io : CommitStore W) (msg : String) (opts : CommitOptions) (w : W)
    (h : ℕ) : Type 0 where
  pub idx : List IndexItem
  pub object : CommitObject
  pub added : W
  pub built : W
  pub stored : W
  pub moved : W
  pub closed : W
  pub no_conflict : unmerged io w ≡ ok []
  pub adds : add_all io opts w ≡ (added, ok tt)
  pub reads_index : io.index added ≡ ok idx
  pub builds : build_tree io.set_tree (map tree_item idx) added ≡ (built, ok object.tree_hash)
  pub stores : io.set_commit object built ≡ (stored, ok h)
  pub moves_head : HeadMoved io h stored moved
  pub closes : MergeClosed io moved closed
  pub message : object.message ≡ msg
  pub parents : object.parent_hashes ≡ opts.parents
  pub author : opts.author ≡ some object.author
  pub committer : opts.committer ≡ some object.committer

module _ {W : Type 0} (io : CommitStore W) where
  reading_inv :
      {A : Type 0} (f : W → Result A) (w w' : W) (a : A)
      → reading io f w ≡ (w', ok a)
      → (w ≡ w') × (f w ≡ ok a)
  reading_inv f w w' a e = (ap (λ r. r.0) e, ap (λ r. r.1) e)

  head_to : ℕ → RefTarget → Action W (Unit {0})
  head_to c head = elim head [
    | hash_reference h ↦ io.set_reference head_name c
    | symbolic_reference target ↦ io.set_reference target c
  ]

  head_to-HeadMoved :
      (c : ℕ) (w w' : W) (t : RefTarget)
      → io.reference head_name w ≡ ok t
      → head_to c t w ≡ (w', ok tt)
      → HeadMoved io c w w'
  unfolding head_to
  head_to-HeadMoved c w w' (hash_reference h) e k = detached h e k
  head_to-HeadMoved c w w' (symbolic_reference target) e k = on_branch target e k

  update_head-HeadMoved :
      (c : ℕ) (w w' : W) → update_head io c w ≡ (w', ok tt) → HeadMoved io c w w'
  unfolding update_head head_to
  update_head-HeadMoved c w w' e =
      let (w₁, t, e₁, k₁) =
        >>=-ok_inv (reading io (io.reference head_name)) (head_to c) w w' tt e in
      let (q, r) = reading_inv (io.reference head_name) w w₁ t e₁ in
      head_to-HeadMoved c w w' t r (ap (head_to c t) q ∙ k₁)

  close_at : Option ℕ → Action W (Unit {0})
  close_at mh = elim mh [ none ↦ pure tt | some h ↦ io.remove_reference merge_head_name ]

  close_at-MergeClosed :
      (w w' : W) (mh : Option ℕ)
      → merge_head io w ≡ ok mh
      → close_at mh w ≡ (w', ok tt)
      → MergeClosed io w w'
  unfolding close_at
  close_at-MergeClosed w w' none e k = no_merge e (ap (λ r. r.0) (sym k))
  close_at-MergeClosed w w' (some m) e k = removed m e k

  remove_merge_head-MergeClosed :
      (w w' : W) → remove_merge_head io w ≡ (w', ok tt) → MergeClosed io w w'
  unfolding remove_merge_head close_at
  remove_merge_head-MergeClosed w w' e =
      let (w₁, mh, e₁, k₁) = >>=-ok_inv (reading io (merge_head io)) close_at w w' tt e in
      let (q, r) = reading_inv (merge_head io) w w₁ mh e₁ in
      close_at-MergeClosed w w' mh r (ap (close_at mh) q ∙ k₁)

  none_left-nil : {A : Type 0} (l : List A) → none_left l ≡ true → l ≡ []
  none_left-nil [] h = refl
  none_left-nil (a ∷ l) h = cc

  -- The commit object has what the options and the arguments say.
  abbrev AsTold : String → CommitOptions → ℕ → CommitObject → Type 0
  AsTold msg opts tree c =
      (c.message ≡ msg)
      × (c.parent_hashes ≡ opts.parents)
      × (opts.author ≡ some c.author)
      × (opts.committer ≡ some c.committer)
      × (c.tree_hash ≡ tree)

  commit_object-AsTold :
      (msg : String) (opts : CommitOptions) (tree : ℕ) (c : CommitObject)
      → commit_object io msg opts tree ≡ ok c
      → AsTold msg opts tree c
  unfolding commit_object
  commit_object-AsTold msg opts tree c e = at opts.author opts.committer opts.sign_key e
    where
      same :
          (c₀ : CommitObject)
          → c₀ ≡ c
          → (c.message ≡ c₀.message)
            × (c.parent_hashes ≡ c₀.parent_hashes)
            × (some c₀.author ≡ some c.author)
            × (some c₀.committer ≡ some c.committer)
            × (c.tree_hash ≡ c₀.tree_hash)
      same c₀ q = (
        ap (λ (x : CommitObject). x.message) (sym q),
        ap (λ (x : CommitObject). x.parent_hashes) (sym q),
        ap (λ (x : CommitObject). some x.author) q,
        ap (λ (x : CommitObject). some x.committer) q,
        ap (λ (x : CommitObject). x.tree_hash) (sym q),
      )

      signed :
          (c₀ : CommitObject) (r : Result String)
          → map_ok (λ sig. record c₀ { pgp_signature = sig }) r ≡ ok c
          → (c.message ≡ c₀.message)
            × (c.parent_hashes ≡ c₀.parent_hashes)
            × (some c₀.author ≡ some c.author)
            × (some c₀.committer ≡ some c.committer)
            × (c.tree_hash ≡ c₀.tree_hash)
      signed c₀ (ok sig) e =
          let q : record c₀ { pgp_signature = sig } ≡ c = cc (e) in
          same (record c₀ { pgp_signature = sig }) q
      signed c₀ (err x) e = cc
      signed c₀ panic e = cc
      signed c₀ out_of_fuel e = cc

      at :
          (a m : Option String) (k : Option ℕ)
          → commit_object io msg (record opts { author = a; committer = m; sign_key = k }) tree
            ≡ ok c
          → AsTold msg (record opts { author = a; committer = m; sign_key = k }) tree c
      at none m k e = cc
      at (some a) none k e = cc
      at (some a) (some m) none e =
          let c₀ : CommitObject = record {
            author = a;
            committer = m;
            message = msg;
            tree_hash = tree;
            parent_hashes = opts.parents;
            pgp_signature = "";
          } in
          let q : c₀ ≡ c = cc (e) in same c₀ q
      at (some a) (some m) (some k) e =
          let c₀ : CommitObject = record {
            author = a;
            committer = m;
            message = msg;
            tree_hash = tree;
            parent_hashes = opts.parents;
            pgp_signature = "";
          } in
          signed c₀ (io.sign c₀ k) e

  finish_commit_inv :
      (c h : ℕ) (w w' : W)
      → finish_commit io c w ≡ (w', ok h)
      → (c ≡ h)
        × (moved : W) × (closed : W) × (update_head io c w ≡ (moved, ok tt))
        × (remove_merge_head io moved ≡ (closed, ok tt))
  unfolding finish_commit
  finish_commit_inv c h w w' e =
      let done : Unit {0} → Action W ℕ = λ _. pure c in
      let orig : Unit {0} → Action W ℕ = λ _. ignore (remove_orig_head io) >>= done in
      let text : Unit {0} → Action W ℕ = λ _. ignore io.remove_merge_msg >>= orig in
      let merging : Unit {0} → Action W ℕ = λ _. remove_merge_head io >>= text in
      let (moved, a, e₁, k₁) = >>=-ok_inv (update_head io c) merging w w' h e in
      let (closed, b, e₂, k₂) = >>=-ok_inv (remove_merge_head io) text moved w' h k₁ in
      let (w₃, u, e₃, k₃) = >>=-ok_inv (ignore io.remove_merge_msg) orig closed w' h k₂ in
      let (w₄, v, e₄, k₄) = >>=-ok_inv (ignore (remove_orig_head io)) done w₃ w' h k₃ in
      let same : c ≡ h = cc (k₄) in (same, moved, closed, e₁, e₂)

  -- The steps from the building of the tree on.
  abbrev Finished : String → CommitOptions → List IndexItem → W → ℕ → Type 0
  Finished msg opts idx w h =
      (c : CommitObject) × (built : W) × (stored : W) × (moved : W) × (closed : W) × (build_tree
          io.set_tree (map tree_item idx) w
        ≡ (built, ok c.tree_hash))
      × (io.set_commit c built ≡ (stored, ok h))
      × (update_head io h stored ≡ (moved, ok tt))
      × (remove_merge_head io moved ≡ (closed, ok tt))
      × AsTold msg opts c.tree_hash c

  build_commit_object_inv :
      (msg : String) (opts : CommitOptions) (tree h : ℕ) (w w' : W)
      → build_commit_object io msg opts tree w ≡ (w', ok h)
      → (c : CommitObject) × (io.set_commit c w ≡ (w', ok h)) × AsTold msg opts tree c
  unfolding build_commit_object
  build_commit_object_inv msg opts tree h w w' e =
      let (w₁, c, e₁, k₁) =
        >>=-ok_inv (reading io (λ w. commit_object io msg opts tree)) io.set_commit w w' h e in
      let (q, o) = reading_inv (λ w. commit_object io msg opts tree) w w₁ c e₁ in
      (c, ap (io.set_commit c) q ∙ k₁, commit_object-AsTold msg opts tree c o)

  commit_tree_inv :
      (msg : String) (opts : CommitOptions) (tree h : ℕ) (w w' : W)
      → commit_tree io msg opts tree w ≡ (w', ok h)
      → (c : CommitObject) × (stored : W) × (moved : W) × (closed : W) × (io.set_commit c w
          ≡ (stored, ok h))
        × (update_head io h stored ≡ (moved, ok tt))
        × (remove_merge_head io moved ≡ (closed, ok tt))
        × AsTold msg opts tree c
  unfolding commit_tree
  commit_tree_inv msg opts tree h w w' e =
      let (w₁, n, e₁, k₁) =
        >>=-ok_inv (build_commit_object io msg opts tree) (finish_commit io) w w' h e in
      let (same, moved, closed, f₁, f₂) = finish_commit_inv n h w₁ w' k₁ in
      let (c, s, told) =
        build_commit_object_inv msg opts tree h w w₁
          (subst (λ x. build_commit_object io msg opts tree w ≡ (w₁, ok x)) same e₁) in
      (c, w₁, moved, closed, s, subst (λ x. update_head io x w₁ ≡ (moved, ok tt)) same f₁, f₂, told)

  commit_entries_inv :
      (msg : String) (opts : CommitOptions) (idx : List IndexItem) (w w' : W) (h : ℕ)
      → commit_entries io msg opts idx w ≡ (w', ok h)
      → Finished msg opts idx w h
  unfolding commit_entries
  commit_entries_inv msg opts idx w w' h e =
      let (w₁, tree, e₁, k₁) =
        >>=-ok_inv (build_tree io.set_tree (map tree_item idx)) (commit_tree io msg opts) w w' h
          e in
      let (c, stored, moved, closed, s, f₁, f₂, (m, ps, au, co, tr)) =
        commit_tree_inv msg opts tree h w₁ w' k₁ in
      (
        c,
        w₁,
        stored,
        moved,
        closed,
        subst (λ t. build_tree io.set_tree (map tree_item idx) w ≡ (w₁, ok t)) (sym tr) e₁,
        s,
        f₁,
        f₂,
        (m, ps, au, co, refl),
      )

  commit_from_index_inv :
      (msg : String) (opts : CommitOptions) (w w' : W) (h : ℕ)
      → commit_from_index io msg opts tt w ≡ (w', ok h)
      → (idx : List IndexItem) × (io.index w ≡ ok idx) × Finished msg opts idx w h
  unfolding commit_from_index
  commit_from_index_inv msg opts w w' h e =
      let (w₁, idx, e₁, k₁) =
        >>=-ok_inv (reading io io.index) (commit_entries io msg opts) w w' h e in
      let (q, i) = reading_inv io.index w w₁ idx e₁ in
      (idx, i, commit_entries_inv msg opts idx w w' h (ap (commit_entries io msg opts idx) q ∙ k₁))

  commit_unless-Stored :
      (msg : String) (opts : CommitOptions) (w w' : W) (h : ℕ)
      → unmerged io w ≡ ok []
      → (add_all io opts >>= commit_from_index io msg opts) w ≡ (w', ok h)
      → Stored io msg opts w h
  commit_unless-Stored msg opts w w' h n e =
      let (w₁, u, e₁, k₁) = >>=-ok_inv (add_all io opts) (commit_from_index io msg opts) w w' h e in
      let (idx, i, (c, built, stored, moved, closed, b, s, f₁, f₂, (m, ps, au, co, tr))) =
        commit_from_index_inv msg opts w₁ w' h k₁ in
      record {
        idx = idx;
        object = c;
        added = w₁;
        built = built;
        stored = stored;
        moved = moved;
        closed = closed;
        no_conflict = n;
        adds = e₁;
        reads_index = i;
        builds = b;
        stores = s;
        moves_head = update_head-HeadMoved h stored moved f₁;
        closes = remove_merge_head-MergeClosed moved closed f₂;
        message = m;
        parents = ps;
        author = au;
        committer = co;
      }

  pub commit_valid-Stored :
      (msg : String) (opts : CommitOptions) (w w' : W) (h : ℕ)
      → commit_valid io msg opts w ≡ (w', ok h)
      → Stored io msg opts w h
  unfolding commit_valid commit_unless
  commit_valid-Stored msg opts w w' h e =
      let (w₁, left, e₁, k₁) =
        >>=-ok_inv (reading io (unmerged io)) (commit_unless io msg opts) w w' h e in
      let (q, l) = reading_inv (unmerged io) w w₁ left e₁ in
      elim (Bool-cases (none_left left)) [
        | inr n ↦
            let no : commit_unless io msg opts left w₁ ≡ (w₁, err has_unmerged_files) = rw n refl in
            cc (no, k₁)
        | inl n ↦
            let yes : commit_unless io msg opts left w₁
                ≡ (add_all io opts >>= commit_from_index io msg opts) w₁ =
              rw n refl in
            commit_unless-Stored msg opts w w' h (l ∙ ap ok (none_left-nil left n))
              (ap (add_all io opts >>= commit_from_index io msg opts) q ∙ sym yes ∙ k₁)
      ]
