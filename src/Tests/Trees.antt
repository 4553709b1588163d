-- ===== src/Tests/Trees.antt =====
-- Runs of the building of trees.
use mathlib.Core.Path.{subst}
use test_perf.Prelude.{
  ℕ, zero, suc, arith, ◌≢◌, ◌≡◌, ◌↔◌, refl, sym, ap, false, some, List, [], ◌∷◌, ◌++◌, length,
  get_elem?, inl, inr,
}
use test_perf.Result.{ok}
use test_perf.Action.{Action}
use test_perf.FilePath.{Name, same_name, dot, dot_dot, clean_step, clean_from}
use test_perf.TreeBuild.{
  IndexEntry, TreeEntry, dir_mode, parts, path_join, append_to, do_build_tree, commit_parts,
  commit_index_entry, commit_index, name_lt, sort_name, less_entry, insert_entry, sort_entries,
  copy_entries, copy_tree, build_tree,
}
use test_perf.TreeBuild.Walk.{All, All-snoc, In, entry, Leads, Proper}
use test_perf.TreeBuild.Index.{Listed}
use test_perf.TreeBuild.Entries.{IsTidy}
use test_perf.TreeBuild.Copy.{Extends, Stores}
use test_perf.TreeBuild.Names.{build_tree-Leads}
use test_perf.TreeBuild.Order.{Ascending, build_tree-Ascending}

building : Unit {0}
unfolding clean_step clean_from path_join append_to do_build_tree commit_parts commit_index_entry
    commit_index name_lt sort_name less_entry insert_entry sort_entries copy_entries copy_tree
    build_tree
building = tt

-- A storer of trees: the hash of a tree is its place.
abbrev StoredTrees : Type 0
StoredTrees = List (List TreeEntry)

abbrev set_tree : List TreeEntry → Action StoredTrees ℕ
set_tree es s = (s ++ es ∷ [], ok (length s))

-- The files `d/b`, `a` and `d.c`.
abbrev files : List IndexEntry
files =
    record { name = 100 ∷ 47 ∷ 98 ∷ []; mode = 33188; hash = 7 }
    ∷ record { name = 97 ∷ []; mode = 33188; hash = 8 }
    ∷ record { name = 100 ∷ 46 ∷ 99 ∷ []; mode = 33188; hash = 9 }
    ∷ []

build_run : build_tree set_tree files [] ≡ (
  (entry (98 ∷ []) 33188 7 ∷ [])
      ∷ (entry (97 ∷ []) 33188 8
          ∷ entry (100 ∷ 46 ∷ 99 ∷ []) 33188 9
          ∷ entry (100 ∷ []) dir_mode 0
          ∷ [])
      ∷ [],
  ok 1,
)
unfolding building
build_run = refl

get_elem?-append_last :
    (s : StoredTrees) (es : List TreeEntry) → get_elem? (s ++ es ∷ []) (length s) ≡ some es
get_elem?-append_last [] es = refl
get_elem?-append_last (x ∷ s) es = get_elem?-append_last s es

get_elem?-append_old :
    (s : StoredTrees) (es : List TreeEntry) (k : ℕ) (ts : List TreeEntry)
    → get_elem? s k ≡ some ts
    → get_elem? (s ++ es ∷ []) k ≡ some ts
get_elem?-append_old [] es k ts h = cc
get_elem?-append_old (x ∷ s) es zero ts h = h
get_elem?-append_old (x ∷ s) es (suc k) ts h = get_elem?-append_old s es k ts h

set_tree-Stores : Stores set_tree (get_elem? {A = List TreeEntry})
set_tree-Stores = record {
  stored =
      λ es s. (s ++ es ∷ [], length s, refl, get_elem?-append_last s es, get_elem?-append_old s es);
}

abbrev d_b : IndexEntry
d_b = record { name = 100 ∷ 47 ∷ 98 ∷ []; mode = 33188; hash = 7 }

abbrev only_a : IndexEntry
only_a = record { name = 97 ∷ []; mode = 33188; hash = 8 }

abbrev d_c : IndexEntry
d_c = record { name = 100 ∷ 46 ∷ 99 ∷ []; mode = 33188; hash = 9 }

every_file :
    (P : IndexEntry → Type 0) → P d_b → P only_a → P d_c → (e : IndexEntry) → In e files → P e
every_file P x y z e (inl q) = subst P (sym q) x
every_file P x y z e (inr (inl q)) = subst P (sym q) y
every_file P x y z e (inr (inr (inl q))) = subst P (sym q) z
every_file P x y z e (inr (inr (inr h))) = absurd h

proper :
    {n : Name}
    → same_name n [] ≡ false
    → same_name n dot ≡ false
    → same_name n dot_dot ≡ false
    → Proper n
proper p q r = record { not_empty = p; not_dot = q; not_dot_dot = r }

abbrev first_byte : List Name → ℕ
first_byte ((b ∷ n) ∷ ns) = b
first_byte _ = 0

Below : IndexEntry → IndexEntry → Type 0
Below e d = (x : Name) (r : List Name) → parts d ≢ parts e ++ x ∷ r

files-IsTidy : IsTidy files
unfolding Below
files-IsTidy = record {
  clean =
      every_file (λ e. All Proper (parts e)) (proper refl refl refl, (proper refl refl refl, tt))
        (proper refl refl refl, tt) (proper refl refl refl, tt);
  file =
      every_file (λ e. (e.mode ≢ dir_mode) × (e.hash ≢ 0)) (λ h. omega arith, λ h. omega arith)
        (λ h. omega arith, λ h. omega arith) (λ h. omega arith, λ h. omega arith);
  apart = λ d e x r i j.
      every_file (λ e. (d : IndexEntry) → In d files → Below e d)
        (every_file (Below d_b) (λ x r h. cc) (λ x r h. omega (arith, ap first_byte h))
          (λ x r h. cc))
        (every_file (Below only_a) (λ x r h. omega (arith, ap first_byte h)) (λ x r h. cc)
          (λ x r h. omega (arith, ap first_byte h)))
        (every_file (Below d_c) (λ x r h. cc) (λ x r h. omega (arith, ap first_byte h))
          (λ x r h. cc))
        e j d i x r;
}

build_tree-Leads_example :
    (s' : StoredTrees) × (root : ℕ) × (build_tree set_tree files [] ≡ (s', ok root))
    × Extends (get_elem? []) (get_elem? s')
    × ((r : List Name) (m k : ℕ) → Leads (get_elem? s') root r m k ↔ Listed r m k files)
build_tree-Leads_example = build_tree-Leads set_tree get_elem? set_tree-Stores files files-IsTidy []

abbrev IsOrdered : List TreeEntry → Type 0
IsOrdered es = Ascending es

build_tree-Ascending_example : All IsOrdered (build_tree set_tree files []).0
build_tree-Ascending_example =
    build_tree-Ascending (All IsOrdered) set_tree (λ es s q o. All-snoc IsOrdered s es q o) files []
      tt
