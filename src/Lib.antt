-- ===== src/Lib.antt =====
-- A Go implementation of git (go-git), with a filesystem over MySQL and a three-way merge of its
-- own.
--
-- The parts that are modelled, and where:
-- * myers_differer.go, the difference of two files (Myers): Myers.antt has `get_shortest_path`
--   (GetShortestPath), `backtrack` (Backtrack) and `diff` (Diff). Myers/Furthest is the recurrence
--   without arrays, Myers/Trace relates the array to it, Myers/Walk and Myers/Backtrack read the
--   walk back, Myers/Script and Myers/Shortest state what Diff returns.
-- * diff3.go, the three-way merge of a file, which calls the differ twice: Diff3.antt has `merge`
--   (Merge), `setup`, `write_chunks` and what these call. Diff3/Resolve is the rule for one chunk,
--   Diff3/Chunk relates writeChunk to it. Diff3/Matches is getMatches of what Diff returns,
--   Diff3/Tiling says how the files are divided, Diff3/Search and Diff3/Loop are the loop of
--   writeChunks, Diff3/Merge, Diff3/Clean and Diff3/Errors are Merge as a whole.
-- * buffer_lru.go, the cache of buffers: BufferLru.antt has `put` (Put), `get` (Get) and `clear`
--   (Clear). BufferLru/Elements is about the list, BufferLru/Evict the eviction loop,
--   BufferLru/Valid and BufferLru/Lookup the operations.
-- * filesystem.go, flagHelper.go and contract.go, an open file of the MySQL filesystem:
--   MysqlFile.antt has `read`, `read_at`, `write`, `write_at`, `seek`, `truncate`, `close` and
--   `duplicate` (the methods of File). MysqlFile/Write is about the content, MysqlFile/Roundtrip
--   and MysqlFile/Truncate about sequences of calls.
-- * storage.go, the files of the filesystem in a table, and `FileDB` of contract.go:
--   MysqlStorage.antt has `new_file` (NewFile), `get_file`, `children`, `rename_file`,
--   `remove_file`, `update_file_content` (the methods of storage) over a database `Db` that is a
--   parameter. MysqlStorage/Table says what its statements do when it is a table,
--   MysqlStorage/Memory is such a database, MysqlStorage/Ends is about the calls of NewFile of
--   itself, MysqlStorage/Remove about GetFile and RemoveFile, MysqlStorage/Content about an open
--   file on the table, MysqlStorage/Rename and MysqlStorage/RenameDir about RenameFile.
-- * filesystem.go, the filesystem over the storage: MysqlFs.antt has `open_file` (OpenFile),
--   `stat`, `read_dir`, `symlink` and the other methods of Mysqlfs. MysqlFs/Links is about
--   symbolic links.
-- * worktree_priority_queue.go, the queue of commits: CommitQueue.antt has `less`, `swap`, `push`,
--   `pop` and `interesting`. CommitQueue/Indexed is about the indexes of its items.
-- * worktree_merge.go, the search for the common parents of two commits: MergeBase.antt has
--   `get_common_parents` (getCommonParents) over the queue of commits, with `heap_push` and
--   `heap_pop` as in `container/heap`. MergeBase/Flags is about the bits of the marks,
--   MergeBase/Heap and MergeBase/Sift about the heap, MergeBase/Marks and MergeBase/Ancestors
--   about the search.
-- * worktree_merge.go, worktree_commit.go and worktree.go, the merge of work trees:
--   WorktreeMerge.antt has `conflict_entries` (ConflictEntries), `get_unmerged_files`,
--   `read_file_by_stage` and the cache of blobs; WorktreeMerge/Files has what is done to files
--   (`merge_files`, which calls the merge of Diff3.antt, `copy_file_to_ours`, `get_blob`),
--   WorktreeMerge/Compare `compare_commits_changes`, WorktreeMerge/Reset `reset_index`
--   (resetIndex). WorktreeMerge/Entries and WorktreeMerge/Blobs are about the index and the cache,
--   WorktreeMerge/Compare/Outcome and WorktreeMerge/Compare/Paths about the comparison.
--   StringMap.antt is the map from strings. MergeMsg.antt has `log_merge_conflicts`,
--   MergeMsg/Conflicts is about it. MergeSteps.antt has `merge_branch` (Merge) and
--   `non_fast_forward_merge`, MergeSteps/Ends is about what their end says.
-- * worktree_commit.go, the trees of a commit: TreeBuild.antt has `build_tree` (BuildTree) with
--   `commit_index_entry`, `do_build_tree` and `copy_tree` (copyTreeToStorageRecursive) over a
--   storer that is a parameter. TreeBuild/Walk says what trees lead to along a path,
--   TreeBuild/Grow, TreeBuild/Valid, TreeBuild/Index and TreeBuild/Entries are about the trees of
--   the helper, TreeBuild/Copy and TreeBuild/Stored about those of the storer, TreeBuild/Names and
--   TreeBuild/Order about BuildTree as a whole.
-- * worktree_commit.go with parts of options.go, repository.go and worktree_merge.go, the commit
--   of a work tree: WorktreeCommit.antt has `commit` (Commit), which reads the unmerged files as
--   WorktreeMerge.antt has it and builds the tree as TreeBuild.antt has it, `validate` (Validate
--   of CommitOptions), `update_head` (updateHEAD) and `abort_merge` (AbortMerge).
--   WorktreeCommit/Options is about its options, WorktreeCommit/Outcome about its steps,
--   WorktreeCommit/Whole and WorktreeCommit/Unmerged about Commit as a whole.
-- * worktree.go and options.go, checkout: Checkout.antt has `checkout` (Checkout), `reset` (Reset)
--   and what they do to references, over a storer of references that is a parameter.
--   Checkout/References is about Reset, Checkout/Head about HEAD after Checkout.
-- * hash.go and reference.go: Hash.antt has `new_hash` (NewHash), `hash_string` (String),
--   `new_reference_from_strings` and `strings` (Strings); Hash/Roundtrip is about them.
-- * repository.go, the references after a fetch: Repository.antt has `update_references`
--   (updateReferences), `update_if_needed` (updateReferenceStorerIfNeeded) and
--   `resolve_to_commit_hash`, over a storer of references that is a parameter. Repository/Update
--   is about one reference, Repository/Extras about those that the specs of a remote add, and
--   Repository/Branch about a branch that was fetched.
-- * status.go, the status of files: Status.antt has `file`, `is_untracked`, `is_clean`, `lines`
--   (String) and `string` (the method of StatusCode); Status/Codes is about them.
--
-- Loops: a counted loop recurs on the rounds left, with the code's own bound. The run of equal
-- lines has `len(a) - x` rounds at most, since its test reads `a[x]`. The loop of writeChunks has a
-- round for each line of the three files and one more; getNextMismatch has one for each line of the
-- base and one more. The eviction loop of Put takes an entry away in each round, so it has a round
-- for each entry and one more.
--
-- NewFile calls itself for the directory above; its fuel counts the names of the path. OpenFile,
-- Stat and ReadDir call themselves for the target of a link; their fuel counts the links. The
-- search for the common parents has a round for each visit of a commit, of which there are at most
-- as many as the ranks of the two commits. copyTreeToStorageRecursive calls itself for the trees
-- of directories; its fuel counts the names of the longest path and one more. resolveToCommitHash
-- calls itself for the target of a tag; its fuel counts the tags. Action.antt has the monad of
-- calls that change a state and may fail, FilePath.antt what is used of `path/filepath` on Unix.
--
-- Not modelled: the connection to the database and the creation of the table (newStorage), and the
-- wrapper New of a library. What `bufio.Scanner` delivers of a blob, and which writes to the
-- temporary file of the merge fail, are parameters, and the removal of that file after an error is
-- left out. Of the merge of work trees the repository, the index with addConflictFile, and the
-- file system are a parameter; createVirtualParent and mergeCommits are left out. Of commits the
-- encoding, the signature, Status and Add are parameters, and of Checkout the diffs, resetIndex
-- and resetWorktree, which a storer of references has nothing to do with; the index of a commit is
-- that of the storer. What sorts and hashes the trees of BuildTree changes in its map of trees is
-- not read again and left out. Names are compared by code points. Two open files that share one
-- array of bytes are left out. Sizes in the cache are not negative, with sums below 2^63.
-- PROJECT.json lists the other parts of the program.
pub mod Prelude
pub mod Result
pub mod Myers
pub mod Diff3
pub mod Action
pub mod StringMap
pub mod FilePath
pub mod BufferLru
pub mod MysqlFile
pub mod MysqlStorage
pub mod MysqlFs
pub mod CommitQueue
pub mod MergeBase
pub mod Status
pub mod WorktreeMerge
pub mod MergeMsg
pub mod MergeSteps
pub mod TreeBuild
pub mod WorktreeCommit
pub mod Hash
pub mod Checkout
pub mod Repository
mod Tests
