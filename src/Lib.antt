-- ===== src/Lib.antt =====
-- The core of the freephite command line program (apps/cli): the engine that keeps a stack of git
-- branches, the parser that builds its cache, and the actions that drive it; and of the interactive
-- program beside it (apps/gti-client, apps/gti-server): operations, repositories and messages.
--
-- The program stores for every branch, under refs/branch-metadata/, which branch is its parent and
-- at which revision of the parent it starts. At its start the parser reads these into a cache.
-- The engine answers queries from the cache, runs git, and writes the metadata of the
-- branches back; the actions call the engine, ask the user, and leave a continuation file when
-- a rebase conflicts.
--
-- Which file models what:
--   Base               shared names: tests, lists as JavaScript arrays, dictionaries
--   Base/Action        calls that change state and may throw; Keeps: predicates that they keep
--   Metadata           apps/cli/src/lib/engine/cached_meta.ts, types of metadata_ref.ts
--   Git                what is used of git and the metadata refs, as a record of operations
--   Parse              apps/cli/src/lib/engine/parse_branches_and_meta.ts; its children hold the
--                      validation of a parent revision (Revision), the links (Whole), one round of
--                      the loop (Rounds), its queue (Fresh) and its end (Terminates)
--   Engine             apps/cli/src/lib/engine/engine.ts: State (what composeEngine closes over
--                      and its small helpers), Update (updateMeta and what is built from it),
--                      Queries (with scope_spec.ts), Tracking, Commits, Rebase, Remote and Cache
--                      hold the methods, CacheFiles cache_lock.ts and cache_loader.ts; Reads,
--                      Links, Queries/Stacks, Queries/Descendants, Rebase/Fixed,
--                      Update/Parents and Update/Succeeds what is
--                      proved of them
--   Actions            apps/cli/src/actions: Context (persist_continuation.ts), Restack
--                      (restack.ts), Remote (continue.ts, sync/get.ts, sync/sync.ts), Traversal
--                      (branch_traversal.ts), Stack (folding, deleting, creating and the like),
--                      Submit (submit/validate_branches.ts, sync_pr_info.ts; below it the
--                      preparation, the submission and the tree of a comment), Split (split.ts),
--                      Log (log.ts), Track (track_branch.ts, checkout_branch.ts), Changes
--                      (commit_amend.ts, commit_create.ts, rename_branch.ts), Downstack
--                      (edit/edit_downstack.ts), Clean (sync/clean_branches.ts), Sync (the commands
--                      of sync/); Links is what is proved of whole commands
--   Names              apps/cli/src/lib/utils/branch_name.ts
--   Text, EditFile     texts as lists of character codes, and
--                      apps/cli/src/actions/edit/stack_edit_file.ts
--   OperationQueue     apps/gti-server/src/OperationQueue.ts
--   RateLimiter        libs/gti-shared/src/RateLimiter.ts
--   Serialize          libs/gti-shared/src/serialize.ts: Values the values with their objects, Maps
--                      and Sets, Sendable which values are sent, Roundtrip what is proved
--   ServerApiState     apps/gti-client/src/serverAPIState.ts, the operations; Mirror runs it
--                      together with OperationQueue
--   Previews           apps/gti-client/src/previews.ts; Cleared after the optimistic
--                      state is cleared, Completed where it ends (Ends what is proved),
--                      Trees the trees of commits
--   CommitTree         apps/gti-client/src/getCommitTree.ts; Sorted, Grown and Descent what is proved
--   RepositoryCache    apps/gti-server/src/RepositoryCache.ts (Path: fs.ts; Counter: a number that may
--                      fall below 0); Counting, Counted, Kept and Reached what is proved
--   Examples           a small repository at which the theorems are applied
--
-- How the code is read. A method is a function from the state to a result and the state that it
-- leaves, also when it throws. Branch names and revisions are only compared, so they are numbers,
-- the empty string 0. A branch's array of children is shared by reference between copies of
-- its metadata; so the arrays are in a store, the metadata holds an address, and a loop over an
-- array that its body writes to reads each element when its turn comes. What is awaited ends by an event.
-- Messages between server and client are lists that the other side reads in order. The sort by time
-- of getCommitTree is written out, stable as the language has it.
--
-- Bounds. The recursion over children and parents has no bound in the source, and overflows
-- the runtime's stack on a cycle: the model carries the depth that is left (`stack_size`) and
-- raises `stack_overflow`. The theorems on walks down ask for a depth larger than the number of
-- branches below. The parser's loop has its own counter. The loops of the cleaning carry the
-- rounds that are left: the search for an ancestor takes one for each marked branch above, the loop
-- that deletes one for each marked branch. The walk of cleanBranches itself, and the loops of a
-- split, whose length the user decides, carry a number that their caller gives; it is an argument
-- of the theorems on them. getCommitTree carries a number of levels, enough where it exceeds a
-- number that falls from every parent to its drafts; treeWithPreviews, whose appliers may give any
-- children, carries one that its caller gives. No other bound is added.
--
-- Not modelled: what is printed, how a log is drawn and its long style; the git commands themselves
-- and the cache on disk as the engine sees it, which are records of operations (Git, CacheLoader);
-- prompts, whose answers are part of the environment (ActionEnv, Prompts, Editor, SplitPrompts,
-- SubmitPrompts); the runtime's sort (Sort) and the server (Server, SubmitServer), which are
-- parameters; the order of evaluation inside git; the text of a pull request's body and of
-- comments; configuration files, argument parsing, and the programs apps/gti-client, apps/gti-server and
-- apps/vscode but for what is named above. apps/gti-client/src/linelog.ts and
-- libs/gti-shared/src/LRU.ts are copies of another project's library.
pub mod Base
pub mod Metadata
pub mod Git
pub mod Parse
pub mod Engine
pub mod Actions
pub mod Names
pub mod Text
pub mod EditFile
pub mod CommitTree
pub mod OperationQueue
pub mod RateLimiter
pub mod Serialize
pub mod ServerApiState
pub mod Previews
pub mod RepositoryCache
pub mod Examples
