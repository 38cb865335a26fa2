-- ===== src/Lib.antt =====
-- The expression-tree framework: a model of its backend-neutral core, crates/sim-expr-tree-core, of
-- the calculator's choice of the next cell, of the expedition book, of the sessions of the server and of
-- the rendering budgets of the views, with the theorems that make them correct.
--
-- The core has four parts. The namespace (namespace.rs, node.rs) keeps the records of directories and
-- cells, an index from a parent and a name to a node, reservations of names, counters for generated
-- names, and one writer lane. Identities, names and stamps (id.rs, name.rs, stamp.rs) are its data. The
-- codec policy (policy.rs) is a patch on each record; the policy of a node is derived from the patches
-- between the root and the node. The stores (store.rs) keep sources, control data and derived data apart,
-- hold the table of mounts, and commit the source and the control side in two phases.
--
-- On the core stand the calculator, which chooses the cell to compute next, and the server, which keeps the
-- sessions of its clients: each has a view of one tree, a revision, feeds of changes and tokens for pages that
-- were cut. The expedition book is a document with branches, references and objections of its own.
--
-- Files:
--   Prelude          Booleans on numbers, results, equality of keys, association lists for HashMap and
--                    BTreeMap, decimal and hexadecimal print, and methods on &mut self as state passing (Prelude/Exec)
--   Core/Id, Name, Stamp, Node, Errors, Checked
--                    id.rs, name.rs, stamp.rs, node.rs, error.rs; an identity or a name is its text, and
--                    Checked holds the constructors that check it
--   Core/Policy      policy.rs: CodecPolicyPatch, EffectiveCodecPolicy::derive; Policy/Bounds on ceilings,
--                    Policy/Last on which patch decides
--   Core/Namespace   namespace.rs: State (struct Namespace and its checks), Writer, Reserve, Create, Move,
--                    Delete, Inherit (one file per group of methods, with the methods' names). Index,
--                    Ancestry, Reparent: lemmas on the index and on the tree of directories. Valid: what a
--                    valid namespace is; Keeps: that each method keeps it; Run: whole sessions; Effects:
--                    what a call that succeeds has changed
--   Core/Store       store.rs: Types, Mount, Commit; Laws, Shadow, Recovery hold the theorems
--   Calc/Schedule    crates/sim-expr-tree-calc/src/calc/scheduler.rs and scheduling.rs: the automatic queue and
--                    select_ready_cell, and Schedule/Enqueue schedule_dirty_automatic; Schedule/Best,
--                    Schedule/Choice and Schedule/Places hold the theorems
--   Book             crates/sim-lib-expedition-book/src: Model (model.rs), Edit (edit.rs), Codec (codec.rs),
--                    Archive (archive.rs), Projection (projection.rs). Edit/Run has the edits as requests,
--                    Edit/Steps and Edit/Taken the contract of a book, Edit/Valid what every reachable book satisfies,
--                    Edit/Conflicts old revisions and sealed branches; Codec/Fields has the fields of the
--                    text, Codec/Trip, Loops and Round its reading back, Archive/Kept the replays
--   Server           crates/sim-lib-expr-tree-server/src: Model (model.rs, error.rs), Session (session.rs; its
--                    snapshot in Session/Page, apply_surface_local in Session/Local), Registry (server.rs and
--                    server/route.rs). Registry/Run has the calls in any order, Session/Tokens those on one
--                    session; Session/Feeds, Session/Delivery, Session/Once, Registry/Within, Registry/Held,
--                    Run/Bounded, Run/Reserved, Run/Busy and Page/Sizes, Page/Bounds, Page/Keeps hold lemmas and
--                    theorems
--   View/Budget      crates/sim-lib-view-expr-tree/src/budget.rs: RenderBudget, RenderBudgetState::admit
--   Examples         runs at concrete inputs
--
-- Conventions. A HashMap is an association list with the same get, insert and remove; the set of
-- reservations is a map into the unit type; a BTreeMap keeps its keys in order. A u64 counter wraps at
-- 2^64, as in a release build, but where the code adds by saturation. A method that fails keeps what it wrote before the failure. The namespace
-- is generic in the type of patches, which it never looks into.
--
-- Fuel. The two loops that follow parents upwards, is_descendant and effective_dir_policy, run on fuel,
-- one round more than there are directories; running out is the answer none, apart from every result of
-- the code. In a valid namespace a directory lies less deep than there are directories, so the fuel is
-- enough. An expect that panics is none too.
--
-- Arguments. schedule_dirty_automatic takes the eligible cells with their priorities and debounce times,
-- which the code collects from the engine and the policies, and leaves out the progress events.
--
-- The expedition book. Texts are the native ones, whose lengths and positions count bytes of UTF-8, and a
-- usize has 64 bits. A method that answers with an error or in a panic of an expect keeps these apart
-- (Stop); encode writes the fields of a list of values, in the order in which the code pushes them. A book
-- is of a size that memory holds where each text and each count fits a usize (Sizes).
--
-- The server. Its registry stands behind a lock, so a stretch of code that holds the lock is one call; an
-- operation of the runtime and a creation have two, before and behind the evaluation, which holds no lock,
-- and calls of all clients come in any order. A resource is the identity of its session, the handle of the
-- tree is left out, and the fields that apply_surface_local reads from an expression are a record. A
-- directory's depth in a snapshot is given by the levels that may still be expanded below it, and the faces,
-- the status and the badges of a cell are one value, its facts, beside which stand its two time stamps.
--
-- Parameters. What a session reads from its tree is the arguments inspect_entries, inspect_cell and
-- wall_finished_ms. The resolver of evidence is the argument exists. sim-table-core's
-- is_legal_table_segment is the argument legal; its TablePath is the record TablePaths with two laws (the root has no segments, == decides equality); sim-codec's positions and
-- default limits are the record Codecs.
--
-- Assumed of callers, where a session is run: a node is created under a directory that is there, with an
-- identity that no live node of its family has. The code does not check either.
--
-- Not modelled: the sorted listing Namespace::children, path.rs (one call of sim-table-core), Display and
-- Debug; the crates that stand on the core: the rest of the calculator, the library of
-- operations, the server's routing, web surface and site, and the rest of the views.
pub mod Prelude
pub mod Core
pub mod View
pub mod Book
pub mod Server
pub mod Calc
pub mod Examples
