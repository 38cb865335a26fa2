-- ===== src/Server/Session/Page.antt =====
-- The bounded snapshot of a session. What the server reads from the tree is an argument: the entries of a
-- directory, and the details of a cell with the wall-clock observations of the session.
pub mod Sizes
pub mod Bounds
pub mod Keeps
use sim_expr_tree.Prelude.{
  ℕ, zero, suc, ◌-◌, ◌*◌, ◌^◌, String, Bool, true, false, not, Option, none, some, List, [], ◌∷◌,
  Result, ok, err, ltb, leb, length, string_eq, if◌then◌else◌,
}
use sim_expr_tree.Prelude.Exec.{Exec, ◌>>=◌, ◌>>◌, pure, check, modify}
use sim_expr_tree.Prelude.HashMap.{get, contains_key}
use sim_expr_tree.Server.Model.{ServerError, new_error, ServerLimits}
use sim_expr_tree.Server.Session.{SessionRecord, Method, continuation, min}

pub data TreeEntryKind : Type 0 where
  directory : TreeEntryKind
  mount : TreeEntryKind
  cell : TreeEntryKind

pub record TreeEntry : Type 0 where
  pub path : String
  pub name : String
  pub kind : TreeEntryKind
  pub revision : ℕ

-- A row of a snapshot, with the path, the name and the revision that it shows: `NodeSnapshot` and
-- `ChildPage` of crates/sim-lib-view-expr-tree/src/model.rs.
mutual
  pub data Node (D : Type 0) : Type 0 where
    dir_node : String → String → ℕ → Page D → Node D
    cell_node : String → String → ℕ → Option D → Node D

  pub data Nodes (D : Type 0) : Type 0 where
    no_nodes : Nodes D
    node_then : Node D → Nodes D → Nodes D

  pub data Page (D : Type 0) : Type 0 where
    not_fetched : Page D
    complete : Nodes D → Page D
    truncated : Nodes D → String → Option ℕ → Page D

abbrev pub node_revision : {D : Type 0} → Node D → ℕ
node_revision (dir_node path name revision page) = revision
node_revision (cell_node path name revision detail) = revision

-- the facts of a cell and the observations of the wall clock
pub record CellDetail (C : Type 0) : Type 0 where
  pub facts : C
  pub source_changed_ms : Option ℕ
  pub result_checked_ms : Option ℕ

-- the session and the budget that remains, both behind `&mut`
pub record Paging : Type 0 where
  pub session : SessionRecord
  pub remaining : ℕ

abbrev pub Pager : Type 0 → Type 0
Pager A = Exec Paging ServerError A

-- what the server reads from the tree of a session during one call
pub record TreeView (C : Type 0) : Type 0 where
  pub inspect_entries : String → Result String (List TreeEntry)
  pub inspect_cell : String → Result String C
  pub wall_finished_ms : C → Option ℕ

-- the answer of `directory_page`
pub record DirectoryPage (D : Type 0) : Type 0 where
  pub nodes : Nodes D
  pub is_cut : Bool
  pub admitted : ℕ
  pub omitted : Option ℕ

-- `map_err(internal)`
abbrev pub internal : {A : Type 0} → Result String A → Result ServerError A
internal (ok a) = ok a
internal (err message) = err (new_error "internal" message)

abbrev pub or_else : {A : Type 0} → Option A → Option A → Option A
or_else none other = other
or_else (some a) other = some a

abbrev pub get_or : ℕ → Option ℕ → ℕ
get_or n none = n
get_or n (some m) = m

abbrev pub max : ℕ → ℕ → ℕ
max m n = if leb m n then n else m

abbrev pub take_entries : ℕ → List TreeEntry → List TreeEntry
take_entries zero entries = []
take_entries (suc n) [] = []
take_entries (suc n) (e ∷ entries) = e ∷ take_entries n entries

-- a new token for what is left of a page
unfoldable pub next_token : String → ℕ → Pager String
unfolding continuation
next_token path offset p =
    let (token, session) = continuation path offset p.session in
    (ok token, record p { session = session })

unfoldable pub saturating_mul : ℕ → ℕ → ℕ
saturating_mul m n = if ltb (m * n) (2 ^ 64) then m * n else 2 ^ 64 - 1

module _ {C : Type 0} (inspect_entries : String → Result String (List TreeEntry))
    (inspect_cell : String → Result String C) (wall_finished_ms : C → Option ℕ)
    (limits : ServerLimits) where
  unfoldable pub detail_of : SessionRecord → String → C → CellDetail C
  detail_of s path facts = record {
    facts = facts;
    source_changed_ms = get path s.source_wall;
    result_checked_ms = or_else (get path s.result_wall) (wall_finished_ms facts);
  }

  -- the children of a page, with a token where the page is cut
  unfoldable pub child_page : String → DirectoryPage (CellDetail C) → Pager (Page (CellDetail C))
  unfolding next_token
  child_page path page =
      if page.is_cut
      then (do
        token ← next_token path page.admitted
        pure (truncated page.nodes token page.omitted))
      else pure (complete page.nodes)

  module _ (open_dir : String → Pager (Page (CellDetail C))) where
    unfoldable pub dir_row : TreeEntry → ℕ → Bool → Pager (Node (CellDetail C))
    dir_row entry revision true = do
      children ← open_dir entry.path
      pure (dir_node entry.path entry.name revision children)
    dir_row entry revision false = pure (dir_node entry.path entry.name revision not_fetched)

    unfoldable pub cell_row : TreeEntry → ℕ → Bool → Pager (Node (CellDetail C))
    unfolding detail_of
    cell_row entry revision true = do
      facts ← check (λ _. internal (inspect_cell entry.path))
      detail ← check (λ p. ok (detail_of p.session entry.path facts))
      pure (cell_node entry.path entry.name revision (some detail))
    cell_row entry revision false = pure (cell_node entry.path entry.name revision none)

    unfoldable pub node : TreeEntry → Pager (Node (CellDetail C))
    unfolding dir_row cell_row
    node entry p =
        let revision = max entry.revision p.session.revision in
        let is_expanded = contains_key entry.path p.session.expanded in
        elim entry.kind [
          | directory ↦ dir_row entry revision is_expanded p
          | mount ↦ dir_row entry revision is_expanded p
          | cell ↦ cell_row entry revision is_expanded p
        ]

    unfoldable pub rows : List TreeEntry → Pager (Nodes (CellDetail C))
    unfolding node
    rows [] = pure no_nodes
    rows (entry ∷ entries) = do first ← node entry; rest ← rows entries; pure (node_then first rest)

    -- one directory, its entries in hand
    unfoldable pub admit_rows : String → List TreeEntry → Pager (DirectoryPage (CellDetail C))
    unfolding rows
    admit_rows path entries p =
        let requested =
          min (get_or limits.max_page_entries (get path p.session.page_sizes)) (length entries) in
        let admitted = min requested p.remaining in
        let is_cut = ltb admitted (length entries) in
        (do
          modify (λ q. record q { remaining = q.remaining - admitted })
          nodes ← rows (take_entries admitted entries)
          pure (record {
            nodes = nodes;
            is_cut = is_cut;
            admitted = admitted;
            omitted = if is_cut then some (length entries - admitted) else none;
          }))
          p

    unfoldable pub one_page : String → Pager (DirectoryPage (CellDetail C))
    unfolding admit_rows
    one_page path = do
      entries ← check (λ _. internal (inspect_entries path))
      admit_rows path entries

  -- an expanded directory at the greatest depth shows nothing but a token
  unfoldable pub cut_off : String → Pager (Page (CellDetail C))
  unfolding next_token
  cut_off path = do token ← next_token path 0; pure (truncated no_nodes token none)

  -- `directory_page` with the number of levels that may be expanded below it, max_snapshot_depth - 1 - depth
  unfoldable pub directory_page : ℕ → String → Pager (DirectoryPage (CellDetail C))
  unfolding one_page child_page cut_off
  directory_page zero path = one_page cut_off path
  directory_page (suc levels) path =
      one_page (λ below. directory_page levels below >>= child_page below) path

  -- `SessionRecord::snapshot`, the root row of it
  unfoldable pub snapshot : Method (Node (CellDetail C))
  unfolding directory_page child_page saturating_mul
  snapshot s =
      let start : Paging = record {
        session = record s { continuations = [] };
        remaining = max (saturating_mul limits.max_page_entries limits.max_snapshot_depth) 1;
      } in
      let (answer, p) =
        ((do
          page ← directory_page (limits.max_snapshot_depth - 1) "/"
          children ← child_page "/" page
          pure (dir_node "/" "root" s.revision children)))
          start in
      (answer, p.session)

abbrev pub snapshot_of : {C : Type 0} → TreeView C → ServerLimits → Method (Node (CellDetail C))
snapshot_of tree = snapshot tree.inspect_entries tree.inspect_cell tree.wall_finished_ms
