-- ===== src/Server/Session/Page/Sizes.antt =====
-- How many rows a part of a snapshot has.
use sim_expr_tree.Prelude.{
  ℕ, suc, ◌+◌, ◌≤◌, String, Bool, true, false, inl, inr, Option, List, [], ◌∷◌, Result, ok, err,
  arith, length, Bool-cases, Result-cases, string_eq,
}
use sim_expr_tree.Prelude.Exec.{pure, ◌>>=◌}
use sim_expr_tree.Prelude.HashMap.{contains_key}
use sim_expr_tree.Server.Model.{ServerError, ServerLimits}
use sim_expr_tree.Server.Session.Page.{
  TreeEntry, TreeEntryKind, directory, mount, cell, Node, Nodes, Page, dir_node, cell_node,
  no_nodes, node_then, not_fetched, complete, truncated, CellDetail, Paging, Pager, DirectoryPage,
  next_token, child_page, dir_row, cell_row, node, rows, cut_off, max, internal,
}

-- the rows of a snapshot below a row, a page or a list
module _ {D : Type 0} where
  unfoldable mutual
    pub node_size : Node D → ℕ
    node_size (dir_node path name revision page) = page_size page
    node_size (cell_node path name revision detail) = 0

    pub nodes_size : Nodes D → ℕ
    nodes_size no_nodes = 0
    nodes_size (node_then first rest) = suc (node_size first + nodes_size rest)

    pub page_size : Page D → ℕ
    page_size not_fetched = 0
    page_size (complete nodes) = nodes_size nodes
    page_size (truncated nodes token remaining) = nodes_size nodes

-- An outcome that has rows has no more of them than the budget spent on it.
abbrev pub Within : {A : Type 0} → (A → ℕ) → ℕ → Result ServerError A × Paging → Type 0
Within size n (ok a, p) = size a + p.remaining ≤ n
Within size n (err e, p) = Unit

module _ {C : Type 0} (inspect_entries : String → Result String (List TreeEntry))
    (inspect_cell : String → Result String C) (wall_finished_ms : C → Option ℕ)
    (limits : ServerLimits) where
  pub cut_off-Within :
      (path : String) (p : Paging)
      → Within page_size p.remaining
          (cut_off inspect_entries inspect_cell wall_finished_ms limits path p)
  unfolding cut_off next_token node_size
  cut_off-Within path p = omega arith

  pub child_page-Within :
      (path : String) (page : DirectoryPage (CellDetail C)) (n : ℕ) (p : Paging)
      → nodes_size page.nodes + p.remaining ≤ n
      → Within page_size n
          (child_page inspect_entries inspect_cell wall_finished_ms limits path page p)
  unfolding child_page next_token node_size
  child_page-Within path page n p h = elim (Bool-cases page.is_cut) [
    | inl yes_ ↦ rw yes_ h
    | inr no_ ↦ rw no_ h
  ]

  module _ (open_dir : String → Pager (Page (CellDetail C)))
      (opened : (path : String) (p : Paging) → Within page_size p.remaining (open_dir path p)) where
    dir_row-Within :
        (entry : TreeEntry) (revision : ℕ) (is_expanded : Bool) (p : Paging)
        → Within node_size p.remaining (
            dir_row inspect_entries inspect_cell wall_finished_ms limits open_dir entry revision
              is_expanded p)
    unfolding dir_row node_size
    dir_row-Within entry revision false p = omega arith
    dir_row-Within entry revision true p = go (open_dir entry.path p) (opened entry.path p)
      where
        go :
            (x : Result ServerError (Page (CellDetail C)) × Paging)
            → Within page_size p.remaining x
            → Within node_size p.remaining (
                ((λ _. x) >>= λ children. pure (dir_node entry.path entry.name revision children))
                  p)
        go (ok page, q) h = h
        go (err e, q) h = tt

    cell_row-Within :
        (entry : TreeEntry) (revision : ℕ) (is_expanded : Bool) (p : Paging)
        → Within node_size p.remaining (
            cell_row inspect_entries inspect_cell wall_finished_ms limits open_dir entry revision
              is_expanded p)
    unfolding cell_row node_size
    cell_row-Within entry revision false p = omega arith
    cell_row-Within entry revision true p =
        elim (Result-cases (internal (inspect_cell entry.path))) [
          | inl (e, failed) ↦ rw failed tt
          | inr (facts, read) ↦ rw read omega arith
        ]

    node-Within :
        (entry : TreeEntry) (p : Paging)
        → Within node_size p.remaining
            (node inspect_entries inspect_cell wall_finished_ms limits open_dir entry p)
    unfolding node
    node-Within entry p =
        go entry.kind (max entry.revision p.session.revision)
          (contains_key entry.path p.session.expanded)
      where
        go :
            (kind : TreeEntryKind) (revision : ℕ) (is_expanded : Bool)
            → Within (node_size {D = CellDetail C}) p.remaining (elim kind [
              | directory ↦
                  dir_row inspect_entries inspect_cell wall_finished_ms limits open_dir entry
                    revision is_expanded p
              | mount ↦
                  dir_row inspect_entries inspect_cell wall_finished_ms limits open_dir entry
                    revision is_expanded p
              | cell ↦
                  cell_row inspect_entries inspect_cell wall_finished_ms limits open_dir entry
                    revision is_expanded p
            ])
        go directory revision is_expanded = dir_row-Within entry revision is_expanded p
        go mount revision is_expanded = dir_row-Within entry revision is_expanded p
        go cell revision is_expanded = cell_row-Within entry revision is_expanded p

    pub rows-Within :
        (entries : List TreeEntry) (p : Paging)
        → Within nodes_size
            (length entries + p.remaining)
            (rows inspect_entries inspect_cell wall_finished_ms limits open_dir entries p)
    unfolding rows node_size
    rows-Within [] p = omega arith
    rows-Within (entry ∷ entries) p =
        first (node inspect_entries inspect_cell wall_finished_ms limits open_dir entry p)
          (node-Within entry p) (rows-Within entries)
      where
        rest_of : Pager (Nodes (CellDetail C))
        rest_of = rows inspect_entries inspect_cell wall_finished_ms limits open_dir entries

        second :
            (row : Node (CellDetail C)) (q : Paging)
            (x : Result ServerError (Nodes (CellDetail C)) × Paging)
            → node_size row + q.remaining ≤ p.remaining
            → Within nodes_size (length entries + q.remaining) x
            → Within nodes_size
                (suc (length entries) + p.remaining)
                (((λ _. x) >>= λ rest. pure (node_then row rest)) q)
        second row q (err e, u) h k = tt
        second row q (ok nodes, u) h k = omega (arith, h, k)

        first :
            (x : Result ServerError (Node (CellDetail C)) × Paging)
            → Within node_size p.remaining x
            → ((q : Paging) → Within nodes_size (length entries + q.remaining) (rest_of q))
            → Within nodes_size
                (suc (length entries) + p.remaining)
                (((λ _. x) >>= λ row. rest_of >>= λ rest. pure (node_then row rest)) p)
        first (err e, q) h later = tt
        first (ok row, q) h later = second row q (rest_of q) h (later q)
