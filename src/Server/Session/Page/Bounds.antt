-- ===== src/Server/Session/Page/Bounds.antt =====
-- How many rows a snapshot has.
use sim_expr_tree.Prelude.{
  ℕ, zero, suc, ◌+◌, ◌-◌, ◌≤◌, String, ◌≡◌, inl, inr, Option, none, some, List, [], ◌∷◌, Result, ok,
  err, arith, ltb, length, Result-cases, if◌then◌else◌, string_eq, ap,
}
use sim_expr_tree.Prelude.Exec.{pure, ◌>>=◌}
use sim_expr_tree.Prelude.HashMap.{get}
use sim_expr_tree.Server.Model.{ServerError, ServerLimits}
use sim_expr_tree.Server.Session.{SessionRecord, min}
use sim_expr_tree.Server.Session.Page.{
  TreeEntry, Node, Nodes, Page, dir_node, CellDetail, Paging, Pager, DirectoryPage, child_page,
  rows, admit_rows, one_page, cut_off, directory_page, snapshot, take_entries, get_or, max,
  internal, saturating_mul,
}
use sim_expr_tree.Server.Session.Page.Sizes.{
  node_size, nodes_size, page_size, Within, cut_off-Within, child_page-Within, rows-Within,
}

module _ {C : Type 0} (inspect_entries : String → Result String (List TreeEntry))
    (inspect_cell : String → Result String C) (wall_finished_ms : C → Option ℕ)
    (limits : ServerLimits) where
  -- the rows of the answer of `directory_page`
  abbrev listed : DirectoryPage (CellDetail C) → ℕ
  listed page = nodes_size page.nodes

  module _ (open_dir : String → Pager (Page (CellDetail C)))
      (opened : (path : String) (p : Paging) → Within page_size p.remaining (open_dir path p)) where
    admit_rows-Within :
        (path : String) (entries : List TreeEntry) (p : Paging)
        → Within listed p.remaining (
            admit_rows inspect_entries inspect_cell wall_finished_ms limits open_dir path entries p)
    unfolding admit_rows
    admit_rows-Within path entries p =
        go
          (rows inspect_entries inspect_cell wall_finished_ms limits open_dir
            (take_entries admitted entries) q)
          (rows-Within inspect_entries inspect_cell wall_finished_ms limits open_dir opened
            (take_entries admitted entries) q)
      where
        requested : ℕ
        requested =
            min (get_or limits.max_page_entries (get path p.session.page_sizes)) (length entries)

        admitted : ℕ
        admitted = min requested p.remaining

        q : Paging
        q = record p { remaining = p.remaining - admitted }

        within_budget : admitted ≤ p.remaining
        within_budget = ground arith

        length-take_entries : (n : ℕ) (l : List TreeEntry) → length (take_entries n l) ≤ n
        length-take_entries zero l = omega arith
        length-take_entries (suc n) [] = omega arith
        length-take_entries (suc n) (e ∷ l) = omega (arith, length-take_entries n l)

        go :
            (x : Result ServerError (Nodes (CellDetail C)) × Paging)
            → Within nodes_size (length (take_entries admitted entries) + q.remaining) x
            → Within listed p.remaining (
                ((λ _. x) >>= λ nodes. pure (record {
                  nodes = nodes;
                  is_cut = ltb admitted (length entries);
                  admitted = admitted;
                  omitted =
                      if ltb admitted (length entries)
                      then some (length entries - admitted)
                      else none;
                }))
                  q)
        go (err e, u) h = tt
        go (ok nodes, u) h = omega (arith, h, within_budget, length-take_entries admitted entries)

    one_page-Within :
        (path : String) (p : Paging)
        → Within listed p.remaining
            (one_page inspect_entries inspect_cell wall_finished_ms limits open_dir path p)
    unfolding one_page
    one_page-Within path p = elim (Result-cases (internal (inspect_entries path))) [
      | inl (e, failed) ↦ rw failed tt
      | inr (entries, read) ↦ rw read (admit_rows-Within path entries p)
    ]

  then_page :
      (levels : ℕ) (path : String) (p : Paging)
      (x : Result ServerError (DirectoryPage (CellDetail C)) × Paging)
      → Within listed p.remaining x
      → Within page_size p.remaining
          (((λ _. x) >>= child_page inspect_entries inspect_cell wall_finished_ms limits path) p)
  then_page levels path p (err e, q) h = tt
  then_page levels path p (ok page, q) h =
      child_page-Within inspect_entries inspect_cell wall_finished_ms limits path page p.remaining q
        h

  directory_page-Within :
      (levels : ℕ) (path : String) (p : Paging)
      → Within listed p.remaining
          (directory_page inspect_entries inspect_cell wall_finished_ms limits levels path p)
  unfolding directory_page
  directory_page-Within zero path p =
      one_page-Within (cut_off inspect_entries inspect_cell wall_finished_ms limits)
        (cut_off-Within inspect_entries inspect_cell wall_finished_ms limits) path p
  directory_page-Within (suc levels) path p =
      one_page-Within
        (λ below.
          directory_page inspect_entries inspect_cell wall_finished_ms limits levels below
          >>= child_page inspect_entries inspect_cell wall_finished_ms limits below)
        (λ below q.
          then_page levels below q
            (directory_page inspect_entries inspect_cell wall_finished_ms limits levels below q)
            (directory_page-Within levels below q))
        path p

  -- A snapshot that is answered has no more rows below its root than the entries of a page times the greatest
  -- depth, or one where that is zero, whatever the tree holds, whatever is expanded, and whatever page sizes
  -- continuations have set.
  pub snapshot-bounded :
      (s t : SessionRecord) (root : Node (CellDetail C))
      → snapshot inspect_entries inspect_cell wall_finished_ms limits s ≡ (ok root, t)
      → node_size root ≤ max (saturating_mul limits.max_page_entries limits.max_snapshot_depth) 1
  unfolding snapshot node_size
  snapshot-bounded s t root h =
      last
        (directory_page inspect_entries inspect_cell wall_finished_ms limits
          (limits.max_snapshot_depth - 1) "/" start)
        (directory_page-Within (limits.max_snapshot_depth - 1) "/" start)
        (ap (λ answer. answer.0) h)
    where
      start : Paging
      start = record {
        session = record s { continuations = [] };
        remaining = max (saturating_mul limits.max_page_entries limits.max_snapshot_depth) 1;
      }

      root_row : Page (CellDetail C) → Pager (Node (CellDetail C))
      root_row children = pure (dir_node "/" "root" s.revision children)

      shown :
          (x : Result ServerError (Page (CellDetail C)) × Paging)
          → Within page_size start.remaining x
          → Path
              (Result ServerError (Node (CellDetail C)))
              (((λ _. x) >>= root_row) start).0
              (ok root)
          → node_size root ≤ start.remaining
      shown (err e, q) h same = absurd (ground arith)
      shown (ok children, q) h same =
          let e : dir_node "/" "root" s.revision children ≡ root = ground arith in
          rw⁻¹ e omega (arith, h)

      last :
          (x : Result ServerError (DirectoryPage (CellDetail C)) × Paging)
          → Within listed start.remaining x
          → Path
              (Result ServerError (Node (CellDetail C)))
              (((λ _. x) >>= λ page.
                  child_page inspect_entries inspect_cell wall_finished_ms limits "/" page
                  >>= root_row)
                start).0
              (ok root)
          → node_size root ≤ start.remaining
      last (err e, q) h same = absurd (ground arith)
      last (ok page, q) h same =
          shown (child_page inspect_entries inspect_cell wall_finished_ms limits "/" page q)
            (child_page-Within inspect_entries inspect_cell wall_finished_ms limits "/" page
              start.remaining q h)
            same
