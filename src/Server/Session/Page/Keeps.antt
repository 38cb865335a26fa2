-- ===== src/Server/Session/Page/Keeps.antt =====
-- A snapshot changes nothing of a session but its continuations: what the issue of a token keeps, it keeps.
use sim_expr_tree.Prelude.{
  ℕ, zero, suc, ◌-◌, String, Bool, true, false, ◌≡◌, refl, inl, inr, Option, none, some, List, [],
  ◌∷◌, Result, ok, err, Bool-cases, Result-cases, string_eq, ltb, length, if◌then◌else◌,
}
use sim_expr_tree.Prelude.Exec.{pure, ◌>>=◌}
use sim_expr_tree.Prelude.HashMap.{get, contains_key}
use sim_expr_tree.Server.Model.{ServerError, ServerLimits, ChangeEvent, WatchState}
use sim_expr_tree.Prelude.BTreeMap.{BTreeMap}
use sim_expr_tree.Server.Session.{SessionRecord, continuation, min}
use sim_expr_tree.Server.Session.Page.{
  TreeEntry, TreeEntryKind, directory, mount, cell, Node, Page, CellDetail, Paging, Pager,
  DirectoryPage, next_token, child_page, dir_row, cell_row, node, rows, admit_rows, one_page,
  cut_off, directory_page, snapshot, take_entries, get_or, max, internal, saturating_mul, dir_node,
  node_then, TreeView, snapshot_of,
}

-- a part of a snapshot that keeps what is known of the session
module _ (Q : SessionRecord → Type 0) where
  abbrev Keeps : {A : Type 0} → Pager A → Type 0
  Keeps m = (p : Paging) → Q p.session → Q (m p).1.session

  bind-Keeps :
      {A B : Type 0} (m : Pager A) (f : A → Pager B)
      → Keeps m
      → ((a : A) → Keeps (f a))
      → Keeps (m >>= f)
  bind-Keeps {A = A} m f first rest p h = go (m p) (first p h)
    where
      go : (x : Result ServerError A × Paging) → Q x.1.session → Q (((λ _. x) >>= f) p).1.session
      go (ok a, q) kept = rest a q kept
      go (err e, q) kept = kept

module _ {C : Type 0} (inspect_entries : String → Result String (List TreeEntry))
    (inspect_cell : String → Result String C) (wall_finished_ms : C → Option ℕ)
    (limits : ServerLimits) (Q : SessionRecord → Type 0)
    (issued : (path : String) (offset : ℕ) (s : SessionRecord)
      → Q s
      → Q (continuation path offset s).1) where
  child_page-Keeps :
      (path : String) (page : DirectoryPage (CellDetail C))
      → Keeps Q (child_page inspect_entries inspect_cell wall_finished_ms limits path page)
  unfolding child_page next_token
  child_page-Keeps path page p h = elim (Bool-cases page.is_cut) [
    | inl yes_ ↦ rw (child_page, yes_) (issued path page.admitted p.session h)
    | inr no_ ↦ rw (child_page, no_) h
  ]

  cut_off-Keeps :
      (path : String) → Keeps Q (cut_off inspect_entries inspect_cell wall_finished_ms limits path)
  unfolding cut_off next_token
  cut_off-Keeps path p h = issued path 0 p.session h

  module _ (open_dir : String → Pager (Page (CellDetail C)))
      (opened : (path : String) → Keeps Q (open_dir path)) where
    dir_row-Keeps :
        (entry : TreeEntry) (revision : ℕ) (is_expanded : Bool)
        → Keeps Q (
            dir_row inspect_entries inspect_cell wall_finished_ms limits open_dir entry revision
              is_expanded)
    unfolding dir_row
    dir_row-Keeps entry revision false p h = h
    dir_row-Keeps entry revision true p h =
        bind-Keeps Q (open_dir entry.path)
          (λ children. pure (dir_node entry.path entry.name revision children)) (opened entry.path)
          (λ _ _ kept. kept) p h

    cell_row-Keeps :
        (entry : TreeEntry) (revision : ℕ) (is_expanded : Bool)
        → Keeps Q (
            cell_row inspect_entries inspect_cell wall_finished_ms limits open_dir entry revision
              is_expanded)
    unfolding cell_row
    cell_row-Keeps entry revision false p h = h
    cell_row-Keeps entry revision true p h =
        elim (Result-cases (internal (inspect_cell entry.path))) [
          | inl (e, failed) ↦ rw (cell_row, failed) h
          | inr (facts, read) ↦ rw (cell_row, read) h
        ]

    node-Keeps :
        (entry : TreeEntry)
        → Keeps Q (node inspect_entries inspect_cell wall_finished_ms limits open_dir entry)
    unfolding node
    node-Keeps entry p h =
        go entry.kind (max entry.revision p.session.revision)
          (contains_key entry.path p.session.expanded)
      where
        go :
            (kind : TreeEntryKind) (revision : ℕ) (is_expanded : Bool)
            → Q
                (elim kind as (λ _. Result ServerError (Node (CellDetail C)) × Paging) [
                  | directory ↦
                      dir_row inspect_entries inspect_cell wall_finished_ms limits open_dir entry
                        revision is_expanded p
                  | mount ↦
                      dir_row inspect_entries inspect_cell wall_finished_ms limits open_dir entry
                        revision is_expanded p
                  | cell ↦
                      cell_row inspect_entries inspect_cell wall_finished_ms limits open_dir entry
                        revision is_expanded p
                ]).1.session
        go directory revision is_expanded = dir_row-Keeps entry revision is_expanded p h
        go mount revision is_expanded = dir_row-Keeps entry revision is_expanded p h
        go cell revision is_expanded = cell_row-Keeps entry revision is_expanded p h

    rows-Keeps :
        (entries : List TreeEntry)
        → Keeps Q (rows inspect_entries inspect_cell wall_finished_ms limits open_dir entries)
    unfolding rows
    rows-Keeps [] p h = h
    rows-Keeps (entry ∷ entries) p h =
        bind-Keeps Q (node inspect_entries inspect_cell wall_finished_ms limits open_dir entry)
          (λ first.
            rows inspect_entries inspect_cell wall_finished_ms limits open_dir entries >>= λ rest.
            pure (node_then first rest))
          (node-Keeps entry)
          (λ first.
            bind-Keeps Q
              (rows inspect_entries inspect_cell wall_finished_ms limits open_dir entries)
              (λ rest. pure (node_then first rest)) (rows-Keeps entries) (λ _ _ kept. kept))
          p h

    admit_rows-Keeps :
        (path : String) (entries : List TreeEntry)
        → Keeps Q
            (admit_rows inspect_entries inspect_cell wall_finished_ms limits open_dir path entries)
    unfolding admit_rows
    admit_rows-Keeps path entries p h =
        bind-Keeps Q
          (rows inspect_entries inspect_cell wall_finished_ms limits open_dir
            (take_entries admitted entries))
          (λ nodes. pure (record {
            nodes = nodes;
            is_cut = ltb admitted (length entries);
            admitted = admitted;
            omitted =
                if ltb admitted (length entries) then some (length entries - admitted) else none;
          }))
          (rows-Keeps (take_entries admitted entries)) (λ _ _ kept. kept)
          (record p { remaining = p.remaining - admitted }) h
      where
        admitted : ℕ
        admitted =
            min
              (min (get_or limits.max_page_entries (get path p.session.page_sizes))
                (length entries))
              p.remaining

    one_page-Keeps :
        (path : String)
        → Keeps Q (one_page inspect_entries inspect_cell wall_finished_ms limits open_dir path)
    unfolding one_page
    one_page-Keeps path p h = elim (Result-cases (internal (inspect_entries path))) [
      | inl (e, failed) ↦ rw (one_page, failed) h
      | inr (entries, read) ↦ rw (one_page, read) (admit_rows-Keeps path entries p h)
    ]

  directory_page-Keeps :
      (levels : ℕ) (path : String)
      → Keeps Q (directory_page inspect_entries inspect_cell wall_finished_ms limits levels path)
  unfolding directory_page
  directory_page-Keeps zero path =
      one_page-Keeps (cut_off inspect_entries inspect_cell wall_finished_ms limits) cut_off-Keeps
        path
  directory_page-Keeps (suc levels) path =
      one_page-Keeps
        (λ below.
          directory_page inspect_entries inspect_cell wall_finished_ms limits levels below
          >>= child_page inspect_entries inspect_cell wall_finished_ms limits below)
        (λ below.
          bind-Keeps Q
            (directory_page inspect_entries inspect_cell wall_finished_ms limits levels below)
            (child_page inspect_entries inspect_cell wall_finished_ms limits below)
            (directory_page-Keeps levels below) (child_page-Keeps below))
        path

  pub snapshot-Keeps :
      (s : SessionRecord)
      → Q (record s { continuations = [] })
      → Q (snapshot inspect_entries inspect_cell wall_finished_ms limits s).1
  unfolding snapshot
  snapshot-Keeps s h =
      bind-Keeps Q
        (directory_page inspect_entries inspect_cell wall_finished_ms limits
          (limits.max_snapshot_depth - 1) "/")
        (λ page.
          child_page inspect_entries inspect_cell wall_finished_ms limits "/" page >>= λ children.
          pure (dir_node "/" "root" s.revision children))
        (directory_page-Keeps (limits.max_snapshot_depth - 1) "/")
        (λ page.
          bind-Keeps Q (child_page inspect_entries inspect_cell wall_finished_ms limits "/" page)
            (λ children. pure (dir_node "/" "root" s.revision children)) (child_page-Keeps "/" page)
            (λ _ _ kept. kept))
        (record {
          session = record s { continuations = [] };
          remaining = max (saturating_mul limits.max_page_entries limits.max_snapshot_depth) 1;
        })
        h

-- what the feeds of a session are
abbrev pub feeds : SessionRecord → List ChangeEvent × BTreeMap WatchState
feeds s = (s.changes, s.watches)

pub snapshot-feeds :
    {C : Type 0} (tree : TreeView C) (limits : ServerLimits) (s : SessionRecord)
    → feeds (snapshot_of tree limits s).1 ≡ feeds s
unfolding continuation
snapshot-feeds tree limits s =
    snapshot-Keeps tree.inspect_entries tree.inspect_cell tree.wall_finished_ms limits
      (λ t. feeds t ≡ feeds s) (λ path offset t same. same) s refl
