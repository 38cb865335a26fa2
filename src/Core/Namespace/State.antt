-- ===== src/Core/Namespace/State.antt =====
-- `struct Namespace`, `Namespace::new`, its readers and its private checks.
use sim_expr_tree.Prelude.{
  ◌≡◌, ◌↔◌, true, Eq, arith, ℕ, Bool, false, not, ◌&&◌, Option, none, some, [], ◌∷◌, Result, ok,
  err, ◌==◌, string_eq, nat_eq, pair_eq, pair_beq_iff, length, if◌then◌else◌,
}
use sim_expr_tree.Prelude.Exec.{Exec}
use sim_expr_tree.Prelude.HashMap.{HashMap, get, remove, contains_key}
use sim_expr_tree.Core.Id.{TreeId, CellId, DirId}
use sim_expr_tree.Core.Name.{NamespaceName, GeneratedNameKind}
use sim_expr_tree.Core.Stamp.{RevisionTick, Stamp, initial_tick, next_after}
use sim_expr_tree.Core.Node.{
  NodeKind, node_kind_eq, node_kind_beq_iff, CellRecord, DirRecord, root_record,
}
use sim_expr_tree.Core.Errors.{
  NamespaceError, missing_dir, name_collision, missing_reservation, invalid_writer_lane,
}

pub data NamespaceEntry : Type 0 where
  dir : DirId → NamespaceEntry
  cell : CellId → NodeKind → NamespaceEntry

-- the derived `PartialEq`
abbrev pub entry_beq : NamespaceEntry → NamespaceEntry → Bool
entry_beq (dir d) (dir d') = d == d'
entry_beq (cell c k) (cell c' k') = c == c' && k == k'
entry_beq _ _ = false

pub entry_beq_iff : (a b : NamespaceEntry) → (entry_beq a b ≡ true) ↔ (a ≡ b)
entry_beq_iff (dir d) (dir d') = ground (arith, string_eq.beq_iff d d')
entry_beq_iff (dir d) (cell c k) = ground arith
entry_beq_iff (cell c k) (dir d) = ground arith
entry_beq_iff (cell c k) (cell c' k') =
    ground (arith, string_eq.beq_iff c c', node_kind_beq_iff k k')

instance abbrev pub entry_eq : Eq NamespaceEntry
entry_eq = record { beq = entry_beq; beq_iff = entry_beq_iff }

abbrev pub Slot : Type 0
Slot = DirId × NamespaceName

pub slot_beq_iff : (σ τ : Slot) → ((σ == τ) ≡ true) ↔ (σ ≡ τ)
slot_beq_iff σ τ = pair_beq_iff σ τ

pub record WriterLane : Type 0 where
  pub epoch : ℕ

pub record Namespace (P : Type 0) : Type 0 where
  pub tree_id : TreeId
  pub root_dir : DirId
  pub dirs : HashMap DirId (DirRecord P)
  pub cells : HashMap CellId (CellRecord P)
  pub children : HashMap Slot NamespaceEntry
  -- a `BTreeSet`, of which only membership is used
  pub reservations : HashMap Slot (Unit {0})
  pub counters : HashMap (DirId × GeneratedNameKind) ℕ
  pub current : RevisionTick
  pub writer_epoch : ℕ
  pub writer_active : Bool

-- A method on `&mut self`.
abbrev pub Op : Type 0 → Type 0 → Type 0
Op P A = Exec (Namespace P) NamespaceError A

-- A method that may not return: `none` where a loop runs out of fuel or an `expect` panics.
abbrev pub Call : Type 0 → Type 0 → Type 0
Call P A = Namespace P → Option (Result NamespaceError A × Namespace P)

module _ {P A : Type 0} where
  -- a check with `?` in front of a call: its error returns early
  unfoldable pub after : Result NamespaceError (Unit {0}) → Call P A → Call P A
  after (err e) rest s = some (err e, s)
  after (ok _) rest s = rest s

  -- the two `expect`s on the parent and the name of a directory that is not the root
  unfoldable pub expect_slot :
      Option DirId → Option NamespaceName → (DirId → NamespaceName → Call P A) → Call P A
  expect_slot none name rest s = none
  expect_slot (some parent) none rest s = none
  expect_slot (some parent) (some name) rest s = rest parent name s

module _ {P : Type 0} where
  -- `Namespace::new`; `empty` is the patch that changes nothing
  unfoldable pub new : P → TreeId → DirId → Namespace P
  new empty tree_id root_dir = record {
    tree_id = tree_id;
    root_dir = root_dir;
    dirs =
        (
          root_dir,
          root_record empty root_dir (record { revision_tick = initial_tick; wall_time_ms = none }),
        )
        ∷ [];
    cells = [];
    children = [];
    reservations = [];
    counters = [];
    current = initial_tick;
    writer_epoch = 0;
    writer_active = false;
  }

  unfoldable pub reservation_count : Namespace P → ℕ
  reservation_count s = length s.reservations

  unfoldable pub counter_count : Namespace P → ℕ
  counter_count s = length s.counters

  -- `Namespace::dir`, `cell` and `child`
  abbrev pub dir_of : Namespace P → DirId → Option (DirRecord P)
  dir_of s id = get id s.dirs

  abbrev pub cell_of : Namespace P → CellId → Option (CellRecord P)
  cell_of s id = get id s.cells

  abbrev pub child : Namespace P → DirId → NamespaceName → Option NamespaceEntry
  child s parent name = get (parent, name) s.children

  abbrev pub reserved : Namespace P → DirId → NamespaceName → Bool
  reserved s parent name = contains_key (parent, name) s.reservations

  unfoldable pub require_writer : WriterLane → Namespace P → Result NamespaceError (Unit {0})
  require_writer lane s =
      if s.writer_active && lane.epoch == s.writer_epoch then ok tt else err invalid_writer_lane

  unfoldable pub ensure_parent : DirId → Namespace P → Result NamespaceError (Unit {0})
  ensure_parent parent s = if contains_key parent s.dirs then ok tt else err (missing_dir parent)

  unfoldable pub is_available : DirId → NamespaceName → Namespace P → Bool
  is_available parent name s =
      not (contains_key (parent, name) s.children) && not (reserved s parent name)

  unfoldable pub ensure_available :
      DirId → NamespaceName → Namespace P → Result NamespaceError (Unit {0})
  unfolding is_available
  ensure_available parent name s =
      if is_available parent name s then ok tt else err (name_collision parent name)

  -- the reservation is used up, also where the call fails later
  unfoldable pub consume_reservation : DirId → NamespaceName → Op P (Unit {0})
  consume_reservation parent name s =
      if reserved s parent name
      then (ok tt, record s { reservations = remove (parent, name) s.reservations })
      else (err (missing_reservation parent name), s)

  unfoldable pub next_stamp : Op P Stamp
  next_stamp s =
      let tick = next_after s.current in
      (ok (record { revision_tick = tick; wall_time_ms = none }), record s { current = tick })
