-- ===== src/Core/Node.antt =====
-- crates/sim-expr-tree-core/src/node.rs: the durable records. `P` is the type of the policy patch
-- that each of them carries: the namespace stores patches and never looks into one.
use sim_expr_tree.Prelude.{ℕ, String, Bool, true, ◌≡◌, ◌↔◌, Option, none, some, Eq, nat_beq, arith}
use sim_expr_tree.Core.Id.{CellId, DirId}
use sim_expr_tree.Core.Name.{NamespaceName}
use sim_expr_tree.Core.Stamp.{Stamp}

pub data NodeKind : Type 0 where
  source_node control_node derived_node mounted_node : NodeKind

-- the position of a variant: what the derived `PartialEq` compares
abbrev pub discriminant : NodeKind → ℕ
discriminant source_node = 0
discriminant control_node = 1
discriminant derived_node = 2
discriminant mounted_node = 3

abbrev pub node_kind_beq : NodeKind → NodeKind → Bool
node_kind_beq a b = nat_beq (discriminant a) (discriminant b)

pub node_kind_beq_iff : (a b : NodeKind) → (node_kind_beq a b ≡ true) ↔ (a ≡ b)
node_kind_beq_iff a b = ground arith

instance abbrev pub node_kind_eq : Eq NodeKind
node_kind_eq = record { beq = node_kind_beq; beq_iff = node_kind_beq_iff }

pub record SourceRecord : Type 0 where
  pub origin : String
  pub observed_at : Stamp

pub record CellRecord (P : Type 0) : Type 0 where
  pub id : CellId
  pub parent : DirId
  pub name : NamespaceName
  pub kind : NodeKind
  pub source : Option SourceRecord
  pub policy_patch : P
  pub created_at : Stamp

pub record DirRecord (P : Type 0) : Type 0 where
  pub id : DirId
  pub parent : Option DirId
  pub name : Option NamespaceName
  pub policy_patch : P
  pub created_at : Stamp

module _ {P : Type 0} where
  -- `CellRecord::rename` and `CellRecord::set_policy_patch`
  abbrev pub rename_cell : DirId → NamespaceName → CellRecord P → CellRecord P
  rename_cell parent name r = record r { parent = parent; name = name }

  abbrev pub set_cell_patch : P → CellRecord P → CellRecord P
  set_cell_patch patch r = record r { policy_patch = patch }

  -- `DirRecord::root`, with the empty patch
  abbrev pub root_record : P → DirId → Stamp → DirRecord P
  root_record empty id created_at = record {
    id = id;
    parent = none;
    name = none;
    policy_patch = empty;
    created_at = created_at;
  }

  -- `DirRecord::child`
  abbrev pub child_record : DirId → DirId → NamespaceName → P → Stamp → DirRecord P
  child_record id parent name patch created_at = record {
    id = id;
    parent = some parent;
    name = some name;
    policy_patch = patch;
    created_at = created_at;
  }

  -- `DirRecord::rename` and `DirRecord::set_policy_patch`
  abbrev pub rename_dir : DirId → NamespaceName → DirRecord P → DirRecord P
  rename_dir parent name r = record r { parent = some parent; name = some name }

  abbrev pub set_dir_patch : P → DirRecord P → DirRecord P
  set_dir_patch patch r = record r { policy_patch = patch }
