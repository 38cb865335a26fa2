-- ===== src/Book/Codec/Loops.antt =====
-- The loops of `decode` on what `encode` writes.
use Prim.Native.String.{len}
use mathlib.Core.List.{append_assoc, append-nil}
use sim_expr_tree.Prelude.{
  ℕ, String, ◌≡◌, refl, sym, ap, ◌∙◌, subst, Option, List, [], ◌∷◌, ◌++◌, ok, length, ◌<◌, ◌^◌,
  Bool, true, false, ◌==◌, string_eq, arith,
}
use sim_expr_tree.Prelude.Decimal.{decimal}
use sim_expr_tree.Prelude.BTreeMap.{BTreeMap, insert, values}
use sim_expr_tree.Prelude.BTreeMap.Order.{Below, Ascending, Every, insert_last}
use sim_expr_tree.Book.Model.{EvidenceRef, Objection, Branch}
use sim_expr_tree.Book.Codec.{
  fields, ref_values, objection_values, branch_values, or_empty, non_empty, flag, decode_refs,
  decode_objections, decode_branch, decode_branches,
}
use sim_expr_tree.Book.Codec.Trip.{take-field, take_u64-field}

-- a size of the memory of the program
abbrev pub IsUsize : ℕ → Type 0
IsUsize n = n < 2 ^ 64

abbrev pub RefsFit : List EvidenceRef → Type 0
RefsFit [] = Unit
RefsFit (r ∷ refs) = IsUsize (len r.kind) × IsUsize (len r.content_key) × RefsFit refs

-- an objection that stands under its identity, and is of a size that memory holds
pub record ObjectionFits (key : String) (o : Objection) : Type 0 where
  pub keyed : o.id ≡ key
  pub id : IsUsize (len o.id)
  pub statement : IsUsize (len o.statement)
  pub count : IsUsize (length o.evidence)
  pub evidence : RefsFit o.evidence

pub decode_refs_lem :
    (refs : List EvidenceRef) (more : List String) (tail : String)
    → RefsFit refs
    → decode_refs (length refs) (fields (ref_values refs ++ more) tail)
      ≡ (ok refs, fields more tail)
unfolding decode_refs ref_values fields
decode_refs_lem [] more tail fit = refl
decode_refs_lem (r ∷ refs) more tail (kind, content_key, rest) =
    rw
      (
        take-field r.kind _ kind,
        take-field r.content_key _ content_key,
        decode_refs_lem refs more tail rest,
      )
      refl

module _ {ℓ} {V : Type ℓ} where
  -- an entry goes from the map that is to be read to the one that is there
  pub shift :
      (m l : BTreeMap V) (k : String) (v : V)
      → Ascending (m ++ (k, v) ∷ l)
      → Ascending ((m ++ (k, v) ∷ []) ++ l)
  shift m l k v = subst Ascending (sym (append_assoc m ((k, v) ∷ []) l))

  pub insert_next :
      (m l : BTreeMap V) (k id : String) (v : V)
      → id ≡ k
      → Ascending (m ++ (k, v) ∷ l)
      → insert id v m ≡ m ++ (k, v) ∷ []
  insert_next m l k id v keyed a = ap (λ i. insert i v m) keyed ∙ insert_last k v m l a

pub decode_objections_lem :
    (m acc : BTreeMap Objection) (more : List String) (tail : String)
    → Ascending (acc ++ m)
    → Every ObjectionFits m
    → decode_objections (length m) acc (fields (objection_values (values m) ++ more) tail)
      ≡ (ok (acc ++ m), fields more tail)
unfolding decode_objections objection_values fields
decode_objections_lem [] acc more tail a fit = rw (append-nil acc) refl
decode_objections_lem ((k, o) ∷ m) acc more tail a (fit, rest) =
    rw (append_assoc (ref_values o.evidence) (objection_values (values m)) more) rw
      (
        take-field o.id _ fit.id,
        take-field o.statement _ fit.statement,
        take_u64-field "objection reference count" (length o.evidence) _ fit.count,
        decode_refs_lem o.evidence (objection_values (values m) ++ more) tail fit.evidence,
        insert_next acc m k o.id o fit.keyed a,
        decode_objections_lem m (acc ++ (k, o) ∷ []) more tail (shift acc m k o a) rest,
        append_assoc acc ((k, o) ∷ []) m,
      )
      refl

-- a branch that stands under its identity, and is of a size that memory holds
pub record BranchFits (key : String) (b : Branch) : Type 0 where
  pub keyed : b.id ≡ key
  pub id : IsUsize (len b.id)
  pub parent : IsUsize (len (or_empty b.parent))
  pub thesis : IsUsize (len b.thesis)
  pub next_play : IsUsize (len (or_empty b.next_play))
  pub references : IsUsize (length b.evidence)
  pub evidence : RefsFit b.evidence
  pub ascending : Ascending b.objections
  pub count : IsUsize (length b.objections)
  pub objections : Every ObjectionFits b.objections

-- what is read back of an optional name: an empty one is none
abbrev pub normal_name : Option String → Option String
normal_name name = non_empty (or_empty name)

abbrev pub normal_branch : Branch → Branch
normal_branch b = record b { parent = normal_name b.parent; next_play = normal_name b.next_play }

abbrev pub normal_branches : BTreeMap Branch → BTreeMap Branch
normal_branches [] = []
normal_branches ((k, b) ∷ m) = (k, normal_branch b) ∷ normal_branches m

Below-normal : (j : String) (m : BTreeMap Branch) → Below j m → Below j (normal_branches m)
Below-normal j [] b = tt
Below-normal j ((k, v) ∷ m) b = (b.0, Below-normal j m b.1)

pub normal_branches-Ascending : (m : BTreeMap Branch) → Ascending m → Ascending (normal_branches m)
normal_branches-Ascending [] a = tt
normal_branches-Ascending ((k, v) ∷ m) a = (Below-normal k m a.0, normal_branches-Ascending m a.1)

flag-width : (b : Bool) → IsUsize (len (flag b))
flag-width true = omega arith
flag-width false = omega arith

flag-read : (b : Bool) → (flag b == "1") ≡ b
flag-read true = refl
flag-read false = refl

decode_branch_lem :
    (k : String) (b : Branch) (bs : List Branch) (more : List String) (tail : String)
    → BranchFits k b
    → decode_branch (fields (branch_values (b ∷ bs) ++ more) tail)
      ≡ (ok (normal_branch b), fields (branch_values bs ++ more) tail)
unfolding decode_branch branch_values fields
decode_branch_lem k b bs more tail fit =
    rw
      (
        append_assoc (ref_values b.evidence)
            (decimal (length b.objections)
              ∷ (objection_values (values b.objections) ++ branch_values bs))
            more,
        append_assoc (objection_values (values b.objections)) (branch_values bs) more,
        take-field b.id _ fit.id,
        take-field (or_empty b.parent) _ fit.parent,
        take-field b.thesis _ fit.thesis,
        take-field (or_empty b.next_play) _ fit.next_play,
        take-field (flag b.sealed) _ (flag-width b.sealed),
        take_u64-field "reference count" (length b.evidence) _ fit.references,
        decode_refs_lem b.evidence _ tail fit.evidence,
        take_u64-field "objection count" (length b.objections) _ fit.count,
        decode_objections_lem b.objections [] (branch_values bs ++ more) tail fit.ascending
            fit.objections,
        flag-read b.sealed,
      )
      refl

pub decode_branches_lem :
    (m : BTreeMap Branch) (acc : BTreeMap Branch) (more : List String) (tail : String)
    → Ascending (acc ++ normal_branches m)
    → Every BranchFits m
    → decode_branches (length m) acc (fields (branch_values (values m) ++ more) tail)
      ≡ (ok (acc ++ normal_branches m), fields more tail)
unfolding decode_branches branch_values
decode_branches_lem [] acc more tail a fit = rw (append-nil acc) refl
decode_branches_lem ((k, b) ∷ m) acc more tail a (fit, rest) =
    rw
      (
        decode_branch_lem k b (values m) more tail fit,
        insert_next acc (normal_branches m) k b.id (normal_branch b) fit.keyed a,
        decode_branches_lem m (acc ++ (k, normal_branch b) ∷ []) more tail
            (shift acc (normal_branches m) k (normal_branch b) a) rest,
        append_assoc acc ((k, normal_branch b) ∷ []) (normal_branches m),
      )
      refl
