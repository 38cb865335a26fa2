-- ===== src/Book/Codec/Round.antt =====
-- A whole book is read back from its canonical text.
use Prim.Native.String.{len, slice}
use text.Mathlib.TextPositions.{len-append, slice-append_right, starts_with-append}
use text.Mathlib.TextLemmas.{append_assoc as text_assoc, nil-append as nil_append}
use mathlib.Core.List.{append-nil}
use sim_expr_tree.Prelude.{
  String, ◌≡◌, refl, sym, ap, ◌∙◌, some, List, [], ◌∷◌, string_eq, ok, err, length, Bool, true,
  false, if◌then◌else◌,
}
use sim_expr_tree.Prelude.Exec.{continue, pure}
use sim_expr_tree.Prelude.HashMap.{get}
use sim_expr_tree.Prelude.BTreeMap.{values}
use sim_expr_tree.Prelude.BTreeMap.Order.{Every-get}
use sim_expr_tree.Book.Model.{Objection, Branch}
use sim_expr_tree.Book.Edit.{ExpeditionBook}
use sim_expr_tree.Book.Edit.Valid.{IsValid, BranchIsValid}
use sim_expr_tree.Book.Codec.{
  fields, book_values, branch_values, header, encode, decode, decode_body, or_empty,
}
use sim_expr_tree.Book.Codec.Fields.{malformed, push_str, field, is_empty}
use sim_expr_tree.Book.Codec.Trip.{take-field, take_u64-field}
use sim_expr_tree.Book.Codec.Loops.{
  IsUsize, RefsFit, ObjectionFits, BranchFits, normal_name, normal_branches,
  normal_branches-Ascending, decode_branches_lem,
}

-- sizes that memory holds
pub record ObjectionSizes (o : Objection) : Type 0 where
  pub id : IsUsize (len o.id)
  pub statement : IsUsize (len o.statement)
  pub count : IsUsize (length o.evidence)
  pub evidence : RefsFit o.evidence

pub record BranchSizes (b : Branch) : Type 0 where
  pub id : IsUsize (len b.id)
  pub parent : IsUsize (len (or_empty b.parent))
  pub thesis : IsUsize (len b.thesis)
  pub next_play : IsUsize (len (or_empty b.next_play))
  pub references : IsUsize (length b.evidence)
  pub evidence : RefsFit b.evidence
  pub count : IsUsize (length b.objections)
  pub objections : (k : String) (o : Objection) → get k b.objections ≡ some o → ObjectionSizes o

pub record Sizes (book : ExpeditionBook) : Type 0 where
  pub id : IsUsize (len book.id)
  pub revision : IsUsize book.revision
  pub choice : IsUsize (len (or_empty book.choice))
  pub count : IsUsize (length book.branches)
  pub branches : (k : String) (b : Branch) → get k book.branches ≡ some b → BranchSizes b

-- the book that is read back: the same, but that an empty name of a choice, parent or play is none
abbrev pub normal : ExpeditionBook → ExpeditionBook
normal book = record book {
  branches = normal_branches book.branches;
  choice = normal_name book.choice;
}

branch_fits : (k : String) (b : Branch) → BranchIsValid k b → BranchSizes b → BranchFits k b
branch_fits k b valid sizes = record {
  keyed = valid.keyed;
  id = sizes.id;
  parent = sizes.parent;
  thesis = sizes.thesis;
  next_play = sizes.next_play;
  references = sizes.references;
  evidence = sizes.evidence;
  ascending = valid.objections;
  count = sizes.count;
  objections = Every-get ObjectionFits b.objections valid.objections λ j o found.
      let size = sizes.objections j o found in
      record {
        keyed = valid.objection_keyed j o found;
        id = size.id;
        statement = size.statement;
        count = size.count;
        evidence = size.evidence;
      };
}

skip_header : (h t : String) → slice (push_str h t) (len h) (len (push_str h t)) ≡ t
skip_header h t = rw (len-append h t) (slice-append_right h t)

fields-push_str :
    (vs : List String) (s t : String) → push_str (fields vs s) t ≡ fields vs (push_str s t)
unfolding fields
fields-push_str [] s t = refl
fields-push_str (v ∷ vs) s t =
    text_assoc (field v) (fields vs s) t ∙ ap (push_str (field v)) (fields-push_str vs s t)

module _ (book : ExpeditionBook) (valid : IsValid book) (sizes : Sizes book) where
  decode_body_lem :
      (tail : String)
      → (decode_body (fields (book_values book) tail)).0
        ≡ (if is_empty tail then ok (normal book) else err (malformed "trailing bytes"))
  unfolding decode_body book_values fields
  decode_body_lem tail =
      rw
        (
          take-field book.id _ sizes.id,
          take_u64-field "revision" book.revision _ sizes.revision,
          take-field (or_empty book.choice) _ sizes.choice,
          take_u64-field "branch count" (length book.branches) _ sizes.count,
          sym (append-nil (branch_values (values book.branches))),
          decode_branches_lem book.branches [] [] tail
              (normal_branches-Ascending book.branches valid.ascending)
              (Every-get BranchFits book.branches valid.ascending
                λ k b found. branch_fits k b (valid.rows k b found) (sizes.branches k b found)),
        )
        (finish (is_empty tail))
    where
      finish :
          (empty : Bool)
          → (continue {S = String}
              (if empty then ok tt else err (malformed "trailing bytes"))
              (λ _. pure (normal book))
              tail).0
            ≡ (if empty then ok (normal book) else err (malformed "trailing bytes"))
      finish true = refl
      finish false = refl

  decode-fields :
      (tail : String)
      → decode (push_str header (fields (book_values book) tail))
        ≡ (if is_empty tail then ok (normal book) else err (malformed "trailing bytes"))
  unfolding decode
  decode-fields tail =
      let t = fields (book_values book) tail in
      rw (starts_with-append header t, skip_header header t) (decode_body_lem tail)

  -- A valid book of a size that memory holds is read back from its canonical text, field by field, but that
  -- an empty name of the choice, of a parent or of a next play comes back as none.
  pub decode-encode : decode (encode book) ≡ ok (normal book)
  unfolding encode
  decode-encode = decode-fields ""

  -- A text that goes on behind the canonical text of such a book is refused, whatever follows.
  pub decode-encode_trailing :
      (tail : String)
      → is_empty tail ≡ false
      → decode (push_str (encode book) tail) ≡ err (malformed "trailing bytes")
  unfolding encode
  decode-encode_trailing tail more =
      rw
        (
          text_assoc header (fields (book_values book) "") tail,
          fields-push_str (book_values book) "" tail,
          nil_append tail,
        )
        rw (decode-fields tail, more) refl
