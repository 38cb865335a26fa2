-- ===== src/Book/Codec.antt =====
-- crates/sim-lib-expedition-book/src/codec.rs: the canonical text of a book.
pub mod Fields
pub mod Trip
pub mod Loops
pub mod Round
use Prim.Native.String.{len, slice}
use text.Mathlib.Text.{starts_with}
use sim_expr_tree.Prelude.{
  ℕ, zero, suc, String, Bool, true, false, Option, none, some, List, [], ◌∷◌, ◌++◌, Result, ok, err,
  ok_or, length, ◌==◌, string_eq, if◌then◌else◌,
}
use sim_expr_tree.Prelude.Chars.{take_chars}
use sim_expr_tree.Prelude.Decimal.{decimal, parse_u64, is_digit}
use sim_expr_tree.Prelude.Exec.{◌>>=◌, ◌>>◌, pure, check}
use sim_expr_tree.Prelude.BTreeMap.{BTreeMap, insert, values}
use sim_expr_tree.Book.Model.{EvidenceRef, Objection, Branch, ExpeditionBookSnapshot}
use sim_expr_tree.Book.Edit.{ExpeditionBook}
use sim_expr_tree.Book.Codec.Fields.{
  CodecError, unsupported_version, malformed, Reader, field, take, split_once, push_str, is_empty,
}

-- `as_deref().unwrap_or("")`
abbrev pub or_empty : Option String → String
or_empty none = ""
or_empty (some s) = s

-- `match … { "" => None, s => Some(s) }`
abbrev pub non_empty : String → Option String
non_empty s = if s == "" then none else some s

abbrev pub flag : Bool → String
flag true = "1"
flag false = "0"

-- The values that `encode` pushes, in the order of its statements.
unfoldable pub ref_values : List EvidenceRef → List String
ref_values [] = []
ref_values (r ∷ refs) = r.kind ∷ r.content_key ∷ ref_values refs

unfoldable pub objection_values : List Objection → List String
unfolding ref_values
objection_values [] = []
objection_values (o ∷ objections) =
    o.id
    ∷ o.statement
    ∷ decimal (length o.evidence)
    ∷ (ref_values o.evidence ++ objection_values objections)

unfoldable pub branch_values : List Branch → List String
unfolding ref_values objection_values
branch_values [] = []
branch_values (b ∷ branches) =
    b.id
    ∷ or_empty b.parent
    ∷ b.thesis
    ∷ or_empty b.next_play
    ∷ flag b.sealed
    ∷ decimal (length b.evidence)
    ∷ (ref_values b.evidence
        ++ (decimal (length b.objections)
            ∷ (objection_values (values b.objections) ++ branch_values branches)))

unfoldable pub book_values : ExpeditionBook → List String
unfolding branch_values
book_values book =
    book.id
    ∷ decimal book.revision
    ∷ or_empty book.choice
    ∷ decimal (length book.branches)
    ∷ branch_values (values book.branches)

-- the fields of values, and a text after them
unfoldable pub fields : List String → String → String
unfolding field
fields [] tail = tail
fields (v ∷ vs) tail = push_str (field v) (fields vs tail)

abbrev pub header : String
header = "expedition-book/v1"

unfoldable pub encode : ExpeditionBook → String
unfolding fields book_values
encode book = push_str header (fields (book_values book) "")

-- `ExpeditionBook::snapshot`, of edit.rs
unfoldable pub snapshot : ExpeditionBook → ExpeditionBookSnapshot
unfolding encode
snapshot book = record { book_id = book.id; revision = book.revision; payload = encode book }

-- `take(&mut input)?.parse().map_err(…)?`
unfoldable pub take_u64 : String → Reader ℕ
unfolding take
take_u64 what = do text ← take; check (λ _. ok_or (malformed what) (parse_u64 text))

-- The loops of `decode`.
unfoldable pub decode_refs : ℕ → Reader (List EvidenceRef)
unfolding take
decode_refs zero = pure []
decode_refs (suc n) = do
  kind ← take
  content_key ← take
  refs ← decode_refs n
  pure (record { kind = kind; content_key = content_key } ∷ refs)

unfoldable pub decode_objections : ℕ → BTreeMap Objection → Reader (BTreeMap Objection)
unfolding take take_u64 decode_refs
decode_objections zero objections = pure objections
decode_objections (suc n) objections = do
  id ← take
  statement ← take
  count ← take_u64 "objection reference count"
  refs ← decode_refs count
  decode_objections n
      (insert id (record { id = id; statement = statement; evidence = refs }) objections)

unfoldable pub decode_branch : Reader Branch
unfolding take take_u64 decode_refs decode_objections
decode_branch = do
  id ← take
  parent ← take
  thesis ← take
  next_play ← take
  sealed ← take
  refs ← take_u64 "reference count"
  evidence ← decode_refs refs
  count ← take_u64 "objection count"
  objections ← decode_objections count []
  pure (record {
    id = id;
    parent = non_empty parent;
    thesis = thesis;
    evidence = evidence;
    objections = objections;
    next_play = non_empty next_play;
    sealed = sealed == "1";
  })

unfoldable pub decode_branches : ℕ → BTreeMap Branch → Reader (BTreeMap Branch)
unfolding decode_branch
decode_branches zero branches = pure branches
decode_branches (suc n) branches = do
  branch ← decode_branch
  decode_branches n (insert branch.id branch branches)

unfoldable pub decode_body : Reader ExpeditionBook
unfolding take take_u64 decode_branches
decode_body = do
  id ← take
  revision ← take_u64 "revision"
  choice ← take
  count ← take_u64 "branch count"
  branches ← decode_branches count []
  check (λ rest. if is_empty rest then ok tt else err (malformed "trailing bytes"))
  pure (record { id = id; revision = revision; branches = branches; choice = non_empty choice })

-- the version that is named in the error: what follows the first digit, at most eight characters
unfoldable pub version_of : String → String
unfolding split_once
version_of encoded = elim (split_once is_digit encoded) [
  | none ↦ take_chars 8 "unversioned"
  | some cut ↦ take_chars 8 cut.1
]

unfoldable pub decode : String → Result CodecError ExpeditionBook
unfolding decode_body version_of
decode encoded =
    if starts_with encoded header
    then (decode_body (slice encoded (len header) (len encoded))).0
    else err (unsupported_version (version_of encoded))
