-- ===== src/Server/Session/Local.antt =====
-- `SessionRecord::apply_surface_local`: the operations on the view of a session. The fields that the code
-- reads from the expression of an operation are a record.
use Prim.Native.String.{◌++◌}
use sim_expr_tree.Prelude.{
  ℕ, String, Bool, true, false, not, ◌||◌, Option, none, some, Result, ok, err, ok_or,
  saturating_add, ◌==◌, string_eq, nat_eq, if◌then◌else◌,
}
use sim_expr_tree.Prelude.Decimal.{decimal}
use sim_expr_tree.Prelude.Exec.{◌>>=◌, ◌>>◌, pure, check, modify}
use sim_expr_tree.Prelude.HashMap.{get, remove}
use sim_expr_tree.Prelude.BTreeMap.{insert, retain}
use sim_expr_tree.Server.Model.{ServerError, new_error, ServerLimits}
use sim_expr_tree.Server.Session.{SessionRecord, Method, under}

pub record LocalOperation : Type 0 where
  -- the name of the symbol in the field op
  pub op : Option String
  -- the field tree, and the session where it is the resource of one
  pub tree : Option (Option String)
  -- what `protocol::uint` reads of the field revision
  pub revision : Result ServerError ℕ
  -- the field path, where it is a text
  pub path : Option String
  -- the first argument is true
  pub is_open : Bool
  -- the field continuation, where it is a text
  pub continuation : Option String

abbrev pub same_session : String → Option String → Bool
same_session id none = false
same_session id (some other) = other == id

abbrev pub path_or_root : Option String → String
path_or_root none = "/"
path_or_root (some path) = path

unfoldable pub stale_text : ℕ → ℕ → String
stale_text rendered current =
    "rendered revision "
    ++ (decimal rendered ++ (" does not match current revision " ++ decimal current))

abbrev pub require : Bool → ServerError → Result ServerError (Unit {0})
require true e = ok tt
require false e = err e

unfoldable pub disclose : String → Bool → SessionRecord → SessionRecord
unfolding under
disclose path is_open s =
    if is_open then record s { expanded = insert path tt s.expanded } else record s {
      expanded = retain (λ expanded. expanded == "/" || not (under expanded path)) s.expanded;
    }

-- a token is taken out before it is looked at, so a refused one is consumed too
unfoldable pub continue_page : String → Option String → ServerLimits → Method (Unit {0})
continue_page path token limits = do
  token ←
      check
        (λ _. ok_or (new_error "invalid-continuation" "continuation operation has no token") token)
  place ← check (λ s.
      ok_or (new_error "invalid-continuation" "continuation token is unknown or already consumed")
        (get token s.continuations))
  modify (λ s. record s { continuations = remove token s.continuations })
  check (λ s.
      require (not (not (place.issued == s.revision) || not (place.path == path)))
        (new_error "stale-continuation" "continuation token does not match the current snapshot"))
  modify (λ s. record s {
    page_sizes = insert path (saturating_add place.offset limits.max_page_entries) s.page_sizes;
  })

-- the part that goes by the operation's name
unfoldable pub by_name : String → LocalOperation → ServerLimits → Method Bool
unfolding disclose continue_page
by_name name operation limits =
    let path = path_or_root operation.path in
    if name == "disclose"
    then (do modify (disclose path operation.is_open); pure true)
    else if name == "continue"
    then (do continue_page path operation.continuation limits; pure true)
    else if name == "open-policy"
    then pure false
    else check
        (λ _. err (new_error "invalid-operation" ("unsupported local surface operation " ++ name)))

unfoldable pub apply_surface_local : LocalOperation → ServerLimits → Method Bool
unfolding by_name stale_text
apply_surface_local operation limits = do
  op ← check (λ _. ok_or (new_error "invalid-operation" "surface operation has no op") operation.op)
  tree ← check (λ _. ok_or (new_error "invalid-request" "missing field tree") operation.tree)
  check (λ s.
      require (same_session s.id tree)
        (new_error "session-mismatch" "surface operation targets another session"))
  revision ← check (λ _. operation.revision)
  check (λ s.
      require (revision == s.revision)
        (new_error "stale-revision" (stale_text revision s.revision)))
  by_name op operation limits
