-- ===== src/Server/Session/Once.antt =====
-- A continuation token that has been presented never comes back.
use sim_expr_tree.Prelude.{
  ℕ, suc, ◌%◌, ◌^◌, ◌<◌, String, true, not, ◌||◌, ◌≡◌, refl, ap, ◌∙◌, inl, inr, none, some, List,
  ok, err, arith, Bool-cases, Option-cases, Result, ◌==◌, beq_refl, string_eq, nat_eq,
  saturating_add,
}
use Prim.Native.String.{◌++◌}
use sim_expr_tree.Prelude.Exec.{pure, ◌>>◌}
use sim_expr_tree.Prelude.Hex.{hex16, hex_value, hex_value-++, hex_value-hex16}
use sim_expr_tree.Prelude.HashMap.{get, get-remove, get-remove_self}
use sim_expr_tree.Prelude.BTreeMap.{get-insert}
use sim_expr_tree.Server.Model.{ServerError, new_error, ServerLimits}
use sim_expr_tree.Server.Session.{SessionRecord, Place, new_session, continuation}
use sim_expr_tree.Server.Session.Local
use sim_expr_tree.Server.Session.Local.{LocalOperation, by_name, continue_page, path_or_root}
use sim_expr_tree.Server.Session.Tokens.{
  SessionCall, run_all, Known, run_all-Holds, apply_surface_local-TakesOut,
}

-- an operation that asks for the next part of a page: it is for this session, was rendered at its present
-- revision, and holds the token
pub record Presents (operation : LocalOperation) (token : String) (s : SessionRecord) : Type 0 where
  pub op : operation.op ≡ some "continue"
  pub tree : operation.tree ≡ some (some s.id)
  pub revision : operation.revision ≡ ok s.revision
  pub continuation : operation.continuation ≡ some token

abbrev pub unknown_token : ServerError
unknown_token = new_error "invalid-continuation" "continuation token is unknown or already consumed"

-- the count at the end of a token's text
abbrev number : String → ℕ
number token = hex_value 0 token % 2 ^ 64

hex_value_last :
    (a b c d e t : String)
    → hex_value 0 (a ++ (b ++ (c ++ (d ++ (e ++ t)))))
      ≡ hex_value (hex_value (hex_value (hex_value (hex_value (hex_value 0 a) b) c) d) e) t
hex_value_last a b c d e t =
    hex_value-++ 0 a _
    ∙ hex_value-++ _ b _
    ∙ hex_value-++ _ c _
    ∙ hex_value-++ _ d _
    ∙ hex_value-++ _ e t

number-continuation :
    (path : String) (offset : ℕ) (s : SessionRecord)
    → s.next_continuation < 2 ^ 64
    → number (continuation path offset s).0 ≡ s.next_continuation
unfolding continuation
number-continuation path offset s h =
    rw (hex_value_last "page-" s.id "-" (hex16 s.revision) "-" (hex16 s.next_continuation))
      (hex_value-hex16 _ s.next_continuation h)

-- while the count of tokens has not come to its end, every token has a number below it
abbrev IsNumbered : Known
IsNumbered m n =
    suc n < 2 ^ 64 → (token : String) (place : Place) → get token m ≡ some place → number token < n

-- the same of a token that was handed out, and is not there any more
abbrev IsSpent : String → Known
IsSpent token m n = suc n < 2 ^ 64 → (get token m ≡ none) × (number token < n)

next_issue :
    (n : ℕ) → suc (saturating_add n 1) < 2 ^ 64 → (suc n < 2 ^ 64) × (n < saturating_add n 1)
unfolding saturating_add
next_issue n h = ground arith

continuation-IsNumbered :
    (path : String) (offset : ℕ) (s : SessionRecord)
    → IsNumbered s.continuations s.next_continuation
    → IsNumbered
        (continuation path offset s).1.continuations
        (continuation path offset s).1.next_continuation
unfolding continuation
continuation-IsNumbered path offset s h more token place found =
    let (small, up) = next_issue s.next_continuation more in
    let made = (continuation path offset s).0 in
    let its : number made ≡ s.next_continuation =
      number-continuation path offset s (omega (arith, small)) in
    elim (Bool-cases (made == token)) [
      | inl same ↦
          let e : number made ≡ number token = ap number ((string_eq.beq_iff made token).0 same) in
          omega (arith, e, its, up)
      | inr other ↦
          let old =
            h small token place (rw (get-insert made token _ s.continuations, other) at found) in
          omega (arith, old, up)
    ]

continuation-IsSpent :
    (token path : String) (offset : ℕ) (s : SessionRecord)
    → IsSpent token s.continuations s.next_continuation
    → IsSpent token
        (continuation path offset s).1.continuations
        (continuation path offset s).1.next_continuation
unfolding continuation
continuation-IsSpent token path offset s h more =
    let (small, up) = next_issue s.next_continuation more in
    let (gone, below) = h small in
    let made = (continuation path offset s).0 in
    let its : number made ≡ s.next_continuation =
      number-continuation path offset s (omega (arith, small)) in
    elim (Bool-cases (made == token)) [
      | inl same ↦
          let e : number made ≡ number token = ap number ((string_eq.beq_iff made token).0 same) in
          absurd (omega (arith, e, its, below))
      | inr other ↦
          (rw (get-insert made token _ s.continuations, other) gone, omega (arith, below, up))
    ]

module _ (limits : ServerLimits) where
  tokens_numbered :
      {C : Type 0} (id : String) (tick : ℕ) (calls : List (SessionCall C))
      → let s = run_all limits calls (new_session id tick) in
        IsNumbered s.continuations s.next_continuation
  unfolding new_session get
  tokens_numbered id tick calls =
      run_all-Holds limits IsNumbered continuation-IsNumbered
        (λ k m n h small token place found.
          h small token place (ground (arith, get-remove k token m)))
        (λ m n h small token place found. absurd (ground arith)) calls (new_session id tick)
        (λ small token place found. absurd (ground arith))

  stays_spent :
      {C : Type 0} (token : String) (calls : List (SessionCall C)) (s : SessionRecord)
      → IsSpent token s.continuations s.next_continuation
      → let t = run_all limits calls s in IsSpent token t.continuations t.next_continuation
  unfolding get
  stays_spent token calls s h =
      run_all-Holds limits (IsSpent token) (continuation-IsSpent token)
        (λ k m n h small.
          let (gone, below) = h small in (ground (arith, get-remove k token m), below))
        (λ m n h small. let (gone, below) = h small in (refl, below)) calls s h

  consumed :
      (path token : String) (s : SessionRecord)
      → get token (continue_page path (some token) limits s).1.continuations ≡ none
  unfolding continue_page
  consumed path token s = elim (Option-cases (get token s.continuations)) [
    | inl missing ↦ rw (continue_page, missing) missing
    | inr (place, found) ↦
        elim (Bool-cases (not (place.issued == s.revision) || not (place.path == path))) [
          | inl stale ↦ rw (continue_page, found, stale) (get-remove_self token s.continuations)
          | inr fresh ↦ rw (continue_page, found, fresh) (get-remove_self token s.continuations)
        ]
  ]

  presented :
      (operation : LocalOperation) (token : String) (s : SessionRecord)
      → Presents operation token s
      → (Local.apply_surface_local operation limits s) ≡ by_name "continue" operation limits s
  unfolding Local.apply_surface_local
  presented operation token s h =
      rw (Local.apply_surface_local, h.op, h.tree, beq_refl s.id, h.revision, beq_refl s.revision)
        refl

  spent :
      (operation : LocalOperation) (token : String) (place : Place) (s : SessionRecord)
      → IsNumbered s.continuations s.next_continuation
      → get token s.continuations ≡ some place
      → Presents operation token s
      → let t = (Local.apply_surface_local operation limits s).1 in
        IsSpent token t.continuations t.next_continuation
  unfolding by_name
  spent operation token place s numbered held h small =
      let same = (apply_surface_local-TakesOut operation limits s).next in
      let below = numbered (rw same at small) token place held in
      (
        rw (presented operation token s h, by_name, h.continuation)
            (after_page (continue_page (path_or_root operation.path) (some token) limits s)
              (consumed (path_or_root operation.path) token s)),
        rw same below,
      )
    where
      after_page :
          (x : Result ServerError (Unit {0}) × SessionRecord)
          → get token x.1.continuations ≡ none
          → get token (((λ _. x) >> pure true) s).1.continuations ≡ none
      after_page (ok a, t) gone = gone
      after_page (err e, t) gone = gone

  refused_token :
      (operation : LocalOperation) (token : String) (s : SessionRecord)
      → get token s.continuations ≡ none
      → Presents operation token s
      → (Local.apply_surface_local operation limits s).0 ≡ err unknown_token
  unfolding by_name continue_page
  refused_token operation token s gone h =
      rw (presented operation token s h, by_name, h.continuation, continue_page, gone) refl

  -- In a session that was opened and then used in any way, let an operation for this session, rendered at its
  -- present revision, present a continuation token that the session holds. However it is answered, and
  -- whatever is done with the session after it, snapshots that issue further tokens included, an operation
  -- that presents the token again, for this session and rendered at its then present revision, is refused as
  -- unknown or already consumed, as long as the session has issued fewer than 2 ^ 64 - 2 tokens.
  pub apply_surface_local-once :
      {C : Type 0} (id : String) (tick : ℕ) (before after : List (SessionCall C))
      (first again : LocalOperation) (token : String) (place : Place)
      → let s = run_all limits before (new_session id tick) in
        let t = run_all limits after (Local.apply_surface_local first limits s).1 in
        Presents first token s
        → get token s.continuations ≡ some place
        → Presents again token t
        → suc t.next_continuation < 2 ^ 64
        → (Local.apply_surface_local again limits t).0 ≡ err unknown_token
  apply_surface_local-once id tick before after first again token place now held later room =
      let s = run_all limits before (new_session id tick) in
      let taken = (Local.apply_surface_local first limits s).1 in
      let begun = spent first token place s (tokens_numbered id tick before) held now in
      refused_token again token (run_all limits after taken)
        (stays_spent token after taken begun room).0 later
