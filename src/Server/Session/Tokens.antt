-- ===== src/Server/Session/Tokens.antt =====
-- What is done with a session, and what each call does to its continuation tokens.
use sim_expr_tree.Prelude.{
  ℕ, String, true, not, ◌||◌, ◌≡◌, ◌⊎◌, refl, sym, subst, leb, length, Result, ok, inl, inr, Option,
  none, some, List, [], ◌∷◌, err, Bool-cases, Option-cases, Result-cases, ◌==◌, string_eq, nat_eq,
}
use sim_expr_tree.Prelude.Exec.{pure, ◌>>◌}
use sim_expr_tree.Prelude.HashMap.{get, remove}
use sim_expr_tree.Prelude.BTreeMap.{BTreeMap}
use sim_expr_tree.Server.Model.{ServerError, ServerLimits}
use sim_expr_tree.Server.Session
use sim_expr_tree.Server.Session.{SessionRecord, Place, Method, new_session, continuation}
use sim_expr_tree.Server.Session.Page.{TreeView, snapshot_of}
use sim_expr_tree.Server.Session.Page.Keeps.{snapshot-Keeps}
use sim_expr_tree.Server.Session.Local
use sim_expr_tree.Server.Session.Local.{
  LocalOperation, by_name, continue_page, disclose, path_or_root, same_session,
}

-- what the server does with a session
pub data SessionCall (C : Type 0) : Type 0 where
  snapshot : TreeView C → SessionCall C
  operate : LocalOperation → SessionCall C
  changed : String → Option String → ℕ → Option ℕ → SessionCall C
  subscribe : SessionCall C
  poll_watch : String → ℕ → SessionCall C
  cancel_watch : String → SessionCall C
  drain_changes : SessionCall C
  -- a request counts as activity
  touch : ℕ → SessionCall C

module _ {C : Type 0} (limits : ServerLimits) where
  unfoldable pub run : SessionCall C → SessionRecord → SessionRecord
  run (snapshot tree) s = (snapshot_of tree limits s).1
  run (operate operation) s = (Local.apply_surface_local operation limits s).1
  run (changed kind path tick wall) s = Session.changed kind path tick wall limits s
  run subscribe s = (Session.subscribe limits s).1
  run (poll_watch watch limit) s = (Session.poll_watch watch limit s).1
  run (cancel_watch watch) s = (Session.cancel_watch watch s).1
  run drain_changes s = (Session.drain_changes s).1
  run (touch tick) s = record s { last_activity_tick = tick }

  unfoldable pub run_all : List (SessionCall C) → SessionRecord → SessionRecord
  unfolding run
  run_all [] s = s
  run_all (call ∷ calls) s = run_all calls (run call s)

-- what is known of the tokens and of the count of those issued
abbrev pub Known : Type 1
Known = BTreeMap Place → ℕ → Type 0

-- the tokens are as they were, or one is taken out
pub record TakesOut (s t : SessionRecord) : Type 0 where
  pub next : t.next_continuation ≡ s.next_continuation
  pub tokens :
      (t.continuations ≡ s.continuations)
      ⊎ ((k : String) × (t.continuations ≡ remove k s.continuations))

continue_page-TakesOut :
    (path : String) (token : Option String) (limits : ServerLimits) (s : SessionRecord)
    → TakesOut s (continue_page path token limits s).1
unfolding continue_page
continue_page-TakesOut path none limits s = record { next = refl; tokens = inl refl }
continue_page-TakesOut path (some token) limits s =
    elim (Option-cases (get token s.continuations)) [
      | inl missing ↦ rw (continue_page, missing) (record { next = refl; tokens = inl refl })
      | inr (place, found) ↦
          elim (Bool-cases (not (place.issued == s.revision) || not (place.path == path))) [
            | inl stale ↦
                rw (continue_page, found, stale)
                  (record { next = refl; tokens = inr (token, refl) })
            | inr fresh ↦
                rw (continue_page, found, fresh)
                  (record { next = refl; tokens = inr (token, refl) })
          ]
    ]

by_name-TakesOut :
    (name : String) (operation : LocalOperation) (limits : ServerLimits) (s : SessionRecord)
    → TakesOut s (by_name name operation limits s).1
unfolding by_name disclose
by_name-TakesOut name operation limits s = elim (Bool-cases (name == "disclose")) [
  | inl yes_ ↦ elim (Bool-cases operation.is_open) [
    | inl is_open ↦ rw (by_name, yes_, is_open) (record { next = refl; tokens = inl refl })
    | inr closed ↦ rw (by_name, yes_, closed) (record { next = refl; tokens = inl refl })
  ]
  | inr no_ ↦ elim (Bool-cases (name == "continue")) [
    | inl yes_ ↦
        rw (by_name, no_, yes_)
          (continued (continue_page path operation.continuation limits s) taken)
    | inr other ↦ elim (Bool-cases (name == "open-policy")) [
      | inl policy ↦ rw (by_name, no_, other, policy) (record { next = refl; tokens = inl refl })
      | inr unknown ↦ rw (by_name, no_, other, unknown) (record { next = refl; tokens = inl refl })
    ]
  ]
]
  where
    path : String
    path = path_or_root operation.path

    taken : TakesOut s (continue_page path operation.continuation limits s).1
    taken = continue_page-TakesOut path operation.continuation limits s

    continued :
        (x : Result ServerError (Unit {0}) × SessionRecord)
        → TakesOut s x.1
        → TakesOut s (((λ _. x) >> pure true) s).1
    continued (ok a, t) h = h
    continued (err e, t) h = h

pub apply_surface_local-TakesOut :
    (operation : LocalOperation) (limits : ServerLimits) (s : SessionRecord)
    → TakesOut s (Local.apply_surface_local operation limits s).1
unfolding Local.apply_surface_local
apply_surface_local-TakesOut operation limits s = elim (Option-cases operation.op) [
  | inl missing ↦ rw (Local.apply_surface_local, missing) kept
  | inr (op, named) ↦ elim (Option-cases operation.tree) [
    | inl missing ↦ rw (Local.apply_surface_local, named, missing) kept
    | inr (tree, targeted) ↦ elim (Bool-cases (same_session s.id tree)) [
      | inr other ↦ rw (Local.apply_surface_local, named, targeted, other) kept
      | inl own ↦ elim (Result-cases operation.revision) [
        | inl (e, unread) ↦ rw (Local.apply_surface_local, named, targeted, own, unread) kept
        | inr (revision, read) ↦ elim (Bool-cases (revision == s.revision)) [
          | inr stale ↦ rw (Local.apply_surface_local, named, targeted, own, read, stale) kept
          | inl fresh ↦
              rw (Local.apply_surface_local, named, targeted, own, read, fresh)
                (by_name-TakesOut op operation limits s)
        ]
      ]
    ]
  ]
]
  where
    kept : TakesOut s s
    kept = record { next = refl; tokens = inl refl }

-- The methods keep what is known where an issue, a removal and a reset of the tokens do.
module _ (limits : ServerLimits) (Q : Known)
    (issued : (path : String) (offset : ℕ) (s : SessionRecord)
      → Q s.continuations s.next_continuation
      → Q
          (continuation path offset s).1.continuations
          (continuation path offset s).1.next_continuation)
    (removed : (k : String) (m : BTreeMap Place) (n : ℕ) → Q m n → Q (remove k m) n)
    (cleared : (m : BTreeMap Place) (n : ℕ) → Q m n → Q [] n) where
  abbrev pub Holds : SessionRecord → Type 0
  Holds s = Q s.continuations s.next_continuation

  pub TakesOut-Holds : (s t : SessionRecord) → TakesOut s t → Holds s → Holds t
  TakesOut-Holds s t out h = elim out.tokens [
    | inl same ↦
        subst (λ n. Q t.continuations n) (sym out.next)
          (subst (λ m. Q m s.next_continuation) (sym same) h)
    | inr (k, less) ↦
        subst (λ n. Q t.continuations n) (sym out.next)
          (subst (λ m. Q m s.next_continuation) (sym less)
            (removed k s.continuations s.next_continuation h))
  ]

  subscribe-Holds : (s : SessionRecord) → Holds s → Holds (Session.subscribe limits s).1
  unfolding Session.subscribe
  subscribe-Holds s h = elim (Bool-cases (leb limits.max_watches_per_session (length s.watches))) [
    | inl full ↦ rw (Session.subscribe, full) h
    | inr room ↦ rw (Session.subscribe, room) h
  ]

  poll_watch-Holds :
      (watch : String) (limit : ℕ) (s : SessionRecord)
      → Holds s
      → Holds (Session.poll_watch watch limit s).1
  unfolding Session.poll_watch
  poll_watch-Holds watch limit s h = elim (Option-cases (get watch s.watches)) [
    | inl missing ↦ rw (Session.poll_watch, missing) h
    | inr (w, found) ↦ rw (Session.poll_watch, found) h
  ]

  cancel_watch-Holds :
      (watch : String) (s : SessionRecord) → Holds s → Holds (Session.cancel_watch watch s).1
  unfolding Session.cancel_watch
  cancel_watch-Holds watch s h = elim (Option-cases (get watch s.watches)) [
    | inl missing ↦ rw (Session.cancel_watch, missing) h
    | inr (w, found) ↦ rw (Session.cancel_watch, found) h
  ]

  run-Holds :
      {C : Type 0} (call : SessionCall C) (s : SessionRecord) → Holds s → Holds (run limits call s)
  unfolding run Session.changed Session.subscribe Session.drain_changes Session.poll_watch
      Session.cancel_watch
  run-Holds (snapshot tree) s h =
      snapshot-Keeps tree.inspect_entries tree.inspect_cell tree.wall_finished_ms limits Holds
        issued s (cleared s.continuations s.next_continuation h)
  run-Holds (operate operation) s h =
      TakesOut-Holds s (Local.apply_surface_local operation limits s).1
        (apply_surface_local-TakesOut operation limits s) h
  run-Holds (changed kind path tick wall) s h = h
  run-Holds subscribe s h = subscribe-Holds s h
  run-Holds (poll_watch watch limit) s h = poll_watch-Holds watch limit s h
  run-Holds (cancel_watch watch) s h = cancel_watch-Holds watch s h
  run-Holds (touch tick) s h = h
  run-Holds drain_changes s h = h

  pub run_all-Holds :
      {C : Type 0} (calls : List (SessionCall C)) (s : SessionRecord)
      → Holds s
      → Holds (run_all limits calls s)
  unfolding run_all
  run_all-Holds [] s h = h
  run_all-Holds (call ∷ calls) s h = run_all-Holds calls (run limits call s) (run-Holds call s h)
