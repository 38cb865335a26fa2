-- ===== src/Server/Registry/Held.antt =====
-- A session that is in flight: what keeps it so.
use sim_expr_tree.Prelude.{
  ℕ, String, true, false, ◌≡◌, refl, inl, inr, some, arith, Bool-cases, Option-cases, ◌==◌,
  string_eq, saturating_add,
}
use sim_expr_tree.Prelude.Exec.{modify, ◌>>◌}
use sim_expr_tree.Prelude.HashMap.{get, contains_key, get-remove}
use sim_expr_tree.Prelude.BTreeMap.{insert, get-insert}
use sim_expr_tree.Prelude.BTreeMap.Order.{Ascending, insert-Ascending, retain_entries-Ascending}
use sim_expr_tree.Prelude.BTreeMap.Entries.{get-retain_entries, remove-Ascending}
use sim_expr_tree.Server.Model.{ServerLimits}
use sim_expr_tree.Server.Session.{SessionRecord, Method}
use sim_expr_tree.Server.Registry
use sim_expr_tree.Server.Registry.{
  Registry, expire_idle, begin_request, reserved_session, session_mut, request, stays,
  commit_method, finish_method, finish,
}

module _ (limits : ServerLimits) (id : String) (s : SessionRecord) where
  -- the session is there, and in flight
  pub record Held (r : Registry) : Type 0 where
    pub ascending : Ascending r.sessions
    pub found : get id r.sessions ≡ some s
    pub in_flight : contains_key id r.in_flight ≡ true

  pub expire_idle-Held : (r : Registry) → Held r → Held (expire_idle limits r)
  unfolding expire_idle
  expire_idle-Held r h = record {
    ascending = retain_entries-Ascending (stays limits r) r.sessions h.ascending;
    found =
        rw (get-retain_entries (stays limits r) id r.sessions h.ascending, h.found, h.in_flight)
          refl;
    in_flight = h.in_flight;
  }

  pub begin_request-Held : (r : Registry) → Held r → Held (begin_request limits r).1
  unfolding begin_request
  begin_request-Held r h =
      expire_idle-Held (record r { next_tick = saturating_add r.next_tick 1 })
        (record { ascending = h.ascending; found = h.found; in_flight = h.in_flight })

  apart :
      (other : String) (r : Registry)
      → Held r
      → contains_key other r.in_flight ≡ false
      → (other == id) ≡ false
  apart other r h free = elim (Bool-cases (other == id)) [
    | inr no_ ↦ no_
    | inl same ↦ absurd (clash ((string_eq.beq_iff other id).0 same))
  ]
    where
      clash : other ≡ id → ⊥
      clash same =
          let held = h.in_flight in
          let there : contains_key other r.in_flight ≡ true = rw same held in ground arith

  pub insert-Held :
      (other : String) (t : SessionRecord) (r : Registry)
      → (other == id) ≡ false
      → Held r
      → Held (record r { sessions = insert other t r.sessions })
  insert-Held other t r no_ h = record {
    ascending = insert-Ascending other t r.sessions h.ascending;
    found = rw (get-insert other id t r.sessions, no_) h.found;
    in_flight = h.in_flight;
  }

  pub reserved_session-Held :
      {A : Type 0} (other : String) (method : Method A) (r : Registry)
      → (other == id) ≡ false
      → Held r
      → Held (reserved_session limits other method r).1
  unfolding reserved_session
  reserved_session-Held other method r no_ h = elim (Option-cases (get other r.sessions)) [
    | inl missing ↦ rw (reserved_session, missing) h
    | inr (t, found) ↦ rw (reserved_session, found) (insert-Held other (method t).1 r no_ h)
  ]

  session_mut-Held :
      {A : Type 0} (other : String) (method : Method A) (r : Registry)
      → Held r
      → Held (session_mut limits other method r).1
  unfolding session_mut
  session_mut-Held other method r h = elim (Bool-cases (contains_key other r.in_flight)) [
    | inl busy ↦ rw (session_mut, busy) h
    | inr free ↦
        rw (session_mut, free) (reserved_session-Held other method r (apart other r h free) h)
  ]

  pub request-Held :
      {A : Type 0} (other : String) (method : ℕ → Method A) (r : Registry)
      → Held r
      → Held (request limits other method r).1
  unfolding request begin_request
  request-Held other method r h =
      session_mut-Held other
        (modify (λ t. record t { last_activity_tick = r.next_tick }) >> method r.next_tick)
        (begin_request limits r).1 (begin_request-Held r h)

  pub close_session-Held :
      (other : String) (r : Registry) → Held r → Held (Registry.close_session limits other r).1
  unfolding Registry.close_session begin_request expire_idle
  close_session-Held other r h =
      let begun = begin_request-Held r h in
      elim (Bool-cases (contains_key other r.in_flight)) [
        | inl busy ↦ rw (Registry.close_session, busy) begun
        | inr free ↦
            rw (Registry.close_session, free)
              (record {
                ascending =
                    remove-Ascending other (begin_request limits r).1.sessions begun.ascending;
                found =
                    rw
                      (
                        get-remove other id (begin_request limits r).1.sessions,
                        apart other r h free,
                      )
                      begun.found;
                in_flight = h.in_flight;
              })
      ]
