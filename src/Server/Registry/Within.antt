-- ===== src/Server/Registry/Within.antt =====
-- The sessions of a server stay within its limits: the steps that its calls are made of.
use sim_expr_tree.Prelude.{
  ℕ, ◌≤◌, ◌<◌, String, ◌≡◌, refl, inl, inr, Option, none, some, arith, length, Bool-cases,
  Option-cases, ◌==◌, string_eq, saturating_add,
}
use sim_expr_tree.Prelude.Exec.{modify, ◌>>◌}
use sim_expr_tree.Prelude.HashMap.{get, contains_key, remove, get-remove, length-remove-le}
use sim_expr_tree.Prelude.BTreeMap.{BTreeMap, insert, get-insert}
use sim_expr_tree.Prelude.BTreeMap.Order.{
  Ascending, insert-Ascending, length-insert, retain_entries-Ascending,
}
use sim_expr_tree.Prelude.BTreeMap.Entries.{
  kept, get-retain_entries, length-retain_entries, remove-Ascending,
}
use sim_expr_tree.Server.Model.{ServerLimits}
use sim_expr_tree.Server.Session.{SessionRecord, Method}
use sim_expr_tree.Server.Session.Feeds.{SessionFits, KeepsFeeds}
use sim_expr_tree.Server.Registry
use sim_expr_tree.Server.Registry.{
  Registry, Locked, new_registry, expire_idle, begin_request, reserved_session, session_mut,
  request, stays, is_revision_change, expect_revision, commit_method,
}

module _ (limits : ServerLimits) (positive : 0 < limits.watch_capacity) where
  -- the sessions are within their number, and the watches and feeds of each within theirs
  pub record SessionsFit (sessions : BTreeMap SessionRecord) : Type 0 where
    pub ascending : Ascending sessions
    pub count : length sessions ≤ limits.max_sessions
    pub rows :
        (id : String) (s : SessionRecord) → get id sessions ≡ some s → SessionFits limits positive s

  abbrev pub IsWithin : Registry → Type 0
  IsWithin r = SessionsFit r.sessions

  pub expire_idle-IsWithin : (r : Registry) → IsWithin r → IsWithin (expire_idle limits r)
  unfolding expire_idle
  expire_idle-IsWithin r fit = record {
    ascending = retain_entries-Ascending (stays limits r) r.sessions fit.ascending;
    count = omega (arith, fit.count, length-retain_entries (stays limits r) r.sessions);
    rows = λ id s found.
        row id s (get id r.sessions) refl
          (rw (get-retain_entries (stays limits r) id r.sessions fit.ascending) at found);
  }
    where
      row :
          (id : String) (s : SessionRecord) (o : Option SessionRecord)
          → get id r.sessions ≡ o
          → kept (stays limits r id) o ≡ some s
          → SessionFits limits positive s
      row id s none old h = absurd (ground arith)
      row id s (some t) old h = let e : t ≡ s = ground arith in fit.rows id s (rw⁻¹ e old)

  pub insert-SessionsFit :
      (id : String) (s : SessionRecord) (m : BTreeMap SessionRecord)
      → SessionsFit m
      → SessionFits limits positive s
      → length (insert id s m) ≤ limits.max_sessions
      → SessionsFit (insert id s m)
  insert-SessionsFit id s m fit good count = record {
    ascending = insert-Ascending id s m fit.ascending;
    count = count;
    rows = λ j t found. elim (Bool-cases (id == j)) [
      | inl same ↦ written t (rw (get-insert id j s m, same) at found)
      | inr other ↦ fit.rows j t (rw (get-insert id j s m, other) at found)
    ];
  }
    where
      written :
          (t : SessionRecord)
          → Path (Option SessionRecord) (some s) (some t)
          → SessionFits limits positive t
      written t h = let e : s ≡ t = ground arith in rw⁻¹ e good

  pub remove-SessionsFit :
      (id : String) (m : BTreeMap SessionRecord) → SessionsFit m → SessionsFit (remove id m)
  remove-SessionsFit id m fit = record {
    ascending = remove-Ascending id m fit.ascending;
    count = omega (arith, fit.count, length-remove-le id m);
    rows = λ j t found. fit.rows j t (ground (arith, get-remove id j m));
  }

  pub reserved_session-IsWithin :
      {A : Type 0} (id : String) (method : Method A)
      → KeepsFeeds limits positive method
      → (r : Registry) → IsWithin r
      → IsWithin (reserved_session limits id method r).1
  unfolding reserved_session
  reserved_session-IsWithin id method keeps r fit = elim (Option-cases (get id r.sessions)) [
    | inl missing ↦ rw (reserved_session, missing) fit
    | inr (s, found) ↦
        rw (reserved_session, found)
          (insert-SessionsFit id (method s).1 r.sessions fit (keeps s (fit.rows id s found))
            (ground (arith, length-insert id (method s).1 r.sessions fit.ascending, fit.count)))
  ]

  session_mut-IsWithin :
      {A : Type 0} (id : String) (method : Method A)
      → KeepsFeeds limits positive method
      → (r : Registry) → IsWithin r
      → IsWithin (session_mut limits id method r).1
  unfolding session_mut
  session_mut-IsWithin id method keeps r fit = elim (Bool-cases (contains_key id r.in_flight)) [
    | inl busy ↦ rw (session_mut, busy) fit
    | inr free ↦ rw (session_mut, free) (reserved_session-IsWithin id method keeps r fit)
  ]

  pub begin_request-IsWithin : (r : Registry) → IsWithin r → IsWithin (begin_request limits r).1
  unfolding begin_request
  begin_request-IsWithin r fit =
      expire_idle-IsWithin (record r { next_tick = saturating_add r.next_tick 1 }) fit

  pub request-IsWithin :
      {A : Type 0} (id : String) (method : ℕ → Method A)
      → ((tick : ℕ) → KeepsFeeds limits positive (method tick))
      → (r : Registry) → IsWithin r
      → IsWithin (request limits id method r).1
  unfolding request begin_request
  request-IsWithin id method keeps r fit =
      session_mut-IsWithin id
        (modify (λ s. record s { last_activity_tick = r.next_tick }) >> method r.next_tick)
        (λ s good. keeps r.next_tick (record s { last_activity_tick = r.next_tick }) good)
        (begin_request limits r).1 (begin_request-IsWithin r fit)

  pub close_session-IsWithin :
      (id : String) (r : Registry) → IsWithin r → IsWithin (Registry.close_session limits id r).1
  unfolding Registry.close_session begin_request expire_idle
  close_session-IsWithin id r fit =
      let begun = begin_request-IsWithin r fit in
      elim (Bool-cases (contains_key id r.in_flight)) [
        | inl busy ↦ rw (Registry.close_session, busy) begun
        | inr free ↦
            rw (Registry.close_session, free)
              (remove-SessionsFit id (begin_request limits r).1.sessions begun)
      ]
