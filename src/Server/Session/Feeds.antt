-- ===== src/Server/Session/Feeds.antt =====
-- The feeds of a session, its own and those of its watches, are bounded.
use sim_expr_tree.Prelude.{
  ℕ, zero, suc, ◌≤◌, ◌<◌, String, Bool, true, false, ◌≡◌, refl, sym, ap, ◌∙◌, subst, inl, inr,
  Option, none, some, List, [], ◌∷◌, ◌++◌, arith, leb, length, Bool-cases, Option-cases, ◌==◌,
  string_eq, nat_eq, saturating_add,
}
use sim_expr_tree.Prelude.Exec.{modify}
use sim_expr_tree.Prelude.HashMap.{get}
use sim_expr_tree.Prelude.BTreeMap.{BTreeMap, insert, get-insert}
use sim_expr_tree.Prelude.BTreeMap.Order.{Ascending, insert-Ascending, length-insert}
use sim_expr_tree.Prelude.BTreeMap.Entries.{
  get-map_values, length-map_values, map_values-Ascending, mapped,
}
use sim_expr_tree.Server.Model.{
  ServerLimits, ChangeEvent, WatchState, new_watch, push_bounded, push, pop_front, drop_front,
}
use sim_expr_tree.Server.Session.{
  SessionRecord, Method, new_session, changed, drain_changes, watch_id, subscribe, poll_watch,
  cancel_watch, min,
}
use sim_expr_tree.Server.Session.Page.{TreeView, snapshot_of}
use sim_expr_tree.Server.Session.Page.Keeps.{snapshot-feeds}
use sim_expr_tree.Server.Session.Local.{
  LocalOperation, apply_surface_local, by_name, continue_page, disclose, path_or_root,
}

-- at least one event fits a feed
module _ (limits : ServerLimits) (positive : 0 < limits.watch_capacity) where
  pub record FeedsFit (changes : List ChangeEvent) (watches : BTreeMap WatchState) : Type 0 where
    pub own : length changes ≤ limits.watch_capacity
    pub ascending : Ascending watches
    pub count : length watches ≤ limits.max_watches_per_session
    pub queues :
        (id : String) (w : WatchState)
        → get id watches ≡ some w
        → length w.events ≤ limits.watch_capacity

  abbrev pub SessionFits : SessionRecord → Type 0
  SessionFits s = FeedsFit s.changes s.watches

  length_snoc : (l : List ChangeEvent) (e : ChangeEvent) → length (l ++ e ∷ []) ≡ suc (length l)
  length_snoc [] e = refl
  length_snoc (x ∷ l) e = ap suc (length_snoc l e)

  length-pop_front : (l : List ChangeEvent) → 0 < length l → suc (length (pop_front l)) ≡ length l
  length-pop_front [] h = absurd (omega arith)
  length-pop_front (x ∷ l) h = refl

  length-drop_front : (n : ℕ) (l : List ChangeEvent) → length (drop_front n l) ≤ length l
  length-drop_front zero l = omega arith
  length-drop_front (suc n) [] = omega arith
  length-drop_front (suc n) (x ∷ l) = omega (arith, length-drop_front n l)

  length-push_bounded :
      (e : ChangeEvent) (l : List ChangeEvent) (d : ℕ)
      → length l ≤ limits.watch_capacity
      → length (push_bounded e limits.watch_capacity (l, d)).0 ≤ limits.watch_capacity
  unfolding push_bounded
  length-push_bounded e l d h =
      ground (arith, length_snoc l e, length_snoc (pop_front l) e, length-pop_front l)

  length-push :
      (e : ChangeEvent) (w : WatchState)
      → length w.events ≤ limits.watch_capacity
      → length (push e limits.watch_capacity w).events ≤ limits.watch_capacity
  unfolding push
  length-push e w h =
      ground (
        arith,
        length_snoc w.events e,
        length_snoc (pop_front w.events) e,
        length-pop_front w.events,
      )

  pub new_session-SessionFits : (id : String) (tick : ℕ) → SessionFits (new_session id tick)
  unfolding new_session get
  new_session-SessionFits id tick = record {
    own = omega arith;
    ascending = tt;
    count = omega arith;
    queues = λ k w found. absurd (ground arith);
  }

  pub changed-SessionFits :
      (kind : String) (path : Option String) (tick : ℕ) (wall : Option ℕ) (s : SessionRecord)
      → SessionFits s
      → SessionFits (changed kind path tick wall limits s)
  unfolding changed
  changed-SessionFits kind path tick wall s fit = record {
    own = length-push_bounded event s.changes s.dropped_changes fit.own;
    ascending = map_values-Ascending (push event limits.watch_capacity) s.watches fit.ascending;
    count =
        omega (arith, fit.count, length-map_values (push event limits.watch_capacity) s.watches);
    queues = λ k w found.
        queue k w (get k s.watches) refl
          (sym (get-map_values (push event limits.watch_capacity) k s.watches) ∙ found);
  }
    where
      event : ChangeEvent
      event = record {
        resource = s.id;
        revision = saturating_add s.revision 1;
        logical_tick = tick;
        wall_ms = wall;
        kind = kind;
        path = path;
      }

      queue :
          (k : String) (w : WatchState) (o : Option WatchState)
          → get k s.watches ≡ o
          → mapped (push event limits.watch_capacity) o ≡ some w
          → length w.events ≤ limits.watch_capacity
      queue k w none old h = absurd (ground arith)
      queue k w (some v) old h =
          let e : push event limits.watch_capacity v ≡ w = ground arith in
          subst (λ x. length x.events ≤ limits.watch_capacity) e
            (length-push event v (fit.queues k v old))

  -- a watch is written
  insert-FeedsFit :
      (k : String) (w : WatchState) (s : SessionRecord)
      → SessionFits s
      → length (insert k w s.watches) ≤ limits.max_watches_per_session
      → length w.events ≤ limits.watch_capacity
      → FeedsFit s.changes (insert k w s.watches)
  insert-FeedsFit k w s fit count small = record {
    own = fit.own;
    ascending = insert-Ascending k w s.watches fit.ascending;
    count = count;
    queues = λ j v found. elim (Bool-cases (k == j)) [
      | inl same ↦ written j v (rw (get-insert k j w s.watches, same) at found)
      | inr other ↦ fit.queues j v (rw (get-insert k j w s.watches, other) at found)
    ];
  }
    where
      written :
          (j : String) (v : WatchState)
          → Path (Option WatchState) (some w) (some v)
          → length v.events ≤ limits.watch_capacity
      written j v h = ground arith

  -- the same for a watch that is there
  rewrite-FeedsFit :
      (k : String) (old w : WatchState) (s : SessionRecord)
      → SessionFits s
      → get k s.watches ≡ some old
      → length w.events ≤ limits.watch_capacity
      → FeedsFit s.changes (insert k w s.watches)
  rewrite-FeedsFit k old w s fit found small =
      insert-FeedsFit k w s fit
        (ground (arith, length-insert k w s.watches fit.ascending, fit.count)) small

  -- a method that keeps the feeds within their bounds, whatever it answers
  abbrev pub KeepsFeeds : {A : Type 0} → Method A → Type 0
  KeepsFeeds method = (s : SessionRecord) → SessionFits s → SessionFits (method s).1

  pub drain_changes-KeepsFeeds : KeepsFeeds drain_changes
  unfolding drain_changes
  drain_changes-KeepsFeeds s fit = record {
    own = omega arith;
    ascending = fit.ascending;
    count = fit.count;
    queues = fit.queues;
  }

  pub subscribe-KeepsFeeds : KeepsFeeds (subscribe limits)
  unfolding subscribe
  subscribe-KeepsFeeds s fit =
      elim (Bool-cases (leb limits.max_watches_per_session (length s.watches))) [
        | inl full ↦ rw full fit
        | inr room ↦
            rw room (insert-FeedsFit (watch_id s) new_watch s fit (fits_room room) (omega arith))
      ]
    where
      fits_room :
          leb limits.max_watches_per_session (length s.watches) ≡ false
          → length (insert (watch_id s) new_watch s.watches) ≤ limits.max_watches_per_session
      fits_room room = ground (arith, length-insert (watch_id s) new_watch s.watches fit.ascending)

  pub poll_watch-KeepsFeeds : (watch : String) (limit : ℕ) → KeepsFeeds (poll_watch watch limit)
  unfolding poll_watch
  poll_watch-KeepsFeeds watch limit s fit = elim (Option-cases (get watch s.watches)) [
    | inl missing ↦ rw (poll_watch, missing) fit
    | inr (w, found) ↦
        let count = min limit (length w.events) in
        let small = length-drop_front count w.events in
        let old = fit.queues watch w found in
        rw (poll_watch, found)
          (rewrite-FeedsFit watch w (record w { events = drop_front count w.events }) s fit found
            (omega (arith, small, old)))
  ]

  pub cancel_watch-KeepsFeeds : (watch : String) → KeepsFeeds (cancel_watch watch)
  unfolding cancel_watch
  cancel_watch-KeepsFeeds watch s fit = elim (Option-cases (get watch s.watches)) [
    | inl missing ↦ rw (cancel_watch, missing) fit
    | inr (w, found) ↦
        rw (cancel_watch, found)
          (rewrite-FeedsFit watch w (record w { cancelled = true; events = [] }) s fit found
            (omega arith))
  ]

  -- the operations on the view leave the feeds
  abbrev pub SameFeeds : {A : Type 0} → Method A → SessionRecord → Type 0
  SameFeeds method s = ((method s).1.changes ≡ s.changes) × ((method s).1.watches ≡ s.watches)

  continue_page-SameFeeds :
      (path : String) (token : Option String) (s : SessionRecord)
      → SameFeeds (continue_page path token limits) s
  unfolding continue_page
  continue_page-SameFeeds path token s = ground arith

  disclose-SameFeeds :
      (path : String) (is_open : Bool) (s : SessionRecord)
      → SameFeeds (modify (disclose path is_open)) s
  unfolding disclose
  disclose-SameFeeds path true s = (refl, refl)
  disclose-SameFeeds path false s = (refl, refl)

  by_name-SameFeeds :
      (name : String) (operation : LocalOperation) (s : SessionRecord)
      → SameFeeds (by_name name operation limits) s
  unfolding by_name
  by_name-SameFeeds name operation s = ground (
    arith,
    continue_page-SameFeeds (path_or_root operation.path) operation.continuation s,
    disclose-SameFeeds (path_or_root operation.path) operation.is_open s,
  )

  apply-SameFeeds :
      (operation : LocalOperation) (s : SessionRecord)
      → SameFeeds (apply_surface_local operation limits) s
  unfolding apply_surface_local
  apply-SameFeeds operation s = elim (Option-cases operation.op) [
    | inl missing ↦ rw missing (refl, refl)
    | inr (name, named) ↦ ground (arith, by_name-SameFeeds name operation s)
  ]

  pub apply_surface_local-KeepsFeeds :
      (operation : LocalOperation) → KeepsFeeds (apply_surface_local operation limits)
  apply_surface_local-KeepsFeeds operation s fit =
      let (own, watches) = apply-SameFeeds operation s in rw (own, watches) fit

  pub snapshot-KeepsFeeds : {C : Type 0} (tree : TreeView C) → KeepsFeeds (snapshot_of tree limits)
  snapshot-KeepsFeeds tree s fit =
      let same = snapshot-feeds tree limits s in
      let own : (snapshot_of tree limits s).1.changes ≡ s.changes = ap (λ x. x.0) same in
      let watches : (snapshot_of tree limits s).1.watches ≡ s.watches = ap (λ x. x.1) same in
      rw (own, watches) fit
