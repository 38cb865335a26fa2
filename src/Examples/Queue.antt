-- ===== src/Examples/Queue.antt =====
-- The theorems on the automatic queue: one entry has been passed over three times.
use mathlib.Core.List.{Memᴰ}
use sim_expr_tree.Prelude.{
  String, List, true, false, ◌≡◌, refl, none, some, [], ◌∷◌, string_eq, nat_eq,
}
use sim_expr_tree.Prelude.Integer.{pos, negsuc}
use sim_expr_tree.Prelude.BTreeMap.{values}
use sim_expr_tree.Calc.Schedule.{
  QueuedCalculation, Scheduler, select_ready_cell, filter, reduce, choose, finish_select, age_all,
  is_ready,
}
use sim_expr_tree.Prelude.HashMap.{get}
use sim_expr_tree.Calc.Schedule.Enqueue.{Eligible, among, cells_of, schedule_dirty_automatic}
use sim_expr_tree.Calc.Schedule.Places.{Keeps, schedule_dirty_automatic-Keeps}
use sim_expr_tree.Calc.Schedule.Choice.{
  IsChosen, select_ready_cell-IsChosen, select_ready_cell-none,
}

abbrev urgent : QueuedCalculation String
urgent = record {
  request_id = 2;
  cell = "/urgent";
  ready_at_ms = 10;
  priority = pos 9;
  sequence = 2;
  bypasses = 0;
  incremental_continuation = none;
}

abbrev passed_over : QueuedCalculation String
passed_over = record {
  request_id = 1;
  cell = "/old";
  ready_at_ms = 5;
  priority = negsuc 4;
  sequence = 1;
  bypasses = 3;
  incremental_continuation = some "token";
}

abbrev queue : Scheduler String
queue = record {
  automatic_queue = ("/old", passed_over) ∷ ("/urgent", urgent) ∷ [];
  automatic_generation = 4;
  next_queue_sequence = 3;
  next_request_id = 3;
}

old_selected : (select_ready_cell 20 queue).0 ≡ some "/old"
unfolding select_ready_cell filter reduce choose finish_select age_all
old_selected = refl

select_ready_cell-IsChosen_example :
    (q : QueuedCalculation String) × IsChosen 20 (values queue.automatic_queue) q
    × (q.cell ≡ "/old")
select_ready_cell-IsChosen_example = select_ready_cell-IsChosen 20 queue "/old" old_selected

none_selected : (select_ready_cell 3 queue).0 ≡ none
unfolding select_ready_cell filter reduce choose finish_select age_all
none_selected = refl

select_ready_cell-none_example : is_ready 3 urgent ≡ false
select_ready_cell-none_example =
    select_ready_cell-none 3 queue none_selected urgent (Memᴰ.tail (Memᴰ.head refl))

-- `/old` is scheduled again with a new priority, and a cell that is new
abbrev eligible : List Eligible
eligible =
    record { cell = "/new"; priority = pos 1; debounce_ms = 5 }
    ∷ record { cell = "/old"; priority = pos 7; debounce_ms = 0 }
    ∷ []

old_queued : get "/old" queue.automatic_queue ≡ some passed_over
unfolding get
old_queued = refl

old_listed : among "/old" (cells_of eligible) ≡ true
unfolding among
old_listed = refl

schedule_dirty_automatic-Keeps_example :
    Keeps "/old" passed_over (schedule_dirty_automatic 30 eligible queue)
schedule_dirty_automatic-Keeps_example =
    schedule_dirty_automatic-Keeps 30 eligible queue "/old" passed_over old_queued old_listed
