-- ===== src/TaskQueue/Tests.antt =====
-- A task that is cancelled while it runs, and the theorems of the task queue at concrete inputs.
use mcp_odoo.TaskQueue.Loop.{purge_ends}
use mcp_odoo.Prelude.{arith, ◌≡◌, refl, ◌⊎◌, none, some, [], ◌∷◌}
use mcp_odoo.Prelude.Dict
use mcp_odoo.Prelude.Result.{ok, err}
use mcp_odoo.Json.{end}
use mcp_odoo.TaskQueue.{
  TaskRecord, too_many_live_tasks, without_expired, oldest, is_before, victim, evict_finished,
  purge, live_count, submit, status, cancel, update, returned, cancelled_record, new_task,
}
use mcp_odoo.TaskQueue.Steps.{
  System, Step, submits, starts, delivers, cancels, Reachable, new, after, after_submit,
  after_start, after_delivery,
}
use mcp_odoo.TaskQueue.Sound.{IsSound, Reachable-IsSound}
use mcp_odoo.TaskQueue.Bounded.{IsBounded, Reachable-IsBounded}
use mcp_odoo.TaskQueue.Endings.{ending, ending_kept, live_kept}

program : Unit {0}
unfolding without_expired is_before oldest victim evict_finished purge live_count submit status
    cancel update
program = tt

abbrev empty_system : System
empty_system = record {
  manager = record { max_tasks = 1; result_ttl_seconds = 3600; tasks = [] };
  workers = [];
}

abbrev submitted : System
submitted = after_submit empty_system "scan" "t1" 100

abbrev begun : System
begun = after_start submitted "t1" 101

abbrev stopped : System
stopped = record begun { manager = (cancel begun.manager "t1" 105).0 }

abbrev answered : System
answered = after_delivery stopped "t1" (returned end)

-- a second task is refused while the first is live
refused : (submit submitted.manager "scan" "t2" 102).1 ≡ err (too_many_live_tasks 1)
unfolding program
refused = refl

-- with room for one task, a finished one makes way at the next purge
replaced : Dict.keys (submit answered.manager "scan" "t2" 110).0.tasks ≡ "t1" ∷ "t2" ∷ []
unfolding program
replaced = refl

cancelled_while_running :
    (status answered.manager "t1" 110).1
    ≡ ok (record (cancelled_record (new_task "scan" 100) 105) { started_at = some 101 })
unfolding program
cancelled_while_running = refl

reach_stopped : Reachable 1 3600 stopped
unfolding program
reach_stopped =
    after
      (after (after new (submits empty_system "scan" "t1" 100 refl refl))
        (starts submitted "t1" 101 refl))
      (cancels begun "t1" 105)

answers : Step stopped answered
unfolding program
answers = delivers stopped "t1" (returned end) refl

record_stopped : TaskRecord
record_stopped = record (cancelled_record (new_task "scan" 100) 105) { started_at = some 101 }

Reachable-IsSound_example : IsSound stopped
Reachable-IsSound_example = Reachable-IsSound 1 3600 reach_stopped

Reachable-IsBounded_example : IsBounded 1 stopped.manager
Reachable-IsBounded_example = Reachable-IsBounded 1 3600 reach_stopped

ending_kept_example :
    (Dict.get "t1" answered.manager.tasks ≡ none)
    ⊎ ((r : TaskRecord) × (Dict.get "t1" answered.manager.tasks ≡ some r)
        × (ending r ≡ ending record_stopped))
unfolding program record_stopped
ending_kept_example = ending_kept 1 3600 reach_stopped answers "t1" record_stopped refl refl

reach_submitted : Reachable 1 3600 submitted
unfolding program
reach_submitted = after new (submits empty_system "scan" "t1" 100 refl refl)

begins : Step submitted begun
unfolding program
begins = starts submitted "t1" 101 refl

live_kept_example : (r : TaskRecord) × (Dict.get "t1" begun.manager.tasks ≡ some r)
unfolding program
live_kept_example = live_kept 1 3600 reach_submitted begins "t1" (new_task "scan" 100) refl refl

purge_ends_example :
    let m = answered.manager in
    let kept = without_expired m.result_ttl_seconds 110 m.tasks in
    (victim m.max_tasks (purge m 110).tasks ≡ none)
    × (evict_finished 4 m.max_tasks kept ≡ (purge m 110).tasks)
unfolding program
purge_ends_example = purge_ends answered.manager 110 4 (refl, tt) (omega arith)
