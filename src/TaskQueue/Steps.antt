-- ===== src/TaskQueue/Steps.antt =====
-- The manager and its workers as a step relation: what can happen, in which order.
use mcp_odoo.Prelude.{ℕ, String, ◌≡◌, Option, none, some, []}
use mcp_odoo.Prelude.Dict
use mcp_odoo.Prelude.Dict.{Dict}
use mcp_odoo.TaskQueue.{
  cancelled, TaskRecord, Manager, submit, status, cancel, list_tasks, update, started, Outcome,
  delivered, finished,
}
use mcp_odoo.Prelude.Result.{ok, err}

-- where the worker of a task stands in `_run`
pub data Phase : Type 0 where
  queued working closing done : Phase

pub record System : Type 0 where
  pub manager : Manager
  pub workers : Dict Phase

-- a worker whose task was cancelled, and perhaps forgotten, returns at once
abbrev pub phase_after_start : Option TaskRecord → Phase
phase_after_start none = done
phase_after_start (some r) = elim r.status [ cancelled ↦ done | _ ↦ working ]

abbrev pub after_submit : System → String → String → ℕ → System
after_submit s name id now =
    let (m, answer) = submit s.manager name id now in
    record {
      manager = m;
      workers = elim answer [ ok r ↦ Dict.put id queued s.workers | err e ↦ s.workers ];
    }

abbrev pub after_start : System → String → ℕ → System
after_start s id now = record {
  manager = update s.manager id (started now);
  workers = Dict.put id (phase_after_start (Dict.get id s.manager.tasks)) s.workers;
}

abbrev pub after_delivery : System → String → Outcome → System
after_delivery s id outcome = record {
  manager = update s.manager id (delivered outcome);
  workers = Dict.put id closing s.workers;
}

abbrev pub after_finish : System → String → ℕ → System
after_finish s id now = record {
  manager = update s.manager id (finished now);
  workers = Dict.put id done s.workers;
}

pub data Step : System → System → Type 0 where
  submits :
      (s : System) (name id : String) (now : ℕ)
      → Dict.get id s.workers ≡ none
      → Dict.get id s.manager.tasks ≡ none
      → Step s (after_submit s name id now)
  starts :
      (s : System) (id : String) (now : ℕ)
      → Dict.get id s.workers ≡ some queued
      → Step s (after_start s id now)
  delivers :
      (s : System) (id : String) (outcome : Outcome)
      → Dict.get id s.workers ≡ some working
      → Step s (after_delivery s id outcome)
  finishes :
      (s : System) (id : String) (now : ℕ)
      → Dict.get id s.workers ≡ some closing
      → Step s (after_finish s id now)
  asks :
      (s : System) (id : String) (now : ℕ)
      → Step s (record s { manager = (status s.manager id now).0 })
  lists : (s : System) (now : ℕ) → Step s (record s { manager = (list_tasks s.manager now).0 })
  cancels :
      (s : System) (id : String) (now : ℕ)
      → Step s (record s { manager = (cancel s.manager id now).0 })

-- what can come of a new manager
pub data Reachable (max_tasks ttl : ℕ) : System → Type 0 where
  new : Reachable max_tasks ttl (record {
    manager = record { max_tasks = max_tasks; result_ttl_seconds = ttl; tasks = [] };
    workers = [];
  })
  after : {s s' : System} → Reachable max_tasks ttl s → Step s s' → Reachable max_tasks ttl s'
