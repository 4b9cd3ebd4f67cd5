-- ===== src/TaskQueue.antt =====
-- `AsyncTaskManager` of src/odoo_mcp/task_queue.py. Each critical section, that is each block under
-- the manager's lock, is an operation; the worker's `_run` is three of them, in the order of its
-- code. A worker holds its record after the manager has forgotten it, and then nobody sees its
-- writes: an operation of a worker on an unknown task changes nothing. The clock is an argument.
pub mod Steps
pub mod Purge
pub mod Loop
pub mod Kept
pub mod Sound
pub mod Bounded
pub mod Endings
mod Tests
use mcp_odoo.Prelude.{
  ℕ, zero, suc, ◌+◌, String, Bool, true, false, not, ◌||◌, ◌&&◌, Option, none, some, List, [], ◌∷◌,
  ltb, leb, ◌==◌, if◌then◌else◌, length,
}
use mcp_odoo.Prelude.Dict
use mcp_odoo.Prelude.Dict.{Dict}
use mcp_odoo.Prelude.Result.{Result, ok, err}
use mcp_odoo.Json.{Fields}
use Prim.Native.String.{compare}
use Prim.Native.Nat.{Ordering}

pub data Status : Type 0 where
  pending running succeeded failed cancelled : Status

abbrev pub is_finished : Status → Bool
is_finished pending = false
is_finished running = false
is_finished _ = true

pub record TaskRecord : Type 0 where
  pub name : String
  pub status : Status
  pub created_at : ℕ
  pub started_at : Option ℕ
  pub finished_at : Option ℕ
  pub result : Option Fields
  pub error : Option String

pub record Manager : Type 0 where
  pub max_tasks : ℕ
  pub result_ttl_seconds : ℕ
  pub tasks : Dict TaskRecord

pub data TaskError : Type 0 where
  too_many_live_tasks : ℕ → TaskError
  unknown_task : TaskError
  already_finished : Status → TaskError

-- `record.finished_at is not None and now - record.finished_at > self.result_ttl_seconds`
abbrev pub is_expired : ℕ → ℕ → TaskRecord → Bool
is_expired ttl now r = elim r.finished_at [ none ↦ false | some f ↦ ltb (f + ttl) now ]

-- the first loop of `_purge_locked`
unfoldable pub without_expired : ℕ → ℕ → Dict TaskRecord → Dict TaskRecord
without_expired ttl now [] = []
without_expired ttl now ((id, r) ∷ tasks) =
    let rest = without_expired ttl now tasks in
    if is_expired ttl now r then rest else (id, r) ∷ rest

-- `record.finished_at or record.created_at`
abbrev pub end_time : TaskRecord → ℕ
end_time r = elim r.finished_at [
  | none ↦ r.created_at
  | some f ↦ if f == 0 then r.created_at else f
]

-- the order of the pairs that are sorted
unfoldable pub is_before : ℕ × String → ℕ × String → Bool
is_before (s, i) (t, j) =
    ltb s t || ((s == t) && (elim (compare i j) [ Ordering.lt ↦ true | _ ↦ false ]))

-- the first of the finished tasks in that order
unfoldable pub oldest : Dict TaskRecord → Option (ℕ × String)
unfolding is_before
oldest [] = none
oldest ((id, r) ∷ tasks) =
    let rest = oldest tasks in
    if is_finished r.status
    then (elim rest [
      | none ↦ some (end_time r, id)
      | some best ↦ some (if is_before best (end_time r, id) then best else (end_time r, id))
    ])
    else rest

-- the task that a round of the second loop drops, if there is one
unfoldable pub victim : ℕ → Dict TaskRecord → Option String
victim max_tasks tasks =
    if ltb max_tasks (length tasks)
    then (elim (oldest tasks) [ none ↦ none | some best ↦ some best.1 ])
    else none

-- the second loop of `_purge_locked`, for as many rounds as `fuel`
unfoldable pub evict_finished : ℕ → ℕ → Dict TaskRecord → Dict TaskRecord
evict_finished zero max_tasks tasks = tasks
evict_finished (suc fuel) max_tasks tasks = elim (victim max_tasks tasks) [
  | none ↦ tasks
  | some id ↦ evict_finished fuel max_tasks (Dict.remove id tasks)
]

-- `_purge_locked`; a round drops a task, so that there are no more rounds than tasks
unfoldable pub purge : Manager → ℕ → Manager
purge m now =
    let kept = without_expired m.result_ttl_seconds now m.tasks in
    record m { tasks = evict_finished (length kept) m.max_tasks kept }

unfoldable pub live_count : Dict TaskRecord → ℕ
live_count [] = 0
live_count ((id, r) ∷ tasks) =
    let rest = live_count tasks in if is_finished r.status then rest else suc rest

abbrev pub new_task : String → ℕ → TaskRecord
new_task name now = record {
  name = name;
  status = pending;
  created_at = now;
  started_at = none;
  finished_at = none;
  result = none;
  error = none;
}

-- `submit`, up to the hand-over to the pool; `id` is the new random identifier
unfoldable pub submit : Manager → String → String → ℕ → Manager × Result TaskError TaskRecord
submit m name id now =
    let purged = purge m now in
    if leb m.max_tasks (live_count purged.tasks)
    then (purged, err (too_many_live_tasks (live_count purged.tasks)))
    else (
      record purged { tasks = Dict.put id (new_task name now) purged.tasks },
      ok (new_task name now),
    )

-- `status`
unfoldable pub status : Manager → String → ℕ → Manager × Result TaskError TaskRecord
status m id now =
    let purged = purge m now in
    (purged, elim (Dict.get id purged.tasks) [ none ↦ err unknown_task | some r ↦ ok r ])

abbrev pub cancelled_record : TaskRecord → ℕ → TaskRecord
cancelled_record r now = record r { status = cancelled; finished_at = some now }

-- `cancel`: whether the task was cancelled before it started
unfoldable pub cancel : Manager → String → ℕ → Manager × Result TaskError Bool
cancel m id now = elim (Dict.get id m.tasks) [
  | none ↦ (m, err unknown_task)
  | some r ↦ if is_finished r.status then (m, err (already_finished r.status)) else (
    record m { tasks = Dict.put id (cancelled_record r now) m.tasks },
    ok (elim r.status [ pending ↦ true | _ ↦ false ]),
  )
]

-- what a worker writes into the record of its task
unfoldable pub update : Manager → String → (TaskRecord → TaskRecord) → Manager
update m id f = elim (Dict.get id m.tasks) [
  | none ↦ m
  | some r ↦ record m { tasks = Dict.put id (f r) m.tasks }
]

-- the start of `_run`
abbrev pub started : ℕ → TaskRecord → TaskRecord
started now r = elim r.status [
  | cancelled ↦ r
  | _ ↦ record r { status = running; started_at = some now }
]

-- what the task's function returned, or the text of what it raised
pub data Outcome : Type 0 where
  returned : Fields → Outcome
  raised : String → Outcome

-- the middle of `_run`, after the function
abbrev pub delivered : Outcome → TaskRecord → TaskRecord
delivered outcome r = elim r.status [
  | cancelled ↦ r
  | _ ↦ elim outcome [
    | returned v ↦ record r { status = succeeded; result = some v }
    | raised e ↦ record r { status = failed; error = some e }
  ]
]

-- the `finally` of `_run`
abbrev pub finished : ℕ → TaskRecord → TaskRecord
finished now r = record r { finished_at = some now }

-- a record put behind those created later; equal ones keep their order
unfoldable pub insert_created : TaskRecord → List TaskRecord → List TaskRecord
insert_created r [] = r ∷ []
insert_created r (s ∷ rest) =
    let inserted = insert_created r rest in
    if ltb r.created_at s.created_at then s ∷ inserted else r ∷ s ∷ rest

unfoldable pub newest_first : Dict TaskRecord → List TaskRecord
unfolding insert_created
newest_first [] = []
newest_first ((id, r) ∷ tasks) = insert_created r (newest_first tasks)

-- `list_tasks`
unfoldable pub list_tasks : Manager → ℕ → Manager × List TaskRecord
list_tasks m now = let purged = purge m now in (purged, newest_first purged.tasks)
