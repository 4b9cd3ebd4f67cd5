-- ===== src/TaskQueue/Loop.antt =====
-- The second loop of `_purge_locked` comes to its end.
use mcp_odoo.Prelude.{ℕ, zero, suc, ◌≤◌, ◌≡◌, refl, none, arith, length, Option-cases, inl, inr}
use mcp_odoo.Prelude.Dict
use mcp_odoo.Prelude.Dict.{Dict}
use mcp_odoo.Prelude.Dict.Entries.{IsKeyed}
use mcp_odoo.TaskQueue.{TaskRecord, Manager, without_expired, victim, evict_finished, purge}
use mcp_odoo.TaskQueue.Purge.{evict_finished_ends, without_expired-IsKeyed}

-- rounds after the end change nothing
evict_finished_ended :
    (fuel max_tasks : ℕ) (tasks : Dict TaskRecord)
    → victim max_tasks tasks ≡ none
    → evict_finished fuel max_tasks tasks ≡ tasks
unfolding evict_finished
evict_finished_ended zero max_tasks tasks e = refl
evict_finished_ended (suc fuel) max_tasks tasks e = rw (evict_finished, e) refl

evict_finished_more :
    (fuel rounds max_tasks : ℕ) (tasks : Dict TaskRecord)
    → fuel ≤ rounds
    → victim max_tasks (evict_finished fuel max_tasks tasks) ≡ none
    → evict_finished rounds max_tasks tasks ≡ evict_finished fuel max_tasks tasks
unfolding evict_finished
evict_finished_more zero rounds max_tasks tasks l h = evict_finished_ended rounds max_tasks tasks h
evict_finished_more (suc fuel) zero max_tasks tasks l h = absurd (omega arith)
evict_finished_more (suc fuel) (suc rounds) max_tasks tasks l h =
    elim (Option-cases (victim max_tasks tasks)) [
      | inl e ↦ rw (evict_finished, e) refl
      | inr (id, e) ↦
          rw (evict_finished, e)
            (evict_finished_more fuel rounds max_tasks (Dict.remove id tasks) (omega arith)
              (rw (evict_finished, e) at h))
    ]

-- The second loop of `_purge_locked` comes to its end: after as many rounds as the first loop leaves
-- tasks, its own condition to go on is false, and any number of rounds from there on gives the same
-- tasks.
pub purge_ends :
    (m : Manager) (now rounds : ℕ)
    → IsKeyed m.tasks
    → let kept = without_expired m.result_ttl_seconds now m.tasks in
      length kept ≤ rounds
      → (victim m.max_tasks (purge m now).tasks ≡ none)
        × (evict_finished rounds m.max_tasks kept ≡ (purge m now).tasks)
unfolding purge
purge_ends m now rounds u enough =
    let kept = without_expired m.result_ttl_seconds now m.tasks in
    let ended =
      evict_finished_ends (length kept) m.max_tasks kept
        (without_expired-IsKeyed m.result_ttl_seconds now m.tasks u) (omega arith) in
    (ended, evict_finished_more (length kept) rounds m.max_tasks kept enough ended)
