-- ===== src/TaskQueue/Bounded.antt =====
-- However submissions, workers, polls and cancellations interleave, the manager stays bounded.
use mathlib.Core.Path.{subst}
use mcp_odoo.Prelude.{
  ℕ, suc, ◌≤◌, ◌≡◌, refl, sym, ◌∙◌, some_inj, inl, inr, String, true, some, arith, leb, length,
  Bool-cases, Option-cases,
}
use mcp_odoo.Prelude.Dict
use mcp_odoo.Prelude.Dict.{Dict}
use mcp_odoo.Prelude.Dict.Entries.{IsKeyed, put-IsKeyed, length-put-le, length-put_known}
use mcp_odoo.TaskQueue.{
  is_finished, TaskRecord, Manager, purge, live_count, new_task, submit, status, cancel, list_tasks,
  update, started, Outcome, returned, raised, delivered, finished, cancelled_record,
}
use mcp_odoo.TaskQueue.Sound.{is_status_at, IsSound, Reachable-IsSound}
use mcp_odoo.TaskQueue.Steps.{
  Phase, queued, System, Step, submits, starts, delivers, finishes, asks, lists, cancels, Reachable,
  new, after,
}
use mcp_odoo.TaskQueue.Purge.{
  live_count-put, live_count-put_new, purge-IsKeyed, live_count-purge_le, length-purge_le,
}

-- each task stands once, at most `max_tasks` of them are live, and at most one more is kept
pub record IsBounded (max_tasks : ℕ) (m : Manager) : Type 0 where
  pub limit : m.max_tasks ≡ max_tasks
  pub keyed : IsKeyed m.tasks
  pub live : live_count m.tasks ≤ max_tasks
  pub few : length m.tasks ≤ suc max_tasks

module _ (max_tasks : ℕ) (m : Manager) (b : IsBounded max_tasks m) where
  purge-IsBounded : (now : ℕ) → IsBounded max_tasks (purge m now)
  unfolding purge
  purge-IsBounded now = record {
    limit = b.limit;
    keyed = purge-IsKeyed m now b.keyed;
    live = omega (arith, live_count-purge_le m now, b.live);
    few = omega (arith, length-purge_le m now b.keyed (rw b.limit b.live), b.limit);
  }

  -- a record that is rewritten, and does not come back to life
  put_known-IsBounded :
      (id : String) (r r' : TaskRecord)
      → Dict.get id m.tasks ≡ some r
      → (is_finished r.status ≡ true → is_finished r'.status ≡ true)
      → IsBounded max_tasks (record m { tasks = Dict.put id r' m.tasks })
  put_known-IsBounded id r r' found stays = record {
    limit = b.limit;
    keyed = put-IsKeyed id r' m.tasks b.keyed;
    live = ground (arith, live_count-put id r r' m.tasks found, b.live, stays);
    few = omega (arith, length-put_known id r' r m.tasks found, b.few);
  }

  update-IsBounded :
      (id : String) (f : TaskRecord → TaskRecord)
      → ((r : TaskRecord)
          → Dict.get id m.tasks ≡ some r
          → is_finished r.status ≡ true
          → is_finished (f r).status ≡ true)
      → IsBounded max_tasks (update m id f)
  unfolding update
  update-IsBounded id f stays = elim (Option-cases (Dict.get id m.tasks)) [
    | inl e ↦ rw (e, update) b
    | inr (r, e) ↦ rw (e, update) (put_known-IsBounded id r (f r) e (stays r e))
  ]

  submit-IsBounded : (name id : String) (now : ℕ) → IsBounded max_tasks (submit m name id now).0
  unfolding submit live_count purge
  submit-IsBounded name id now =
      let p = purge-IsBounded now in
      elim (Bool-cases (leb (purge m now).max_tasks (live_count (purge m now).tasks))) [
        | inl full ↦ rw (full, submit) p
        | inr room ↦
            rw (room, submit)
              (record {
                limit = p.limit;
                keyed = put-IsKeyed id (new_task name now) (purge m now).tasks p.keyed;
                live =
                    ground (
                      arith,
                      live_count-put_new id (new_task name now) (purge m now).tasks,
                      p.limit,
                    );
                few = omega (
                  arith,
                  length-purge_le m now b.keyed (rw b.limit b.live),
                  length-put-le id (new_task name now) (purge m now).tasks,
                  b.limit,
                );
              })
      ]

  cancel-IsBounded : (id : String) (now : ℕ) → IsBounded max_tasks (cancel m id now).0
  unfolding cancel
  cancel-IsBounded id now = elim (Option-cases (Dict.get id m.tasks)) [
    | inl e ↦ rw (e, cancel) b
    | inr (r, e) ↦ elim (Bool-cases (is_finished r.status)) [
      | inl ended ↦ rw (e, cancel, ended) b
      | inr live ↦
          rw (e, cancel, live) (put_known-IsBounded id r (cancelled_record r now) e (λ _. refl))
    ]
  ]

pub started_stays :
    (now : ℕ) (r : TaskRecord)
    → is_status_at queued r ≡ true
    → is_finished r.status ≡ true
    → started now r ≡ r
started_stays now r fit h = ground arith

delivered_stays :
    (outcome : Outcome) (r : TaskRecord)
    → is_finished r.status ≡ true
    → is_finished (delivered outcome r).status ≡ true
delivered_stays (returned v) r h = ground arith
delivered_stays (raised e) r h = ground arith

-- the task of a worker that has not started is pending or cancelled
pub status_at :
    (s : System) (id : String) (r : TaskRecord) (p : Phase)
    → IsSound s
    → Dict.get id s.workers ≡ some p
    → Dict.get id s.manager.tasks ≡ some r
    → is_status_at p r ≡ true
status_at s id r p sound stands found =
    let (q, at_q, fit, _) = sound.fits id r found in
    subst (λ o. is_status_at o r ≡ true) (some_inj (sym at_q ∙ stands)) fit

Step-IsBounded :
    (max_tasks : ℕ) {s s' : System}
    → Step s s'
    → IsSound s
    → IsBounded max_tasks s.manager
    → IsBounded max_tasks s'.manager
unfolding status list_tasks
Step-IsBounded max_tasks (submits s name id now _ _) sound b =
    submit-IsBounded max_tasks s.manager b name id now
Step-IsBounded max_tasks (starts s id now stands) sound b =
    update-IsBounded max_tasks s.manager b id (started now)
      (λ r found h. rw (started_stays now r (status_at s id r queued sound stands found) h) h)
Step-IsBounded max_tasks (delivers s id outcome _) sound b =
    update-IsBounded max_tasks s.manager b id (delivered outcome)
      (λ r found. delivered_stays outcome r)
Step-IsBounded max_tasks (finishes s id now _) sound b =
    update-IsBounded max_tasks s.manager b id (finished now) (λ r found h. h)
Step-IsBounded max_tasks (asks s id now) sound b = purge-IsBounded max_tasks s.manager b now
Step-IsBounded max_tasks (lists s now) sound b = purge-IsBounded max_tasks s.manager b now
Step-IsBounded max_tasks (cancels s id now) sound b = cancel-IsBounded max_tasks s.manager b id now

-- In every state that a new manager can come to, by any interleaving of submissions, workers, polls
-- and cancellations, at most `max_tasks` tasks are live and at most one more than that is kept.
pub Reachable-IsBounded :
    (max_tasks ttl : ℕ) {s : System} → Reachable max_tasks ttl s → IsBounded max_tasks s.manager
unfolding live_count
Reachable-IsBounded max_tasks ttl new = record {
  limit = refl;
  keyed = tt;
  live = omega arith;
  few = omega arith;
}
Reachable-IsBounded max_tasks ttl (after r step) =
    Step-IsBounded max_tasks step (Reachable-IsSound max_tasks ttl r)
      (Reachable-IsBounded max_tasks ttl r)
