-- ===== src/TaskQueue/Sound.antt =====
-- What a record says fits where its worker stands, in every state that can be reached.
use mathlib.Core.Path.{subst}
use mcp_odoo.Prelude.{
  ℕ, ◌≡◌, refl, sym, ◌∙◌, inl, inr, String, Bool, true, false, not, ◌&&◌, Option, none, some, arith,
  str_eq, eq_iff, Bool-cases, Option-cases, some_inj, leb,
}
use mcp_odoo.Prelude.Dict
use mcp_odoo.Prelude.Dict.{Dict, get-put}
use mcp_odoo.Prelude.Dict.Entries.{IsKeyed, put-IsKeyed}
use mcp_odoo.TaskQueue.{
  is_finished, TaskRecord, purge, live_count, new_task, submit, status, cancel, list_tasks, update,
  started, Outcome, returned, raised, delivered, finished, pending, running, succeeded, failed,
  cancelled, cancelled_record,
}
use mcp_odoo.TaskQueue.Steps.{
  Phase, queued, working, closing, done, phase_after_start, System, Step, submits, starts, delivers,
  finishes, asks, lists, cancels, after_submit, Reachable, new, after,
}
use mcp_odoo.TaskQueue.Purge.{purge-IsKeyed}
use mcp_odoo.TaskQueue.Kept.{has, get-purge}

-- the fields that a status has
abbrev pub is_consistent : TaskRecord → Bool
is_consistent r = elim r.status [
  | pending ↦
      not (has r.started_at) && not (has r.finished_at) && not (has r.result) && not (has r.error)
  | running ↦ has r.started_at && not (has r.finished_at) && not (has r.result) && not (has r.error)
  | succeeded ↦ has r.started_at && has r.result && not (has r.error)
  | failed ↦ has r.started_at && not (has r.result) && has r.error
  | cancelled ↦ has r.finished_at && not (has r.result) && not (has r.error)
]

-- the statuses of a task whose worker stands there
abbrev pub is_status_at : Phase → TaskRecord → Bool
is_status_at queued r = elim r.status [ pending ↦ true | cancelled ↦ true | _ ↦ false ]
is_status_at working r = elim r.status [ running ↦ true | cancelled ↦ true | _ ↦ false ]
is_status_at closing r = is_finished r.status
is_status_at done r = is_finished r.status && has r.finished_at

-- each task is known once; it has a worker, and its record fits where that stands
pub record IsSound (s : System) : Type 0 where
  pub keyed : IsKeyed s.manager.tasks
  pub fits :
      (id : String) (r : TaskRecord)
      → Dict.get id s.manager.tasks ≡ some r
      → (p : Phase) × (Dict.get id s.workers ≡ some p)
        × (is_status_at p r ≡ true)
        × (is_consistent r ≡ true)

cancelled_fits :
    (p : Phase) (r : TaskRecord) (now : ℕ)
    → is_finished r.status ≡ false
    → is_status_at p r ≡ true
    → is_status_at p (cancelled_record r now) ≡ true
cancelled_fits queued r now live fit = refl
cancelled_fits working r now live fit = refl
cancelled_fits closing r now live fit = refl
cancelled_fits done r now live fit = refl

cancelled_consistent :
    (r : TaskRecord) (now : ℕ)
    → is_finished r.status ≡ false
    → is_consistent r ≡ true
    → is_consistent (cancelled_record r now) ≡ true
cancelled_consistent r now live consistent = ground arith

module _ (s : System) (sound : IsSound s) where
  -- a purge, and what else leaves the records as they are or drops them
  purge-IsSound : (now : ℕ) → IsSound (record s { manager = purge s.manager now })
  purge-IsSound now = record {
    keyed = purge-IsKeyed s.manager now sound.keyed;
    fits = λ id r found. elim (get-purge s.manager now id sound.keyed) [
      | inl same ↦ sound.fits id r (sym same ∙ found)
      | inr (_, _, _, gone) ↦ cc (gone, found)
    ];
  }

  -- a record and the place of its worker are rewritten
  put_known-IsSound :
      (id : String) (r : TaskRecord) (p : Phase)
      → is_status_at p r ≡ true
      → is_consistent r ≡ true
      → IsSound (record {
        manager = record s.manager { tasks = Dict.put id r s.manager.tasks };
        workers = Dict.put id p s.workers;
      })
  put_known-IsSound id r p fit consistent = record {
    keyed = put-IsKeyed id r s.manager.tasks sound.keyed;
    fits = λ j q found. elim (Bool-cases (str_eq id j)) [
      | inl same ↦
          let e : r ≡ q = some_inj (rw (get-put, same) at found) in
          (p, rw (get-put, same), rw e at fit, rw e at consistent)
      | inr other ↦ rw (get-put, other) (sound.fits j q (rw (get-put, other) at found))
    ];
  }

  -- only a record is rewritten
  put_record-IsSound :
      (id : String) (r : TaskRecord) (p : Phase)
      → Dict.get id s.workers ≡ some p
      → is_status_at p r ≡ true
      → is_consistent r ≡ true
      → IsSound (record s { manager = record s.manager { tasks = Dict.put id r s.manager.tasks } })
  put_record-IsSound id r p stands fit consistent = record {
    keyed = put-IsKeyed id r s.manager.tasks sound.keyed;
    fits = λ j q found. elim (Bool-cases (str_eq id j)) [
      | inl same ↦
          let e : r ≡ q = some_inj (rw (get-put, same) at found) in
          (
            p,
            subst (λ k. Dict.get k s.workers ≡ some p) ((eq_iff id j).0 same) stands,
            rw e at fit,
            rw e at consistent,
          )
      | inr other ↦ sound.fits j q (rw (get-put, other) at found)
    ];
  }

  -- only the place of a worker is rewritten, whose task is forgotten
  put_worker-IsSound :
      (id : String) (p : Phase)
      → Dict.get id s.manager.tasks ≡ none
      → IsSound (record s { workers = Dict.put id p s.workers })
  put_worker-IsSound id p gone = record {
    keyed = sound.keyed;
    fits = λ j q found. elim (Bool-cases (str_eq id j)) [
      | inl same ↦ cc (gone, found, (eq_iff id j).0 same)
      | inr other ↦ rw (get-put, other) (sound.fits j q found)
    ];
  }

  -- a worker goes on from `p`, and writes into its record if it is known
  update-IsSound :
      (id : String) (f : TaskRecord → TaskRecord) (p : Phase) (next : Option TaskRecord → Phase)
      → Dict.get id s.workers ≡ some p
      → ((r : TaskRecord)
          → is_status_at p r ≡ true
          → is_consistent r ≡ true
          → (is_status_at (next (some r)) (f r) ≡ true) × (is_consistent (f r) ≡ true))
      → IsSound (record {
        manager = update s.manager id f;
        workers = Dict.put id (next (Dict.get id s.manager.tasks)) s.workers;
      })
  unfolding update
  update-IsSound id f p next stands moves = elim (Option-cases (Dict.get id s.manager.tasks)) [
    | inl e ↦ rw (e, update) (put_worker-IsSound id (next none) e)
    | inr (r, e) ↦
        let (q, at_q, fit, consistent) = sound.fits id r e in
        let same : q ≡ p = some_inj (sym at_q ∙ stands) in
        let (fit', consistent') = moves r (rw same at fit) consistent in
        rw (e, update) (put_known-IsSound id (f r) (next (some r)) fit' consistent')
  ]

  cancel-IsSound :
      (id : String) (now : ℕ) → IsSound (record s { manager = (cancel s.manager id now).0 })
  unfolding cancel
  cancel-IsSound id now = elim (Option-cases (Dict.get id s.manager.tasks)) [
    | inl e ↦ rw (e, cancel) sound
    | inr (r, e) ↦ elim (Bool-cases (is_finished r.status)) [
      | inl ended ↦ rw (e, cancel, ended) sound
      | inr live ↦
          rw (e, cancel, live)
            (let (p, stands, fit, consistent) = sound.fits id r e in
              put_record-IsSound id (cancelled_record r now) p stands
                (cancelled_fits p r now live fit) (cancelled_consistent r now live consistent))
    ]
  ]

started_moves :
    (now : ℕ) (r : TaskRecord)
    → is_status_at queued r ≡ true
    → is_consistent r ≡ true
    → (is_status_at (phase_after_start (some r)) (started now r) ≡ true)
      × (is_consistent (started now r) ≡ true)
started_moves now r fit consistent = ground arith

delivered_moves :
    (outcome : Outcome) (r : TaskRecord)
    → is_status_at working r ≡ true
    → is_consistent r ≡ true
    → (is_status_at closing (delivered outcome r) ≡ true)
      × (is_consistent (delivered outcome r) ≡ true)
delivered_moves (returned v) r fit consistent = ground arith
delivered_moves (raised e) r fit consistent = ground arith

finished_moves :
    (now : ℕ) (r : TaskRecord)
    → is_status_at closing r ≡ true
    → is_consistent r ≡ true
    → (is_status_at done (finished now r) ≡ true) × (is_consistent (finished now r) ≡ true)
finished_moves now r fit consistent = ground arith

submit-IsSound :
    (s : System) (name id : String) (now : ℕ) → IsSound s → IsSound (after_submit s name id now)
unfolding submit live_count purge
submit-IsSound s name id now sound =
    elim (Bool-cases
      (leb (purge s.manager now).max_tasks (live_count (purge s.manager now).tasks))) [
        | inl full ↦ rw (full, submit) (purge-IsSound s sound now)
        | inr room ↦
            rw (room, submit)
              (put_known-IsSound (record s { manager = purge s.manager now })
                (purge-IsSound s sound now) id (new_task name now) queued refl refl)
      ]

Step-IsSound : {s s' : System} → Step s s' → IsSound s → IsSound s'
unfolding status list_tasks
Step-IsSound (submits s name id now _ _) sound = submit-IsSound s name id now sound
Step-IsSound (starts s id now stands) sound =
    update-IsSound s sound id (started now) queued phase_after_start stands (started_moves now)
Step-IsSound (delivers s id outcome stands) sound =
    update-IsSound s sound id (delivered outcome) working (λ _. closing) stands
      (delivered_moves outcome)
Step-IsSound (finishes s id now stands) sound =
    update-IsSound s sound id (finished now) closing (λ _. done) stands (finished_moves now)
Step-IsSound (asks s id now) sound = purge-IsSound s sound now
Step-IsSound (lists s now) sound = purge-IsSound s sound now
Step-IsSound (cancels s id now) sound = cancel-IsSound s sound id now

-- In every state that can be reached, a record fits where its worker stands: it is pending before
-- the start, running while the function runs, and has one of the three final statuses afterwards,
-- unless it was cancelled; and it has a result exactly if it succeeded, an error exactly if it
-- failed, and no end while it is live.
pub Reachable-IsSound : (max_tasks ttl : ℕ) {s : System} → Reachable max_tasks ttl s → IsSound s
Reachable-IsSound max_tasks ttl new = record { keyed = tt; fits = λ id r found. cc }
Reachable-IsSound max_tasks ttl (after r step) =
    Step-IsSound step (Reachable-IsSound max_tasks ttl r)
