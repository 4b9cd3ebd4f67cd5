-- ===== src/TaskQueue/Endings.antt =====
-- What becomes of one task in a step of the system.
use mathlib.Core.Path.{subst}
use mcp_odoo.Prelude.{
  ℕ, ◌≡◌, refl, sym, ◌∙◌, inl, inr, ◌⊎◌, String, true, false, Option, none, some, arith, leb,
  str_eq, eq_iff, Bool-cases, Option-cases, some_inj,
}
use mcp_odoo.Prelude.Dict
use mcp_odoo.Prelude.Dict.{get-put}
use mcp_odoo.Json.{Fields}
use mcp_odoo.TaskQueue.{
  Status, is_finished, TaskRecord, purge, live_count, submit, status, cancel, list_tasks, update,
  started, Outcome, returned, raised, delivered, finished, cancelled_record,
}
use mcp_odoo.TaskQueue.Steps.{
  Phase, queued, working, System, Step, submits, starts, delivers, finishes, asks, lists, cancels,
  Reachable,
}
use mcp_odoo.TaskQueue.Kept.{is_ended, get-purge}
use mcp_odoo.TaskQueue.Sound.{is_status_at, is_consistent, IsSound, Reachable-IsSound}
use mcp_odoo.TaskQueue.Bounded.{started_stays, status_at}

-- what a poller learns of a task that has finished
abbrev pub ending : TaskRecord → Status × Option Fields × Option String
ending r = (r.status, r.result, r.error)

-- A finished task keeps its ending; a live one is still there.
abbrev pub Goes : TaskRecord → Option TaskRecord → Type 0
Goes r none = is_finished r.status ≡ true
Goes r (some r') = (is_finished r.status ≡ false) ⊎ (ending r' ≡ ending r)

Goes-self : (r : TaskRecord) → Goes r (some r)
Goes-self r = inr refl

ended_finished :
    (r : TaskRecord) → is_consistent r ≡ true → is_ended r ≡ true → is_finished r.status ≡ true
ended_finished r consistent ended = ground arith

module _ (s : System) (sound : IsSound s) (id : String) (r : TaskRecord)
    (found : Dict.get id s.manager.tasks ≡ some r) where
  consistent_here : is_consistent r ≡ true
  consistent_here = let (_, _, _, consistent) = sound.fits id r found in consistent

  Goes-purge : (now : ℕ) → Goes r (Dict.get id (purge s.manager now).tasks)
  Goes-purge now = elim (get-purge s.manager now id sound.keyed) [
    | inl same ↦ rw (same, found) (inr refl)
    | inr (q, before, ended, gone) ↦ rw gone (ended_finished r consistent_here (ground arith))
  ]

  -- a record that is rewritten in place
  Goes-put :
      (j : String) (q : TaskRecord)
      → ((str_eq j id ≡ true) → Goes r (some q))
      → Goes r (Dict.get id (Dict.put j q s.manager.tasks))
  Goes-put j q goes = elim (Bool-cases (str_eq j id)) [
    | inl same ↦ rw (get-put, same) (goes same)
    | inr other ↦ rw (get-put, other, found) (inr refl)
  ]

  record_here :
      (j : String) (q : TaskRecord)
      → Dict.get j s.manager.tasks ≡ some q
      → str_eq j id ≡ true
      → r ≡ q
  record_here j q e same =
      some_inj
        (sym found ∙ subst (λ k. Dict.get k s.manager.tasks ≡ some q) ((eq_iff j id).0 same) e)

  Goes-update :
      (j : String) (f : TaskRecord → TaskRecord)
      → ((str_eq j id ≡ true) → Goes r (some (f r)))
      → Goes r (Dict.get id (update s.manager j f).tasks)
  unfolding update
  Goes-update j f goes = elim (Option-cases (Dict.get j s.manager.tasks)) [
    | inl e ↦ rw (e, update, found) (inr refl)
    | inr (q, e) ↦
        rw (e, update)
          (Goes-put j (f q)
            (λ same. subst (λ o. Goes r (some (f o))) (record_here j q e same) (goes same)))
  ]

  Goes-cancel : (j : String) (now : ℕ) → Goes r (Dict.get id (cancel s.manager j now).0.tasks)
  unfolding cancel
  Goes-cancel j now = elim (Option-cases (Dict.get j s.manager.tasks)) [
    | inl e ↦ rw (e, cancel, found) (inr refl)
    | inr (q, e) ↦ elim (Bool-cases (is_finished q.status)) [
      | inl ended ↦ rw (e, cancel, ended, found) (inr refl)
      | inr live ↦
          rw (e, cancel, live)
            (Goes-put j (cancelled_record q now) (λ same.
              inl (subst (λ o. is_finished o.status ≡ false) (sym (record_here j q e same)) live)))
    ]
  ]

  Goes-submit :
      (name j : String) (now : ℕ)
      → Dict.get j s.manager.tasks ≡ none
      → Goes r (Dict.get id (submit s.manager name j now).0.tasks)
  unfolding submit live_count purge
  Goes-submit name j now absent =
      let purged = Goes-purge now in
      elim (Bool-cases
        (leb (purge s.manager now).max_tasks (live_count (purge s.manager now).tasks))) [
          | inl full ↦ rw (full, submit) purged
          | inr room ↦ elim (Bool-cases (str_eq j id)) [
            | inl same ↦ cc (absent, found, (eq_iff j id).0 same)
            | inr other ↦ rw (room, submit, get-put, other) purged
          ]
        ]

started-Goes :
    (now : ℕ) (r : TaskRecord) → is_status_at queued r ≡ true → Goes r (some (started now r))
started-Goes now r fit = elim (Bool-cases (is_finished r.status)) [
  | inl ended ↦ rw (started_stays now r fit ended) (inr refl)
  | inr live ↦ inl live
]

delivered_same :
    (outcome : Outcome) (r : TaskRecord)
    → is_status_at working r ≡ true
    → is_finished r.status ≡ true
    → delivered outcome r ≡ r
delivered_same (returned v) r fit h = ground arith
delivered_same (raised e) r fit h = ground arith

delivered-Goes :
    (outcome : Outcome) (r : TaskRecord)
    → is_status_at working r ≡ true
    → Goes r (some (delivered outcome r))
delivered-Goes outcome r fit = elim (Bool-cases (is_finished r.status)) [
  | inl ended ↦ rw (delivered_same outcome r fit ended) (inr refl)
  | inr live ↦ inl live
]

-- the worker of a named task stands where the step says
fit_of :
    (s : System) (j id : String) (r : TaskRecord) (p : Phase)
    → IsSound s
    → Dict.get j s.workers ≡ some p
    → Dict.get id s.manager.tasks ≡ some r
    → str_eq j id ≡ true
    → is_status_at p r ≡ true
fit_of s j id r p sound stands found same =
    status_at s id r p sound
      (subst (λ k. Dict.get k s.workers ≡ some p) ((eq_iff j id).0 same) stands) found

Step-Goes :
    {s s' : System} (id : String) (r : TaskRecord)
    → Step s s'
    → IsSound s
    → Dict.get id s.manager.tasks ≡ some r
    → Goes r (Dict.get id s'.manager.tasks)
unfolding status list_tasks
Step-Goes id r (submits s name j now _ absent) sound found =
    Goes-submit s sound id r found name j now absent
Step-Goes id r (starts s j now stands) sound found =
    Goes-update s sound id r found j (started now)
      (λ same. started-Goes now r (fit_of s j id r queued sound stands found same))
Step-Goes id r (delivers s j outcome stands) sound found =
    Goes-update s sound id r found j (delivered outcome)
      (λ same. delivered-Goes outcome r (fit_of s j id r working sound stands found same))
Step-Goes id r (finishes s j now stands) sound found =
    Goes-update s sound id r found j (finished now) (λ same. inr refl)
Step-Goes id r (asks s j now) sound found = Goes-purge s sound id r found now
Step-Goes id r (lists s now) sound found = Goes-purge s sound id r found now
Step-Goes id r (cancels s j now) sound found = Goes-cancel s sound id r found j now

module _ (max_tasks ttl : ℕ) {s s' : System} (reached : Reachable max_tasks ttl s)
    (step : Step s s') (id : String) (r : TaskRecord)
    (found : Dict.get id s.manager.tasks ≡ some r) where
  -- A task that has succeeded, failed or been cancelled keeps its status, result and error in every
  -- step, a late answer of its worker included, until it is forgotten.
  pub ending_kept :
      is_finished r.status ≡ true
      → (Dict.get id s'.manager.tasks ≡ none)
        ⊎ ((r' : TaskRecord) × (Dict.get id s'.manager.tasks ≡ some r') × (ending r' ≡ ending r))
  ending_kept ended = elim (Option-cases (Dict.get id s'.manager.tasks)) [
    | inl e ↦ inl e
    | inr (r', e) ↦
        elim (rw e at (Step-Goes id r step (Reachable-IsSound max_tasks ttl reached) found)) [
          | inl live ↦ cc (live, ended)
          | inr same ↦ inr (r', e, same)
        ]
  ]

  -- No step forgets a task that is pending or running.
  pub live_kept :
      is_finished r.status ≡ false → (r' : TaskRecord) × (Dict.get id s'.manager.tasks ≡ some r')
  live_kept live = elim (Option-cases (Dict.get id s'.manager.tasks)) [
    | inl e ↦
        cc (live, rw e at (Step-Goes id r step (Reachable-IsSound max_tasks ttl reached) found))
    | inr (r', e) ↦ (r', e)
  ]
