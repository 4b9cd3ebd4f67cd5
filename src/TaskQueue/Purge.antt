-- ===== src/TaskQueue/Purge.antt =====
-- `_purge_locked` leaves no more tasks than the bound, unless all of them are live.
use mathlib.Core.Path.{subst}
use mcp_odoo.Prelude.{
  ℕ, zero, suc, ◌+◌, ◌≤◌, ◌≡◌, refl, sym, ap, ◌∙◌, inl, inr, ◌⊎◌, String, true, none, some, [], ◌∷◌,
  arith, ltb, str_eq, eq_iff, eq_refl, if◌then◌else◌, length, Bool-cases, Option-cases, some_inj,
}
use mcp_odoo.Prelude.Dict
use mcp_odoo.Prelude.Dict.{Dict, contains, keys, length-remove-le}
use mcp_odoo.Prelude.Dict.Entries.{IsKeyed, length-remove-lt, remove-IsKeyed}
use mcp_odoo.TaskQueue.{
  is_finished, TaskRecord, Manager, is_expired, without_expired, end_time, is_before, oldest,
  victim, evict_finished, purge, live_count,
}

live_count-without_expired_le :
    (ttl now : ℕ) (tasks : Dict TaskRecord)
    → live_count (without_expired ttl now tasks) ≤ live_count tasks
unfolding live_count without_expired
live_count-without_expired_le ttl now [] = omega arith
live_count-without_expired_le ttl now ((id, r) ∷ tasks) =
    ground (arith, live_count-without_expired_le ttl now tasks)

pub live_count-remove_le :
    (id : String) (tasks : Dict TaskRecord) → live_count (Dict.remove id tasks) ≤ live_count tasks
unfolding live_count
live_count-remove_le id [] = omega arith
live_count-remove_le id ((j, r) ∷ tasks) = ground (arith, live_count-remove_le id tasks)

pub live_count-put :
    (id : String) (r r' : TaskRecord) (tasks : Dict TaskRecord)
    → Dict.get id tasks ≡ some r
    → live_count (Dict.put id r' tasks) + (if is_finished r.status then 0 else 1)
      ≡ live_count tasks + (if is_finished r'.status then 0 else 1)
unfolding live_count
live_count-put id r r' [] h = cc
live_count-put id r r' ((j, s) ∷ tasks) h = elim (Bool-cases (str_eq j id)) [
  | inl same ↦ let e : s ≡ r = some_inj (rw same at h) in rw same (ground (arith, e))
  | inr other ↦ rw other (ground (arith, live_count-put id r r' tasks (rw other at h)))
]

pub live_count-put_new :
    (id : String) (r : TaskRecord) (tasks : Dict TaskRecord)
    → live_count (Dict.put id r tasks) ≤ suc (live_count tasks)
unfolding live_count
live_count-put_new id r [] = ground arith
live_count-put_new id r ((j, s) ∷ tasks) = ground (arith, live_count-put_new id r tasks)

-- with no finished task, all are live
oldest-none : (tasks : Dict TaskRecord) → oldest tasks ≡ none → length tasks ≡ live_count tasks
unfolding oldest live_count
oldest-none [] h = refl
oldest-none ((id, r) ∷ tasks) h = elim (Bool-cases (is_finished r.status)) [
  | inl yes_r ↦ elim (Option-cases (oldest tasks)) [
    | inl e ↦ cc (rw (yes_r, e) at h)
    | inr (best, e) ↦ cc (rw (yes_r, e) at h)
  ]
  | inr no_r ↦ rw no_r (ap suc (oldest-none tasks (rw no_r at h)))
]

oldest_from :
    (id : String) (r : TaskRecord) (tasks : Dict TaskRecord) (best : ℕ × String)
    → oldest ((id, r) ∷ tasks) ≡ some best
    → ((best.1 ≡ id) × (is_finished r.status ≡ true)) ⊎ (oldest tasks ≡ some best)
unfolding oldest
oldest_from id r tasks best h = elim (Bool-cases (is_finished r.status)) [
  | inl yes_r ↦ elim (Option-cases (oldest tasks)) [
    | inl e ↦ inl (sym (ap (λ b. b.1) (some_inj (rw (yes_r, e) at h))), yes_r)
    | inr (b, e) ↦ elim (Bool-cases (is_before b (end_time r, id))) [
      | inl first ↦ inr (e ∙ (rw (yes_r, e, first) at h))
      | inr last ↦ inl (sym (ap (λ c. c.1) (some_inj (rw (yes_r, e, last) at h))), yes_r)
    ]
  ]
  | inr no_r ↦ inr (rw no_r at h)
]

-- the task dropped is one of them, and has finished
pub oldest_known :
    (tasks : Dict TaskRecord) (best : ℕ × String)
    → IsKeyed tasks
    → oldest tasks ≡ some best
    → (r : TaskRecord) × (Dict.get best.1 tasks ≡ some r) × (is_finished r.status ≡ true)
unfolding oldest
oldest_known [] best u h = cc
oldest_known ((id, r) ∷ tasks) best u h = elim (oldest_from id r tasks best h) [
  | inl (same, done) ↦ (r, rw (same, eq_refl id), done)
  | inr rest ↦
      let (s, found, done) = oldest_known tasks best u.1 rest in
      (s, ground (arith, found, u.0, eq_iff id best.1), done)
]

pub victim_known :
    (max_tasks : ℕ) (tasks : Dict TaskRecord) (id : String)
    → IsKeyed tasks
    → victim max_tasks tasks ≡ some id
    → (r : TaskRecord) × (Dict.get id tasks ≡ some r) × (is_finished r.status ≡ true)
unfolding victim
victim_known max_tasks tasks id u h = elim (Bool-cases (ltb max_tasks (length tasks))) [
  | inl more ↦ elim (Option-cases (oldest tasks)) [
    | inl e ↦ cc (rw (more, e) at h)
    | inr (best, e) ↦
        subst (λ j. (r : TaskRecord) × (Dict.get j tasks ≡ some r) × (is_finished r.status ≡ true))
          (some_inj (rw (more, e) at h)) (oldest_known tasks best u e)
  ]
  | inr fits ↦ cc (rw fits at h)
]

victim-none :
    (max_tasks : ℕ) (tasks : Dict TaskRecord)
    → victim max_tasks tasks ≡ none
    → (length tasks ≤ max_tasks) ⊎ (length tasks ≡ live_count tasks)
unfolding victim
victim-none max_tasks tasks h = elim (Bool-cases (ltb max_tasks (length tasks))) [
  | inl more ↦ elim (Option-cases (oldest tasks)) [
    | inl e ↦ inr (oldest-none tasks e)
    | inr (best, e) ↦ cc (rw (more, e) at h)
  ]
  | inr fits ↦ inl (ground arith)
]

contains-get :
    (id : String) (r : TaskRecord) (tasks : Dict TaskRecord)
    → Dict.get id tasks ≡ some r
    → contains (keys tasks) id ≡ true
contains-get id r [] h = cc
contains-get id r ((j, s) ∷ tasks) h = ground (arith, contains-get id r tasks)

-- with a round for each task, the second loop comes to its end
pub evict_finished_ends :
    (fuel max_tasks : ℕ) (tasks : Dict TaskRecord)
    → IsKeyed tasks
    → length tasks ≤ fuel
    → victim max_tasks (evict_finished fuel max_tasks tasks) ≡ none
unfolding evict_finished
evict_finished_ends zero max_tasks [] u l = unfold victim in unfold oldest in ground arith
evict_finished_ends zero max_tasks (e ∷ tasks) u l = absurd (omega arith)
evict_finished_ends (suc fuel) max_tasks tasks u l = elim (Option-cases (victim max_tasks tasks)) [
  | inl e ↦ rw (e, evict_finished) e
  | inr (id, e) ↦
      let (r, found, _) = victim_known max_tasks tasks id u e in
      rw (e, evict_finished)
        (evict_finished_ends fuel max_tasks (Dict.remove id tasks) (remove-IsKeyed id tasks u)
          (omega (arith, length-remove-lt id tasks (contains-get id r tasks found))))
]

live_count-evict_finished_le :
    (fuel max_tasks : ℕ) (tasks : Dict TaskRecord)
    → live_count (evict_finished fuel max_tasks tasks) ≤ live_count tasks
unfolding evict_finished
live_count-evict_finished_le zero max_tasks tasks = omega arith
live_count-evict_finished_le (suc fuel) max_tasks tasks =
    elim (Option-cases (victim max_tasks tasks)) [
      | inl e ↦ rw (e, evict_finished) (omega arith)
      | inr (id, e) ↦
          rw (e, evict_finished)
            (omega (
              arith,
              live_count-evict_finished_le fuel max_tasks (Dict.remove id tasks),
              live_count-remove_le id tasks,
            ))
    ]

pub get-without_expired-none :
    (ttl now : ℕ) (id : String) (tasks : Dict TaskRecord)
    → Dict.get id tasks ≡ none
    → Dict.get id (without_expired ttl now tasks) ≡ none
unfolding without_expired
get-without_expired-none ttl now id [] h = refl
get-without_expired-none ttl now id ((j, r) ∷ tasks) h =
    ground (arith, get-without_expired-none ttl now id tasks)

pub without_expired-IsKeyed :
    (ttl now : ℕ) (tasks : Dict TaskRecord)
    → IsKeyed tasks
    → IsKeyed (without_expired ttl now tasks)
unfolding without_expired
without_expired-IsKeyed ttl now [] u = tt
without_expired-IsKeyed ttl now ((j, r) ∷ tasks) u = elim (Bool-cases (is_expired ttl now r)) [
  | inl old ↦ rw old (without_expired-IsKeyed ttl now tasks u.1)
  | inr new ↦
      rw new
        (get-without_expired-none ttl now j tasks u.0, without_expired-IsKeyed ttl now tasks u.1)
]

evict_finished-IsKeyed :
    (fuel max_tasks : ℕ) (tasks : Dict TaskRecord)
    → IsKeyed tasks
    → IsKeyed (evict_finished fuel max_tasks tasks)
unfolding evict_finished
evict_finished-IsKeyed zero max_tasks tasks u = u
evict_finished-IsKeyed (suc fuel) max_tasks tasks u = elim (Option-cases (victim max_tasks tasks)) [
  | inl e ↦ rw (e, evict_finished) u
  | inr (id, e) ↦
      rw (e, evict_finished)
        (evict_finished-IsKeyed fuel max_tasks (Dict.remove id tasks) (remove-IsKeyed id tasks u))
]

module _ (m : Manager) (now : ℕ) where
  pub purge-IsKeyed : IsKeyed m.tasks → IsKeyed (purge m now).tasks
  unfolding purge
  purge-IsKeyed u =
      let kept = without_expired m.result_ttl_seconds now m.tasks in
      evict_finished-IsKeyed (length kept) m.max_tasks kept
        (without_expired-IsKeyed m.result_ttl_seconds now m.tasks u)

  pub live_count-purge_le : live_count (purge m now).tasks ≤ live_count m.tasks
  unfolding purge
  live_count-purge_le =
      let kept = without_expired m.result_ttl_seconds now m.tasks in
      omega (
        arith,
        live_count-evict_finished_le (length kept) m.max_tasks kept,
        live_count-without_expired_le m.result_ttl_seconds now m.tasks,
      )

  -- the tasks left are within the bound, if the live ones are
  pub length-purge_le :
      IsKeyed m.tasks → live_count m.tasks ≤ m.max_tasks → length (purge m now).tasks ≤ m.max_tasks
  unfolding purge
  length-purge_le u few =
      let kept = without_expired m.result_ttl_seconds now m.tasks in
      elim (victim-none m.max_tasks (evict_finished (length kept) m.max_tasks kept) (
        evict_finished_ends (length kept) m.max_tasks kept
          (without_expired-IsKeyed m.result_ttl_seconds now m.tasks u) (omega arith))) [
            | inl fits ↦ fits
            | inr all_live ↦ omega (
              arith,
              all_live,
              live_count-evict_finished_le (length kept) m.max_tasks kept,
              live_count-without_expired_le m.result_ttl_seconds now m.tasks,
            )
          ]
