-- ===== src/TaskQueue/Kept.antt =====
-- Which tasks `_purge_locked` leaves: all but some that have finished.
use mathlib.Core.Path.{subst}
use mcp_odoo.Prelude.{
  ℕ, zero, suc, ◌≡◌, refl, sym, ◌∙◌, inl, inr, ◌⊎◌, String, Bool, true, false, ◌||◌, Option, none,
  some, [], ◌∷◌, arith, str_eq, eq_iff, length, Bool-cases, Option-cases,
}
use mcp_odoo.Prelude.Dict
use mcp_odoo.Prelude.Dict.{Dict, get-remove}
use mcp_odoo.Prelude.Dict.Entries.{IsKeyed, remove-IsKeyed}
use mcp_odoo.TaskQueue.{
  is_finished, TaskRecord, Manager, is_expired, without_expired, victim, evict_finished, purge,
}
use mcp_odoo.TaskQueue.Purge.{victim_known, get-without_expired-none, without_expired-IsKeyed}

abbrev pub has {ℓ} : {A : Type ℓ} → Option A → Bool
has none = false
has (some a) = true

-- the task has come to an end
abbrev pub is_ended : TaskRecord → Bool
is_ended r = is_finished r.status || has r.finished_at

-- a task is left as it was, or had ended and is gone
abbrev pub IsLeft : Option TaskRecord → Option TaskRecord → Type 0
IsLeft before left =
    (left ≡ before) ⊎ ((r : TaskRecord) × (before ≡ some r) × (is_ended r ≡ true) × (left ≡ none))

expired_ended : (ttl now : ℕ) (r : TaskRecord) → is_expired ttl now r ≡ true → is_ended r ≡ true
expired_ended ttl now r h = ground arith

stays_gone : {left : Option TaskRecord} → IsLeft none left → left ≡ none
stays_gone (inl e) = e
stays_gone (inr (_, _, _, e)) = e

get-without_expired :
    (ttl now : ℕ) (id : String) (tasks : Dict TaskRecord)
    → IsKeyed tasks
    → IsLeft (Dict.get id tasks) (Dict.get id (without_expired ttl now tasks))
unfolding without_expired
get-without_expired ttl now id [] u = inl refl
get-without_expired ttl now id ((j, r) ∷ tasks) u = elim (Bool-cases (is_expired ttl now r)) [
  | inl old ↦ elim (Bool-cases (str_eq j id)) [
    | inl same ↦
        rw (old, same)
          (inr (
            r,
            refl,
            expired_ended ttl now r old,
            get-without_expired-none ttl now id tasks (ground (arith, eq_iff j id, u.0)),
          ))
    | inr other ↦ rw (old, other) (get-without_expired ttl now id tasks u.1)
  ]
  | inr new ↦ elim (Bool-cases (str_eq j id)) [
    | inl same ↦ rw (new, same) (inl refl)
    | inr other ↦ rw (new, other) (get-without_expired ttl now id tasks u.1)
  ]
]

get-evict_finished :
    (fuel max_tasks : ℕ) (id : String) (tasks : Dict TaskRecord)
    → IsKeyed tasks
    → IsLeft (Dict.get id tasks) (Dict.get id (evict_finished fuel max_tasks tasks))
unfolding evict_finished
get-evict_finished zero max_tasks id tasks u = inl refl
get-evict_finished (suc fuel) max_tasks id tasks u = elim (Option-cases (victim max_tasks tasks)) [
  | inl e ↦ rw (e, evict_finished) (inl refl)
  | inr (j, e) ↦
      let (r, found, ended) = victim_known max_tasks tasks j u e in
      let ih =
        get-evict_finished fuel max_tasks id (Dict.remove j tasks) (remove-IsKeyed j tasks u) in
      rw (e, evict_finished)
        (elim (Bool-cases (str_eq j id)) [
          | inl same ↦ inr (
            r,
            ground (arith, found, eq_iff j id),
            ground (arith, ended),
            stays_gone (rw (get-remove, same) at ih),
          )
          | inr other ↦ rw (get-remove, other) at ih
        ])
]

-- what a task was before, if it is left
IsLeft-trans : {a b c : Option TaskRecord} → IsLeft a b → IsLeft b c → IsLeft a c
IsLeft-trans (inl e) (inl f) = inl (f ∙ e)
IsLeft-trans (inl e) (inr (r, f, ended, g)) = inr (r, sym e ∙ f, ended, g)
IsLeft-trans {c = c} (inr (r, e, ended, g)) h =
    inr (r, e, ended, stays_gone (subst (λ b. IsLeft b c) g h))

pub get-purge :
    (m : Manager) (now : ℕ) (id : String)
    → IsKeyed m.tasks
    → IsLeft (Dict.get id m.tasks) (Dict.get id (purge m now).tasks)
unfolding purge
get-purge m now id u =
    let kept = without_expired m.result_ttl_seconds now m.tasks in
    IsLeft-trans (get-without_expired m.result_ttl_seconds now id m.tasks u) (
      get-evict_finished (length kept) m.max_tasks id kept
        (without_expired-IsKeyed m.result_ttl_seconds now m.tasks u))
