-- ===== src/RateLimit/Session.antt =====
-- A session: the calls of many keys, one after the other, and which of them block mode lets through.
use mcp_odoo.Prelude.{
  ℕ, ◌+◌, ◌≤◌, ◌<◌, ◌≡◌, refl, sym, inl, inr, String, Bool, true, false, ◌&&◌, List, [], ◌∷◌, ◌++◌,
  arith, length, str_eq, eq_iff, if◌then◌else◌, Bool-cases,
}
use mcp_odoo.Prelude.Dict.{Dict, contains}
use mcp_odoo.Prelude.Dict.Names.{HasKeysIn, put-HasKeysIn, remove-HasKeysIn, length-HasKeysIn-le}
use mcp_odoo.Prelude.Result.{Result, ok, err}
use mcp_odoo.RateLimit.{
  block, RateError, Tracker, pop_expired, store_trimmed, trim, calls_of, evict, with_call,
  record_call, check_rate,
}
use mcp_odoo.RateLimit.Valid.{IsValid, trim_cases, IsFilled-after, IsKeyed-after}
use mcp_odoo.RateLimit.Window.{count_in, count_in-append}
use mcp_odoo.RateLimit.Budget.{
  over_budget-with_call, Kept, Kept-later, Kept-admit, logged_call, calls_of-with_call,
}

-- a tool goes on only after an answer that is no refusal
abbrev pub goes_on : Result RateError Bool → Bool
goes_on (ok refused) = if refused then false else true
goes_on (err e) = false

-- the calls let through, of a list of calls with their keys and times
unfoldable pub serve : Tracker → List (String × ℕ) → List (String × ℕ)
serve t [] = []
serve t ((key, now) ∷ calls) =
    let rest = serve (check_rate block t key now).0 calls in
    if goes_on (check_rate block t key now).1 then (key, now) ∷ rest else rest

abbrev pub times_of : String → List (String × ℕ) → List ℕ
times_of key [] = []
times_of key ((k, now) ∷ calls) =
    let rest = times_of key calls in if str_eq k key then now ∷ rest else rest

-- the clock does not go back, and the keys are among the names
abbrev pub IsOrderly : List String → ℕ → List (String × ℕ) → Type 0
IsOrderly names now [] = Unit
IsOrderly names now ((k, next) ∷ calls) =
    (contains names k ≡ true) × (now ≤ next) × IsOrderly names next calls

trim-HasKeysIn :
    (window now : ℕ) (key : String) (events : Dict (List ℕ)) (names : List String)
    → contains names key ≡ true
    → HasKeysIn names events
    → HasKeysIn names (trim window now key events)
trim-HasKeysIn window now key events names c h = elim (trim_cases window now key events) [
  | inl (_, same) ↦ rw same h
  | inr (es, _, stored) ↦ rw stored (go (pop_expired window now es))
]
  where
    go : (es : List ℕ) → HasKeysIn names (store_trimmed key es events)
    go [] = remove-HasKeysIn names key events h
    go (e ∷ es) = put-HasKeysIn names key (e ∷ es) events c h

evict_few : (events : Dict (List ℕ)) → length events ≤ 512 → evict events ≡ ok events
unfolding evict
evict_few events few = ground arith

module _ (t : Tracker) (k : String) (now : ℕ) where
  HasKeysIn-with_call :
      (names : List String)
      → contains names k ≡ true
      → HasKeysIn names t.events
      → HasKeysIn names (with_call t k now false).0.events
  unfolding with_call
  HasKeysIn-with_call names c h =
      put-HasKeysIn names k _ (trim t.window_seconds now k t.events) c
        (trim-HasKeysIn t.window_seconds now k t.events names c h)

  -- nothing is evicted
  check_rate-with_call :
      (names : List String)
      → IsValid t
      → contains names k ≡ true
      → HasKeysIn names t.events
      → length names ≤ 512
      → check_rate block t k now
        ≡ ((with_call t k now false).0, ok (with_call t k now false).1.over_budget)
  unfolding check_rate record_call
  check_rate-with_call names valid c h few = rw (
    check_rate,
    record_call,
    evict_few (with_call t k now false).0.events (
        omega (
          arith,
          length-HasKeysIn-le names (with_call t k now false).0.events
              (IsKeyed-after t k now false valid) (HasKeysIn-with_call names c h),
        )),
  )

  module _ (key : String) (log : List ℕ) where
    -- the calls of `key` let through after this one
    unfoldable log_after : List ℕ
    log_after =
        if goes_on (ok (with_call t k now false).1.over_budget) && str_eq k key
        then log ++ now ∷ []
        else log

    log_after_same :
        str_eq k key ≡ true
        → logged_call t.window_seconds t.max_calls now (calls_of key t.events) log ≡ log_after
    unfolding log_after
    log_after_same same = rw (over_budget-with_call t k now, same) (ground (arith, eq_iff k key))

    log_after_other : str_eq k key ≡ false → log ≡ log_after
    unfolding log_after
    log_after_other other = ground (arith, other)

    Kept-with_call :
        (last : ℕ)
        → last ≤ now
        → Kept t.window_seconds t.max_calls last log (calls_of key t.events)
        → Kept t.window_seconds t.max_calls now log_after
            (calls_of key (with_call t k now false).0.events)
    Kept-with_call last l kept =
        let still =
          Kept-later t.window_seconds t.max_calls last now log (calls_of key t.events) l kept in
        elim (Bool-cases (str_eq k key)) [
          | inl same ↦
              rw (calls_of-with_call, same, sym (log_after_same same))
                (Kept-admit t.window_seconds t.max_calls now log (calls_of key t.events) still)
          | inr other ↦ rw (calls_of-with_call, other, sym (log_after_other other)) still
        ]

  same_limits :
      ((with_call t k now false).0.window_seconds ≡ t.window_seconds)
      × ((with_call t k now false).0.max_calls ≡ t.max_calls)
  unfolding with_call
  same_limits = (refl, refl)

  with_call-IsValid :
      (names : List String)
      → IsValid t
      → contains names k ≡ true
      → HasKeysIn names t.events
      → length names ≤ 512
      → IsValid (with_call t k now false).0
  unfolding with_call
  with_call-IsValid names valid c h few = record {
    positive = valid.positive;
    filled = IsFilled-after t k now false valid;
    keyed = IsKeyed-after t k now false valid;
    bounded = omega (
      arith,
      length-HasKeysIn-le names (with_call t k now false).0.events
          (IsKeyed-after t k now false valid) (HasKeysIn-with_call names c h),
    );
  }

-- a call let through goes to the end of what was let through before
count_in-log_after :
    (t : Tracker) (k : String) (now : ℕ) (key : String) (log : List ℕ) (rest : List (String × ℕ))
    (window time : ℕ)
    → count_in window time log
        + count_in window time (
            times_of key (
              if goes_on (ok (with_call t k now false).1.over_budget)
              then (k, now) ∷ rest
              else rest))
      ≡ count_in window time (log_after t k now key log) + count_in window time (times_of key rest)
unfolding log_after
count_in-log_after t k now key log rest window time =
    ground (arith, count_in-append window time log (now ∷ []))

serve_within :
    (names : List String) (key : String) (t : Tracker) (last : ℕ) (log : List ℕ)
    (calls : List (String × ℕ))
    → IsValid t
    → HasKeysIn names t.events
    → length names ≤ 512
    → IsOrderly names last calls
    → Kept t.window_seconds t.max_calls last log (calls_of key t.events)
    → (time : ℕ)
    → count_in t.window_seconds time log
        + count_in t.window_seconds time (times_of key (serve t calls))
      ≤ t.max_calls
unfolding serve
serve_within names key t last log [] valid known few orderly kept time =
    omega (arith, kept.within time)
serve_within names key t last log ((k, now) ∷ calls) valid known few (named, l, orderly) kept time =
    let t' = (with_call t k now false).0 in
    let again : Kept t'.window_seconds t'.max_calls now (log_after t k now key log)
        (calls_of key t'.events) =
      rw ((same_limits t k now).0, (same_limits t k now).1)
        (Kept-with_call t k now key log last l kept) in
    let ih =
      serve_within names key t' now (log_after t k now key log) calls
        (with_call-IsValid t k now names valid named known few)
        (HasKeysIn-with_call t k now names named known) few orderly again time in
    rw
      (
        check_rate-with_call t k now names valid named known few,
        count_in-log_after t k now key log (serve t' calls) t.window_seconds time,
      )
      (rw ((same_limits t k now).0, (same_limits t k now).1) at ih)

-- In block mode the calls let through of one key are at most the budget in every window, whatever
-- the calls are: if the clock does not go back and at most 512 keys are in use, then of the calls
-- that a new tracker lets through, no more than `max_calls` lie in any `window_seconds` seconds.
pub serve-count_in :
    (names : List String) (key : String) (t : Tracker) (start : ℕ) (calls : List (String × ℕ))
    → 0 < t.max_calls
    → t.events ≡ []
    → length names ≤ 512
    → IsOrderly names start calls
    → (time : ℕ) → count_in t.window_seconds time (times_of key (serve t calls)) ≤ t.max_calls
serve-count_in names key t start calls positive new few orderly time =
    omega (arith, serve_within names key t start [] calls valid (rw new tt) few orderly kept time)
  where
    valid : IsValid t
    valid = record {
      positive = positive;
      filled = rw new tt;
      keyed = rw new tt;
      bounded = rw new (omega arith);
    }

    kept : Kept t.window_seconds t.max_calls start [] (calls_of key t.events)
    kept = record {
      by = rw new tt;
      ascending = rw new tt;
      logged = tt;
      agree = λ later l. rw new refl;
      within = λ time. omega arith;
    }
