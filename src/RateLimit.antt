-- ===== src/RateLimit.antt =====
-- `SlidingWindowRateTracker` and `check_rate` of src/odoo_mcp/rate_limit.py. The clock is an argument;
-- a key is the text "instance:tool".
pub mod Window
pub mod Valid
pub mod Budget
pub mod Session
mod Tests
use mcp_odoo.Prelude.{
  ℕ, ◌+◌, min, max, String, Bool, true, false, not, ◌||◌, Option, none, some, List, [], ◌∷◌, ◌++◌,
  ltb, leb, str_eq, if◌then◌else◌, length, take,
}
use mcp_odoo.Prelude.Dict
use mcp_odoo.Prelude.Dict.{Dict}
use mcp_odoo.Prelude.Result.{Result, ok, err, ◌>>=◌}
use mcp_odoo.Prelude.Text.{strip, lower}
use Prim.Native.String.{◌++◌ as append_text}

pub data RateMode : Type 0 where
  off warn block : RateMode

-- `rate_limit_mode`, of the value of ODOO_MCP_RATE_LIMIT_MODE
unfoldable pub rate_limit_mode : Option String → RateMode
rate_limit_mode none = off
rate_limit_mode (some value) =
    let raw = lower (strip value) in
    if str_eq raw "warn" then warn else if str_eq raw "block" then block else off

-- what Python raises: `events[-1]` of an empty deque, `min` of no keys
pub data RateError : Type 0 where
  index_error value_error : RateError

-- `_events` holds for each key the times of its calls, oldest first.
pub record Tracker : Type 0 where
  pub window_seconds : ℕ
  pub max_calls : ℕ
  pub events : Dict (List ℕ)
  pub over_budget_totals : Dict ℕ

pub record Verdict : Type 0 where
  pub key : String
  pub over_budget : Bool
  pub calls_in_window : ℕ

abbrev pub max_tracked_keys : ℕ
max_tracked_keys = 512

-- `while events and events[0] <= cutoff: events.popleft()`
unfoldable pub pop_expired : ℕ → ℕ → List ℕ → List ℕ
pop_expired window now [] = []
pop_expired window now (e ∷ es) =
    let rest = pop_expired window now es in if leb (e + window) now then rest else e ∷ es

abbrev pub store_trimmed : String → List ℕ → Dict (List ℕ) → Dict (List ℕ)
store_trimmed key [] events = Dict.remove key events
store_trimmed key (e ∷ es) events = Dict.put key (e ∷ es) events

-- `_trim_locked`
unfoldable pub trim : ℕ → ℕ → String → Dict (List ℕ) → Dict (List ℕ)
trim window now key events = elim (Dict.get key events) [
  | none ↦ events
  | some es ↦ store_trimmed key (pop_expired window now es) events
]

-- the calls of a key; none if it is not tracked
abbrev pub calls_of : String → Dict (List ℕ) → List ℕ
calls_of key events = elim (Dict.get key events) [ none ↦ [] | some es ↦ es ]

-- `events[-1]`
unfoldable pub last_call : List ℕ → Result RateError ℕ
last_call [] = err index_error
last_call (e ∷ []) = ok e
last_call (e ∷ f ∷ es) = last_call (f ∷ es)

-- the first of the keys with the least last call, `best` at `time` so far
unfoldable pub stalest_from : String → ℕ → Dict (List ℕ) → Result RateError String
stalest_from best time [] = ok best
stalest_from best time ((k, es) ∷ events) = do
  last ← last_call es
  stalest_from (if ltb last time then k else best) (min last time) events

-- `min(self._events, key=lambda k: self._events[k][-1])`
unfoldable pub stalest : Dict (List ℕ) → Result RateError String
stalest [] = err value_error
stalest ((k, es) ∷ events) = do last ← last_call es; stalest_from k last events

-- the bound on the tracked keys
unfoldable pub evict : Dict (List ℕ) → Result RateError (Dict (List ℕ))
evict events =
    if ltb max_tracked_keys (length events)
    then (do k ← stalest events; ok (Dict.remove k events))
    else ok events

abbrev pub total_of : String → Dict ℕ → ℕ
total_of key totals = elim (Dict.get key totals) [ none ↦ 0 | some n ↦ n ]

-- what `record` has written before it looks for a key to drop
unfoldable pub with_call : Tracker → String → ℕ → Bool → Tracker × Verdict
with_call t key now count_over_budget =
    let trimmed = trim t.window_seconds now key t.events in
    let es = calls_of key trimmed in
    let over_budget = leb t.max_calls (length es) in
    let calls = if not over_budget || count_over_budget then es ++ now ∷ [] else es in
    (
      record t {
        events = Dict.put key calls trimmed;
        over_budget_totals =
            if over_budget
            then Dict.put key (total_of key t.over_budget_totals + 1) t.over_budget_totals
            else t.over_budget_totals;
      },
      record { key = key; over_budget = over_budget; calls_in_window = length calls },
    )

-- `record`
unfoldable pub record_call : Tracker → String → ℕ → Bool → Tracker × Result RateError Verdict
record_call t key now count_over_budget =
    let (t', verdict) = with_call t key now count_over_budget in
    elim (evict t'.events) [
      | err e ↦ (t', err e)
      | ok events ↦ (record t' { events = events }, ok verdict)
    ]

-- `check_rate`: whether the call is refused
unfoldable pub check_rate : RateMode → Tracker → String → ℕ → Tracker × Result RateError Bool
check_rate off t key now = (t, ok false)
check_rate warn t key now =
    let (t', answer) = record_call t key now true in (t', (do v ← answer; ok false))
check_rate block t key now =
    let (t', answer) = record_call t key now false in (t', (do v ← answer; ok v.over_budget))

-- `f"{instance}:{tool}"`
abbrev pub rate_key : String → String → String
rate_key instance tool = append_text instance (append_text ":" tool)

-- `for key in list(self._events): self._trim_locked(key, now)`
unfoldable pub trim_all : ℕ → ℕ → List String → Dict (List ℕ) → Dict (List ℕ)
trim_all window now [] events = events
trim_all window now (key ∷ rest) events = trim_all window now rest (trim window now key events)

-- an entry put behind those with more calls; equal ones keep their order
unfoldable pub insert_busy : String × ℕ → List (String × ℕ) → List (String × ℕ)
insert_busy entry [] = entry ∷ []
insert_busy entry (other ∷ rest) =
    let inserted = insert_busy entry rest in
    if ltb entry.1 other.1 then other ∷ inserted else entry ∷ other ∷ rest

-- `sorted(…, key=lambda item: item[1], reverse=True)`
unfoldable pub by_calls : Dict (List ℕ) → List (String × ℕ)
by_calls [] = []
by_calls ((key, es) ∷ events) = insert_busy (key, length es) (by_calls events)

-- `report`: the tracker that it leaves, and the busiest keys with their counts
unfoldable pub report : Tracker → ℕ → ℕ → Tracker × List (String × ℕ)
report t now top =
    let events = trim_all t.window_seconds now (Dict.keys t.events) t.events in
    (record t { events = events }, take (max 1 top) (by_calls events))
