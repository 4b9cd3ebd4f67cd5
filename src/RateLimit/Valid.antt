-- ===== src/RateLimit/Valid.antt =====
-- The tracker is bounded, it tracks no key without calls, and so `record` never raises.
use mcp_odoo.Prelude.{
  ℕ, ◌≤◌, ◌<◌, min, ◌≡◌, refl, inl, inr, ◌⊎◌, eq_iff, if◌then◌else◌, String, Bool, true, none, some,
  List, [], ◌∷◌, arith, ltb, length, length-append, Bool-cases, Option-cases,
}
use mcp_odoo.Prelude.Dict
use mcp_odoo.Prelude.Dict.{Dict, contains, keys, get-put, get-remove, length-remove-le}
use mcp_odoo.Prelude.Dict.Entries.{
  Each, IsKeyed, Each-put, Each-remove, length-put-le, length-remove-lt, length-put_known,
  put-IsKeyed, remove-IsKeyed,
}
use mcp_odoo.Prelude.Result.{ok}
use mcp_odoo.RateLimit.{
  Tracker, pop_expired, store_trimmed, trim, calls_of, last_call, stalest_from, stalest, evict,
  with_call, record_call,
}

abbrev pub IsFilled : List ℕ → Type 0
IsFilled es = 0 < length es

-- At most 512 keys, each once and with a call, and a budget of at least one call.
pub record IsValid (t : Tracker) : Type 0 where
  pub positive : 0 < t.max_calls
  pub filled : Each IsFilled t.events
  pub keyed : IsKeyed t.events
  pub bounded : length t.events ≤ 512

last_call_returns : (es : List ℕ) → IsFilled es → (e : ℕ) × (last_call es ≡ ok e)
unfolding last_call
last_call_returns [] h = absurd (omega arith)
last_call_returns (e ∷ []) h = (e, refl)
last_call_returns (e ∷ f ∷ es) h = last_call_returns (f ∷ es) (omega arith)

-- the key that is dropped is one of them
stalest_from_returns :
    (best : String) (time : ℕ) (events : Dict (List ℕ))
    → Each IsFilled events
    → (k : String) × (stalest_from best time events ≡ ok k)
      × ((k ≡ best) ⊎ (contains (keys events) k ≡ true))
unfolding stalest_from
stalest_from_returns best time [] filled = (best, refl, inl refl)
stalest_from_returns best time ((j, es) ∷ events) filled =
    let (last, e) = last_call_returns es filled.0 in
    let (k, found, among) =
      stalest_from_returns (if ltb last time then j else best) (min last time) events filled.1 in
    (k, rw e found, ground (arith, eq_iff j k, among))

stalest_returns :
    (events : Dict (List ℕ))
    → Each IsFilled events
    → 0 < length events
    → (k : String) × (stalest events ≡ ok k) × (contains (keys events) k ≡ true)
unfolding stalest
stalest_returns [] filled h = absurd (omega arith)
stalest_returns ((j, es) ∷ events) filled h =
    let (last, e) = last_call_returns es filled.0 in
    let (k, found, among) = stalest_from_returns j last events filled.1 in
    (k, rw e found, ground (arith, eq_iff j k, among))

-- eviction brings one key too many back to the bound
evict_returns :
    (events : Dict (List ℕ))
    → Each IsFilled events
    → IsKeyed events
    → length events ≤ 513
    → (kept : Dict (List ℕ)) × (evict events ≡ ok kept)
      × Each IsFilled kept
      × IsKeyed kept
      × (length kept ≤ 512)
unfolding evict
evict_returns events filled keyed few = elim (Bool-cases (ltb 512 (length events))) [
  | inl more ↦
      let (k, found, among) = stalest_returns events filled (ground arith) in
      rw (more, found)
        (
          Dict.remove k events,
          refl,
          Each-remove IsFilled k events filled,
          remove-IsKeyed k events keyed,
          omega (arith, length-remove-lt k events among),
        )
  | inr fits ↦ rw fits (events, refl, filled, keyed, ground arith)
]

module _ (window now : ℕ) (key : String) (events : Dict (List ℕ)) where
  pub trim_cases :
      ((Dict.get key events ≡ none) × (trim window now key events ≡ events))
      ⊎ ((es : List ℕ) × (Dict.get key events ≡ some es)
          × (trim window now key events ≡ store_trimmed key (pop_expired window now es) events))
  unfolding trim
  trim_cases = elim (Option-cases (Dict.get key events)) [
    | inl e ↦ inl (e, rw (e, trim))
    | inr (es, e) ↦ inr (es, e, rw (e, trim))
  ]

  store-IsFilled :
      (es : List ℕ) → Each IsFilled events → Each IsFilled (store_trimmed key es events)
  store-IsFilled [] filled = Each-remove IsFilled key events filled
  store-IsFilled (e ∷ es) filled = Each-put IsFilled key (e ∷ es) events (omega arith) filled

  store-IsKeyed : (es : List ℕ) → IsKeyed events → IsKeyed (store_trimmed key es events)
  store-IsKeyed [] keyed = remove-IsKeyed key events keyed
  store-IsKeyed (e ∷ es) keyed = put-IsKeyed key (e ∷ es) events keyed

  length-store_le :
      (es fs : List ℕ)
      → Dict.get key events ≡ some es
      → length (store_trimmed key fs events) ≤ length events
  length-store_le es [] e = length-remove-le key events
  length-store_le es (f ∷ fs) e = omega (arith, length-put_known key (f ∷ fs) es events e)

  trim-IsFilled : Each IsFilled events → Each IsFilled (trim window now key events)
  trim-IsFilled filled = elim trim_cases [
    | inl (_, same) ↦ rw same filled
    | inr (es, _, stored) ↦ rw stored (store-IsFilled (pop_expired window now es) filled)
  ]

  pub trim-IsKeyed : IsKeyed events → IsKeyed (trim window now key events)
  trim-IsKeyed keyed = elim trim_cases [
    | inl (_, same) ↦ rw same keyed
    | inr (es, _, stored) ↦ rw stored (store-IsKeyed (pop_expired window now es) keyed)
  ]

  length-trim-le : length (trim window now key events) ≤ length events
  length-trim-le = elim trim_cases [
    | inl (_, same) ↦ rw same (omega arith)
    | inr (es, found, stored) ↦ rw stored (length-store_le es (pop_expired window now es) found)
  ]

module _ (t : Tracker) (key : String) (now : ℕ) (count_over_budget : Bool) where
  abbrev trimmed : Dict (List ℕ)
  trimmed = trim t.window_seconds now key t.events

  abbrev after : Tracker
  after = (with_call t key now count_over_budget).0

  positive_after : 0 < t.max_calls → 0 < after.max_calls
  unfolding with_call
  positive_after positive = positive

  pub IsFilled-after : IsValid t → Each IsFilled after.events
  unfolding with_call
  IsFilled-after valid =
      Each-put IsFilled key _ trimmed
        (ground (arith, valid.positive, length-append (calls_of key trimmed) (now ∷ [])))
        (trim-IsFilled t.window_seconds now key t.events valid.filled)

  pub IsKeyed-after : IsValid t → IsKeyed after.events
  unfolding with_call
  IsKeyed-after valid =
      put-IsKeyed key _ trimmed (trim-IsKeyed t.window_seconds now key t.events valid.keyed)

  few_after : IsValid t → length after.events ≤ 513
  unfolding with_call
  few_after valid = omega (
    arith,
    valid.bounded,
    length-trim-le t.window_seconds now key t.events,
    length-put-le key _ trimmed,
  )

  -- `record` keeps the tracker valid and returns its verdict: no key without calls is ever tracked,
  -- so the search for the stalest key does not raise, and at most 512 keys remain.
  pub record_call-IsValid :
      IsValid t
      → IsValid (record_call t key now count_over_budget).0
        × ((record_call t key now count_over_budget).1
            ≡ ok (with_call t key now count_over_budget).1)
  unfolding record_call
  record_call-IsValid valid =
      let (kept, e, filled, keyed, few) =
        evict_returns after.events (IsFilled-after valid) (IsKeyed-after valid) (few_after valid) in
      rw (e, record_call)
        (
          record {
            positive = positive_after valid.positive;
            filled = filled;
            keyed = keyed;
            bounded = few;
          },
          refl,
        )
