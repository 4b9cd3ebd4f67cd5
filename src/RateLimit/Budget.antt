-- ===== src/RateLimit/Budget.antt =====
-- What the limit promises: the calls let through in block mode keep the budget in every window.
use mcp_odoo.Prelude.{
  ℕ, ◌≤◌, ◌<◌, ◌≡◌, refl, sym, ◌∙◌, inl, inr, String, false, List, [], ◌∷◌, ◌++◌, arith, leb,
  length, str_eq, eq_iff, eq_refl, leb→le, leb_false→lt, if◌then◌else◌, Bool-cases,
}
use mcp_odoo.Prelude.Dict
use mcp_odoo.Prelude.Dict.{Dict, contains, keys, get-put}
use mcp_odoo.Prelude.Result.{ok}
use mcp_odoo.RateLimit.{block, Tracker, pop_expired, calls_of, with_call, check_rate}
use mcp_odoo.RateLimit.Valid.{IsValid, record_call-IsValid}
use mcp_odoo.RateLimit.Window.{
  count_in, IsBy, IsAscending, count_in-append, IsBy-later, IsBy-append, IsAscending-append,
  count_in-pop_expired, count_in-later, length-pop_expired, IsBy-pop_expired,
  IsAscending-pop_expired, calls_of-trim,
}

-- what a call in block mode makes of the deque of its key
abbrev pub admit : ℕ → ℕ → ℕ → List ℕ → List ℕ
admit window max_calls now es =
    let fresh = pop_expired window now es in
    if leb max_calls (length fresh) then fresh else fresh ++ now ∷ []

module _ (t : Tracker) (key : String) (now : ℕ) where
  -- In block mode a call is refused exactly if the tracked calls of its key in the window that ends
  -- now fill the budget, where the tracker is valid, and the tracked calls of the key stand in
  -- ascending order and none is later than now, as with a clock that does not go back.
  pub check_rate-count_in :
      IsValid t
      → IsBy now (calls_of key t.events)
      → IsAscending (calls_of key t.events)
      → (check_rate block t key now).1
        ≡ ok (leb t.max_calls (count_in t.window_seconds now (calls_of key t.events)))
  unfolding check_rate with_call
  check_rate-count_in valid by ascending =
      rw
        (
          (record_call-IsValid t key now false valid).1,
          with_call,
          calls_of-trim t.window_seconds now key t.events key,
          eq_refl key,
          length-pop_expired t.window_seconds now (calls_of key t.events) by ascending,
        )
        refl

  pub over_budget-with_call :
      (with_call t key now false).1.over_budget
      ≡ leb t.max_calls (length (pop_expired t.window_seconds now (calls_of key t.events)))
  unfolding with_call
  over_budget-with_call =
      rw (with_call, calls_of-trim t.window_seconds now key t.events key, eq_refl key)

  calls_of-put :
      (j : String) (es : List ℕ) (events : Dict (List ℕ))
      → calls_of j (Dict.put key es events) ≡ (if str_eq key j then es else calls_of j events)
  calls_of-put j es events = ground (arith, get-put key j es events)

  pub calls_of-with_call :
      (j : String)
      → calls_of j (with_call t key now false).0.events ≡ (
          if str_eq key j
          then admit t.window_seconds t.max_calls now (calls_of j t.events)
          else calls_of j t.events)
  unfolding with_call
  calls_of-with_call j = elim (Bool-cases (str_eq key j)) [
    | inl same ↦
        rw (calls_of-put, calls_of-trim t.window_seconds now key t.events key, eq_refl key, same)
          (ground (arith, eq_iff key j))
    | inr other ↦ rw (calls_of-put, calls_of-trim t.window_seconds now key t.events j, other)
  ]

module _ (window max_calls now : ℕ) (es : List ℕ) where
  admit-IsBy : IsBy now es → IsBy now (admit window max_calls now es)
  admit-IsBy by = elim (Bool-cases (leb max_calls (length (pop_expired window now es)))) [
    | inl full ↦ rw full (IsBy-pop_expired window now es by)
    | inr room ↦ rw room (
        IsBy-append now (pop_expired window now es) (now ∷ []) (IsBy-pop_expired window now es by)
          (omega arith, tt))
  ]

  admit-IsAscending : IsBy now es → IsAscending es → IsAscending (admit window max_calls now es)
  admit-IsAscending by up = elim (Bool-cases (leb max_calls (length (pop_expired window now es)))) [
    | inl full ↦ rw full (IsAscending-pop_expired window now es up)
    | inr room ↦ rw room (
        IsAscending-append now (pop_expired window now es) (IsBy-pop_expired window now es by)
          (IsAscending-pop_expired window now es up))
  ]

-- the times of the calls let through so far of one key, beside the deque of the key
pub record Kept (window max_calls now : ℕ) (log es : List ℕ) : Type 0 where
  pub by : IsBy now es
  pub ascending : IsAscending es
  pub logged : IsBy now log
  pub agree : (later : ℕ) → now ≤ later → count_in window later log ≡ count_in window later es
  pub within : (time : ℕ) → count_in window time log ≤ max_calls

-- the log after a call
abbrev pub logged_call : ℕ → ℕ → ℕ → List ℕ → List ℕ → List ℕ
logged_call window max_calls now es log =
    if leb max_calls (length (pop_expired window now es)) then log else log ++ now ∷ []

pub Kept-later :
    (window max_calls now later : ℕ) (log es : List ℕ)
    → now ≤ later
    → Kept window max_calls now log es
    → Kept window max_calls later log es
Kept-later window max_calls now later log es l k = record {
  by = IsBy-later now later es l k.by;
  ascending = k.ascending;
  logged = IsBy-later now later log l k.logged;
  agree = λ time h. k.agree time (omega arith);
  within = k.within;
}

module _ (window max_calls now : ℕ) (log es : List ℕ) (k : Kept window max_calls now log es) where
  room_in : length (pop_expired window now es) < max_calls → count_in window now log < max_calls
  room_in room =
      omega (arith, k.agree now (omega arith), length-pop_expired window now es k.by k.ascending)

  within_after :
      length (pop_expired window now es) < max_calls
      → (time : ℕ) → count_in window time (log ++ now ∷ []) ≤ max_calls
  within_after room time = elim (Bool-cases (leb now time)) [
    | inl past ↦ ground (
      arith,
      room_in room,
      count_in-append window time log (now ∷ []),
      count_in-later window now time log (leb→le now time past) k.logged,
    )
    | inr before ↦ ground (arith, k.within time, count_in-append window time log (now ∷ []))
  ]

  agree_after :
      (later : ℕ)
      → now ≤ later
      → count_in window later (log ++ now ∷ [])
        ≡ count_in window later (pop_expired window now es ++ now ∷ [])
  agree_after later l = omega (
    arith,
    count_in-append window later log (now ∷ []),
    count_in-append window later (pop_expired window now es) (now ∷ []),
    count_in-pop_expired window now later es l,
    k.agree later l,
  )

  pub Kept-admit :
      Kept window max_calls now
        (logged_call window max_calls now es log)
        (admit window max_calls now es)
  Kept-admit = elim (Bool-cases (leb max_calls (length (pop_expired window now es)))) [
    | inl full ↦ record {
      by = admit-IsBy window max_calls now es k.by;
      ascending = admit-IsAscending window max_calls now es k.by k.ascending;
      logged = rw full k.logged;
      agree =
          λ later l. rw full (k.agree later l ∙ sym (count_in-pop_expired window now later es l));
      within = λ time. rw full (k.within time);
    }
    | inr room ↦ record {
      by = admit-IsBy window max_calls now es k.by;
      ascending = admit-IsAscending window max_calls now es k.by k.ascending;
      logged = rw room (IsBy-append now log (now ∷ []) k.logged (omega arith, tt));
      agree = λ later l. rw room (agree_after later l);
      within = λ time. rw room (within_after (leb_false→lt max_calls _ room) time);
    }
  ]
