-- ===== src/RateLimit/Window.antt =====
-- How many calls of a key lie in a window, and what the tracker's deque says of it.
use mcp_odoo.Prelude.{
  ℕ, ◌+◌, ◌≤◌, ◌<◌, ◌≡◌, refl, ◌∙◌, inl, inr, String, Bool, ◌&&◌, List, [], ◌∷◌, ◌++◌, arith, ltb,
  leb, length, keep, All, str_eq, eq_iff, if◌then◌else◌, Bool-cases,
}
use mcp_odoo.Prelude.Dict.{Dict, get-put, get-remove}
use mcp_odoo.RateLimit.{pop_expired, store_trimmed, trim, calls_of}
use mcp_odoo.RateLimit.Valid.{trim_cases}

-- the call `e` is among those of the `window` seconds up to `time`
abbrev pub in_window : ℕ → ℕ → ℕ → Bool
in_window window time e = leb e time && ltb time (e + window)

abbrev pub count_in : ℕ → ℕ → List ℕ → ℕ
count_in window time es = length (keep (in_window window time) es)

abbrev pub IsBy : ℕ → List ℕ → Type 0
IsBy now es = All (λ e. e ≤ now) es

abbrev pub IsAscending : List ℕ → Type 0
IsAscending [] = Unit
IsAscending (e ∷ es) = All (λ f. e ≤ f) es × IsAscending es

pub count_in-append :
    (window time : ℕ) (es fs : List ℕ)
    → count_in window time (es ++ fs) ≡ count_in window time es + count_in window time fs
count_in-append window time [] fs = omega arith
count_in-append window time (e ∷ es) fs = ground (arith, count_in-append window time es fs)

pub IsBy-later : (now later : ℕ) (es : List ℕ) → now ≤ later → IsBy now es → IsBy later es
IsBy-later now later [] l h = tt
IsBy-later now later (e ∷ es) l h = (omega (arith, h.0), IsBy-later now later es l h.1)

pub IsBy-append : (now : ℕ) (es fs : List ℕ) → IsBy now es → IsBy now fs → IsBy now (es ++ fs)
IsBy-append now [] fs h i = i
IsBy-append now (e ∷ es) fs h i = (h.0, IsBy-append now es fs h.1 i)

pub IsAscending-append :
    (now : ℕ) (es : List ℕ) → IsBy now es → IsAscending es → IsAscending (es ++ now ∷ [])
IsAscending-append now [] h a = (tt, tt)
IsAscending-append now (e ∷ es) h a = (go es a.0, IsAscending-append now es h.1 a.1)
  where
    go : (fs : List ℕ) → All (λ f. e ≤ f) fs → All (λ f. e ≤ f) (fs ++ now ∷ [])
    go [] b = (h.0, tt)
    go (f ∷ fs) b = (b.0, go fs b.1)

-- the calls that `_trim_locked` drops are in no later window
pub count_in-pop_expired :
    (window now later : ℕ) (es : List ℕ)
    → now ≤ later
    → count_in window later (pop_expired window now es) ≡ count_in window later es
unfolding pop_expired
count_in-pop_expired window now later [] l = refl
count_in-pop_expired window now later (e ∷ es) l =
    ground (arith, count_in-pop_expired window now later es l)

-- a later window has no more of the calls made up to now
pub count_in-later :
    (window now later : ℕ) (es : List ℕ)
    → now ≤ later
    → IsBy now es
    → count_in window later es ≤ count_in window now es
count_in-later window now later [] l h = omega arith
count_in-later window now later (e ∷ es) l h =
    ground (arith, count_in-later window now later es l h.1, h.0)

All-fresh :
    (window now e : ℕ) (es : List ℕ)
    → now < e + window
    → IsBy now es
    → All (λ f. e ≤ f) es
    → length es ≡ count_in window now es
All-fresh window now e [] l h a = refl
All-fresh window now e (f ∷ es) l h a =
    ground (arith, All-fresh window now e es l h.1 a.1, h.0, a.0)

-- what is left of the deque is what lies in the window
pub length-pop_expired :
    (window now : ℕ) (es : List ℕ)
    → IsBy now es
    → IsAscending es
    → length (pop_expired window now es) ≡ count_in window now es
unfolding pop_expired
length-pop_expired window now [] h a = refl
length-pop_expired window now (e ∷ es) h a = elim (Bool-cases (leb (e + window) now)) [
  | inl old ↦ rw old (length-pop_expired window now es h.1 a.1 ∙ ground arith)
  | inr new ↦ rw new (ground (arith, All-fresh window now e es (ground arith) h.1 a.0, h.0))
]

pub IsBy-pop_expired :
    (window now : ℕ) (es : List ℕ) → IsBy now es → IsBy now (pop_expired window now es)
unfolding pop_expired
IsBy-pop_expired window now [] h = tt
IsBy-pop_expired window now (e ∷ es) h = elim (Bool-cases (leb (e + window) now)) [
  | inl old ↦ rw old (IsBy-pop_expired window now es h.1)
  | inr new ↦ rw new h
]

pub IsAscending-pop_expired :
    (window now : ℕ) (es : List ℕ) → IsAscending es → IsAscending (pop_expired window now es)
unfolding pop_expired
IsAscending-pop_expired window now [] a = tt
IsAscending-pop_expired window now (e ∷ es) a = elim (Bool-cases (leb (e + window) now)) [
  | inl old ↦ rw old (IsAscending-pop_expired window now es a.1)
  | inr new ↦ rw new a
]

module _ (window now : ℕ) (key : String) (events : Dict (List ℕ)) (j : String) where
  calls_of-store_trimmed :
      (es : List ℕ)
      → calls_of j (store_trimmed key es events) ≡ (if str_eq key j then es else calls_of j events)
  calls_of-store_trimmed [] = ground (arith, get-remove key j events)
  calls_of-store_trimmed (e ∷ es) = ground (arith, get-put key j (e ∷ es) events)

  pub calls_of-trim :
      calls_of j (trim window now key events)
      ≡ (if str_eq key j then pop_expired window now (calls_of j events) else calls_of j events)
  unfolding pop_expired
  calls_of-trim = elim (Bool-cases (str_eq key j)) [
    | inl same ↦ elim (trim_cases window now key events) [
      | inl (absent, e) ↦ rw (e, same) (ground (arith, eq_iff key j))
      | inr (es, found, e) ↦ rw (e, calls_of-store_trimmed, same) (ground (arith, eq_iff key j))
    ]
    | inr other ↦ elim (trim_cases window now key events) [
      | inl (absent, e) ↦ rw (e, other)
      | inr (es, found, e) ↦ rw (e, calls_of-store_trimmed, other)
    ]
  ]
