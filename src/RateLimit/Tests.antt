-- ===== src/RateLimit/Tests.antt =====
-- The rate limit on concrete calls, and its theorems at concrete inputs.
use mcp_odoo.Prelude.{ℕ, ◌≤◌, ◌≡◌, refl, String, false, some, List, [], ◌∷◌, arith, leb}
use mcp_odoo.Prelude.Result.{ok}
use mcp_odoo.Prelude.Text.{strip, lower}
use mcp_odoo.RateLimit.{
  block, rate_limit_mode, Tracker, pop_expired, trim, last_call, stalest, stalest_from, evict,
  with_call, record_call, check_rate, rate_key, report, by_calls, insert_busy, trim_all,
}
use mcp_odoo.RateLimit.Valid.{IsValid, record_call-IsValid}
use mcp_odoo.RateLimit.Window.{count_in}
use mcp_odoo.RateLimit.Budget.{check_rate-count_in}
use mcp_odoo.RateLimit.Session.{serve, times_of, serve-count_in}

program : Unit {0}
unfolding strip lower rate_limit_mode pop_expired trim last_call stalest stalest_from evict
    with_call record_call check_rate report by_calls insert_busy trim_all serve
program = tt

-- two calls in 60 seconds
abbrev new_tracker : Tracker
new_tracker = record { window_seconds = 60; max_calls = 2; events = []; over_budget_totals = [] }

abbrev search : String
search = rate_key "default" "search_records"

abbrev used : Tracker
used = record {
  window_seconds = 60;
  max_calls = 2;
  events = (search, 100 ∷ 130 ∷ []) ∷ ("default:get_record", 90 ∷ []) ∷ [];
  over_budget_totals = [];
}

abbrev calls : List (String × ℕ)
calls =
    (search, 100) ∷ (search, 130) ∷ (search, 150) ∷ ("default:get_record", 155) ∷ (search, 160) ∷ []

modes : rate_limit_mode (some " Block\n") ≡ block
unfolding program
modes = refl

-- the call at 150 is refused; the one at 160 comes when that at 100 has left the window
served : times_of search (serve new_tracker calls) ≡ 100 ∷ 130 ∷ 160 ∷ []
unfolding program
served = refl

reported : (report used 155 1).1 ≡ (search, 2) ∷ []
unfolding program
reported = refl

used-IsValid : IsValid used
used-IsValid = record {
  positive = omega arith;
  filled = (omega arith, (omega arith, tt));
  keyed = (refl, (refl, tt));
  bounded = omega arith;
}

record_call-IsValid_example :
    IsValid (record_call used search 150 false).0
    × ((record_call used search 150 false).1 ≡ ok (with_call used search 150 false).1)
record_call-IsValid_example = record_call-IsValid used search 150 false used-IsValid

check_rate-count_in_example :
    (check_rate block used search 150).1 ≡ ok (leb 2 (count_in 60 150 (100 ∷ 130 ∷ [])))
check_rate-count_in_example =
    check_rate-count_in used search 150 used-IsValid (omega arith, (omega arith, tt))
      ((omega arith, tt), (tt, tt))

serve-count_in_example : count_in 60 160 (times_of search (serve new_tracker calls)) ≤ 2
serve-count_in_example =
    serve-count_in (search ∷ "default:get_record" ∷ []) search new_tracker 100 calls (omega arith)
      refl (omega arith)
      (
        refl,
        omega arith,
        (refl, omega arith, (refl, omega arith, (refl, omega arith, (refl, omega arith, tt)))),
      )
      160
