-- ===== src/RateLimits/Tests.antt =====
-- Runs of the counters: two addresses, a map with room for one key, a window of 60 seconds.
use slotnova.Base.{ℕ, ◌≤◌, ◌≡◌, refl, inr, List, [], ◌∷◌, arith}
use slotnova.Base.Lists.{length}
use slotnova.RateLimits.{
  RateLimitConfig, Counter, get, set, sweep, count_request, make_room, open_window, check_key,
  check,
}
use slotnova.RateLimits.Bounded.{check_bounded}
use slotnova.RateLimits.Windows.{Request, passes, passes_le}

abbrev config : RateLimitConfig
config = record { window_ms = 60000; max_keys = 1 }

abbrev counter : ℕ → ℕ → Counter
counter count reset_at = record { count = count; reset_at = reset_at }

abbrev request : List ℕ → ℕ → Request
request keys now = record { keys = keys; limit = 1; now = now }

-- An expired counter makes room, one that runs does not: the answer is then the window in seconds.
check_expired :
    check config (7 ∷ []) 1 60000 ((4, counter 1 60000) ∷ []) ≡ (0, (7, counter 1 120000) ∷ [])
unfolding check check_key open_window make_room sweep count_request get set
check_expired = refl

check_full :
    check config (7 ∷ []) 1 59999 ((4, counter 1 60000) ∷ []) ≡ (60, (4, counter 1 60000) ∷ [])
unfolding check check_key open_window make_room sweep count_request get set
check_full = refl

-- The second request is refused for the rest of the window.
check_again :
    check config (4 ∷ []) 1 1500 ((4, counter 1 60000) ∷ []) ≡ (59, (4, counter 2 60000) ∷ [])
unfolding check check_key open_window make_room sweep count_request get set
check_again = refl

abbrev requests : List Request
requests = request (4 ∷ []) 100 ∷ request (7 ∷ 4 ∷ []) 200 ∷ request (4 ∷ []) 60099 ∷ []

run_requests : passes config 4 requests ((4, counter 2 50) ∷ []) ≡ 1
unfolding passes check check_key open_window make_room sweep count_request get set
run_requests = refl

check_bounded_example : length (check config (4 ∷ 7 ∷ []) 1 60000 ((4, counter 1 60000) ∷ [])).1 ≤ 1
check_bounded_example =
    check_bounded config (4 ∷ 7 ∷ []) 1 60000 ((4, counter 1 60000) ∷ []) (omega arith)

passes_le_example : passes config 4 requests ((4, counter 2 50) ∷ []) ≤ 1
passes_le_example =
    passes_le config 4 1 100 requests ((4, counter 2 50) ∷ []) (inr (omega arith), tt)
      (
        (omega arith, omega arith, λ e. refl),
        ((omega arith, omega arith, λ e. refl), ((omega arith, omega arith, λ e. refl), tt)),
      )
