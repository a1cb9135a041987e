-- ===== src/RateLimits.antt =====
-- The counters of apps/api/src/modules/platform/security/rate-limits.ts, one process's. A key is a
-- number, since the code only compares keys; times are milliseconds. `Map` keeps its entries in
-- the order of their first insertion.
pub mod Bounded
pub mod Keys
mod Tests
pub mod Windows
use slotnova.Base.{
  ℕ, ◌+◌, ◌-◌, ◌/◌, min, max, Bool, true, false, not, Option, none, some, List, [], ◌∷◌, ltb, leb,
  ◌==◌, if◌then◌else◌,
}
use slotnova.Base.Lists.{length, filter}

pub record RateLimitConfig : Type 0 where
  pub window_ms : ℕ
  pub max_keys : ℕ

pub record Counter : Type 0 where
  pub count : ℕ
  pub reset_at : ℕ

abbrev pub Counters : Type 0
Counters = List (ℕ × Counter)

unfoldable pub get : ℕ → Counters → Option Counter
get key [] = none
get key ((k, counter) ∷ rest) = if k == key then some counter else get key rest

unfoldable pub set : ℕ → Counter → Counters → Counters
set key counter [] = (key, counter) ∷ []
set key counter ((k, old) ∷ rest) =
    if k == key then (key, counter) ∷ rest else (k, old) ∷ set key counter rest

-- The loop that deletes the counters whose window is over.
unfoldable pub sweep : ℕ → Counters → Counters
sweep now [] = []
sweep now ((k, counter) ∷ rest) =
    let swept = sweep now rest in if leb counter.reset_at now then swept else (k, counter) ∷ swept

-- `Math.ceil(ms / 1000)`.
abbrev pub seconds : ℕ → ℕ
seconds ms = (ms + 999) / 1000

abbrev pub counted : ℕ → Counter → Counter
counted limit counter = record {
  count = min (counter.count + 1) (limit + 1);
  reset_at = counter.reset_at;
}

-- The counting of one request on a counter that is in the map: 0, or the seconds to wait.
unfoldable pub count_request : ℕ → ℕ → ℕ → Counter → Counters → ℕ × Counters
count_request key limit now counter counters =
    let after = set key (counted limit counter) counters in
    if ltb limit (counted limit counter).count
    then (max 1 (seconds (counter.reset_at - now)), after)
    else (0, after)

-- The room for a key that has no counter: expired counters are deleted from a full map.
unfoldable pub make_room : RateLimitConfig → ℕ → Counters → Counters
make_room config now counters =
    let swept = sweep now counters in
    if leb config.max_keys (length counters) then swept else counters

abbrev pub fresh : RateLimitConfig → ℕ → Counter
fresh config now = record { count = 0; reset_at = now + config.window_ms }

-- A key that has no counter, when the room for it is made.
unfoldable pub open_window : RateLimitConfig → ℕ → ℕ → ℕ → Counters → ℕ × Counters
open_window config key limit now room =
    let opened = count_request key limit now (fresh config now) room in
    if leb config.max_keys (length room) then (seconds config.window_ms, room) else opened

-- The body of the loop in `check`, for one key and the counter that the map has for it.
abbrev pub check_found : RateLimitConfig → ℕ → ℕ → ℕ → Counters → Option Counter → ℕ × Counters
check_found config key limit now counters none =
    open_window config key limit now (make_room config now counters)
check_found config key limit now counters (some counter) =
    let renewed = count_request key limit now (fresh config now) counters in
    let counted_on = count_request key limit now counter counters in
    if leb counter.reset_at now then renewed else counted_on

unfoldable pub check_key : RateLimitConfig → ℕ → ℕ → ℕ → Counters → ℕ × Counters
check_key config key limit now counters =
    check_found config key limit now counters (get key counters)

-- The rest of the loop runs only after a key that passes.
abbrev pub and_then : ℕ × Counters → (Counters → ℕ × Counters) → ℕ × Counters
and_then (retry, counters) rest =
    let after = rest counters in if retry == 0 then after else (retry, counters)

-- `RequestRateLimits.check`.
unfoldable pub check : RateLimitConfig → List ℕ → ℕ → ℕ → Counters → ℕ × Counters
check config [] limit now counters = (0, counters)
check config (key ∷ keys) limit now counters =
    and_then (check_key config key limit now counters) (check config keys limit now)
