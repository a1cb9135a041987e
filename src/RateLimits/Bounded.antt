-- ===== src/RateLimits/Bounded.antt =====
-- The map never holds more counters than it may.
use slotnova.Base.{
  ℕ, suc, ◌≤◌, ◌≡◌, refl, inl, inr, some, List, [], ◌∷◌, leb, ◌==◌, Bool-cases, Option-cases, arith,
}
use slotnova.Base.Lists.{length}
use slotnova.RateLimits.{
  RateLimitConfig, Counter, Counters, counted, get, set, sweep, count_request, make_room, fresh,
  open_window, check_key, check,
}

length-set-le : (key : ℕ) (c : Counter) (m : Counters) → length (set key c m) ≤ suc (length m)
unfolding set
length-set-le key c [] = omega arith
length-set-le key c ((k, d) ∷ m) = ground (arith, length-set-le key c m)

-- Setting a key that the map holds adds none.
length-set :
    (key : ℕ) (c : Counter) (m : Counters) {d : Counter}
    → get key m ≡ some d
    → length (set key c m) ≡ length m
unfolding get set
length-set key c [] e = cc (e)
length-set key c ((k, old) ∷ m) {d} e = elim (Bool-cases (k == key)) [
  | inl f ↦ rw f refl
  | inr f ↦ rw (f, length-set key c m {d = d} (ground arith)) refl
]

length-sweep : (now : ℕ) (m : Counters) → length (sweep now m) ≤ length m
unfolding sweep
length-sweep now [] = omega arith
length-sweep now ((k, c) ∷ m) = ground (arith, length-sweep now m)

pub count_request-set :
    (key limit now : ℕ) (c : Counter) (m : Counters)
    → (count_request key limit now c m).1 ≡ set key (counted limit c) m
unfolding count_request
count_request-set key limit now c m = ground arith

open_window_bounded :
    (config : RateLimitConfig) (key limit now : ℕ) (room : Counters)
    → length room ≤ config.max_keys
    → length (open_window config key limit now room).1 ≤ config.max_keys
unfolding open_window
open_window_bounded config key limit now room h =
    elim (Bool-cases (leb config.max_keys (length room))) [
      | inl e ↦ rw e h
      | inr e ↦
          rw (e, count_request-set key limit now (fresh config now) room)
            (ground (arith, length-set-le key (counted limit (fresh config now)) room))
    ]

make_room_bounded :
    (config : RateLimitConfig) (now : ℕ) (m : Counters)
    → length m ≤ config.max_keys
    → length (make_room config now m) ≤ config.max_keys
unfolding make_room
make_room_bounded config now m h = ground (arith, length-sweep now m)

check_key_bounded :
    (config : RateLimitConfig) (key limit now : ℕ) (m : Counters)
    → length m ≤ config.max_keys
    → length (check_key config key limit now m).1 ≤ config.max_keys
unfolding check_key
check_key_bounded config key limit now m h = elim (Option-cases (get key m)) [
  | inl e ↦ rw e (
      open_window_bounded config key limit now (make_room config now m)
        (make_room_bounded config now m h))
  | inr (c, e) ↦ elim (Bool-cases (leb c.reset_at now)) [
    | inl f ↦
        rw
          (
            e,
            f,
            count_request-set key limit now (fresh config now) m,
            length-set key (counted limit (fresh config now)) m e,
          )
          h
    | inr f ↦ rw (e, f, count_request-set key limit now c m, length-set key (counted limit c) m e) h
  ]
]

-- However many keys a request has, and whatever it answers, a map within its bound stays so.
pub check_bounded :
    (config : RateLimitConfig) (keys : List ℕ) (limit now : ℕ) (m : Counters)
    → length m ≤ config.max_keys
    → length (check config keys limit now m).1 ≤ config.max_keys
unfolding check
check_bounded config [] limit now m h = h
check_bounded config (key ∷ keys) limit now m h =
    let first = check_key config key limit now m in
    let k = check_key_bounded config key limit now m h in
    elim (Bool-cases (first.0 == 0)) [
      | inl e ↦ rw e (check_bounded config keys limit now first.1 k)
      | inr e ↦ rw e k
    ]
