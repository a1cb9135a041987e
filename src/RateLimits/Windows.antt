-- ===== src/RateLimits/Windows.antt =====
-- Within one window a key passes as often as its limit, whatever requests are mixed.
use slotnova.Base.{
  ℕ, suc, ◌+◌, ◌≤◌, ◌<◌, ◌≡◌, refl, ◌∙◌, ◌⊎◌, inl, inr, Bool, true, false, ◌&&◌, some, List, [],
  ◌∷◌, leb, ◌==◌, if◌then◌else◌, ==→eq, Bool-cases, Option-cases, arith,
}
use slotnova.Base.Lists.{length, any, All}
use slotnova.RateLimits.{
  RateLimitConfig, Counter, Counters, counted, get, set, sweep, count_request, make_room, fresh,
  open_window, check_key, check,
}
use slotnova.RateLimits.Bounded.{count_request-set}
use slotnova.RateLimits.Keys.{
  IsIdle, IsLive, get-set, get-sweep, IsIdle-get, IsIdle-sweep, IsIdle-set, count_request_passed,
}

-- One call of `check`, and whether a key is among its keys.
pub record Request : Type 0 where
  pub keys : List ℕ
  pub limit : ℕ
  pub now : ℕ

abbrev pub mentions : ℕ → List ℕ → Bool
mentions key = any (λ k. k == key)

-- How many requests pass that mention the key, when the requests come one after another.
unfoldable pub passes : RateLimitConfig → ℕ → List Request → Counters → ℕ
passes config key [] counters = 0
passes config key (r ∷ rs) counters =
    let (retry, after) = check config r.keys r.limit r.now counters in
    let rest = passes config key rs after in
    if (retry == 0) && mentions key r.keys then suc rest else rest

module _ (config : RateLimitConfig) (key limit t : ℕ) where
  -- Since the time t the key has passed n times, no more than its limit: either it has no running
  -- counter and has not passed, or its counter has counted it and runs to the window's end.
  abbrev pub HasPassed : ℕ → Counters → Type 0
  HasPassed n m = (n ≤ limit) × ((IsIdle key t m × (n ≡ 0)) ⊎ IsLive key (t + config.window_ms) n m)

  counted-HasPassed :
      (n now : ℕ) (c : Counter) (m : Counters)
      → n ≤ limit
      → n ≤ c.count
      → t + config.window_ms ≤ c.reset_at
      → let (retry, after) = count_request key limit now c m in
        HasPassed n after × (retry ≡ 0 → HasPassed (suc n) after)
  counted-HasPassed n now c m le has runs =
      let same : (key == key) ≡ true = ground arith in
      let found : get key (set key (counted limit c) m) ≡ some (counted limit c) =
        get-set key key (counted limit c) m ∙ rw same refl in
      rw (count_request-set key limit now c m) (
        (le, inr (counted limit c, found, runs, omega arith)),
        λ e.
            let below = count_request_passed key limit now c m e in
            (omega arith, inr (counted limit c, found, runs, omega arith)),
      )

  other-HasPassed :
      (n k : ℕ) (c : Counter) (m : Counters)
      → (k == key) ≡ false
      → HasPassed n m
      → HasPassed n (set k c m)
  other-HasPassed n k c m ne (le, inl (idle, none_yet)) =
      (le, inl (IsIdle-set key t k c m ne idle, none_yet))
  other-HasPassed n k c m ne (le, inr (d, found, runs, has)) =
      (le, inr (d, get-set key k c m ∙ rw ne found, runs, has))

  make_room-HasPassed :
      (n now : ℕ) (m : Counters)
      → now < t + config.window_ms
      → HasPassed n m
      → HasPassed n (make_room config now m)
  unfolding make_room
  make_room-HasPassed n now m early h = elim (Bool-cases (leb config.max_keys (length m))) [
    | inr e ↦ rw e h
    | inl e ↦ rw e (swept h)
  ]
    where
      swept : HasPassed n m → HasPassed n (sweep now m)
      swept (le, inl (idle, none_yet)) = (le, inl (IsIdle-sweep key t now m idle, none_yet))
      swept (le, inr (d, found, runs, has)) =
          (le, inr (d, get-sweep key now m found (omega arith), runs, has))

  -- One round of the loop, for another key and for the key itself.
  check_key_other :
      (n k l now : ℕ) (m : Counters)
      → (k == key) ≡ false
      → now < t + config.window_ms
      → HasPassed n m
      → HasPassed n (check_key config k l now m).1
  unfolding check_key open_window
  check_key_other n k l now m ne early h = elim (Option-cases (get k m)) [
    | inl e ↦
        let room = make_room config now m in
        let roomy = make_room-HasPassed n now m early h in
        elim (Bool-cases (leb config.max_keys (length room))) [
          | inl f ↦ rw (e, f) roomy
          | inr f ↦
              rw (e, f, count_request-set k l now (fresh config now) room)
                (other-HasPassed n k (counted l (fresh config now)) room ne roomy)
        ]
    | inr (c, e) ↦ elim (Bool-cases (leb c.reset_at now)) [
      | inl f ↦
          rw (e, f, count_request-set k l now (fresh config now) m)
            (other-HasPassed n k (counted l (fresh config now)) m ne h)
      | inr f ↦ rw (e, f, count_request-set k l now c m) (other-HasPassed n k (counted l c) m ne h)
    ]
  ]

  check_key_same :
      (n now : ℕ) (m : Counters)
      → t ≤ now
      → now < t + config.window_ms
      → HasPassed n m
      → let (retry, after) = check_key config key limit now m in
        HasPassed n after × (retry ≡ 0 → HasPassed (suc n) after)
  unfolding check_key open_window
  check_key_same n now m late early (le, inl (idle, none_yet)) = elim (Option-cases (get key m)) [
    | inl e ↦
        let room = make_room config now m in
        let roomy = make_room-HasPassed n now m early (le, inl (idle, none_yet)) in
        elim (Bool-cases (leb config.max_keys (length room))) [
          | inl f ↦ rw (e, f) (roomy, λ z. absurd (omega arith))
          | inr f ↦
              rw (e, f)
                (counted-HasPassed n now (fresh config now) room le (omega arith) (omega arith))
        ]
    | inr (c, e) ↦
        let over : leb c.reset_at now ≡ true = ground (arith, IsIdle-get key t m {c = c} idle e) in
        rw (e, over) (counted-HasPassed n now (fresh config now) m le (omega arith) (omega arith))
  ]
  check_key_same n now m late early (le, inr (c, found, runs, has)) =
      let live : leb c.reset_at now ≡ false = ground arith in
      rw (found, live) (counted-HasPassed n now c m le has runs)

  HasPassed-weaken : (n : ℕ) (m : Counters) → HasPassed (suc n) m → HasPassed n m
  HasPassed-weaken n m (le, inl (idle, some_passed)) = absurd (omega arith)
  HasPassed-weaken n m (le, inr (c, found, runs, has)) =
      (omega arith, inr (c, found, runs, omega arith))

  check-HasPassed :
      (n now l : ℕ) (keys : List ℕ) (m : Counters)
      → t ≤ now
      → now < t + config.window_ms
      → (mentions key keys ≡ true → l ≡ limit)
      → HasPassed n m
      → let (retry, after) = check config keys l now m in
        HasPassed n after × (retry ≡ 0 → mentions key keys ≡ true → HasPassed (suc n) after)
  unfolding check
  check-HasPassed n now l [] m late early same h = (h, λ z k. cc (k))
  check-HasPassed n now l (k ∷ keys) m late early same h =
      let first = check_key config k l now m in
      elim (Bool-cases (first.0 == 0)) [
        | inr g ↦ rw g (kept, λ z. absurd (ground (arith, z, g)))
        | inl g ↦ elim (Bool-cases (k == key)) [
          | inl f ↦
              let all =
                check-HasPassed (suc n) now l keys first.1 late early (λ z. same (rw f refl))
                  (passed f g) in
              rw g (HasPassed-weaken n (check config keys l now first.1).1 all.0, λ z y. all.0)
          | inr f ↦
              let after : HasPassed n first.1 = check_key_other n k l now m f early h in
              rw (g, f)
                (check-HasPassed n now l keys first.1 late early (λ z. same (rw (f, z) refl)) after)
        ]
      ]
    where
      kept : HasPassed n (check_key config k l now m).1
      kept = elim (Bool-cases (k == key)) [
        | inl f ↦ rw (==→eq k key f, same (rw f refl)) ((check_key_same n now m late early h).0)
        | inr f ↦ check_key_other n k l now m f early h
      ]

      passed :
          (k == key) ≡ true
          → ((check_key config k l now m).0 == 0) ≡ true
          → HasPassed (suc n) (check_key config k l now m).1
      passed f =
          rw (==→eq k key f, same (rw f refl))
            (λ g.
              (check_key_same n now m late early h).1
                (==→eq (check_key config key limit now m).0 0 g))

  -- The requests that come one after another, those of the key with its limit.
  abbrev pub ComeInWindow : List Request → Type 0
  ComeInWindow = All (λ r.
      (t ≤ r.now) × (r.now < t + config.window_ms) × (mentions key r.keys ≡ true → r.limit ≡ limit))

  run-HasPassed :
      (n : ℕ) (requests : List Request) (m : Counters)
      → ComeInWindow requests
      → HasPassed n m
      → n + passes config key requests m ≤ limit
  unfolding passes
  run-HasPassed n [] m h (le, _) = omega arith
  run-HasPassed n (r ∷ rs) m ((late, early, same), h) p =
      let result = check config r.keys r.limit r.now m in
      let (kept, passed) = check-HasPassed n r.now r.limit r.keys m late early same p in
      elim (Bool-cases ((result.0 == 0) && mentions key r.keys)) [
        | inl e ↦ rw e (
            omega (
              arith,
              run-HasPassed (suc n) rs result.1 h (passed (ground (arith, e)) (ground (arith, e))),
            ))
        | inr e ↦ rw e (run-HasPassed n rs result.1 h kept)
      ]

-- Let the key have no running counter at the time t. Of the requests that come from t on and before
-- t + window_ms, with any keys besides, no more than the key's limit pass.
pub passes_le :
    (config : RateLimitConfig) (key limit t : ℕ) (requests : List Request) (m : Counters)
    → IsIdle key t m
    → ComeInWindow config key limit t requests
    → passes config key requests m ≤ limit
passes_le config key limit t requests m idle h =
    omega (arith, run-HasPassed config key limit t 0 requests m h (omega arith, inl (idle, refl)))
