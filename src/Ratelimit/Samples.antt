-- ===== src/Ratelimit/Samples.antt =====
-- A race of two first calls for one key, and single requests.
use bluebottle.Prelude.{
  ℕ, ◌+◌, ◌*◌, ◌<◌, ◌≤◌, ◌≡◌, ◌≢◌, refl, arith, none, List, [], ◌∷◌, Bytes, codes, String, Result,
  err, ok,
}
use bluebottle.Prelude.Int.{pos}
use bluebottle.Ratelimit.{
  Config, Limiter, Throttler, resolve_limit, probe, create, new_limiter, sweep, nanoseconds, served,
  throttled, panicked, middleware,
}
use bluebottle.Ratelimit.Interleaving.{Event, begin, advance, collect, advance_call, step, run}
use bluebottle.Ratelimit.Interleaving.OneLimiter.{run-same_limiter}
use bluebottle.Ratelimit.Requests.{middleware-open, middleware-limited}

abbrev config : Config
config = record { rate = pos 10; burst = pos 20; action = λ a. none }

abbrev throttler : Throttler
throttler = record { table = λ key. none; made = 0 }

abbrev account : Bytes
account = codes "1"

abbrev list_users : Bytes
list_users = codes "L"

abbrev key : Bytes
key = codes "1:L"

-- Both calls miss the key before either stores a limiter, and the collector ticks in between.
abbrev race : List Event
race =
    begin 0 key list_users (pos 100)
    ∷ begin 1 key list_users (pos 101)
    ∷ advance 0
    ∷ advance 1
    ∷ collect (pos 100)
    ∷ advance 1
    ∷ collect (pos 90)
    ∷ advance 0
    ∷ []

abbrev second : Limiter
second = record { id = 1; limit = (pos 10, pos 20) }

abbrev wait : ℕ
wait = 1500000000

abbrev wait_always : Limiter → ℕ
wait_always l = wait

run-same_limiter_example : second ≡ second
unfolding run step advance_call probe create new_limiter sweep resolve_limit
run-same_limiter_example =
    run-same_limiter config (pos 100) race
      (omega arith, (omega arith, (omega arith, (omega arith, tt)))) 0 1 key second second refl refl

abbrev failing : List (Result String Bytes)
failing = ok account ∷ err "no action" ∷ []

middleware-open_example :
    middleware config wait_always (pos 5) failing throttler ≡ (throttler, served)
middleware-open_example = middleware-open config wait_always (pos 5) failing throttler refl

middleware-limited_example :
    ((n : ℕ)
      → (middleware {E = String} config wait_always
          (pos 5)
          (ok account ∷ ok list_users ∷ [])
          throttler).1
        ≡ throttled n
      → (wait < n * nanoseconds) × (n * nanoseconds ≤ wait + nanoseconds))
    × ((middleware {E = String} config wait_always
            (pos 5)
            (ok account ∷ ok list_users ∷ [])
            throttler).1
          ≡ served
        → wait ≡ 0)
    × ((middleware {E = String} config wait_always
          (pos 5)
          (ok account ∷ ok list_users ∷ [])
          throttler).1
        ≢ panicked)
middleware-limited_example =
    middleware-limited String config wait_always (pos 5) account list_users throttler refl refl
