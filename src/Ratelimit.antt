-- ===== src/Ratelimit.antt =====
-- pkg/ratelimit: the limits of config.go, and from ratelimit.go the table of limiters, its lookup, the
-- sweep of its collector and the middleware. The token bucket is golang.org/x/time/rate's: a limiter is
-- its identity with the limits it was made with, and what it answers is a parameter.
use bluebottle.Prelude.{
  ℕ, suc, ◌+◌, ◌/◌, Bool, true, false, ◌&&◌, Option, none, some, List, [], ◌∷◌, ◌++◌, Bytes, codes,
  ◌==◌, eqb, is_empty, ltb, if◌then◌else◌, Result, err, ok,
}
use bluebottle.Prelude.Int.{ℤ, ltb_ℤ}
pub mod Interleaving
pub mod Requests
mod Samples

pub record BucketConfig : Type 0 where
  pub rate : ℤ
  pub burst : ℤ

-- A Go map is the function that looks a key up.
pub record Config : Type 0 where
  pub rate : ℤ
  pub burst : ℤ
  pub action : Bytes → Option BucketConfig

unfoldable pub resolve_limit : Config → Bytes → ℤ × ℤ
resolve_limit c action = elim (c.action action) [
  | some override ↦ (override.rate, override.burst)
  | none ↦ (c.rate, c.burst)
]

pub record Limiter : Type 0 where
  pub id : ℕ
  pub limit : ℤ × ℤ

pub record Entry : Type 0 where
  pub limiter : Limiter
  pub last_seen : ℤ

abbrev pub Table : Type 0
Table = Bytes → Option Entry

abbrev pub store : Bytes → Entry → Table → Table
store key e table = λ k. if eqb k key then some e else table k

abbrev pub seen : ℤ → Entry → Entry
seen now e = record { limiter = e.limiter; last_seen = now }

-- The section of `getOrCreate` under the read lock.
unfoldable pub probe : ℤ → Bytes → Table → Option (Table × Limiter)
probe now key table = elim (table key) [
  | some e ↦ some (store key (seen now e) table, e.limiter)
  | none ↦ none
]

-- The section under the write lock, which looks again before it stores the new limiter.
unfoldable pub create : ℤ → Bytes → Limiter → Table → Table × Limiter
create now key limiter table = elim (table key) [
  | some e ↦ (store key (seen now e) table, e.limiter)
  | none ↦ (store key (record { limiter = limiter; last_seen = now }) table, limiter)
]

-- The table, and the number of limiters made so far.
pub record Throttler : Type 0 where
  pub table : Table
  pub made : ℕ

unfoldable pub new_limiter : Config → Bytes → ℕ → Limiter
unfolding resolve_limit
new_limiter cfg action made = record { id = made; limit = resolve_limit cfg action }

-- `getOrCreate` of a single caller.
unfoldable pub get_or_create : Config → ℤ → Bytes → Bytes → Throttler → Throttler × Limiter
unfolding probe create new_limiter
get_or_create cfg now key action t = elim (probe now key t.table) [
  | some (table, limiter) ↦ (record { table = table; made = t.made }, limiter)
  | none ↦
      let (table, limiter) = create now key (new_limiter cfg action t.made) t.table in
      (record { table = table; made = suc t.made }, limiter)
]

abbrev pub sweep_entry : ℤ → Option Entry → Option Entry
sweep_entry cutoff none = none
sweep_entry cutoff (some e) = if ltb_ℤ e.last_seen cutoff then none else some e

-- One tick of `gc`, under the write lock.
unfoldable pub sweep : ℤ → Table → Table
sweep cutoff table = λ key. sweep_entry cutoff (table key)

-- The loop of the middleware over the key functions, as results for the request, from the `i`-th on:
-- `none` where the request is let through.
unfoldable pub extract_keys : {E : Type 0} → ℕ → List (Result E Bytes) → Option (List Bytes)
extract_keys i [] = some []
extract_keys i (err e ∷ rs) = none
extract_keys i (ok val ∷ rs) =
    let rest = extract_keys (suc i) rs in
    if (i == 0) && is_empty val
    then none
    else elim rest [ none ↦ none | some parts ↦ some (val ∷ parts) ]

abbrev pub unknown : Bytes
unknown = codes "unknown"

unfoldable pub action_of : List Bytes → Bytes
action_of (account ∷ action ∷ parts) = if is_empty action then unknown else action
action_of parts = unknown

-- What happens to a request; `panicked` is the index out of range that an empty list of key functions
-- leads to.
pub data Outcome : Type 0 where
  served : Outcome
  throttled : ℕ → Outcome
  panicked : Outcome

abbrev pub nanoseconds : ℕ
nanoseconds = 1000000000

-- `delay` is the delay in nanoseconds that the limiter's reservation asks for. Seconds are a float in
-- the source, which is exact for the delays below 48 days.
unfoldable pub verdict : ℕ → Outcome
verdict delay = if ltb 0 delay then throttled (delay / nanoseconds + 1) else served

unfoldable pub middleware :
    {E : Type 0}
    → Config
    → (Limiter → ℕ)
    → ℤ
    → List (Result E Bytes)
    → Throttler
    → Throttler × Outcome
unfolding extract_keys action_of get_or_create verdict
middleware cfg delay now keys t = elim (extract_keys 0 keys) [
  | none ↦ (t, served)
  | some [] ↦ (t, panicked)
  | some (account ∷ parts) ↦
      let action = action_of (account ∷ parts) in
      let (t', limiter) = get_or_create cfg now (account ++ b':' ∷ action) action t in
      (t', verdict (delay limiter))
]
