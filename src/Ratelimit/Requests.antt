-- ===== src/Ratelimit/Requests.antt =====
-- What the middleware does with one request, and what its call of `getOrCreate` leaves.
use bluebottle.Prelude.{
  ℕ, suc, ◌+◌, ◌*◌, ◌≤◌, ◌<◌, ◌≡◌, ◌≢◌, refl, sym, ap, ◌∙◌, Bool, true, false, ◌&&◌, ◌||◌, inl, inr,
  Option, none, some, List, [], ◌∷◌, ◌++◌, arith, Bytes, ◌==◌, is_empty, any, if◌then◌else◌,
  Bool-cases, Option-cases, Result, err, ok,
}
use bluebottle.Prelude.Int.{ℤ}
use bluebottle.Ratelimit.{
  Config, Limiter, Entry, Table, Throttler, store, probe, create, new_limiter, get_or_create,
  extract_keys, action_of, served, throttled, panicked, nanoseconds, verdict, middleware,
}

-- The limiter a key has, or the one that would be made for it.
abbrev pub limiter_for : Config → Bytes → ℕ → Option Entry → Limiter
limiter_for cfg action made none = new_limiter cfg action made
limiter_for cfg action made (some e) = e.limiter

create-none :
    (now : ℤ) (key : Bytes) (limiter : Limiter) (table : Table)
    → table key ≡ none
    → create now key limiter table
      ≡ (store key (record { limiter = limiter; last_seen = now }) table, limiter)
unfolding create
create-none now key limiter table e = rw (e, create) refl

-- A call gives the key's limiter, or a new one with the limits of the action where it has none; the key
-- is then stored with this limiter and the call's time, and every other key is left as it was.
pub get_or_create-stores :
    (cfg : Config) (now : ℤ) (key action : Bytes) (t : Throttler)
    → let limiter = limiter_for cfg action t.made (t.table key) in
      ((get_or_create cfg now key action t).1 ≡ limiter)
      × ((get_or_create cfg now key action t).0.table
          ≡ store key (record { limiter = limiter; last_seen = now }) t.table)
unfolding get_or_create probe create
get_or_create-stores cfg now key action t = elim (Option-cases (t.table key)) [
  | inl e ↦
      let c = create-none now key (new_limiter cfg action t.made) t.table e in
      rw (e, get_or_create) (ap (λ p. p.1) c, ap (λ p. p.0) c)
  | inr (d, e) ↦ rw (e, get_or_create) (refl, refl)
]

abbrev pub is_err : {E : Type 0} → Result E Bytes → Bool
is_err (err e) = true
is_err (ok val) = false

abbrev pub empty_account : {E : Type 0} → List (Result E Bytes) → Bool
empty_account (ok val ∷ rs) = is_empty val
empty_account rs = false

extract_keys-err :
    {E : Type 0} (i : ℕ) (rs : List (Result E Bytes))
    → any is_err rs ≡ true
    → extract_keys i rs ≡ none
unfolding extract_keys
extract_keys-err i [] h = cc
extract_keys-err i (err e ∷ rs) h = refl
extract_keys-err i (ok val ∷ rs) h =
    rw (extract_keys-err (suc i) rs h) (both ((i == 0) && is_empty val))
  where
    both : (b : Bool) → ◌≡◌ {A = Option (List Bytes)} (if b then none else none) none
    both true = refl
    both false = refl

extract_keys-empty :
    {E : Type 0} (rs : List (Result E Bytes)) → empty_account rs ≡ true → extract_keys 0 rs ≡ none
unfolding extract_keys
extract_keys-empty [] h = cc
extract_keys-empty (err e ∷ rs) h = cc
extract_keys-empty (ok val ∷ rs) h = rw (h) refl

-- A request is let through, and no limiter is made or used, when a key function fails or the first one
-- gives an empty account.
pub middleware-open :
    {E : Type 0} (cfg : Config) (delay : Limiter → ℕ) (now : ℤ) (keys : List (Result E Bytes))
    (t : Throttler)
    → (any is_err keys || empty_account keys) ≡ true
    → middleware cfg delay now keys t ≡ (t, served)
unfolding middleware
middleware-open cfg delay now keys t h = elim (Bool-cases (any is_err keys)) [
  | inl e ↦ rw (extract_keys-err 0 keys e, middleware) refl
  | inr e ↦ rw (extract_keys-empty keys (ground arith), middleware) refl
]

verdict-throttled :
    (wait n : ℕ)
    → verdict wait ≡ throttled n
    → (wait < n * nanoseconds) × (n * nanoseconds ≤ wait + nanoseconds)
unfolding verdict
verdict-throttled wait n h = ground arith

verdict-served : (wait : ℕ) → verdict wait ≡ served → wait ≡ 0
unfolding verdict
verdict-served wait h = ground arith

verdict-panicked : (wait : ℕ) → verdict wait ≢ panicked
unfolding verdict
verdict-panicked wait h = ground arith

-- The limiter's answer decides about a request with an account and an action.
middleware-verdict :
    (E : Type 0) (cfg : Config) (delay : Limiter → ℕ) (now : ℤ) (account action : Bytes)
    (t : Throttler)
    → is_empty account ≡ false
    → is_empty action ≡ false
    → (middleware {E = E} cfg delay now (ok account ∷ ok action ∷ []) t).1
      ≡ verdict (delay (limiter_for cfg action t.made (t.table (account ++ b':' ∷ action))))
unfolding middleware extract_keys action_of
middleware-verdict E cfg delay now account action t a b =
    rw (a, middleware, action_of, b)
      (ap (λ limiter. verdict (delay limiter))
        (get_or_create-stores cfg now (account ++ b':' ∷ action) action t).0)

-- A request whose key functions give a non-empty account and a non-empty action is decided by the delay
-- of the limiter of its key: when it is served the delay is zero, and when it is throttled the
-- Retry-After covers the delay and exceeds it by at most a second.
pub middleware-limited :
    (E : Type 0) (cfg : Config) (delay : Limiter → ℕ) (now : ℤ) (account action : Bytes)
    (t : Throttler)
    → is_empty account ≡ false
    → is_empty action ≡ false
    → let wait = delay (limiter_for cfg action t.made (t.table (account ++ b':' ∷ action))) in
      let outcome = (middleware {E = E} cfg delay now (ok account ∷ ok action ∷ []) t).1 in
      ((n : ℕ)
        → outcome ≡ throttled n
        → (wait < n * nanoseconds) × (n * nanoseconds ≤ wait + nanoseconds))
      × (outcome ≡ served → wait ≡ 0)
      × (outcome ≢ panicked)
middleware-limited E cfg delay now account action t a b =
    let e = middleware-verdict E cfg delay now account action t a b in
    let wait = delay (limiter_for cfg action t.made (t.table (account ++ b':' ∷ action))) in
    (
      λ n h. verdict-throttled wait n (sym e ∙ h),
      λ h. verdict-served wait (sym e ∙ h),
      λ h. verdict-panicked wait (sym e ∙ h),
    )
