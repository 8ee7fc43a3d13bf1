-- ===== src/Ratelimit/Interleaving/OneLimiter.antt =====
-- pkg/ratelimit/ratelimit.go: the limiters that concurrent calls of `getOrCreate` for one key get.
use bluebottle.Prelude.{
  ℕ, suc, ◌≡◌, refl, sym, subst, Bool, true, false, ◌⊎◌, inl, inr, Option, none, some, List, [],
  ◌∷◌, arith, Bytes, ◌==◌, eqb, eqb_iff, eqb_refl, if◌then◌else◌, Bool-cases, Option-cases, fun_ext,
}
use bluebottle.Prelude.Int.{ℤ, ltb_ℤ, ◌≤ℤ◌}
use bluebottle.Ratelimit.{
  Config, Limiter, Entry, Table, store, seen, probe, create, new_limiter, sweep, sweep_entry,
}
use bluebottle.Ratelimit.Interleaving.{
  Call, idle, probing, creating, returned, System, Event, begin, advance, collect, set_call,
  set_table, advance_call, begin_call, step, run, initial,
}

-- The table has this limiter under the key.
abbrev Holds : Table → Bytes → Limiter → Type 0
Holds table key limiter = (e : Entry) × (table key ≡ some e) × (e.limiter ≡ limiter)

-- Every entry was last seen at `least` or later.
abbrev IsFresh : ℤ → Table → Type 0
IsFresh least table = (key : Bytes) (e : Entry) → table key ≡ some e → least ≤ℤ e.last_seen

abbrev IsCall : ℤ → Table → Call → Type 0
IsCall least table idle = Unit
IsCall least table (probing key action now) = least ≤ℤ now
IsCall least table (creating key now limiter) = least ≤ℤ now
IsCall least table (returned key limiter) = Holds table key limiter

abbrev IsSystem : ℤ → System → Type 0
IsSystem least s =
    IsFresh least s.throttler.table × ((i : ℕ) → IsCall least s.throttler.table (s.calls i))

-- Calls begin at `least` or later, and the collector's cutoffs are not later.
abbrev pub IsTimely : ℤ → List Event → Type 0
IsTimely least [] = Unit
IsTimely least (begin i key action now ∷ events) = (least ≤ℤ now) × IsTimely least events
IsTimely least (advance i ∷ events) = IsTimely least events
IsTimely least (collect cutoff ∷ events) = (cutoff ≤ℤ least) × IsTimely least events

-- No limiter is lost or replaced.
abbrev Keeps : Table → Table → Type 0
Keeps table table' =
    (key : Bytes) (limiter : Limiter) → Holds table key limiter → Holds table' key limiter

IsCall-Keeps :
    (least : ℤ) (table table' : Table)
    → Keeps table table'
    → (c : Call) → IsCall least table c
    → IsCall least table' c
IsCall-Keeps least table table' k idle h = h
IsCall-Keeps least table table' k (probing key action now) h = h
IsCall-Keeps least table table' k (creating key now limiter) h = h
IsCall-Keeps least table table' k (returned key limiter) h = k key limiter h

store-here : (key : Bytes) (e : Entry) (table : Table) → store key e table key ≡ some e
store-here key e table = rw (eqb_refl key)

-- Storing keeps the limiters when the key had none, or the entry has the limiter it had.
store-Keeps :
    (key : Bytes) (e : Entry) (table : Table)
    → ((limiter : Limiter) → Holds table key limiter → e.limiter ≡ limiter)
    → Keeps table (store key e table)
store-Keeps key e table same k limiter (d, h, l) = elim (Bool-cases (eqb k key)) [
  | inl t ↦ (e, rw (t), same limiter (d, subst (λ x. table x ≡ some d) ((eqb_iff k key).0 t) h, l))
  | inr f ↦ (d, rw (f, h), l)
]

store-IsFresh :
    (least : ℤ) (key : Bytes) (e : Entry) (table : Table)
    → least ≤ℤ e.last_seen
    → IsFresh least table
    → IsFresh least (store key e table)
store-IsFresh least key e table l f k d h = elim (stored (eqb k key) e (table k) d h) [
  | inl q ↦ subst (λ x. least ≤ℤ x.last_seen) q l
  | inr q ↦ f k d q
]
  where
    stored :
        (b : Bool) (e : Entry) (o : Option Entry) (d : Entry)
        → (if b then some e else o) ≡ some d
        → (e ≡ d) ⊎ (o ≡ some d)
    stored true e o d q = inl cc
    stored false e o d q = inr q

not_before : (x y z : ℤ) → y ≤ℤ z → z ≤ℤ x → ltb_ℤ x y ≡ false
not_before x y z h k = ground arith

sweep-fresh :
    (least cutoff : ℤ) (table : Table)
    → cutoff ≤ℤ least
    → IsFresh least table
    → sweep cutoff table ≡ table
unfolding sweep
sweep-fresh least cutoff table c f = fun_ext (λ key. kept (table key) (f key))
  where
    kept :
        (o : Option Entry)
        → ((e : Entry) → o ≡ some e → least ≤ℤ e.last_seen)
        → sweep_entry cutoff o ≡ o
    kept none g = refl
    kept (some e) g = rw (not_before e.last_seen cutoff least c (g e refl)) refl

-- What a section leaves: the table is fresh, keeps its limiters, and suits where the call now stands.
set_call-IsSystem :
    (least : ℤ) (i : ℕ) (c : Call) (s : System) (table : Table) (made : ℕ)
    → IsSystem least s
    → Keeps s.throttler.table table
    → IsFresh least table
    → IsCall least table c
    → IsSystem least
        (record { throttler = record { table = table; made = made }; calls = set_call i c s.calls })
set_call-IsSystem least i c s table made (f, h) k f' g = (f', calls)
  where
    chosen : (b : Bool) (d : Call) → IsCall least table d → IsCall least table (if b then c else d)
    chosen true d l = g
    chosen false d l = l

    calls : (j : ℕ) → IsCall least table (if j == i then c else s.calls j)
    calls j =
        chosen (j == i) (s.calls j) (IsCall-Keeps least s.throttler.table table k (s.calls j) (h j))

-- Storing an entry that is no older than `least` and changes no limiter ends a call with its limiter.
returned-IsSystem :
    (least : ℤ) (i : ℕ) (key : Bytes) (e : Entry) (s : System)
    → IsSystem least s
    → least ≤ℤ e.last_seen
    → ((limiter : Limiter) → Holds s.throttler.table key limiter → e.limiter ≡ limiter)
    → IsSystem least (record {
      throttler = record { table = store key e s.throttler.table; made = s.throttler.made };
      calls = set_call i (returned key e.limiter) s.calls;
    })
returned-IsSystem least i key e s h g same =
    let table = s.throttler.table in
    set_call-IsSystem least i (returned key e.limiter) s (store key e table) s.throttler.made h
      (store-Keeps key e table same) (store-IsFresh least key e table g h.0)
      (e, store-here key e table, refl)

advance_call-IsSystem :
    (cfg : Config) (least : ℤ) (i : ℕ) (c : Call) (s : System)
    → IsSystem least s
    → IsCall least s.throttler.table c
    → IsSystem least (advance_call cfg i c s)
unfolding advance_call probe create
advance_call-IsSystem cfg least i idle s h g = h
advance_call-IsSystem cfg least i (returned key limiter) s h g = h
advance_call-IsSystem cfg least i (probing key action now) s h g =
    elim (Option-cases (s.throttler.table key)) [
      | inl e ↦
          rw (e, advance_call)
            (set_call-IsSystem least i (creating key now (new_limiter cfg action s.throttler.made))
              s s.throttler.table (suc s.throttler.made) h (λ k limiter x. x) h.0 g)
      | inr (d, e) ↦
          rw (e, advance_call)
            (returned-IsSystem least i key (seen now d) s h g (λ limiter (d', e', q). cc))
    ]
advance_call-IsSystem cfg least i (creating key now limiter) s h g =
    elim (Option-cases (s.throttler.table key)) [
      | inl e ↦
          rw (e, advance_call, create)
            (returned-IsSystem least i key (record { limiter = limiter; last_seen = now }) s h g
              (λ limiter' (d', e', q). cc))
      | inr (d, e) ↦
          rw (e, advance_call, create)
            (returned-IsSystem least i key (seen now d) s h g (λ limiter' (d', e', q). cc))
    ]

begin_call-IsSystem :
    (least : ℤ) (i : ℕ) (b c : Call) (s : System)
    → IsSystem least s
    → IsCall least s.throttler.table c
    → IsSystem least (begin_call i b c s)
begin_call-IsSystem least i idle c s h g =
    set_call-IsSystem least i c s s.throttler.table s.throttler.made h (λ k l x. x) h.0 g
begin_call-IsSystem least i (probing k a n) c s h g = h
begin_call-IsSystem least i (creating k n l) c s h g = h
begin_call-IsSystem least i (returned k l) c s h g = h

run-IsSystem :
    (cfg : Config) (least : ℤ) (events : List Event) (s : System)
    → IsSystem least s
    → IsTimely least events
    → IsSystem least (run cfg s events)
unfolding run step
run-IsSystem cfg least [] s h t = h
run-IsSystem cfg least (begin i key action now ∷ events) s h (l, t) =
    run-IsSystem cfg least events _
      (begin_call-IsSystem least i (s.calls i) (probing key action now) s h l) t
run-IsSystem cfg least (advance i ∷ events) s h t =
    run-IsSystem cfg least events _ (advance_call-IsSystem cfg least i (s.calls i) s h (h.1 i)) t
run-IsSystem cfg least (collect cutoff ∷ events) s h (l, t) =
    run-IsSystem cfg least events (set_table (sweep cutoff s.throttler.table) s)
      (subst (λ table. IsSystem least (set_table table s))
        (sym (sweep-fresh least cutoff s.throttler.table l h.0)) h)
      t

-- However calls of `getOrCreate` and ticks of the collector interleave, two calls for one key that have
-- returned have the same limiter, if no cutoff of the collector is later than the time at which a call
-- began.
pub run-same_limiter :
    (cfg : Config) (least : ℤ) (events : List Event)
    → IsTimely least events
    → (i j : ℕ) (key : Bytes) (l l' : Limiter) → (run cfg initial events).calls i ≡ returned key l
    → (run cfg initial events).calls j ≡ returned key l'
    → l ≡ l'
run-same_limiter cfg least events t i j key l l' hi hj =
    let s = run cfg initial events in
    let (f, calls) = run-IsSystem cfg least events initial ((λ key e h. cc), (λ i. tt)) t in
    let (d, e, q) = subst (IsCall least s.throttler.table) hi (calls i) in
    let (d', e', q') = subst (IsCall least s.throttler.table) hj (calls j) in cc
