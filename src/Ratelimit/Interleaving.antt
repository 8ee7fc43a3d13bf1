-- ===== src/Ratelimit/Interleaving.antt =====
-- Concurrent calls of `getOrCreate` and the collector, as sequences of their locked sections.
use bluebottle.Prelude.{
  ℕ, suc, ◌≡◌, refl, sym, ap, subst, ◌∙◌, Bool, true, false, ◌⊎◌, inl, inr, Option, none, some,
  List, [], ◌∷◌, arith, Bytes, ◌==◌, eqb, eqb_iff, eqb_refl, if◌then◌else◌, Bool-cases,
  Option-cases, fun_ext,
}
use bluebottle.Prelude.Int.{ℤ, ltb_ℤ, ◌≤ℤ◌}
use bluebottle.Ratelimit.{
  Config, Limiter, Entry, Table, store, seen, probe, create, new_limiter, sweep, sweep_entry,
  Throttler,
}
pub mod OneLimiter

-- Where a call stands: before the read-locked section, before the write-locked one, or at its end.
pub data Call : Type 0 where
  idle : Call
  probing : Bytes → Bytes → ℤ → Call
  creating : Bytes → ℤ → Limiter → Call
  returned : Bytes → Limiter → Call

-- The table and the calls, by number.
pub record System : Type 0 where
  pub throttler : Throttler
  pub calls : ℕ → Call

pub data Event : Type 0 where
  begin : ℕ → Bytes → Bytes → ℤ → Event
  advance : ℕ → Event
  collect : ℤ → Event

abbrev pub set_call : ℕ → Call → (ℕ → Call) → ℕ → Call
set_call i c calls = λ j. if j == i then c else calls j

abbrev pub set_table : Table → System → System
set_table table s = record {
  throttler = record { table = table; made = s.throttler.made };
  calls = s.calls;
}

-- The next section of the call `i`, which stands at `c`.
unfoldable pub advance_call : Config → ℕ → Call → System → System
unfolding probe create new_limiter
advance_call cfg i idle s = s
advance_call cfg i (returned key limiter) s = s
advance_call cfg i (probing key action now) s = elim (probe now key s.throttler.table) [
  | some (table, limiter) ↦ record {
    throttler = record { table = table; made = s.throttler.made };
    calls = set_call i (returned key limiter) s.calls;
  }
  | none ↦ record {
    throttler = record { table = s.throttler.table; made = suc s.throttler.made };
    calls = set_call i (creating key now (new_limiter cfg action s.throttler.made)) s.calls;
  }
]
advance_call cfg i (creating key now limiter) s =
    let (table, limiter') = create now key limiter s.throttler.table in
    record {
      throttler = record { table = table; made = s.throttler.made };
      calls = set_call i (returned key limiter') s.calls;
    }

abbrev pub begin_call : ℕ → Call → Call → System → System
begin_call i idle c s = record { throttler = s.throttler; calls = set_call i c s.calls }
begin_call i _ c s = s

unfoldable pub step : Config → System → Event → System
unfolding advance_call sweep
step cfg s (begin i key action now) = begin_call i (s.calls i) (probing key action now) s
step cfg s (advance i) = advance_call cfg i (s.calls i) s
step cfg s (collect cutoff) = set_table (sweep cutoff s.throttler.table) s

unfoldable pub run : Config → System → List Event → System
unfolding step
run cfg s [] = s
run cfg s (event ∷ events) = run cfg (step cfg s event) events

abbrev pub initial : System
initial = record { throttler = record { table = λ key. none; made = 0 }; calls = λ i. idle }
