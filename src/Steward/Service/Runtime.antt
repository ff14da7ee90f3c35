-- ===== src/Steward/Service/Runtime.antt =====
-- packages/merge-steward/src/service-runtime.ts: the state of the ticks. A tick that runs is a suspended
-- call of `runTick`, which keeps the time at which it started; the timer of the watchdog keeps its own.
pub mod Tidy
use patchrelay.Prelude.{
  ℕ, String, ◌=?◌, =?_iff, Bool, true, false, not, ◌&&◌, Bool-cases, Option, none, some, [], ◌∷◌,
  ◌≡◌, ◌≢◌, refl, sym, inl, inr, if◌then◌else◌, template, show, opt_eq, subst,
}
use patchrelay.Steward.Context.{Event}

pub data TickOutcome : Type 0 where
  idle running succeeded failed : TickOutcome

pub record Runtime : Type 0 where
  pub tick_in_progress : Bool
  pub last_tick_started_at : Option String
  pub last_tick_completed_at : Option String
  pub last_tick_outcome : TickOutcome
  pub last_tick_error : Option String
  pub last_reconcile_event : Option Event
  pub watchdog_tick_started_at : Option String
  -- The started time that the armed timer was given, if a timer is armed.
  pub stale_tick_timer : Option String

abbrev pub new_runtime : Runtime
new_runtime = record {
  tick_in_progress = false;
  last_tick_started_at = none;
  last_tick_completed_at = none;
  last_tick_outcome = idle;
  last_tick_error = none;
  last_reconcile_event = none;
  watchdog_tick_started_at = none;
  stale_tick_timer = none;
}

-- `runTick` up to its `try`; the answer says whether a tick started.
unfoldable pub begin_tick : String → Runtime → Bool × Runtime
begin_tick now r = elim r.tick_in_progress [
  | true ↦ (false, r)
  | false ↦ (
    true,
    record r {
      tick_in_progress = true;
      last_tick_started_at = some now;
      last_tick_outcome = running;
      last_tick_error = none;
      last_reconcile_event = none;
      watchdog_tick_started_at = none;
      stale_tick_timer = some now;
    },
  )
]

-- The listener of the tick's events.
unfoldable pub observe : Event → Runtime → Runtime
observe e r = record r { last_reconcile_event = some e }

abbrev stale_error : ℕ → String
stale_error stale_after = template (
    "Reconcile tick exceeded the "
    ∷ show stale_after
    ∷ "ms stale threshold; service restart requested."
    ∷ [])

-- The callback of the watchdog's timer.
unfoldable pub watchdog_fires : ℕ → String → Runtime → Runtime
unfolding ◌=?◌
watchdog_fires stale_after started_at r =
    if not (r.tick_in_progress && opt_eq r.last_tick_started_at (some started_at))
    then r
    else record r {
      stale_tick_timer = none;
      watchdog_tick_started_at = some started_at;
      last_tick_outcome = failed;
      last_tick_error = some (stale_error stale_after);
    }

-- The outcome of a tick that ended with an error or without.
unfoldable pub settle : String → Option String → Runtime → Runtime
unfolding ◌=?◌
settle started_at none r =
    if opt_eq r.watchdog_tick_started_at (some started_at)
    then r
    else record r { last_tick_outcome = succeeded }
settle started_at (some message) r = record r {
  last_tick_outcome = failed;
  last_tick_error = some message;
}

-- `runTick` from the end of its `try` on.
unfoldable pub end_tick : String → Option String → String → Runtime → Runtime
unfolding settle
end_tick started_at error now r =
    let settled = settle started_at error r in
    record settled {
      stale_tick_timer = none;
      tick_in_progress = false;
      last_tick_completed_at = some now;
    }

-- The runtime with the suspended call of `runTick`.
pub record System : Type 0 where
  pub runtime : Runtime
  pub suspended : Option String

abbrev pub initial : System
initial = record { runtime = new_runtime; suspended = none }

abbrev suspend : String → Bool → Option String → Option String
suspend now true old = some now
suspend now false old = old

-- A call of `runTick`, which may be refused.
abbrev pub call_tick : String → System → System
call_tick now s =
    let (fresh, r) = begin_tick now s.runtime in
    record { runtime = r; suspended = suspend now fresh s.suspended }

-- One step: a timer or a request calls `runTick`, the tick reports, the armed timer fires, or the
-- suspended call ends.
pub data Step (stale_after : ℕ) : System → System → Type 0 where
  called : (s : System) (now : String) → Step stale_after s (call_tick now s)
  observed :
      (s : System) (e : Event) → Step stale_after s (record s { runtime = observe e s.runtime })
  fired :
      (s : System) (at : String)
      → s.runtime.stale_tick_timer ≡ some at
      → Step stale_after s (record s { runtime = watchdog_fires stale_after at s.runtime })
  ended :
      (s : System) (at : String) (error : Option String) (now : String)
      → s.suspended ≡ some at
      → Step stale_after s (record { runtime = end_tick at error now s.runtime; suspended = none })

pub data Steps (stale_after : ℕ) : System → System → Type 0 where
  done : (s : System) → Steps stale_after s s
  then_step :
      {s t u : System} → Steps stale_after s t → Step stale_after t u → Steps stale_after s u
