-- ===== src/Steward/Service/Runtime/Tidy.antt =====
-- packages/merge-steward/src/service-runtime.ts: the states that the runtime can be in.
use patchrelay.Prelude.{
  ℕ, String, =?_refl, true, false, Option, none, some, ◌≡◌, ◌≢◌, ◌⊎◌, ◌↔◌, refl, sym, inl, inr,
  subst, ◌∙◌,
}
use patchrelay.Steward.Store.Sound.{some-injective}
use patchrelay.Steward.Context.{Event}
use patchrelay.Steward.Service.Runtime.{
  running, succeeded, failed, Runtime, begin_tick, observe, watchdog_fires, settle, end_tick,
  System, initial, call_tick, Step, called, observed, fired, ended, Steps, done, then_step,
}

-- No call is suspended: no tick is in progress, no timer is armed, and the outcome is that of a tick
-- that has ended. Or the call of the tick in progress is: it runs, with the timer armed for it and no
-- error, or the watchdog has declared it failed.
abbrev pub Tidy : Option String → Runtime → Type 0
Tidy none r =
    (r.tick_in_progress ≡ false) × (r.stale_tick_timer ≡ none) × (r.last_tick_outcome ≢ running)
Tidy (some at) r =
    (r.tick_in_progress ≡ true)
    × (r.last_tick_started_at ≡ some at)
    × (((r.last_tick_outcome ≡ running)
          × (r.last_tick_error ≡ none)
          × (r.watchdog_tick_started_at ≡ none)
          × (r.stale_tick_timer ≡ some at))
        ⊎ ((r.last_tick_outcome ≡ failed)
            × (r.watchdog_tick_started_at ≡ some at)
            × (r.stale_tick_timer ≡ none)))

call_tick-Tidy :
    (now : String) (s : System)
    → Tidy s.suspended s.runtime
    → Tidy (call_tick now s).suspended (call_tick now s).runtime
unfolding begin_tick
call_tick-Tidy now s h = go s.suspended s.runtime h
  where
    go :
        (at : Option String) (r : Runtime)
        → Tidy at r
        → Tidy
            (call_tick now (record { runtime = r; suspended = at })).suspended
            (call_tick now (record { runtime = r; suspended = at })).runtime
    go none r h = rw (h.0, begin_tick) (refl, refl, inl (refl, refl, refl, refl))
    go (some at) r h = rw (h.0, begin_tick) h

observe-Tidy : (at : Option String) (r : Runtime) (e : Event) → Tidy at r → Tidy at (observe e r)
unfolding observe
observe-Tidy none r e h = h
observe-Tidy (some at) r e h = h

watchdog_fires-Tidy :
    (stale_after : ℕ) (at : Option String) (r : Runtime) (t : String)
    → r.stale_tick_timer ≡ some t
    → Tidy at r
    → Tidy at (watchdog_fires stale_after t r)
unfolding watchdog_fires
watchdog_fires-Tidy stale_after none r t armed h = cc
watchdog_fires-Tidy stale_after (some at) r t armed (p, started, inr (f, w, none_armed)) = cc
watchdog_fires-Tidy stale_after (some at) r t armed (p, started, inl (o, e, w, a)) =
    let same : at ≡ t = some-injective (sym a ∙ armed) in
    subst (λ u. Tidy (some at) (watchdog_fires stale_after u r)) same
      (rw (p, started, =?_refl at, watchdog_fires) (refl, refl, inr (refl, refl, refl)))

end_tick-Tidy :
    (at : Option String) (t : String) (r : Runtime) (error : Option String) (now : String)
    → at ≡ some t
    → Tidy at r
    → Tidy none (end_tick t error now r)
unfolding end_tick settle
end_tick-Tidy at t r (some message) now q h = (refl, refl, λ e. cc)
end_tick-Tidy none t r none now q h = cc
end_tick-Tidy (some a) t r none now q (p, started, inl (o, e, w, armed)) =
    (refl, refl, rw w (λ e. cc))
end_tick-Tidy (some a) t r none now q (p, started, inr (o, w, armed)) =
    let same : a ≡ t = some-injective q in (refl, refl, rw (w, same, =?_refl t, o) (λ e. cc))

verdict :
    (a : Option String) (t : String) (r : Runtime) (error : Option String) (now : String)
    → a ≡ some t
    → Tidy a r
    → ((end_tick t error now r).last_tick_outcome ≡ succeeded)
      ↔ ((error ≡ none) × (r.last_tick_outcome ≡ running))
unfolding end_tick settle
verdict a t r (some message) now q h = ((λ e. cc), (λ e. cc))
verdict none t r none now q h = cc
verdict (some a) t r none now q (p, started, inl (o, e, w, armed)) =
    rw w ((λ _. (refl, o)), (λ _. refl))
verdict (some a) t r none now q (p, started, inr (o, w, armed)) =
    let same : a ≡ t = some-injective q in rw (w, same, =?_refl t, o) ((λ e. cc), (λ e. cc))

Step-Tidy :
    (stale_after : ℕ) {s t : System}
    → Step stale_after s t
    → Tidy s.suspended s.runtime
    → Tidy t.suspended t.runtime
Step-Tidy stale_after (called s now) h = call_tick-Tidy now s h
Step-Tidy stale_after (observed s e) h = observe-Tidy s.suspended s.runtime e h
Step-Tidy stale_after (fired s at armed) h =
    watchdog_fires-Tidy stale_after s.suspended s.runtime at armed h
Step-Tidy stale_after (ended s at error now q) h =
    end_tick-Tidy s.suspended at s.runtime error now q h

-- In every state that the runtime reaches, however its calls, reports, timers and ends interleave: if
-- no call of `runTick` is suspended then no tick is in progress, no timer is armed and the outcome is
-- not running; if one is, its tick is in progress under its time of start, and either it counts as
-- running, without an error and with the timer armed for it, or the watchdog has declared it failed.
pub Steps-Tidy :
    (stale_after : ℕ) (s : System) → Steps stale_after initial s → Tidy s.suspended s.runtime
Steps-Tidy stale_after s steps = reached steps refl
  where
    reached : {a b : System} → Steps stale_after a b → initial ≡ a → Tidy b.suspended b.runtime
    reached (done s) e = subst (λ (x : System). Tidy x.suspended x.runtime) e (refl, refl, λ q. cc)
    reached (then_step steps step) e = Step-Tidy stale_after step (reached steps e)

-- The outcome that is written when the suspended call of a tick ends is success exactly if the tick
-- ended without an error and the watchdog had not declared it failed.
pub end_tick-succeeded :
    (stale_after : ℕ) (s : System) (at : String) (error : Option String) (now : String)
    → Steps stale_after initial s
    → s.suspended ≡ some at
    → ((end_tick at error now s.runtime).last_tick_outcome ≡ succeeded)
      ↔ ((error ≡ none) × (s.runtime.last_tick_outcome ≡ running))
end_tick-succeeded stale_after s at error now steps q =
    verdict s.suspended at s.runtime error now q (Steps-Tidy stale_after s steps)
