-- ===== src/Steward/Service/Tests.antt =====
-- packages/merge-steward/src/service.ts and service-runtime.ts: runs of the service.
use patchrelay.Prelude.{String, true, Option, none, some, List, [], ◌∷◌, ◌≡◌, ◌↔◌, refl}
use patchrelay.Steward.Store.Sound.{Sound, empty-Sound}
use patchrelay.Steward.Admission.Webhook.{HandlerConfig, review_approved}
use patchrelay.Steward.Admission.Tests.{plain_settings, one_open, idle_world}
use patchrelay.Steward.Service.{Request, started, ticked, event, serve_all}
use patchrelay.Steward.Service.Kept.{serve_all-Sound}
use patchrelay.Steward.Service.Runtime.{
  succeeded, running, System, initial, call_tick, begin_tick, end_tick, Steps, done, then_step,
  called,
}
use patchrelay.Steward.Service.Runtime.Tidy.{Tidy, Steps-Tidy, end_tick-succeeded}

abbrev handler : HandlerConfig
handler = record {
  admission_label = "queue";
  priority_queue_label = "queue:priority";
  base_branch = "main";
  github = true;
}

abbrev requests : List Request
requests = started ∷ event (review_approved 7 "feature" "aaaa") ∷ ticked ∷ ticked ∷ []

serve_all-Sound_example :
    Sound (serve_all one_open plain_settings handler requests idle_world).store
serve_all-Sound_example =
    serve_all-Sound one_open plain_settings handler requests idle_world empty-Sound

abbrev one_tick : System
one_tick = call_tick "t1" initial

one_tick-Steps : Steps 1000 initial one_tick
one_tick-Steps = then_step (done initial) (called initial "t1")

Steps-Tidy_example : Tidy one_tick.suspended one_tick.runtime
Steps-Tidy_example = Steps-Tidy 1000 one_tick one_tick-Steps

suspended_one_tick : one_tick.suspended ≡ some "t1"
unfolding begin_tick
suspended_one_tick = refl

abbrev no_error : Option String
no_error = none

end_tick-succeeded_example :
    ((end_tick "t1" no_error "t2" one_tick.runtime).last_tick_outcome ≡ succeeded)
    ↔ ((no_error ≡ none) × (one_tick.runtime.last_tick_outcome ≡ running))
end_tick-succeeded_example =
    end_tick-succeeded 1000 one_tick "t1" no_error "t2" one_tick-Steps suspended_one_tick
