-- ===== src/Steward/Schedule/Tests.antt =====
-- packages/merge-steward/src/queue-order.ts: the schedule of a stack of two.
use patchrelay.Prelude.{true, ◌=?◌, none, some, List, [], ◌∷◌, ◌≡◌, refl, inl, inr, In}
use patchrelay.Steward.Types.{QueueEntry, validating}
use patchrelay.Steward.Order.{by_branch}
use patchrelay.Steward.Schedule.{is_merged, latest_from, build_dependency_ready_schedule}
use patchrelay.Steward.Schedule.Parents.{build_dependency_ready_schedule-parents}
use patchrelay.Steward.Tests.{sample_entry}

abbrev bottom_entry : QueueEntry
bottom_entry = sample_entry "e1" 1 validating none

abbrev top_entry : QueueEntry
top_entry =
    let base = sample_entry "e2" 2 validating none in
    record base { branch = "next"; base_ref_name = some "feature" }

abbrev stack : List QueueEntry
stack = bottom_entry ∷ top_entry ∷ []

top-ready : In top_entry (build_dependency_ready_schedule stack stack "main").ready
unfolding build_dependency_ready_schedule
top-ready = inr (inl refl)

build_dependency_ready_schedule-parents_example :
    ((p : QueueEntry)
      → by_branch stack "feature" ≡ some p
      → (r : QueueEntry) × In r (build_dependency_ready_schedule stack stack "main").ready
        × (r.id ≡ p.id))
    × (by_branch stack "feature" ≡ none → is_merged (latest_from none stack "feature") ≡ true)
unfolding ◌=?◌
build_dependency_ready_schedule-parents_example =
    build_dependency_ready_schedule-parents stack stack "main" top_entry "feature" top-ready
      (refl, refl, refl)
