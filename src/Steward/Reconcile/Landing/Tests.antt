-- ===== src/Steward/Reconcile/Landing/Tests.antt =====
-- packages/merge-steward/src/reconciler.ts: a tick in which the head of the queue lands.
use patchrelay.Prelude.{none, some, [], ◌∷◌}
use patchrelay.Steward.Types.{QueueEntry, merging, head, success}
use patchrelay.Steward.Store.{empty, insert}
use patchrelay.Steward.Exec.{ok}
use patchrelay.Steward.Context.{Context, World}
use patchrelay.Steward.Reconcile.Tests.{calm, main_queue, stamp, world}
use patchrelay.Steward.Tests.{sample_entry}

-- A queue whose checks pass, with a validated head about to land.
abbrev pub green_queue : Context
green_queue = record main_queue {
  services = record calm {
    list_checks_for_ref = λ sha h.
        ok (record { name = "test"; conclusion = success; app_id = none; run_id = some 1 } ∷ []);
  };
}

abbrev landing_entry : QueueEntry
landing_entry = record (sample_entry "e1" 1 merging none) {
  candidate_kind = some head;
  candidate_sha = some "aaaa";
}

abbrev pub about_to_land : World
about_to_land = record world { store = insert empty landing_entry stamp }
