-- ===== src/Steward/Admission/Tests.antt =====
-- packages/merge-steward/src/service-queue.ts: admissions to a queue on a small store.
use native.Mathlib.Omega.{arith}
use patchrelay.Prelude.{◌=?◌, true, false, none, [], ◌∷◌, ◌≡◌, ◌<◌, ◌≤◌, refl, In, template}
use patchrelay.Steward.Types.{QueueEntry}
use patchrelay.Steward.Store.{empty, get_entry}
use patchrelay.Steward.Exec.{ok}
use patchrelay.Steward.Context.{Context, World}
use patchrelay.Steward.Reconcile.Tests.{calm, main_queue, world}
use patchrelay.Steward.Admission.Queue.{Settings, next_position}
use patchrelay.Steward.Admission.Admit.{scan_eligible_open_prs, match_glob}
use patchrelay.Steward.Admission.Outcome.{Outcome}
use patchrelay.Steward.Admission.Alone.{Alone, scan_eligible_open_prs-Alone}
use patchrelay.Steward.Admission.Position.{next_position-above}

-- Patterns are compared as texts, and the store refuses nothing.
abbrev pub plain_settings : Settings
plain_settings = record {
  max_retries = 2;
  exclude_branches = "release" ∷ [];
  queue_testing_label = "queue:testing";
  queue_merging_label = "queue:merging";
  regex_test = λ pattern value. ok (pattern =? value);
  parse_date = λ text. 0;
  refused = λ s e. none;
}

-- One open pull request is listed.
abbrev pub one_open : Context
one_open = record main_queue {
  services = record calm {
    list_open_prs = λ h.
        ok
          (record { number = 7; branch = "feature"; head_sha = "aaaa"; base_branch = "main" } ∷ []);
  };
}

abbrev pub idle_world : World
idle_world = record world { store = empty }

empty-Alone : Alone empty
unfolding get_entry
empty-Alone = record { same = λ i j a b fa fb r p la lb. ground arith }

match_glob_example :
    match_glob (λ pattern value. ok (pattern =? "^release/.*$")) "release/*" "x" ≡ ok true
unfolding match_glob ◌=?◌ template
match_glob_example = refl

scan_eligible_open_prs-Alone_example :
    Alone (scan_eligible_open_prs one_open plain_settings false idle_world).1.store
scan_eligible_open_prs-Alone_example =
    scan_eligible_open_prs-Alone one_open plain_settings false idle_world empty-Alone

next_position-above_example :
    (1 ≤ next_position main_queue world.store)
    × ((e : QueueEntry)
        → In e world.store.entries
        → (e.repo_id =? main_queue.repo_id) ≡ true
        → e.position < next_position main_queue world.store)
next_position-above_example = next_position-above main_queue world.store
