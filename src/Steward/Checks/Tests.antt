-- ===== src/Steward/Checks/Tests.antt =====
-- packages/merge-steward/src/check-policy.ts: runs of the policy on small inputs.
use patchrelay.Prelude.{
  ◌≡◌, refl, ◌↔◌, ◌≢◌, true, false, none, some, List, [], ◌∷◌, String, All, In, ℕ,
}
use patchrelay.Steward.Types.{
  CheckResult, CheckConclusion, RequiredCheck, success, failure, skipped,
}
use patchrelay.Steward.Checks.{
  PolicyStatus, pass, fail, evaluate_check_policy, select_latest_rerun, repeats, matches_rule,
}
use patchrelay.Steward.Checks.Gate.{
  Met, SomeFails, evaluate_check_policy-pass, evaluate_check_policy-fail,
}
use patchrelay.Steward.Checks.Unnamed.{Harmless, evaluate_check_policy-pass_unnamed}
use patchrelay.Steward.Checks.Rerun.{
  AtMost, number_of, select_latest_rerun-latest, select_latest_rerun-In,
}

abbrev run_of : String → CheckConclusion → ℕ → CheckResult
run_of name conclusion id = record {
  name = name;
  conclusion = conclusion;
  app_id = some 15368;
  run_id = some id;
}

abbrev build : RequiredCheck
build = record { name = "build"; app_id = none }

abbrev green_runs : List CheckResult
green_runs = run_of "build" failure 7 ∷ run_of "build" success 9 ∷ []

abbrev red_runs : List CheckResult
red_runs = run_of "build" skipped 4 ∷ run_of "lint" success 5 ∷ []

-- A required check that was skipped fails the policy, and one that was never seen is pending.
skipped_fails : (evaluate_check_policy (build ∷ []) false red_runs).status ≡ fail
unfolding evaluate_check_policy select_latest_rerun matches_rule
skipped_fails = refl

unseen_waits : (evaluate_check_policy (build ∷ []) false []).status ≡ PolicyStatus.pending
unfolding evaluate_check_policy select_latest_rerun
unseen_waits = refl

evaluate_check_policy-pass_example :
    ((evaluate_check_policy (build ∷ []) false green_runs).status ≡ pass)
    ↔ All (Met green_runs) (build ∷ [])
evaluate_check_policy-pass_example = evaluate_check_policy-pass build [] false green_runs

evaluate_check_policy-fail_example :
    ((evaluate_check_policy (build ∷ []) false red_runs).status ≡ fail)
    ↔ ((c : CheckResult) × SomeFails (build ∷ []) red_runs c)
evaluate_check_policy-fail_example = evaluate_check_policy-fail build [] false red_runs

evaluate_check_policy-pass_unnamed_example :
    ((evaluate_check_policy [] true green_runs).status ≡ pass)
    ↔ ((green_runs ≢ []) × All (Harmless green_runs) green_runs)
evaluate_check_policy-pass_unnamed_example = evaluate_check_policy-pass_unnamed true green_runs

select_latest_rerun-latest_example :
    (r : CheckResult) × (select_latest_rerun green_runs ≡ r ∷ [])
    × In r green_runs
    × AtMost (number_of r.run_id) green_runs
unfolding repeats
select_latest_rerun-latest_example =
    select_latest_rerun-latest (run_of "build" failure 7) (run_of "build" success 9) []
      (refl, (refl, tt)) refl

select_latest_rerun-In_example :
    All (λ r. In r green_runs) (select_latest_rerun green_runs)
    × (select_latest_rerun green_runs ≡ [] → green_runs ≡ [])
select_latest_rerun-In_example = select_latest_rerun-In green_runs
