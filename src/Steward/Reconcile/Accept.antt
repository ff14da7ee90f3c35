-- ===== src/Steward/Reconcile/Accept.antt =====
-- packages/merge-steward/src/reconciler-validate.ts: a green candidate is accepted, a failed one rerun.
use patchrelay.Prelude.{
  ltb, leb, ◌+◌, String, false, not, none, some, List, [], ◌∷◌, if◌then◌else◌, template, show,
  or_else, present,
}
use patchrelay.Steward.Types.{QueueEntry, CheckResult, validating, merging, feature_changed}
use patchrelay.Steward.Checks.{PolicyStatus, evaluate_check_policy}
use patchrelay.Steward.Store.{no_patch}
use patchrelay.Steward.Exec.{Failure, pure, attempt, skip, ◌>>=◌, ◌>>◌}
use patchrelay.Steward.Context.{
  Context, Act, ask, emit, transition_to, reran, ci_passed, ci_flaky_retry, ci_failed,
  integration_review_check,
}
use patchrelay.Steward.Reconcile.Evict.{evict_entry}
use patchrelay.Steward.Reconcile.Hold.{
  Place, checks_for, hold_for_integration_repair, invalidate_after, is_repair,
}

module _ (ctx : Context) where
  unfoldable pub integration_review_status : QueueEntry → Act PolicyStatus
  integration_review_status entry =
      if not (is_repair entry.candidate_kind) then pure PolicyStatus.pass else do
        checks ← checks_for ctx (or_else entry.candidate_sha "null")
        pure
            (evaluate_check_policy (record { name = integration_review_check; app_id = none } ∷ [])
              false checks).status

  -- The candidate is green and reviewed.
  unfoldable pub accept_candidate : QueueEntry → Place → Act (Unit {0})
  accept_candidate entry place = do
    emit entry ci_passed none
    if place.is_landing_head
        then transition_to ctx entry.id merging
            (record no_patch { last_failed_base_sha = some none; wait_detail = some none })
            (some "CI and integration review passed, ready to merge")
        else if present entry.last_failed_base_sha
        then transition_to ctx entry.id validating
            (record no_patch { last_failed_base_sha = some none; wait_detail = some none })
            (some "integration repair validated for speculative descendants")
        else skip

  abbrev pub after_review : QueueEntry → Place → PolicyStatus → Act (Unit {0})
  after_review entry place PolicyStatus.pending =
      transition_to ctx entry.id validating
        (record no_patch {
          wait_detail = some (
              some (
                template
                  ("waiting for " ∷ integration_review_check ∷ " on repaired candidate" ∷ [])));
        })
        (some (template ("waiting for " ∷ integration_review_check ∷ [])))
  after_review entry place PolicyStatus.fail = do
    evict_entry ctx entry feature_changed []
    invalidate_after ctx place
  after_review entry place PolicyStatus.pass = accept_candidate entry place

  unfoldable pub accept_passing_integration_candidate : QueueEntry → Place → Act (Unit {0})
  accept_passing_integration_candidate entry place = do
    status ← integration_review_status entry
    after_review entry place status

  abbrev pub attempt_of : QueueEntry → String
  attempt_of entry = template (show (entry.ci_retries + 1) ∷ "/" ∷ show ctx.flaky_retries ∷ [])

  unfoldable pub rerun_unavailable :
      QueueEntry → Place → List CheckResult → Failure → Act (Unit {0})
  rerun_unavailable entry place checks f = do
    let detail =
        template ("candidate rerun unavailable (" ∷ attempt_of entry ∷ "): " ∷ f.message ∷ [])
    emit entry ci_failed (some detail)
    if leb ctx.flaky_retries (entry.ci_retries + 1)
        then hold_for_integration_repair ctx entry place checks
        else transition_to ctx entry.id validating
            (record no_patch {
              ci_retries = some (entry.ci_retries + 1);
              wait_detail = some (some detail);
            })
            (some (template ("candidate rerun unavailable " ∷ attempt_of entry ∷ [])))

  unfoldable pub request_bounded_rerun :
      QueueEntry → Place → String → String → String → List CheckResult → Act (Unit {0})
  request_bounded_rerun entry place run_id branch sha checks = do
    emit entry ci_flaky_retry (some (template ("rerun exact candidate " ∷ attempt_of entry ∷ [])))
    attempt
        (ask (reran run_id branch sha) (ctx.services.rerun_run run_id branch sha) >>= λ new_run.
          transition_to ctx entry.id validating
            (record no_patch {
              ci_run_id = some (some new_run);
              ci_retries = some (entry.ci_retries + 1);
            })
            (some (template ("exact-candidate flaky retry " ∷ attempt_of entry ∷ []))))
        (rerun_unavailable entry place checks)

  -- A failed candidate is rerun while its budget lasts, and held for repair after that.
  unfoldable pub rerun_or_hold :
      QueueEntry → Place → String → String → String → List CheckResult → Act (Unit {0})
  rerun_or_hold entry place run_id branch sha checks =
      if ltb entry.ci_retries ctx.flaky_retries
      then request_bounded_rerun entry place run_id branch sha checks
      else hold_for_integration_repair ctx entry place checks
