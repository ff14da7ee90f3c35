-- ===== src/Steward/Reconcile/Validate.antt =====
-- packages/merge-steward/src/reconciler-validate.ts: the checks of a candidate decide what happens
-- to its entry.
use patchrelay.Prelude.{
  String, Bool, false, not, ◌&&◌, Option, none, some, List, [], ◌∷◌, map, if◌then◌else◌, template,
  join, short, or_else, present, truthy, is_nil,
}
use patchrelay.Steward.Types.{QueueEntry, CheckResult, CiStatus, validating, merging}
use patchrelay.Steward.Checks.{PolicyStatus, CheckPolicyEvaluation, format_required_check}
use patchrelay.Steward.Store.{no_patch}
use patchrelay.Steward.Exec.{pure, skip, ◌>>=◌, ◌>>◌}
use patchrelay.Steward.Context.{
  Context, Act, ask, emit, transition_to, read_ci, triggered, ci_passed, ci_failed, ci_pending,
  ci_triggered,
}
use patchrelay.Steward.Reconcile.Ancestry.{is_ancestor}
use patchrelay.Steward.Reconcile.Accept.{accept_passing_integration_candidate, rerun_or_hold}
use patchrelay.Steward.Reconcile.Hold.{
  Place, checks_for, evaluate, hold_for_integration_repair, is_head_kind, sha_of, without_review,
}
use patchrelay.Steward.Reconcile.Workspace.{refresh_integration_workspace}

module _ (ctx : Context) where
  abbrev pub held_outcome : QueueEntry → Place → PolicyStatus → Act (Unit {0})
  held_outcome entry place PolicyStatus.pass = accept_passing_integration_candidate ctx entry place
  held_outcome entry place PolicyStatus.pending =
      transition_to ctx entry.id validating
        (record no_patch { wait_detail = some (some "waiting for exact-candidate rerun") })
        (some "exact-candidate rerun pending")
  held_outcome entry place PolicyStatus.fail = skip

  -- A held candidate: its exact sha is read again, since its run may have been repeated in place.
  unfoldable pub recheck_held : QueueEntry → Place → Act (Unit {0})
  recheck_held entry place = do
    checks ← checks_for ctx (or_else entry.candidate_sha "null")
    evaluation ← evaluate ctx (without_review checks)
    held_outcome entry place evaluation.status

  abbrev pub pending_detail : CheckPolicyEvaluation → String
  pending_detail evaluation =
      if is_nil evaluation.missing
      then "head candidate checks pending"
      else template ("missing " ∷ join ", " (map format_required_check evaluation.missing) ∷ [])

  abbrev pub head_outcome :
      QueueEntry → Place → List CheckResult → CheckPolicyEvaluation → PolicyStatus → Act (Unit {0})
  head_outcome entry place checks evaluation PolicyStatus.pending =
      emit entry ci_pending (some (pending_detail evaluation))
  head_outcome entry place checks evaluation PolicyStatus.fail = do
    emit entry ci_failed none
    rerun_or_hold ctx entry place (template ("head:" ∷ entry.head_sha ∷ [])) entry.branch
        entry.head_sha checks
  head_outcome entry place checks evaluation PolicyStatus.pass = do
    emit entry ci_passed none
    if place.is_landing_head
        then transition_to ctx entry.id merging no_patch
            (some "exact head checks passed, ready to land")
        else skip

  unfoldable pub validate_head : QueueEntry → Place → Act (Unit {0})
  validate_head entry place = do
    checks ← checks_for ctx (sha_of entry)
    evaluation ← evaluate ctx checks
    head_outcome entry place checks evaluation evaluation.status

  abbrev pub existing_outcome :
      QueueEntry → Place → List CheckResult → PolicyStatus → Act (Unit {0})
  existing_outcome entry place checks PolicyStatus.pass =
      accept_passing_integration_candidate ctx entry place
  existing_outcome entry place checks PolicyStatus.pending =
      emit entry ci_pending (some "existing exact-SHA checks pending")
  existing_outcome entry place checks PolicyStatus.fail =
      hold_for_integration_repair ctx entry place checks

  unfoldable pub trigger : QueueEntry → Act (Unit {0})
  trigger entry = do
    let branch = or_else entry.candidate_ref entry.branch
    run_id ← ask (triggered branch (sha_of entry)) (ctx.services.trigger_run branch (sha_of entry))
    emit entry ci_triggered none
    transition_to ctx entry.id validating (record no_patch { ci_run_id = some (some run_id) })
        (some (template ("CI triggered: " ∷ short 12 run_id ∷ [])))

  -- No CI run yet: the checks that are there count, and without any a run is triggered.
  unfoldable pub start_validation : QueueEntry → Place → Act (Unit {0})
  start_validation entry place = do
    all_checks ← checks_for ctx (sha_of entry)
    let existing = without_review all_checks
    if is_nil existing then trigger entry else do
      evaluation ← evaluate ctx existing
      existing_outcome entry place existing evaluation.status

  abbrev pub run_outcome : QueueEntry → Place → String → CiStatus → Act (Unit {0})
  run_outcome entry place run_id CiStatus.pending = emit entry ci_pending none
  run_outcome entry place run_id CiStatus.pass =
      accept_passing_integration_candidate ctx entry place
  run_outcome entry place run_id CiStatus.fail = do
    emit entry ci_failed none
    checks ← checks_for ctx (sha_of entry)
    rerun_or_hold ctx entry place run_id (or_else entry.candidate_ref entry.branch) (sha_of entry)
        checks

  unfoldable pub poll_run : QueueEntry → Place → String → Act (Unit {0})
  poll_run entry place run_id = do
    status ← ask (read_ci run_id) (ctx.services.get_ci_status run_id)
    run_outcome entry place run_id status

  abbrev pub validate_run : QueueEntry → Place → Option String → Act (Unit {0})
  validate_run entry place none = start_validation entry place
  validate_run entry place (some run_id) =
      if truthy run_id then poll_run entry place run_id else start_validation entry place

  -- The candidate's ref is there and the head is not in the candidate: a conflict awaits repair.
  unfoldable pub awaits_repair : QueueEntry → Act Bool
  awaits_repair entry = if not (present entry.candidate_ref) then pure false else do
    contained ← is_ancestor ctx entry.head_sha (or_else entry.candidate_sha "null")
    pure (not contained)

  unfoldable pub validate_candidate : QueueEntry → Place → Act (Unit {0})
  validate_candidate entry place =
      if present entry.candidate_ref
        && present entry.last_failed_base_sha
        && present entry.ci_run_id
      then recheck_held entry place
      else if is_head_kind entry.candidate_kind
      then validate_head entry place
      else validate_run entry place entry.ci_run_id

  abbrev pub validate_refreshed : Place → Option QueueEntry → Act (Unit {0})
  validate_refreshed place none = skip
  validate_refreshed place (some entry) =
      awaits_repair entry >>= λ waits. if waits then skip else validate_candidate entry place

  unfoldable pub check_validation : QueueEntry → Place → Act (Unit {0})
  check_validation entry place = do
    refreshed ← refresh_integration_workspace ctx entry place
    validate_refreshed place refreshed
