-- ===== src/Steward/Reconcile/Safe/Validate.antt =====
-- packages/merge-steward/src/reconciler-validate.ts: a stable property across the validation of an entry.
use patchrelay.Prelude.{
  String, Option, none, some, List, Option-cases, inl, inr, Bool-cases, present,
}
use patchrelay.Steward.Types.{QueueEntry, CheckResult, CiStatus}
use patchrelay.Steward.Checks.{PolicyStatus, CheckPolicyEvaluation}
use patchrelay.Steward.Exec.{Failure, pure, ◌>>=◌}
use patchrelay.Steward.Exec.Keeps.{Keeps}
use patchrelay.Steward.Context.{Context, World, ref}
use patchrelay.Steward.Reconcile.Stable.{Stable, basic, evict_entry-Safe, invalidate_from-Safe}
use patchrelay.Steward.Reconcile.Git.{head_sha}
use patchrelay.Steward.Reconcile.Hold.{
  Place, checks_for, evaluate, invalidate_after, workspace_of, hold_for_integration_repair,
}
use patchrelay.Steward.Reconcile.Workspace.{
  expected_base, descends_from, drop_workspace, accept_repair, refresh_at,
  refresh_integration_workspace,
}
use patchrelay.Steward.Reconcile.Accept.{
  integration_review_status, accept_candidate, after_review, accept_passing_integration_candidate,
  rerun_unavailable, request_bounded_rerun, rerun_or_hold,
}
use patchrelay.Steward.Reconcile.Validate.{
  held_outcome, recheck_held, head_outcome, validate_head, existing_outcome, trigger,
  start_validation, run_outcome, poll_run, validate_run, awaits_repair, validate_candidate,
  validate_refreshed, check_validation,
}
use patchrelay.Steward.Reconcile.Safe.{is_ancestor-Safe}
use patchrelay.Steward.Reconcile.Safe.Prepare.{git_rules}

module _ {P : World → Type 0} (st : Stable P) (ctx : Context) where
  pub checks_for-Safe : (sha : String) → Keeps P (checks_for ctx sha)
  unfolding checks_for
  checks_for-Safe sha = search basic

  pub evaluate-Safe : (checks : List CheckResult) → Keeps P (evaluate ctx checks)
  unfolding evaluate
  evaluate-Safe checks = search basic

  invalidate_after-Safe : (p : Place) → Keeps P (invalidate_after ctx p)
  unfolding invalidate_after
  invalidate_after-Safe p = search (basic, invalidate_from-Safe)

  ruleset validating_rules =
      (git_rules, checks_for-Safe, evaluate-Safe, invalidate_after-Safe, evict_entry-Safe)

  workspace_of-Safe : (e : QueueEntry) → Keeps P (workspace_of ctx e)
  unfolding workspace_of
  workspace_of-Safe e = elim (Bool-cases (present e.candidate_ref)) [
    | inl y ↦ rw (y, workspace_of) (search basic)
    | inr n ↦ rw (n, workspace_of) (search git_rules)
  ]

  hold_for_integration_repair-Safe :
      (e : QueueEntry) (p : Place) (checks : List CheckResult)
      → Keeps P (hold_for_integration_repair ctx e p checks)
  unfolding hold_for_integration_repair
  hold_for_integration_repair-Safe e p checks = search (validating_rules, workspace_of-Safe)

  expected_base_of-Safe :
      (dep : Option QueueEntry)
      → Keeps P (elim dep [
        | some d ↦ pure d.candidate_sha
        | none ↦ head_sha ctx (ref ctx ctx.base_branch) >>= λ sha. pure (some sha)
      ])
  expected_base_of-Safe none = search git_rules
  expected_base_of-Safe (some dep) = search basic

  expected_base-Safe : (e : QueueEntry) → Keeps P (expected_base ctx e)
  unfolding expected_base
  expected_base-Safe e = search (git_rules, expected_base_of-Safe)

  descends_from-Safe : (base : Option String) (sha : String) → Keeps P (descends_from ctx base sha)
  unfolding descends_from
  descends_from-Safe none sha = search basic
  descends_from-Safe (some base) sha = search git_rules

  drop_workspace-Safe : (e : QueueEntry) (p : Place) → Keeps P (drop_workspace ctx e p)
  unfolding drop_workspace
  drop_workspace-Safe e p = search validating_rules

  accept_repair-Safe :
      (e : QueueEntry) (p : Place) (sha : String) (base : Option String)
      → Keeps P (accept_repair ctx e p sha base)
  unfolding accept_repair
  accept_repair-Safe e p sha base = search validating_rules depth 12

  refresh_at-Safe : (e : QueueEntry) (p : Place) (name : String) → Keeps P (refresh_at ctx e p name)
  unfolding refresh_at
  refresh_at-Safe e p name =
      search
        (git_rules, expected_base-Safe, descends_from-Safe, drop_workspace-Safe, accept_repair-Safe)
        depth 12

  refresh_integration_workspace-Safe :
      (e : QueueEntry) (p : Place) → Keeps P (refresh_integration_workspace ctx e p)
  unfolding refresh_integration_workspace
  refresh_integration_workspace-Safe e p = elim (Option-cases e.candidate_ref) [
    | inl n ↦ rw (n, refresh_integration_workspace) (search basic)
    | inr (c, q) ↦ rw (q, refresh_integration_workspace) (search (basic, refresh_at-Safe))
  ]

  integration_review_status-Safe : (e : QueueEntry) → Keeps P (integration_review_status ctx e)
  unfolding integration_review_status
  integration_review_status-Safe e = search (basic, checks_for-Safe)

  accept_candidate-Safe : (e : QueueEntry) (p : Place) → Keeps P (accept_candidate ctx e p)
  unfolding accept_candidate
  accept_candidate-Safe e p = search basic depth 12

  after_review-Safe :
      (e : QueueEntry) (p : Place) (s : PolicyStatus) → Keeps P (after_review ctx e p s)
  after_review-Safe e p PolicyStatus.pending = search basic
  after_review-Safe e p PolicyStatus.fail = search validating_rules
  after_review-Safe e p PolicyStatus.pass = accept_candidate-Safe e p

  accept_passing_integration_candidate-Safe :
      (e : QueueEntry) (p : Place) → Keeps P (accept_passing_integration_candidate ctx e p)
  unfolding accept_passing_integration_candidate
  accept_passing_integration_candidate-Safe e p =
      search (basic, integration_review_status-Safe, after_review-Safe)

  rerun_unavailable-Safe :
      (e : QueueEntry) (p : Place) (checks : List CheckResult) (f : Failure)
      → Keeps P (rerun_unavailable ctx e p checks f)
  unfolding rerun_unavailable
  rerun_unavailable-Safe e p checks f = search (basic, hold_for_integration_repair-Safe)

  request_bounded_rerun-Safe :
      (e : QueueEntry) (p : Place) (run_id branch sha : String) (checks : List CheckResult)
      → Keeps P (request_bounded_rerun ctx e p run_id branch sha checks)
  unfolding request_bounded_rerun
  request_bounded_rerun-Safe e p run_id branch sha checks = search (basic, rerun_unavailable-Safe)

  rerun_or_hold-Safe :
      (e : QueueEntry) (p : Place) (run_id branch sha : String) (checks : List CheckResult)
      → Keeps P (rerun_or_hold ctx e p run_id branch sha checks)
  unfolding rerun_or_hold
  rerun_or_hold-Safe e p run_id branch sha checks =
      search (basic, request_bounded_rerun-Safe, hold_for_integration_repair-Safe)

  ruleset outcome_rules = (
    validating_rules, accept_passing_integration_candidate-Safe, rerun_or_hold-Safe,
    hold_for_integration_repair-Safe,
  )

  held_outcome-Safe :
      (e : QueueEntry) (p : Place) (s : PolicyStatus) → Keeps P (held_outcome ctx e p s)
  held_outcome-Safe e p PolicyStatus.pass = accept_passing_integration_candidate-Safe e p
  held_outcome-Safe e p PolicyStatus.pending = search basic
  held_outcome-Safe e p PolicyStatus.fail = search basic

  recheck_held-Safe : (e : QueueEntry) (p : Place) → Keeps P (recheck_held ctx e p)
  unfolding recheck_held
  recheck_held-Safe e p = search (outcome_rules, held_outcome-Safe)

  head_outcome-Safe :
      (e : QueueEntry) (p : Place) (checks : List CheckResult) (v : CheckPolicyEvaluation)
      (s : PolicyStatus)
      → Keeps P (head_outcome ctx e p checks v s)
  head_outcome-Safe e p checks v PolicyStatus.pending = search basic
  head_outcome-Safe e p checks v PolicyStatus.fail = search outcome_rules
  head_outcome-Safe e p checks v PolicyStatus.pass = search basic

  validate_head-Safe : (e : QueueEntry) (p : Place) → Keeps P (validate_head ctx e p)
  unfolding validate_head
  validate_head-Safe e p = search (outcome_rules, head_outcome-Safe)

  existing_outcome-Safe :
      (e : QueueEntry) (p : Place) (checks : List CheckResult) (s : PolicyStatus)
      → Keeps P (existing_outcome ctx e p checks s)
  existing_outcome-Safe e p checks PolicyStatus.pass = accept_passing_integration_candidate-Safe e p
  existing_outcome-Safe e p checks PolicyStatus.pending = search basic
  existing_outcome-Safe e p checks PolicyStatus.fail = hold_for_integration_repair-Safe e p checks

  trigger-Safe : (e : QueueEntry) → Keeps P (trigger ctx e)
  unfolding trigger
  trigger-Safe e = search basic

  start_validation-Safe : (e : QueueEntry) (p : Place) → Keeps P (start_validation ctx e p)
  unfolding start_validation
  start_validation-Safe e p = search (outcome_rules, trigger-Safe, existing_outcome-Safe)

  run_outcome-Safe :
      (e : QueueEntry) (p : Place) (run_id : String) (s : CiStatus)
      → Keeps P (run_outcome ctx e p run_id s)
  run_outcome-Safe e p run_id CiStatus.pending = search basic
  run_outcome-Safe e p run_id CiStatus.pass = accept_passing_integration_candidate-Safe e p
  run_outcome-Safe e p run_id CiStatus.fail = search outcome_rules

  poll_run-Safe : (e : QueueEntry) (p : Place) (run_id : String) → Keeps P (poll_run ctx e p run_id)
  unfolding poll_run
  poll_run-Safe e p run_id = search (basic, run_outcome-Safe)

  validate_run-Safe :
      (e : QueueEntry) (p : Place) (run : Option String) → Keeps P (validate_run ctx e p run)
  validate_run-Safe e p none = start_validation-Safe e p
  validate_run-Safe e p (some run_id) = search (basic, poll_run-Safe, start_validation-Safe)

  awaits_repair-Safe : (e : QueueEntry) → Keeps P (awaits_repair ctx e)
  unfolding awaits_repair
  awaits_repair-Safe e = search (basic, is_ancestor-Safe)

  validate_candidate-Safe : (e : QueueEntry) (p : Place) → Keeps P (validate_candidate ctx e p)
  unfolding validate_candidate
  validate_candidate-Safe e p =
      search (basic, recheck_held-Safe, validate_head-Safe, validate_run-Safe)

  validate_refreshed-Safe :
      (p : Place) (e : Option QueueEntry) → Keeps P (validate_refreshed ctx p e)
  validate_refreshed-Safe p none = search basic
  validate_refreshed-Safe p (some e) = search (basic, awaits_repair-Safe, validate_candidate-Safe)

  pub check_validation-Safe : (e : QueueEntry) (p : Place) → Keeps P (check_validation ctx e p)
  unfolding check_validation
  check_validation-Safe e p =
      search (basic, refresh_integration_workspace-Safe, validate_refreshed-Safe)
