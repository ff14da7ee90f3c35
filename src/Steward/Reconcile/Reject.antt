-- ===== src/Steward/Reconcile/Reject.antt =====
-- packages/merge-steward/src/reconciler-merge.ts: a push to main was rejected.
use patchrelay.Prelude.{
  ◌+◌, ◌-◌, ltb, min, String, Bool, true, false, not, ◌&&◌, ◌||◌, Option, none, some, [], ◌∷◌, ◌++◌,
  if◌then◌else◌, template, join, show, short, or_else, truthy,
}
use patchrelay.Steward.Types.{QueueEntry, preparing_head, merging, integration_conflict}
use patchrelay.Steward.Store.{no_patch}
use patchrelay.Steward.Policy.{Policy, RefreshResult}
use patchrelay.Steward.Exec.{Failure, pure, gets, modify, attempt, skip, ◌>>=◌, ◌>>◌}
use patchrelay.Steward.Context.{
  Context, Act, emit, transition_to, merge_rejected, budget_exhausted, clear_candidate, clean_ci,
  is_budget_exhausted,
}
use patchrelay.Steward.Reconcile.Evict.{active, invalidate_downstream, evict_entry}
use patchrelay.Steward.Reconcile.Hold.{is_head_kind}
use patchrelay.Steward.Reconcile.Push.{
  PushFailureKind, classify_push_failure, kind_name, describe_error, ForwardState, filled,
  verify_candidate_still_fast_forwards, inspect_candidate_checks,
}
use patchrelay.Steward.Reconcile.Land.{refresh_policy, announce_policy}

abbrev pub is_non_fast_forward : PushFailureKind → Bool
is_non_fast_forward PushFailureKind.non_fast_forward = true
is_non_fast_forward PushFailureKind.protected_branch = false
is_non_fast_forward PushFailureKind.auth_or_permission = false
is_non_fast_forward PushFailureKind.workflow_permission = false
is_non_fast_forward PushFailureKind.timeout = false
is_non_fast_forward PushFailureKind.github_push_rejected = false

abbrev pub is_no : Option Bool → Bool
is_no (some false) = true
is_no (some true) = false
is_no none = false

-- A rejected push that only a rebuilt candidate can follow.
abbrev pub must_rebuild : PushFailureKind → ForwardState → Bool
must_rebuild kind forward = is_non_fast_forward kind || is_no forward.is_fast_forward

-- `shortSha`.
abbrev pub short_sha : Option String → String
short_sha none = "unknown"
short_sha (some sha) = if truthy sha then short 8 sha else "unknown"

abbrev pub forward_part : ForwardState → Option Bool → Option String
forward_part forward none = forward.detail
forward_part forward (some true) = some "candidate fast-forward yes"
forward_part forward (some false) = some "candidate fast-forward no"

-- `validatedHead ? entry.headSha : entry.candidateSha`.
abbrev pub landing_candidate : QueueEntry → Option String
landing_candidate entry =
    if is_head_kind entry.candidate_kind then some entry.head_sha else entry.candidate_sha

module _ (ctx : Context) where
  abbrev unchanged : Policy → RefreshResult
  unchanged policy = record {
    attempted = false;
    changed = false;
    previous_required_checks = policy.required_checks;
    required_checks = policy.required_checks;
  }

  -- `refreshOnIssue`: a refresh within the cool-down is skipped.
  unfoldable pub refresh_on_issue : Act RefreshResult
  refresh_on_issue = do
    now ← gets (λ w. ctx.services.now_ms w.history)
    cooling ←
        gets (λ w. ltb (now - w.policy.last_issue_refresh_at) w.policy.issue_refresh_cooldown_ms)
    if cooling then gets (λ w. unchanged w.policy) else do
      modify
          (λ w. let p = w.policy in record w { policy = record p { last_issue_refresh_at = now } })
      refresh_policy ctx "merge_push_rejected"

  unfoldable pub resend : QueueEntry → RefreshResult → Act Bool
  resend entry refresh = do
    announce_policy ctx entry refresh
    transition_to ctx entry.id preparing_head (clean_ci (clear_candidate no_patch))
        (some "GitHub protection changed, re-preparing")
    all_active ← active ctx
    invalidate_downstream ctx all_active 0
    pure true

  -- The policy is read again after a rejected push; `true` says that it changed and the entry was
  -- sent back. What is thrown is swallowed.
  unfoldable pub policy_changed_meanwhile : QueueEntry → Act Bool
  policy_changed_meanwhile entry =
      attempt
        (refresh_on_issue >>= λ refresh.
          if not (refresh.attempted && refresh.changed) then pure false else resend entry refresh)
        (λ _. pure false)

  -- The candidate has to be built again, while the retry budget lasts.
  unfoldable pub rebuild_or_evict : QueueEntry → Act (Unit {0})
  rebuild_or_evict entry =
      if is_budget_exhausted entry
      then (do
        emit entry budget_exhausted
            (some "push retry budget exhausted after non-fast-forward rejection")
        evict_entry ctx entry integration_conflict [])
      else (let base = clean_ci (clear_candidate no_patch) in
          transition_to ctx entry.id preparing_head
            (record base { retry_attempts = some (entry.retry_attempts + 1) })
            (some (
              template (
                "push failed, retry "
                ∷ show (entry.retry_attempts + 1)
                ∷ "/"
                ∷ show entry.max_retries
                ∷ []))))

  unfoldable pub keep_candidate : QueueEntry → String → Act (Unit {0})
  keep_candidate entry detail = do
    if is_budget_exhausted entry
        then emit entry budget_exhausted
            (some "push retry budget exhausted; keeping validated candidate for GitHub recovery")
        else skip
    transition_to ctx entry.id merging
        (record no_patch {
          retry_attempts = some (min (entry.retry_attempts + 1) entry.max_retries);
          wait_detail = some (some detail);
        })
        (some (template ("push failed, keeping validated candidate: " ∷ detail ∷ [])))

  unfoldable pub handle_rejection :
      QueueEntry → String → Failure → ForwardState → String → Act (Unit {0})
  handle_rejection entry base f forward check_state = do
    let text = describe_error ctx f
    let kind = classify_push_failure f text
    let detail = join "; " (
        filled
          (some (template ("push to " ∷ ctx.base_branch ∷ " failed (" ∷ kind_name kind ∷ ")" ∷ [])))
        ++ filled (some (template ("candidate " ∷ short_sha (landing_candidate entry) ∷ [])))
        ++ filled
            (some (template ("main " ∷ short_sha (some (or_else forward.current_base base)) ∷ [])))
        ++ filled (forward_part forward forward.is_fast_forward)
        ++ filled (some check_state)
        ++ filled (some text))
    emit entry merge_rejected (some detail)
    if must_rebuild kind forward
        then (do
          all_active ← active ctx
          rebuild_or_evict entry
          invalidate_downstream ctx all_active 0)
        else keep_candidate entry detail

  -- The `catch` of the push.
  unfoldable pub push_rejected : QueueEntry → String → Failure → Act (Unit {0})
  push_rejected entry base f = do
    forward ← verify_candidate_still_fast_forwards ctx (landing_candidate entry)
    resent ← policy_changed_meanwhile entry
    if resent then skip else do
      check_state ← inspect_candidate_checks ctx (landing_candidate entry)
      handle_rejection entry base f forward check_state
