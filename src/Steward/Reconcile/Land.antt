-- ===== src/Steward/Reconcile/Land.antt =====
-- packages/merge-steward/src/reconciler-merge.ts: the last reading of GitHub, main and the policy
-- before a candidate is pushed.
use patchrelay.Prelude.{
  String, ◌=?◌, Bool, true, false, not, ◌&&◌, Option, none, some, List, [], ◌∷◌, map, if◌then◌else◌,
  template, join, show, short, or_else, opt_eq, is_nil,
}
use patchrelay.Steward.Types.{
  QueueEntry, PrStatus, OpenPrAncestor, preparing_head, merging, merged, dequeued, validating,
  policy_blocked,
}
use patchrelay.Steward.Checks.{PolicyStatus, CheckPolicyEvaluation, format_required_check}
use patchrelay.Steward.Store.{no_patch}
use patchrelay.Steward.Store.Mutate.{update_base_ref}
use patchrelay.Steward.Policy.{RefreshResult, refreshed}
use patchrelay.Steward.Exec.{pure, gets, modify, skip, ◌>>=◌, ◌>>◌}
use patchrelay.Steward.Context.{
  Context, Act, ask, emit, ref, write, transition_to, discovered_policy, policy_changed,
  invalidated, branch_mismatch, merge_external, sanitized_closed, merge_waiting_approval,
  open_pr_ancestry_blocked, clear_candidate, clean_ci, clean_candidate_ref,
}
use patchrelay.Steward.Reconcile.Evict.{
  active, cleanup_candidate, invalidate_downstream, invalidate_from, supersede_admitted_head,
  evict_entry, position_of,
}
use patchrelay.Steward.Reconcile.Ancestry.{
  is_ancestor, find_unlanded_open_pr_ancestors, describe_open_pr_ancestors,
}
use patchrelay.Steward.Reconcile.Git.{fetch, head_sha, fingerprint}
use patchrelay.Steward.Reconcile.Sanitize.{get_pr_status, live_base, recorded_base}
use patchrelay.Steward.Reconcile.Hold.{checks_for, evaluate, is_head_kind}

abbrev pub status_name : PolicyStatus → String
status_name PolicyStatus.pass = "pass"
status_name PolicyStatus.pending = "pending"
status_name PolicyStatus.fail = "fail"

abbrev pub is_pass : PolicyStatus → Bool
is_pass PolicyStatus.pass = true
is_pass PolicyStatus.pending = false
is_pass PolicyStatus.fail = false

abbrev pub names_or_none : List String → String
names_or_none names = if is_nil names then "(none)" else join ", " names

-- The commit that would land: the head itself, or the candidate.
abbrev pub landing_sha : QueueEntry → String
landing_sha entry =
    if is_head_kind entry.candidate_kind then entry.head_sha else or_else entry.candidate_sha "null"

module _ (ctx : Context) where
  -- `refresh` of the policy cache.
  unfoldable pub refresh_policy : String → Act RefreshResult
  refresh_policy reason = do
    discovered ← ask discovered_policy ctx.services.refresh_policy
    now ← gets (λ w. ctx.services.now w.history)
    result ← gets (λ w. (refreshed ctx.services.locale_compare w.policy discovered reason now).0)
    modify (λ w. record w {
      policy = (refreshed ctx.services.locale_compare w.policy discovered reason now).1;
    })
    pure result

  unfoldable pub announce_policy : QueueEntry → RefreshResult → Act (Unit {0})
  announce_policy entry r =
      if not r.changed
      then skip
      else emit entry policy_changed (
          some (
            template (
              "GitHub required checks changed from ["
              ∷ names_or_none r.previous_required_checks
              ∷ "] to ["
              ∷ names_or_none r.required_checks
              ∷ "]"
              ∷ [])))

  -- Merged by somebody else.
  unfoldable pub merged_externally : QueueEntry → String → Act (Unit {0})
  merged_externally entry detail = do
    emit entry merge_external none
    transition_to ctx entry.id merged (clean_candidate_ref no_patch) (some detail)
    cleanup_candidate ctx entry

  -- The pull request was closed.
  unfoldable pub close_entry : QueueEntry → String → Act (Unit {0})
  close_entry entry detail = do
    emit entry sanitized_closed
        (some (template ("PR #" ∷ show entry.pr_number ∷ " " ∷ detail ∷ [])))
    all_active ← active ctx
    cleanup_candidate ctx entry
    transition_to ctx entry.id dequeued (clean_candidate_ref no_patch)
        (some (template ("PR " ∷ detail ∷ [])))
    invalidate_downstream ctx all_active 0

  -- The pull request was moved to another base.
  unfoldable pub rebase_entry : QueueEntry → PrStatus → String → Act (Unit {0})
  rebase_entry entry pr prefix = do
    let change = template (prefix ∷ recorded_base ctx entry ∷ " to " ∷ live_base ctx pr ∷ [])
    emit entry invalidated (some change)
    all_active ← active ctx
    cleanup_candidate ctx entry
    write ctx (λ s t. update_base_ref s entry.id (some (live_base ctx pr)) (some change) t)
    invalidate_downstream ctx all_active 0

  unfoldable pub wait_for_approval : QueueEntry → String → Act (Unit {0})
  wait_for_approval entry detail = do
    emit entry merge_waiting_approval (some detail)
    transition_to ctx entry.id merging (record no_patch { wait_detail = some (some detail) })
        (some detail)

  -- Main is not in the candidate's history.
  unfoldable pub diverged : QueueEntry → String → String → Act (Unit {0})
  diverged entry detail reason = do
    emit entry branch_mismatch (some detail)
    all_active ← active ctx
    transition_to ctx entry.id preparing_head (clean_ci (clear_candidate no_patch)) (some reason)
    invalidate_downstream ctx all_active 0

  unfoldable pub stale_head_candidate : QueueEntry → Act (Unit {0})
  stale_head_candidate entry = do
    let detail : String = "head candidate SHA no longer matches the admitted PR head"
    emit entry invalidated (some detail)
    transition_to ctx entry.id preparing_head (clean_ci (clear_candidate no_patch)) (some detail)

  abbrev failing_detail : CheckPolicyEvaluation → String
  failing_detail evaluation =
      if is_nil evaluation.missing
      then template
          ("candidate checks are " ∷ status_name evaluation.status ∷ " under current policy" ∷ [])
      else template (
          "candidate checks missing under current policy: "
          ∷ join ", " (map format_required_check evaluation.missing)
          ∷ [])

  unfoldable pub checks_no_longer_pass : QueueEntry → CheckPolicyEvaluation → Act (Unit {0})
  checks_no_longer_pass entry evaluation = do
    let detail = failing_detail evaluation
    emit entry invalidated (some detail)
    transition_to ctx entry.id validating (record no_patch { wait_detail = some (some detail) })
        (some detail)

  unfoldable pub blocked_landing : QueueEntry → List OpenPrAncestor → Act (Unit {0})
  blocked_landing entry blockers = do
    emit entry open_pr_ancestry_blocked (some (describe_open_pr_ancestors blockers))
    all_active ← active ctx
    evict_entry ctx entry policy_blocked blockers
    invalidate_from ctx all_active (position_of entry.id all_active)

  -- Ancestry is the last remote truth that is read. The answer is main's head, on which the
  -- candidate may be pushed, or `none` where the entry was sent elsewhere.
  unfoldable pub final_ancestry : QueueEntry → Act (Option String)
  final_ancestry entry = do
    fetch ctx
    base ← head_sha ctx (ref ctx ctx.base_branch)
    forward ← is_ancestor ctx base (landing_sha entry)
    if not forward
        then (do
          diverged entry
              (template
                ("candidate is not a fast-forward from final main (" ∷ short 8 base ∷ ")" ∷ []))
              "main changed during landing, re-prepare"
          pure none)
        else do
          blockers ← find_unlanded_open_pr_ancestors ctx (record {
            current_pr_number = entry.pr_number;
            current_branch = entry.branch;
            pr_head_sha = entry.head_sha;
            candidate_sha = landing_sha entry;
            base_sha = base;
          })
          if is_nil blockers
              then pure (some base)
              else (do blocked_landing entry blockers; pure none)

  unfoldable pub renew_fingerprint : QueueEntry → Act (Unit {0})
  renew_fingerprint entry = do
    print ← fingerprint ctx
    if opt_eq entry.candidate_policy_fingerprint (some print)
        then skip
        else transition_to ctx entry.id merging
            (record no_patch { candidate_policy_fingerprint = some (some print) })
            (some (template ("candidate revalidated under policy " ∷ short 12 print ∷ [])))

  abbrev withdrawn_detail : PrStatus → String
  withdrawn_detail pr =
      if opt_eq pr.review_decision (some "CHANGES_REQUESTED")
      then "blocking review appeared during landing"
      else "approval was withdrawn during landing"

  abbrev stopped : Act (Unit {0}) → Act (Option String)
  stopped m = m >>= λ _. pure none

  -- GitHub's word on the pull request just before the push.
  unfoldable pub final_status : QueueEntry → PrStatus → Act (Option String)
  final_status entry pr =
      if pr.merged
      then stopped (merged_externally entry "merged externally during landing revalidation")
      else if not pr.mergeable
      then stopped (close_entry entry "closed during landing revalidation")
      else if not (pr.head_sha =? entry.head_sha)
      then stopped (supersede_admitted_head ctx entry pr.head_sha)
      else if not (live_base ctx pr =? recorded_base ctx entry)
      then stopped (rebase_entry entry pr "PR base changed during landing from ")
      else if not pr.review_approved
      then stopped (wait_for_approval entry (withdrawn_detail pr))
      else renew_fingerprint entry >>= λ _. final_ancestry entry

  unfoldable pub revalidate_checks : QueueEntry → String → Act (Option String)
  revalidate_checks entry base = do
    checks ← checks_for ctx (landing_sha entry)
    evaluation ← evaluate ctx checks
    if not (is_pass evaluation.status) then stopped (checks_no_longer_pass entry evaluation) else do
      forward ← is_ancestor ctx base (landing_sha entry)
      if not forward
          then stopped (
              diverged entry
                (template ("candidate is not a fast-forward from main (" ∷ short 8 base ∷ ")" ∷ []))
                "main diverged, re-prepare")
          else get_pr_status ctx entry.pr_number >>= final_status entry

  -- The body of the `try` before the push.
  unfoldable pub revalidate : QueueEntry → Act (Option String)
  revalidate entry = do
    fetch ctx
    base ← head_sha ctx (ref ctx ctx.base_branch)
    refresh ← refresh_policy "candidate_landing"
    announce_policy entry refresh
    if is_head_kind entry.candidate_kind && not (opt_eq entry.candidate_sha (some entry.head_sha))
        then stopped (stale_head_candidate entry)
        else revalidate_checks entry base
