-- ===== src/Steward/Reconcile/Merge.antt =====
-- packages/merge-steward/src/reconciler-merge.ts: the head of the queue lands.
use patchrelay.Prelude.{
  String, ◌=?◌, Bool, true, false, not, ◌&&◌, ◌||◌, Option, none, some, [], ◌∷◌, if◌then◌else◌,
  template, short, or_else, opt_eq, present,
}
use patchrelay.Steward.Types.{QueueEntry, PrStatus, preparing_head, merged, validating}
use patchrelay.Steward.Store.{no_patch}
use patchrelay.Steward.Exec.{Failure, pure, gets, attempt, skip, ◌>>=◌, ◌>>◌}
use patchrelay.Steward.Context.{
  Context, Act, emit, transition_to, invalidated, merge_revalidating, merge_succeeded,
  head_candidate_landed, clear_candidate, clean_ci,
}
use patchrelay.Steward.Reconcile.Evict.{cleanup_candidate, supersede_admitted_head}
use patchrelay.Steward.Reconcile.PostMerge.{verify_post_merge_status}
use patchrelay.Steward.Reconcile.Sanitize.{get_pr_status, live_base, recorded_base, landed_patch}
use patchrelay.Steward.Reconcile.Git.{push}
use patchrelay.Steward.Reconcile.Hold.{is_head_kind}
use patchrelay.Steward.Reconcile.Push.{describe_error, delete_pr_branch}
use patchrelay.Steward.Reconcile.Land.{
  merged_externally, close_entry, rebase_entry, wait_for_approval, revalidate,
}
use patchrelay.Steward.Reconcile.Reject.{push_rejected}

module _ (ctx : Context) where
  abbrev pub approval_detail : PrStatus → String
  approval_detail pr =
      if opt_eq pr.review_decision (some "CHANGES_REQUESTED")
      then "blocking review present, waiting for approval"
      else if opt_eq pr.review_decision (some "REVIEW_REQUIRED")
      then "required approval missing"
      else template
          ("review gate not satisfied (" ∷ or_else pr.review_decision "unknown" ∷ ")" ∷ [])

  abbrev pub landed_entry : QueueEntry → QueueEntry
  landed_entry entry = record entry {
    post_merge_sha = some (
        if is_head_kind entry.candidate_kind
        then entry.head_sha
        else or_else entry.candidate_sha entry.head_sha);
  }

  abbrev pub landed_what : QueueEntry → String
  landed_what entry =
      if is_head_kind entry.candidate_kind then "validated head" else "integration candidate"

  -- Main has the candidate.
  unfoldable pub landed : QueueEntry → Act (Unit {0})
  landed entry = do
    if is_head_kind entry.candidate_kind
        then emit entry head_candidate_landed (
            some (
              template (
                "validated head "
                ∷ short 8 entry.head_sha
                ∷ " fast-forwarded to "
                ∷ ctx.base_branch
                ∷ [])))
        else skip
    emit entry merge_succeeded none
    verification ← verify_post_merge_status ctx (landed_entry entry)
    now ← gets (λ w. ctx.services.now w.history)
    transition_to ctx entry.id merged (landed_patch verification now) (
        some (
          template
            (landed_what entry ∷ " pushed to main; " ∷ verification.post_merge_summary ∷ [])))
    cleanup_candidate ctx entry
    delete_pr_branch ctx 6 entry

  -- The push of the exact commit; `none` where it was rejected.
  unfoldable pub push_candidate : QueueEntry → String → Act (Unit {0})
  push_candidate entry base = do
    done ←
        attempt
          (push ctx (or_else entry.candidate_sha "null") false (some ctx.base_branch) >>= λ _.
            pure true)
          (λ f. push_rejected ctx entry base f >>= λ _. pure false)
    if done then landed entry else skip

  -- The `catch` of the revalidation.
  unfoldable pub revalidation_unavailable : QueueEntry → Failure → Act (Option String)
  revalidation_unavailable entry f = do
    let detail = template ("candidate revalidation unavailable: " ∷ describe_error ctx f ∷ [])
    emit entry invalidated (some detail)
    if is_head_kind entry.candidate_kind
        then (let base = clean_ci (clear_candidate no_patch) in
            transition_to ctx entry.id preparing_head
              (record base { wait_detail = some (some detail) }) (some detail))
        else transition_to ctx entry.id validating
            (record no_patch { wait_detail = some (some detail) }) (some detail)
    pure none

  abbrev pub go_on : QueueEntry → Option String → Act (Unit {0})
  go_on entry none = skip
  go_on entry (some base) = push_candidate entry base

  unfoldable pub land : QueueEntry → Act (Unit {0})
  land entry = attempt (revalidate ctx entry) (revalidation_unavailable entry) >>= go_on entry

  -- `(!entry.candidateRef || !entry.candidateSha) && !validatedHead`.
  abbrev pub lacks_candidate : QueueEntry → Bool
  lacks_candidate entry =
      (not (present entry.candidate_ref) || not (present entry.candidate_sha))
      && not (is_head_kind entry.candidate_kind)

  unfoldable pub merge_against : QueueEntry → PrStatus → Act (Unit {0})
  merge_against entry pr =
      if pr.merged
      then merged_externally ctx entry "merged externally"
      else if not pr.mergeable
      then close_entry ctx entry "closed before landing"
      else if not pr.review_approved
      then wait_for_approval ctx entry (approval_detail pr)
      else if not (pr.head_sha =? entry.head_sha)
      then supersede_admitted_head ctx entry pr.head_sha
      else if not (live_base ctx pr =? recorded_base ctx entry)
      then rebase_entry ctx entry pr "PR base changed from "
      else if lacks_candidate entry
      then transition_to ctx entry.id preparing_head (clean_ci (clear_candidate no_patch))
          (some "no integration candidate, re-prepare")
      else land entry

  unfoldable pub merge_head : QueueEntry → Act (Unit {0})
  merge_head entry = do
    emit entry merge_revalidating none
    pr ← get_pr_status ctx entry.pr_number
    merge_against entry pr
