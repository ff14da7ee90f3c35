-- ===== src/Steward/Reconcile/Safe/Merge.antt =====
-- packages/merge-steward/src/reconciler-merge.ts: a stable property across landing.
use patchrelay.Prelude.{ℕ, zero, suc, String, Bool, Option, none, some, List, [], ◌∷◌}
use patchrelay.Steward.Types.{QueueEntry, PrStatus, OpenPrAncestor}
use patchrelay.Steward.Checks.{CheckPolicyEvaluation}
use patchrelay.Steward.Policy.{Policy, RefreshResult}
use patchrelay.Steward.Exec.{Failure, modify, ◌>>=◌}
use patchrelay.Steward.Exec.Keeps.{Keeps, keeps_rules, Keeps-bind}
use patchrelay.Steward.Context.{Context, World, Call, OpenPr, ask}
use patchrelay.Steward.Reconcile.Stable.{
  Stable, basic, active-Safe, cleanup_candidate-Safe, invalidate_downstream-Safe,
  invalidate_from-Safe, supersede_admitted_head-Safe, evict_entry-Safe,
}
use patchrelay.Steward.Reconcile.Push.{
  ForwardState, inspect_candidate_checks, read_forward_state, verify_candidate_still_fast_forwards,
  retarget_children, moved_children, delete_branch, clean_up_after, merged_branch, delete_pr_branch,
}
use patchrelay.Steward.Reconcile.Land.{
  refresh_policy, announce_policy, merged_externally, close_entry, rebase_entry, wait_for_approval,
  diverged, stale_head_candidate, checks_no_longer_pass, blocked_landing, final_ancestry,
  renew_fingerprint, final_status, revalidate_checks, revalidate,
}
use patchrelay.Steward.Reconcile.Reject.{
  refresh_on_issue, resend, policy_changed_meanwhile, rebuild_or_evict, keep_candidate,
  handle_rejection, push_rejected,
}
use patchrelay.Steward.Reconcile.Merge.{
  landed, push_candidate, revalidation_unavailable, go_on, land, merge_against, merge_head,
}
use patchrelay.Steward.Reconcile.Git.{push}
use patchrelay.Steward.Reconcile.Safe.{
  find_unlanded-Safe, verify-Safe, get_pr_status-Safe, update_base_ref-Safe,
}
use patchrelay.Steward.Reconcile.Safe.Prepare.{git_rules}
use patchrelay.Steward.Reconcile.Safe.Validate.{checks_for-Safe, evaluate-Safe}

module _ {P : World → Type 0} (st : Stable P) (ctx : Context) where
  ruleset reading = (git_rules, checks_for-Safe, evaluate-Safe, get_pr_status-Safe)

  ruleset leaving = (
    reading, active-Safe, cleanup_candidate-Safe, invalidate_downstream-Safe, invalidate_from-Safe,
    supersede_admitted_head-Safe, evict_entry-Safe, update_base_ref-Safe,
  )

  inspect_candidate_checks-Safe : (sha : Option String) → Keeps P (inspect_candidate_checks ctx sha)
  unfolding inspect_candidate_checks
  inspect_candidate_checks-Safe none = search basic
  inspect_candidate_checks-Safe (some sha) = search reading

  read_forward_state-Safe : (sha : String) → Keeps P (read_forward_state ctx sha)
  unfolding read_forward_state
  read_forward_state-Safe sha = search reading

  verify_forward-Safe :
      (sha : Option String) → Keeps P (verify_candidate_still_fast_forwards ctx sha)
  unfolding verify_candidate_still_fast_forwards
  verify_forward-Safe none = search basic
  verify_forward-Safe (some sha) = search (basic, read_forward_state-Safe)

  retarget_children-Safe : (children : List OpenPr) → Keeps P (retarget_children ctx children)
  unfolding retarget_children
  retarget_children-Safe children = search basic

  moved_children-Safe : (branch : String) → Keeps P (moved_children ctx branch)
  unfolding moved_children
  moved_children-Safe branch = search (basic, retarget_children-Safe)

  delete_branch-Safe : (e : QueueEntry) → Keeps P (delete_branch ctx e)
  unfolding delete_branch
  delete_branch-Safe e = search basic

  clean_up_after-Safe :
      (e : QueueEntry) (branch : String) (children : Option (List OpenPr))
      → Keeps P (clean_up_after ctx e branch children)
  unfolding clean_up_after
  clean_up_after-Safe e branch none = search basic
  clean_up_after-Safe e branch (some []) = delete_branch-Safe e
  clean_up_after-Safe e branch (some (child ∷ children)) = search (basic, delete_branch-Safe)

  merged_branch-Safe : (e : QueueEntry) → Keeps P (merged_branch ctx e)
  unfolding merged_branch
  merged_branch-Safe e = search reading

  delete_pr_branch-Safe :
      (attempts : ℕ) (e : QueueEntry) → Keeps P (delete_pr_branch ctx attempts e)
  unfolding delete_pr_branch
  delete_pr_branch-Safe zero e = search basic
  delete_pr_branch-Safe (suc attempts) e =
      Keeps-bind _ _ (merged_branch-Safe e) (polled (delete_pr_branch-Safe attempts e))
    where
      polled :
          Keeps P (delete_pr_branch ctx attempts e)
          → (found : Option String)
          → Keeps P (elim found [
            | some branch ↦ moved_children ctx branch >>= clean_up_after ctx e branch
            | none ↦ delete_pr_branch ctx attempts e
          ])
      polled again none = again
      polled again (some branch) = search (keeps_rules, moved_children-Safe, clean_up_after-Safe)

  policy_written-Safe : (f : World → Policy) → Keeps P (modify (λ w. record w { policy = f w }))
  unfolding modify
  policy_written-Safe f = record { held = λ w h. st.policies w (f w) h }

  pub refresh_policy-Safe : (reason : String) → Keeps P (refresh_policy ctx reason)
  unfolding refresh_policy
  refresh_policy-Safe reason = search (basic, policy_written-Safe)

  announce_policy-Safe : (e : QueueEntry) (r : RefreshResult) → Keeps P (announce_policy ctx e r)
  unfolding announce_policy
  announce_policy-Safe e r = search basic

  pub merged_externally-Safe : (e : QueueEntry) (d : String) → Keeps P (merged_externally ctx e d)
  unfolding merged_externally
  merged_externally-Safe e d = search leaving

  pub close_entry-Safe : (e : QueueEntry) (d : String) → Keeps P (close_entry ctx e d)
  unfolding close_entry
  close_entry-Safe e d = search leaving depth 12

  pub rebase_entry-Safe :
      (e : QueueEntry) (pr : PrStatus) (d : String) → Keeps P (rebase_entry ctx e pr d)
  unfolding rebase_entry
  rebase_entry-Safe e pr d = Keeps-bind _ _ (search basic) λ _.
      Keeps-bind _ _ (search leaving) λ all_active.
        Keeps-bind _ _ (search leaving)
          λ _. Keeps-bind _ _ (update_base_ref-Safe st ctx e.id _ _) λ _. search leaving

  pub wait_for_approval-Safe : (e : QueueEntry) (d : String) → Keeps P (wait_for_approval ctx e d)
  unfolding wait_for_approval
  wait_for_approval-Safe e d = search basic

  pub diverged-Safe : (e : QueueEntry) (d reason : String) → Keeps P (diverged ctx e d reason)
  unfolding diverged
  diverged-Safe e d reason = search leaving

  pub stale_head_candidate-Safe : (e : QueueEntry) → Keeps P (stale_head_candidate ctx e)
  unfolding stale_head_candidate
  stale_head_candidate-Safe e = search basic

  pub checks_no_longer_pass-Safe :
      (e : QueueEntry) (v : CheckPolicyEvaluation) → Keeps P (checks_no_longer_pass ctx e v)
  unfolding checks_no_longer_pass
  checks_no_longer_pass-Safe e v = search basic

  pub blocked_landing-Safe :
      (e : QueueEntry) (blockers : List OpenPrAncestor) → Keeps P (blocked_landing ctx e blockers)
  unfolding blocked_landing
  blocked_landing-Safe e blockers = search leaving

  final_ancestry-Safe : (e : QueueEntry) → Keeps P (final_ancestry ctx e)
  unfolding final_ancestry
  final_ancestry-Safe e =
      search (reading, diverged-Safe, find_unlanded-Safe, blocked_landing-Safe) depth 14

  pub renew_fingerprint-Safe : (e : QueueEntry) → Keeps P (renew_fingerprint ctx e)
  unfolding renew_fingerprint
  renew_fingerprint-Safe e = search reading

  final_status-Safe : (e : QueueEntry) (pr : PrStatus) → Keeps P (final_status ctx e pr)
  unfolding final_status
  final_status-Safe e pr =
      search
        (
          keeps_rules, merged_externally-Safe, close_entry-Safe, supersede_admitted_head-Safe,
          rebase_entry-Safe, wait_for_approval-Safe, renew_fingerprint-Safe, final_ancestry-Safe,
        )
        depth 12

  revalidate_checks-Safe : (e : QueueEntry) (base : String) → Keeps P (revalidate_checks ctx e base)
  unfolding revalidate_checks
  revalidate_checks-Safe e base =
      search (reading, checks_no_longer_pass-Safe, diverged-Safe, final_status-Safe) depth 12

  pub revalidate-Safe : (e : QueueEntry) → Keeps P (revalidate ctx e)
  unfolding revalidate
  revalidate-Safe e =
      search
        (
          reading, refresh_policy-Safe, announce_policy-Safe, stale_head_candidate-Safe,
          revalidate_checks-Safe,
        )
        depth 12

  refresh_on_issue-Safe : Keeps P (refresh_on_issue ctx)
  unfolding refresh_on_issue
  refresh_on_issue-Safe = search (basic, refresh_policy-Safe, policy_written-Safe)

  resend-Safe : (e : QueueEntry) (r : RefreshResult) → Keeps P (resend ctx e r)
  unfolding resend
  resend-Safe e r = search (leaving, announce_policy-Safe) depth 12

  policy_changed_meanwhile-Safe : (e : QueueEntry) → Keeps P (policy_changed_meanwhile ctx e)
  unfolding policy_changed_meanwhile
  policy_changed_meanwhile-Safe e = search (keeps_rules, refresh_on_issue-Safe, resend-Safe)

  rebuild_or_evict-Safe : (e : QueueEntry) → Keeps P (rebuild_or_evict ctx e)
  unfolding rebuild_or_evict
  rebuild_or_evict-Safe e = search leaving

  keep_candidate-Safe : (e : QueueEntry) (d : String) → Keeps P (keep_candidate ctx e d)
  unfolding keep_candidate
  keep_candidate-Safe e d = search basic

  handle_rejection-Safe :
      (e : QueueEntry) (base : String) (f : Failure) (forward : ForwardState) (s : String)
      → Keeps P (handle_rejection ctx e base f forward s)
  unfolding handle_rejection
  handle_rejection-Safe e base f forward s =
      search (leaving, rebuild_or_evict-Safe, keep_candidate-Safe) depth 12

  pub push_rejected-Safe :
      (e : QueueEntry) (base : String) (f : Failure) → Keeps P (push_rejected ctx e base f)
  unfolding push_rejected
  push_rejected-Safe e base f =
      search
        (
          keeps_rules, verify_forward-Safe, policy_changed_meanwhile-Safe,
          inspect_candidate_checks-Safe, handle_rejection-Safe,
        )
        depth 12

  pub landed-Safe : (e : QueueEntry) → Keeps P (landed ctx e)
  unfolding landed
  landed-Safe e = search (leaving, verify-Safe, delete_pr_branch-Safe) depth 14

  pub revalidation_unavailable-Safe :
      (e : QueueEntry) (f : Failure) → Keeps P (revalidation_unavailable ctx e f)
  unfolding revalidation_unavailable
  revalidation_unavailable-Safe e f = search basic depth 12

-- A property of which every call is free, landing pushes included.
module _ {P : World → Type 0} (st : Stable P) (ctx : Context)
    (free : (w : World) (c : Call) → P w → P (record w { history = c ∷ w.history })) where
  push-Free :
      (sha : String) (force : Bool) (target : Option String) → Keeps P (push ctx sha force target)
  unfolding push ask
  push-Free sha force target = record { held = λ w h. free w _ h }

  push_candidate-Free : (e : QueueEntry) (base : String) → Keeps P (push_candidate ctx e base)
  unfolding push_candidate
  push_candidate-Free e base = search (basic, push-Free, push_rejected-Safe, landed-Safe)

  go_on-Free : (e : QueueEntry) (base : Option String) → Keeps P (go_on ctx e base)
  go_on-Free e none = search basic
  go_on-Free e (some base) = push_candidate-Free e base

  pub land-Free : (e : QueueEntry) → Keeps P (land ctx e)
  unfolding land
  land-Free e = search (keeps_rules, revalidate-Safe, revalidation_unavailable-Safe, go_on-Free)

-- A property that the landing of the entry keeps.
module _ {P : World → Type 0} (st : Stable P) (ctx : Context) where
  merge_against-Safe :
      (e : QueueEntry) (pr : PrStatus) → Keeps P (land ctx e) → Keeps P (merge_against ctx e pr)
  unfolding merge_against
  merge_against-Safe e pr safe =
      search
        (
          basic, merged_externally-Safe, close_entry-Safe, supersede_admitted_head-Safe,
          rebase_entry-Safe, wait_for_approval-Safe,
        )
        depth 12

  pub merge_head-Safe : (e : QueueEntry) → Keeps P (land ctx e) → Keeps P (merge_head ctx e)
  unfolding merge_head
  merge_head-Safe e safe = search (reading, merge_against-Safe)
