-- ===== src/Steward/Reconcile/Push.antt =====
-- packages/merge-steward/src/reconciler-merge.ts: why a push to main failed, and the clean-up of the
-- branch of a merged pull request.
use patchrelay.Prelude.{
  ℕ, zero, suc, ◌-◌, ltb, String, Bool, false, not, ◌||◌, Option, none, some, List, [], ◌∷◌, ◌++◌,
  map, keep, if◌then◌else◌, template, join, show, trim, truthy, to_lower, includes, take, length,
  is_nil,
}
use patchrelay.Steward.Types.{QueueEntry, CheckResult, CheckConclusion}
use patchrelay.Steward.Checks.{format_required_check}
use patchrelay.Steward.Exec.{Failure, pure, gets, attempt, for_each, ◌>>=◌, ◌>>◌}
use patchrelay.Steward.Context.{
  Context, Act, OpenPr, ask, emit, ref, read_children, retargeted, deleted_branch,
  pr_branch_cleanup_deferred, stack_children_retargeted, pr_branch_cleanup_failed,
}
use patchrelay.Steward.Reconcile.Ancestry.{is_ancestor}
use patchrelay.Steward.Reconcile.Git.{fetch, head_sha}
use patchrelay.Steward.Reconcile.Sanitize.{get_pr_status}
use patchrelay.Steward.Reconcile.Hold.{checks_for, evaluate}

pub data PushFailureKind : Type 0 where
  non_fast_forward protected_branch auth_or_permission workflow_permission timeout : PushFailureKind
  github_push_rejected : PushFailureKind

unfoldable pub any_included : String → List String → Bool
unfolding includes
any_included text [] = false
any_included text (part ∷ parts) = includes text part || any_included text parts

unfoldable pub classify_push_failure : Failure → String → PushFailureKind
unfolding any_included to_lower
classify_push_failure failure detail =
    let lower = to_lower detail in
    if failure.timed_out || any_included lower ("timed out" ∷ [])
    then timeout
    else if any_included lower ("refusing to allow a github app to create or update workflow" ∷ [])
    then workflow_permission
    else if any_included lower
        ("non-fast-forward" ∷ "fetch first" ∷ "stale info" ∷ "cannot lock ref" ∷ [])
    then non_fast_forward
    else if any_included lower (
        "protected branch" ∷ "gh006" ∷ "required status check" ∷ "required approving review"
        ∷ "changes must be made through a pull request" ∷ [])
    then protected_branch
    else if any_included lower (
        "authentication failed" ∷ "permission denied" ∷ "write access" ∷ "403" ∷ "not authorized"
        ∷ [])
    then auth_or_permission
    else github_push_rejected

abbrev pub kind_name : PushFailureKind → String
kind_name non_fast_forward = "non_fast_forward"
kind_name protected_branch = "protected_branch"
kind_name auth_or_permission = "auth_or_permission"
kind_name workflow_permission = "workflow_permission"
kind_name timeout = "timeout"
kind_name github_push_rejected = "github_push_rejected"

-- `part && part.trim()`.
abbrev pub filled : Option String → List String
filled none = []
filled (some part) = if truthy (trim part) then part ∷ [] else []

abbrev conclusion_name : CheckConclusion → String
conclusion_name CheckConclusion.success = "success"
conclusion_name CheckConclusion.failure = "failure"
conclusion_name CheckConclusion.pending = "pending"
conclusion_name CheckConclusion.neutral = "neutral"
conclusion_name CheckConclusion.skipped = "skipped"

pub summarize_checks : List CheckResult → List String → String
unfolding template join show trim
summarize_checks checks missing = join "; " (
    visible_part
    ++ (if is_nil missing
        then []
        else template ("missing required " ∷ join ", " missing ∷ []) ∷ []))
  where
    visible : List String
    visible =
        map (λ (c : CheckResult). template (c.name ∷ "=" ∷ conclusion_name c.conclusion ∷ []))
          (keep (λ c. truthy (trim c.name)) checks)

    visible_part : List String
    visible_part =
        if is_nil visible
        then "no candidate checks visible" ∷ []
        else template ("candidate checks " ∷ join ", " (take 5 visible) ∷ [])
          ∷ (if ltb 5 (length visible)
              then template ("+" ∷ show (length visible - 5) ∷ " more" ∷ []) ∷ []
              else [])

-- Whether the candidate still fast-forwards, as far as it can be read.
pub record ForwardState : Type 0 where
  pub current_base : Option String
  pub is_fast_forward : Option Bool
  pub detail : Option String

module _ (ctx : Context) where
  -- `describeError`; the regular expressions that redact tokens are the runtime's.
  unfoldable pub describe_error : Failure → String
  describe_error f = ctx.services.redact (
      join " " (
        filled f.stderr
        ++ filled f.stdout
        ++ filled (some f.message)
        ++ exit_part f.exit_code
        ++ signal_part f.signal))
    where
      exit_part : Option ℕ → List String
      exit_part none = []
      exit_part (some code) = template ("exit code " ∷ show code ∷ []) ∷ []

      signal_part : Option String → List String
      signal_part none = []
      signal_part (some name) = if truthy name then template ("signal " ∷ name ∷ []) ∷ [] else []

  abbrev required_names : Act (List String)
  required_names = gets (λ w. map format_required_check w.policy.required_check_rules)

  -- The text of `inspectCandidateChecks`.
  unfoldable pub inspect_candidate_checks : Option String → Act String
  inspect_candidate_checks none = pure "candidate checks unavailable: no candidate SHA"
  inspect_candidate_checks (some sha) =
      if not (truthy sha)
      then pure "candidate checks unavailable: no candidate SHA"
      else attempt
          (checks_for ctx sha >>= λ checks. evaluate ctx checks >>= λ evaluation.
            pure (summarize_checks checks (map format_required_check evaluation.missing)))
          (λ f. pure (template ("candidate checks unavailable: " ∷ describe_error f ∷ [])))

  abbrev unavailable : String → ForwardState
  unavailable detail = record { current_base = none; is_fast_forward = none; detail = some detail }

  unfoldable pub read_forward_state : String → Act ForwardState
  read_forward_state candidate = do
    fetch ctx
    base ← head_sha ctx (ref ctx ctx.base_branch)
    forward ← is_ancestor ctx base candidate
    pure (record { current_base = some base; is_fast_forward = some forward; detail = none })

  unfoldable pub verify_candidate_still_fast_forwards : Option String → Act ForwardState
  verify_candidate_still_fast_forwards none =
      pure (unavailable "fast-forward verification unavailable: no candidate SHA")
  verify_candidate_still_fast_forwards (some sha) =
      if not (truthy sha)
      then pure (unavailable "fast-forward verification unavailable: no candidate SHA")
      else attempt (read_forward_state sha) (λ f. pure (
          unavailable
            (template ("fast-forward verification unavailable: " ∷ describe_error f ∷ []))))

  unfoldable pub retarget_children : List OpenPr → Act (Unit {0})
  retarget_children children = for_each children λ child.
      ask (retargeted child.number ctx.base_branch)
        (ctx.services.set_base_branch child.number ctx.base_branch)

  -- The children of the merged branch, moved to the base; `none` where that failed.
  unfoldable pub moved_children : String → Act (Option (List OpenPr))
  moved_children branch =
      attempt
        (ask (read_children branch) (ctx.services.list_open_prs_by_base branch) >>= λ children.
          retarget_children children >>= λ _. pure (some children))
        (λ _. pure none)

  unfoldable pub delete_branch : QueueEntry → Act (Unit {0})
  delete_branch entry =
      attempt (ask (deleted_branch entry.pr_number) (ctx.services.delete_branch entry.pr_number))
        (λ _.
          emit entry pr_branch_cleanup_failed
            (some "GitHub marked the PR merged, but deleting the head branch failed"))

  abbrev numbered : OpenPr → String
  numbered pr = template ("#" ∷ show pr.number ∷ [])

  unfoldable pub clean_up_after : QueueEntry → String → Option (List OpenPr) → Act (Unit {0})
  clean_up_after entry branch none = emit entry pr_branch_cleanup_deferred (
      some
        "preserving the merged PR branch because stacked children could not be safely retargeted")
  clean_up_after entry branch (some []) = delete_branch entry
  clean_up_after entry branch (some (child ∷ children)) = do
    emit entry stack_children_retargeted (
        some (
          template (
            "retargeted child PR "
            ∷ join ", " (map numbered (child ∷ children))
            ∷ " to "
            ∷ ctx.base_branch
            ∷ " before deleting "
            ∷ branch
            ∷ [])))
    delete_branch entry

  unfoldable pub merged_branch : QueueEntry → Act (Option String)
  merged_branch entry =
      attempt
        (get_pr_status ctx entry.pr_number >>= λ status.
          pure (if status.merged then some status.branch else none))
        (λ _. pure none)

  -- The polls of `deletePrBranchAfterGitHubMarksMerged`; the pause between two of them is not seen.
  unfoldable pub delete_pr_branch : ℕ → QueueEntry → Act (Unit {0})
  delete_pr_branch zero entry = emit entry pr_branch_cleanup_deferred (
      some
        "waiting for GitHub to classify the fast-forwarded PR as merged before deleting the head branch")
  delete_pr_branch (suc attempts) entry = merged_branch entry >>= λ found. elim found [
    | some branch ↦ moved_children branch >>= clean_up_after entry branch
    | none ↦ delete_pr_branch attempts entry
  ]
