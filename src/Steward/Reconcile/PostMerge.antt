-- ===== src/Steward/Reconcile/PostMerge.antt =====
-- packages/merge-steward/src/reconciler-post-merge.ts: the checks of a commit that has landed.
use patchrelay.Prelude.{
  String, Bool, not, ◌&&◌, List, [], ◌∷◌, ◌++◌, map, if◌then◌else◌, template, join, take, is_nil,
  truthy, or_else,
}
use patchrelay.Steward.Types.{QueueEntry, PostMergeStatus, CheckResult, RequiredCheck}
use patchrelay.Steward.Checks.{
  PolicyStatus, CheckPolicyEvaluation, evaluate_check_policy, format_required_check,
}
use patchrelay.Steward.Exec.{pure, gets, attempt, ◌>>=◌}
use patchrelay.Steward.Context.{Context, Act, ask, read_checks}

pub record PostMergeVerificationResult : Type 0 where
  pub post_merge_status : PostMergeStatus
  pub post_merge_summary : String
  pub post_merge_sha : String

pub record Verdict : Type 0 where
  pub post_merge_status : PostMergeStatus
  pub summary : String

join_items : List String → String
unfolding join
join_items items = join ", " (take 5 items)

-- One item in the singular, several in the plural.
named : String → String → List String → String
unfolding template join_items
named one many [] = template (many ∷ "" ∷ [])
named one many (item ∷ []) = template (one ∷ item ∷ [])
named one many (item ∷ next ∷ items) = template (many ∷ join_items (item ∷ next ∷ items) ∷ [])

-- The summary of checks that are not settled.
waiting_for : List String → String
unfolding named
waiting_for [] = "checks required but none found yet"
waiting_for (item ∷ items) = named "check pending: " "checks pending: " (item ∷ items)

abbrev verdict_of :
    List RequiredCheck → Bool → List CheckResult → CheckPolicyEvaluation → PolicyStatus → Verdict
verdict_of required require_all checks evaluation PolicyStatus.fail = record {
  post_merge_status = PostMergeStatus.fail;
  summary =
      named "check failed: " "checks failed: "
        (map (λ (c : CheckResult). c.name) evaluation.failing);
}
verdict_of required require_all checks evaluation PolicyStatus.pending =
    if is_nil checks && is_nil required && not require_all
    then record { post_merge_status = PostMergeStatus.unknown; summary = "no checks found yet" }
    else record {
      post_merge_status = PostMergeStatus.pending;
      summary = waiting_for (
          map format_required_check evaluation.missing
          ++ map (λ (c : CheckResult). c.name) evaluation.pending);
    }
verdict_of required require_all checks evaluation PolicyStatus.pass = record {
  post_merge_status = PostMergeStatus.pass;
  summary =
      if not (is_nil required)
      then "all required checks passed"
      else if require_all
      then "all observed checks passed"
      else "all checks passed";
}

unfoldable pub evaluate_checks : List RequiredCheck → Bool → List CheckResult → Verdict
unfolding waiting_for evaluate_check_policy
evaluate_checks required require_all checks =
    let evaluation = evaluate_check_policy required require_all checks in
    verdict_of required require_all checks evaluation evaluation.status

-- `entry.postMergeSha ?? entry.candidateSha ?? entry.headSha`.
abbrev pub sha_to_verify : QueueEntry → String
sha_to_verify entry = or_else entry.post_merge_sha (or_else entry.candidate_sha entry.head_sha)

module _ (ctx : Context) where
  unfoldable pub verify_post_merge_status : QueueEntry → Act PostMergeVerificationResult
  verify_post_merge_status entry = do
    let sha = sha_to_verify entry
    required ← gets (λ w. w.policy.required_check_rules)
    require_all ← gets (λ w. w.policy.require_all_checks_on_empty_required_set)
    if not (truthy sha) then pure (unknown_sha entry) else do
      checks ← attempt (ask (read_checks sha) (ctx.services.list_checks_for_ref sha)) (λ _. pure [])
      pure (verified sha (evaluate_checks required require_all checks))
    where
      unknown_sha : QueueEntry → PostMergeVerificationResult
      unknown_sha e = record {
        post_merge_status = PostMergeStatus.unknown;
        post_merge_summary = "post-merge SHA is unknown";
        post_merge_sha = e.head_sha;
      }

      verified : String → Verdict → PostMergeVerificationResult
      verified sha verdict = record {
        post_merge_status = verdict.post_merge_status;
        post_merge_summary = verdict.summary;
        post_merge_sha = sha;
      }
