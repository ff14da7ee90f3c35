-- ===== src/Steward/Reconcile/Hold.antt =====
-- packages/merge-steward/src/reconciler-validate.ts: a failed candidate is held for repair.
use patchrelay.Prelude.{
  ℕ, String, ◌=?◌, Bool, true, false, not, Option, none, some, List, [], ◌∷◌, map, keep,
  if◌then◌else◌, template, join, or_else, present, truthy, to_lower,
}
use patchrelay.Steward.Types.{
  QueueEntry, CandidateKind, integration, integration_repair, CheckResult, validating,
}
use patchrelay.Steward.Checks.{CheckPolicyEvaluation, evaluate_check_policy, blocks}
use patchrelay.Steward.Store.{no_patch}
use patchrelay.Steward.Exec.{pure, gets, ◌>>=◌, ◌>>◌}
use patchrelay.Steward.Context.{
  Context, Act, ask, transition_to, created_workspace, read_checks, candidate_ref_name,
  integration_review_check,
}
use patchrelay.Steward.Reconcile.Evict.{invalidate_from}
use patchrelay.Steward.Reconcile.Git.{push}

abbrev pub is_repair : Option CandidateKind → Bool
is_repair none = false
is_repair (some CandidateKind.head) = false
is_repair (some CandidateKind.integration) = false
is_repair (some CandidateKind.integration_repair) = true

abbrev pub is_head_kind : Option CandidateKind → Bool
is_head_kind none = false
is_head_kind (some CandidateKind.head) = true
is_head_kind (some CandidateKind.integration) = false
is_head_kind (some CandidateKind.integration_repair) = false

-- `entry.candidateSha ?? entry.headSha`.
abbrev pub sha_of : QueueEntry → String
sha_of entry = or_else entry.candidate_sha entry.head_sha

abbrev pub failed_suffix : List CheckResult → String
failed_suffix checks =
    let failed = join ", " (map (λ (c : CheckResult). c.name) (keep blocks checks)) in
    if truthy failed then template (" (" ∷ failed ∷ ")" ∷ []) else ""

-- The checks of a candidate without the integration review.
unfoldable pub without_review : List CheckResult → List CheckResult
unfolding to_lower ◌=?◌
without_review checks = keep (λ c. not (to_lower c.name =? integration_review_check)) checks

-- What a validation knows of the queue: the active entries, the entry's place among them, and
-- whether it is the entry that may land.
pub record Place : Type 0 where
  pub all_active : List QueueEntry
  pub index : Option ℕ
  pub is_landing_head : Bool

module _ (ctx : Context) where
  unfoldable pub checks_for : String → Act (List CheckResult)
  checks_for sha = ask (read_checks sha) (ctx.services.list_checks_for_ref sha)

  unfoldable pub evaluate : List CheckResult → Act CheckPolicyEvaluation
  evaluate checks = gets λ w.
      evaluate_check_policy w.policy.required_check_rules
        w.policy.require_all_checks_on_empty_required_set checks

  unfoldable pub invalidate_after : Place → Act (Unit {0})
  invalidate_after place = invalidate_from ctx place.all_active place.index

  -- The workspace of a candidate: the one it has, or a new one at the candidate.
  unfoldable pub workspace_of : QueueEntry → Act String
  workspace_of entry = elim (present entry.candidate_ref) [
    | true ↦ pure (or_else entry.candidate_ref "")
    | false ↦ do
      let name = candidate_ref_name ctx.base_branch entry.pr_number
      ask (created_workspace name (sha_of entry))
          (ctx.services.create_workspace name (sha_of entry))
      push ctx name true none
      pure name
  ]

  abbrev pub held_kind : QueueEntry → CandidateKind
  held_kind entry = if is_repair entry.candidate_kind then integration_repair else integration

  unfoldable pub hold_for_integration_repair :
      QueueEntry → Place → List CheckResult → Act (Unit {0})
  hold_for_integration_repair entry place checks = do
    candidate_ref ← workspace_of entry
    transition_to ctx entry.id validating
        (record no_patch {
          candidate_kind = some (some (held_kind entry));
          ci_run_id =
              some (some (or_else entry.ci_run_id (template ("head:" ∷ sha_of entry ∷ []))));
          candidate_ref = some (some candidate_ref);
          candidate_sha = some (some (sha_of entry));
          candidate_based_on = some entry.candidate_based_on;
          last_failed_base_sha = some (some entry.base_sha);
          wait_detail = some (
              some (
                template (
                  "candidate CI failed; integration workspace awaits repair"
                  ∷ failed_suffix checks
                  ∷ [])));
        })
        (some "candidate retained for integration repair")
    invalidate_after place
