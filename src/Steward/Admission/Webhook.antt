-- ===== src/Steward/Admission/Webhook.antt =====
-- packages/merge-steward/src/webhook-handler.ts: what an event of GitHub does to the queue. The tick that
-- a change of the policy triggers is a parameter.
use patchrelay.Prelude.{
  ℕ, ◌==◌, String, ◌=?◌, Bool, true, false, not, ◌&&◌, Option, none, some, [], ◌∷◌, if◌then◌else◌,
  template, truthy, present, opt_eq,
}
use patchrelay.Steward.Exec.{pure, attempt, skip, ◌>>=◌}
use patchrelay.Steward.Context.{Context, Act, ask, found_pr}
use patchrelay.Steward.Reconcile.Land.{refresh_policy}
use patchrelay.Steward.Admission.Queue.{Settings}
use patchrelay.Steward.Admission.Admit.{try_admit}
use patchrelay.Steward.Admission.Change.{
  dequeue_by_pr, update_head_by_pr, acknowledge_external_merge,
}

pub data PolicySource : Type 0 where
  branch_protection_rule repository_ruleset : PolicySource

pub data StewardWebhookEvent : Type 0 where
  pr_labeled : ℕ → String → String → String → StewardWebhookEvent
  pr_unlabeled : ℕ → String → StewardWebhookEvent
  pr_merged : ℕ → StewardWebhookEvent
  pr_closed : ℕ → StewardWebhookEvent
  pr_synchronize : ℕ → String → String → StewardWebhookEvent
  review_approved : ℕ → String → String → StewardWebhookEvent
  check_suite_completed : Option ℕ → String → String → String → StewardWebhookEvent
  policy_changed : PolicySource → String → Option String → StewardWebhookEvent
  push_event : String → String → StewardWebhookEvent

pub record HandlerConfig : Type 0 where
  pub admission_label : String
  pub priority_queue_label : String
  pub base_branch : String
  pub github : Bool

abbrev source_name : PolicySource → String
source_name PolicySource.branch_protection_rule = "branch_protection_rule"
source_name PolicySource.repository_ruleset = "repository_ruleset"

abbrev is_rule : PolicySource → Bool
is_rule PolicySource.branch_protection_rule = true
is_rule PolicySource.repository_ruleset = false

-- An event of a branch that is not the base.
unfoldable pub is_unrelated : HandlerConfig → PolicySource → Option String → Bool
unfolding ◌=?◌
is_unrelated config source branch =
    is_rule source && present branch && not (opt_eq branch (some config.base_branch))

-- A number that is 0 or missing is no pull request.
abbrev pub number_of : Option ℕ → Option ℕ
number_of none = none
number_of (some n) = if n == 0 then none else some n

unfoldable pub is_known_label : HandlerConfig → String → Bool
unfolding ◌=?◌
is_known_label config label =
    if label =? config.admission_label then true else label =? config.priority_queue_label

module _ (ctx : Context) (cfg : Settings) (config : HandlerConfig) (trigger : Act (Unit {0})) where
  unfoldable pub admit : ℕ → String → String → Act (Unit {0})
  admit pr_number branch head_sha = try_admit ctx cfg false pr_number branch head_sha >>= λ _. skip

  -- The pull request of a check suite: the one that it names, or the one of its branch.
  unfoldable pub suite_pr : Option ℕ → String → Act (Option ℕ)
  suite_pr pr_number branch = elim (number_of pr_number) [
    | some n ↦ pure (some n)
    | none ↦
        if truthy branch && config.github
        then ask (found_pr branch) (ctx.services.find_pr_by_branch branch)
        else pure none
  ]

  unfoldable pub admit_found : String → String → Option ℕ → Act (Unit {0})
  admit_found branch head_sha found = elim (number_of found) [
    | none ↦ skip
    | some n ↦ admit n branch head_sha
  ]

  unfoldable pub refresh_and_reconcile : PolicySource → String → Act (Unit {0})
  refresh_and_reconcile source action =
      attempt
        (refresh_policy ctx (template (source_name source ∷ ":" ∷ action ∷ [])) >>= λ _. trigger)
        (λ _. skip)

  unfoldable pub process_webhook_event : StewardWebhookEvent → Act (Unit {0})
  process_webhook_event (pr_labeled pr_number branch head_sha label) =
      if is_known_label config label then admit pr_number branch head_sha else skip
  process_webhook_event (pr_unlabeled pr_number label) = skip
  process_webhook_event (pr_merged pr_number) = acknowledge_external_merge ctx cfg pr_number
  process_webhook_event (pr_closed pr_number) = dequeue_by_pr ctx pr_number
  process_webhook_event (pr_synchronize pr_number branch head_sha) =
      update_head_by_pr ctx cfg pr_number head_sha
  process_webhook_event (review_approved pr_number branch head_sha) =
      admit pr_number branch head_sha
  process_webhook_event (check_suite_completed pr_number branch head_sha conclusion) =
      if conclusion =? "success"
      then suite_pr pr_number branch >>= admit_found branch head_sha
      else skip
  process_webhook_event (policy_changed source action branch) =
      if is_unrelated config source branch then skip else refresh_and_reconcile source action
  process_webhook_event (push_event ref head_sha) = skip
