-- ===== src/Steward/Context.antt =====
-- packages/merge-steward/src/reconciler-core.ts and interfaces.ts: what the reconciler reads and
-- calls. Git, GitHub, CI, the clock and the event listener are the environment: its answer to a call
-- is any function of the calls made so far, and each call is logged with its answer.
use Prim.Native.Nat.{Ordering}
use patchrelay.Prelude.{
  ℕ, String, Bool, Option, none, some, List, [], ◌∷◌, leb, template, show, opt_eq,
}
use patchrelay.Steward.Types.{
  QueueEntry, QueueEntryStatus, CheckResult, PrStatus, CiStatus, IncidentRecord, RequiredCheck,
}
use patchrelay.Steward.Store.{Store, Stamp, Patch, no_patch}
use patchrelay.Steward.Store.Mutate.{transition}
use patchrelay.Steward.Policy.{Policy, Discovered}
use patchrelay.Steward.Exec.{Result, Exec, modify}

-- `ReconcileAction`.
pub data Action : Type 0 where
  promoted fetch_started branch_mismatch candidate_selected integration_build_started : Action
  integration_build_succeeded integration_build_conflict ci_triggered ci_pending ci_passed : Action
  ci_failed ci_flaky_retry merge_revalidating head_candidate_landed merge_succeeded : Action
  merge_rejected merge_external policy_changed evicted invalidated budget_exhausted : Action
  merge_waiting_approval open_pr_ancestry_blocked stack_dependency_waiting : Action
  merge_waiting_recognition pr_branch_cleanup_deferred pr_branch_cleanup_failed : Action
  stack_children_retargeted sanitized_closed sanitized_duplicate : Action
  post_merge_verification_started post_merge_verification_completed queue_label_synced : Action
  branch_unreachable : Action

-- `ReconcileEvent`, without the fields that only repeat the entry's candidate for display.
pub record Event : Type 0 where
  pub entry_id : String
  pub pr_number : ℕ
  pub action : Action
  pub detail : Option String

-- `MergeResult`.
pub record MergeResult : Type 0 where
  pub success : Bool
  pub sha : Option String
  pub conflict_files : List String

-- An open pull request as the list queries return it.
pub record OpenPr : Type 0 where
  pub number : ℕ
  pub branch : String
  pub head_sha : String
  pub base_branch : String

-- A call to the environment, with its answer.
pub data Call : Type 0 where
  emitted : Event → Call
  fetched : Result (Unit {0}) → Call
  read_head : String → Result String → Call
  read_merge_base : String → String → Result String → Call
  read_ancestor : String → String → Result Bool → Call
  pushed : String → Bool → Option String → Result (Unit {0}) → Call
  created_workspace : String → String → Result String → Call
  built : String → String → String → String → Result MergeResult → Call
  deleted_speculative : String → Result (Unit {0}) → Call
  triggered : String → String → Result String → Call
  reran : String → String → String → Result String → Call
  read_ci : String → Result CiStatus → Call
  read_status : ℕ → Result PrStatus → Call
  read_checks : String → Result (List CheckResult) → Call
  found_pr : String → Result (Option ℕ) → Call
  read_open_prs : Result (List OpenPr) → Call
  read_children : String → Result (List OpenPr) → Call
  retargeted : ℕ → String → Result (Unit {0}) → Call
  deleted_branch : ℕ → Result (Unit {0}) → Call
  read_labels : ℕ → Result (List String) → Call
  changed_labels : ℕ → List String → List String → Result (Unit {0}) → Call
  reported : QueueEntry → IncidentRecord → Result (Unit {0}) → Call
  discovered_policy : Result Discovered → Call

-- The calls made so far, the latest first.
abbrev pub History : Type 0
History = List Call

-- What the environment answers, given the calls so far.
pub record Services : Type 0 where
  pub fetch : History → Result (Unit {0})
  pub head_sha : String → History → Result String
  pub merge_base : String → String → History → Result String
  pub is_ancestor : String → String → History → Result Bool
  pub push : String → Bool → Option String → History → Result (Unit {0})
  pub create_workspace : String → String → History → Result String
  pub build_speculative : String → String → String → String → History → Result MergeResult
  pub delete_speculative : String → History → Result (Unit {0})
  pub trigger_run : String → String → History → Result String
  pub rerun_run : String → String → String → History → Result String
  pub get_ci_status : String → History → Result CiStatus
  pub get_status : ℕ → History → Result PrStatus
  pub list_checks_for_ref : String → History → Result (List CheckResult)
  pub list_open_prs : History → Result (List OpenPr)
  pub list_open_prs_by_base : String → History → Result (List OpenPr)
  pub find_pr_by_branch : String → History → Result (Option ℕ)
  pub set_base_branch : ℕ → String → History → Result (Unit {0})
  pub delete_branch : ℕ → History → Result (Unit {0})
  pub list_labels : ℕ → History → Result (List String)
  pub set_labels : ℕ → List String → List String → History → Result (Unit {0})
  pub report_eviction : QueueEntry → IncidentRecord → History → Result (Unit {0})
  pub refresh_policy : History → Result Discovered
  pub now : History → String
  pub now_ms : History → ℕ
  pub stamp : History → Stamp
  pub random_uuid : History → String
  pub locale_compare : String → String → Ordering
  pub digest : List RequiredCheck → Bool → String
  pub redact : String → String

pub record Labels : Type 0 where
  pub testing : String
  pub merging : String

pub record Context : Type 0 where
  pub repo_id : String
  pub base_branch : String
  pub remote_prefix : String
  pub speculative_depth : ℕ
  pub flaky_retries : ℕ
  pub queue_state_labels : Option Labels
  pub services : Services

-- What an action reads and writes.
pub record World : Type 0 where
  pub store : Store
  pub policy : Policy
  pub history : History

abbrev pub Act : Type 0 → Type 0
Act A = Exec World A

-- A call to the environment.
unfoldable pub ask : {A : Type 0} → (Result A → Call) → (History → Result A) → Act A
ask call answer w = let r = answer w.history in (r, record w { history = call r ∷ w.history })

unfoldable pub emit : QueueEntry → Action → Option String → Act (Unit {0})
emit entry action detail = modify λ w. record w {
  history =
      emitted (record {
        entry_id = entry.id;
        pr_number = entry.pr_number;
        action = action;
        detail = detail;
      })
      ∷ w.history;
}

-- `CLEAR_CANDIDATE`, `CLEAN_CANDIDATE_REF`, `CLEAN_CI` and `INVALIDATION_PATCH`, each put upon a patch.
abbrev pub clear_candidate : Patch → Patch
clear_candidate p = record p {
  candidate_kind = some none;
  candidate_policy_fingerprint = some none;
  candidate_ref = some none;
  candidate_sha = some none;
  candidate_based_on = some none;
}

abbrev pub clean_candidate_ref : Patch → Patch
clean_candidate_ref p = record p { candidate_ref = some none; candidate_based_on = some none }

abbrev pub clean_ci : Patch → Patch
clean_ci p = record p { ci_run_id = some none; ci_retries = some 0 }

abbrev pub invalidation_patch : Patch
invalidation_patch =
    let base = clean_ci (clear_candidate no_patch) in
    record base { retry_attempts = some 0; last_failed_base_sha = some none }

abbrev pub integration_review_check : String
integration_review_check = "review-quill/integration"

unfoldable pub candidate_ref_name : String → ℕ → String
unfolding template show
candidate_ref_name base_branch pr_number =
    template ("merge-steward/" ∷ base_branch ∷ "/pr-" ∷ show pr_number ∷ [])

unfoldable pub is_budget_exhausted : QueueEntry → Bool
is_budget_exhausted entry = leb entry.max_retries entry.retry_attempts

unfoldable pub is_retry_gated : QueueEntry → String → Bool
is_retry_gated entry current_base_sha = opt_eq entry.last_failed_base_sha (some current_base_sha)

module _ (ctx : Context) where
  unfoldable pub ref : String → String
  ref name = template (ctx.remote_prefix ∷ name ∷ [])

  -- A mutation of the store, at the time that the clock shows.
  unfoldable pub write : (Store → Stamp → Store) → Act (Unit {0})
  write f = modify λ w. record w { store = f w.store (ctx.services.stamp w.history) }

  unfoldable pub transition_to : String → QueueEntryStatus → Patch → Option String → Act (Unit {0})
  transition_to id to p detail = write λ s t. transition s id to p detail t
