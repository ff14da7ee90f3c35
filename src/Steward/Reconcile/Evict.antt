-- ===== src/Steward/Reconcile/Evict.antt =====
-- packages/merge-steward/src/reconciler-evict.ts: an entry leaves the queue, and what was built upon
-- its candidate is invalidated.
use patchrelay.Prelude.{
  ℕ, String, false, Option, none, some, List, [], ◌∷◌, if◌then◌else◌, template, short, truthy,
  or_else, has_prefix, includes, to_lower, find_index, get_elem?, ◌=?◌, show,
}
use patchrelay.Steward.Types.{
  QueueEntry, QueueEntryStatus, preparing_head, validating, merging, superseded, FailureClass,
  OpenPrAncestor, RetryOutcome, QueueEventRecord, IncidentRecord, open_incident,
}
use patchrelay.Steward.Store.{Patch, no_patch}
use patchrelay.Steward.Store.Query.{list_active, list_events}
use patchrelay.Steward.Store.Mutate.{insert_incident}
use patchrelay.Steward.Downstream.{select_downstream}
use patchrelay.Steward.Exec.{
  Failure, pure, raise, gets, attempt, modify, skip, for_each, ◌>>=◌, ◌>>◌,
}
use patchrelay.Steward.Context.{
  Context, Act, ask, emit, ref, transition_to, branch_mismatch, evicted, invalidated, read_head,
  deleted_speculative, reported, clean_candidate_ref, clean_ci, invalidation_patch,
}

-- The TypeError of reading a field of undefined.
abbrev pub type_error : Failure
type_error = record {
  message = "Cannot read properties of undefined";
  stderr = none;
  stdout = none;
  exit_code = none;
  signal = none;
  timed_out = false;
}

unfoldable pub position_of : String → List QueueEntry → Option ℕ
unfolding ◌=?◌
position_of id entries = find_index (λ e. e.id =? id) entries

-- The outcome of a transition that the retry history keeps.
unfoldable pub retry_outcome : Option QueueEntryStatus → QueueEntryStatus → String → Option String
unfolding to_lower has_prefix includes
retry_outcome (some preparing_head) validating detail = some "passed_to_validation"
retry_outcome (some validating) preparing_head detail = some (
    if has_prefix detail "invalidated:"
    then "invalidated"
    else if includes (to_lower detail) "ci failed"
    then "ci_failed_retry"
    else "validation_reset")
retry_outcome (some merging) preparing_head detail = some "push_failed_retry"
retry_outcome (some preparing_head) preparing_head detail = some "conflict_retry"
retry_outcome _ _ detail = none

-- `event.baseSha || "unknown"`.
abbrev base_or_unknown : Option String → String
base_or_unknown none = "unknown"
base_or_unknown (some base) = if truthy base then base else "unknown"

unfoldable pub retry_history : List QueueEventRecord → List RetryOutcome
unfolding retry_outcome
retry_history [] = []
retry_history (e ∷ rest) = elim (retry_outcome e.from_status e.to_status (or_else e.detail "")) [
  | none ↦ retry_history rest
  | some outcome ↦
      record { at = e.at; base_sha = base_or_unknown e.base_sha; outcome = outcome }
      ∷ retry_history rest
]

unfoldable pub class_name : FailureClass → String
class_name FailureClass.main_broken = "main_broken"
class_name FailureClass.branch_local = "branch_local"
class_name FailureClass.integration_conflict = "integration_conflict"
class_name FailureClass.feature_changed = "feature_changed"
class_name FailureClass.policy_blocked = "policy_blocked"

module _ (ctx : Context) where
  unfoldable pub active : Act (List QueueEntry)
  active = gets (λ w. list_active w.store ctx.repo_id)

  -- Deletes the candidate's ref; that it may be gone already is swallowed.
  unfoldable pub cleanup_candidate : QueueEntry → Act (Unit {0})
  cleanup_candidate entry = elim entry.candidate_ref [
    | none ↦ skip
    | some candidate ↦
        if truthy candidate
        then attempt
            (ask (deleted_speculative candidate) (ctx.services.delete_speculative candidate))
            (λ _. skip)
        else skip
  ]

  unfoldable pub invalidate_one : ℕ → QueueEntry → Act (Unit {0})
  invalidate_one after_index downstream = do
    emit downstream invalidated
        (some (template ("base changed after position " ∷ show after_index ∷ [])))
    cleanup_candidate downstream
    transition_to ctx downstream.id preparing_head invalidation_patch
        (some "invalidated: base changed")

  -- `allActive[afterIndex]!.id` throws where the index is out of range.
  unfoldable pub invalidate_downstream : List QueueEntry → ℕ → Act (Unit {0})
  invalidate_downstream all_active after_index = elim (get_elem? all_active after_index) [
    | none ↦ raise type_error
    | some at_index ↦
        for_each (select_downstream all_active at_index.id) (invalidate_one after_index)
  ]

  -- `if (index >= 0) await invalidateDownstream(...)`, for the answer of a findIndex.
  unfoldable pub invalidate_from : List QueueEntry → Option ℕ → Act (Unit {0})
  invalidate_from all_active none = skip
  invalidate_from all_active (some index) = invalidate_downstream all_active index

  unfoldable pub supersede_admitted_head : QueueEntry → String → Act (Unit {0})
  supersede_admitted_head entry new_head_sha = do
    all_active ← active
    let move = template (
        "admitted head " ∷ short 12 entry.head_sha ∷ " superseded by " ∷ short 12 new_head_sha ∷ [])
    emit entry branch_mismatch (some move)
    cleanup_candidate entry
    transition_to ctx entry.id superseded superseding_patch
        (some (template (move ∷ "; new head must pass admission" ∷ [])))
    invalidate_from all_active (position_of entry.id all_active)
    where
      superseding_patch : Patch
      superseding_patch =
          let base = clean_ci (clean_candidate_ref no_patch) in
          record base {
            candidate_kind = some none;
            candidate_policy_fingerprint = some none;
            candidate_sha = some none;
            wait_detail = some none;
          }

  -- The base of the eviction record: the entry's, or main's head, or "unknown".
  unfoldable pub eviction_base : QueueEntry → Act String
  eviction_base entry =
      if truthy entry.base_sha
      then pure entry.base_sha
      else attempt
          (ask (read_head (ref ctx ctx.base_branch))
            (ctx.services.head_sha (ref ctx ctx.base_branch)))
          (λ _. pure "unknown")

  unfoldable pub incident_for :
      QueueEntry
      → FailureClass
      → List OpenPrAncestor
      → String
      → List RetryOutcome
      → String
      → String
      → IncidentRecord
  incident_for entry failure_class ancestors base_sha history id at = record {
    id = id;
    entry_id = entry.id;
    at = at;
    failure_class = failure_class;
    context = record {
      failure_class = failure_class;
      open_pr_ancestors = ancestors;
      base_sha = base_sha;
      pr_head_sha = entry.head_sha;
      queue_position = entry.position;
      base_branch = ctx.base_branch;
      branch = entry.branch;
      issue_key = entry.issue_key;
      retry_history = history;
    };
    outcome = open_incident;
  }

  unfoldable pub evict_entry : QueueEntry → FailureClass → List OpenPrAncestor → Act (Unit {0})
  evict_entry entry failure_class ancestors = do
    cleanup_candidate entry
    base_sha ← eviction_base entry
    events ← gets (λ w. list_events w.store entry.id)
    id ← gets (λ w. ctx.services.random_uuid w.history)
    at ← gets (λ w. ctx.services.now w.history)
    let incident = incident_for entry failure_class ancestors base_sha (retry_history events) id at
    modify (λ w. record w { store = insert_incident w.store incident })
    emit entry evicted (some (class_name failure_class))
    transition_to ctx entry.id QueueEntryStatus.evicted (clean_candidate_ref no_patch)
        (some (template ("evicted: " ∷ class_name failure_class ∷ [])))
    ask (reported entry incident) (ctx.services.report_eviction entry incident)
