-- ===== src/Steward/Types.antt =====
-- packages/merge-steward/src/types.ts: the queue's data. A number of the source is a ℕ here
-- (positions, counters, ids and priorities are never negative in the program); `string | null` is
-- `Option String`, with the empty text kept apart from null.
use patchrelay.Prelude.{ℕ, String, Bool, true, false, Option, List}

pub data QueueEntryStatus : Type 0 where
  queued preparing_head validating merging evicted merged dequeued superseded : QueueEntryStatus

-- `TERMINAL_STATUSES.includes`.
abbrev pub is_terminal : QueueEntryStatus → Bool
is_terminal queued = false
is_terminal preparing_head = false
is_terminal validating = false
is_terminal merging = false
is_terminal evicted = true
is_terminal merged = true
is_terminal dequeued = true
is_terminal superseded = true

pub data PostMergeStatus : Type 0 where
  pending pass fail unknown : PostMergeStatus

pub data CandidateKind : Type 0 where
  head integration integration_repair : CandidateKind

pub record QueueEntry : Type 0 where
  pub id : String
  pub repo_id : String
  pub pr_number : ℕ
  pub branch : String
  pub head_sha : String
  pub base_sha : String
  pub status : QueueEntryStatus
  pub position : ℕ
  pub priority : ℕ
  pub generation : ℕ
  pub ci_run_id : Option String
  pub ci_retries : ℕ
  pub retry_attempts : ℕ
  pub max_retries : ℕ
  pub last_failed_base_sha : Option String
  pub issue_key : Option String
  pub candidate_kind : Option CandidateKind
  pub candidate_policy_fingerprint : Option String
  pub candidate_ref : Option String
  pub candidate_sha : Option String
  pub candidate_based_on : Option String
  pub wait_detail : Option String
  pub post_merge_status : Option PostMergeStatus
  pub pr_title : Option String
  pub post_merge_sha : Option String
  pub post_merge_summary : Option String
  pub post_merge_checked_at : Option String
  pub base_ref_name : Option String
  pub enqueued_at : String
  pub updated_at : String
  pub decided_at : Option String

pub data FailureClass : Type 0 where
  main_broken branch_local integration_conflict feature_changed policy_blocked : FailureClass

pub data CheckConclusion : Type 0 where
  success failure pending neutral skipped : CheckConclusion

pub record CheckResult : Type 0 where
  pub name : String
  pub conclusion : CheckConclusion
  pub app_id : Option ℕ
  pub run_id : Option ℕ

pub record RequiredCheck : Type 0 where
  pub name : String
  pub app_id : Option ℕ

pub record OpenPrAncestor : Type 0 where
  pub pr_number : ℕ
  pub branch : String
  pub head_sha : String
  pub shared_ancestor_sha : String

-- One line of an eviction's retry history.
pub record RetryOutcome : Type 0 where
  pub at : String
  pub base_sha : String
  pub outcome : String

pub record EvictionContext : Type 0 where
  pub failure_class : FailureClass
  pub open_pr_ancestors : List OpenPrAncestor
  pub base_sha : String
  pub pr_head_sha : String
  pub queue_position : ℕ
  pub base_branch : String
  pub branch : String
  pub issue_key : Option String
  pub retry_history : List RetryOutcome

pub data IncidentOutcome : Type 0 where
  open_incident resolved superseded : IncidentOutcome

pub record IncidentRecord : Type 0 where
  pub id : String
  pub entry_id : String
  pub at : String
  pub failure_class : FailureClass
  pub context : EvictionContext
  pub outcome : IncidentOutcome

pub record QueueEventRecord : Type 0 where
  pub id : ℕ
  pub entry_id : String
  pub at : String
  pub from_status : Option QueueEntryStatus
  pub to_status : QueueEntryStatus
  pub detail : Option String
  pub base_sha : Option String

pub record PrStatus : Type 0 where
  pub number : ℕ
  pub branch : String
  pub head_sha : String
  pub title : Option String
  pub base_ref_name : Option String
  pub mergeable : Bool
  pub review_decision : Option String
  pub review_approved : Bool
  pub merged : Bool

pub data CiStatus : Type 0 where
  pending pass fail : CiStatus
