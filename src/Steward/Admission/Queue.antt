-- ===== src/Steward/Admission/Queue.antt =====
-- packages/merge-steward/src/service-queue.ts: an entry is put into the queue, and the entries behind one
-- that leaves it are invalidated.
use patchrelay.Prelude.{
  ℕ, ltb, leb, ◌+◌, String, Bool, Option, none, some, List, [], ◌∷◌, if◌then◌else◌, template, short,
  or_else, truthy,
}
use patchrelay.Steward.Types.{QueueEntry, QueueEntryStatus, queued, preparing_head}
use patchrelay.Steward.Downstream.{select_downstream}
use patchrelay.Steward.Store.{Store, insert}
use patchrelay.Steward.Store.Query.{get_entry_by_pr, list_active, list_all}
use patchrelay.Steward.Exec.{
  Failure, Result, pure, raise, gets, attempt, skip, for_each, ◌>>=◌, ◌>>◌,
}
use patchrelay.Steward.Context.{
  Context, Act, ask, write, transition_to, deleted_speculative, invalidation_patch,
}

-- What the service is configured with, beside the context; the runtime's RegExp, its Date.parse on the
-- timestamps that the store writes, and the unique constraint of the database are parameters.
pub record Settings : Type 0 where
  pub max_retries : ℕ
  pub exclude_branches : List String
  pub queue_testing_label : String
  pub queue_merging_label : String
  pub regex_test : String → String → Result Bool
  pub parse_date : String → ℕ
  pub refused : Store → QueueEntry → Option Failure

-- The parameters of `enqueue`.
pub record Params : Type 0 where
  pub pr_number : ℕ
  pub branch : String
  pub head_sha : String
  pub issue_key : Option String
  pub priority : Option ℕ
  pub pr_title : Option String
  pub base_ref_name : Option String

-- The loop of `nextPosition`.
unfoldable pub position_after : ℕ → List QueueEntry → ℕ
position_after next [] = next
position_after next (e ∷ es) =
    position_after (if leb next e.position then e.position + 1 else next) es

unfoldable pub new_entry : Context → Settings → Params → ℕ → String → String → QueueEntry
new_entry ctx cfg p position id now = record {
  id = id;
  repo_id = ctx.repo_id;
  pr_number = p.pr_number;
  branch = p.branch;
  head_sha = p.head_sha;
  base_sha = "";
  status = queued;
  position = position;
  priority = or_else p.priority 0;
  generation = 0;
  ci_run_id = none;
  ci_retries = 0;
  retry_attempts = 0;
  max_retries = cfg.max_retries;
  last_failed_base_sha = none;
  issue_key = p.issue_key;
  candidate_kind = none;
  candidate_policy_fingerprint = none;
  candidate_ref = none;
  candidate_sha = none;
  candidate_based_on = none;
  wait_detail = none;
  post_merge_status = none;
  pr_title = p.pr_title;
  post_merge_sha = none;
  post_merge_summary = none;
  post_merge_checked_at = none;
  base_ref_name = p.base_ref_name;
  enqueued_at = now;
  updated_at = now;
  decided_at = none;
}

module _ (ctx : Context) where
  unfoldable pub next_position : Store → ℕ
  unfolding position_after
  next_position s = position_after 1 (list_all s ctx.repo_id)

  unfoldable pub entry_by_pr : ℕ → Act (Option QueueEntry)
  entry_by_pr pr_number = gets λ w. get_entry_by_pr w.store ctx.repo_id pr_number

  -- `if (entry.candidateRef) deleteSpeculative(entry.candidateRef).catch(() => {})`.
  unfoldable pub drop_candidate : Option String → Act (Unit {0})
  drop_candidate none = skip
  drop_candidate (some name) =
      if truthy name
      then attempt (ask (deleted_speculative name) (ctx.services.delete_speculative name))
          (λ _. skip)
      else skip

  -- An entry starts over, without its candidate.
  unfoldable pub send_back : QueueEntryStatus → String → QueueEntry → Act (Unit {0})
  send_back to reason entry = do
    drop_candidate entry.candidate_ref
    transition_to ctx entry.id to invalidation_patch (some reason)

  unfoldable pub invalidate_downstream_of : QueueEntry → Act (Unit {0})
  invalidate_downstream_of removed = do
    all_active ← gets (λ w. list_active w.store ctx.repo_id)
    for_each (select_downstream all_active removed.id) (
        send_back preparing_head
          (template ("invalidated: entry " ∷ short 8 removed.id ∷ " left the train" ∷ [])))

module _ (ctx : Context) (cfg : Settings) where
  -- `this.store.insert(entry)`, which the constraint may refuse.
  unfoldable pub insert_entry : QueueEntry → Act (Unit {0})
  insert_entry entry = do
    refusal ← gets (λ w. cfg.refused w.store entry)
    elim refusal [ some f ↦ raise f | none ↦ write ctx (λ s t. insert s entry t) ]

  -- The `catch` of the insertion: the entry that won the race, or the error.
  unfoldable pub raced : ℕ → Failure → Act (Option QueueEntry)
  raced pr_number f = do
    other ← entry_by_pr ctx pr_number
    elim other [ some e ↦ pure (some e) | none ↦ raise f ]

  -- The entry that was inserted; those behind it start over where it overtakes them.
  unfoldable pub overtake : QueueEntry → Act QueueEntry
  overtake entry = do
    if ltb 0 entry.priority then invalidate_downstream_of ctx entry else skip
    pure entry

  unfoldable pub insert_new : QueueEntry → Act QueueEntry
  insert_new entry = do
    won ← attempt (insert_entry entry >>= λ _. pure none) (raced entry.pr_number)
    elim won [ some e ↦ pure e | none ↦ overtake entry ]

  unfoldable pub fresh_entry : Params → Act QueueEntry
  fresh_entry p = gets λ w.
      new_entry ctx cfg p (next_position ctx w.store) (ctx.services.random_uuid w.history)
        (ctx.services.now w.history)

  -- The live entry of the pull request, or a new one.
  unfoldable pub enqueue : Params → Act QueueEntry
  enqueue p = do
    existing ← entry_by_pr ctx p.pr_number
    elim existing [ some e ↦ pure e | none ↦ fresh_entry p >>= insert_new ]
