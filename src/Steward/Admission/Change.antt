-- ===== src/Steward/Admission/Change.antt =====
-- packages/merge-steward/src/service-queue.ts: what GitHub's news change of a queued pull request.
use patchrelay.Prelude.{
  ℕ, ltb, ◌==◌, String, ◌=?◌, Bool, true, false, Option, none, some, List, [], ◌∷◌, any, keep,
  is_nil, if◌then◌else◌, template, short, truthy,
}
use patchrelay.Steward.Types.{QueueEntry, queued, superseded, merged, pending}
use patchrelay.Steward.Store.{Patch, no_patch}
use patchrelay.Steward.Store.Mutate.{dequeue, update_priority}
use patchrelay.Steward.Store.Query.{list_active}
use patchrelay.Steward.Exec.{pure, gets, attempt, skip, for_each, ◌>>=◌, ◌>>◌}
use patchrelay.Steward.Context.{
  Context, Act, ask, write, transition_to, read_labels, changed_labels, clear_candidate, clean_ci,
}
use patchrelay.Steward.Admission.Queue.{
  Settings, entry_by_pr, drop_candidate, send_back, invalidate_downstream_of,
}

-- The entries from the first place on at which the order changed.
unfoldable pub find_affected : List QueueEntry → List QueueEntry → List QueueEntry
unfolding ◌=?◌
find_affected before [] = []
find_affected [] (a ∷ after) = a ∷ after
find_affected (b ∷ before) (a ∷ after) =
    let rest = find_affected before after in if b.id =? a.id then rest else a ∷ after

abbrev superseded_patch : Patch
superseded_patch =
    let base = clean_ci (clear_candidate no_patch) in record base { wait_detail = some none }

abbrev merged_patch : QueueEntry → String → Patch
merged_patch entry now = record no_patch {
  post_merge_status = some (some pending);
  post_merge_sha = some (some entry.head_sha);
  post_merge_summary = some (some "external merge detected, verification pending");
  post_merge_checked_at = some (some now);
}

abbrev lane : ℕ → String
lane priority = if ltb 0 priority then "enabled" else "disabled"

module _ (ctx : Context) where
  unfoldable pub requeue_affected : QueueEntry → List QueueEntry → Act (Unit {0})
  requeue_affected entry affected =
      for_each affected
        (send_back ctx queued (template ("priority changed for entry " ∷ short 8 entry.id ∷ [])))

  unfoldable pub reprioritize : QueueEntry → ℕ → Act Bool
  reprioritize entry priority = do
    before ← gets (λ w. list_active w.store ctx.repo_id)
    write ctx (λ s t.
        update_priority s entry.id priority
          (some (template ("priority lane " ∷ lane priority ∷ []))) t)
    after ← gets (λ w. list_active w.store ctx.repo_id)
    requeue_affected entry (find_affected before after)
    pure true

  unfoldable pub update_priority_by_pr : ℕ → ℕ → Act Bool
  update_priority_by_pr pr_number priority = do
    found ← entry_by_pr ctx pr_number
    elim found [
      | none ↦ pure false
      | some entry ↦ if entry.priority == priority then pure true else reprioritize entry priority
    ]

  unfoldable pub dequeue_by_pr : ℕ → Act (Unit {0})
  dequeue_by_pr pr_number = do
    found ← entry_by_pr ctx pr_number
    elim found [
      | none ↦ skip
      | some entry ↦
          write ctx (λ s t. dequeue s entry.id t) >>= λ _. invalidate_downstream_of ctx entry
    ]

module _ (ctx : Context) (cfg : Settings) where
  abbrev pub managed : List String
  managed = keep truthy (cfg.queue_testing_label ∷ cfg.queue_merging_label ∷ [])

  unfoldable pub remove_labels : ℕ → List String → Act (Unit {0})
  remove_labels pr_number remove =
      if is_nil remove
      then skip
      else attempt
          (ask (changed_labels pr_number [] remove) (ctx.services.set_labels pr_number [] remove))
          (λ _. skip)

  -- `none` where the labels could not be read.
  unfoldable pub remove_current : ℕ → Option (List String) → Act (Unit {0})
  remove_current pr_number none = skip
  remove_current pr_number (some current) =
      remove_labels pr_number (keep (λ label. any (λ l. l =? label) current) managed)

  unfoldable pub clear_queue_state_labels : ℕ → Act (Unit {0})
  clear_queue_state_labels pr_number = if is_nil managed then skip else do
    current ←
        attempt
          (ask (read_labels pr_number) (ctx.services.list_labels pr_number) >>= λ labels.
            pure (some labels))
          (λ _. pure none)
    remove_current pr_number current

  unfoldable pub retire_head : QueueEntry → ℕ → String → Act (Unit {0})
  retire_head entry pr_number head_sha = do
    drop_candidate ctx entry.candidate_ref
    transition_to ctx entry.id superseded superseded_patch (
        some (
          template (
            "admitted head "
            ∷ short 12 entry.head_sha
            ∷ " superseded by "
            ∷ short 12 head_sha
            ∷ "; new head must pass admission"
            ∷ [])))
    invalidate_downstream_of ctx entry
    attempt (clear_queue_state_labels pr_number) (λ _. skip)

  unfoldable pub update_head_by_pr : ℕ → String → Act (Unit {0})
  update_head_by_pr pr_number head_sha = do
    found ← entry_by_pr ctx pr_number
    elim found [
      | none ↦ skip
      | some entry ↦
          if entry.head_sha =? head_sha then skip else retire_head entry pr_number head_sha
    ]

  unfoldable pub merge_acknowledged : QueueEntry → ℕ → Act (Unit {0})
  merge_acknowledged entry pr_number = do
    now ← gets (λ w. ctx.services.now w.history)
    transition_to ctx entry.id merged (merged_patch entry now) none
    invalidate_downstream_of ctx entry
    clear_queue_state_labels pr_number

  unfoldable pub acknowledge_external_merge : ℕ → Act (Unit {0})
  acknowledge_external_merge pr_number = do
    found ← entry_by_pr ctx pr_number
    elim found [ none ↦ skip | some entry ↦ merge_acknowledged entry pr_number ]
