-- ===== src/Steward/Reconcile/Labels.antt =====
-- packages/merge-steward/src/reconciler-queue-labels.ts: the label that shows an entry's phase.
use patchrelay.Prelude.{
  String, ◌=?◌, Bool, not, ◌&&◌, Option, none, some, List, [], ◌∷◌, ◌++◌, keep, any, is_nil,
  if◌then◌else◌, template, join, truthy, opt_eq,
}
use patchrelay.Steward.Types.{QueueEntry, QueueEntryStatus}
use patchrelay.Steward.Schedule.{status_text}
use patchrelay.Steward.Exec.{pure, attempt, skip, ◌>>=◌}
use patchrelay.Steward.Context.{
  Context, Act, Labels, ask, emit, read_labels, changed_labels, queue_label_synced,
}

unfoldable pub desired_label : Labels → QueueEntryStatus → Option String
desired_label labels QueueEntryStatus.validating = some labels.testing
desired_label labels QueueEntryStatus.merging = some labels.merging
desired_label labels QueueEntryStatus.queued = none
desired_label labels QueueEntryStatus.preparing_head = none
desired_label labels QueueEntryStatus.evicted = none
desired_label labels QueueEntryStatus.merged = none
desired_label labels QueueEntryStatus.dequeued = none
desired_label labels QueueEntryStatus.superseded = none

unfoldable pub contains : List String → String → Bool
unfolding ◌=?◌
contains labels label = any (λ l. l =? label) labels

-- `desired && !current.includes(desired) ? [desired] : []`.
unfoldable pub labels_to_add : Option String → List String → List String
unfolding contains
labels_to_add none current = []
labels_to_add (some label) current =
    if truthy label && not (contains current label) then label ∷ [] else []

unfoldable pub labels_to_remove : Labels → Option String → List String → List String
unfolding contains ◌=?◌
labels_to_remove labels desired current =
    keep (λ l. not (opt_eq (some l) desired) && contains current l)
      (labels.testing ∷ labels.merging ∷ [])

module _ (ctx : Context) where
  abbrev label_change : QueueEntry → List String → List String → String
  label_change entry add remove = template (
      status_text entry.status
      ∷ ": "
      ∷ join " " (
          (if is_nil add then [] else template ("+" ∷ join "," add ∷ []) ∷ [])
          ++ (if is_nil remove then [] else template ("-" ∷ join "," remove ∷ []) ∷ []))
      ∷ [])

  unfoldable pub change_labels : QueueEntry → List String → List String → Act (Unit {0})
  change_labels entry add remove =
      if is_nil add && is_nil remove
      then skip
      else attempt
          (ask (changed_labels entry.pr_number add remove)
              (ctx.services.set_labels entry.pr_number add remove)
            >>= λ _. emit entry queue_label_synced (some (label_change entry add remove)))
          (λ _. skip)

  abbrev pub change_from : QueueEntry → Labels → Option (List String) → Act (Unit {0})
  change_from entry labels none = skip
  change_from entry labels (some current) =
      let desired = desired_label labels entry.status in
      change_labels entry (labels_to_add desired current) (labels_to_remove labels desired current)

  unfoldable pub sync_labels : QueueEntry → Labels → Act (Unit {0})
  sync_labels entry labels =
      attempt
        (ask (read_labels entry.pr_number) (ctx.services.list_labels entry.pr_number) >>= λ current.
          pure (some current))
        (λ _. pure none)
      >>= change_from entry labels

  unfoldable pub sync_queue_state_labels : QueueEntry → Act (Unit {0})
  sync_queue_state_labels entry = elim ctx.queue_state_labels [
    | none ↦ skip
    | some labels ↦ sync_labels entry labels
  ]
