-- ===== src/Steward/Reconcile/Safe/Tick.antt =====
-- packages/merge-steward/src/reconciler.ts: a stable property across a tick.
use patchrelay.Prelude.{
  ℕ, String, Bool, true, false, Option, none, some, List, Option-cases, Bool-cases, ◌≡◌, inl, inr,
}
use patchrelay.Steward.Types.{QueueEntry, QueueEntryStatus, is_terminal}
use patchrelay.Steward.Schedule.{Blocked}
use patchrelay.Steward.Store.{get_entry}
use patchrelay.Steward.Exec.Keeps.{Keeps, keeps_rules, Keeps-reads, Keeps-if}
use patchrelay.Steward.Context.{Context, World}
use patchrelay.Steward.Reconcile.Stable.{Stable, basic, cleanup_candidate-Safe}
use patchrelay.Steward.Reconcile.PostMerge.{PostMergeVerificationResult}
use patchrelay.Steward.Reconcile.Merge.{land}
use patchrelay.Steward.Reconcile.Labels.{
  change_labels, change_from, sync_labels, sync_queue_state_labels,
}
use patchrelay.Steward.Reconcile.Tick.{
  Turn, live_entry, entry_of, entry_of_some, invalidate_blocked, note_blocked, hold_entry,
  hold_live, hold_blocked, validate_in_place, run_phase, sync_live, process_turn, drop_stale,
  guard_dependency, after_sanitize, take_turn_of, take_turn, record_verification,
  verify_merged_entry, verify_merged_entries_post_push, reconcile,
}
use patchrelay.Steward.Context.{Labels}
use patchrelay.Steward.Reconcile.Safe.{sanitize_entry-Safe, verify-Safe}
use patchrelay.Steward.Reconcile.Safe.Prepare.{prepare_entry-Safe}
use patchrelay.Steward.Reconcile.Safe.Validate.{check_validation-Safe}
use patchrelay.Steward.Reconcile.Safe.Merge.{merge_head-Safe}

module _ {P : World → Type 0} (st : Stable P) (ctx : Context) (Known : QueueEntry → Type 0)
    (known : (w : World)
      → P w
      → (id : String) (e : QueueEntry) → get_entry w.store id ≡ some e
      → Known e)
    (land-Safe : (e : QueueEntry) → Known e → Keeps P (land ctx e)) where
  change_labels-Safe :
      (e : QueueEntry) (add remove : List String) → Keeps P (change_labels ctx e add remove)
  unfolding change_labels
  change_labels-Safe e add remove = search basic

  change_from-Safe :
      (e : QueueEntry) (l : Labels) (current : Option (List String))
      → Keeps P (change_from ctx e l current)
  change_from-Safe e l none = search basic
  change_from-Safe e l (some current) = change_labels-Safe e _ _

  sync_labels-Safe : (e : QueueEntry) (l : Labels) → Keeps P (sync_labels ctx e l)
  unfolding sync_labels
  sync_labels-Safe e l = search (basic, change_from-Safe)

  sync_queue_state_labels-Safe : (e : QueueEntry) → Keeps P (sync_queue_state_labels ctx e)
  unfolding sync_queue_state_labels
  sync_queue_state_labels-Safe e = elim (Option-cases ctx.queue_state_labels) [
    | inl n ↦ rw (n, sync_queue_state_labels) (search basic)
    | inr (l, q) ↦ rw (q, sync_queue_state_labels) (search (basic, sync_labels-Safe))
  ]

  sync_live-Safe : (e : Option QueueEntry) → Keeps P (sync_live ctx e)
  sync_live-Safe none = search basic
  sync_live-Safe (some e) = sync_queue_state_labels-Safe e

  entry_of-Safe : (id : String) → Keeps P (entry_of ctx id)
  unfolding entry_of
  entry_of-Safe id = search basic

  entry_of_some-Safe : (id : Option String) → Keeps P (entry_of_some ctx id)
  entry_of_some-Safe none = search basic
  entry_of_some-Safe (some id) = entry_of-Safe id

  ruleset tick_rules =
      (basic, cleanup_candidate-Safe, sync_live-Safe, entry_of-Safe, entry_of_some-Safe)

  invalidate_blocked-Safe :
      (e : QueueEntry) (reason : String) → Keeps P (invalidate_blocked ctx e reason)
  unfolding invalidate_blocked
  invalidate_blocked-Safe e reason = search tick_rules

  note_blocked-Safe : (e : QueueEntry) (reason : String) → Keeps P (note_blocked ctx e reason)
  unfolding note_blocked
  note_blocked-Safe e reason = search tick_rules

  hold_entry-Safe :
      (e : QueueEntry) (reason : String) (b : Bool) → Keeps P (hold_entry ctx e reason b)
  unfolding hold_entry
  hold_entry-Safe e reason true = search basic
  hold_entry-Safe e reason false = search (basic, invalidate_blocked-Safe, note_blocked-Safe)

  hold_live-Safe : (reason : String) (e : Option QueueEntry) → Keeps P (hold_live ctx reason e)
  hold_live-Safe reason none = search basic
  hold_live-Safe reason (some e) = search (keeps_rules, sanitize_entry-Safe, hold_entry-Safe)

  hold_blocked-Safe : (b : Blocked) → Keeps P (hold_blocked ctx b)
  unfolding hold_blocked
  hold_blocked-Safe b = search (tick_rules, hold_live-Safe)

  validate_in_place-Safe : (e : QueueEntry) (i : ℕ) → Keeps P (validate_in_place ctx e i)
  unfolding validate_in_place
  validate_in_place-Safe e i = search (keeps_rules, check_validation-Safe)

  run_phase-Safe :
      (e : QueueEntry) (t : Turn) (prev : Option QueueEntry) (s : QueueEntryStatus)
      → Known e
      → Keeps P (run_phase ctx e t prev s)
  run_phase-Safe e t prev QueueEntryStatus.queued k = search basic
  run_phase-Safe e t prev QueueEntryStatus.preparing_head k = prepare_entry-Safe st ctx e _ prev
  run_phase-Safe e t prev QueueEntryStatus.validating k = validate_in_place-Safe e _
  run_phase-Safe e t prev QueueEntryStatus.merging k =
      Keeps-if t.is_head _ _ (merge_head-Safe st ctx e (land-Safe e k)) (search basic)
  run_phase-Safe e t prev QueueEntryStatus.evicted k = search basic
  run_phase-Safe e t prev QueueEntryStatus.merged k = search basic
  run_phase-Safe e t prev QueueEntryStatus.dequeued k = search basic
  run_phase-Safe e t prev QueueEntryStatus.superseded k = search basic

  process_turn-Safe : (e : QueueEntry) (t : Turn) → Known e → Keeps P (process_turn ctx e t)
  unfolding process_turn
  process_turn-Safe e t k = search (tick_rules, run_phase-Safe)

  drop_stale-Safe :
      (e : QueueEntry) (id : String) (dep : Option QueueEntry) → Keeps P (drop_stale ctx e id dep)
  unfolding drop_stale
  drop_stale-Safe e id dep = search tick_rules

  guard_dependency-Safe :
      (e : QueueEntry) (t : Turn) (dep : Option String)
      → Known e
      → Keeps P (guard_dependency ctx e t dep)
  unfolding guard_dependency
  guard_dependency-Safe e t none k = process_turn-Safe e t k
  guard_dependency-Safe e t (some id) k = search (tick_rules, process_turn-Safe, drop_stale-Safe)

  after_sanitize-Safe :
      (e : QueueEntry) (t : Turn) (b : Bool) → Known e → Keeps P (after_sanitize ctx e t b)
  after_sanitize-Safe e t true k = search tick_rules
  after_sanitize-Safe e t false k = guard_dependency-Safe e t _ k

  abbrev AllKnown : Option QueueEntry → Type 0
  AllKnown none = Unit
  AllKnown (some e) = Known e

  live-AllKnown : (e : Option QueueEntry) → AllKnown e → AllKnown (live_entry e)
  live-AllKnown none k = tt
  live-AllKnown (some e) k = elim (Bool-cases (is_terminal e.status)) [
    | inl t ↦ rw t tt
    | inr f ↦ rw f k
  ]

  found-AllKnown : (w : World) (id : String) → P w → AllKnown (get_entry w.store id)
  found-AllKnown w id h = elim (Option-cases (get_entry w.store id)) [
    | inl n ↦ rw n tt
    | inr (e, q) ↦ rw q (known w h id e q)
  ]

  take_turn_of-Safe :
      (t : Turn) (e : Option QueueEntry) → AllKnown e → Keeps P (take_turn_of ctx t e)
  take_turn_of-Safe t none k = search basic
  take_turn_of-Safe t (some e) k = search (keeps_rules, sanitize_entry-Safe, after_sanitize-Safe)

  take_turn-Safe : (t : Turn) → Keeps P (take_turn ctx t)
  unfolding take_turn entry_of
  take_turn-Safe t =
      Keeps-reads (λ w. get_entry w.store t.id) _
        (λ w h. take_turn_of-Safe t _ (live-AllKnown _ (found-AllKnown w t.id h)))

  record_verification-Safe :
      (e : QueueEntry) (v : PostMergeVerificationResult) (now : String)
      → Keeps P (record_verification ctx e v now)
  unfolding record_verification
  record_verification-Safe e v now = search basic

  verify_merged_entry-Safe : (e : QueueEntry) → Keeps P (verify_merged_entry ctx e)
  unfolding verify_merged_entry
  verify_merged_entry-Safe e = search (tick_rules, verify-Safe, record_verification-Safe) depth 14

  verify_merged_entries_post_push-Safe : Keeps P (verify_merged_entries_post_push ctx)
  unfolding verify_merged_entries_post_push
  verify_merged_entries_post_push-Safe = search (keeps_rules, verify_merged_entry-Safe)

  pub reconcile-Safe : Keeps P (reconcile ctx)
  unfolding reconcile
  reconcile-Safe =
      search (keeps_rules, hold_blocked-Safe, take_turn-Safe, verify_merged_entries_post_push-Safe)
