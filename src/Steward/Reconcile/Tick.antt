-- ===== src/Steward/Reconcile/Tick.antt =====
-- packages/merge-steward/src/reconciler.ts: one tick over the active queue, and the post-merge checks
-- of what has landed.
use patchrelay.Prelude.{
  ℕ, suc, String, ◌=?◌, Bool, true, false, not, ◌&&◌, ◌||◌, ◌==◌, Option, none, some, List, [], ◌∷◌,
  take, head?, if◌then◌else◌, template, show, short, or_else, opt_eq, present, truthy, is_some,
}
use patchrelay.Steward.Types.{
  QueueEntry, QueueEntryStatus, PostMergeStatus, is_terminal, preparing_head, merged,
}
use patchrelay.Steward.Schedule.{
  Blocked, Schedule, build_dependency_ready_schedule, merged_status, status_text,
}
use patchrelay.Steward.Store.{no_patch, get_entry}
use patchrelay.Steward.Store.Query.{list_active, list_all, list_post_merge_pending}
use patchrelay.Steward.Exec.{
  Failure, pure, raise, gets, attempt, skip, for_each, for_each_until, ◌>>=◌, ◌>>◌,
}
use patchrelay.Steward.Context.{
  Context, Act, World, emit, transition_to, invalidated, stack_dependency_waiting, promoted,
  post_merge_verification_started, post_merge_verification_completed, invalidation_patch,
}
use patchrelay.Steward.Reconcile.Evict.{cleanup_candidate, position_of}
use patchrelay.Steward.Reconcile.PostMerge.{
  PostMergeVerificationResult, verify_post_merge_status, sha_to_verify,
}
use patchrelay.Steward.Reconcile.Sanitize.{sanitize_entry}
use patchrelay.Steward.Reconcile.Prepare.{prepare_entry}
use patchrelay.Steward.Reconcile.Validate.{check_validation}
use patchrelay.Steward.Reconcile.Merge.{merge_head}
use patchrelay.Steward.Reconcile.Labels.{sync_queue_state_labels}

abbrev has_candidate : QueueEntry → Bool
has_candidate e = present e.candidate_sha || present e.candidate_ref || is_some e.candidate_kind

-- `!dep || dep.status` is dequeued, evicted or superseded.
abbrev pub is_stale : Option QueueEntry → Bool
is_stale none = true
is_stale (some dep) = is_terminal dep.status && not (merged_status dep.status)

abbrev dependency_text : Option QueueEntry → String
dependency_text none = "removed"
dependency_text (some dep) = status_text dep.status

abbrev post_merge_text : PostMergeStatus → String
post_merge_text PostMergeStatus.pending = "pending"
post_merge_text PostMergeStatus.pass = "pass"
post_merge_text PostMergeStatus.fail = "fail"
post_merge_text PostMergeStatus.unknown = "unknown"

-- The status after which the tick stops: its schedule is out of date.
abbrev pub left_queue : QueueEntryStatus → Bool
left_queue QueueEntryStatus.evicted = true
left_queue QueueEntryStatus.dequeued = true
left_queue QueueEntryStatus.queued = false
left_queue QueueEntryStatus.preparing_head = false
left_queue QueueEntryStatus.validating = false
left_queue QueueEntryStatus.merging = false
left_queue QueueEntryStatus.merged = false
left_queue QueueEntryStatus.superseded = false

-- The entry again, if it is still in the queue.
abbrev pub live_entry : Option QueueEntry → Option QueueEntry
live_entry none = none
live_entry (some e) = if is_terminal e.status then none else some e

-- A ready entry of the schedule with its place: whether it is first, and the entry before it.
pub record Turn : Type 0 where
  pub id : String
  pub place : ℕ
  pub is_head : Bool
  pub previous : Option String

turns_from : ℕ → Option String → List QueueEntry → List Turn
turns_from i previous [] = []
turns_from i previous (e ∷ es) =
    record { id = e.id; place = i; is_head = i == 0; previous = previous }
    ∷ turns_from (suc i) (some e.id) es

unfoldable pub turns : List QueueEntry → List Turn
unfolding turns_from
turns ready = turns_from 0 none ready

module _ (ctx : Context) where
  unfoldable pub entry_of : String → Act (Option QueueEntry)
  entry_of id = gets (λ w. get_entry w.store id)

  abbrev pub entry_of_some : Option String → Act (Option QueueEntry)
  entry_of_some none = pure none
  entry_of_some (some id) = entry_of id

  abbrev schedule_of : World → Schedule
  schedule_of w =
      build_dependency_ready_schedule (list_active w.store ctx.repo_id)
        (list_all w.store ctx.repo_id) ctx.base_branch

  unfoldable pub invalidate_blocked : QueueEntry → String → Act (Unit {0})
  invalidate_blocked entry reason = do
    emit entry invalidated (some reason)
    emit entry stack_dependency_waiting (some reason)
    cleanup_candidate ctx entry
    let base = invalidation_patch
    transition_to ctx entry.id preparing_head (record base { wait_detail = some (some reason) })
        (some (template ("invalidated: " ∷ reason ∷ [])))

  unfoldable pub note_blocked : QueueEntry → String → Act (Unit {0})
  note_blocked entry reason = do
    emit entry stack_dependency_waiting (some reason)
    transition_to ctx entry.id entry.status (record no_patch { wait_detail = some (some reason) })
        (some reason)

  unfoldable pub hold_entry : QueueEntry → String → Bool → Act (Unit {0})
  hold_entry entry reason true = skip
  hold_entry entry reason false =
      if has_candidate entry
      then invalidate_blocked entry reason
      else if opt_eq entry.wait_detail (some reason)
      then skip
      else note_blocked entry reason

  abbrev pub hold_live : String → Option QueueEntry → Act (Unit {0})
  hold_live reason none = skip
  hold_live reason (some entry) = sanitize_entry ctx entry >>= hold_entry entry reason

  -- The loop over the blocked entries.
  unfoldable pub hold_blocked : Blocked → Act (Unit {0})
  hold_blocked blocked =
      entry_of blocked.entry.id >>= λ found. hold_live blocked.reason (live_entry found)

  -- What the entry's phase asks for.
  unfoldable pub validate_in_place : QueueEntry → ℕ → Act (Unit {0})
  validate_in_place entry i = do
    fresh ← gets (λ w. list_active w.store ctx.repo_id)
    schedule ← gets schedule_of
    check_validation ctx entry (record {
      all_active = fresh;
      index = some (or_else (position_of entry.id fresh) i);
      is_landing_head = is_first entry (head? schedule.ready);
    })
    where
      is_first : QueueEntry → Option QueueEntry → Bool
      is_first e none = false
      is_first e (some first) = first.id =? e.id

  abbrev pub run_phase : QueueEntry → Turn → Option QueueEntry → QueueEntryStatus → Act (Unit {0})
  run_phase entry turn prev QueueEntryStatus.queued = do
    emit entry promoted none
    transition_to ctx entry.id preparing_head no_patch (some "promoted")
  run_phase entry turn prev QueueEntryStatus.preparing_head =
      prepare_entry ctx entry turn.is_head prev
  run_phase entry turn prev QueueEntryStatus.validating = validate_in_place entry turn.place
  run_phase entry turn prev QueueEntryStatus.merging =
      if turn.is_head then merge_head ctx entry else skip
  run_phase entry turn prev QueueEntryStatus.evicted = skip
  run_phase entry turn prev QueueEntryStatus.merged = skip
  run_phase entry turn prev QueueEntryStatus.dequeued = skip
  run_phase entry turn prev QueueEntryStatus.superseded = skip

  abbrev pub sync_live : Option QueueEntry → Act (Unit {0})
  sync_live none = skip
  sync_live (some e) = sync_queue_state_labels ctx e

  -- `post && (post.status is evicted or dequeued)` stops the tick.
  abbrev goes_on : Option QueueEntry → Bool
  goes_on none = true
  goes_on (some e) = not (left_queue e.status)

  -- `catch (error) { throw new Error(...) }` gives the error the place of the failure.
  abbrev pub wrapped : QueueEntry → Failure → Failure
  wrapped entry f = record {
    message = template (
        "[PR #"
        ∷ show entry.pr_number
        ∷ " "
        ∷ entry.id
        ∷ " phase="
        ∷ status_text entry.status
        ∷ "] "
        ∷ f.message
        ∷ []);
    stderr = none;
    stdout = none;
    exit_code = none;
    signal = none;
    timed_out = false;
  }

  unfoldable pub process_turn : QueueEntry → Turn → Act Bool
  process_turn entry turn = do
    prev ← entry_of_some turn.previous
    attempt (run_phase entry turn prev entry.status) (λ f. raise (wrapped entry f))
    post ← entry_of entry.id
    sync_live post
    pure (goes_on post)

  -- An entry built upon one that has left the queue is sent back.
  unfoldable pub drop_stale : QueueEntry → String → Option QueueEntry → Act Bool
  drop_stale entry dep_id dep = do
    emit entry invalidated
        (some (template ("dependency " ∷ dep_id ∷ " is " ∷ dependency_text dep ∷ [])))
    cleanup_candidate ctx entry
    transition_to ctx entry.id preparing_head invalidation_patch
        (some (template ("stale dependency " ∷ dependency_text dep ∷ [])))
    pure true

  unfoldable pub guard_dependency : QueueEntry → Turn → Option String → Act Bool
  guard_dependency entry turn none = process_turn entry turn
  guard_dependency entry turn (some dep_id) =
      if not (truthy dep_id)
      then process_turn entry turn
      else entry_of dep_id >>= λ dep.
          if is_stale dep then drop_stale entry dep_id dep else process_turn entry turn

  -- A sanitized entry ends the tick.
  abbrev pub after_sanitize : QueueEntry → Turn → Bool → Act Bool
  after_sanitize entry turn true = do sanitized ← entry_of entry.id; sync_live sanitized; pure false
  after_sanitize entry turn false = guard_dependency entry turn entry.candidate_based_on

  abbrev pub take_turn_of : Turn → Option QueueEntry → Act Bool
  take_turn_of turn none = pure true
  take_turn_of turn (some entry) = sanitize_entry ctx entry >>= after_sanitize entry turn

  -- One round of the loop over the ready entries; `false` is `break`.
  unfoldable pub take_turn : Turn → Act Bool
  take_turn turn = entry_of turn.id >>= λ found. take_turn_of turn (live_entry found)

  -- The verification that is recorded: in full where it is news, else the time alone.
  abbrev is_news : QueueEntry → PostMergeVerificationResult → Bool
  is_news entry v =
      not (
        post_merge_text (or_else entry.post_merge_status PostMergeStatus.pending)
        =? post_merge_text v.post_merge_status)
      || not (opt_eq entry.post_merge_summary (some v.post_merge_summary))
      || not (is_some entry.post_merge_checked_at)

  unfoldable pub record_verification :
      QueueEntry → PostMergeVerificationResult → String → Act (Unit {0})
  record_verification entry v now =
      if is_news entry v
      then transition_to ctx entry.id merged
          (record no_patch {
            post_merge_status = some (some v.post_merge_status);
            post_merge_sha = some (some v.post_merge_sha);
            post_merge_summary = some (some v.post_merge_summary);
            post_merge_checked_at = some (some now);
          })
          (some (template ("post-merge verification: " ∷ post_merge_text v.post_merge_status ∷ [])))
      else transition_to ctx entry.id merged
          (record no_patch { post_merge_checked_at = some (some now) })
          (some "post-merge verification")

  unfoldable pub verify_merged_entry : QueueEntry → Act (Unit {0})
  verify_merged_entry entry = if not (truthy (sha_to_verify entry)) then skip else do
    emit entry post_merge_verification_started
        (some (template ("post-merge check on " ∷ short 8 (sha_to_verify entry) ∷ [])))
    v ← verify_post_merge_status ctx entry
    emit entry post_merge_verification_completed (
        some (
          template (
            "post-merge checks "
            ∷ post_merge_text v.post_merge_status
            ∷ ": "
            ∷ v.post_merge_summary
            ∷ [])))
    now ← gets (λ w. ctx.services.now w.history)
    record_verification entry v now
    post ← entry_of entry.id
    sync_live post

  unfoldable pub verify_merged_entries_post_push : Act (Unit {0})
  verify_merged_entries_post_push = do
    pending ← gets (λ w. list_post_merge_pending w.store ctx.repo_id)
    for_each pending verify_merged_entry

  unfoldable pub reconcile : Act (Unit {0})
  reconcile = do
    schedule ← gets schedule_of
    for_each (take ctx.speculative_depth schedule.blocked) hold_blocked
    for_each_until (turns (take ctx.speculative_depth schedule.ready)) take_turn
    verify_merged_entries_post_push
