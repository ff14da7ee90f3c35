-- ===== src/Steward/Store/Mutate.antt =====
-- packages/merge-steward/src/memory-store.ts: the mutations of entries, each with its event.
use patchrelay.Prelude.{
  ℕ, ◌+◌, ◌==◌, String, ◌=?◌, ◌||◌, Option, none, some, [], ◌∷◌, ◌++◌, if◌then◌else◌, or_else,
  opt_eq, template, show,
}
use patchrelay.Steward.Types.{
  QueueEntry, QueueEntryStatus, queued, dequeued, is_terminal, IncidentRecord,
}
use patchrelay.Steward.Store.{Store, Stamp, Patch, no_patch, get_entry, modify, append_event}

-- `if (patch.field !== undefined) entry.field = patch.field`, for each field of the patch.
unfoldable pub apply_patch : Patch → QueueEntry → QueueEntry
apply_patch p e = record e {
  head_sha = or_else p.head_sha e.head_sha;
  base_sha = or_else p.base_sha e.base_sha;
  ci_run_id = or_else p.ci_run_id e.ci_run_id;
  ci_retries = or_else p.ci_retries e.ci_retries;
  retry_attempts = or_else p.retry_attempts e.retry_attempts;
  last_failed_base_sha = or_else p.last_failed_base_sha e.last_failed_base_sha;
  candidate_kind = or_else p.candidate_kind e.candidate_kind;
  candidate_policy_fingerprint =
      or_else p.candidate_policy_fingerprint e.candidate_policy_fingerprint;
  candidate_ref = or_else p.candidate_ref e.candidate_ref;
  candidate_sha = or_else p.candidate_sha e.candidate_sha;
  candidate_based_on = or_else p.candidate_based_on e.candidate_based_on;
  wait_detail = or_else p.wait_detail e.wait_detail;
  post_merge_status = or_else p.post_merge_status e.post_merge_status;
  post_merge_sha = or_else p.post_merge_sha e.post_merge_sha;
  post_merge_summary = or_else p.post_merge_summary e.post_merge_summary;
  post_merge_checked_at = or_else p.post_merge_checked_at e.post_merge_checked_at;
}

-- `from !== to`, on statuses.
abbrev pub rank : QueueEntryStatus → ℕ
rank QueueEntryStatus.queued = 0
rank QueueEntryStatus.preparing_head = 1
rank QueueEntryStatus.validating = 2
rank QueueEntryStatus.merging = 3
rank QueueEntryStatus.evicted = 4
rank QueueEntryStatus.merged = 5
rank QueueEntryStatus.dequeued = 6
rank QueueEntryStatus.superseded = 7

-- The stamp of the first transition into a terminal status.
abbrev decided : QueueEntryStatus → Option String → String → Option String
decided to none now = if is_terminal to then some now else none
decided to (some at) now = some at

-- The wait detail goes when the status changes, unless the patch gives one.
abbrev waiting :
    QueueEntryStatus → QueueEntryStatus → Option (Option String) → Option String → Option String
waiting from to (some given) old = old
waiting from to none old = if rank from == rank to then old else none

-- What a transition does to its entry.
unfoldable pub moved : QueueEntryStatus → Patch → String → QueueEntry → QueueEntry
unfolding apply_patch
moved to p now e =
    let stamped = record e {
      status = to;
      updated_at = now;
      decided_at = decided to e.decided_at now;
    } in
    let patched = apply_patch p stamped in
    record patched { wait_detail = waiting e.status to p.wait_detail patched.wait_detail }

unfoldable pub transition :
    Store → String → QueueEntryStatus → Patch → Option String → Stamp → Store
unfolding get_entry modify moved append_event
transition s id to p detail t = elim (get_entry s id) [
  | none ↦ s
  | some e ↦
      append_event (record s { entries = modify id (moved to p t.changed_at) s.entries }) id
        (some e.status) to detail t.logged_at
]

unfoldable pub dequeue : Store → String → Stamp → Store
unfolding transition
dequeue s id t = transition s id dequeued no_patch none t

-- The fields that both resets clear.
abbrev cleared : String → QueueEntry → QueueEntry
cleared now e = record e {
  status = queued;
  ci_run_id = none;
  ci_retries = 0;
  retry_attempts = 0;
  last_failed_base_sha = none;
  candidate_kind = none;
  candidate_policy_fingerprint = none;
  candidate_ref = none;
  candidate_sha = none;
  candidate_based_on = none;
  wait_detail = none;
  updated_at = now;
}

unfoldable pub with_head : String → String → QueueEntry → QueueEntry
with_head new_head_sha now e =
    let reset = cleared now e in
    record reset {
      head_sha = new_head_sha;
      generation = e.generation + 1;
      post_merge_status = none;
      post_merge_sha = none;
      post_merge_summary = none;
      post_merge_checked_at = none;
    }

unfoldable pub update_head : Store → String → String → Stamp → Store
unfolding get_entry modify with_head append_event
update_head s id new_head_sha t = elim (get_entry s id) [
  | none ↦ s
  | some e ↦
      if is_terminal e.status
      then s
      else append_event
          (record s { entries = modify id (with_head new_head_sha t.changed_at) s.entries }) id
          (some e.status) queued
          (some (template ("updateHead: generation " ∷ show (e.generation + 1) ∷ []))) t.logged_at
]

unfoldable pub with_base : Option String → String → QueueEntry → QueueEntry
with_base base_ref_name now e =
    let reset = cleared now e in record reset { base_ref_name = base_ref_name }

unfoldable pub update_base_ref : Store → String → Option String → Option String → Stamp → Store
unfolding get_entry modify with_base append_event ◌=?◌
update_base_ref s id base_ref_name detail t = elim (get_entry s id) [
  | none ↦ s
  | some e ↦
      if is_terminal e.status || opt_eq e.base_ref_name base_ref_name
      then s
      else append_event
          (record s { entries = modify id (with_base base_ref_name t.changed_at) s.entries }) id
          (some e.status) queued
          (some (
            or_else detail
              (template ("base ref changed to " ∷ or_else base_ref_name "(default)" ∷ []))))
          t.logged_at
]

unfoldable pub with_priority : ℕ → String → QueueEntry → QueueEntry
with_priority priority now e = record e { priority = priority; updated_at = now }

unfoldable pub update_priority : Store → String → ℕ → Option String → Stamp → Store
unfolding get_entry modify with_priority append_event
update_priority s id priority detail t = elim (get_entry s id) [
  | none ↦ s
  | some e ↦
      if e.priority == priority
      then s
      else append_event
          (record s { entries = modify id (with_priority priority t.changed_at) s.entries }) id
          (some e.status) e.status
          (some (or_else detail (template ("priority updated to " ∷ show priority ∷ []))))
          t.logged_at
]

unfoldable pub insert_incident : Store → IncidentRecord → Store
insert_incident s incident = record s { incidents = s.incidents ++ incident ∷ [] }
