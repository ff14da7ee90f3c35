-- ===== src/Steward/Schedule.antt =====
-- packages/merge-steward/src/queue-order.ts: which entries of the active queue may advance.
pub mod Parents
mod Tests
use patchrelay.Prelude.{
  ltb, String, ◌=?◌, Bool, true, false, not, ◌&&◌, ◌||◌, Option, none, some, List, [], ◌∷◌,
  if◌then◌else◌, truthy, template, is_some, or_else,
}
use patchrelay.Steward.Types.{QueueEntry, QueueEntryStatus}
use patchrelay.Steward.Downstream.{has}
use patchrelay.Steward.Order.{by_branch}

pub record Blocked : Type 0 where
  pub entry : QueueEntry
  pub reason : String

pub record Schedule : Type 0 where
  pub ready : List QueueEntry
  pub blocked : List Blocked

abbrev later : QueueEntry → Option QueueEntry → QueueEntry
later e none = e
later e (some current) = if ltb current.position e.position then e else current

-- `latestByBranch.get(branch)`: of the entries with the branch, the first with the highest position.
unfoldable pub latest_from : Option QueueEntry → List QueueEntry → String → Option QueueEntry
unfolding ◌=?◌
latest_from current [] branch = current
latest_from current (e ∷ es) branch =
    latest_from (if e.branch =? branch then some (later e current) else current) es branch

abbrev pub merged_status : QueueEntryStatus → Bool
merged_status QueueEntryStatus.merged = true
merged_status QueueEntryStatus.queued = false
merged_status QueueEntryStatus.preparing_head = false
merged_status QueueEntryStatus.validating = false
merged_status QueueEntryStatus.merging = false
merged_status QueueEntryStatus.evicted = false
merged_status QueueEntryStatus.dequeued = false
merged_status QueueEntryStatus.superseded = false

abbrev pub status_text : QueueEntryStatus → String
status_text QueueEntryStatus.merged = "merged"
status_text QueueEntryStatus.queued = "queued"
status_text QueueEntryStatus.preparing_head = "preparing_head"
status_text QueueEntryStatus.validating = "validating"
status_text QueueEntryStatus.merging = "merging"
status_text QueueEntryStatus.evicted = "evicted"
status_text QueueEntryStatus.dequeued = "dequeued"
status_text QueueEntryStatus.superseded = "superseded"

abbrev pub is_merged : Option QueueEntry → Bool
is_merged none = false
is_merged (some e) = merged_status e.status

-- `activeParent && readyIds.has(activeParent.id)`.
abbrev pub parent_ready : List String → Option QueueEntry → Bool
parent_ready ids none = false
parent_ready ids (some parent) = has ids parent.id

-- Whether an entry may advance, given the ids of the ready entries before it.
unfoldable pub may_advance :
    List QueueEntry → List QueueEntry → String → List String → Option String → Bool
unfolding by_branch latest_from has ◌=?◌
may_advance active all base_branch ids none = true
may_advance active all base_branch ids (some parent_branch) =
    if not (truthy parent_branch) || (parent_branch =? base_branch)
    then true
    else if parent_ready ids (by_branch active parent_branch)
    then true
    else not (is_some (by_branch active parent_branch))
      && is_merged (latest_from none all parent_branch)

abbrev block_reason : String → Option QueueEntry → Option QueueEntry → String
block_reason branch (some parent) latest =
    template ("stack parent " ∷ branch ∷ " is itself blocked" ∷ [])
block_reason branch none (some latest) = template (
    "stack parent "
    ∷ branch
    ∷ " is "
    ∷ status_text latest.status
    ∷ "; waiting for a successful parent entry"
    ∷ [])
block_reason branch none none =
    template ("stack parent " ∷ branch ∷ " is not known to the queue" ∷ [])

unfoldable pub schedule_from :
    List QueueEntry → List QueueEntry → String → List String → List QueueEntry → Schedule
unfolding may_advance by_branch latest_from template
schedule_from active all base_branch ids [] = record { ready = []; blocked = [] }
schedule_from active all base_branch ids (entry ∷ rest) =
    let on = schedule_from active all base_branch (entry.id ∷ ids) rest in
    let off = schedule_from active all base_branch ids rest in
    let branch = or_else entry.base_ref_name "" in
    let stop : Blocked = record {
      entry = entry;
      reason = block_reason branch (by_branch active branch) (latest_from none all branch);
    } in
    if may_advance active all base_branch ids entry.base_ref_name
    then record { ready = entry ∷ on.ready; blocked = on.blocked }
    else record { ready = off.ready; blocked = stop ∷ off.blocked }

unfoldable pub build_dependency_ready_schedule :
    List QueueEntry → List QueueEntry → String → Schedule
unfolding schedule_from
build_dependency_ready_schedule active all base_branch =
    schedule_from active all base_branch [] active
