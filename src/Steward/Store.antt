-- ===== src/Steward/Store.antt =====
-- packages/merge-steward/src/memory-store.ts: the queue's store. The Map of entries is the list of
-- its values in insertion order, keyed by `id`; the events and incidents are arrays.
pub mod Mutate
pub mod Query
pub mod Lookup
pub mod Sound
pub mod Reach
pub mod Traced
mod Tests
use patchrelay.Prelude.{
  ℕ, suc, ◌+◌, ltb, leb, ◌==◌, String, ◌=?◌, Bool, true, false, not, ◌&&◌, ◌||◌, Option, none, some,
  List, [], ◌∷◌, ◌++◌, map, keep, find, head?, if◌then◌else◌, or_else, opt_eq, truthy, template,
  show, is_some,
}
use patchrelay.Steward.Types.{
  QueueEntry, QueueEntryStatus, queued, dequeued, merged, is_terminal, PostMergeStatus,
  CandidateKind, IncidentRecord, QueueEventRecord,
}
use patchrelay.Steward.Order.{order_active_queue, sort_ready}

pub record Store : Type 0 where
  pub entries : List QueueEntry
  pub incidents : List IncidentRecord
  pub events : List QueueEventRecord
  pub next_event_id : ℕ

-- The two readings of the clock that a mutation takes: for the entry and for its event.
pub record Stamp : Type 0 where
  pub changed_at : String
  pub logged_at : String

abbrev pub empty : Store
empty = record { entries = []; incidents = []; events = []; next_event_id = 1 }

-- `Partial<Pick<QueueEntry, …>>`: `none` is undefined, `some none` is null.
pub record Patch : Type 0 where
  pub head_sha : Option String
  pub base_sha : Option String
  pub ci_run_id : Option (Option String)
  pub ci_retries : Option ℕ
  pub retry_attempts : Option ℕ
  pub last_failed_base_sha : Option (Option String)
  pub candidate_kind : Option (Option CandidateKind)
  pub candidate_policy_fingerprint : Option (Option String)
  pub candidate_ref : Option (Option String)
  pub candidate_sha : Option (Option String)
  pub candidate_based_on : Option (Option String)
  pub wait_detail : Option (Option String)
  pub post_merge_status : Option (Option PostMergeStatus)
  pub post_merge_sha : Option (Option String)
  pub post_merge_summary : Option (Option String)
  pub post_merge_checked_at : Option (Option String)

-- `{}`; a missing patch changes as little.
abbrev pub no_patch : Patch
no_patch = record {
  head_sha = none;
  base_sha = none;
  ci_run_id = none;
  ci_retries = none;
  retry_attempts = none;
  last_failed_base_sha = none;
  candidate_kind = none;
  candidate_policy_fingerprint = none;
  candidate_ref = none;
  candidate_sha = none;
  candidate_based_on = none;
  wait_detail = none;
  post_merge_status = none;
  post_merge_sha = none;
  post_merge_summary = none;
  post_merge_checked_at = none;
}

unfoldable pub find_entry : String → List QueueEntry → Option QueueEntry
unfolding ◌=?◌
find_entry id entries = find (λ e. e.id =? id) entries

unfoldable pub get_entry : Store → String → Option QueueEntry
unfolding find_entry
get_entry s id = find_entry id s.entries

-- `entries.set(entry.id, entry)`.
unfoldable pub set_entry : QueueEntry → List QueueEntry → List QueueEntry
unfolding ◌=?◌
set_entry entry [] = entry ∷ []
set_entry entry (e ∷ es) = if e.id =? entry.id then entry ∷ es else e ∷ set_entry entry es

-- Assignments to the fields of the entry that the Map holds under an id.
unfoldable pub modify : String → (QueueEntry → QueueEntry) → List QueueEntry → List QueueEntry
unfolding ◌=?◌
modify id f [] = []
modify id f (e ∷ es) = if e.id =? id then f e ∷ es else e ∷ modify id f es

-- `entry?.baseSha || undefined`.
abbrev logged_base : Option QueueEntry → Option String
logged_base none = none
logged_base (some e) = if truthy e.base_sha then some e.base_sha else none

unfoldable pub append_event :
    Store → String → Option QueueEntryStatus → QueueEntryStatus → Option String → String → Store
unfolding get_entry
append_event s entry_id from to detail at = record s {
  events =
      s.events
      ++ record {
        id = s.next_event_id;
        entry_id = entry_id;
        at = at;
        from_status = from;
        to_status = to;
        detail = detail;
        base_sha = logged_base (get_entry s entry_id);
      }
        ∷ [];
  next_event_id = suc s.next_event_id;
}

unfoldable pub insert : Store → QueueEntry → Stamp → Store
unfolding set_entry append_event
insert s entry t =
    append_event (record s { entries = set_entry entry s.entries }) entry.id none entry.status none
      t.logged_at
