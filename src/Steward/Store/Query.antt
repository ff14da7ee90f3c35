-- ===== src/Steward/Store/Query.antt =====
-- packages/merge-steward/src/memory-store.ts: the readings of the store.
pub mod First
use patchrelay.Prelude.{
  ℕ, ltb, leb, ◌==◌, String, ◌=?◌, Bool, true, false, not, ◌&&◌, Option, none, some, List, [], ◌∷◌,
  keep, find, head?, if◌then◌else◌,
}
use patchrelay.Steward.Types.{
  QueueEntry, merged, is_terminal, PostMergeStatus, IncidentRecord, QueueEventRecord,
}
use patchrelay.Steward.Order.{order_active_queue, sort_ready}
use patchrelay.Steward.Store.{Store}
use patchrelay.Steward.Store.Mutate.{rank}

unfoldable pub get_incident : Store → String → Option IncidentRecord
unfolding ◌=?◌
get_incident s id = find (λ i. i.id =? id) s.incidents

-- Without a limit.
unfoldable pub list_events : Store → String → List QueueEventRecord
unfolding ◌=?◌
list_events s entry_id = keep (λ e. e.entry_id =? entry_id) s.events

-- A live entry of the repository for the pull request.
abbrev pub is_live_for : String → ℕ → QueueEntry → Bool
is_live_for repo_id pr_number e =
    (e.repo_id =? repo_id) && e.pr_number == pr_number && not (is_terminal e.status)

abbrev better : Option QueueEntry → QueueEntry → QueueEntry
better none e = e
better (some best) e = if ltb e.position best.position then e else best

best_entry : (QueueEntry → Bool) → Option QueueEntry → List QueueEntry → Option QueueEntry
best_entry p best [] = best
best_entry p best (e ∷ es) = best_entry p (if p e then some (better best e) else best) es

-- The live entry of a pull request that has the lowest position.
unfoldable pub get_entry_by_pr : Store → String → ℕ → Option QueueEntry
unfolding best_entry ◌=?◌
get_entry_by_pr s repo_id pr_number = best_entry (is_live_for repo_id pr_number) none s.entries

unfoldable pub list_active : Store → String → List QueueEntry
unfolding order_active_queue ◌=?◌
list_active s repo_id =
    order_active_queue (keep (λ e. (e.repo_id =? repo_id) && not (is_terminal e.status)) s.entries)

unfoldable pub get_head : Store → String → Option QueueEntry
unfolding list_active
get_head s repo_id = head? (list_active s repo_id)

-- Every entry of the repository, by priority and position.
unfoldable pub list_all : Store → String → List QueueEntry
unfolding sort_ready ◌=?◌
list_all s repo_id = sort_ready (keep (λ e. e.repo_id =? repo_id) s.entries)

unfoldable pub place_by_position : QueueEntry → List QueueEntry → List QueueEntry
place_by_position x [] = x ∷ []
place_by_position x (y ∷ ys) =
    if leb x.position y.position then x ∷ y ∷ ys else y ∷ place_by_position x ys

unfoldable pub sort_by_position : List QueueEntry → List QueueEntry
unfolding place_by_position
sort_by_position [] = []
sort_by_position (x ∷ xs) = place_by_position x (sort_by_position xs)

abbrev unsettled : Option PostMergeStatus → Bool
unsettled none = true
unsettled (some PostMergeStatus.pending) = true
unsettled (some PostMergeStatus.unknown) = true
unsettled (some PostMergeStatus.pass) = false
unsettled (some PostMergeStatus.fail) = false

-- The merged entries whose post-merge checks have not passed or failed.
unfoldable pub list_post_merge_pending : Store → String → List QueueEntry
unfolding sort_by_position ◌=?◌
list_post_merge_pending s repo_id = sort_by_position (
    keep
      (λ e. (e.repo_id =? repo_id) && rank e.status == rank merged && unsettled e.post_merge_status)
      s.entries)
