-- ===== src/Steward/Store/Tests.antt =====
-- packages/merge-steward/src/memory-store.ts: a store after an admission and a transition.
use patchrelay.Prelude.{◌≡◌, refl, ◌≤◌, ◌⊎◌, none, some, In, All}
use patchrelay.Steward.Store.Query.{get_entry_by_pr}
use patchrelay.Steward.Store.Query.First.{Live, get_entry_by_pr-first}
use patchrelay.Steward.Types.{QueueEntry, queued, preparing_head}
use patchrelay.Steward.Store.{Store, Stamp, empty, insert, no_patch}
use patchrelay.Steward.Store.Mutate.{transition}
use patchrelay.Steward.Store.Sound.{Sound}
use patchrelay.Steward.Store.Reach.{Reachable, start, next, inserts, moves, Reachable-Sound}
use patchrelay.Steward.Tests.{sample_entry}

abbrev stamp : Stamp
stamp = record { changed_at = "t1"; logged_at = "t1" }

abbrev admitted : QueueEntry
admitted = sample_entry "e1" 1 queued none

abbrev one_moved : Store
one_moved =
    transition (insert empty admitted stamp) "e1" preparing_head no_patch (some "promoted") stamp

one_moved-Reachable : Reachable one_moved
one_moved-Reachable = next (next start (inserts empty admitted stamp refl)) (moves _ _ _ _ _ _)

Reachable-Sound_example : Sound one_moved
Reachable-Sound_example = Reachable-Sound one_moved one_moved-Reachable

get_entry_by_pr-first_example :
    ((get_entry_by_pr one_moved "repo" 1 ≡ none) × All (λ x. ¬ Live "repo" 1 x) one_moved.entries)
    ⊎ ((r : QueueEntry) × (get_entry_by_pr one_moved "repo" 1 ≡ some r)
        × In r one_moved.entries
        × Live "repo" 1 r
        × All (λ x. Live "repo" 1 x → r.position ≤ x.position) one_moved.entries)
get_entry_by_pr-first_example = get_entry_by_pr-first one_moved "repo" 1
