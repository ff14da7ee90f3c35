-- ===== src/Steward/Order.antt =====
-- packages/merge-steward/src/queue-order.ts: the order of the active queue. `Array.prototype.sort` is
-- stable, so it is an insertion sort here.
pub mod Sorted
pub mod Ends
pub mod Stacks
pub mod Once
pub mod Placed
mod Tests
use patchrelay.Prelude.{
  ℕ, zero, suc, ◌-◌, ltb, leb, ◌==◌, String, ◌=?◌, Bool, false, not, ◌&&◌, ◌||◌, Option, none, some,
  List, [], ◌∷◌, ◌++◌, length, keep, find_last, if◌then◌else◌, truthy,
}
use patchrelay.Steward.Types.{QueueEntry}
use patchrelay.Steward.Downstream.{has}

-- `compareReady(left, right) <= 0`: `left` may stand before `right`.
unfoldable pub compare_ready : QueueEntry → QueueEntry → Bool
compare_ready left right =
    ltb right.priority left.priority
    || (right.priority == left.priority && leb left.position right.position)

unfoldable pub insert_ready : QueueEntry → List QueueEntry → List QueueEntry
unfolding compare_ready
insert_ready x [] = x ∷ []
insert_ready x (y ∷ ys) = if compare_ready x y then x ∷ y ∷ ys else y ∷ insert_ready x ys

-- `entries.sort(compareReady)`.
unfoldable pub sort_ready : List QueueEntry → List QueueEntry
unfolding insert_ready
sort_ready [] = []
sort_ready (x ∷ xs) = insert_ready x (sort_ready xs)

-- `byBranch.get(branch)`: of two entries with one branch the later is in the map.
unfoldable pub by_branch : List QueueEntry → String → Option QueueEntry
unfolding ◌=?◌
by_branch entries branch = find_last (λ e. e.branch =? branch) entries

-- `entry.baseRefName ? byBranch.get(entry.baseRefName) : undefined`.
unfoldable pub parent_in : List QueueEntry → Option String → Option QueueEntry
unfolding by_branch
parent_in entries none = none
parent_in entries (some base) = if truthy base then by_branch entries base else none

abbrev pub parent_of : List QueueEntry → QueueEntry → Option QueueEntry
parent_of entries entry = parent_in entries entry.base_ref_name

abbrev is_child_of : String → Option QueueEntry → Bool
is_child_of id none = false
is_child_of id (some parent) = parent.id =? id

-- `children.get(id) ?? []`: the entries whose parent has the id, in the order of the list.
unfoldable pub children_of : List QueueEntry → String → List QueueEntry
unfolding parent_in ◌=?◌
children_of entries id = keep (λ e. is_child_of id (parent_of entries e)) entries

-- `remainingParents`: the last value written for a key is in front. The source's counts may go below
-- 0 where ids are not unique; they are only ever compared with 1, which 0 answers the same.
abbrev pub Counts : Type 0
Counts = List (String × ℕ)

unfoldable pub count_of : Counts → String → ℕ
unfolding ◌=?◌
count_of [] id = 0
count_of ((k, n) ∷ counts) id = if k =? id then n else count_of counts id

abbrev parents_count : Option QueueEntry → ℕ
parents_count none = 0
parents_count (some parent) = 1

unfoldable pub initial_counts : List QueueEntry → List QueueEntry → Counts → Counts
unfolding parent_in
initial_counts entries [] counts = counts
initial_counts entries (e ∷ rest) counts =
    initial_counts entries rest ((e.id, parents_count (parent_of entries e)) ∷ counts)

pub record Walk : Type 0 where
  pub ready : List QueueEntry
  pub counts : Counts
  pub emitted : List String
  pub ordered : List QueueEntry

-- The loop over the children of an entry that was just emitted.
unfoldable pub release : List QueueEntry → Walk → Walk
unfolding count_of sort_ready
release [] w = w
release (child ∷ children) w =
    let n = count_of w.counts child.id in
    let counted = record w { counts = (child.id, n - 1) ∷ w.counts } in
    release children
      (if n == 1 then record counted { ready = sort_ready (w.ready ++ child ∷ []) } else counted)

-- One round of the `while` loop, for the entry that `ready.shift()` gives.
unfoldable pub visit : List QueueEntry → QueueEntry → Walk → Walk
unfolding release has children_of
visit entries entry w =
    if has w.emitted entry.id
    then w
    else release (children_of entries entry.id)
        (record w { emitted = entry.id ∷ w.emitted; ordered = w.ordered ++ entry ∷ [] })

-- `while (ready.length > 0)`, with fuel.
unfoldable pub drain : ℕ → List QueueEntry → Walk → Walk
unfolding visit
drain zero entries w = w
drain (suc fuel) entries w = elim w.ready [
  | [] ↦ w
  | entry ∷ rest ↦ drain fuel entries (visit entries entry (record w { ready = rest }))
]

unfoldable pub start : List QueueEntry → Walk
unfolding count_of initial_counts sort_ready
start entries =
    let counts = initial_counts entries entries [] in
    record {
      ready = sort_ready (keep (λ e. count_of counts e.id == 0) entries);
      counts = counts;
      emitted = [];
      ordered = [];
    }

unfoldable pub walk : List QueueEntry → Walk
unfolding drain start
walk entries = drain (suc (length entries)) entries (start entries)

-- The entries that the loop never reached: a malformed stack.
unfoldable pub malformed : List QueueEntry → List QueueEntry
unfolding walk has sort_ready
malformed entries = sort_ready (keep (λ e. not (has (walk entries).emitted e.id)) entries)

unfoldable pub order_active_queue : List QueueEntry → List QueueEntry
unfolding walk malformed
order_active_queue entries = (walk entries).ordered ++ malformed entries
