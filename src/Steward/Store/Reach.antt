-- ===== src/Steward/Store/Reach.antt =====
-- packages/merge-steward/src/memory-store.ts: the stores that the program can get to.
use patchrelay.Prelude.{ℕ, String, false, Option, ◌≡◌}
use patchrelay.Steward.Types.{QueueEntry, QueueEntryStatus, IncidentRecord, is_terminal}
use patchrelay.Steward.Store.{Store, Stamp, Patch, empty, insert}
use patchrelay.Steward.Store.Mutate.{
  transition, dequeue, update_head, update_base_ref, update_priority, insert_incident,
}
use patchrelay.Steward.Store.Sound.{
  Sound, live-Settled, insert-Sound, transition-Sound, dequeue-Sound, update_head-Sound,
  update_base_ref-Sound, update_priority-Sound, insert_incident-Sound, empty-Sound,
}

-- One call of a mutation. An entry is inserted before it is final.
pub data Step : Store → Store → Type 0 where
  inserts :
      (s : Store) (e : QueueEntry) (t : Stamp)
      → is_terminal e.status ≡ false
      → Step s (insert s e t)
  moves :
      (s : Store) (id : String) (to : QueueEntryStatus) (p : Patch) (d : Option String) (t : Stamp)
      → Step s (transition s id to p d t)
  dequeues : (s : Store) (id : String) (t : Stamp) → Step s (dequeue s id t)
  readmits : (s : Store) (id sha : String) (t : Stamp) → Step s (update_head s id sha t)
  rebases :
      (s : Store) (id : String) (base d : Option String) (t : Stamp)
      → Step s (update_base_ref s id base d t)
  reorders :
      (s : Store) (id : String) (priority : ℕ) (d : Option String) (t : Stamp)
      → Step s (update_priority s id priority d t)
  reports : (s : Store) (i : IncidentRecord) → Step s (insert_incident s i)

pub data Reachable : Store → Type 0 where
  start : Reachable empty
  next : {s s' : Store} → Reachable s → Step s s' → Reachable s'

Step-Sound : {s s' : Store} → Step s s' → Sound s → Sound s'
Step-Sound (inserts s e t k) h = insert-Sound s e t (live-Settled e k) h
Step-Sound (moves s id to p d t) h = transition-Sound s id to p d t h
Step-Sound (dequeues s id t) h = dequeue-Sound s id t h
Step-Sound (readmits s id sha t) h = update_head-Sound s id sha t h
Step-Sound (rebases s id base d t) h = update_base_ref-Sound s id base d t h
Step-Sound (reorders s id priority d t) h = update_priority-Sound s id priority d t h
Step-Sound (reports s i) h = insert_incident-Sound s i h

-- In every store that the mutations build from the empty one, where no entry is inserted in a final
-- status, an entry that has come to a final status has the time of its decision, the log's last event of an entry says the entry's status, and the events are
-- numbered from 1 on without a gap.
pub Reachable-Sound : (s : Store) → Reachable s → Sound s
Reachable-Sound s start = empty-Sound
Reachable-Sound s (next r step) = Step-Sound step (Reachable-Sound _ r)
