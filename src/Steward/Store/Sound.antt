-- ===== src/Steward/Store/Sound.antt =====
-- packages/merge-steward/src/memory-store.ts: the well-formed stores, under each mutation.
use native.Mathlib.Omega.{arith}
use patchrelay.Prelude.{
  ℕ, suc, ap, ◌∙◌, String, ◌=?◌, =?_iff, true, false, Bool-cases, Option, none, some, Option-cases,
  List, [], ◌∷◌, ◌++◌, ◌≡◌, ◌≢◌, refl, sym, inl, inr, is_some, ◌==◌, opt_eq, ◌||◌, subst,
}
use patchrelay.Steward.Types.{
  QueueEntry, QueueEntryStatus, QueueEventRecord, is_terminal, queued, dequeued, IncidentRecord,
}
use patchrelay.Steward.Store.{
  Store, Stamp, Patch, no_patch, find_entry, get_entry, modify, set_entry, append_event, insert,
  empty,
}
use patchrelay.Steward.Store.Mutate.{
  apply_patch, moved, transition, dequeue, with_head, update_head, with_base, update_base_ref,
  with_priority, update_priority, insert_incident,
}
use patchrelay.Steward.Store.Lookup.{
  find-modify, find-modify_other, find-set_entry, find-set_entry_other, last_status,
  last_status-append, last_status-append_other,
}

-- An entry in a final status carries the time at which it got there.
abbrev pub Settled : QueueEntry → Type 0
Settled e = is_terminal e.status ≡ true → is_some e.decided_at ≡ true

-- The events carry the numbers from a first one on, and this is the next.
pub Numbered : ℕ → List QueueEventRecord → ℕ → Type 0
Numbered first [] next = first ≡ next
Numbered first (e ∷ es) next = (e.id ≡ first) × Numbered (suc first) es next

Numbered-append :
    (first next : ℕ) (es : List QueueEventRecord) (e : QueueEventRecord)
    → Numbered first es next
    → e.id ≡ next
    → Numbered first (es ++ e ∷ []) (suc next)
unfolding Numbered
Numbered-append first next [] e h i = (cc, cc)
Numbered-append first next (x ∷ es) e h i = (h.0, Numbered-append (suc first) next es e h.1 i)

-- Entries are settled, the log's last word on an entry is its status, and the events are numbered
-- without a gap.
pub record Sound (s : Store) : Type 0 where
  pub settled : (id : String) (e : QueueEntry) → get_entry s id ≡ some e → Settled e
  pub logged :
      (id : String) (e : QueueEntry)
      → get_entry s id ≡ some e
      → last_status id s.events ≡ some e.status
  pub numbered : Numbered 1 s.events s.next_event_id

pub some-injective : {A : Type 0} {a b : A} → some a ≡ some b → a ≡ b
some-injective h = grind arith

-- An assignment to one entry, with its event.
module _ (f : QueueEntry → QueueEntry) (ids : (x : QueueEntry) → (f x).id ≡ x.id) (s : Store)
    (id : String) (from : Option QueueEntryStatus) (to : QueueEntryStatus) (detail : Option String)
    (at : String) where
  abbrev changed : Store
  changed = append_event (record s { entries = modify id f s.entries }) id from to detail at

  found-changed : (e : QueueEntry) → get_entry s id ≡ some e → get_entry changed id ≡ some (f e)
  unfolding get_entry append_event
  found-changed e h = find-modify f ids id s.entries e h

  found-changed_other : (other : String) → other ≢ id → get_entry changed other ≡ get_entry s other
  unfolding get_entry append_event
  found-changed_other other h = find-modify_other f ids id other s.entries h

  events-changed : last_status id changed.events ≡ some to
  unfolding append_event
  events-changed = last_status-append s.events _

  events-changed_other :
      (other : String) → other ≢ id → last_status other changed.events ≡ last_status other s.events
  unfolding append_event
  events-changed_other other h = last_status-append_other other s.events _ h

  changed-Sound :
      (e : QueueEntry)
      → get_entry s id ≡ some e
      → (f e).status ≡ to
      → (Settled e → Settled (f e))
      → Sound s
      → Sound changed
  unfolding append_event
  changed-Sound e found status settles h = record {
    settled = λ other e' g. elim (Bool-cases (other =? id)) [
      | inl y ↦
          let q = some-injective (
            sym (found-changed e found)
            ∙ ap (get_entry changed) (sym ((=?_iff other id).0 y))
            ∙ g) in
          subst Settled q (settles (h.settled id e found))
      | inr n ↦ h.settled other e' (sym (found-changed_other other (apart other n)) ∙ g)
    ];
    logged = λ other e' g. elim (Bool-cases (other =? id)) [
      | inl y ↦
          let q = some-injective (
            sym (found-changed e found)
            ∙ ap (get_entry changed) (sym ((=?_iff other id).0 y))
            ∙ g) in
          ap (λ i. last_status i changed.events) ((=?_iff other id).0 y)
          ∙ events-changed
          ∙ ap some (sym status ∙ ap (λ (x : QueueEntry). x.status) q)
      | inr n ↦
          events-changed_other other (apart other n)
          ∙ h.logged other e' (sym (found-changed_other other (apart other n)) ∙ g)
    ];
    numbered = Numbered-append 1 s.next_event_id s.events _ h.numbered refl;
  }
    where
      apart : (other : String) → (other =? id) ≡ false → other ≢ id
      apart other n q = let k = (=?_iff other id).1 q in grind arith

moved-Settled :
    (to : QueueEntryStatus) (p : Patch) (now : String) (x : QueueEntry) → Settled (moved to p now x)
unfolding moved apply_patch
moved-Settled to p now x final = elim (Option-cases x.decided_at) [
  | inl n ↦ rw (n, final) refl
  | inr (d, q) ↦ rw q refl
]

pub live-Settled : (x : QueueEntry) → is_terminal x.status ≡ false → Settled x
live-Settled x live final = ground arith

-- A transition keeps the store well-formed, whatever its status, patch and entry.
pub transition-Sound :
    (s : Store) (id : String) (to : QueueEntryStatus) (p : Patch) (detail : Option String)
    (t : Stamp)
    → Sound s
    → Sound (transition s id to p detail t)
unfolding transition moved apply_patch
transition-Sound s id to p detail t h = elim (Option-cases (get_entry s id)) [
  | inl n ↦ rw (n, transition) h
  | inr (e, q) ↦
      rw (q, transition)
        (changed-Sound (moved to p t.changed_at) (λ x. refl) s id (some e.status) to detail
          t.logged_at e q refl (λ _. moved-Settled to p t.changed_at e) h)
]

pub dequeue-Sound : (s : Store) (id : String) (t : Stamp) → Sound s → Sound (dequeue s id t)
unfolding dequeue
dequeue-Sound s id t h = transition-Sound s id dequeued no_patch none t h

pub update_head-Sound :
    (s : Store) (id new_head_sha : String) (t : Stamp)
    → Sound s
    → Sound (update_head s id new_head_sha t)
unfolding update_head with_head
update_head-Sound s id new_head_sha t h = elim (Option-cases (get_entry s id)) [
  | inl n ↦ rw (n, update_head) h
  | inr (e, q) ↦ elim (Bool-cases (is_terminal e.status)) [
    | inl y ↦ rw (q, y, update_head) h
    | inr n ↦
        rw (q, n, update_head)
          (changed-Sound (with_head new_head_sha t.changed_at) (λ x. refl) s id (some e.status)
            queued _ t.logged_at e q refl
            (λ _. live-Settled (with_head new_head_sha t.changed_at e) refl) h)
  ]
]

pub update_base_ref-Sound :
    (s : Store) (id : String) (base detail : Option String) (t : Stamp)
    → Sound s
    → Sound (update_base_ref s id base detail t)
unfolding update_base_ref with_base
update_base_ref-Sound s id base detail t h = elim (Option-cases (get_entry s id)) [
  | inl n ↦ rw (n, update_base_ref) h
  | inr (e, q) ↦ elim (Bool-cases (is_terminal e.status || opt_eq e.base_ref_name base)) [
    | inl y ↦ rw (q, y, update_base_ref) h
    | inr n ↦
        rw (q, n, update_base_ref)
          (changed-Sound (with_base base t.changed_at) (λ x. refl) s id (some e.status) queued _
            t.logged_at e q refl (λ _. live-Settled (with_base base t.changed_at e) refl) h)
  ]
]

pub update_priority-Sound :
    (s : Store) (id : String) (priority : ℕ) (detail : Option String) (t : Stamp)
    → Sound s
    → Sound (update_priority s id priority detail t)
unfolding update_priority with_priority
update_priority-Sound s id priority detail t h = elim (Option-cases (get_entry s id)) [
  | inl n ↦ rw (n, update_priority) h
  | inr (e, q) ↦ elim (Bool-cases (e.priority == priority)) [
    | inl y ↦ rw (q, y, update_priority) h
    | inr n ↦
        rw (q, n, update_priority)
          (changed-Sound (with_priority priority t.changed_at) (λ x. refl) s id (some e.status)
            e.status _ t.logged_at e q refl (λ k. k) h)
  ]
]

pub insert_incident-Sound : (s : Store) (i : IncidentRecord) → Sound s → Sound (insert_incident s i)
unfolding insert_incident get_entry
insert_incident-Sound s i h = record {
  settled = h.settled;
  logged = h.logged;
  numbered = h.numbered;
}

-- Inserting keeps the store well-formed where the new entry is.
pub insert-Sound :
    (s : Store) (e : QueueEntry) (t : Stamp) → Settled e → Sound s → Sound (insert s e t)
unfolding insert append_event get_entry
insert-Sound s e t k h = record {
  settled = λ other e' g. elim (Bool-cases (other =? e.id)) [
    | inl y ↦ subst Settled (found other e' y g) k
    | inr n ↦ h.settled other e' (sym (find-set_entry_other e other s.entries (apart other n)) ∙ g)
  ];
  logged = λ other e' g. elim (Bool-cases (other =? e.id)) [
    | inl y ↦
        ap (λ i. last_status i (insert s e t).events) ((=?_iff other e.id).0 y)
        ∙ last_status-append s.events _
        ∙ ap some (ap (λ (x : QueueEntry). x.status) (found other e' y g))
    | inr n ↦
        last_status-append_other other s.events _ (apart other n)
        ∙ h.logged other e' (sym (find-set_entry_other e other s.entries (apart other n)) ∙ g)
  ];
  numbered = Numbered-append 1 s.next_event_id s.events _ h.numbered refl;
}
  where
    apart : (other : String) → (other =? e.id) ≡ false → other ≢ e.id
    apart other n q = let i = (=?_iff other e.id).1 q in grind arith

    found :
        (other : String) (e' : QueueEntry)
        → (other =? e.id) ≡ true
        → find_entry other (set_entry e s.entries) ≡ some e'
        → e ≡ e'
    found other e' y g = some-injective (
        sym (find-set_entry e s.entries)
        ∙ ap (λ i. find_entry i (set_entry e s.entries)) (sym ((=?_iff other e.id).0 y))
        ∙ g)

pub empty-Sound : Sound empty
unfolding get_entry Numbered
empty-Sound = record {
  settled = λ id e h. ground arith;
  logged = λ id e h. ground arith;
  numbered = refl;
}
