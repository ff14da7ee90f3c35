-- ===== src/Steward/Store/Traced.antt =====
-- packages/merge-steward/src/memory-store.ts: what no mutation but an admission or a new head undoes.
use native.Mathlib.Omega.{arith}
use mathlib.Core.List.{append-nil, append_assoc}
use patchrelay.Prelude.{
  String, ◌=?◌, =?_iff, false, Bool-cases, Option, none, some, Option-cases, List, [], ◌∷◌, ◌++◌,
  ◌≡◌, ◌≢◌, refl, sym, ◌∙◌, ap, inl, inr, ◌||◌, opt_eq,
}
use patchrelay.Steward.Types.{
  QueueEntry, QueueEntryStatus, QueueEventRecord, is_terminal, queued, IncidentRecord,
}
use patchrelay.Steward.Store.{Store, Stamp, Patch, find_entry, get_entry, modify, append_event}
use patchrelay.Steward.Store.Mutate.{
  apply_patch, moved, transition, with_base, update_base_ref, insert_incident,
}
use patchrelay.Steward.Store.Lookup.{find-modify, find-modify_other}

-- The admission of an entry: what it is, the head that was admitted, and its place in the queue. A
-- time of decision, once set, stays.
pub record Admits (e e' : QueueEntry) : Type 0 where
  pub id : e'.id ≡ e.id
  pub repo_id : e'.repo_id ≡ e.repo_id
  pub pr_number : e'.pr_number ≡ e.pr_number
  pub branch : e'.branch ≡ e.branch
  pub head_sha : e'.head_sha ≡ e.head_sha
  pub generation : e'.generation ≡ e.generation
  pub position : e'.position ≡ e.position
  pub priority : e'.priority ≡ e.priority
  pub max_retries : e'.max_retries ≡ e.max_retries
  pub enqueued_at : e'.enqueued_at ≡ e.enqueued_at
  pub decided_at : (at : String) → e.decided_at ≡ some at → e'.decided_at ≡ some at

-- A later store has the entries of the earlier one and no others, with their admissions, and has
-- only added to the log and to the incidents.
pub record Follows (s s' : Store) : Type 0 where
  pub kept :
      (id : String) (e : QueueEntry)
      → get_entry s id ≡ some e
      → (e' : QueueEntry) × (get_entry s' id ≡ some e') × Admits e e'
  pub admitted : (id : String) → get_entry s id ≡ none → get_entry s' id ≡ none
  pub events : (new : List QueueEventRecord) × (s'.events ≡ s.events ++ new)
  pub incidents : (new : List IncidentRecord) × (s'.incidents ≡ s.incidents ++ new)

Admits-refl : (e : QueueEntry) → Admits e e
Admits-refl e = record {
  id = refl;
  repo_id = refl;
  pr_number = refl;
  branch = refl;
  head_sha = refl;
  generation = refl;
  position = refl;
  priority = refl;
  max_retries = refl;
  enqueued_at = refl;
  decided_at = λ at h. h;
}

Admits-trans : (a b c : QueueEntry) → Admits a b → Admits b c → Admits a c
Admits-trans a b c h k = record {
  id = k.id ∙ h.id;
  repo_id = k.repo_id ∙ h.repo_id;
  pr_number = k.pr_number ∙ h.pr_number;
  branch = k.branch ∙ h.branch;
  head_sha = k.head_sha ∙ h.head_sha;
  generation = k.generation ∙ h.generation;
  position = k.position ∙ h.position;
  priority = k.priority ∙ h.priority;
  max_retries = k.max_retries ∙ h.max_retries;
  enqueued_at = k.enqueued_at ∙ h.enqueued_at;
  decided_at = λ at d. k.decided_at at (h.decided_at at d);
}

pub Follows-refl : (s : Store) → Follows s s
Follows-refl s = record {
  kept = λ id e h. (e, h, Admits-refl e);
  admitted = λ id h. h;
  events = ([], sym (append-nil s.events));
  incidents = ([], sym (append-nil s.incidents));
}

extended :
    {A : Type 0} (xs ys zs : List A)
    → ((n : List A) × (ys ≡ xs ++ n))
    → ((n : List A) × (zs ≡ ys ++ n))
    → (n : List A) × (zs ≡ xs ++ n)
extended xs ys zs (n, p) (m, q) = (n ++ m, q ∙ ap (λ l. l ++ m) p ∙ append_assoc xs n m)

pub Follows-trans : (a b c : Store) → Follows a b → Follows b c → Follows a c
Follows-trans a b c h k = record {
  kept = λ id e found.
      let (e1, f1, m1) = h.kept id e found in
      let (e2, f2, m2) = k.kept id e1 f1 in (e2, f2, Admits-trans e e1 e2 m1 m2);
  admitted = λ id none_there. k.admitted id (h.admitted id none_there);
  events = extended a.events b.events c.events h.events k.events;
  incidents = extended a.incidents b.incidents c.incidents h.incidents k.incidents;
}

find-modify-none :
    (f : QueueEntry → QueueEntry) (ids : (x : QueueEntry) → (f x).id ≡ x.id) (id other : String)
    (es : List QueueEntry)
    → find_entry other es ≡ none
    → find_entry other (modify id f es) ≡ none
unfolding find_entry modify
find-modify-none f ids id other [] h = refl
find-modify-none f ids id other (x ∷ es) h = elim (Bool-cases (x.id =? id)) [
  | inl y ↦ let i = ids x in grind arith
  | inr n ↦ let ih = find-modify-none f ids id other es in grind arith
]

-- An assignment that keeps the admission, with its event.
changed-Follows :
    (f : QueueEntry → QueueEntry) (s : Store) (id : String) (from : Option QueueEntryStatus)
    (to : QueueEntryStatus) (detail : Option String) (at : String)
    → ((x : QueueEntry) → Admits x (f x))
    → Follows s (append_event (record s { entries = modify id f s.entries }) id from to detail at)
unfolding append_event get_entry
changed-Follows f s id from to detail at k = record {
  kept = λ other e h. elim (Bool-cases (other =? id)) [
    | inl y ↦
        let q = (=?_iff other id).0 y in
        (
          f e,
          ap (λ i. find_entry i (modify id f s.entries)) q
              ∙ find-modify f ids id s.entries e (ap (λ i. find_entry i s.entries) (sym q) ∙ h),
          k e,
        )
    | inr n ↦ (e, find-modify_other f ids id other s.entries (apart other n) ∙ h, Admits-refl e)
  ];
  admitted = λ other h. find-modify-none f ids id other s.entries h;
  events = (_, refl);
  incidents = ([], sym (append-nil s.incidents));
}
  where
    ids : (x : QueueEntry) → (f x).id ≡ x.id
    ids x = (k x).id

    apart : (other : String) → (other =? id) ≡ false → other ≢ id
    apart other n q = let i = (=?_iff other id).1 q in grind arith

moved-Admits :
    (to : QueueEntryStatus) (p : Patch) (now : String)
    → p.head_sha ≡ none
    → (x : QueueEntry) → Admits x (moved to p now x)
unfolding moved apply_patch
moved-Admits to p now n x = record {
  id = refl;
  repo_id = refl;
  pr_number = refl;
  branch = refl;
  head_sha = rw n refl;
  generation = refl;
  position = refl;
  priority = refl;
  max_retries = refl;
  enqueued_at = refl;
  decided_at = λ at d. rw d refl;
}

pub transition-Follows :
    (s : Store) (id : String) (to : QueueEntryStatus) (p : Patch) (detail : Option String)
    (t : Stamp)
    → p.head_sha ≡ none
    → Follows s (transition s id to p detail t)
unfolding transition
transition-Follows s id to p detail t n = elim (Option-cases (get_entry s id)) [
  | inl q ↦ rw (q, transition) (Follows-refl s)
  | inr (e, q) ↦
      rw (q, transition)
        (changed-Follows (moved to p t.changed_at) s id (some e.status) to detail t.logged_at
          (moved-Admits to p t.changed_at n))
]

with_base-Admits :
    (base : Option String) (now : String) (x : QueueEntry) → Admits x (with_base base now x)
unfolding with_base
with_base-Admits base now x = record {
  id = refl;
  repo_id = refl;
  pr_number = refl;
  branch = refl;
  head_sha = refl;
  generation = refl;
  position = refl;
  priority = refl;
  max_retries = refl;
  enqueued_at = refl;
  decided_at = λ at h. h;
}

pub update_base_ref-Follows :
    (s : Store) (id : String) (base detail : Option String) (t : Stamp)
    → Follows s (update_base_ref s id base detail t)
unfolding update_base_ref
update_base_ref-Follows s id base detail t = elim (Option-cases (get_entry s id)) [
  | inl n ↦ rw (n, update_base_ref) (Follows-refl s)
  | inr (e, q) ↦ elim (Bool-cases (is_terminal e.status || opt_eq e.base_ref_name base)) [
    | inl y ↦ rw (q, y, update_base_ref) (Follows-refl s)
    | inr n ↦
        rw (q, n, update_base_ref)
          (changed-Follows (with_base base t.changed_at) s id (some e.status) queued _ t.logged_at
            (with_base-Admits base t.changed_at))
  ]
]

pub insert_incident-Follows : (s : Store) (i : IncidentRecord) → Follows s (insert_incident s i)
unfolding insert_incident get_entry
insert_incident-Follows s i = record {
  kept = λ id e h. (e, h, Admits-refl e);
  admitted = λ id h. h;
  events = ([], sym (append-nil s.events));
  incidents = (i ∷ [], refl);
}
