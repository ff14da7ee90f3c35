-- ===== src/Steward/Store/Lookup.antt =====
-- packages/merge-steward/src/memory-store.ts: what the Map of entries holds after an assignment, and
-- what the log says last of an entry.
use patchrelay.Prelude.{
  String, ◌=?◌, =?_iff, =?_refl, Bool-cases, Option, none, some, List, [], ◌∷◌, ◌++◌, ◌≡◌, ◌≢◌,
  refl, inl, inr, if◌then◌else◌,
}
use native.Mathlib.Omega.{arith}
use patchrelay.Steward.Types.{QueueEntry, QueueEntryStatus, QueueEventRecord}
use patchrelay.Steward.Store.{find_entry, modify, set_entry}

-- An assignment to the entry under an id changes what is found there, and nothing else.
module _ (f : QueueEntry → QueueEntry) (ids : (x : QueueEntry) → (f x).id ≡ x.id) where
  pub find-modify :
      (id : String) (es : List QueueEntry) (e : QueueEntry)
      → find_entry id es ≡ some e
      → find_entry id (modify id f es) ≡ some (f e)
  unfolding find_entry modify
  find-modify id [] e h = ground arith
  find-modify id (x ∷ es) e h = elim (Bool-cases (x.id =? id)) [
    | inl y ↦ let i = ids x in grind arith
    | inr n ↦ let ih = find-modify id es e in grind arith
  ]

  pub find-modify_other :
      (id other : String) (es : List QueueEntry)
      → other ≢ id
      → find_entry other (modify id f es) ≡ find_entry other es
  unfolding find_entry modify
  find-modify_other id other [] h = refl
  find-modify_other id other (x ∷ es) h = elim (Bool-cases (x.id =? id)) [
    | inl y ↦ let i = ids x in let k = =?_iff x.id id in let k2 = =?_iff x.id other in grind arith
    | inr n ↦ let ih = find-modify_other id other es h in grind arith
  ]

-- Storing an entry makes it the one found under its id, and changes no other.
pub find-set_entry :
    (entry : QueueEntry) (es : List QueueEntry)
    → find_entry entry.id (set_entry entry es) ≡ some entry
unfolding find_entry set_entry
find-set_entry entry [] = let k = =?_refl entry.id in grind arith
find-set_entry entry (x ∷ es) = elim (Bool-cases (x.id =? entry.id)) [
  | inl y ↦ let k = =?_refl entry.id in grind arith
  | inr n ↦ let ih = find-set_entry entry es in grind arith
]

pub find-set_entry_other :
    (entry : QueueEntry) (other : String) (es : List QueueEntry)
    → other ≢ entry.id
    → find_entry other (set_entry entry es) ≡ find_entry other es
unfolding find_entry set_entry
find-set_entry_other entry other [] h = let k = =?_iff entry.id other in grind arith
find-set_entry_other entry other (x ∷ es) h = elim (Bool-cases (x.id =? entry.id)) [
  | inl y ↦
      let k = =?_iff x.id entry.id in
      let k2 = =?_iff x.id other in let k3 = =?_iff entry.id other in grind arith
  | inr n ↦ let ih = find-set_entry_other entry other es h in grind arith
]

-- The status that the last event of an entry says it has.
unfoldable pub last_status : String → List QueueEventRecord → Option QueueEntryStatus
unfolding ◌=?◌
last_status id [] = none
last_status id (e ∷ es) = elim (last_status id es) [
  | some s ↦ some s
  | none ↦ if e.entry_id =? id then some e.to_status else none
]

pub last_status-append :
    (es : List QueueEventRecord) (e : QueueEventRecord)
    → last_status e.entry_id (es ++ e ∷ []) ≡ some e.to_status
unfolding last_status
last_status-append [] e = let k = =?_refl e.entry_id in grind arith
last_status-append (x ∷ es) e = rw (last_status-append es e) refl

pub last_status-append_other :
    (id : String) (es : List QueueEventRecord) (e : QueueEventRecord)
    → id ≢ e.entry_id
    → last_status id (es ++ e ∷ []) ≡ last_status id es
unfolding last_status
last_status-append_other id [] e h = let k = =?_iff e.entry_id id in grind arith
last_status-append_other id (x ∷ es) e h = rw (last_status-append_other id es e h) refl
