-- ===== src/Steward/Order/Stacks.antt =====
-- packages/merge-steward/src/queue-order.ts: a stacked entry comes after its parent, and comes at all.
pub mod Release
pub mod Visit
pub mod Drain
use native.Mathlib.Omega.{arith}
use patchrelay.Prelude.{
  ℕ, zero, suc, ◌+◌, ◌-◌, ◌≤◌, ◌<◌, ◌==◌, ==_iff, String, ◌=?◌, =?_iff, =?_refl, =?_false, Bool,
  true, false, Bool-cases, Option, none, some, Option-cases, List-cases, List, [], ◌∷◌, ◌++◌,
  length, keep, keep-In, In-keep, ◌≡◌, ◌≢◌, ◌⊎◌, refl, sym, ap, subst, ◌∙◌, inl, inr, In,
  In-append_left, In-append_right, In-append_cases, if◌then◌else◌, truthy,
}
use patchrelay.Steward.Types.{QueueEntry}
use patchrelay.Steward.Downstream.{has}
use patchrelay.Steward.Store.Sound.{some-injective}
use patchrelay.Steward.Order.{
  sort_ready, parent_in, parent_of, is_child_of, children_of, Counts, count_of, parents_count,
  initial_counts, Walk, release, visit, drain, start, walk,
}
use patchrelay.Steward.Order.Sorted.{In-sort_ready, sort_ready-In}
use patchrelay.Steward.Order.Ends.{walk-ready}

-- No two entries share an id.
abbrev pub Distinct : List QueueEntry → Type 0
Distinct entries = (a b : QueueEntry) → In a entries → In b entries → a.id ≡ b.id → a ≡ b

module _ (entries : List QueueEntry) where
  -- The entry needs no parent before it, or it is one of those that were emitted.
  abbrev pub Free : List String → QueueEntry → Type 0
  Free emitted e =
      (parent_of entries e ≡ none)
      ⊎ ((p : QueueEntry) × (parent_of entries e ≡ some p) × (has emitted p.id ≡ true))

  -- Each entry of the list is free where the entries before it, and some more, are emitted.
  abbrev pub ParentsFirst : List String → List QueueEntry → Type 0
  ParentsFirst before [] = Unit
  ParentsFirst before (e ∷ es) = Free before e × ParentsFirst (e.id ∷ before) es

  abbrev pub after : List String → List QueueEntry → List String
  after before [] = before
  after before (e ∷ es) = after (e.id ∷ before) es

  pub ParentsFirst-snoc :
      (before : List String) (es : List QueueEntry) (e : QueueEntry)
      → ParentsFirst before es
      → Free (after before es) e
      → ParentsFirst before (es ++ e ∷ [])
  ParentsFirst-snoc before [] e h f = (f, tt)
  ParentsFirst-snoc before (x ∷ es) e h f = (h.0, ParentsFirst-snoc (x.id ∷ before) es e h.1 f)

  pub after-snoc :
      (before : List String) (es : List QueueEntry) (e : QueueEntry)
      → after before (es ++ e ∷ []) ≡ e.id ∷ after before es
  after-snoc before [] e = refl
  after-snoc before (x ∷ es) e = after-snoc (x.id ∷ before) es e

  -- What was emitted was ordered.
  pub after-In :
      (before : List String) (es : List QueueEntry) (id : String)
      → has (after before es) id ≡ true
      → (has before id ≡ true) ⊎ ((x : QueueEntry) × In x es × (x.id ≡ id))
  unfolding has
  after-In before [] id h = inl h
  after-In before (e ∷ es) id h = elim (after-In (e.id ∷ before) es id h) [
    | inr (x, m, q) ↦ inr (x, inr m, q)
    | inl k ↦ elim (Bool-cases (e.id =? id)) [
      | inl t ↦ inr (e, inl refl, (=?_iff e.id id).0 t)
      | inr f ↦ inl (rw (f, has) at k)
    ]
  ]

  abbrev pub Queued : Walk → QueueEntry → Type 0
  Queued w e = In e w.ready ⊎ (has w.emitted e.id ≡ true)

  -- How far an entry has come while the given children are still to be released.
  pub data Stage (cs : List QueueEntry) (w : Walk) (e : QueueEntry) : Type 0 where
    root : parent_of entries e ≡ none → Queued w e → Stage cs w e
    waits :
        (p : QueueEntry)
        → parent_of entries e ≡ some p
        → count_of w.counts e.id ≡ 1
        → has w.emitted p.id ≡ false
        → Stage cs w e
    freed :
        (p : QueueEntry)
        → parent_of entries e ≡ some p
        → has w.emitted p.id ≡ true
        → Queued w e
        → Stage cs w e
    pending :
        (p : QueueEntry)
        → In e cs
        → parent_of entries e ≡ some p
        → has w.emitted p.id ≡ true
        → count_of w.counts e.id ≡ 1
        → Stage cs w e

  pub record Fair (cs : List QueueEntry) (w : Walk) : Type 0 where
    pub stages : (e : QueueEntry) → In e entries → Stage cs w e
    pub ready_free : (e : QueueEntry) → In e w.ready → In e entries × Free w.emitted e
    pub listed : w.emitted ≡ after [] w.ordered
    pub first : ParentsFirst [] w.ordered
    pub known : (e : QueueEntry) → In e w.ordered → In e entries

  -- The children whose parent was just emitted.
  abbrev pub Freed : List QueueEntry → Walk → Type 0
  Freed cs w =
      (c : QueueEntry)
      → In c cs
      → In c entries
        × ((p : QueueEntry) × (parent_of entries c ≡ some p) × (has w.emitted p.id ≡ true))
