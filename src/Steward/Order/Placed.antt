-- ===== src/Steward/Order/Placed.antt =====
-- packages/merge-steward/src/queue-order.ts: where the order puts the entries.
use patchrelay.Prelude.{
  String, Bool, true, false, Bool-cases, Option, none, some, Option-cases, List, [], ◌∷◌, keep-In,
  In-keep, find_last, ◌≡◌, ◌↔◌, refl, sym, ap, subst, ◌∙◌, inl, inr, In, In-append_left,
  In-append_right, In-append_cases, if◌then◌else◌, truthy,
}
use patchrelay.Steward.Types.{QueueEntry}
use patchrelay.Steward.Downstream.{has}
use patchrelay.Steward.Store.Sound.{some-injective}
use patchrelay.Steward.Order.{by_branch, parent_in, parent_of, walk, malformed, order_active_queue}
use patchrelay.Steward.Order.Sorted.{In-sort_ready, sort_ready-In}
use patchrelay.Steward.Order.Once.{Once, Once-Distinct, order_active_queue-Once}
use patchrelay.Steward.Order.Ends.{walk-ready}
use patchrelay.Steward.Order.Stacks.{
  Distinct, ParentsFirst, after-In, Queued, Stage, root, waits, freed, pending,
}
use patchrelay.Steward.Order.Stacks.Drain.{walk-Fair}

find_last-In :
    (p : QueueEntry → Bool) (xs : List QueueEntry) (a : QueueEntry)
    → find_last p xs ≡ some a
    → In a xs
find_last-In p [] a h = cc
find_last-In p (x ∷ xs) a h = elim (Option-cases (find_last p xs)) [
  | inr (y, q) ↦ inr (find_last-In p xs a (q ∙ rw q at h))
  | inl n ↦ inl (only (rw n at h))
]
  where
    only : (if p x then some x else none) ≡ some a → a ≡ x
    only k = elim (Bool-cases (p x)) [
      | inl t ↦ sym (some-injective (rw t at k))
      | inr f ↦ absurd (empty (rw f at k))
    ]
      where
        empty : {y : QueueEntry} → none ≡ some y → ⊥
        empty e = cc

parent_in-In :
    (entries : List QueueEntry) (base : Option String) (p : QueueEntry)
    → parent_in entries base ≡ some p
    → In p entries
unfolding parent_in by_branch
parent_in-In entries none p h = cc
parent_in-In entries (some base) p h = elim (Bool-cases (truthy base)) [
  | inl t ↦ find_last-In _ entries p (rw t at h)
  | inr f ↦ absurd (empty (rw f at h))
]
  where
    empty : {y : QueueEntry} → none ≡ some y → ⊥
    empty e = cc

-- The chain of parents of the entry ends.
pub data Rooted (entries : List QueueEntry) : QueueEntry → Type 0 where
  bottom : (e : QueueEntry) → parent_of entries e ≡ none → Rooted entries e
  on_top : (e p : QueueEntry) → parent_of entries e ≡ some p → Rooted entries p → Rooted entries e

module _ (entries : List QueueEntry) (unique : Distinct entries) where
  -- What was emitted is in the order.
  emitted-In :
      (e : QueueEntry)
      → In e entries
      → has (walk entries).emitted e.id ≡ true
      → In e (walk entries).ordered
  unfolding has
  emitted-In e m h =
      let fair = walk-Fair entries unique in
      elim (after-In entries [] (walk entries).ordered e.id
        (subst (λ l. has l e.id ≡ true) fair.listed h)) [
          | inl k ↦ absurd (nothing k)
          | inr (x, k, q) ↦
              subst (λ y. In y (walk entries).ordered) (unique x e (fair.known x k) m q) k
        ]
    where
      nothing : has [] e.id ≡ true → ⊥
      nothing k = cc

  Queued-emitted :
      (e : QueueEntry) → Queued entries (walk entries) e → has (walk entries).emitted e.id ≡ true
  Queued-emitted e (inr h) = h
  Queued-emitted e (inl m) = absurd (subst (In e) (walk-ready entries) m)

  Rooted-emitted :
      (e : QueueEntry) → In e entries → Rooted entries e → has (walk entries).emitted e.id ≡ true
  Rooted-emitted e m (bottom e' a) = stage ((walk-Fair entries unique).stages e m)
    where
      stage : Stage entries [] (walk entries) e → has (walk entries).emitted e.id ≡ true
      stage (root b k) = Queued-emitted e k
      stage (waits p b n h) = cc
      stage (freed p b h k) = Queued-emitted e k
      stage (pending p n b h k) = absurd n
  Rooted-emitted e m (on_top e' p a r) =
      stage (Rooted-emitted p (parent_in-In entries e.base_ref_name p a) r)
        ((walk-Fair entries unique).stages e m)
    where
      stage :
          has (walk entries).emitted p.id ≡ true
          → Stage entries [] (walk entries) e
          → has (walk entries).emitted e.id ≡ true
      stage done (root b k) = Queued-emitted e k
      stage done (waits p' b n h) = absurd (
          clash (
            sym done
            ∙ ap (λ (x : QueueEntry). has (walk entries).emitted x.id) (some-injective (sym a ∙ b))
            ∙ h))
        where
          clash : true ≡ false → ⊥
          clash k = cc
      stage done (freed p' b h k) = Queued-emitted e k
      stage done (pending p' n b h k) = absurd n

-- Where no two entries share an id, every entry whose chain of parents ends is put in the order itself,
-- and not among the malformed entries at its end.
pub walk-Rooted :
    (entries : List QueueEntry) (e : QueueEntry)
    → Distinct entries
    → In e entries
    → Rooted entries e
    → In e (walk entries).ordered
walk-Rooted entries e unique m r =
    emitted-In entries unique e m (Rooted-emitted entries unique e m r)

-- Where no two entries share an id, each entry of the order, but for the malformed ones at its end, has
-- no parent among the entries or stands after an entry with the id of its parent.
pub walk-ParentsFirst :
    (entries : List QueueEntry) → Distinct entries → ParentsFirst entries [] (walk entries).ordered
walk-ParentsFirst entries unique = (walk-Fair entries unique).first

-- The entries of the order are those given.
order_active_queue-members :
    (entries : List QueueEntry) (e : QueueEntry)
    → Distinct entries
    → In e (order_active_queue entries) ↔ In e entries
unfolding order_active_queue malformed
order_active_queue-members entries e unique = (
  λ m. elim (In-append_cases e (walk entries).ordered _ m) [
    | inl k ↦ (walk-Fair entries unique).known e k
    | inr k ↦ (keep-In _ e entries (sort_ready-In e _ k)).0
  ],
  λ m. elim (Bool-cases (has (walk entries).emitted e.id)) [
    | inl t ↦ In-append_left e (walk entries).ordered _ (emitted-In entries unique e m t)
    | inr f ↦
        In-append_right e (walk entries).ordered _
          (In-sort_ready e _ (In-keep _ e entries m (rw f refl)))
  ],
)

-- Where no id stands twice among the entries, the order is a rearrangement of them: it has the entries
-- that it was given and no others, and no id twice.
pub order_active_queue_iff :
    (entries : List QueueEntry) (e : QueueEntry)
    → Once entries
    → (In e (order_active_queue entries) ↔ In e entries) × Once (order_active_queue entries)
order_active_queue_iff entries e once = (
  order_active_queue-members entries e (Once-Distinct entries once),
  order_active_queue-Once entries once,
)
