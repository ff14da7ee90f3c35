-- ===== src/Steward/Order/Sorted.antt =====
-- packages/merge-steward/src/queue-order.ts: what the sort of the ready entries keeps and promises.
use patchrelay.Prelude.{suc, Bool-cases, List, [], ◌∷◌, length, ◌≡◌, refl, inl, inr, In}
use patchrelay.Steward.Types.{QueueEntry}
use patchrelay.Steward.Order.{compare_ready, insert_ready, sort_ready}

insert_ready-In :
    (x a : QueueEntry) (xs : List QueueEntry) → In a (x ∷ xs) → In a (insert_ready x xs)
unfolding insert_ready
insert_ready-In x a [] m = m
insert_ready-In x a (y ∷ ys) m = elim (Bool-cases (compare_ready x y)) [
  | inl t ↦ rw (t, insert_ready) m
  | inr f ↦ rw (f, insert_ready) (behind (insert_ready-In x a ys) m)
]
  where
    behind :
        (In a (x ∷ ys) → In a (insert_ready x ys))
        → In a (x ∷ y ∷ ys)
        → In a (y ∷ insert_ready x ys)
    behind further (inl e) = inr (further (inl e))
    behind further (inr (inl e)) = inl e
    behind further (inr (inr k)) = inr (further (inr k))

pub In-sort_ready : (a : QueueEntry) (xs : List QueueEntry) → In a xs → In a (sort_ready xs)
unfolding sort_ready
In-sort_ready a [] m = m
In-sort_ready a (x ∷ xs) (inl e) = insert_ready-In x a (sort_ready xs) (inl e)
In-sort_ready a (x ∷ xs) (inr m) = insert_ready-In x a (sort_ready xs) (inr (In-sort_ready a xs m))

pub from_insert :
    (x a : QueueEntry) (xs : List QueueEntry) → In a (insert_ready x xs) → In a (x ∷ xs)
unfolding insert_ready
from_insert x a [] m = m
from_insert x a (y ∷ ys) m = elim (Bool-cases (compare_ready x y)) [
  | inl t ↦ rw (t, insert_ready) at m
  | inr f ↦ behind (from_insert x a ys) (rw (f, insert_ready) at m)
]
  where
    behind :
        (In a (insert_ready x ys) → In a (x ∷ ys))
        → In a (y ∷ insert_ready x ys)
        → In a (x ∷ y ∷ ys)
    behind further (inl e) = inr (inl e)
    behind further (inr k) = elim (further k) [ inl e ↦ inl e | inr r ↦ inr (inr r) ]

pub sort_ready-In : (a : QueueEntry) (xs : List QueueEntry) → In a (sort_ready xs) → In a xs
unfolding sort_ready
sort_ready-In a [] m = m
sort_ready-In a (x ∷ xs) m = elim (from_insert x a (sort_ready xs) m) [
  | inl e ↦ inl e
  | inr k ↦ inr (sort_ready-In a xs k)
]

pub length-insert_ready :
    (x : QueueEntry) (xs : List QueueEntry) → length (insert_ready x xs) ≡ suc (length xs)
unfolding insert_ready
length-insert_ready x [] = refl
length-insert_ready x (y ∷ ys) = elim (Bool-cases (compare_ready x y)) [
  | inl t ↦ rw (t, insert_ready) refl
  | inr f ↦ rw (f, insert_ready) (rw (length-insert_ready x ys) refl)
]

pub length-sort_ready : (xs : List QueueEntry) → length (sort_ready xs) ≡ length xs
unfolding sort_ready
length-sort_ready [] = refl
length-sort_ready (x ∷ xs) =
    rw (length-insert_ready x (sort_ready xs)) (rw (length-sort_ready xs) refl)
