-- ===== src/Steward/Order/Tests.antt =====
-- packages/merge-steward/src/queue-order.ts: the order of a stack of two.
use native.Mathlib.Omega.{arith}
use patchrelay.Prelude.{
  ◌=?◌, =?_iff, true, false, none, some, List, [], ◌∷◌, ◌≡◌, ◌↔◌, refl, sym, inl, inr, In,
}
use patchrelay.Steward.Types.{QueueEntry, queued}
use patchrelay.Steward.Order.{parent_in, by_branch, walk, order_active_queue}
use patchrelay.Steward.Order.Once.{Once}
use patchrelay.Steward.Order.Ends.{walk-ready}
use patchrelay.Steward.Order.Stacks.{Distinct, ParentsFirst}
use patchrelay.Steward.Order.Placed.{
  Rooted, bottom, on_top, walk-Rooted, walk-ParentsFirst, order_active_queue_iff,
}
use patchrelay.Steward.Tests.{sample_entry}

abbrev parent : QueueEntry
parent = sample_entry "e1" 2 queued none

-- Stacked on the parent's branch, and of a higher priority.
abbrev child : QueueEntry
child = record (sample_entry "e2" 1 queued none) {
  branch = "child";
  base_ref_name = some "feature";
  priority = 1;
}

abbrev stack : List QueueEntry
stack = child ∷ parent ∷ []

apart : parent.id ≡ child.id → ⊥
unfolding ◌=?◌
apart h = let k : false ≡ true = (=?_iff "e1" "e2").1 h in ground arith

stack-Distinct : Distinct stack
stack-Distinct a b (inl p) (inl q) h = rw (p, q) refl
stack-Distinct a b (inl p) (inr (inl q)) h = absurd (apart (sym (rw (p, q) at h)))
stack-Distinct a b (inr (inl p)) (inl q) h = absurd (apart (rw (p, q) at h))
stack-Distinct a b (inr (inl p)) (inr (inl q)) h = rw (p, q) refl
stack-Distinct a b (inl p) (inr (inr m)) h = absurd m
stack-Distinct a b (inr (inl p)) (inr (inr m)) h = absurd m
stack-Distinct a b (inr (inr m)) n h = absurd m

child-Rooted : Rooted stack child
unfolding parent_in by_branch ◌=?◌
child-Rooted = on_top child parent refl (bottom parent refl)

walk-ready_example : (walk stack).ready ≡ []
walk-ready_example = walk-ready stack

walk-Rooted_example : In child (walk stack).ordered
walk-Rooted_example = walk-Rooted stack child stack-Distinct (inl refl) child-Rooted

walk-ParentsFirst_example : ParentsFirst stack [] (walk stack).ordered
walk-ParentsFirst_example = walk-ParentsFirst stack stack-Distinct

stack-Once : Once stack
stack-Once = ((apart, tt), (tt, tt))

order_active_queue_iff_example :
    (In child (order_active_queue stack) ↔ In child stack) × Once (order_active_queue stack)
order_active_queue_iff_example = order_active_queue_iff stack child stack-Once
