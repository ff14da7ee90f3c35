-- ===== src/Steward/Admission/Position.antt =====
-- packages/merge-steward/src/service-queue.ts: the place of a new entry.
use native.Mathlib.Omega.{arith}
use patchrelay.Prelude.{
  ℕ, ◌+◌, ◌≤◌, ◌<◌, leb, ◌=?◌, true, Bool-cases, List, [], ◌∷◌, ◌≡◌, inl, inr, In, In-keep,
}
use patchrelay.Steward.Types.{QueueEntry}
use patchrelay.Steward.Store.{Store}
use patchrelay.Steward.Store.Query.{list_all}
use patchrelay.Steward.Context.{Context}
use patchrelay.Steward.Order.Sorted.{In-sort_ready}
use patchrelay.Steward.Admission.Queue.{position_after, next_position}

position_after-grows : (n : ℕ) (es : List QueueEntry) → n ≤ position_after n es
unfolding position_after
position_after-grows n [] = omega arith
position_after-grows n (e ∷ es) = elim (Bool-cases (leb n e.position)) [
  | inl t ↦
      rw (t, position_after) (let h = position_after-grows (e.position + 1) es in ground arith)
  | inr f ↦ rw (f, position_after) (position_after-grows n es)
]

position_after-above :
    (es : List QueueEntry) (n : ℕ) (e : QueueEntry) → In e es → e.position < position_after n es
unfolding position_after
position_after-above [] n e m = absurd m
position_after-above (x ∷ es) n e (inl q) = elim (Bool-cases (leb n x.position)) [
  | inl t ↦
      rw (t, position_after)
        (rw q (let h = position_after-grows (x.position + 1) es in omega arith))
  | inr f ↦ rw (f, position_after) (rw q (let h = position_after-grows n es in ground arith))
]
position_after-above (x ∷ es) n e (inr m) = position_after-above es _ e m

-- The position of a new entry is above 0 and above that of every entry of the repository, final ones
-- included.
pub next_position-above :
    (ctx : Context) (s : Store)
    → (1 ≤ next_position ctx s)
      × ((e : QueueEntry)
          → In e s.entries
          → (e.repo_id =? ctx.repo_id) ≡ true
          → e.position < next_position ctx s)
unfolding next_position list_all
next_position-above ctx s = (
  position_after-grows 1 (list_all s ctx.repo_id),
  λ e m h.
      position_after-above (list_all s ctx.repo_id) 1 e
        (In-sort_ready e _ (In-keep (λ x. x.repo_id =? ctx.repo_id) e s.entries m h)),
)
