-- ===== src/Steward/Order/Stacks/Drain.antt =====
-- packages/merge-steward/src/queue-order.ts: the while loop from its start to its end.
use native.Mathlib.Omega.{arith}
use patchrelay.Prelude.{
  ℕ, zero, suc, ==_iff, ◌=?◌, =?_refl, false, Bool-cases, Option, none, some, Option-cases,
  List-cases, List, [], ◌∷◌, length, keep-In, In-keep, ◌≡◌, ◌⊎◌, refl, sym, ap, ◌∙◌, inl, inr, In,
}
use patchrelay.Steward.Types.{QueueEntry}
use patchrelay.Steward.Downstream.{has}
use patchrelay.Steward.Order.{
  parent_of, Counts, count_of, parents_count, initial_counts, Walk, drain, start, walk,
}
use patchrelay.Steward.Order.Sorted.{In-sort_ready, sort_ready-In}
use patchrelay.Steward.Order.Stacks.{Distinct, root, waits, Fair}
use patchrelay.Steward.Order.Stacks.Release.{same_entry}
use patchrelay.Steward.Order.Stacks.Visit.{visit-Fair}

module _ (entries : List QueueEntry) (unique : Distinct entries) where
  drain-Fair : (fuel : ℕ) (w : Walk) → Fair entries [] w → Fair entries [] (drain fuel entries w)
  unfolding drain
  drain-Fair zero w h = h
  drain-Fair (suc fuel) w h = elim (List-cases w.ready) [
    | inl n ↦ rw (n, drain) h
    | inr (e, rest, q) ↦ rw (q, drain) (drain-Fair fuel _ (visit-Fair entries unique e rest w q h))
  ]

  abbrev its_count : QueueEntry → ℕ
  its_count e = parents_count (parent_of entries e)

  -- The count of an entry is that of its parents.
  count-initial :
      (es : List QueueEntry) (counts : Counts) (e : QueueEntry)
      → ((x : QueueEntry) → In x es → In x entries)
      → In e entries
      → In e es ⊎ (count_of counts e.id ≡ its_count e)
      → count_of (initial_counts entries es counts) e.id ≡ its_count e
  unfolding initial_counts count_of
  count-initial [] counts e sub m (inl k) = absurd k
  count-initial [] counts e sub m (inr q) = q
  count-initial (x ∷ es) counts e sub m place =
      count-initial es ((x.id, its_count x) ∷ counts) e (λ y k. sub y (inr k)) m
        (elim (Bool-cases (x.id =? e.id)) [
          | inl t ↦ inr (
              rw (t, count_of)
                (ap its_count (same_entry entries unique x e (sub x (inl refl)) m t)))
          | inr f ↦ later f place
        ])
    where
      later :
          (x.id =? e.id) ≡ false
          → In e (x ∷ es) ⊎ (count_of counts e.id ≡ its_count e)
          → In e es ⊎ (count_of ((x.id, its_count x) ∷ counts) e.id ≡ its_count e)
      later f (inl (inl s)) = absurd (clash (rw s at f))
        where
          clash : (x.id =? x.id) ≡ false → ⊥
          clash g = let i = =?_refl x.id in cc
      later f (inl (inr k)) = inl k
      later f (inr q) = inr (rw (f, count_of) q)

  start-Fair : Fair entries [] (start entries)
  unfolding start has
  start-Fair = record {
    stages = λ e m.
        let n = count-initial entries [] e (λ x k. k) m (inl m) in
        elim (Option-cases (parent_of entries e)) [
          | inl a ↦ root a (inl (In-sort_ready e _ (In-keep _ e entries m (rw n (rw a refl)))))
          | inr (p, a) ↦ waits p a (n ∙ ap parents_count a) refl
        ];
    ready_free = λ e m.
        let (here, none_left) = keep-In _ e entries (sort_ready-In e _ m) in
        (
          here,
          inl (
              parentless (parent_of entries e) (
                sym (count-initial entries [] e (λ x k. k) here (inl here))
                ∙ (==_iff _ 0).0 none_left)),
        );
    listed = refl;
    first = tt;
    known = λ e m. absurd m;
  }
    where
      parentless : (o : Option QueueEntry) → parents_count o ≡ 0 → o ≡ none
      parentless none h = refl
      parentless (some p) h = absurd (omega arith)

  pub walk-Fair : Fair entries [] (walk entries)
  unfolding walk
  walk-Fair = drain-Fair (suc (length entries)) (start entries) start-Fair
