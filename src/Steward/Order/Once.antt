-- ===== src/Steward/Order/Once.antt =====
-- packages/merge-steward/src/queue-order.ts: no entry is put in the order twice.
use patchrelay.Prelude.{
  ℕ, zero, suc, ◌==◌, String, ◌=?◌, =?_iff, Bool, true, false, not, Bool-cases, List-cases, List,
  [], ◌∷◌, ◌++◌, length, keep, keep-In, In-append_cases, ◌≡◌, ◌≢◌, ◌⊎◌, refl, sym, ap, ◌∙◌, inl,
  inr, In, All, All-In, All-of_In,
}
use patchrelay.Steward.Types.{QueueEntry}
use patchrelay.Steward.Downstream.{has}
use patchrelay.Steward.Order.{
  compare_ready, insert_ready, sort_ready, children_of, count_of, Walk, release, visit, drain,
  start, walk, malformed, order_active_queue,
}
use patchrelay.Steward.Order.Sorted.{from_insert, sort_ready-In}
use patchrelay.Steward.Order.Stacks.{Distinct}

-- Every id stands in the list once.
abbrev pub Once : List QueueEntry → Type 0
Once [] = Unit
Once (e ∷ es) = All (λ x. x.id ≢ e.id) es × Once es

pub Once-Distinct : (es : List QueueEntry) → Once es → Distinct es
Once-Distinct [] h a b m n q = absurd m
Once-Distinct (e ∷ es) h a b (inl p) (inl r) q = cc
Once-Distinct (e ∷ es) h a b (inl p) (inr n) q = absurd (All-In _ es h.0 b n (rw (← p) (sym q)))
Once-Distinct (e ∷ es) h a b (inr m) (inl r) q = absurd (All-In _ es h.0 a m (rw (← r) q))
Once-Distinct (e ∷ es) h a b (inr m) (inr n) q = Once-Distinct es h.1 a b m n q

-- The rest of a list without an entry that is not in it.
insert_ready-Once :
    (x : QueueEntry) (ys : List QueueEntry) → Once (x ∷ ys) → Once (insert_ready x ys)
unfolding insert_ready
insert_ready-Once x [] h = h
insert_ready-Once x (y ∷ ys) h = elim (Bool-cases (compare_ready x y)) [
  | inl t ↦ rw (t, insert_ready) h
  | inr f ↦
      rw (f, insert_ready)
        (
          All-of_In _ (insert_ready x ys) (λ z m. apart z (from_insert x z ys m)),
          insert_ready-Once x ys (h.0.1, h.1.1),
        )
]
  where
    apart : (z : QueueEntry) → In z (x ∷ ys) → z.id ≢ y.id
    apart z (inl p) q = h.0.0 (sym (rw p at q))
    apart z (inr m) q = All-In _ ys h.1.0 z m q

sort_ready-Once : (es : List QueueEntry) → Once es → Once (sort_ready es)
unfolding sort_ready
sort_ready-Once [] h = tt
sort_ready-Once (e ∷ es) h = insert_ready-Once e (sort_ready es) (
  All-of_In _ (sort_ready es) (λ z m. All-In _ es h.0 z (sort_ready-In z es m)),
  sort_ready-Once es h.1,
)

keep-Once : (p : QueueEntry → Bool) (es : List QueueEntry) → Once es → Once (keep p es)
keep-Once p [] h = tt
keep-Once p (e ∷ es) h = elim (Bool-cases (p e)) [
  | inl t ↦
      rw t (
        All-of_In _ (keep p es) (λ z m. All-In _ es h.0 z (keep-In p z es m).0),
        keep-Once p es h.1,
      )
  | inr f ↦ rw f (keep-Once p es h.1)
]

append-Once :
    (xs ys : List QueueEntry)
    → Once xs
    → Once ys
    → ((a b : QueueEntry) → In a xs → In b ys → b.id ≢ a.id)
    → Once (xs ++ ys)
append-Once [] ys h k d = k
append-Once (x ∷ xs) ys h k d = (
  All-of_In _ (xs ++ ys) (λ z m. apart z (In-append_cases z xs ys m)),
  append-Once xs ys h.1 k (λ a b m n. d a b (inr m) n),
)
  where
    apart : (z : QueueEntry) → In z xs ⊎ In z ys → z.id ≢ x.id
    apart z (inl m) = All-In _ xs h.0 z m
    apart z (inr n) = d x z (inl refl) n

-- What is in the order is there once, and was marked as emitted.
abbrev Marked : List String → List QueueEntry → Type 0
Marked emitted ordered = Once ordered × ((x : QueueEntry) → In x ordered → has emitted x.id ≡ true)

abbrev Tracked : Walk → Type 0
Tracked w = Marked w.emitted w.ordered

release-Tracked : (cs : List QueueEntry) (w : Walk) → Tracked w → Tracked (release cs w)
unfolding release
release-Tracked [] w h = h
release-Tracked (c ∷ cs) w h = elim (Bool-cases (count_of w.counts c.id == 1)) [
  | inl t ↦ rw (t, release) (release-Tracked cs _ h)
  | inr f ↦ rw (f, release) (release-Tracked cs _ h)
]

clash : true ≡ false → ⊥
clash k = cc

emits-Marked :
    (e : QueueEntry) (emitted : List String) (ordered : List QueueEntry)
    → has emitted e.id ≡ false
    → Marked emitted ordered
    → Marked (e.id ∷ emitted) (ordered ++ e ∷ [])
unfolding has
emits-Marked e emitted ordered f h = (
  append-Once ordered (e ∷ []) h.0 (tt, tt) (λ a b m n. apart a b m n),
  λ x m. marked x (In-append_cases x ordered (e ∷ []) m),
)
  where
    apart : (a b : QueueEntry) → In a ordered → In b (e ∷ []) → b.id ≢ a.id
    apart a b m (inl p) q = clash (sym (h.1 a m) ∙ ap (has emitted) (sym (rw p at q)) ∙ f)
    apart a b m (inr n) q = n

    marked : (x : QueueEntry) → In x ordered ⊎ In x (e ∷ []) → has (e.id ∷ emitted) x.id ≡ true
    marked x (inl m) = elim (Bool-cases (e.id =? x.id)) [
      | inl t ↦ rw (t, has) refl
      | inr n ↦ rw (n, has) (h.1 x m)
    ]
    marked x (inr (inl p)) =
        let same = (=?_iff e.id x.id).1 (ap (λ (y : QueueEntry). y.id) (sym p)) in
        rw (same, has) refl
    marked x (inr (inr n)) = absurd n

visit-Tracked :
    (entries : List QueueEntry) (e : QueueEntry) (w : Walk)
    → Tracked w
    → Tracked (visit entries e w)
unfolding visit
visit-Tracked entries e w h = elim (Bool-cases (has w.emitted e.id)) [
  | inl t ↦ rw (t, visit) h
  | inr f ↦
      rw (f, visit)
        (release-Tracked (children_of entries e.id) _ (emits-Marked e w.emitted w.ordered f h))
]

drain-Tracked :
    (fuel : ℕ) (entries : List QueueEntry) (w : Walk) → Tracked w → Tracked (drain fuel entries w)
unfolding drain
drain-Tracked zero entries w h = h
drain-Tracked (suc fuel) entries w h = elim (List-cases w.ready) [
  | inl n ↦ rw (n, drain) h
  | inr (e, rest, q) ↦ rw (q, drain) (drain-Tracked fuel entries _ (visit-Tracked entries e _ h))
]

walk-Tracked : (entries : List QueueEntry) → Tracked (walk entries)
unfolding walk start
walk-Tracked entries =
    drain-Tracked (suc (length entries)) entries (start entries) (tt, λ x m. absurd m)

-- Where the ids differ, the order has each of them once.
pub order_active_queue-Once :
    (entries : List QueueEntry) → Once entries → Once (order_active_queue entries)
unfolding order_active_queue malformed
order_active_queue-Once entries h =
    let t = walk-Tracked entries in
    append-Once (walk entries).ordered (malformed entries) t.0
      (sort_ready-Once _ (keep-Once _ entries h))
      (λ a b m n q.
        missed b (keep-In _ b entries (sort_ready-In b _ n)).1
          (ap (has (walk entries).emitted) q ∙ t.1 a m))
  where
    missed :
        (b : QueueEntry)
        → not (has (walk entries).emitted b.id) ≡ true
        → has (walk entries).emitted b.id ≡ true
        → ⊥
    missed b n k = clash (sym (rw k at n))
