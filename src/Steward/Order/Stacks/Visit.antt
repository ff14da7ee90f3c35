-- ===== src/Steward/Order/Stacks/Visit.antt =====
-- packages/merge-steward/src/queue-order.ts: one round of the while loop.
use patchrelay.Prelude.{
  String, ◌=?◌, =?_iff, =?_refl, true, false, Bool-cases, Option, none, some, List, [], ◌∷◌, ◌++◌,
  keep-In, In-keep, ◌≡◌, refl, sym, ap, subst, ◌∙◌, inl, inr, In, In-append_cases,
}
use patchrelay.Steward.Types.{QueueEntry}
use patchrelay.Steward.Downstream.{has}
use patchrelay.Steward.Order.{parent_of, is_child_of, children_of, Walk, visit}
use patchrelay.Steward.Order.Stacks.{
  Distinct, Free, ParentsFirst-snoc, after-snoc, Queued, Stage, root, waits, freed, pending, Fair,
  Freed,
}
use patchrelay.Steward.Order.Stacks.Release.{release-Fair}

module _ (entries : List QueueEntry) (unique : Distinct entries) where
  -- A child of an entry has it as its parent.
  child-parent :
      (id : String) (o : Option QueueEntry)
      → is_child_of id o ≡ true
      → (p : QueueEntry) × (o ≡ some p) × ((p.id =? id) ≡ true)
  child-parent id none h = cc
  child-parent id (some p) h = (p, refl, h)

  has-later : (x id : String) (l : List String) → has l id ≡ true → has (x ∷ l) id ≡ true
  unfolding has
  has-later x id l h = elim (Bool-cases (x =? id)) [
    | inl t ↦ rw (t, has) refl
    | inr f ↦ rw (f, has) h
  ]

  has-here : (x id : String) (l : List String) → (x =? id) ≡ true → has (x ∷ l) id ≡ true
  unfolding has
  has-here x id l t = rw (t, has) refl

  has-not :
      (x id : String) (l : List String)
      → (x =? id) ≡ false
      → has l id ≡ false
      → has (x ∷ l) id ≡ false
  unfolding has
  has-not x id l f h = rw (f, has) h

  swapped : (a b : String) → (a =? b) ≡ true → (b =? a) ≡ true
  swapped a b t = (=?_iff b a).1 (sym ((=?_iff a b).0 t))

  -- The entry at the front of the ready list is emitted.
  abbrev emit_entry : QueueEntry → List QueueEntry → Walk → Walk
  emit_entry e rest w = record w {
    ready = rest;
    emitted = e.id ∷ w.emitted;
    ordered = w.ordered ++ e ∷ [];
  }

  Free-later :
      (x : String) (l : List String) (e : QueueEntry) → Free entries l e → Free entries (x ∷ l) e
  Free-later x l e (inl a) = inl a
  Free-later x l e (inr (p, a, h)) = inr (p, a, has-later x p.id l h)

  emit-Queued :
      (e x : QueueEntry) (rest : List QueueEntry) (w : Walk)
      → w.ready ≡ e ∷ rest
      → Queued entries w x
      → Queued entries (emit_entry e rest w) x
  emit-Queued e x rest w q (inr h) = inr (has-later e.id x.id w.emitted h)
  emit-Queued e x rest w q (inl m) = front (subst (In x) q m)
    where
      front : In x (e ∷ rest) → Queued entries (emit_entry e rest w) x
      front (inl s) = inr (has-here e.id x.id w.emitted (rw s (=?_refl e.id)))
      front (inr k) = inl k

  emit-Stage :
      (e x : QueueEntry) (rest : List QueueEntry) (w : Walk)
      → w.ready ≡ e ∷ rest
      → In x entries
      → Stage entries [] w x
      → Stage entries (children_of entries e.id) (emit_entry e rest w) x
  unfolding children_of
  emit-Stage e x rest w q m (root a k) = root a (emit-Queued e x rest w q k)
  emit-Stage e x rest w q m (freed p a h k) =
      freed p a (has-later e.id p.id w.emitted h) (emit-Queued e x rest w q k)
  emit-Stage e x rest w q m (pending p n a h k) = absurd n
  emit-Stage e x rest w q m (waits p a n h) = elim (Bool-cases (e.id =? p.id)) [
    | inl t ↦
        pending p (In-keep _ x entries m (rw a (swapped e.id p.id t))) a
          (has-here e.id p.id w.emitted t) n
    | inr f ↦ waits p a n (has-not e.id p.id w.emitted f h)
  ]

  emit-Freed :
      (e : QueueEntry) (rest : List QueueEntry) (w : Walk)
      → Freed entries (children_of entries e.id) (emit_entry e rest w)
  unfolding children_of
  emit-Freed e rest w c m =
      let (here, child) = keep-In _ c entries m in
      let (p, a, t) = child-parent e.id (parent_of entries c) child in
      (here, (p, a, has-here e.id p.id w.emitted (swapped p.id e.id t)))

  emit-Fair :
      (e : QueueEntry) (rest : List QueueEntry) (w : Walk)
      → w.ready ≡ e ∷ rest
      → Fair entries [] w
      → Fair entries (children_of entries e.id) (emit_entry e rest w)
  emit-Fair e rest w q h =
      let here = h.ready_free e (subst (In e) (sym q) (inl refl)) in
      record {
        stages = λ x m. emit-Stage e x rest w q m (h.stages x m);
        ready_free = λ x m.
            let k = h.ready_free x (subst (In x) (sym q) (inr m)) in
            (k.0, Free-later e.id w.emitted x k.1);
        listed = ap (λ l. e.id ∷ l) h.listed ∙ sym (after-snoc entries [] w.ordered e);
        first =
            ParentsFirst-snoc entries [] w.ordered e h.first
              (subst (λ l. Free entries l e) h.listed here.1);
        known = λ x m. elim (In-append_cases x w.ordered (e ∷ []) m) [
          | inl k ↦ h.known x k
          | inr (inl s) ↦ rw s here.0
          | inr (inr k) ↦ absurd k
        ];
      }

  -- An entry that was emitted before is dropped.
  drop-Fair :
      (e : QueueEntry) (rest : List QueueEntry) (w : Walk)
      → w.ready ≡ e ∷ rest
      → has w.emitted e.id ≡ true
      → Fair entries [] w
      → Fair entries [] (record w { ready = rest })
  drop-Fair e rest w q old h = record {
    stages = λ x m. stage x (h.stages x m);
    ready_free = λ x m. h.ready_free x (subst (In x) (sym q) (inr m));
    listed = h.listed;
    first = h.first;
    known = h.known;
  }
    where
      queued : (x : QueueEntry) → Queued entries w x → Queued entries (record w { ready = rest }) x
      queued x (inr k) = inr k
      queued x (inl m) = front (subst (In x) q m)
        where
          front : In x (e ∷ rest) → Queued entries (record w { ready = rest }) x
          front (inl s) = inr (rw s old)
          front (inr k) = inl k

      stage :
          (x : QueueEntry) → Stage entries [] w x → Stage entries [] (record w { ready = rest }) x
      stage x (root a k) = root a (queued x k)
      stage x (waits p a n k) = waits p a n k
      stage x (freed p a k l) = freed p a k (queued x l)
      stage x (pending p n a k l) = absurd n

  pub visit-Fair :
      (e : QueueEntry) (rest : List QueueEntry) (w : Walk)
      → w.ready ≡ e ∷ rest
      → Fair entries [] w
      → Fair entries [] (visit entries e (record w { ready = rest }))
  unfolding visit
  visit-Fair e rest w q h = elim (Bool-cases (has w.emitted e.id)) [
    | inl t ↦ rw (t, visit) (drop-Fair e rest w q t h)
    | inr f ↦
        rw (f, visit)
          (release-Fair entries unique (children_of entries e.id) (emit_entry e rest w)
            (emit-Freed e rest w) (emit-Fair e rest w q h))
  ]
