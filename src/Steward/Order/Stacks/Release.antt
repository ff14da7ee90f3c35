-- ===== src/Steward/Order/Stacks/Release.antt =====
-- packages/merge-steward/src/queue-order.ts: the loop over the children of an entry that was emitted.
use patchrelay.Prelude.{
  ℕ, ◌-◌, ◌==◌, ==_iff, ◌=?◌, =?_iff, =?_refl, true, false, Bool-cases, none, some, List, [], ◌∷◌,
  ◌++◌, ◌≡◌, ◌≢◌, refl, sym, ap, ◌∙◌, inl, inr, In, In-append_left, In-append_right,
  In-append_cases,
}
use patchrelay.Steward.Types.{QueueEntry}
use patchrelay.Steward.Order.{sort_ready, parent_of, Counts, count_of, Walk, release}
use patchrelay.Steward.Order.Sorted.{In-sort_ready, sort_ready-In}
use patchrelay.Steward.Order.Stacks.{
  Distinct, Queued, Stage, root, waits, freed, pending, Fair, Freed,
}

module _ (entries : List QueueEntry) (unique : Distinct entries) where
  -- A child that waited becomes ready.
  abbrev made_ready : QueueEntry → Walk → Walk
  made_ready c w = record w {
    counts = (c.id, 0) ∷ w.counts;
    ready = sort_ready (w.ready ++ c ∷ []);
  }

  abbrev counted : QueueEntry → Walk → Walk
  counted c w = record w { counts = (c.id, count_of w.counts c.id - 1) ∷ w.counts }

  other_count :
      (c e : QueueEntry) (n : ℕ) (counts : Counts)
      → (c.id =? e.id) ≡ false
      → count_of ((c.id, n) ∷ counts) e.id ≡ count_of counts e.id
  unfolding count_of
  other_count c e n counts f = rw (f, count_of) refl

  in_ready : (c e : QueueEntry) (w : Walk) → Queued entries w e → Queued entries (made_ready c w) e
  in_ready c e w (inl m) = inl (In-sort_ready e _ (In-append_left e w.ready (c ∷ []) m))
  in_ready c e w (inr h) = inr h

  pub same_entry : (c e : QueueEntry) → In c entries → In e entries → (c.id =? e.id) ≡ true → c ≡ e
  same_entry c e m n t = unique c e m n ((=?_iff c.id e.id).0 t)

  -- What happens to the count of one entry changes no stage of another.
  elsewhere :
      (c e : QueueEntry) (cs : List QueueEntry) (n : ℕ) (w : Walk) (ready : List QueueEntry)
      → (c.id =? e.id) ≡ false
      → (In e w.ready → In e ready)
      → Stage entries (c ∷ cs) w e
      → Stage entries cs (record w { counts = (c.id, n) ∷ w.counts; ready = ready }) e
  elsewhere c e cs n w ready f wider (root a k) = root a (widen k)
    where
      widen :
          Queued entries w e
          → Queued entries (record w { counts = (c.id, n) ∷ w.counts; ready = ready }) e
      widen (inl m) = inl (wider m)
      widen (inr h) = inr h
  elsewhere c e cs n w ready f wider (waits p a k h) =
      waits p a (other_count c e n w.counts f ∙ k) h
  elsewhere c e cs n w ready f wider (freed p a h k) = freed p a h (widen k)
    where
      widen :
          Queued entries w e
          → Queued entries (record w { counts = (c.id, n) ∷ w.counts; ready = ready }) e
      widen (inl m) = inl (wider m)
      widen (inr h) = inr h
  elsewhere c e cs n w ready f wider (pending p (inl q) a h k) =
      let i = =?_refl c.id in absurd (clash (rw q at f))
    where
      clash : (c.id =? c.id) ≡ false → ⊥
      clash g = let i = =?_refl c.id in cc
  elsewhere c e cs n w ready f wider (pending p (inr m) a h k) =
      pending p m a h (other_count c e n w.counts f ∙ k)

  made_ready-Stage :
      (c : QueueEntry) (cs : List QueueEntry) (w : Walk) (e : QueueEntry)
      → Freed entries (c ∷ cs) w
      → In e entries
      → Stage entries (c ∷ cs) w e
      → Stage entries cs (made_ready c w) e
  made_ready-Stage c cs w e free m s = elim (Bool-cases (c.id =? e.id)) [
    | inl t ↦
        let (here, (p, a, h)) = free c (inl refl) in
        let q = same_entry c e here m t in
        freed p (ap (λ x. parent_of entries x) (sym q) ∙ a) h
          (inl (In-sort_ready e _ (In-append_right e w.ready (c ∷ []) (inl (sym q)))))
    | inr f ↦
        elsewhere c e cs 0 w (sort_ready (w.ready ++ c ∷ [])) f
          (λ k. In-sort_ready e _ (In-append_left e w.ready (c ∷ []) k)) s
  ]

  counted-Stage :
      (c : QueueEntry) (cs : List QueueEntry) (w : Walk) (e : QueueEntry)
      → Freed entries (c ∷ cs) w
      → count_of w.counts c.id ≢ 1
      → In e entries
      → Stage entries (c ∷ cs) w e
      → Stage entries cs (counted c w) e
  counted-Stage c cs w e free many m s = elim (Bool-cases (c.id =? e.id)) [
    | inl t ↦
        let (here, (p, a, h)) = free c (inl refl) in
        let q = same_entry c e here m t in
        kept p (ap (λ x. parent_of entries x) (sym q) ∙ a)
          (λ k. many (ap (λ (x : QueueEntry). count_of w.counts x.id) q ∙ k)) s
    | inr f ↦ elsewhere c e cs _ w w.ready f (λ k. k) s
  ]
    where
      kept :
          (p : QueueEntry)
          → parent_of entries e ≡ some p
          → count_of w.counts e.id ≢ 1
          → Stage entries (c ∷ cs) w e
          → Stage entries cs (counted c w) e
      kept p a many (root b k) = absurd (clash (sym b ∙ a))
        where
          clash : {x : QueueEntry} → none ≡ some x → ⊥
          clash h = cc
      kept p a many (waits p' b k h) = absurd (many k)
      kept p a many (freed p' b h k) = freed p' b h k
      kept p a many (pending p' n b h k) = absurd (many k)

  made_ready-Fair :
      (c : QueueEntry) (cs : List QueueEntry) (w : Walk)
      → Freed entries (c ∷ cs) w
      → Fair entries (c ∷ cs) w
      → Fair entries cs (made_ready c w)
  made_ready-Fair c cs w free h = record {
    stages = λ e m. made_ready-Stage c cs w e free m (h.stages e m);
    ready_free = λ e m. elim (In-append_cases e w.ready (c ∷ []) (sort_ready-In e _ m)) [
      | inl k ↦ h.ready_free e k
      | inr (inl q) ↦ rw q (let (here, (p, a, g)) = free c (inl refl) in (here, inr (p, a, g)))
      | inr (inr k) ↦ absurd k
    ];
    listed = h.listed;
    first = h.first;
    known = h.known;
  }

  counted-Fair :
      (c : QueueEntry) (cs : List QueueEntry) (w : Walk)
      → Freed entries (c ∷ cs) w
      → count_of w.counts c.id ≢ 1
      → Fair entries (c ∷ cs) w
      → Fair entries cs (counted c w)
  counted-Fair c cs w free many h = record {
    stages = λ e m. counted-Stage c cs w e free many m (h.stages e m);
    ready_free = h.ready_free;
    listed = h.listed;
    first = h.first;
    known = h.known;
  }

  pub release-Fair :
      (cs : List QueueEntry) (w : Walk)
      → Freed entries cs w
      → Fair entries cs w
      → Fair entries [] (release cs w)
  unfolding release
  release-Fair [] w free h = h
  release-Fair (c ∷ cs) w free h = elim (Bool-cases (count_of w.counts c.id == 1)) [
    | inl t ↦
        rw ((==_iff _ 1).0 t, release)
          (release-Fair cs (made_ready c w) (λ x m. free x (inr m)) (made_ready-Fair c cs w free h))
    | inr f ↦
        let many : count_of w.counts c.id ≢ 1 =
          (λ q. let k = (==_iff (count_of w.counts c.id) 1).1 q in cc) in
        rw (f, release)
          (release-Fair cs (counted c w) (λ x m. free x (inr m)) (counted-Fair c cs w free many h))
  ]
