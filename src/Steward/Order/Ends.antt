-- ===== src/Steward/Order/Ends.antt =====
-- packages/merge-steward/src/queue-order.ts: the while loop of orderActiveQueue comes to its end.
use native.Mathlib.Omega.{arith}
use patchrelay.Prelude.{
  ℕ, zero, suc, ◌+◌, ◌≤◌, ◌<◌, ◌==◌, ==_iff, String, ◌=?◌, =?_refl, Bool-cases, Option, none, some,
  List-cases, List, [], ◌∷◌, ◌++◌, length, keep, keep-In, ◌≡◌, refl, inl, inr, In, if◌then◌else◌,
}
use patchrelay.Steward.Types.{QueueEntry}
use patchrelay.Steward.Downstream.{has}
use patchrelay.Steward.Order.{
  sort_ready, parent_of, children_of, Counts, count_of, parents_count, initial_counts, Walk,
  release, visit, visit, drain, start, walk,
}
use patchrelay.Steward.Order.Sorted.{length-sort_ready}

-- The entries that wait for a parent.
abbrev ones : Counts → List QueueEntry → ℕ
ones counts [] = 0
ones counts (e ∷ es) = (if count_of counts e.id == 1 then 1 else 0) + ones counts es

abbrev Small : Counts → Type 0
Small counts = (id : String) → count_of counts id ≤ 1

Small-zero : (k : String) (counts : Counts) → Small counts → Small ((k, 0) ∷ counts)
unfolding count_of
Small-zero k counts h id = elim (Bool-cases (k =? id)) [
  | inl t ↦ rw (t, count_of) (omega arith)
  | inr f ↦ rw (f, count_of) (h id)
]

ones-zero_le :
    (k : String) (counts : Counts) (es : List QueueEntry)
    → ones ((k, 0) ∷ counts) es ≤ ones counts es
unfolding count_of
ones-zero_le k counts [] = omega arith
ones-zero_le k counts (e ∷ es) =
    let ih = ones-zero_le k counts es in
    elim (Bool-cases (k =? e.id)) [
      | inl t ↦ rw (t, count_of) (omega arith)
      | inr f ↦ rw (f, count_of) (omega arith)
    ]

ones-zero_lt :
    (e : QueueEntry) (counts : Counts) (es : List QueueEntry)
    → In e es
    → count_of counts e.id ≡ 1
    → ones ((e.id, 0) ∷ counts) es < ones counts es
unfolding count_of
ones-zero_lt e counts [] m one = absurd m
ones-zero_lt e counts (x ∷ es) (inl q) one =
    let ih = ones-zero_le e.id counts es in
    rw (← q) (rw (=?_refl e.id, count_of) (rw one (omega arith)))
ones-zero_lt e counts (x ∷ es) (inr m) one =
    let ih = ones-zero_lt e counts es m one in
    elim (Bool-cases (e.id =? x.id)) [
      | inl t ↦ rw (t, count_of) (omega arith)
      | inr f ↦ rw (f, count_of) (omega arith)
    ]

length-append : (xs : List QueueEntry) (y : QueueEntry) → length (xs ++ y ∷ []) ≡ suc (length xs)
length-append [] y = refl
length-append (x ∷ xs) y = rw (length-append xs y) refl

count_of_nil : (id : String) → count_of [] id ≤ 1
unfolding count_of
count_of_nil id = omega arith

module _ (entries : List QueueEntry) where
  -- What is left to do: the entries that are ready and those that wait.
  abbrev size : Walk → ℕ
  size w = length w.ready + ones w.counts entries

  abbrev Known : List QueueEntry → Type 0
  Known cs = (c : QueueEntry) → In c cs → In c entries

  release-size :
      (cs : List QueueEntry) (w : Walk)
      → Known cs
      → Small w.counts
      → (size (release cs w) ≤ size w) × Small (release cs w).counts
  unfolding release
  release-size [] w known small = (omega arith, small)
  release-size (c ∷ cs) w known small = elim (Bool-cases (count_of w.counts c.id == 1)) [
    | inl t ↦
        let one = (==_iff _ 1).0 t in
        let less = ones-zero_lt c w.counts entries (known c (inl refl)) one in
        let ih =
          release-size cs
            (record w { counts = (c.id, 0) ∷ w.counts; ready = sort_ready (w.ready ++ c ∷ []) })
            (λ x m. known x (inr m)) (Small-zero c.id w.counts small) in
        rw (one, release) (bounded cs w c less ih)
    | inr f ↦
        let none_left : count_of w.counts c.id ≡ 0 =
          (let b = small c.id in let k = ==_iff (count_of w.counts c.id) 1 in ground arith) in
        let less = ones-zero_le c.id w.counts entries in
        let ih =
          release-size cs (record w { counts = (c.id, 0) ∷ w.counts }) (λ x m. known x (inr m))
            (Small-zero c.id w.counts small) in
        rw (none_left, release) ((omega arith), ih.1)
  ]
    where
      bounded :
          (cs : List QueueEntry) (w : Walk) (c : QueueEntry)
          → ones ((c.id, 0) ∷ w.counts) entries < ones w.counts entries
          → (size (
                release cs (record w {
                  counts = (c.id, 0) ∷ w.counts;
                  ready = sort_ready (w.ready ++ c ∷ []);
                }))
              ≤ size (record w {
                counts = (c.id, 0) ∷ w.counts;
                ready = sort_ready (w.ready ++ c ∷ []);
              }))
            × Small
                (release cs (record w {
                  counts = (c.id, 0) ∷ w.counts;
                  ready = sort_ready (w.ready ++ c ∷ []);
                })).counts
          → (size (
                release cs (record w {
                  counts = (c.id, 0) ∷ w.counts;
                  ready = sort_ready (w.ready ++ c ∷ []);
                }))
              ≤ size w)
            × Small
                (release cs (record w {
                  counts = (c.id, 0) ∷ w.counts;
                  ready = sort_ready (w.ready ++ c ∷ []);
                })).counts
      bounded cs w c less ih =
          let l = length-sort_ready (w.ready ++ c ∷ []) in
          let m = length-append w.ready c in (omega arith, ih.1)

  children-Known : (id : String) → Known (children_of entries id)
  unfolding children_of
  children-Known id c m = (keep-In _ c entries m).0

  visit-size :
      (e : QueueEntry) (w : Walk)
      → Small w.counts
      → (size (visit entries e w) ≤ size w) × Small (visit entries e w).counts
  unfolding visit
  visit-size e w small = elim (Bool-cases (has w.emitted e.id)) [
    | inl t ↦ rw (t, visit) (omega arith, small)
    | inr f ↦ rw (f, visit) (release-size (children_of entries e.id) _ (children-Known e.id) small)
  ]

  drain-ready :
      (fuel : ℕ) (w : Walk) → size w < fuel → Small w.counts → (drain fuel entries w).ready ≡ []
  unfolding drain
  drain-ready zero w bound small = absurd (omega arith)
  drain-ready (suc fuel) w bound small = elim (List-cases w.ready) [
    | inl n ↦ rw (n, drain) n
    | inr (e, rest, q) ↦
        let next = visit-size e (record w { ready = rest }) small in
        let shorter : size w ≡ suc (length rest + ones w.counts entries) = rw q (omega arith) in
        rw (q, drain)
          (drain-ready fuel (visit entries e (record w { ready = rest })) (omega arith) next.1)
  ]

  -- At the start every entry is ready or waits.
  parents_count-le : (p : Option QueueEntry) → parents_count p ≤ 1
  parents_count-le none = omega arith
  parents_count-le (some e) = omega arith

  initial_counts-Small :
      (es : List QueueEntry) (counts : Counts)
      → Small counts
      → Small (initial_counts entries es counts)
  unfolding initial_counts count_of
  initial_counts-Small [] counts h = h
  initial_counts-Small (e ∷ es) counts h =
      initial_counts-Small es _
        (λ id. added id (parents_count (parent_of entries e)) (parents_count-le _))
    where
      added : (id : String) (n : ℕ) → n ≤ 1 → count_of ((e.id, n) ∷ counts) id ≤ 1
      added id n le = elim (Bool-cases (e.id =? id)) [
        | inl t ↦ rw (t, count_of) le
        | inr f ↦ rw (f, count_of) (h id)
      ]

  split-ones :
      (counts : Counts) (es : List QueueEntry)
      → Small counts
      → length (keep (λ e. count_of counts e.id == 0) es) + ones counts es ≡ length es
  split-ones counts [] h = refl
  split-ones counts (e ∷ es) h =
      let ih = split-ones counts es h in
      let small = h e.id in
      elim (Bool-cases (count_of counts e.id == 0)) [
        | inl t ↦ rw ((==_iff _ 0).0 t) (omega arith)
        | inr f ↦
            let one : count_of counts e.id ≡ 1 =
              (let k = ==_iff (count_of counts e.id) 0 in ground arith) in
            rw one (omega arith)
      ]

-- The fuel of the loop is enough: when it ends nothing is ready any more, whatever the entries.
pub walk-ready : (entries : List QueueEntry) → (walk entries).ready ≡ []
unfolding walk start
walk-ready entries =
    let small = initial_counts-Small entries entries [] (λ id. count_of_nil id) in
    let counts = initial_counts entries entries [] in
    let sorted = length-sort_ready (keep (λ e. count_of counts e.id == 0) entries) in
    let parts = split-ones entries counts entries small in
    drain-ready entries (suc (length entries)) (start entries) (omega arith) small
