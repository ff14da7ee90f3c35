-- ===== src/Steward/Schedule/Parents.antt =====
-- packages/merge-steward/src/queue-order.ts: the parents of the entries that may advance.
use patchrelay.Prelude.{
  String, ◌=?◌, =?_iff, Bool, true, false, Bool-cases, none, some, List, [], ◌∷◌, ◌≡◌, ◌⊎◌, refl,
  sym, ap, ◌∙◌, inl, inr, In, arith, truthy, if◌then◌else◌,
}
use patchrelay.Steward.Types.{QueueEntry}
use patchrelay.Steward.Downstream.{has}
use patchrelay.Steward.Order.{by_branch}
use patchrelay.Steward.Schedule.{
  is_merged, latest_from, may_advance, schedule_from, build_dependency_ready_schedule,
}

-- Without a ready parent an entry stacked on an active one may not advance.
unready : (b : Bool) → (if b then true else false) ≡ true → b ≡ false → ⊥
unready true h k = ground arith
unready false h k = ground arith

module _ (active all : List QueueEntry) (base_branch : String) where
  -- The entry is stacked on a branch other than the base.
  abbrev pub StackedOn : QueueEntry → String → Type 0
  StackedOn e branch =
      (e.base_ref_name ≡ some branch) × (truthy branch ≡ true) × ((branch =? base_branch) ≡ false)

  ready_parent :
      (ids : List String) (branch : String) (p : QueueEntry)
      → truthy branch ≡ true
      → (branch =? base_branch) ≡ false
      → by_branch active branch ≡ some p
      → may_advance active all base_branch ids (some branch) ≡ true
      → has ids p.id ≡ true
  unfolding may_advance
  ready_parent ids branch p t n q h = elim (Bool-cases (has ids p.id)) [
    | inl y ↦ y
    | inr k ↦ absurd (unready (has ids p.id) (rw (t, n, q) at h) k)
  ]

  landed_parent :
      (ids : List String) (branch : String)
      → truthy branch ≡ true
      → (branch =? base_branch) ≡ false
      → by_branch active branch ≡ none
      → may_advance active all base_branch ids (some branch) ≡ true
      → is_merged (latest_from none all branch) ≡ true
  unfolding may_advance
  landed_parent ids branch t n q h = rw (t, n, q) at h

  -- What is known of the parent of a ready entry, given the ids that were ready before.
  abbrev ParentReady : List String → List QueueEntry → QueueEntry → Type 0
  ParentReady ids ready e =
      (branch : String) (p : QueueEntry)
      → StackedOn e branch
      → by_branch active branch ≡ some p
      → (has ids p.id ≡ true) ⊎ ((r : QueueEntry) × In r ready × (r.id ≡ p.id))

  one_more :
      (ids : List String) (ready : List QueueEntry) (x e : QueueEntry)
      → ParentReady (x.id ∷ ids) ready e
      → ParentReady ids (x ∷ ready) e
  unfolding has
  one_more ids ready x e k branch p on q = elim (k branch p on q) [
    | inr (r, m, same) ↦ inr (r, inr m, same)
    | inl h ↦ elim (Bool-cases (x.id =? p.id)) [
      | inl y ↦ inr (x, inl refl, (=?_iff x.id p.id).0 y)
      | inr n ↦ inl (rw n at h)
    ]
  ]

  parents_ready :
      (ids : List String) (rest : List QueueEntry) (e : QueueEntry)
      → In e (schedule_from active all base_branch ids rest).ready
      → ParentReady ids (schedule_from active all base_branch ids rest).ready e
  unfolding schedule_from
  parents_ready ids [] e m = absurd m
  parents_ready ids (x ∷ rest) e m =
      elim (Bool-cases (may_advance active all base_branch ids x.base_ref_name)) [
        | inl y ↦
            rw (y, schedule_from)
              (advanced (rw (y, schedule_from) at m) (parents_ready (x.id ∷ ids) rest) y)
        | inr n ↦ rw (n, schedule_from) (parents_ready ids rest e (rw (n, schedule_from) at m))
      ]
    where
      advanced :
          In e (x ∷ (schedule_from active all base_branch (x.id ∷ ids) rest).ready)
          → ((d : QueueEntry)
              → In d (schedule_from active all base_branch (x.id ∷ ids) rest).ready
              → ParentReady
                  (x.id ∷ ids)
                  (schedule_from active all base_branch (x.id ∷ ids) rest).ready
                  d)
          → may_advance active all base_branch ids x.base_ref_name ≡ true
          → ParentReady ids (x ∷ (schedule_from active all base_branch (x.id ∷ ids) rest).ready) e
      advanced (inr i) ih y = one_more ids _ x e (ih e i)
      advanced (inl same) ih y = λ branch p on q. inl (
          ready_parent ids branch p on.1 on.2 q (
            ap (may_advance active all base_branch ids)
              (sym on.0 ∙ ap (λ (d : QueueEntry). d.base_ref_name) same)
            ∙ y))

  LandedParent : QueueEntry → Type 0
  LandedParent e =
      (branch : String)
      → StackedOn e branch
      → by_branch active branch ≡ none
      → is_merged (latest_from none all branch) ≡ true

  parents_landed :
      (ids : List String) (rest : List QueueEntry) (e : QueueEntry)
      → In e (schedule_from active all base_branch ids rest).ready
      → LandedParent e
  unfolding schedule_from LandedParent
  parents_landed ids [] e m = absurd m
  parents_landed ids (x ∷ rest) e m =
      elim (Bool-cases (may_advance active all base_branch ids x.base_ref_name)) [
        | inl y ↦ advanced (rw (y, schedule_from) at m) (parents_landed (x.id ∷ ids) rest e) y
        | inr n ↦ parents_landed ids rest e (rw (n, schedule_from) at m)
      ]
    where
      advanced :
          In e (x ∷ (schedule_from active all base_branch (x.id ∷ ids) rest).ready)
          → (In e (schedule_from active all base_branch (x.id ∷ ids) rest).ready → LandedParent e)
          → may_advance active all base_branch ids x.base_ref_name ≡ true
          → LandedParent e
      advanced (inr i) ih y = ih i
      advanced (inl same) ih y = λ branch on q. landed_parent ids branch on.1 on.2 q (
          ap (may_advance active all base_branch ids)
            (sym on.0 ∙ ap (λ (d : QueueEntry). d.base_ref_name) same)
          ∙ y)

-- An entry that may advance and is stacked on another branch than the base has its parent settled:
-- where an active entry has that branch, that entry may advance too, and where none has, the latest
-- entry of the branch has merged.
pub build_dependency_ready_schedule-parents :
    (active all : List QueueEntry) (base_branch : String) (e : QueueEntry) (branch : String)
    → In e (build_dependency_ready_schedule active all base_branch).ready
    → StackedOn active all base_branch e branch
    → ((p : QueueEntry)
        → by_branch active branch ≡ some p
        → (r : QueueEntry) × In r (build_dependency_ready_schedule active all base_branch).ready
          × (r.id ≡ p.id))
      × (by_branch active branch ≡ none → is_merged (latest_from none all branch) ≡ true)
unfolding build_dependency_ready_schedule LandedParent has
build_dependency_ready_schedule-parents active all base_branch e branch m on = (
  (λ p q. elim (parents_ready active all base_branch [] active e m branch p on q) [
    | inl h ↦ ground arith
    | inr found ↦ found
  ]),
  parents_landed active all base_branch [] active e m branch on,
)
