-- ===== src/Steward/Downstream.antt =====
-- packages/merge-steward/src/invalidation.ts: the entries whose candidates were built upon another.
use patchrelay.Prelude.{
  ◌≡◌, refl, sym, ap, subst, ◌∙◌, ◌≢◌, ◌⊎◌, inl, inr, Bool, true, false, not, ◌&&◌, ◌||◌, List, [],
  ◌∷◌, String, ◌=?◌, In, arith, Bool-cases, if◌then◌else◌, =?_iff, =?_refl, ◌↔◌, Option, none, some,
  truthy, Option-cases,
}
use patchrelay.Steward.Types.{QueueEntry, is_terminal}

-- `set.has(id)`, on a set as the list of its elements.
unfoldable pub has : List String → String → Bool
unfolding ◌=?◌
has [] id = false
has (x ∷ xs) id = (x =? id) || has xs id

-- `entry.candidateBasedOn && contaminated.has(entry.candidateBasedOn)`.
unfoldable pub based_in : List String → Option String → Bool
unfolding has
based_in contaminated none = false
based_in contaminated (some dep) = truthy dep && has contaminated dep

select_from : List String → List QueueEntry → List QueueEntry
unfolding based_in
select_from contaminated [] = []
select_from contaminated (entry ∷ rest) =
    let hit = not (is_terminal entry.status) && based_in contaminated entry.candidate_based_on in
    let selected = entry ∷ select_from (entry.id ∷ contaminated) rest in
    let skipped = select_from contaminated rest in if hit then selected else skipped

unfoldable pub select_downstream : List QueueEntry → String → List QueueEntry
unfolding select_from
select_downstream all_active entry_id = select_from (entry_id ∷ []) all_active

-- The candidate of an entry that is in the queue descends from `root`: it was built on `root`, or
-- on an entry whose candidate descends from it.
pub data Descends (root : String) (all : List QueueEntry) : QueueEntry → Type 0 where
  direct :
      {e : QueueEntry}
      → In e all
      → is_terminal e.status ≡ false
      → e.candidate_based_on ≡ some root
      → truthy root ≡ true
      → Descends root all e
  through :
      {e : QueueEntry} (p : QueueEntry)
      → Descends root all p
      → In e all
      → is_terminal e.status ≡ false
      → e.candidate_based_on ≡ some p.id
      → truthy p.id ≡ true
      → Descends root all e

-- No entry was built on itself or on an entry that stands behind it.
abbrev pub InOrder : List QueueEntry → Type 0
InOrder [] = Unit
InOrder (e ∷ rest) =
    ((p : QueueEntry) → In p (e ∷ rest) → e.candidate_based_on ≢ some p.id) × InOrder rest

abbrev hits : List String → QueueEntry → Bool
hits contaminated entry =
    not (is_terminal entry.status) && based_in contaminated entry.candidate_based_on

hits_of :
    (s : List String) (e : QueueEntry) (dep : String)
    → is_terminal e.status ≡ false
    → e.candidate_based_on ≡ some dep
    → truthy dep ≡ true
    → has s dep ≡ true
    → hits s e ≡ true
unfolding based_in
hits_of s e dep live on t h = rw (live, on) (rw t h)

hits-inv :
    (s : List String) (e : QueueEntry)
    → hits s e ≡ true
    → (dep : String) × (e.candidate_based_on ≡ some dep)
      × (is_terminal e.status ≡ false)
      × (truthy dep ≡ true)
      × (has s dep ≡ true)
unfolding based_in
hits-inv s e h = elim (Option-cases e.candidate_based_on) [
  | inl n ↦ absurd (ground arith)
  | inr (d, q) ↦ (d, q, ground arith, ground arith, ground arith)
]

has_self : (id : String) (s : List String) → has (id ∷ s) id ≡ true
unfolding has
has_self id s = rw (=?_refl id)

has_more : (x : String) (s : List String) (id : String) → has s id ≡ true → has (x ∷ s) id ≡ true
unfolding has
has_more x s id h = ground arith

module _ (root : String) (all : List QueueEntry) where
  -- What the set of the loop holds: the root, and the ids of entries that descend from it.
  abbrev Sound : List String → Type 0
  Sound s =
      (id : String)
      → has s id ≡ true
      → (id ≡ root) ⊎ ((p : QueueEntry) × Descends root all p × (p.id ≡ id))

  Sound-cons : (p : QueueEntry) (s : List String) → Descends root all p → Sound s → Sound (p.id ∷ s)
  unfolding has
  Sound-cons p s d h id e = elim (Bool-cases (p.id =? id)) [
    | inl q ↦ inr (p, d, (=?_iff p.id id).0 q)
    | inr n ↦ h id (rw n at e)
  ]

  hits-Descends :
      (s : List String) (e : QueueEntry)
      → Sound s
      → In e all
      → hits s e ≡ true
      → Descends root all e
  hits-Descends s e h m k =
      let i = hits-inv s e k in
      elim (h i.0 i.4) [
        | inl r ↦ direct m i.2 (i.1 ∙ ap some r) (subst (λ (d : String). truthy d ≡ true) r i.3)
        | inr w ↦
            through w.0 w.1 m i.2 (i.1 ∙ ap some (sym w.2))
              (subst (λ (d : String). truthy d ≡ true) (sym w.2) i.3)
      ]

  select-Sound :
      (s : List String) (rest : List QueueEntry)
      → Sound s
      → ((x : QueueEntry) → In x rest → In x all)
      → (e : QueueEntry) → In e (select_from s rest)
      → Descends root all e
  unfolding select_from
  select-Sound s [] h sub e m = absurd m
  select-Sound s (x ∷ rest) h sub e m = elim (Bool-cases (hits s x)) [
    | inl hit ↦
        let d = hits-Descends s x h (sub x (inl refl)) hit in
        elim (rw hit at m) [
          | inl q ↦ subst (Descends root all) (sym q) d
          | inr later ↦
              select-Sound (x.id ∷ s) rest (Sound-cons x s d h) (λ y k. sub y (inr k)) e later
        ]
    | inr miss ↦ select-Sound s rest h (λ y k. sub y (inr k)) e (rw miss at m)
  ]

  -- Every descendant that the loop has passed is in its set.
  abbrev Complete : List String → List QueueEntry → Type 0
  Complete s rest = (p : QueueEntry) → Descends root all p → In p rest ⊎ (has s p.id ≡ true)

  Descends-hits :
      (s : List String) (x : QueueEntry) (rest : List QueueEntry)
      → InOrder (x ∷ rest)
      → has s root ≡ true
      → Complete s (x ∷ rest)
      → Descends root all x
      → hits s x ≡ true
  Descends-hits s x rest o r c (direct m live on t) = hits_of s x root live on t r
  Descends-hits s x rest o r c (through p d m live on t) = elim (c p d) [
    | inl behind ↦ absurd (o.0 p behind on)
    | inr seen ↦ hits_of s x p.id live on t seen
  ]

  select-Complete :
      (s : List String) (rest : List QueueEntry)
      → InOrder rest
      → has s root ≡ true
      → Complete s rest
      → (e : QueueEntry) → Descends root all e
      → In e rest
      → In e (select_from s rest)
  unfolding select_from
  select-Complete s [] o r c e d m = m
  select-Complete s (x ∷ rest) o r c e d m = elim (Bool-cases (hits s x)) [
    | inl hit ↦ rw hit (elim m [
      | inl q ↦ inl q
      | inr later ↦ inr (
          select-Complete (x.id ∷ s) rest o.1 (has_more x.id s root r) (passed x s rest c) e d
            later)
    ])
    | inr miss ↦ rw miss (elim m [
      | inl q ↦ cc (Descends-hits s x rest o r c (subst (Descends root all) q d))
      | inr later ↦ select-Complete s rest o.1 r (skipped x s rest o r c miss) e d later
    ])
  ]
    where
      passed :
          (x : QueueEntry) (s : List String) (rest : List QueueEntry)
          → Complete s (x ∷ rest)
          → Complete (x.id ∷ s) rest
      passed x s rest c p d = elim (c p d) [
        | inl (inl q) ↦ inr (rw q (has_self x.id s))
        | inl (inr later) ↦ inl later
        | inr seen ↦ inr (has_more x.id s p.id seen)
      ]

      skipped :
          (x : QueueEntry) (s : List String) (rest : List QueueEntry)
          → InOrder (x ∷ rest)
          → has s root ≡ true
          → Complete s (x ∷ rest)
          → hits s x ≡ false
          → Complete s rest
      skipped x s rest o r c miss p d = elim (c p d) [
        | inl (inl q) ↦ cc (Descends-hits s x rest o r c (subst (Descends root all) q d))
        | inl (inr later) ↦ inl later
        | inr seen ↦ inr seen
      ]

-- In a queue whose entries stand behind those that they were built on, the selection is exactly the
-- entries whose candidates descend from the given one, at any distance.
pub select_downstream_iff :
    (all : List QueueEntry) (root : String) (e : QueueEntry)
    → InOrder all
    → In e (select_downstream all root) ↔ Descends root all e
unfolding select_downstream has
select_downstream_iff all root e o = (
  (λ m. select-Sound root all (root ∷ []) all only_root (λ x k. k) e m),
  (λ d.
      select-Complete root all (root ∷ []) all o (has_self root []) (λ p d. inl (Descends-In p d)) e
        d (Descends-In e d)),
)
  where
    only_root : Sound root all (root ∷ [])
    only_root id h = inl (ground (arith, =?_iff root id))

    Descends-In : (p : QueueEntry) → Descends root all p → In p all
    Descends-In p (direct m live on t) = m
    Descends-In p (through q d m live on t) = m
