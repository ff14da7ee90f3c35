-- ===== src/Steward/Reconcile/Stable.antt =====
-- packages/merge-steward/src/reconciler-evict.ts: the mutations that a property of the world has to
-- withstand to be stable, and such a property across eviction and invalidation.
use patchrelay.Prelude.{
  ℕ, String, Bool, true, false, Option, none, some, List, ◌∷◌, ◌≡◌, refl, Option-cases, inl, inr,
  get_elem?,
}
use patchrelay.Steward.Types.{
  QueueEntry, QueueEntryStatus, FailureClass, IncidentRecord, OpenPrAncestor,
}
use patchrelay.Steward.Store.{Stamp, Patch}
use patchrelay.Steward.Policy.{Policy}
use patchrelay.Steward.Store.Mutate.{transition, update_base_ref, insert_incident}
use patchrelay.Steward.Exec.{Result, modify}
use patchrelay.Steward.Exec.Keeps.{
  Keeps, keeps_rules, Keeps-bind, Keeps-pure, Keeps-gets, Keeps-attempt, Keeps-raise,
  Keeps-for_each,
}
use patchrelay.Steward.Context.{
  Context, World, Call, pushed, History, Action, ask, emit, write, transition_to,
}
use patchrelay.Steward.Reconcile.Evict.{
  active, cleanup_candidate, invalidate_one, invalidate_downstream, invalidate_from,
  supersede_admitted_head, eviction_base, evict_entry,
}

-- A push onto a named branch, forced or not. The pushes of candidates name no other branch.
abbrev pub is_landing : Call → Bool
is_landing (pushed sha force (some branch) r) = true
is_landing _ = false

-- What a tick does to the world between two readings of it, none of which changes an admitted head or
-- lands a commit.
pub record Stable (P : World → Type 0) : Type 0 where
  pub calls :
      (w : World) (c : Call) → is_landing c ≡ false → P w → P (record w { history = c ∷ w.history })
  pub policies : (w : World) (p : Policy) → P w → P (record w { policy = p })
  pub moves :
      (w : World) (id : String) (to : QueueEntryStatus) (p : Patch) (detail : Option String)
      (t : Stamp)
      → p.head_sha ≡ none
      → P w
      → P (record w { store = transition w.store id to p detail t })
  pub bases :
      (w : World) (id : String) (base detail : Option String) (t : Stamp)
      → P w
      → P (record w { store = update_base_ref w.store id base detail t })
  pub incidents :
      (w : World) (i : IncidentRecord) → P w → P (record w { store = insert_incident w.store i })

module _ {P : World → Type 0} (st : Stable P) where
  pub ask-Safe :
      {A : Type 0} (call : Result A → Call) (answer : History → Result A)
      → ((r : Result A) → is_landing (call r) ≡ false)
      → Keeps P (ask call answer)
  unfolding ask
  ask-Safe call answer n = record {
    held = λ w h. st.calls w (call (answer w.history)) (n (answer w.history)) h;
  }

  pub emit-Safe : (e : QueueEntry) (a : Action) (d : Option String) → Keeps P (emit e a d)
  unfolding emit modify
  emit-Safe e a d = record { held = λ w h. st.calls w _ refl h }

module _ {P : World → Type 0} (st : Stable P) (ctx : Context) where
  pub transition_to-Safe :
      (id : String) (to : QueueEntryStatus) (p : Patch) (d : Option String)
      → p.head_sha ≡ none
      → Keeps P (transition_to ctx id to p d)
  unfolding transition_to write modify
  transition_to-Safe id to p d e = record {
    held = λ w h. st.moves w id to p d (ctx.services.stamp w.history) e h;
  }

  pub ruleset basic = (keeps_rules, ask-Safe, emit-Safe, transition_to-Safe)

  pub active-Safe : Keeps P (active ctx)
  unfolding active
  active-Safe = search keeps_rules

  pub cleanup_candidate-Safe : (e : QueueEntry) → Keeps P (cleanup_candidate ctx e)
  unfolding cleanup_candidate
  cleanup_candidate-Safe e = elim (Option-cases e.candidate_ref) [
    | inl n ↦ rw n (search basic)
    | inr (c, q) ↦ rw q (search basic)
  ]

  pub invalidate_one-Safe : (i : ℕ) (e : QueueEntry) → Keeps P (invalidate_one ctx i e)
  unfolding invalidate_one
  invalidate_one-Safe i e = search (basic, cleanup_candidate-Safe)

  pub invalidate_downstream-Safe :
      (es : List QueueEntry) (i : ℕ) → Keeps P (invalidate_downstream ctx es i)
  unfolding invalidate_downstream
  invalidate_downstream-Safe es i = elim (Option-cases (get_elem? es i)) [
    | inl n ↦ rw (n, invalidate_downstream) (search basic)
    | inr (e, q) ↦ rw (q, invalidate_downstream) (search (basic, invalidate_one-Safe))
  ]

  pub invalidate_from-Safe :
      (es : List QueueEntry) (i : Option ℕ) → Keeps P (invalidate_from ctx es i)
  unfolding invalidate_from
  invalidate_from-Safe es none = search basic
  invalidate_from-Safe es (some i) = invalidate_downstream-Safe es i

  pub supersede_admitted_head-Safe :
      (e : QueueEntry) (sha : String) → Keeps P (supersede_admitted_head ctx e sha)
  unfolding supersede_admitted_head
  supersede_admitted_head-Safe e sha =
      search (basic, active-Safe, cleanup_candidate-Safe, invalidate_from-Safe)

  eviction_base-Safe : (e : QueueEntry) → Keeps P (eviction_base ctx e)
  unfolding eviction_base
  eviction_base-Safe e = search basic

  insert_incident-Safe :
      (i : IncidentRecord)
      → Keeps P (modify (λ (w : World). record w { store = insert_incident w.store i }))
  unfolding modify
  insert_incident-Safe i = record { held = λ w h. st.incidents w i h }

  pub evict_entry-Safe :
      (e : QueueEntry) (c : FailureClass) (ancestors : List OpenPrAncestor)
      → Keeps P (evict_entry ctx e c ancestors)
  unfolding evict_entry
  evict_entry-Safe e c ancestors =
      search (basic, cleanup_candidate-Safe, eviction_base-Safe, insert_incident-Safe) depth 12
