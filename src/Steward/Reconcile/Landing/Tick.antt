-- ===== src/Steward/Reconcile/Landing/Tick.antt =====
-- packages/merge-steward/src/reconciler.ts: what a tick pushes to main.
use patchrelay.Prelude.{String, true, false, Option, none, some, ◌∷◌, or_else, ◌≡◌, refl, ap}
use patchrelay.Steward.Types.{QueueEntry, PrStatus}
use patchrelay.Steward.Store.{Store, get_entry}
use patchrelay.Steward.Store.Traced.{Admits, Follows}
use patchrelay.Steward.Exec.{Failure, Result, ok, err}
use patchrelay.Steward.Exec.Keeps.{Keeps, Keeps-if}
use patchrelay.Steward.Exec.Yields.{
  Ends, Yields, Yields-of_Keeps, Yields-pure, Yields-if, Yields-bind, Yields-attempt,
  Keeps-of_Yields,
}
use patchrelay.Steward.Context.{Context, World, Call, History, pushed, ask}
use patchrelay.Steward.Reconcile.Stable.{Stable, emit-Safe, transition_to-Safe}
use patchrelay.Steward.Reconcile.Sanitize.{live_base, recorded_base}
use patchrelay.Steward.Reconcile.Hold.{is_head_kind}
use patchrelay.Steward.Reconcile.Git.{push}
use patchrelay.Steward.Reconcile.Merge.{revalidation_unavailable, push_candidate, go_on, land}
use patchrelay.Steward.Reconcile.Safe.Merge.{push_rejected-Safe, landed-Safe}
use patchrelay.Steward.Reconcile.Landing.Facts.{Quiet}
use patchrelay.Steward.Reconcile.Landing.Final.{st, Ready, halted}
use patchrelay.Steward.Reconcile.Landing.Licensed.{revalidate-Ready}

module _ (ctx : Context) (K : QueueEntry → PrStatus → Type 0) (before : History) where
  abbrev main_push : QueueEntry → Result (Unit {0}) → Call
  main_push e r = pushed (or_else e.candidate_sha "null") false (some ctx.base_branch) r

  ended :
      (e : QueueEntry) (base : String) (r : Result (Unit {0})) (w : World)
      → Ready ctx K before e (some base) w
      → Ends
          (λ _. Quiet ctx K before)
          (Quiet ctx K before)
          (r, record w { history = main_push e r ∷ w.history })
  ended e base (ok a) w h = record {
    calls = main_push e (ok a) ∷ h.0;
    split = ap (λ t. main_push e (ok a) ∷ t) h.1;
    licensed = ((refl, refl, e, h.3, h.4, h.5), h.2);
    holds = tt;
    under = tt;
  }
  ended e base (err f) w h = record {
    calls = main_push e (err f) ∷ h.0;
    split = ap (λ t. main_push e (err f) ∷ t) h.1;
    licensed = ((refl, refl, e, h.3, h.4, h.5), h.2);
    holds = tt;
    under = tt;
  }

  push-Quiet :
      (e : QueueEntry) (base : String)
      → Yields
          (Ready ctx K before e (some base))
          (λ _. Quiet ctx K before)
          (Quiet ctx K before)
          (push ctx (or_else e.candidate_sha "null") false (some ctx.base_branch))
  unfolding push ask
  push-Quiet e base = record { run = λ w h. ended e base _ w h }

  go_on-Quiet :
      (e : QueueEntry) (base : Option String)
      → Yields
          (Ready ctx K before e base)
          (λ _. Quiet ctx K before)
          (Quiet ctx K before)
          (go_on ctx e base)
  unfolding push_candidate
  go_on-Quiet e none = Yields-pure tt (λ w h. h)
  go_on-Quiet e (some base) =
      Yields-bind
        (Yields-attempt (Yields-bind (push-Quiet e base) (λ _. Yields-pure true (λ w h. h))) (λ f.
          Yields-bind
            (Yields-of_Keeps (push_rejected-Safe (st ctx K before) ctx e base f) (λ _ w h. h)
              (λ w h. h))
            (λ _. Yields-pure false (λ w h. h))))
        (λ done.
          Yields-if done
            (λ t. Yields-of_Keeps (landed-Safe (st ctx K before) ctx e) (λ _ w h. h) (λ w h. h))
            (λ f. Yields-pure tt (λ w h. h)))

  unavailable :
      (e : QueueEntry) (f : Failure)
      → Yields
          (Quiet ctx K before)
          (Ready ctx K before e)
          (Quiet ctx K before)
          (revalidation_unavailable ctx e f)
  unfolding revalidation_unavailable
  unavailable e f =
      Yields-bind (Yields-of_Keeps (emit-Safe (st ctx K before) e _ _) (λ _ w h. h) (λ w h. h))
        (λ _. halted ctx K before e (
          Keeps-if (is_head_kind e.candidate_kind) _ _
            (transition_to-Safe (st ctx K before) ctx e.id _ _ _ refl)
            (transition_to-Safe (st ctx K before) ctx e.id _ _ _ refl)))

  pub land-Quiet :
      (e : QueueEntry)
      → ((pr : PrStatus) → live_base ctx pr ≡ recorded_base ctx e → K e pr)
      → Keeps (Quiet ctx K before) (land ctx e)
  unfolding land
  land-Quiet e grant = Keeps-of_Yields (
      Yields-bind (Yields-attempt (revalidate-Ready ctx K before e grant) (unavailable e))
        (go_on-Quiet e))

-- The entry is this one, and its pull request is on the base that is recorded for it.
abbrev pub OnBase : Context → QueueEntry → QueueEntry → PrStatus → Type 0
OnBase ctx entry e pr = (e ≡ entry) × (live_base ctx pr ≡ recorded_base ctx e)

-- The entry has the admission of an entry of the store.
abbrev pub Of : Store → QueueEntry → Type 0
Of s e = (id : String) × (before : QueueEntry) × (get_entry s id ≡ some before) × Admits before e

-- The calls so far were licensed, and the store has the entries that it had.
abbrev InTick : Context → World → World → Type 0
InTick ctx w v = Quiet ctx (λ e pr. Of w.store e) w.history v × Follows w.store v.store
