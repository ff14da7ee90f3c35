-- ===== src/Steward/Admission/Outcome/Enqueue.antt =====
-- packages/merge-steward/src/service-queue.ts: what enqueue does for a pull request that has no live entry.
use patchrelay.Prelude.{ℕ, none, some, ◌≡◌, refl, sym, subst}
use patchrelay.Steward.Types.{QueueEntry}
use patchrelay.Steward.Store.{insert}
use patchrelay.Steward.Store.Query.{get_entry_by_pr}
use patchrelay.Steward.Exec.{Failure, Result, ok, err, raise, modify}
use patchrelay.Steward.Exec.Yields.{
  Ends, Yields, Yields-pure, Yields-bind, Yields-after, Yields-given, Yields-attempt, Yields-got,
  Yields-option,
}
use patchrelay.Steward.Context.{Context, World, Act, Call, write}
use patchrelay.Steward.Admission.Queue.{
  Settings, Params, new_entry, entry_by_pr, insert_entry, raced, overtake, insert_new, fresh_entry,
  enqueue,
}
use patchrelay.Steward.Admission.Outcome.{Untouched, entry_for, calling}

module _ (ctx : Context) (cfg : Settings) where
  pub at :
      {A : Type 0} {R : A → World → Type 0} {T : World → Type 0} {act : Act A} (w : World)
      → Ends R T (act w)
      → Yields (λ v. v ≡ w) R T act
  at {R} {T} {act} w h = record { run = λ v e. subst (λ u. Ends R T (act u)) (sym e) h }

  pub answered :
      {A : Type 0} (call : Result A → Call) (r : Result A) (w : World)
      → Ends
          (λ a v. v ≡ calling ctx cfg (call (ok a)) w)
          (Untouched w)
          (r, calling ctx cfg (call r) w)
  answered call (ok a) w = refl
  answered call (err f) w = (refl, refl)

  abbrev pub joined : QueueEntry → World → World
  joined e w = record w { store = insert w.store e (ctx.services.stamp w.history) }

  insert_entry-joined :
      (e : QueueEntry) (w : World)
      → Yields (λ v. v ≡ w) (λ _ v. v ≡ joined e w) (λ v. v ≡ w) (insert_entry ctx cfg e)
  unfolding insert_entry raise write modify
  insert_entry-joined e w =
      Yields-bind (Yields-got _ w)
        (λ refusal. Yields-given (λ q. Yields-option refusal (λ n. at w refl) (λ f s. at w refl)))

  raced-refused :
      (n : ℕ) (f : Failure) (w : World)
      → get_entry_by_pr w.store ctx.repo_id n ≡ none
      → Yields (λ v. v ≡ w) (λ _ _. ⊥) (Untouched w) (raced ctx cfg n f)
  unfolding raced entry_by_pr raise
  raced-refused n f w none_live =
      Yields-bind (Yields-got _ w)
        (λ x. Yields-given (λ q. Yields-option x (λ n. at w ((refl, refl))) (λ e s. cc)))

  overtake-joined :
      (T : World → Type 0) (e : QueueEntry) (w : World)
      → e.priority ≡ 0
      → Yields (λ v. v ≡ w) (λ _ v. v ≡ w) T (overtake ctx cfg e)
  unfolding overtake
  overtake-joined T e w unranked =
      Yields-bind (rw unranked (Yields-pure tt (λ v h. h))) (λ _. Yields-pure e (λ v h. h))

  insert_new-joined :
      (e : QueueEntry) (w : World)
      → get_entry_by_pr w.store ctx.repo_id e.pr_number ≡ none
      → e.priority ≡ 0
      → Yields (λ v. v ≡ w) (λ _ v. v ≡ joined e w) (Untouched w) (insert_new ctx cfg e)
  unfolding insert_new
  insert_new-joined e w none_live unranked =
      Yields-bind
        (Yields-attempt {R = λ won v. (v ≡ joined e w) × (won ≡ none)}
          (Yields-bind (insert_entry-joined e w) (λ _. Yields-pure none (λ v h. (h, refl))))
          (λ f. Yields-after (λ x v h. absurd h) (raced-refused e.pr_number f w none_live)))
        (λ won. Yields-given (λ q.
          Yields-option won (λ n. overtake-joined (Untouched w) e (joined e w) unranked)
            (λ x s. cc)))

  pub enqueue-joined :
      (p : Params) (w : World)
      → get_entry_by_pr w.store ctx.repo_id p.pr_number ≡ none
      → p.priority ≡ some 0
      → Yields
          (λ v. v ≡ w)
          (λ _ v. v ≡ joined (entry_for ctx cfg w p) w)
          (Untouched w)
          (enqueue ctx cfg p)
  unfolding enqueue entry_by_pr fresh_entry new_entry
  enqueue-joined p w none_live unranked = Yields-bind (Yields-got _ w) (λ x. Yields-given (λ q.
      Yields-option x
        (λ n.
          Yields-bind (Yields-got _ w)
            (λ e. Yields-given (λ r. rw r (insert_new-joined _ w none_live (rw unranked refl)))))
        (λ e s. cc)))
