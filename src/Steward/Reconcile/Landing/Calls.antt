-- ===== src/Steward/Reconcile/Landing/Calls.antt =====
-- packages/merge-steward/src/reconciler-merge.ts: what each call of a landing adds to what it has learnt.
use patchrelay.Prelude.{ℕ, String, not, ◌≡◌, refl}
use patchrelay.Steward.Types.{QueueEntry, PrStatus}
use patchrelay.Steward.Policy.{Policy, Discovered, RefreshResult, refreshed}
use patchrelay.Steward.Exec.{ok, modify}
use patchrelay.Steward.Exec.Yields.{Yields, Yields-pure, Yields-gets, Yields-if, Yields-bind}
use patchrelay.Steward.Context.{
  Context, World, History, read_ancestor, read_status, read_checks, read_head, discovered_policy,
}
use patchrelay.Steward.Reconcile.Ancestry.{is_ancestor}
use patchrelay.Steward.Reconcile.Git.{head_sha}
use patchrelay.Steward.Reconcile.Sanitize.{get_pr_status}
use patchrelay.Steward.Reconcile.Hold.{checks_for}
use patchrelay.Steward.Reconcile.Land.{refresh_policy, announce_policy}
use patchrelay.Steward.Reconcile.Landing.{rules_of}
use patchrelay.Steward.Reconcile.Landing.Facts.{
  Fact, seen, ◌also◌, Any, Learnt, Quiet, ask-Learnt, emit-Learnt,
}

-- The policy that GitHub gave is the one in force.
abbrev pub Governs : Context → Discovered → Policy → Type 0
Governs ctx d p =
    (p.required_check_rules ≡ rules_of ctx d)
    × (p.require_all_checks_on_empty_required_set ≡ d.require_all_checks_on_empty_required_set)

module _ (ctx : Context) (K : QueueEntry → PrStatus → Type 0) (before : History) (F : Fact)
    (Under : Policy → Type 0) where
  pub head_sha-Learnt :
      (name : String)
      → Yields
          (Learnt ctx K before F Under)
          (λ sha. Learnt ctx K before (seen (read_head name (ok sha)) also F) Under)
          (Quiet ctx K before)
          (head_sha ctx name)
  unfolding head_sha
  head_sha-Learnt name =
      ask-Learnt ctx K before (read_head name) (ctx.services.head_sha name) (λ r. refl)

  pub is_ancestor-Learnt :
      (a b : String)
      → Yields
          (Learnt ctx K before F Under)
          (λ r. Learnt ctx K before (seen (read_ancestor a b (ok r)) also F) Under)
          (Quiet ctx K before)
          (is_ancestor ctx a b)
  unfolding is_ancestor
  is_ancestor-Learnt a b =
      ask-Learnt ctx K before (read_ancestor a b) (ctx.services.is_ancestor a b) (λ r. refl)

  pub checks_for-Learnt :
      (sha : String)
      → Yields
          (Learnt ctx K before F Under)
          (λ r. Learnt ctx K before (seen (read_checks sha (ok r)) also F) Under)
          (Quiet ctx K before)
          (checks_for ctx sha)
  unfolding checks_for
  checks_for-Learnt sha =
      ask-Learnt ctx K before (read_checks sha) (ctx.services.list_checks_for_ref sha) (λ r. refl)

  pub get_pr_status-Learnt :
      (n : ℕ)
      → Yields
          (Learnt ctx K before F Under)
          (λ pr. Learnt ctx K before (seen (read_status n (ok pr)) also F) Under)
          (Quiet ctx K before)
          (get_pr_status ctx n)
  unfolding get_pr_status
  get_pr_status-Learnt n =
      ask-Learnt ctx K before (read_status n) (ctx.services.get_status n) (λ r. refl)

  pub announce_policy-Learnt :
      (e : QueueEntry) (r : RefreshResult)
      → Yields
          (Learnt ctx K before F Under)
          (λ _. Learnt ctx K before F Under)
          (Quiet ctx K before)
          (announce_policy ctx e r)
  unfolding announce_policy
  announce_policy-Learnt e r =
      Yields-if (not r.changed) (λ t. Yields-pure tt (λ w h. h))
        (λ f. emit-Learnt ctx K before e _ _)

module _ (ctx : Context) (K : QueueEntry → PrStatus → Type 0) (before : History) where
  governed :
      (F : Fact) (d : Discovered) (reason now : String)
      → Yields
          (Learnt ctx K before F Any)
          (λ _. Learnt ctx K before F (Governs ctx d))
          (Quiet ctx K before)
          (modify λ (w : World). record w {
            policy = (refreshed ctx.services.locale_compare w.policy d reason now).1;
          })
  unfolding modify refreshed
  governed F d reason now = record {
    run = λ w h. record {
      calls = h.calls;
      split = h.split;
      licensed = h.licensed;
      holds = h.holds;
      under = (refl, refl);
    };
  }

  -- After a refresh the policy that GitHub gave is in force.
  pub refresh_policy-Learnt :
      (F : Fact) (reason : String)
      → Yields
          (Learnt ctx K before F Any)
          (λ _ w.
            (d : Discovered) × Learnt ctx K before
              (seen (discovered_policy (ok d)) also F)
              (Governs ctx d)
              w)
          (Quiet ctx K before)
          (refresh_policy ctx reason)
  unfolding refresh_policy
  refresh_policy-Learnt F reason =
      Yields-bind
        (ask-Learnt ctx K before discovered_policy ctx.services.refresh_policy (λ r. refl))
        (λ d. Yields-bind (Yields-gets _ (λ w h. h)) (λ now.
          Yields-bind (Yields-gets _ (λ w h. h)) (λ result.
            Yields-bind (governed (seen (discovered_policy (ok d)) also F) d reason now)
              (λ _. Yields-pure result (λ w h. (d, h))))))
