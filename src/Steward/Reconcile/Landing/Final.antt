-- ===== src/Steward/Reconcile/Landing/Final.antt =====
-- packages/merge-steward/src/reconciler-merge.ts: the last remote truth that is read clears the commit.
use patchrelay.Prelude.{
  String, Bool, true, false, not, Option, none, some, List, [], ◌∷◌, ◌++◌, if◌then◌else◌, or_else,
  is_nil, template, short, ◌≡◌, refl, subst,
}
use patchrelay.Steward.Types.{QueueEntry, PrStatus, CheckResult, OpenPrAncestor}
use patchrelay.Steward.Checks.{PolicyStatus, evaluate_check_policy}
use patchrelay.Steward.Policy.{Policy, Discovered}
use patchrelay.Steward.Exec.{ok, pure, ◌>>=◌, ◌>>◌}
use patchrelay.Steward.Exec.Keeps.{Keeps}
use patchrelay.Steward.Exec.Yields.{
  Yields, Yields-of_Keeps, Yields-pure, Yields-bind, Yields-before, Yields-exists,
}
use patchrelay.Steward.Context.{
  Context, World, Act, History, OpenPr, ref, read_open_prs, read_ancestor, read_status, read_checks,
  read_head, discovered_policy,
}
use patchrelay.Steward.Reconcile.Stable.{Stable}
use patchrelay.Steward.Reconcile.Ancestry.{find_unlanded_open_pr_ancestors}
use patchrelay.Steward.Reconcile.Land.{landing_sha, diverged, blocked_landing, final_ancestry}
use patchrelay.Steward.Reconcile.Safe.Prepare.{fetch-Safe}
use patchrelay.Steward.Reconcile.Safe.Merge.{diverged-Safe, blocked_landing-Safe}
use patchrelay.Steward.Reconcile.Landing.{fresh, rules_of, query_of, Cleared, Licensed}
use patchrelay.Steward.Reconcile.Landing.Facts.{
  Fact, seen, nothing, ◌also◌, Any, Learnt, Quiet, quiet, Learnt-Stable, Yields-steady,
}
use patchrelay.Steward.Reconcile.Landing.Calls.{head_sha-Learnt, is_ancestor-Learnt}
use patchrelay.Steward.Reconcile.Landing.Ancestry.{clear, find_unlanded-Learnt}

-- What a revalidation has to find the pull request to be.
pub record Grounds (ctx : Context) (e : QueueEntry) (pr : PrStatus) : Type 0 where
  pub unmerged : pr.merged ≡ false
  pub is_open : pr.mergeable ≡ true
  pub approved : pr.review_approved ≡ true
  pub same_head : pr.head_sha ≡ e.head_sha

module _ (ctx : Context) (K : QueueEntry → PrStatus → Type 0) (before : History) where
  pub st : Stable (Quiet ctx K before)
  st = Learnt-Stable ctx K before nothing

  -- The revalidation clears the commit that the push names, or nothing is pushed.
  abbrev pub Ready : QueueEntry → Option String → World → Type 0
  Ready e none w = Quiet ctx K before w
  Ready e (some base) w =
      (calls : History) × (w.history ≡ calls ++ before)
      × Licensed ctx K calls
      × (pr : PrStatus) × K e pr
      × Cleared ctx e pr (or_else e.candidate_sha "null") (fresh calls)

  pub halted :
      {F : Fact} {Under : Policy → Type 0} {act : Act (Unit {0})} (e : QueueEntry)
      → Keeps (Quiet ctx K before) act
      → Yields (Learnt ctx K before F Under) (Ready e) (Quiet ctx K before) (act >>= λ _. pure none)
  halted {F} {Under} e k =
      Yields-before (quiet ctx K before F Under)
        (Yields-bind (Yields-of_Keeps k (λ _ w h. h) (λ w h. h)) (λ _. Yields-pure none (λ w h. h)))

  module _ (e : QueueEntry) (pr : PrStatus) (d : Discovered) (checks : List CheckResult) where
    abbrev pub read : Fact
    read =
        seen (read_status e.pr_number (ok pr))
        also seen (read_checks (landing_sha e) (ok checks))
        also seen (discovered_policy (ok d))

    module _ (commit : landing_sha e ≡ or_else e.candidate_sha "null")
        (passed : (evaluate_check_policy
            (rules_of ctx d)
            d.require_all_checks_on_empty_required_set
            checks).status
          ≡ PolicyStatus.pass)
        (g : Grounds ctx e pr) (grant : K e pr) where
      cleared :
          (base : String) (prs : List OpenPr) (calls : History)
          → (clear ctx (query_of ctx e base) prs []
                also seen (read_open_prs (ok prs))
                also seen (read_ancestor base (landing_sha e) (ok true))
                also seen (read_head (ref ctx ctx.base_branch) (ok base))
                also read).Holds
              calls
          → Cleared ctx e pr (landing_sha e) calls
      cleared base prs calls k = record {
        commit = refl;
        status_read = k.1.1.1.1.0;
        unmerged = g.unmerged;
        is_open = g.is_open;
        approved = g.approved;
        same_head = g.same_head;
        policy = d;
        policy_read = k.1.1.1.1.1.1;
        checks = checks;
        checks_read = k.1.1.1.1.1.0;
        passed = passed;
        main = base;
        main_read = k.1.1.1.0;
        forward = k.1.1.0;
        open_prs = prs;
        open_prs_read = k.1.0;
        apart = k.0;
      }

      ready :
          (base : String) (prs : List OpenPr) (w : World)
          → Learnt ctx K before
              (clear ctx (query_of ctx e base) prs []
                also seen (read_open_prs (ok prs))
                also seen (read_ancestor base (landing_sha e) (ok true))
                also seen (read_head (ref ctx ctx.base_branch) (ok base))
                also read)
              Any
              w
          → Ready e (some base) w
      ready base prs w h = (
        h.calls,
        h.split,
        h.licensed,
        pr,
        grant,
        subst (λ sha. Cleared ctx e pr sha (fresh h.calls)) commit (cleared base prs _ h.holds),
      )

      unblocked :
          (base : String) (prs : List OpenPr) (bs : List OpenPrAncestor)
          → Yields
              (Learnt ctx K before
                (clear ctx (query_of ctx e base) prs bs
                  also seen (read_open_prs (ok prs))
                  also seen (read_ancestor base (landing_sha e) (ok true))
                  also seen (read_head (ref ctx ctx.base_branch) (ok base))
                  also read)
                Any)
              (Ready e)
              (Quiet ctx K before)
              (if is_nil bs
                then pure (some base)
                else (blocked_landing ctx e bs >>= λ _. pure none))
      unblocked base prs [] = Yields-pure (some base) (ready base prs)
      unblocked base prs (b ∷ bs) = halted e (blocked_landing-Safe st ctx e (b ∷ bs))

      on_main :
          (base : String) (forward : Bool)
          → Yields
              (Learnt ctx K before
                (seen (read_ancestor base (landing_sha e) (ok forward))
                  also seen (read_head (ref ctx ctx.base_branch) (ok base))
                  also read)
                Any)
              (Ready e)
              (Quiet ctx K before)
              (if not forward
                then (do
                  diverged ctx e
                      (template (
                        "candidate is not a fast-forward from final main ("
                        ∷ short 8 base
                        ∷ ")"
                        ∷ []))
                      "main changed during landing, re-prepare"
                  pure none)
                else do
                  blockers ← find_unlanded_open_pr_ancestors ctx (query_of ctx e base)
                  if is_nil blockers
                      then pure (some base)
                      else (do blocked_landing ctx e blockers; pure none))
      on_main base false = halted e (diverged-Safe st ctx e _ _)
      on_main base true =
          Yields-bind (find_unlanded-Learnt ctx (query_of ctx e base) _)
            (λ bs. Yields-exists (λ prs. unblocked base prs bs))

      pub final_ancestry-Ready :
          Yields
            (Learnt ctx K before read Any)
            (Ready e)
            (Quiet ctx K before)
            (final_ancestry ctx e)
      unfolding final_ancestry
      final_ancestry-Ready =
          Yields-bind
            (Yields-steady ctx K before (fetch-Safe (Learnt-Stable ctx K before read) ctx))
            (λ _.
              Yields-bind (head_sha-Learnt ctx K before read Any (ref ctx ctx.base_branch)) (λ base.
                Yields-bind (is_ancestor-Learnt ctx K before _ Any base (landing_sha e))
                  (on_main base)))
