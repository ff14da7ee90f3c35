-- ===== src/Steward/Reconcile/Landing/Licensed.antt =====
-- packages/merge-steward/src/reconciler-merge.ts: the revalidation clears the commit that is pushed.
use patchrelay.Prelude.{
  String, ◌=?◌, Bool, true, false, not, ◌&&◌, Option, none, some, List, if◌then◌else◌, or_else,
  opt_eq, inl, inr, ◌≡◌, refl, ap, =?_iff, Bool-cases, sym, ◌∙◌,
}
use patchrelay.Steward.Types.{QueueEntry, PrStatus, CheckResult, CandidateKind}
use patchrelay.Steward.Checks.{PolicyStatus, evaluate_check_policy}
use patchrelay.Steward.Policy.{Discovered}
use patchrelay.Steward.Exec.{ok}
use patchrelay.Steward.Exec.Yields.{
  Yields, Yields-gets, Yields-if, Yields-bind, Yields-before, Yields-exists, Yields-given,
}
use patchrelay.Steward.Context.{Context, World, History, read_checks, discovered_policy}
use patchrelay.Steward.Reconcile.Stable.{supersede_admitted_head-Safe}
use patchrelay.Steward.Reconcile.Sanitize.{live_base, recorded_base}
use patchrelay.Steward.Reconcile.Hold.{evaluate, is_head_kind}
use patchrelay.Steward.Reconcile.Land.{
  landing_sha, is_pass, final_status, revalidate_checks, revalidate,
}
use patchrelay.Steward.Reconcile.Safe.{is_ancestor-Safe}
use patchrelay.Steward.Reconcile.Safe.Prepare.{fetch-Safe, head_sha-Safe}
use patchrelay.Steward.Reconcile.Safe.Merge.{
  diverged-Safe, merged_externally-Safe, close_entry-Safe, rebase_entry-Safe,
  wait_for_approval-Safe, renew_fingerprint-Safe, checks_no_longer_pass-Safe,
  stale_head_candidate-Safe,
}
use patchrelay.Steward.Reconcile.Landing.{rules_of}
use patchrelay.Steward.Reconcile.Landing.Facts.{
  Fact, seen, nothing, ◌also◌, Any, Learnt, Quiet, gives, Learnt-Stable, Yields-steady,
}
use patchrelay.Steward.Reconcile.Landing.Calls.{
  Governs, checks_for-Learnt, get_pr_status-Learnt, refresh_policy-Learnt, announce_policy-Learnt,
}
use patchrelay.Steward.Reconcile.Landing.Final.{st, Ready, halted, read, final_ancestry-Ready}

pub negated : (b : Bool) → not b ≡ false → b ≡ true
negated true h = refl
negated false h = sym h

pub passes : (s : PolicyStatus) → is_pass s ≡ true → s ≡ PolicyStatus.pass
passes PolicyStatus.pass h = refl
passes PolicyStatus.pending h = cc
passes PolicyStatus.fail h = cc

evaluate-Learnt :
    (ctx : Context) (K : QueueEntry → PrStatus → Type 0) (before : History) (F : Fact)
    (d : Discovered) (checks : List CheckResult)
    → Yields
        (Learnt ctx K before F (Governs ctx d))
        (λ v w.
          Learnt ctx K before F Any w
          × (v
              ≡ evaluate_check_policy
                  (rules_of ctx d)
                  d.require_all_checks_on_empty_required_set
                  checks))
        (Quiet ctx K before)
        (evaluate ctx checks)
unfolding evaluate
evaluate-Learnt ctx K before F d checks =
    Yields-gets _ (λ w h. (relaxed w h, rw (h.under.0, h.under.1) refl))
  where
    relaxed : (w : World) → Learnt ctx K before F (Governs ctx d) w → Learnt ctx K before F Any w
    relaxed w h = record {
      calls = h.calls;
      split = h.split;
      licensed = h.licensed;
      holds = h.holds;
      under = tt;
    }

module _ (ctx : Context) (K : QueueEntry → PrStatus → Type 0) (before : History) (e : QueueEntry)
    (grant : (pr : PrStatus) → live_base ctx pr ≡ recorded_base ctx e → K e pr) where
  module _ (d : Discovered) (checks : List CheckResult)
      (commit : landing_sha e ≡ or_else e.candidate_sha "null")
      (passed : (evaluate_check_policy
          (rules_of ctx d)
          d.require_all_checks_on_empty_required_set
          checks).status
        ≡ PolicyStatus.pass) where
    final_status-Ready :
        (pr : PrStatus)
        → Yields
            (Learnt ctx K before (read ctx K before e pr d checks) Any)
            (Ready ctx K before e)
            (Quiet ctx K before)
            (final_status ctx e pr)
    unfolding final_status
    final_status-Ready pr =
        Yields-if pr.merged
          (λ t. halted ctx K before e (merged_externally-Safe (st ctx K before) ctx e _))
          λ unmerged.
            Yields-if (not pr.mergeable)
              (λ t. halted ctx K before e (close_entry-Safe (st ctx K before) ctx e _))
              λ is_open.
                Yields-if (not (pr.head_sha =? e.head_sha))
                  (λ t.
                    halted ctx K before e (supersede_admitted_head-Safe (st ctx K before) ctx e _))
                  λ same_head.
                    Yields-if (not (live_base ctx pr =? recorded_base ctx e))
                      (λ t. halted ctx K before e (rebase_entry-Safe (st ctx K before) ctx e pr _))
                      λ same_base.
                        Yields-if (not pr.review_approved)
                          (λ t.
                            halted ctx K before e
                              (wait_for_approval-Safe (st ctx K before) ctx e _))
                          λ approved.
                            Yields-bind
                              (Yields-steady ctx K before
                                (renew_fingerprint-Safe (Learnt-Stable ctx K before _) ctx e))
                              (λ _.
                                final_ancestry-Ready ctx K before e pr d checks commit passed
                                  (record {
                                    unmerged = unmerged;
                                    is_open = negated _ is_open;
                                    approved = negated _ approved;
                                    same_head = (=?_iff _ _).0 (negated _ same_head);
                                  })
                                  (grant pr ((=?_iff _ _).0 (negated _ same_base))))

  revalidate_checks-Ready :
      (d : Discovered) (base : String)
      → landing_sha e ≡ or_else e.candidate_sha "null"
      → Yields
          (Learnt ctx K before (seen (discovered_policy (ok d))) (Governs ctx d))
          (Ready ctx K before e)
          (Quiet ctx K before)
          (revalidate_checks ctx e base)
  unfolding revalidate_checks
  revalidate_checks-Ready d base commit =
      Yields-bind
        (checks_for-Learnt ctx K before (seen (discovered_policy (ok d))) (Governs ctx d)
          (landing_sha e))
        λ checks.
          Yields-bind
            (evaluate-Learnt ctx K before
              (seen (read_checks (landing_sha e) (ok checks)) also seen (discovered_policy (ok d)))
              d checks)
            λ v. Yields-given λ told.
              Yields-if (not (is_pass v.status))
                (λ t. halted ctx K before e (checks_no_longer_pass-Safe (st ctx K before) ctx e v))
                λ p.
                  Yields-bind
                    (Yields-steady ctx K before
                      (is_ancestor-Safe (Learnt-Stable ctx K before _) ctx base (landing_sha e)))
                    λ forward.
                      Yields-if (not forward)
                        (λ t. halted ctx K before e (diverged-Safe (st ctx K before) ctx e _ _))
                        λ f. Yields-bind (get_pr_status-Learnt ctx K before _ Any e.pr_number) (
                          final_status-Ready d checks commit
                            (ap (λ v. v.status) (sym told) ∙ passes _ (negated _ p)))

  pub revalidate-Ready :
      Yields (Quiet ctx K before) (Ready ctx K before e) (Quiet ctx K before) (revalidate ctx e)
  unfolding revalidate
  revalidate-Ready =
      Yields-bind (Yields-steady ctx K before (fetch-Safe (st ctx K before) ctx)) λ _.
        Yields-bind (Yields-steady ctx K before (head_sha-Safe (st ctx K before) ctx _)) λ base.
          Yields-bind (refresh_policy-Learnt ctx K before nothing "candidate_landing") λ r.
            Yields-exists λ d.
              Yields-bind (announce_policy-Learnt ctx K before _ (Governs ctx d) e r) λ _.
                Yields-if
                  (is_head_kind e.candidate_kind && not (opt_eq e.candidate_sha (some e.head_sha)))
                  (λ t. halted ctx K before e (stale_head_candidate-Safe (st ctx K before) ctx e))
                  (λ f.
                    Yields-before (λ w h. gives ctx K before (λ calls k. k.0) h)
                      (revalidate_checks-Ready d base (commits e.candidate_kind e.candidate_sha f)))
    where
      commits :
          (k : Option CandidateKind) (sha : Option String)
          → (is_head_kind k && not (opt_eq sha (some e.head_sha))) ≡ false
          → (if is_head_kind k then e.head_sha else or_else sha "null") ≡ or_else sha "null"
      commits k sha h = elim (Bool-cases (is_head_kind k)) [
        | inl t ↦ rw t (same sha (rw t at h))
        | inr f ↦ rw f refl
      ]
        where
          same :
              (sha : Option String)
              → not (opt_eq sha (some e.head_sha)) ≡ false
              → e.head_sha ≡ or_else sha "null"
          same none h = cc
          same (some s) h = sym ((=?_iff s e.head_sha).0 (negated _ h))
