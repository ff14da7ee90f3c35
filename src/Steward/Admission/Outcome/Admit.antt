-- ===== src/Steward/Admission/Outcome/Admit.antt =====
-- packages/merge-steward/src/service-queue.ts: tryAdmit, step by step.
use patchrelay.Prelude.{
  ℕ, String, ◌=?◌, =?_iff, Bool, true, false, not, Option, none, some, List, ◌≡◌, refl, sym, ap,
  ◌∙◌,
}
use patchrelay.Steward.Types.{QueueEntry, PrStatus, CheckResult}
use patchrelay.Steward.Checks.{PolicyStatus, evaluate_check_policy}
use patchrelay.Steward.Store.Query.{get_entry_by_pr, list_all}
use patchrelay.Steward.Exec.{Result, ok, err, pure, raise}
use patchrelay.Steward.Exec.Yields.{
  Yields, Yields-pure, Yields-if, Yields-bind, Yields-given, Yields-attempt, Yields-got,
}
use patchrelay.Steward.Context.{Context, World, ask, read_status, read_checks}
use patchrelay.Steward.Reconcile.Sanitize.{get_pr_status}
use patchrelay.Steward.Reconcile.Hold.{checks_for, evaluate}
use patchrelay.Steward.Reconcile.Land.{is_pass}
use patchrelay.Steward.Reconcile.Landing.Licensed.{passes, negated}
use patchrelay.Steward.Admission.Queue.{Settings}
use patchrelay.Steward.Admission.Admit.{
  is_excluded, get_latest_evicted_entry, bars, params_of, admit_green, admit_approved, admit_live,
  latest_evicted, is_queued, settled, try_admit,
}
use patchrelay.Steward.Admission.Outcome.{Broken, Untouched, Answer, Outcome, calling, looked}
use patchrelay.Steward.Admission.Outcome.Enqueue.{at, answered, enqueue-joined}

nothing_live : (o : Option QueueEntry) → elim o [ none ↦ false | some e ↦ true ] ≡ false → o ≡ none
nothing_live none h = refl
nothing_live (some e) h = cc

module _ (ctx : Context) (cfg : Settings) where
  module _ (reread : Bool) (n : ℕ) (branch sha : String) (w : World) where
    -- What is known when the reading of the pull request begins.
    record Open : Type 0 where
      included : is_excluded ctx cfg branch ≡ ok false
      none_live : get_entry_by_pr w.store ctx.repo_id n ≡ none
      unbarred :
          bars ctx.services.locale_compare reread w.store sha
            (get_latest_evicted_entry cfg.parse_date (list_all w.store ctx.repo_id) n)
          ≡ false

    declined :
        {P : World → Type 0} {T : World → Type 0}
        → ((v : World) → P v → Untouched w v)
        → Yields P (Answer ctx cfg reread n branch sha w) T (pure false)
    declined f = Yields-pure false f

    module _ (k : Open) (pr : PrStatus) (same_head : pr.head_sha ≡ sha)
        (approved : pr.review_approved ≡ true) where
      admit_green-Answer :
          (checks : List CheckResult)
          → (evaluate_check_policy w.policy.required_check_rules
              w.policy.require_all_checks_on_empty_required_set checks).status
            ≡ PolicyStatus.pass
          → Yields
              (λ v. v ≡ looked ctx cfg n pr checks w)
              (Answer ctx cfg reread n branch sha w)
              (Untouched w)
              (admit_green ctx cfg n branch sha pr)
      unfolding admit_green
      admit_green-Answer checks passed =
          Yields-bind (Yields-got _ (looked ctx cfg n pr checks w)) λ waits. Yields-given λ q.
            Yields-if waits (λ t. declined (λ v h. rw h (refl, refl)))
              (λ f.
                Yields-bind
                  (enqueue-joined ctx cfg (params_of ctx cfg n branch sha pr)
                    (looked ctx cfg n pr checks w) k.none_live refl)
                  (λ e. Yields-pure true (λ v h. record {
                    included = k.included;
                    none_live = k.none_live;
                    unbarred = k.unbarred;
                    pr = pr;
                    same_head = same_head;
                    approved = approved;
                    checks = checks;
                    passed = passed;
                    parented = sym q ∙ f;
                    result = h;
                  })))

      admit_approved-Answer :
          Yields
            (λ v. v ≡ calling ctx cfg (read_status n (ok pr)) w)
            (Answer ctx cfg reread n branch sha w)
            (Untouched w)
            (admit_approved ctx cfg n branch sha pr)
      unfolding admit_approved checks_for evaluate ask
      admit_approved-Answer =
          Yields-bind
            (at ctx cfg (calling ctx cfg (read_status n (ok pr)) w) (
              answered ctx cfg (read_checks pr.head_sha) _
                (calling ctx cfg (read_status n (ok pr)) w)))
            λ checks. Yields-bind (Yields-got _ (looked ctx cfg n pr checks w)) λ v.
              Yields-given λ q.
                Yields-if (not (is_pass v.status)) (λ t. declined (λ u h. rw h (refl, refl)))
                  (λ f.
                    admit_green-Answer checks (ap (λ x. x.status) (sym q) ∙ passes _ (negated _ f)))

    admit_live-Answer :
        Open
        → Yields
            (λ v. v ≡ w)
            (Answer ctx cfg reread n branch sha w)
            (Untouched w)
            (admit_live ctx cfg n branch sha)
    unfolding admit_live get_pr_status ask
    admit_live-Answer k = Yields-bind (at ctx cfg w (answered ctx cfg (read_status n) _ w)) λ pr.
        Yields-if (not (pr.head_sha =? sha)) (λ t. declined (λ v h. rw h (refl, refl)))
          λ same.
            Yields-if (not pr.review_approved) (λ t. declined (λ v h. rw h (refl, refl)))
              λ approved.
                admit_approved-Answer k pr ((=?_iff _ _).0 (negated _ same)) (negated _ approved)

    settled-Answer :
        (r : Result Bool)
        → is_excluded ctx cfg branch ≡ r
        → Yields
            (λ v. v ≡ w)
            (λ b v. (v ≡ w) × (is_excluded ctx cfg branch ≡ ok b))
            (Broken ctx cfg branch w)
            (settled ctx cfg r)
    unfolding raise
    settled-Answer (ok b) q = Yields-pure b (λ v h. (h, q))
    settled-Answer (err f) q = record { run = λ v h. (f, q, h) }

    try_admit-Answer :
        Yields
          (λ v. v ≡ w)
          (Answer ctx cfg reread n branch sha w)
          (Broken ctx cfg branch w)
          (try_admit ctx cfg reread n branch sha)
    unfolding try_admit is_queued latest_evicted
    try_admit-Answer = Yields-bind (settled-Answer (is_excluded ctx cfg branch) refl) λ excluded.
        Yields-given λ x.
          Yields-if excluded (λ t. declined (λ v h. rw h (refl, refl)))
            λ included. Yields-bind (Yields-got _ w) λ queued. Yields-given λ q.
              Yields-if queued (λ t. declined (λ v h. rw h (refl, refl)))
                λ idle. Yields-bind (Yields-got _ w) λ latest. Yields-given λ l.
                  Yields-bind (Yields-got _ w) λ barred. Yields-given λ b.
                    Yields-if barred (λ t. declined (λ v h. rw h (refl, refl)))
                      λ free.
                        Yields-attempt
                          (admit_live-Answer (record {
                            included = x ∙ ap ok included;
                            none_live = nothing_live _ (sym q ∙ idle);
                            unbarred =
                                ap (bars ctx.services.locale_compare reread w.store sha) (sym l)
                                ∙ sym b
                                ∙ free;
                          }))
                          (λ f. declined (λ v h. h))

pub try_admit-Outcome :
    (ctx : Context) (cfg : Settings) (reread : Bool) (n : ℕ) (branch sha : String) (w : World)
    → Outcome ctx cfg reread n branch sha w (try_admit ctx cfg reread n branch sha w)
try_admit-Outcome ctx cfg reread n branch sha w =
    (try_admit-Answer ctx cfg reread n branch sha w).run w refl
