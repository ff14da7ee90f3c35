-- ===== src/Steward/Admission/Outcome.antt =====
-- packages/merge-steward/src/service-queue.ts: what tryAdmit answers, and what it leaves behind.
pub mod Enqueue
pub mod Admit
use patchrelay.Prelude.{
  ℕ, ltb, String, ◌=?◌, =?_iff, Bool, true, false, not, Bool-cases, Option, none, some,
  Option-cases, List, [], ◌∷◌, ◌≡◌, refl, sym, subst, ap, inl, inr, if◌then◌else◌, or_else, ◌∙◌,
}
use patchrelay.Steward.Types.{QueueEntry, PrStatus, CheckResult}
use patchrelay.Steward.Checks.{PolicyStatus, CheckPolicyEvaluation, evaluate_check_policy}
use patchrelay.Steward.Store.{Store, insert}
use patchrelay.Steward.Store.Query.{get_entry_by_pr, list_all}
use patchrelay.Steward.Exec.{
  Failure, Result, ok, err, Exec, pure, raise, gets, modify, attempt, skip, ◌>>=◌, ◌>>◌,
}
use patchrelay.Steward.Exec.Yields.{
  Ends, Yields, Yields-pure, Yields-gets, Yields-if, Yields-bind, Yields-after, Yields-before,
  Yields-given, Yields-attempt, Yields-got, Yields-option,
}
use patchrelay.Steward.Context.{
  Context, World, Act, Call, History, ask, write, read_status, read_checks,
}
use patchrelay.Steward.Reconcile.Sanitize.{get_pr_status}
use patchrelay.Steward.Reconcile.Hold.{checks_for, evaluate}
use patchrelay.Steward.Reconcile.Land.{is_pass}
use patchrelay.Steward.Reconcile.Landing.Licensed.{passes, negated}
use patchrelay.Steward.Admission.Queue.{
  Settings, Params, new_entry, next_position, entry_by_pr, insert_entry, raced, overtake,
  insert_new, fresh_entry, enqueue,
}
use patchrelay.Steward.Admission.Admit.{
  is_excluded, get_latest_evicted_entry, bars, awaits_parent, params_of, admit_green,
  admit_approved, admit_live, latest_evicted, is_queued, try_admit,
}

-- Nothing but calls was made.
abbrev pub Untouched : World → World → Type 0
Untouched before after = (after.store ≡ before.store) × (after.policy ≡ before.policy)

module _ (ctx : Context) (cfg : Settings) where
  -- The entry that a pull request is given on its admission to a world.
  abbrev pub entry_for : World → Params → QueueEntry
  entry_for w p =
      new_entry ctx cfg p (next_position ctx w.store) (ctx.services.random_uuid w.history)
        (ctx.services.now w.history)

  -- One call after another has been made.
  abbrev pub calling : Call → World → World
  calling c w = record w { history = c ∷ w.history }

  abbrev pub looked : ℕ → PrStatus → List CheckResult → World → World
  looked n pr checks w =
      calling (read_checks pr.head_sha (ok checks)) (calling (read_status n (ok pr)) w)

  -- The admission of a pull request that was not queued, is not excluded or barred by its last eviction,
  -- and whose live head, review, checks and parent were read and allow it.
  pub record Admitted (reread : Bool) (n : ℕ) (branch sha : String) (before after : World)
      : Type 0 where
    pub included : is_excluded ctx cfg branch ≡ ok false
    pub none_live : get_entry_by_pr before.store ctx.repo_id n ≡ none
    pub unbarred :
        bars ctx.services.locale_compare reread before.store sha
          (get_latest_evicted_entry cfg.parse_date (list_all before.store ctx.repo_id) n)
        ≡ false
    pub pr : PrStatus
    pub same_head : pr.head_sha ≡ sha
    pub approved : pr.review_approved ≡ true
    pub checks : List CheckResult
    pub passed :
        (evaluate_check_policy before.policy.required_check_rules
          before.policy.require_all_checks_on_empty_required_set checks).status
        ≡ PolicyStatus.pass
    pub parented : awaits_parent ctx before.store pr.base_ref_name ≡ false
    pub result :
        let w = looked n pr checks before in
        after ≡ record w {
          store =
              insert w.store
                (entry_for w (params_of ctx cfg n branch sha pr))
                (ctx.services.stamp w.history);
        }

  -- What is thrown is the error of an exclude pattern that is none, before anything was done.
  abbrev pub Broken : String → World → World → Type 0
  Broken branch before after =
      (f : Failure) × (is_excluded ctx cfg branch ≡ err f) × (after ≡ before)

  -- It admits, or it leaves the store and the policy alone.
  abbrev pub Answer : Bool → ℕ → String → String → World → Bool → World → Type 0
  Answer reread n branch sha w true v = Admitted reread n branch sha w v
  Answer reread n branch sha w false v = Untouched w v

  abbrev pub Outcome : Bool → ℕ → String → String → World → Result Bool × World → Type 0
  Outcome reread n branch sha w = Ends (Answer reread n branch sha w) (Broken branch w)
