-- ===== src/Steward/Reconcile/Safe.antt =====
-- packages/merge-steward/src/reconciler-sanitize.ts, open-pr-ancestry.ts and reconciler-post-merge.ts: a
-- stable property across sanitizing.
pub mod Prepare
pub mod Validate
pub mod Merge
pub mod Tick
use patchrelay.Prelude.{
  ℕ, zero, suc, String, Bool, true, false, Option, none, some, List, [], ◌∷◌, ◌++◌, ◌≡◌, refl,
  if◌then◌else◌, truthy, Option-cases, inl, inr, is_nil, or_else, present,
}
use patchrelay.Steward.Types.{
  QueueEntry, QueueEntryStatus, CandidateKind, CheckResult, CiStatus, PrStatus, OpenPrAncestor,
}
use patchrelay.Steward.Store.{Store, Stamp, Patch, no_patch}
use patchrelay.Steward.Store.Mutate.{transition, update_base_ref, insert_incident, dequeue}
use patchrelay.Steward.Exec.{
  Failure, Result, ok, err, Exec, pure, gets, raise, attempt, modify, for_each, ◌>>=◌,
}
use patchrelay.Steward.Exec.Keeps.{Keeps, keeps_rules, Keeps-pure, Keeps-bind}
use patchrelay.Steward.Checks.{PolicyStatus, CheckPolicyEvaluation}
use patchrelay.Steward.Context.{
  Context, World, Act, Call, History, Action, OpenPr, MergeResult, ask, emit, write, transition_to,
}
use patchrelay.Steward.Reconcile.Stable.{
  Stable, basic, ask-Safe, emit-Safe, transition_to-Safe, active-Safe, cleanup_candidate-Safe,
  invalidate_downstream-Safe, invalidate_from-Safe, supersede_admitted_head-Safe, evict_entry-Safe,
}
use patchrelay.Steward.Reconcile.Ancestry.{
  AncestryQuery, merge_base, is_ancestor, stands_on_head, blocker_of, blockers_of,
  find_unlanded_open_pr_ancestors,
}
use patchrelay.Steward.Reconcile.PostMerge.{verify_post_merge_status}
use patchrelay.Steward.Reconcile.Sanitize.{
  get_pr_status, sanitize_merged, sanitize_head, sanitize_base, sanitize_closed_pr,
  sanitize_against, sanitize_duplicate, sanitize_canonical, sanitize_entry,
}
use patchrelay.Steward.Reconcile.Git.{fetch, head_sha, push, fingerprint}

module _ {P : World → Type 0} (st : Stable P) (ctx : Context) where
  ruleset evicting = (
    basic, active-Safe, cleanup_candidate-Safe, invalidate_downstream-Safe, invalidate_from-Safe,
    supersede_admitted_head-Safe, evict_entry-Safe,
  )

  pub is_ancestor-Safe : (a b : String) → Keeps P (is_ancestor ctx a b)
  unfolding is_ancestor
  is_ancestor-Safe a b = search basic

  blocker_of-Safe : (q : AncestryQuery) (pr : OpenPr) → Keeps P (blocker_of ctx q pr)
  unfolding blocker_of stands_on_head merge_base
  blocker_of-Safe q pr = search (basic, is_ancestor-Safe) depth 12

  blockers_of-Safe : (q : AncestryQuery) (prs : List OpenPr) → Keeps P (blockers_of ctx q prs)
  unfolding blockers_of
  blockers_of-Safe q [] = search basic
  blockers_of-Safe q (pr ∷ prs) =
      Keeps-bind _ _ (blocker_of-Safe q pr)
        (λ here. Keeps-bind _ _ (blockers_of-Safe q prs) (λ rest. Keeps-pure (here ++ rest)))

  pub find_unlanded-Safe : (q : AncestryQuery) → Keeps P (find_unlanded_open_pr_ancestors ctx q)
  unfolding find_unlanded_open_pr_ancestors
  find_unlanded-Safe q = search (basic, blockers_of-Safe)

  pub verify-Safe : (e : QueueEntry) → Keeps P (verify_post_merge_status ctx e)
  unfolding verify_post_merge_status
  verify-Safe e = search basic depth 12

  pub update_base_ref-Safe :
      (id : String) (base detail : Option String)
      → Keeps P (write ctx (λ s t. update_base_ref s id base detail t))
  unfolding write modify
  update_base_ref-Safe id base detail = record { held = λ w h. st.bases w id base detail _ h }

  dequeue-Safe : (id : String) → Keeps P (write ctx (λ s t. dequeue s id t))
  unfolding write modify dequeue
  dequeue-Safe id = record { held = λ w h. st.moves w id _ no_patch none _ refl h }

  pub get_pr_status-Safe : (n : ℕ) → Keeps P (get_pr_status ctx n)
  unfolding get_pr_status
  get_pr_status-Safe n = search basic

  ruleset sanitizing = (
    evicting, is_ancestor-Safe, find_unlanded-Safe, verify-Safe, update_base_ref-Safe, dequeue-Safe,
    get_pr_status-Safe,
  )

  sanitize_against-Safe : (e : QueueEntry) (pr : PrStatus) → Keeps P (sanitize_against ctx e pr)
  unfolding sanitize_against sanitize_merged sanitize_head sanitize_base sanitize_closed_pr
  sanitize_against-Safe e pr = search sanitizing depth 12

  sanitize_canonical-Safe :
      (e : QueueEntry) (other : Option QueueEntry) → Keeps P (sanitize_canonical ctx e other)
  unfolding sanitize_canonical sanitize_duplicate
  sanitize_canonical-Safe e (some other) = search sanitizing depth 12
  sanitize_canonical-Safe e none = search (sanitizing, sanitize_against-Safe)

  pub sanitize_entry-Safe : (e : QueueEntry) → Keeps P (sanitize_entry ctx e)
  unfolding sanitize_entry
  sanitize_entry-Safe e = search (basic, sanitize_canonical-Safe)
