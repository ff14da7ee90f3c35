-- ===== src/Steward/Reconcile/Prepare.antt =====
-- packages/merge-steward/src/reconciler-prepare.ts: an entry waits, is sent away, or gets a candidate.
use patchrelay.Prelude.{
  String, ◌=?◌, Bool, true, false, not, ◌&&◌, Option, none, some, [], ◌∷◌, if◌then◌else◌, template,
  show, short, opt_eq, truthy, is_some, is_nil,
}
use patchrelay.Steward.Types.{QueueEntry, policy_blocked, preparing_head}
use patchrelay.Steward.Store.{Patch, no_patch}
use patchrelay.Steward.Exec.{pure, skip, ◌>>=◌, ◌>>◌}
use patchrelay.Steward.Context.{
  Context, Act, emit, ref, transition_to, fetch_started, stack_dependency_waiting,
  open_pr_ancestry_blocked, merge_waiting_recognition, clear_candidate, clean_ci,
}
use patchrelay.Steward.Reconcile.Evict.{evict_entry, supersede_admitted_head}
use patchrelay.Steward.Reconcile.Ancestry.{
  is_ancestor, find_unlanded_open_pr_ancestors, describe_open_pr_ancestors,
}
use patchrelay.Steward.Reconcile.Build.{build_integration, select_head}
use patchrelay.Steward.Reconcile.Git.{fetch, head_sha}

-- The predecessor failed on a base and has a CI run: its candidate awaits repair.
abbrev pub needs_repair : QueueEntry → Bool
needs_repair prev = is_some prev.last_failed_base_sha && is_some prev.ci_run_id

module _ (ctx : Context) where
  -- Whether the entry has to wait for the candidate of its predecessor.
  unfoldable pub predecessor_blocks : Option QueueEntry → Act Bool
  predecessor_blocks none = pure false
  predecessor_blocks (some prev) = elim prev.candidate_sha [
    | none ↦ pure false
    | some candidate ↦
        if not (truthy candidate)
        then pure false
        else if needs_repair prev
        then pure true
        else is_ancestor ctx prev.head_sha candidate >>= λ contained. pure (not contained)
  ]

  abbrev pub waiting_for_repair : Option QueueEntry → String
  waiting_for_repair none = ""
  waiting_for_repair (some prev) =
      template ("predecessor PR #" ∷ show prev.pr_number ∷ " is awaiting integration repair" ∷ [])

  unfoldable pub wait_for_predecessor : QueueEntry → Option QueueEntry → Act (Unit {0})
  wait_for_predecessor entry prev =
      let detail = waiting_for_repair prev in
      if opt_eq entry.wait_detail (some detail) then skip else do
        emit entry stack_dependency_waiting (some detail)
        transition_to ctx entry.id preparing_head
            (record no_patch { wait_detail = some (some detail) }) (some detail)

  -- The head is in main already: wait until GitHub says so.
  unfoldable pub wait_for_recognition : QueueEntry → String → Act (Unit {0})
  wait_for_recognition entry base_sha =
      let detail = template (
        "PR head "
        ∷ short 12 entry.head_sha
        ∷ " is already contained in main "
        ∷ short 12 base_sha
        ∷ "; waiting for GitHub merge recognition"
        ∷ []) in
      if opt_eq entry.wait_detail (some detail) then skip else do
        emit entry merge_waiting_recognition (some detail)
        transition_to ctx entry.id preparing_head (recognition_patch base_sha detail) (some detail)
    where
      recognition_patch : String → String → Patch
      recognition_patch base_sha detail =
          let base = clean_ci (clear_candidate no_patch) in
          record base { base_sha = some base_sha; wait_detail = some (some detail) }

  -- The ancestry that a head may not bring along; `true` says that the entry was evicted.
  unfoldable pub blocked_by_ancestry : QueueEntry → Bool → String → Act Bool
  blocked_by_ancestry entry false base_sha = pure false
  blocked_by_ancestry entry true base_sha = do
    blockers ← find_unlanded_open_pr_ancestors ctx (record {
      current_pr_number = entry.pr_number;
      current_branch = entry.branch;
      pr_head_sha = entry.head_sha;
      candidate_sha = entry.head_sha;
      base_sha = base_sha;
    })
    if is_nil blockers then pure false else do
      emit entry open_pr_ancestry_blocked (some (describe_open_pr_ancestors blockers))
      evict_entry ctx entry policy_blocked blockers
      pure true

  -- `baseSha !== entry.headSha && await isAncestor(entry.headSha, baseSha)`.
  unfoldable pub contained_in_base : QueueEntry → String → Act Bool
  contained_in_base entry base_sha =
      if base_sha =? entry.head_sha then pure false else is_ancestor ctx entry.head_sha base_sha

  -- The three ways on once the head is the admitted one.
  unfoldable pub choose_candidate :
      QueueEntry → Bool → Option QueueEntry → String → String → Act (Unit {0})
  choose_candidate entry is_head prev base base_sha = do
    contained ← contained_in_base entry base_sha
    if contained then wait_for_recognition entry base_sha else do
      based ← is_ancestor ctx base_sha entry.head_sha
      if based
          then select_head ctx entry is_head prev base_sha
          else build_integration ctx entry is_head prev base base_sha

  unfoldable pub prepare_on : QueueEntry → Bool → Option QueueEntry → String → Act (Unit {0})
  prepare_on entry is_head prev base = do
    base_sha ← head_sha ctx base
    current ← head_sha ctx (ref ctx entry.branch)
    if not (current =? entry.head_sha) then supersede_admitted_head ctx entry current else do
      evicted ← blocked_by_ancestry entry is_head base_sha
      if evicted then skip else choose_candidate entry is_head prev base base_sha

  abbrev pub candidate_of : Option QueueEntry → Option String
  candidate_of none = none
  candidate_of (some prev) = prev.candidate_sha

  -- `isHead ? ref(ctx, ctx.baseBranch) : prevEntry?.candidateSha ?? null`.
  abbrev pub prospective_base : Bool → Option QueueEntry → Option String
  prospective_base is_head prev =
      if is_head then some (ref ctx ctx.base_branch) else candidate_of prev

  abbrev pub prepare_from : QueueEntry → Bool → Option QueueEntry → Option String → Act (Unit {0})
  prepare_from entry is_head prev none = skip
  prepare_from entry is_head prev (some base) =
      if truthy base then prepare_on entry is_head prev base else skip

  unfoldable pub prepare_entry : QueueEntry → Bool → Option QueueEntry → Act (Unit {0})
  prepare_entry entry is_head prev = do
    emit entry fetch_started none
    fetch ctx
    blocked ← predecessor_blocks prev
    if blocked
        then wait_for_predecessor entry prev
        else prepare_from entry is_head prev (prospective_base is_head prev)
