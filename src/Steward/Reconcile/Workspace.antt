-- ===== src/Steward/Reconcile/Workspace.antt =====
-- packages/merge-steward/src/reconciler-validate.ts: the integration workspace against its base and
-- the commits that were pushed to it.
use patchrelay.Prelude.{
  String, Bool, true, false, not, Option, none, some, [], ◌∷◌, if◌then◌else◌, template, short,
  or_else, opt_eq, truthy,
}
use patchrelay.Steward.Types.{
  QueueEntry, integration_repair, preparing_head, validating, QueueEntryStatus,
}
use patchrelay.Steward.Store.{Store, no_patch, get_entry}
use patchrelay.Steward.Exec.{pure, gets, ◌>>=◌, ◌>>◌}
use patchrelay.Steward.Context.{
  Context, Act, emit, ref, transition_to, invalidated, candidate_selected, clear_candidate,
  clean_ci,
}
use patchrelay.Steward.Reconcile.Ancestry.{is_ancestor}
use patchrelay.Steward.Reconcile.Git.{fetch, head_sha, fingerprint}
use patchrelay.Steward.Reconcile.Hold.{Place, invalidate_after}

abbrev pub is_merged : QueueEntryStatus → Bool
is_merged QueueEntryStatus.merged = true
is_merged QueueEntryStatus.queued = false
is_merged QueueEntryStatus.preparing_head = false
is_merged QueueEntryStatus.validating = false
is_merged QueueEntryStatus.merging = false
is_merged QueueEntryStatus.evicted = false
is_merged QueueEntryStatus.dequeued = false
is_merged QueueEntryStatus.superseded = false

module _ (ctx : Context) where
  -- `dependency && dependency.status !== "merged"`: the base is the dependency's candidate.
  abbrev pub live_dependency : Option QueueEntry → Option QueueEntry
  live_dependency none = none
  live_dependency (some dep) = if is_merged dep.status then none else some dep

  abbrev pub entry_at : Option String → Store → Option QueueEntry
  entry_at none s = none
  entry_at (some id) s = if truthy id then get_entry s id else none

  unfoldable pub expected_base : QueueEntry → Act (Option String)
  expected_base entry = do
    dependency ← gets (λ w. live_dependency (entry_at entry.candidate_based_on w.store))
    elim dependency [
      | some dep ↦ pure dep.candidate_sha
      | none ↦ head_sha ctx (ref ctx ctx.base_branch) >>= λ sha. pure (some sha)
    ]

  -- `expectedBaseSha && await isAncestor(expectedBaseSha, liveSha)`.
  unfoldable pub descends_from : Option String → String → Act Bool
  descends_from none live_sha = pure false
  descends_from (some base) live_sha =
      if truthy base then is_ancestor ctx base live_sha else pure false

  unfoldable pub drop_workspace : QueueEntry → Place → Act (Option QueueEntry)
  drop_workspace entry place = do
    emit entry invalidated
        (some "integration workspace no longer descends from its prospective base")
    transition_to ctx entry.id preparing_head (clean_ci (clear_candidate no_patch))
        (some "stale integration workspace; rebuilding")
    invalidate_after ctx place
    pure none

  unfoldable pub accept_repair :
      QueueEntry → Place → String → Option String → Act (Option QueueEntry)
  accept_repair entry place live_sha base = do
    emit entry candidate_selected (some "external non-force integration repair detected")
    print ← fingerprint ctx
    let ci = clean_ci no_patch
    transition_to ctx entry.id validating
        (record ci {
          base_sha = base;
          candidate_kind = some (some integration_repair);
          candidate_policy_fingerprint = some (some print);
          candidate_ref = some entry.candidate_ref;
          candidate_sha = some (some live_sha);
          candidate_based_on = some entry.candidate_based_on;
          last_failed_base_sha = some (some (or_else entry.last_failed_base_sha entry.base_sha));
          wait_detail = some (some "integration repair detected; validating exact candidate");
        })
        (some (template ("integration workspace advanced to " ∷ short 12 live_sha ∷ [])))
    invalidate_after ctx place
    gets (λ w. get_entry w.store entry.id)

  unfoldable pub refresh_at : QueueEntry → Place → String → Act (Option QueueEntry)
  refresh_at entry place candidate_ref = do
    fetch ctx
    live_sha ← head_sha ctx (ref ctx candidate_ref)
    base ← expected_base entry
    fits ← descends_from base live_sha
    if not fits
        then drop_workspace entry place
        else if not (opt_eq (some live_sha) entry.candidate_sha)
        then accept_repair entry place live_sha base
        else pure (some entry)

  -- `none` says that the entry was sent back.
  unfoldable pub refresh_integration_workspace : QueueEntry → Place → Act (Option QueueEntry)
  refresh_integration_workspace entry place = elim entry.candidate_ref [
    | none ↦ pure (some entry)
    | some candidate_ref ↦
        if truthy candidate_ref then refresh_at entry place candidate_ref else pure (some entry)
  ]
