-- ===== src/Steward/Reconcile/Build.antt =====
-- packages/merge-steward/src/reconciler-prepare.ts: the candidate of an entry is its head, or an
-- integration commit that is built and published.
use patchrelay.Prelude.{
  String, Bool, true, false, not, Option, none, some, List, [], ◌∷◌, if◌then◌else◌, template, join,
  show, short, or_else, is_nil, last_segment, dashes_to_spaces,
}
use patchrelay.Steward.Types.{
  QueueEntry, CandidateKind, integration, branch_local, preparing_head, validating,
}
use patchrelay.Steward.Store.{Patch, no_patch}
use patchrelay.Steward.Exec.{Result, ok, err, Failure, pure, raise, attempt, ◌>>=◌, ◌>>◌}
use patchrelay.Steward.Context.{
  Context, Act, MergeResult, ask, emit, transition_to, built, triggered, candidate_selected,
  integration_build_started, branch_unreachable, invalidated, integration_build_conflict,
  integration_build_succeeded, ci_triggered, clear_candidate, clean_ci, candidate_ref_name,
}
use patchrelay.Steward.Reconcile.Evict.{type_error, evict_entry}
use patchrelay.Steward.Reconcile.Git.{fingerprint, push}

abbrev pub id_of : Option QueueEntry → Option String
id_of none = none
id_of (some e) = some e.id

-- `isHead ? null : prevEntry!.id`.
abbrev pub based_on : Bool → Option QueueEntry → Option String
based_on is_head prev = if is_head then none else id_of prev

module _ (ctx : Context) where
  abbrev pub head_patch : String → String → String → Option String → Patch
  head_patch base_sha print head dep =
      let base = clean_ci no_patch in
      record base {
        base_sha = some base_sha;
        candidate_kind = some (some CandidateKind.head);
        candidate_policy_fingerprint = some (some print);
        candidate_ref = some none;
        candidate_sha = some (some head);
        candidate_based_on = some dep;
        wait_detail = some none;
      }

  -- The prospective base is in the head's history: the head itself is the candidate.
  unfoldable pub select_head : QueueEntry → Bool → Option QueueEntry → String → Act (Unit {0})
  select_head entry is_head prev base_sha = do
    print ← fingerprint ctx
    emit entry candidate_selected none
    transition_to ctx entry.id validating
        (head_patch base_sha print entry.head_sha (based_on is_head prev))
        (some (
          template (
            "head candidate "
            ∷ short 12 entry.head_sha
            ∷ " selected on "
            ∷ short 12 base_sha
            ∷ [])))

  -- `prevEntry!.id` throws where there is no predecessor.
  unfoldable pub rebuild_predecessor : Option String → Act (Unit {0})
  rebuild_predecessor none = raise type_error
  rebuild_predecessor (some id) =
      transition_to ctx id preparing_head (clean_ci (clear_candidate no_patch))
        (some "candidate ref missing, rebuilding")

  -- The build threw: the head is evicted, a later entry is rebuilt with its predecessor.
  unfoldable pub build_failed : QueueEntry → Bool → Option QueueEntry → Failure → Act (Unit {0})
  build_failed entry true prev f = do
    emit entry branch_unreachable
        (some (template ("git error during candidate build: " ∷ f.message ∷ [])))
    evict_entry ctx entry branch_local []
  build_failed entry false prev f = do
    emit entry invalidated (some "stale integration candidate, rebuilding")
    rebuild_predecessor (id_of prev)
    transition_to ctx entry.id preparing_head (clean_ci (clear_candidate no_patch))
        (some "stale dependency, rebuilding")

  abbrev pub conflict_detail : List String → String
  conflict_detail files = template (
      "integration conflict; workspace awaits repair"
      ∷ (if is_nil files then "" else template (" in " ∷ join ", " files ∷ []))
      ∷ [])

  abbrev pub integration_patch : String → String → String → Option String → Patch
  integration_patch base_sha print spec_name dep = record no_patch {
    base_sha = some base_sha;
    candidate_kind = some (some integration);
    candidate_policy_fingerprint = some (some print);
    candidate_ref = some (some spec_name);
    candidate_based_on = some dep;
  }

  -- A conflict: the workspace at the base is published for repair.
  unfoldable pub publish_conflict :
      QueueEntry → Bool → Option QueueEntry → String → String → MergeResult → Act (Unit {0})
  publish_conflict entry is_head prev base_sha spec_name result = do
    emit entry integration_build_conflict none
    push ctx spec_name true none
    print ← fingerprint ctx
    let base = clean_ci (integration_patch base_sha print spec_name (based_on is_head prev))
    transition_to ctx entry.id validating
        (record base {
          candidate_sha = some (some base_sha);
          last_failed_base_sha = some (some base_sha);
          wait_detail = some (some (conflict_detail result.conflict_files));
        })
        (some (
          template (
            "integration workspace published at "
            ∷ short 12 base_sha
            ∷ " for conflict repair"
            ∷ [])))

  -- A clean build: the candidate is pushed and its CI run is triggered.
  unfoldable pub publish_candidate :
      QueueEntry → Bool → Option QueueEntry → String → String → String → Act (Unit {0})
  publish_candidate entry is_head prev base_sha spec_name candidate = do
    emit entry integration_build_succeeded none
    emit entry candidate_selected none
    push ctx spec_name true none
    run_id ← ask (triggered spec_name candidate) (ctx.services.trigger_run spec_name candidate)
    emit entry ci_triggered none
    print ← fingerprint ctx
    let base = integration_patch base_sha print spec_name (based_on is_head prev)
    transition_to ctx entry.id validating
        (record base {
          ci_run_id = some (some run_id);
          last_failed_base_sha = some none;
          candidate_sha = some (some candidate);
        })
        (some (template ("integration candidate ready, CI " ∷ short 12 run_id ∷ [])))

  abbrev pub merge_message : QueueEntry → String
  merge_message entry = template (
      "Merge PR #"
      ∷ show entry.pr_number
      ∷ ": "
      ∷ dashes_to_spaces (last_segment entry.branch)
      ∷ [])

  abbrev pub after_build :
      QueueEntry → Bool → Option QueueEntry → String → String → Result MergeResult → Act (Unit {0})
  after_build entry is_head prev base_sha spec_name (err f) = build_failed entry is_head prev f
  after_build entry is_head prev base_sha spec_name (ok result) =
      if not result.success
      then publish_conflict entry is_head prev base_sha spec_name result
      else publish_candidate entry is_head prev base_sha spec_name
          (or_else result.sha entry.head_sha)

  unfoldable pub build_integration :
      QueueEntry → Bool → Option QueueEntry → String → String → Act (Unit {0})
  build_integration entry is_head prev base base_sha = do
    let spec_name = candidate_ref_name ctx.base_branch entry.pr_number
    emit entry integration_build_started none
    result ←
        attempt
          (ask (built entry.branch base spec_name (merge_message entry))
              (ctx.services.build_speculative entry.branch base spec_name (merge_message entry))
            >>= λ r. pure (ok r))
          (λ f. pure (err f))
    after_build entry is_head prev base_sha spec_name result
