-- ===== src/Steward/Reconcile/Sanitize.antt =====
-- packages/merge-steward/src/reconciler-sanitize.ts: an entry against what GitHub says of its pull
-- request.
use patchrelay.Prelude.{
  ℕ, String, ◌=?◌, Bool, true, false, not, ◌&&◌, Option, none, some, [], ◌∷◌, if◌then◌else◌,
  template, show, or_else,
}
use patchrelay.Steward.Types.{QueueEntry, merged, PrStatus}
use patchrelay.Steward.Store.{Patch, no_patch}
use patchrelay.Steward.Store.Query.{get_entry_by_pr}
use patchrelay.Steward.Store.Mutate.{dequeue, update_base_ref}
use patchrelay.Steward.Exec.{pure, gets, attempt, ◌>>=◌, ◌>>◌}
use patchrelay.Steward.Context.{
  Context, Act, ask, emit, write, transition_to, read_status, clean_candidate_ref,
  sanitized_duplicate, merge_external, invalidated, sanitized_closed,
}
use patchrelay.Steward.Reconcile.Evict.{cleanup_candidate, supersede_admitted_head}
use patchrelay.Steward.Reconcile.PostMerge.{PostMergeVerificationResult, verify_post_merge_status}

-- The patch of a landed entry.
abbrev pub landed_patch : PostMergeVerificationResult → String → Patch
landed_patch v now =
    let base = clean_candidate_ref no_patch in
    record base {
      post_merge_status = some (some v.post_merge_status);
      post_merge_sha = some (some v.post_merge_sha);
      post_merge_summary = some (some v.post_merge_summary);
      post_merge_checked_at = some (some now);
    }

module _ (ctx : Context) where
  unfoldable pub get_pr_status : ℕ → Act PrStatus
  get_pr_status pr_number = ask (read_status pr_number) (ctx.services.get_status pr_number)

  unfoldable pub base_change : String → String → String
  base_change old new = template ("PR base changed from " ∷ old ∷ " to " ∷ new ∷ [])

  unfoldable pub sanitize_merged : QueueEntry → Act Bool
  sanitize_merged entry = do
    verification ←
        verify_post_merge_status ctx (record entry { post_merge_sha = some entry.head_sha })
    emit entry merge_external (
        some (
          template (
            "PR #"
            ∷ show entry.pr_number
            ∷ " already merged on GitHub (detected in sanitize)"
            ∷ [])))
    cleanup_candidate ctx entry
    now ← gets (λ w. ctx.services.now w.history)
    transition_to ctx entry.id merged (landed_patch verification now)
        (some "merged externally (sanitize)")
    pure true

  unfoldable pub sanitize_head : QueueEntry → PrStatus → Act Bool
  sanitize_head entry pr = do supersede_admitted_head ctx entry pr.head_sha; pure true

  abbrev pub live_base : PrStatus → String
  live_base pr = or_else pr.base_ref_name ctx.base_branch

  abbrev pub recorded_base : QueueEntry → String
  recorded_base entry = or_else entry.base_ref_name ctx.base_branch

  unfoldable pub sanitize_base : QueueEntry → PrStatus → Act Bool
  sanitize_base entry pr = do
    let change = base_change (recorded_base entry) (live_base pr)
    emit entry invalidated (some change)
    cleanup_candidate ctx entry
    write ctx (λ s t. update_base_ref s entry.id (some (live_base pr)) (some change) t)
    pure true

  unfoldable pub sanitize_closed_pr : QueueEntry → Act Bool
  sanitize_closed_pr entry = do
    emit entry sanitized_closed
        (some (template ("PR #" ∷ show entry.pr_number ∷ " is closed on GitHub" ∷ [])))
    cleanup_candidate ctx entry
    write ctx (λ s t. dequeue s entry.id t)
    pure true

  unfoldable pub sanitize_against : QueueEntry → PrStatus → Act Bool
  sanitize_against entry pr =
      if pr.merged
      then sanitize_merged entry
      else if not (pr.head_sha =? entry.head_sha)
      then sanitize_head entry pr
      else if not (live_base pr =? recorded_base entry)
      then sanitize_base entry pr
      else if not pr.mergeable && not pr.merged
      then sanitize_closed_pr entry
      else pure false

  -- `canonical && canonical.id !== entry.id`.
  abbrev is_duplicate : QueueEntry → Option QueueEntry → Option QueueEntry
  is_duplicate entry none = none
  is_duplicate entry (some canonical) = if canonical.id =? entry.id then none else some canonical

  unfoldable pub sanitize_duplicate : QueueEntry → QueueEntry → Act Bool
  sanitize_duplicate entry canonical = do
    emit entry sanitized_duplicate (some (template ("superseded by entry " ∷ canonical.id ∷ [])))
    cleanup_candidate ctx entry
    write ctx (λ s t. dequeue s entry.id t)
    pure true

  unfoldable pub sanitize_canonical : QueueEntry → Option QueueEntry → Act Bool
  sanitize_canonical entry (some canonical) = sanitize_duplicate entry canonical
  sanitize_canonical entry none =
      attempt (get_pr_status entry.pr_number >>= sanitize_against entry) (λ _. pure false)

  unfoldable pub sanitize_entry : QueueEntry → Act Bool
  sanitize_entry entry = do
    canonical ← gets (λ w. get_entry_by_pr w.store ctx.repo_id entry.pr_number)
    sanitize_canonical entry (is_duplicate entry canonical)
