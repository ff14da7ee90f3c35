-- ===== src/Steward/Reconcile/Safe/Prepare.antt =====
-- packages/merge-steward/src/reconciler-prepare.ts: a stable property across the preparation of an entry.
use patchrelay.Prelude.{String, Bool, true, false, Option, none, some, refl, Option-cases, inl, inr}
use patchrelay.Steward.Types.{QueueEntry}
use patchrelay.Steward.Exec.{Result, ok, err, Failure}
use patchrelay.Steward.Exec.Keeps.{Keeps, keeps_rules}
use patchrelay.Steward.Context.{Context, World, MergeResult}
use patchrelay.Steward.Reconcile.Stable.{
  Stable, basic, evict_entry-Safe, transition_to-Safe, supersede_admitted_head-Safe,
}
use patchrelay.Steward.Reconcile.Git.{fetch, head_sha, push, fingerprint}
use patchrelay.Steward.Reconcile.Build.{
  select_head, rebuild_predecessor, build_failed, publish_conflict, publish_candidate, after_build,
  build_integration,
}
use patchrelay.Steward.Reconcile.Prepare.{
  predecessor_blocks, wait_for_predecessor, wait_for_recognition, blocked_by_ancestry,
  contained_in_base, choose_candidate, prepare_on, prepare_from, prepare_entry,
}
use patchrelay.Steward.Reconcile.Safe.{is_ancestor-Safe, find_unlanded-Safe}

module _ {P : World → Type 0} (st : Stable P) (ctx : Context) where
  pub fetch-Safe : Keeps P (fetch ctx)
  unfolding fetch
  fetch-Safe = search basic

  pub head_sha-Safe : (name : String) → Keeps P (head_sha ctx name)
  unfolding head_sha
  head_sha-Safe name = search basic

  pub push-Safe : (name : String) (force : Bool) → Keeps P (push ctx name force none)
  unfolding push
  push-Safe name force = search basic

  pub fingerprint-Safe : Keeps P (fingerprint ctx)
  unfolding fingerprint
  fingerprint-Safe = search basic

  pub ruleset git_rules =
      (basic, fetch-Safe, head_sha-Safe, push-Safe, fingerprint-Safe, is_ancestor-Safe)

  select_head-Safe :
      (e : QueueEntry) (h : Bool) (prev : Option QueueEntry) (base : String)
      → Keeps P (select_head ctx e h prev base)
  unfolding select_head
  select_head-Safe e h prev base = search git_rules depth 12

  rebuild_predecessor-Safe : (id : Option String) → Keeps P (rebuild_predecessor ctx id)
  unfolding rebuild_predecessor
  rebuild_predecessor-Safe none = search basic
  rebuild_predecessor-Safe (some id) = transition_to-Safe st ctx id _ _ _ refl

  build_failed-Safe :
      (e : QueueEntry) (h : Bool) (prev : Option QueueEntry) (f : Failure)
      → Keeps P (build_failed ctx e h prev f)
  unfolding build_failed
  build_failed-Safe e true prev f = search (basic, evict_entry-Safe)
  build_failed-Safe e false prev f = search (basic, rebuild_predecessor-Safe)

  publish_conflict-Safe :
      (e : QueueEntry) (h : Bool) (prev : Option QueueEntry) (base name : String) (r : MergeResult)
      → Keeps P (publish_conflict ctx e h prev base name r)
  unfolding publish_conflict
  publish_conflict-Safe e h prev base name r = search git_rules depth 12

  publish_candidate-Safe :
      (e : QueueEntry) (h : Bool) (prev : Option QueueEntry) (base name sha : String)
      → Keeps P (publish_candidate ctx e h prev base name sha)
  unfolding publish_candidate
  publish_candidate-Safe e h prev base name sha = search git_rules depth 14

  after_build-Safe :
      (e : QueueEntry) (h : Bool) (prev : Option QueueEntry) (base name : String)
      (r : Result MergeResult)
      → Keeps P (after_build ctx e h prev base name r)
  after_build-Safe e h prev base name (err f) = build_failed-Safe e h prev f
  after_build-Safe e h prev base name (ok r) =
      search (keeps_rules, publish_conflict-Safe, publish_candidate-Safe)

  build_integration-Safe :
      (e : QueueEntry) (h : Bool) (prev : Option QueueEntry) (base sha : String)
      → Keeps P (build_integration ctx e h prev base sha)
  unfolding build_integration
  build_integration-Safe e h prev base sha = search (basic, after_build-Safe) depth 12

  predecessor_blocks-Safe : (prev : Option QueueEntry) → Keeps P (predecessor_blocks ctx prev)
  unfolding predecessor_blocks
  predecessor_blocks-Safe none = search basic
  predecessor_blocks-Safe (some prev) = elim (Option-cases prev.candidate_sha) [
    | inl n ↦ rw (n, predecessor_blocks) (search basic)
    | inr (c, q) ↦ rw (q, predecessor_blocks) (search (basic, is_ancestor-Safe))
  ]

  wait_for_predecessor-Safe :
      (e : QueueEntry) (prev : Option QueueEntry) → Keeps P (wait_for_predecessor ctx e prev)
  unfolding wait_for_predecessor
  wait_for_predecessor-Safe e prev = search basic

  wait_for_recognition-Safe :
      (e : QueueEntry) (base : String) → Keeps P (wait_for_recognition ctx e base)
  unfolding wait_for_recognition
  wait_for_recognition-Safe e base = search basic

  blocked_by_ancestry-Safe :
      (e : QueueEntry) (h : Bool) (base : String) → Keeps P (blocked_by_ancestry ctx e h base)
  unfolding blocked_by_ancestry
  blocked_by_ancestry-Safe e false base = search basic
  blocked_by_ancestry-Safe e true base = search (basic, find_unlanded-Safe, evict_entry-Safe)

  contained_in_base-Safe : (e : QueueEntry) (base : String) → Keeps P (contained_in_base ctx e base)
  unfolding contained_in_base
  contained_in_base-Safe e base = search (basic, is_ancestor-Safe)

  choose_candidate-Safe :
      (e : QueueEntry) (h : Bool) (prev : Option QueueEntry) (base sha : String)
      → Keeps P (choose_candidate ctx e h prev base sha)
  unfolding choose_candidate
  choose_candidate-Safe e h prev base sha = search (
    git_rules, contained_in_base-Safe, wait_for_recognition-Safe, select_head-Safe,
    build_integration-Safe,
  )

  prepare_on-Safe :
      (e : QueueEntry) (h : Bool) (prev : Option QueueEntry) (base : String)
      → Keeps P (prepare_on ctx e h prev base)
  unfolding prepare_on
  prepare_on-Safe e h prev base =
      search
        (git_rules, supersede_admitted_head-Safe, blocked_by_ancestry-Safe, choose_candidate-Safe)
        depth 12

  prepare_from-Safe :
      (e : QueueEntry) (h : Bool) (prev : Option QueueEntry) (base : Option String)
      → Keeps P (prepare_from ctx e h prev base)
  prepare_from-Safe e h prev none = search basic
  prepare_from-Safe e h prev (some base) = search (basic, prepare_on-Safe)

  pub prepare_entry-Safe :
      (e : QueueEntry) (h : Bool) (prev : Option QueueEntry) → Keeps P (prepare_entry ctx e h prev)
  unfolding prepare_entry
  prepare_entry-Safe e h prev =
      search (git_rules, predecessor_blocks-Safe, wait_for_predecessor-Safe, prepare_from-Safe)
        depth 12
