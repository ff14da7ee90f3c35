-- ===== src/Steward/Reconcile/Landing.antt =====
-- packages/merge-steward/src/reconciler-merge.ts: what stands behind a push to main.
pub mod Facts
pub mod Calls
pub mod Ancestry
pub mod Final
pub mod Licensed
pub mod Tick
pub mod Tests
use patchrelay.Prelude.{
  String, Bool, true, false, Option, none, some, List, [], ◌∷◌, ◌++◌, map, or_else, ◌≡◌, ◌⊎◌, inl,
  inr, if◌then◌else◌, In, All,
}
use patchrelay.Steward.Types.{QueueEntry, PrStatus, CheckResult, RequiredCheck}
use patchrelay.Steward.Checks.{PolicyStatus, evaluate_check_policy}
use patchrelay.Steward.Policy.{Discovered, normalize_checks, normalize_check_rules, any_producer}
use patchrelay.Steward.Exec.{ok}
use patchrelay.Steward.Context.{
  Context, Call, History, OpenPr, ref, pushed, read_status, read_checks, read_head, read_ancestor,
  read_open_prs, read_merge_base, discovered_policy,
}
use patchrelay.Steward.Reconcile.Stable.{is_landing}
use patchrelay.Steward.Reconcile.Ancestry.{AncestryQuery, exempt}
use patchrelay.Steward.Reconcile.Sanitize.{live_base, recorded_base}
use patchrelay.Steward.Reconcile.Land.{landing_sha}

-- The calls since the last landing push.
abbrev pub fresh : History → History
fresh [] = []
fresh (c ∷ calls) = if is_landing c then [] else c ∷ fresh calls

-- The rules that a discovered policy asks for.
abbrev pub rules_of : Context → Discovered → List RequiredCheck
rules_of ctx d = normalize_check_rules ctx.services.locale_compare (
    or_else d.required_check_rules (
      map (any_producer ctx.services.locale_compare)
        (normalize_checks ctx.services.locale_compare d.required_checks)))

module _ (ctx : Context) where
  -- An open pull request shares no unlanded history with the commit: it is the entry's own or one
  -- stacked on it, it stands above the entry's head, or main has what it shares.
  abbrev pub Apart : AncestryQuery → History → OpenPr → Type 0
  Apart q calls pr =
      (exempt ctx q pr ≡ true)
      ⊎ In (read_ancestor q.pr_head_sha pr.head_sha (ok true)) calls
      ⊎ (shared : String) × In (read_merge_base pr.head_sha q.candidate_sha (ok shared)) calls
        × In (read_ancestor shared q.base_sha (ok true)) calls

  abbrev pub query_of : QueueEntry → String → AncestryQuery
  query_of entry base = record {
    current_pr_number = entry.pr_number;
    current_branch = entry.branch;
    pr_head_sha = entry.head_sha;
    candidate_sha = landing_sha entry;
    base_sha = base;
  }

  -- The calls show that the commit of the entry may land: they have read its pull request open,
  -- approved and at the entry's head, GitHub's policy, checks of the commit that pass it, a main from
  -- which the commit is a fast-forward, and open pull requests that are all apart from it.
  pub record Cleared (entry : QueueEntry) (pr : PrStatus) (sha : String) (calls : History)
      : Type 0 where
    pub commit : landing_sha entry ≡ sha
    pub status_read : In (read_status entry.pr_number (ok pr)) calls
    pub unmerged : pr.merged ≡ false
    pub is_open : pr.mergeable ≡ true
    pub approved : pr.review_approved ≡ true
    pub same_head : pr.head_sha ≡ entry.head_sha
    pub policy : Discovered
    pub policy_read : In (discovered_policy (ok policy)) calls
    pub checks : List CheckResult
    pub checks_read : In (read_checks sha (ok checks)) calls
    pub passed :
        (evaluate_check_policy
          (rules_of ctx policy)
          policy.require_all_checks_on_empty_required_set
          checks).status
        ≡ PolicyStatus.pass
    pub main : String
    pub main_read : In (read_head (ref ctx ctx.base_branch) (ok main)) calls
    pub forward : In (read_ancestor main sha (ok true)) calls
    pub open_prs : List OpenPr
    pub open_prs_read : In (read_open_prs (ok open_prs)) calls
    pub apart : All (Apart (query_of entry main) calls) open_prs

  module _ (K : QueueEntry → PrStatus → Type 0) where
    -- A push onto a named branch is not forced and is onto the base branch, and the calls since the
    -- push before it clear the commit for an entry and a pull request of which `K` holds.
    abbrev pub Allowed : Call → History → Type 0
    Allowed (pushed sha force (some branch) r) calls =
        (force ≡ false)
        × (branch ≡ ctx.base_branch)
        × (entry : QueueEntry) × (pr : PrStatus) × K entry pr
        × Cleared entry pr sha (fresh calls)
    Allowed _ calls = Unit

    abbrev pub Licensed : History → Type 0
    Licensed [] = Unit
    Licensed (c ∷ calls) = Allowed c calls × Licensed calls

    -- The second history is the first with licensed calls before it.
    pub record Tells (before after : History) : Type 0 where
      pub calls : History
      pub split : after ≡ calls ++ before
      pub licensed : Licensed calls
