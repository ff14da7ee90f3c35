-- ===== src/Steward/Reconcile/Tests.antt =====
-- packages/merge-steward/src/reconciler.ts: a tick over a store with one queued entry.
use Prim.Native.Nat.{Ordering}
use native.Mathlib.Omega.{arith}
use patchrelay.Prelude.{none, some, [], true, false}
use patchrelay.Steward.Types.{QueueEntry, queued, CiStatus}
use patchrelay.Steward.Store.{Stamp, empty, insert}
use patchrelay.Steward.Store.Sound.{Settled}
use patchrelay.Steward.Store.Traced.{Follows}
use patchrelay.Steward.Exec.{ok}
use patchrelay.Steward.Context.{Context, Services, World}
use patchrelay.Steward.Reconcile.Tick.{reconcile}
use patchrelay.Steward.Reconcile.Kept.{reconcile-Follows}
use patchrelay.Steward.Tests.{sample_entry}

abbrev pub stamp : Stamp
stamp = record { changed_at = "t1"; logged_at = "t1" }

-- An environment in which every call succeeds.
abbrev pub calm : Services
calm = record {
  fetch = λ h. ok tt;
  head_sha = λ name h. ok "bbbb";
  merge_base = λ a b h. ok "bbbb";
  is_ancestor = λ a b h. ok true;
  push = λ name force target h. ok tt;
  create_workspace = λ name base h. ok "bbbb";
  build_speculative = λ branch base name message h.
      ok (record { success = true; sha = some "cccc"; conflict_files = [] });
  delete_speculative = λ name h. ok tt;
  trigger_run = λ branch sha h. ok "run";
  rerun_run = λ run branch sha h. ok "run";
  get_ci_status = λ run h. ok CiStatus.pass;
  get_status = λ n h. ok (record {
    number = n;
    branch = "feature";
    head_sha = "aaaa";
    title = none;
    base_ref_name = some "main";
    mergeable = true;
    review_decision = some "APPROVED";
    review_approved = true;
    merged = false;
  });
  list_checks_for_ref = λ sha h. ok [];
  list_open_prs = λ h. ok [];
  list_open_prs_by_base = λ branch h. ok [];
  find_pr_by_branch = λ branch h. ok none;
  set_base_branch = λ n branch h. ok tt;
  delete_branch = λ n h. ok tt;
  list_labels = λ n h. ok [];
  set_labels = λ n add remove h. ok tt;
  report_eviction = λ e i h. ok tt;
  refresh_policy = λ h. ok (record {
    required_checks = [];
    required_check_rules = none;
    require_all_checks_on_empty_required_set = true;
  });
  now = λ h. "t1";
  now_ms = λ h. 1;
  stamp = λ h. stamp;
  random_uuid = λ h. "uuid";
  locale_compare = λ a b. Ordering.eq;
  digest = λ rules all. "print";
  redact = λ text. text;
}

abbrev pub main_queue : Context
main_queue = record {
  repo_id = "repo";
  base_branch = "main";
  remote_prefix = "origin/";
  speculative_depth = 3;
  flaky_retries = 1;
  queue_state_labels = none;
  services = calm;
}

abbrev admitted : QueueEntry
admitted = sample_entry "e1" 1 queued none

admitted-Settled : Settled admitted
admitted-Settled h = ground arith

abbrev pub world : World
world = record {
  store = insert empty admitted stamp;
  policy = record {
    required_checks = [];
    required_check_rules = [];
    require_all_checks_on_empty_required_set = true;
    fetched_at = none;
    last_issue_refresh_at = 0;
    issue_refresh_cooldown_ms = 60000;
    last_refresh_reason = none;
    last_refresh_changed = none;
  };
  history = [];
}

reconcile-Follows_example : Follows world.store (reconcile main_queue world).1.store
reconcile-Follows_example = reconcile-Follows main_queue world
