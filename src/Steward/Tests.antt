-- ===== src/Steward/Tests.antt =====
-- packages/merge-steward/src: an entry and checks for the tests, and the selection of downstream
-- entries and the classification of failures on small inputs.
use patchrelay.Prelude.{
  ◌≡◌, ◌↔◌, ◌≢◌, Option, none, some, List, [], ◌∷◌, String, ℕ, In, All, arith, ap, ◌∙◌, ◌=?◌,
  =?_iff, inl, inr,
}
use patchrelay.Steward.Types.{
  QueueEntry, QueueEntryStatus, CheckResult, CheckConclusion, success, failure, main_broken,
  branch_local, validating,
}
use patchrelay.Steward.Store.Sound.{some-injective}
use patchrelay.Steward.Downstream.{select_downstream, Descends, InOrder, select_downstream_iff}
use patchrelay.Steward.Classify.{
  classify_failure, failed, FailsOnMain, classify_failure-main_broken,
  classify_failure-branch_local,
}

abbrev pub sample_entry : String → ℕ → QueueEntryStatus → Option String → QueueEntry
sample_entry id position status dep = record {
  id = id;
  repo_id = "repo";
  pr_number = position;
  branch = "feature";
  head_sha = "aaaa";
  base_sha = "bbbb";
  status = status;
  position = position;
  priority = 0;
  generation = 1;
  ci_run_id = none;
  ci_retries = 0;
  retry_attempts = 0;
  max_retries = 2;
  last_failed_base_sha = none;
  issue_key = none;
  candidate_kind = none;
  candidate_policy_fingerprint = none;
  candidate_ref = none;
  candidate_sha = none;
  candidate_based_on = dep;
  wait_detail = none;
  post_merge_status = none;
  pr_title = none;
  post_merge_sha = none;
  post_merge_summary = none;
  post_merge_checked_at = none;
  base_ref_name = none;
  enqueued_at = "t0";
  updated_at = "t0";
  decided_at = none;
}

abbrev first_entry : QueueEntry
first_entry = sample_entry "e1" 1 validating none

abbrev second_entry : QueueEntry
second_entry = sample_entry "e2" 2 validating (some "e1")

abbrev two_entries : List QueueEntry
two_entries = first_entry ∷ second_entry ∷ []

differ : ◌≢◌ {A = String} "e1" "e2"
unfolding ◌=?◌
differ h = let k = (=?_iff "e1" "e2").1 h in ground arith

two_entries-InOrder : InOrder two_entries
two_entries-InOrder = (λ p m q. grind arith, (λ p m q. based_on_first p m q, tt))
  where
    based_on_first : (p : QueueEntry) → In p (second_entry ∷ []) → some "e1" ≢ some p.id
    based_on_first p (inl e) q =
        absurd (differ (some-injective (q ∙ ap (λ (x : QueueEntry). some x.id) e)))
    based_on_first p (inr m) q = absurd m

select_downstream_iff_example :
    In second_entry (select_downstream two_entries "e1") ↔ Descends "e1" two_entries second_entry
select_downstream_iff_example =
    select_downstream_iff two_entries "e1" second_entry two_entries-InOrder

abbrev check_of : String → CheckConclusion → CheckResult
check_of name conclusion = record {
  name = name;
  conclusion = conclusion;
  app_id = none;
  run_id = none;
}

abbrev branch_runs : List CheckResult
branch_runs = check_of "build" failure ∷ check_of "lint" success ∷ []

abbrev main_runs : List CheckResult
main_runs = check_of "build" failure ∷ []

classify_failure-main_broken_example :
    (classify_failure branch_runs main_runs ≡ main_broken)
    ↔ ((failed branch_runs ≢ []) × All (FailsOnMain main_runs) (failed branch_runs))
classify_failure-main_broken_example = classify_failure-main_broken branch_runs main_runs

classify_failure-branch_local_example : (classify_failure branch_runs main_runs ≡ branch_local) ↔ (
    (failed branch_runs ≢ [])
    × (main_runs ≢ [])
    × All (λ c. ¬ FailsOnMain main_runs c) (failed branch_runs))
classify_failure-branch_local_example = classify_failure-branch_local branch_runs main_runs
