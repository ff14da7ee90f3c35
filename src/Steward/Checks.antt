-- ===== src/Steward/Checks.antt =====
-- packages/merge-steward/src/check-policy.ts: whether the check runs of a commit meet the branch
-- policy. A JavaScript Map is an association list in insertion order.
pub mod Gate
pub mod Rerun
pub mod Current
pub mod Coalesced
pub mod Unnamed
mod Tests
use patchrelay.Prelude.{
  ℕ, ltb, String, ◌=?◌, Bool, true, false, not, ◌&&◌, ◌||◌, Option, none, some, List, [], ◌∷◌, ◌++◌,
  map, keep, any, is_nil, is_some, opt_nat_eq, ◌==◌, if◌then◌else◌, trim, to_lower, show, template,
}
use patchrelay.Steward.Types.{
  CheckResult, CheckConclusion, RequiredCheck, success, failure, neutral, skipped,
}

pub data PolicyStatus : Type 0 where
  pass pending fail : PolicyStatus

pub record CheckPolicyEvaluation : Type 0 where
  pub status : PolicyStatus
  pub missing : List RequiredCheck
  pub failing : List CheckResult
  pub pending : List CheckResult

abbrev pub is_failure : CheckConclusion → Bool
is_failure CheckConclusion.failure = true
is_failure CheckConclusion.success = false
is_failure CheckConclusion.pending = false
is_failure CheckConclusion.neutral = false
is_failure CheckConclusion.skipped = false

abbrev pub is_pending : CheckConclusion → Bool
is_pending CheckConclusion.pending = true
is_pending CheckConclusion.success = false
is_pending CheckConclusion.failure = false
is_pending CheckConclusion.neutral = false
is_pending CheckConclusion.skipped = false

abbrev pub is_skipped : CheckConclusion → Bool
is_skipped CheckConclusion.skipped = true
is_skipped CheckConclusion.success = false
is_skipped CheckConclusion.failure = false
is_skipped CheckConclusion.pending = false
is_skipped CheckConclusion.neutral = false

unfoldable pub normalize_name : String → String
unfolding trim to_lower
normalize_name name = to_lower (trim name)

-- `rule.appId === null || check.appId === rule.appId`.
abbrev app_matches : Option ℕ → Option ℕ → Bool
app_matches none app = true
app_matches (some a) app = opt_nat_eq app (some a)

unfoldable pub matches_rule : CheckResult → RequiredCheck → Bool
unfolding normalize_name ◌=?◌
matches_rule check rule =
    (normalize_name check.name =? normalize_name rule.name) && app_matches rule.app_id check.app_id

-- `check.runId > latest.runId`, on checks whose run ids are known.
abbrev pub run_after : Option ℕ → Option ℕ → Bool
run_after (some a) (some b) = ltb b a
run_after none b = false
run_after (some a) none = false

pub latest_of : CheckResult → List CheckResult → CheckResult
latest_of latest [] = latest
latest_of latest (c ∷ cs) = latest_of (if run_after c.run_id latest.run_id then c else latest) cs

abbrev pub has_run : Option ℕ → List CheckResult → Bool
has_run r [] = false
has_run r (c ∷ cs) = opt_nat_eq c.run_id r || has_run r cs

-- `new Set(ids).size !== ids.length`.
pub repeats : List CheckResult → Bool
repeats [] = false
repeats (c ∷ cs) = has_run c.run_id cs || repeats cs

unfoldable pub select_latest_rerun : List CheckResult → List CheckResult
unfolding repeats latest_of
select_latest_rerun [] = []
select_latest_rerun (c ∷ []) = c ∷ []
select_latest_rerun (c ∷ d ∷ cs) =
    if any (λ check. not (is_some check.run_id)) (c ∷ d ∷ cs)
    then c ∷ d ∷ cs
    else if repeats (c ∷ d ∷ cs)
    then c ∷ d ∷ cs
    else latest_of c (d ∷ cs) ∷ []

-- `` `${normalizeName(check.name)}\0${check.appId ?? "any"}` `` as a pair.
abbrev pub same_key : CheckResult → CheckResult → Bool
same_key a b = (normalize_name a.name =? normalize_name b.name) && opt_nat_eq a.app_id b.app_id

-- Appends a check to its group; a group is never empty, and its first check has the group's key.
pub add_to_group :
    CheckResult → List (CheckResult × List CheckResult) → List (CheckResult × List CheckResult)
add_to_group check [] = (check, []) ∷ []
add_to_group check ((first, others) ∷ groups) =
    if same_key first check
    then (first, others ++ check ∷ []) ∷ groups
    else (first, others) ∷ add_to_group check groups

pub group_checks :
    List (CheckResult × List CheckResult) → List CheckResult → List (CheckResult × List CheckResult)
group_checks groups [] = groups
group_checks groups (check ∷ checks) = group_checks (add_to_group check groups) checks

pub latest_of_groups : List (CheckResult × List CheckResult) → List CheckResult
latest_of_groups [] = []
latest_of_groups ((first, others) ∷ groups) =
    select_latest_rerun (first ∷ others) ++ latest_of_groups groups

unfoldable pub coalesce_reruns : List CheckResult → List CheckResult
unfolding group_checks add_to_group latest_of_groups select_latest_rerun normalize_name ◌=?◌
coalesce_reruns checks = latest_of_groups (group_checks [] checks)

-- The run's conclusion as GitHub spells it; `none` is null.
map_conclusion : String → CheckConclusion
map_conclusion c =
    if c =? "success"
    then success
    else if c =? "neutral"
    then neutral
    else if c =? "skipped"
    then skipped
    else if (c =? "failure")
        || (c =? "cancelled")
        || (c =? "timed_out")
        || (c =? "stale")
        || (c =? "action_required")
    then failure
    else CheckConclusion.pending

unfoldable pub map_github_check_conclusion : Option String → Option String → CheckConclusion
unfolding map_conclusion ◌=?◌
map_github_check_conclusion none conclusion = CheckConclusion.pending
map_github_check_conclusion (some status) none = CheckConclusion.pending
map_github_check_conclusion (some status) (some conclusion) =
    if not (status =? "completed") then CheckConclusion.pending else map_conclusion conclusion

-- The runs that count for one required check.
pub runs_for : RequiredCheck → List CheckResult → List CheckResult
runs_for required checks = select_latest_rerun (keep (λ check. matches_rule check required) checks)

abbrev pub blocks : CheckResult → Bool
blocks check = is_failure check.conclusion || is_skipped check.conclusion

-- What one required check adds to the arrays of missing rules, failing runs and pending runs.
pub tally :
    RequiredCheck
    → List CheckResult
    → List RequiredCheck × List CheckResult × List CheckResult
    → List RequiredCheck × List CheckResult × List CheckResult
tally required [] (missing, failing, waiting) = (missing ++ required ∷ [], failing, waiting)
tally required (run ∷ runs) (missing, failing, waiting) = (
  missing,
  failing ++ keep blocks (run ∷ runs),
  waiting ++ keep (λ check. is_pending check.conclusion) (run ∷ runs),
)

-- The loop over the required checks, with the three arrays that it fills.
pub evaluate_required :
    List RequiredCheck
    → List CheckResult
    → List RequiredCheck × List CheckResult × List CheckResult
    → List RequiredCheck × List CheckResult × List CheckResult
evaluate_required [] checks acc = acc
evaluate_required (required ∷ rest) checks acc =
    evaluate_required rest checks (tally required (runs_for required checks) acc)

pub required_status : List RequiredCheck → List CheckResult → List CheckResult → PolicyStatus
required_status missing failing waiting =
    if not (is_nil failing)
    then fail
    else if not (is_nil missing) || not (is_nil waiting)
    then PolicyStatus.pending
    else pass

abbrev evaluation_of :
    List RequiredCheck × List CheckResult × List CheckResult → CheckPolicyEvaluation
evaluation_of (missing, failing, waiting) = record {
  status = required_status missing failing waiting;
  missing = missing;
  failing = failing;
  pending = waiting;
}

-- With no named required set every current check has to pass, and some check has to be there. The
-- test on `requireAllChecksOnEmptyRequiredSet || requiredChecks.length === 0` holds here.
evaluate_all : List CheckResult → CheckPolicyEvaluation
evaluate_all [] = record { status = PolicyStatus.pending; missing = []; failing = []; pending = [] }
evaluate_all (c ∷ cs) =
    let current = coalesce_reruns (c ∷ cs) in
    let failing = keep (λ check. is_failure check.conclusion) current in
    let waiting = keep (λ check. is_pending check.conclusion) current in
    record {
      status = required_status [] failing waiting;
      missing = [];
      failing = failing;
      pending = waiting;
    }

unfoldable pub evaluate_check_policy :
    List RequiredCheck → Bool → List CheckResult → CheckPolicyEvaluation
unfolding evaluate_required tally evaluate_all runs_for required_status
evaluate_check_policy [] require_all checks = evaluate_all checks
evaluate_check_policy (r ∷ rs) require_all checks =
    evaluation_of (evaluate_required (r ∷ rs) checks ([], [], []))

-- `formatRequiredCheck`.
pub format_required_check : RequiredCheck → String
format_required_check check = elim check.app_id [
  | none ↦ check.name
  | some app ↦ template (check.name ∷ " (app " ∷ show app ∷ ")" ∷ [])
]
