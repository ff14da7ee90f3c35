-- ===== src/Steward/Admission/Admit.antt =====
-- packages/merge-steward/src/service-queue.ts: whether a pull request may enter the queue.
use Prim.Native.Char.{code}
use Prim.Native.String
use Prim.Native.Nat.{compare, Ordering}
use patchrelay.Prelude.{
  ℕ, suc, ◌==◌, String, ◌=?◌, Bool, true, false, not, ◌&&◌, Option, none, some, List, [], ◌∷◌, keep,
  length, any, head?, if◌then◌else◌, template, truthy, present, opt_eq,
}
use patchrelay.Steward.Types.{QueueEntry, evicted, FailureClass, IncidentRecord, PrStatus}
use patchrelay.Steward.Policy.{sort}
use patchrelay.Steward.Store.{Store}
use patchrelay.Steward.Store.Mutate.{rank}
use patchrelay.Steward.Store.Query.{get_entry_by_pr, list_active, list_all}
use patchrelay.Steward.Exec.{Result, ok, err, pure, raise, gets, attempt, ◌>>=◌, ◌>>◌}
use patchrelay.Steward.Context.{Context, Act, OpenPr, ask, read_open_prs}
use patchrelay.Steward.Reconcile.Sanitize.{get_pr_status}
use patchrelay.Steward.Reconcile.Hold.{checks_for, evaluate}
use patchrelay.Steward.Reconcile.Land.{is_pass}
use patchrelay.Steward.Admission.Queue.{Settings, Params, enqueue}

-- `pattern.replace(/\*/g, ".*")`.
unfoldable pub stars : String → String
stars String.[] = ""
stars (String.◌∷◌ c s) =
    if code c == b'*' then String.◌++◌ ".*" (stars s) else String.◌∷◌ c (stars s)

-- `new RegExp` throws on a text that is no pattern.
unfoldable pub match_glob : (String → String → Result Bool) → String → String → Result Bool
unfolding stars
match_glob regex_test pattern value = regex_test (template ("^" ∷ stars pattern ∷ "$" ∷ [])) value

-- `ENVIRONMENTAL_FAILURES.has(failureClass)`.
abbrev pub is_environmental : FailureClass → Bool
is_environmental FailureClass.main_broken = false
is_environmental FailureClass.branch_local = false
is_environmental FailureClass.integration_conflict = false
is_environmental FailureClass.feature_changed = false
is_environmental FailureClass.policy_blocked = true

-- The later update first, then the higher position.
abbrev by_update : (String → ℕ) → QueueEntry → QueueEntry → Ordering
by_update parse left right = elim (compare (parse right.updated_at) (parse left.updated_at)) [
  | Ordering.eq ↦ compare right.position left.position
  | other ↦ other
]

abbrev is_evicted_for : ℕ → QueueEntry → Bool
is_evicted_for pr_number e = e.pr_number == pr_number && rank e.status == rank evicted

unfoldable pub get_latest_evicted_entry : (String → ℕ) → List QueueEntry → ℕ → Option QueueEntry
unfolding sort
get_latest_evicted_entry parse entries pr_number =
    head? (sort (by_update parse) (keep (is_evicted_for pr_number) entries))

-- `listIncidents`, by the runtime's localeCompare of their times.
unfoldable pub list_incidents : (String → String → Ordering) → Store → String → List IncidentRecord
unfolding ◌=?◌ sort
list_incidents locale_compare s entry_id =
    sort (λ a b. locale_compare a.at b.at) (keep (λ i. i.entry_id =? entry_id) s.incidents)

abbrev last_class : List IncidentRecord → Option FailureClass
last_class [] = none
last_class (i ∷ []) = some i.failure_class
last_class (i ∷ j ∷ is) = last_class (j ∷ is)

abbrev environmental : Option FailureClass → Bool
environmental none = false
environmental (some c) = is_environmental c

unfoldable pub evicted_on_environment : (String → String → Ordering) → Store → QueueEntry → Bool
unfolding list_incidents
evicted_on_environment locale_compare s entry =
    environmental (last_class (list_incidents locale_compare s entry.id))

-- The latest eviction was of this head, and is not one to be looked at again.
unfoldable pub bars :
    (String → String → Ordering) → Bool → Store → String → Option QueueEntry → Bool
unfolding evicted_on_environment ◌=?◌
bars locale_compare reread s head_sha none = false
bars locale_compare reread s head_sha (some e) =
    (e.head_sha =? head_sha) && not (reread && evicted_on_environment locale_compare s e)

-- A pull request stacked on a branch, whose entry is not in the queue.
unfoldable pub awaits_parent : Context → Store → Option String → Bool
unfolding list_active ◌=?◌
awaits_parent ctx s base =
    present base
    && not (opt_eq base (some ctx.base_branch))
    && not (any (λ e. opt_eq base (some e.branch)) (list_active s ctx.repo_id))

abbrev non_empty : Option String → Option String
non_empty none = none
non_empty (some s) = if truthy s then some s else none

module _ (ctx : Context) (cfg : Settings) where
  -- `excludeBranches.some(...)`: the patterns up to the first that matches or throws.
  unfoldable pub some_matches : List String → String → Result Bool
  some_matches [] branch = ok false
  some_matches (pattern ∷ patterns) branch = elim (match_glob cfg.regex_test pattern branch) [
    | ok true ↦ ok true
    | ok false ↦ some_matches patterns branch
    | err f ↦ err f
  ]

  unfoldable pub is_excluded : String → Result Bool
  unfolding some_matches
  is_excluded branch = some_matches cfg.exclude_branches branch

  abbrev pub settled : Result Bool → Act Bool
  settled (ok b) = pure b
  settled (err f) = raise f

  abbrev pub params_of : ℕ → String → String → PrStatus → Params
  params_of pr_number branch head_sha status = record {
    pr_number = pr_number;
    branch = branch;
    head_sha = head_sha;
    issue_key = none;
    priority = some 0;
    pr_title = non_empty status.title;
    base_ref_name = non_empty status.base_ref_name;
  }

  -- What follows on passing checks.
  unfoldable pub admit_green : ℕ → String → String → PrStatus → Act Bool
  admit_green pr_number branch head_sha status = do
    waits ← gets (λ w. awaits_parent ctx w.store status.base_ref_name)
    if waits
        then pure false
        else do enqueue ctx cfg (params_of pr_number branch head_sha status); pure true

  unfoldable pub admit_approved : ℕ → String → String → PrStatus → Act Bool
  admit_approved pr_number branch head_sha status = do
    checks ← checks_for ctx status.head_sha
    evaluation ← evaluate ctx checks
    if not (is_pass evaluation.status)
        then pure false
        else admit_green pr_number branch head_sha status

  -- The body of the `try`.
  unfoldable pub admit_live : ℕ → String → String → Act Bool
  admit_live pr_number branch head_sha = do
    status ← get_pr_status ctx pr_number
    if not (status.head_sha =? head_sha)
        then pure false
        else if not status.review_approved
        then pure false
        else admit_approved pr_number branch head_sha status

  unfoldable pub latest_evicted : ℕ → Act (Option QueueEntry)
  latest_evicted pr_number =
      gets λ w. get_latest_evicted_entry cfg.parse_date (list_all w.store ctx.repo_id) pr_number

  unfoldable pub is_queued : ℕ → Act Bool
  is_queued pr_number =
      gets
        λ w. elim (get_entry_by_pr w.store ctx.repo_id pr_number) [ none ↦ false | some e ↦ true ]

  unfoldable pub try_admit : Bool → ℕ → String → String → Act Bool
  try_admit reread pr_number branch head_sha = do
    excluded ← settled (is_excluded branch)
    if excluded then pure false else do
      queued ← is_queued pr_number
      if queued then pure false else do
        latest ← latest_evicted pr_number
        barred ← gets (λ w. bars ctx.services.locale_compare reread w.store head_sha latest)
        if barred
            then pure false
            else attempt (admit_live pr_number branch head_sha) (λ _. pure false)

  unfoldable pub admit_each : Bool → List OpenPr → ℕ → Act ℕ
  admit_each reread [] admitted = pure admitted
  admit_each reread (pr ∷ prs) admitted = do
    entered ← try_admit reread pr.number pr.branch pr.head_sha
    admit_each reread prs (if entered then suc admitted else admitted)

  -- The answer is how many were scanned and how many admitted.
  unfoldable pub scan_eligible_open_prs : Bool → Act (ℕ × ℕ)
  scan_eligible_open_prs reread = do
    prs ← ask read_open_prs ctx.services.list_open_prs
    admitted ← admit_each reread prs 0
    pure (length prs, admitted)

  unfoldable pub scan_startup_admissions : Act (Unit {0})
  scan_startup_admissions = attempt (scan_eligible_open_prs true >>= λ _. pure tt) (λ _. pure tt)
