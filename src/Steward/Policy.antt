-- ===== src/Steward/Policy.antt =====
-- packages/merge-steward/src/github-policy.ts: the cached branch policy. The runtime's localeCompare
-- and the sha256 digest are parameters, and so is what GitHub answers.
use Prim.Native.Nat.{compare, Ordering}
use patchrelay.Prelude.{
  ℕ, String, ◌=?◌, Bool, true, false, not, ◌&&◌, ◌||◌, Option, none, some, List, [], ◌∷◌, map, keep,
  if◌then◌else◌, opt_nat_eq, trim, to_lower, truthy, or_else,
}
use patchrelay.Steward.Types.{RequiredCheck}
use patchrelay.Steward.Downstream.{has}

pub record Policy : Type 0 where
  pub required_checks : List String
  pub required_check_rules : List RequiredCheck
  pub require_all_checks_on_empty_required_set : Bool
  pub fetched_at : Option String
  pub last_issue_refresh_at : ℕ
  pub issue_refresh_cooldown_ms : ℕ
  pub last_refresh_reason : Option String
  pub last_refresh_changed : Option Bool

-- `DiscoveredRepoSettings`, as far as the cache reads it.
pub record Discovered : Type 0 where
  pub required_checks : List String
  pub required_check_rules : Option (List RequiredCheck)
  pub require_all_checks_on_empty_required_set : Bool

pub record RefreshResult : Type 0 where
  pub attempted : Bool
  pub changed : Bool
  pub previous_required_checks : List String
  pub required_checks : List String

-- `[...new Set(values)]`.
unfoldable pub distinct : List String → List String → List String
unfolding has
distinct seen [] = []
distinct seen (v ∷ vs) =
    let fresh = v ∷ distinct (v ∷ seen) vs in
    let old = distinct seen vs in if has seen v then old else fresh

-- A stable sort by a three-way comparison.
module _ {A : Type 0} (cmp : A → A → Ordering) where
  unfoldable pub place : A → List A → List A
  place x [] = x ∷ []
  place x (y ∷ ys) = elim (cmp x y) [ Ordering.gt ↦ y ∷ place x ys | _ ↦ x ∷ y ∷ ys ]

  unfoldable pub sort : List A → List A
  unfolding place
  sort [] = []
  sort (x ∷ xs) = place x (sort xs)

-- `left.appId ?? -1`, compared.
abbrev compare_app : Option ℕ → Option ℕ → Ordering
compare_app none none = Ordering.eq
compare_app none (some b) = Ordering.lt
compare_app (some a) none = Ordering.gt
compare_app (some a) (some b) = compare a b

abbrev same_rule_key : RequiredCheck → RequiredCheck → Bool
same_rule_key a b = (to_lower a.name =? to_lower b.name) && opt_nat_eq a.app_id b.app_id

-- `deduped.set(key, rule)`: a rule with a known key takes the place of the one before.
unfoldable pub set_rule : RequiredCheck → List RequiredCheck → List RequiredCheck
unfolding to_lower ◌=?◌
set_rule rule [] = rule ∷ []
set_rule rule (r ∷ rs) = if same_rule_key r rule then rule ∷ rs else r ∷ set_rule rule rs

unfoldable pub dedupe_rules : List RequiredCheck → List RequiredCheck → List RequiredCheck
unfolding set_rule trim
dedupe_rules deduped [] = deduped
dedupe_rules deduped (value ∷ values) =
    let name = trim value.name in
    dedupe_rules
      (if truthy name
        then set_rule (record { name = name; app_id = value.app_id }) deduped
        else deduped)
      values

unfoldable pub equal_checks : List String → List String → Bool
unfolding ◌=?◌
equal_checks [] [] = true
equal_checks [] (y ∷ ys) = false
equal_checks (x ∷ xs) [] = false
equal_checks (x ∷ xs) (y ∷ ys) = (x =? y) && equal_checks xs ys

unfoldable pub equal_check_rules : List RequiredCheck → List RequiredCheck → Bool
unfolding ◌=?◌
equal_check_rules [] [] = true
equal_check_rules [] (y ∷ ys) = false
equal_check_rules (x ∷ xs) [] = false
equal_check_rules (x ∷ xs) (y ∷ ys) =
    (x.name =? y.name) && opt_nat_eq x.app_id y.app_id && equal_check_rules xs ys

module _ (locale_compare : String → String → Ordering) where
  unfoldable pub normalize_checks : List String → List String
  unfolding distinct sort trim
  normalize_checks values = sort locale_compare (distinct [] (keep truthy (map trim values)))

  abbrev compare_rules : RequiredCheck → RequiredCheck → Ordering
  compare_rules left right = elim (locale_compare left.name right.name) [
    | Ordering.eq ↦ compare_app left.app_id right.app_id
    | other ↦ other
  ]

  unfoldable pub normalize_check_rules : List RequiredCheck → List RequiredCheck
  unfolding dedupe_rules sort
  normalize_check_rules values = sort compare_rules (dedupe_rules [] values)

  abbrev pub any_producer : String → RequiredCheck
  any_producer name = record { name = name; app_id = none }

  -- `refresh`, from what GitHub discovered.
  unfoldable pub refreshed : Policy → Discovered → String → String → RefreshResult × Policy
  unfolding normalize_checks normalize_check_rules equal_checks equal_check_rules
  refreshed p d reason now =
      let next_checks = normalize_checks d.required_checks in
      let next_rules =
        normalize_check_rules (or_else d.required_check_rules (map any_producer next_checks)) in
      let changed =
        not (equal_checks p.required_checks next_checks)
        || not (equal_check_rules p.required_check_rules next_rules)
        || not (
            same_flag p.require_all_checks_on_empty_required_set
              d.require_all_checks_on_empty_required_set) in
      (
        record {
          attempted = true;
          changed = changed;
          previous_required_checks = p.required_checks;
          required_checks = next_checks;
        },
        record p {
          required_checks = next_checks;
          required_check_rules = next_rules;
          require_all_checks_on_empty_required_set = d.require_all_checks_on_empty_required_set;
          fetched_at = some now;
          last_refresh_reason = some reason;
          last_refresh_changed = some changed;
        },
      )
    where
      same_flag : Bool → Bool → Bool
      same_flag true b = b
      same_flag false b = not b
