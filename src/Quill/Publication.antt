-- ===== src/Quill/Publication.antt =====
-- packages/review-quill/src/review-publication-policy.ts: which findings are posted, what the review says
-- (filterFindings, resolveEvent), and whether it is still published (classifyPublicationDisposition).
-- A confidence is a natural number.
use patchrelay.Prelude.{
  ℕ, leb, String, ◌=?◌, Bool, true, false, not, ◌&&◌, ◌||◌, Option, none, some, or_else, List, [],
  ◌∷◌, take, keep, any, template, short, to_lower, truthy, if◌then◌else◌,
}
pub mod Blocking
pub mod Disposition

pub data ReviewFindingSeverity : Type 0 where
  blocking nit : ReviewFindingSeverity

pub record ReviewFinding : Type 0 where
  pub path : String
  pub line : ℕ
  pub severity : ReviewFindingSeverity
  pub message : String
  pub confidence : Option ℕ
  pub suggestion : Option String

pub record ReviewArchitecturalConcern : Type 0 where
  pub severity : ReviewFindingSeverity
  pub category : String
  pub message : String

-- What `resolveEvent` and the filter read of `ReviewVerdict`.
pub record ReviewVerdict : Type 0 where
  pub architectural_concerns : List ReviewArchitecturalConcern
  pub findings : List ReviewFinding

pub data ReviewEvent : Type 0 where
  approve request_changes : ReviewEvent

abbrev pub review_finding_confidence_threshold : ℕ
review_finding_confidence_threshold = 70

abbrev pub review_max_inline_comments : ℕ
review_max_inline_comments = 20

unfoldable pub is_blocking : ReviewFindingSeverity → Bool
is_blocking blocking = true
is_blocking nit = false

unfoldable pub is_confident : ReviewFinding → Bool
is_confident f = leb review_finding_confidence_threshold (or_else f.confidence 100)

-- `knownPaths`, where it is given.
unfoldable pub is_known : Option (List String) → ReviewFinding → Bool
unfolding ◌=?◌
is_known none f = true
is_known (some paths) f = any (λ p. p =? f.path) paths

-- The comparison of the sort is not positive.
unfoldable pub not_after : ReviewFinding → ReviewFinding → Bool
not_after a b = severities a.severity b.severity
  where
    by_confidence : Bool
    by_confidence = leb (or_else b.confidence 100) (or_else a.confidence 100)

    severities : ReviewFindingSeverity → ReviewFindingSeverity → Bool
    severities blocking blocking = by_confidence
    severities nit nit = by_confidence
    severities blocking nit = true
    severities nit blocking = false

-- The sort is stable.
unfoldable pub insert_finding : ReviewFinding → List ReviewFinding → List ReviewFinding
unfolding not_after
insert_finding x [] = x ∷ []
insert_finding x (y ∷ ys) = if not_after x y then x ∷ y ∷ ys else y ∷ insert_finding x ys

unfoldable pub sort_findings : List ReviewFinding → List ReviewFinding
unfolding insert_finding
sort_findings [] = []
sort_findings (x ∷ xs) = insert_finding x (sort_findings xs)

unfoldable pub filter_findings : Option (List String) → List ReviewFinding → List ReviewFinding
unfolding is_confident is_known sort_findings
filter_findings known_paths findings =
    let confident = keep is_confident findings in
    let with_known_path = keep (is_known known_paths) confident in
    take review_max_inline_comments (sort_findings with_known_path)

unfoldable pub resolve_event : ReviewVerdict → List ReviewFinding → ReviewEvent
unfolding is_blocking
resolve_event verdict filtered =
    if any (λ f. is_blocking f.severity) filtered
      || any (λ c. is_blocking c.severity) verdict.architectural_concerns
    then request_changes
    else approve

-- A pull request as the last check before the publication reads it.
pub record PullRequestSnapshot : Type 0 where
  pub state : String
  pub is_draft : Bool
  pub head_sha : String
  pub base_sha : String

-- The conclusion of the check is `cancelled` wherever there is one.
pub data PublicationDisposition : Type 0 where
  publish : PublicationDisposition
  supersede cancel : String → PublicationDisposition

unfoldable pub classify_publication_disposition :
    PullRequestSnapshot → String → String → PublicationDisposition
unfolding ◌=?◌ template short to_lower
classify_publication_disposition current reviewed_head reviewed_base =
    if truthy current.head_sha && not (current.head_sha =? reviewed_head)
    then supersede (
        template (
          "Superseded by newer head "
          ∷ short 12 current.head_sha
          ∷ " before review publication"
          ∷ []))
    else if truthy current.base_sha && not (current.base_sha =? reviewed_base)
    then supersede (
        template (
          "Superseded because the PR base changed to "
          ∷ short 12 current.base_sha
          ∷ " before review publication"
          ∷ []))
    else if not (current.state =? "open") && not (current.state =? "OPEN")
    then cancel (
        template (
          "Cancelled because the PR is "
          ∷ to_lower current.state
          ∷ " before review publication"
          ∷ []))
    else if current.is_draft
    then cancel "Cancelled because the PR returned to draft before review publication"
    else publish
