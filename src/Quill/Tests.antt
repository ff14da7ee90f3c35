-- ===== src/Quill/Tests.antt =====
-- Runs of the review gate and of the check classifier on small inputs.
use patchrelay.Prelude.{
  ℕ, ◌≤◌, String, truthy, true, false, Option, length, In, ◌⊎◌, none, some, List, [], ◌∷◌, ◌≡◌, ◌↔◌,
  refl,
}
use patchrelay.Quill.Semaphore.{
  Gate, open_gate, acquire, acquired, released, Run, opened, acquires, releases, Bounded,
  Run-Bounded,
}
use patchrelay.Quill.PendingChecks.{
  Check, checks_unknown, checks_running, determine_pending_check_state, pending_check_names,
  determine_pending_check_state_iff,
}
use patchrelay.Quill.Publication.{
  ReviewFinding, ReviewFindingSeverity, blocking, nit, ReviewArchitecturalConcern, ReviewVerdict,
  request_changes, is_blocking, is_confident, is_known, filter_findings, resolve_event,
  PullRequestSnapshot, publish, supersede, classify_publication_disposition,
}
use patchrelay.Quill.Publication.Disposition.{classify_publication_disposition_iff}
use patchrelay.Quill.Publication.Blocking.{filter_findings-In, resolve_event-filter_findings_iff}

-- Two calls for one slot, of which the second waits until the first releases it.
abbrev second_waits : Gate
second_waits = acquired 1 8 (acquired 1 7 open_gate)

abbrev second_runs : Gate
second_runs = released 7 second_waits

abbrev second_runs_run : Run 1 second_runs
unfolding acquire
second_runs_run =
    releases second_waits 7 refl (acquires (acquired 1 7 open_gate) 8 (acquires open_gate 7 opened))

Run-Bounded_example : Bounded 1 second_runs
Run-Bounded_example = Run-Bounded 1 second_runs second_runs_run

abbrev checks : List Check
checks =
    record { name = "Lint"; status = "completed"; conclusion = some "SUCCESS" }
    ∷ record { name = "Test"; status = "in_progress"; conclusion = none }
    ∷ []

test_is_running : determine_pending_check_state checks ("lint" ∷ "test" ∷ []) ≡ checks_running
unfolding determine_pending_check_state
test_is_running = refl

determine_pending_check_state_iff_example :
    (determine_pending_check_state checks ("lint" ∷ "test" ∷ []) ≡ checks_unknown) ↔ (
      ((pending_check_names checks ("lint" ∷ "test" ∷ [])).failed ≡ [])
      × ((pending_check_names checks ("lint" ∷ "test" ∷ [])).pending ≡ []))
determine_pending_check_state_iff_example =
    determine_pending_check_state_iff checks "lint" ("test" ∷ [])

-- A status in capitals is lowered for the state, but not for the names: the state says that no check
-- runs, while the check is named as pending.
abbrev capitals : List Check
capitals = record { name = "Lint"; status = "COMPLETED"; conclusion = some "SUCCESS" } ∷ []

capitals_not_running : determine_pending_check_state capitals [] ≡ checks_unknown
unfolding determine_pending_check_state
capitals_not_running = refl

capitals_pending : (pending_check_names capitals []).pending ≡ "Lint" ∷ []
unfolding pending_check_names
capitals_pending = refl

-- A nit of high confidence, a finding in no known file, and a finding that blocks.
abbrev verdict : ReviewVerdict
verdict = record {
  architectural_concerns = [];
  findings =
      finding "a.ts" nit (some 90)
      ∷ finding "gone.ts" blocking none
      ∷ finding "b.ts" blocking (some 70)
      ∷ [];
}
  where
    finding : String → ReviewFindingSeverity → Option ℕ → ReviewFinding
    finding path severity confidence = record {
      path = path;
      line = 1;
      severity = severity;
      message = "m";
      confidence = confidence;
      suggestion = none;
    }

abbrev known_paths : Option (List String)
known_paths = some ("a.ts" ∷ "b.ts" ∷ [])

verdict_requests :
    resolve_event verdict (filter_findings known_paths verdict.findings) ≡ request_changes
unfolding resolve_event filter_findings
verdict_requests = refl

resolve_event-filter_findings_iff_example :
    (resolve_event verdict (filter_findings known_paths verdict.findings) ≡ request_changes) ↔ (
      ((f : ReviewFinding) × In f verdict.findings
        × (is_blocking f.severity ≡ true)
        × (is_confident f ≡ true)
        × (is_known known_paths f ≡ true))
      ⊎ ((c : ReviewArchitecturalConcern) × In c verdict.architectural_concerns
          × (is_blocking c.severity ≡ true)))
resolve_event-filter_findings_iff_example = resolve_event-filter_findings_iff known_paths verdict

filter_findings-In_example :
    (length (filter_findings known_paths verdict.findings) ≤ 20)
    × ((f : ReviewFinding)
        → In f (filter_findings known_paths verdict.findings)
        → In f verdict.findings × (is_confident f ≡ true) × (is_known known_paths f ≡ true))
filter_findings-In_example = filter_findings-In known_paths verdict.findings

abbrev snapshot : PullRequestSnapshot
snapshot = record { state = "open"; is_draft = false; head_sha = "aaaa"; base_sha = "bbbb" }

still_published : classify_publication_disposition snapshot "aaaa" "bbbb" ≡ publish
unfolding classify_publication_disposition
still_published = refl

new_head :
    classify_publication_disposition snapshot "cccc" "bbbb"
    ≡ supersede "Superseded by newer head aaaa before review publication"
unfolding classify_publication_disposition
new_head = refl

classify_publication_disposition_iff_example :
    (classify_publication_disposition snapshot "aaaa" "bbbb" ≡ publish) ↔ (
      ((truthy snapshot.head_sha ≡ false) ⊎ (snapshot.head_sha ≡ "aaaa"))
      × ((truthy snapshot.base_sha ≡ false) ⊎ (snapshot.base_sha ≡ "bbbb"))
      × ((snapshot.state ≡ "open") ⊎ (snapshot.state ≡ "OPEN"))
      × (snapshot.is_draft ≡ false))
classify_publication_disposition_iff_example =
    classify_publication_disposition_iff snapshot "aaaa" "bbbb"
