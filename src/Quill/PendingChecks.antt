-- ===== src/Quill/PendingChecks.antt =====
-- packages/review-quill/src/pending-check-classifier.ts: why a review waits for its checks.
use patchrelay.Prelude.{
  String, ◌=?◌, Bool, false, not, ◌||◌, Option, none, some, List, [], ◌∷◌, ◌++◌, map, find_last,
  any, is_nil, to_lower, ◌≡◌, ◌↔◌, ◌⊎◌, refl, inl, inr, if◌then◌else◌,
}

pub data PendingCheckReason : Type 0 where
  checks_running checks_failed checks_unknown : PendingCheckReason

-- `CheckLike`, also when it is lowered.
pub record Check : Type 0 where
  pub name : String
  pub status : String
  pub conclusion : Option String

pub record PendingCheckSummary : Type 0 where
  pub failed : List String
  pub pending : List String

unfoldable pub lower_conclusion : Option String → Option String
unfolding to_lower
lower_conclusion none = none
lower_conclusion (some c) = some (to_lower c)

unfoldable pub lower_check : Check → Check
unfolding to_lower lower_conclusion
lower_check check = record {
  name = to_lower check.name;
  status = to_lower check.status;
  conclusion = lower_conclusion check.conclusion;
}

-- `PASSING_CONCLUSIONS.has(conclusion ?? "")`.
unfoldable pub is_passing : Option String → Bool
unfolding ◌=?◌
is_passing none = false
is_passing (some c) = (c =? "success") || (c =? "neutral") || (c =? "skipped")

unfoldable pub is_completed : Check → Bool
unfolding ◌=?◌
is_completed check = check.status =? "completed"

-- `byName.get(required.toLowerCase())`: of checks with one name the last is in the map.
unfoldable pub by_name : List Check → String → Option Check
unfolding ◌=?◌ to_lower
by_name lowered required = find_last (λ c. c.name =? to_lower required) lowered

-- The state of a required check: not completed or missing, failed, or passing.
pub data Verdict : Type 0 where
  unfinished unsuccessful passing : Verdict

unfoldable pub verdict_of : Option Check → Verdict
unfolding is_completed is_passing
verdict_of none = unfinished
verdict_of (some check) =
    if not (is_completed check)
    then unfinished
    else if not (is_passing check.conclusion)
    then unsuccessful
    else passing

-- The loop over the required checks, which returns at the first that does not pass.
unfoldable pub required_state : List Check → List String → PendingCheckReason
unfolding verdict_of by_name
required_state lowered [] = checks_unknown
required_state lowered (required ∷ rest) = elim (verdict_of (by_name lowered required)) [
  | unfinished ↦ checks_running
  | unsuccessful ↦ checks_failed
  | passing ↦ required_state lowered rest
]

unfoldable pub determine_pending_check_state : List Check → List String → PendingCheckReason
unfolding required_state lower_check is_completed is_passing
determine_pending_check_state checks (r ∷ rs) = required_state (map lower_check checks) (r ∷ rs)
determine_pending_check_state checks [] =
    let lowered = map lower_check checks in
    if is_nil lowered
    then checks_unknown
    else if any (λ c. not (is_completed c)) lowered
    then checks_running
    else if any (λ c. not (is_passing c.conclusion)) lowered
    then checks_failed
    else checks_unknown

-- One round of the first `reduce`.
abbrev noted : String → Verdict → PendingCheckSummary → PendingCheckSummary
noted name unfinished s = record s { pending = s.pending ++ name ∷ [] }
noted name unsuccessful s = record s { failed = s.failed ++ name ∷ [] }
noted name passing s = s

unfoldable pub note_required : List Check → List String → PendingCheckSummary → PendingCheckSummary
unfolding verdict_of by_name
note_required lowered [] s = s
note_required lowered (required ∷ rest) s =
    note_required lowered rest (noted required (verdict_of (by_name lowered required)) s)

-- The second `reduce`, which reads the status as it is spelled.
unfoldable pub note_all : List Check → PendingCheckSummary → PendingCheckSummary
unfolding is_completed is_passing lower_conclusion
note_all [] s = s
note_all (check ∷ rest) s = note_all rest (
    if not (is_completed check)
    then record s { pending = s.pending ++ check.name ∷ [] }
    else if not (is_passing (lower_conclusion check.conclusion))
    then record s { failed = s.failed ++ check.name ∷ [] }
    else s)

abbrev no_names : PendingCheckSummary
no_names = record { failed = []; pending = [] }

unfoldable pub pending_check_names : List Check → List String → PendingCheckSummary
unfolding note_required note_all
pending_check_names checks (r ∷ rs) = note_required (map lower_check checks) (r ∷ rs) no_names
pending_check_names checks [] = note_all checks no_names

Verdict-cases : (v : Verdict) → (v ≡ unfinished) ⊎ (v ≡ unsuccessful) ⊎ (v ≡ passing)
Verdict-cases unfinished = inl refl
Verdict-cases unsuccessful = inr (inl refl)
Verdict-cases passing = inr (inr refl)

append_nonempty : (xs : List String) (x : String) → xs ++ x ∷ [] ≡ [] → ⊥
append_nonempty [] x h = cc
append_nonempty (y ∷ ys) x h = cc

-- Names that were noted stay noted.
note_required-keeps :
    (lowered : List Check) (rs : List String) (s : PendingCheckSummary)
    → (note_required lowered rs s).failed ≡ []
    → (note_required lowered rs s).pending ≡ []
    → (s.failed ≡ []) × (s.pending ≡ []) × (required_state lowered rs ≡ checks_unknown)
unfolding note_required required_state
note_required-keeps lowered [] s f p = (f, p, refl)
note_required-keeps lowered (r ∷ rs) s f p = elim (Verdict-cases (verdict_of (by_name lowered r))) [
  | inl q ↦
      let ih =
        note_required-keeps lowered rs (noted r unfinished s) (rw (q, note_required) at f)
          (rw (q, note_required) at p) in
      absurd (append_nonempty s.pending r ih.1)
  | inr (inl q) ↦
      let ih =
        note_required-keeps lowered rs (noted r unsuccessful s) (rw (q, note_required) at f)
          (rw (q, note_required) at p) in
      absurd (append_nonempty s.failed r ih.0)
  | inr (inr q) ↦
      rw (q, required_state)
        (note_required-keeps lowered rs s (rw (q, note_required) at f) (rw (q, note_required) at p))
]

-- Where every required check passes, none is noted.
note_required-none :
    (lowered : List Check) (rs : List String) (s : PendingCheckSummary)
    → required_state lowered rs ≡ checks_unknown
    → note_required lowered rs s ≡ s
unfolding note_required required_state
note_required-none lowered [] s h = refl
note_required-none lowered (r ∷ rs) s h = elim (Verdict-cases (verdict_of (by_name lowered r))) [
  | inl q ↦ absurd (running_known (rw (q, required_state) at h))
  | inr (inl q) ↦ absurd (failed_known (rw (q, required_state) at h))
  | inr (inr q) ↦
      rw (q, note_required) (note_required-none lowered rs s (rw (q, required_state) at h))
]
  where
    running_known : checks_running ≡ checks_unknown → ⊥
    running_known e = cc

    failed_known : checks_failed ≡ checks_unknown → ⊥
    failed_known e = cc

-- Where checks are required, the state is unknown, which says that the checks give no reason to wait,
-- exactly if no required check is named as failed and none as pending.
pub determine_pending_check_state_iff :
    (checks : List Check) (required : String) (rest : List String)
    → (determine_pending_check_state checks (required ∷ rest) ≡ checks_unknown) ↔ (
        ((pending_check_names checks (required ∷ rest)).failed ≡ [])
        × ((pending_check_names checks (required ∷ rest)).pending ≡ []))
unfolding determine_pending_check_state pending_check_names
determine_pending_check_state_iff checks required rest =
    let lowered = map lower_check checks in
    (
      λ h. let e = note_required-none lowered (required ∷ rest) no_names h in rw e (refl, refl),
      λ h. (note_required-keeps lowered (required ∷ rest) no_names h.0 h.1).2,
    )
