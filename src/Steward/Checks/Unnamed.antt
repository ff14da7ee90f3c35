-- ===== src/Steward/Checks/Unnamed.antt =====
-- packages/merge-steward/src/check-policy.ts: when the policy passes where no checks are named.
use patchrelay.Prelude.{
  ◌≡◌, refl, ◌≢◌, ◌↔◌, ◌⊎◌, Bool, true, List, [], ◌∷◌, keep, is_nil, All, All-In, All-of_In, arith,
}
use patchrelay.Steward.Types.{CheckResult, success, neutral, skipped}
use patchrelay.Steward.Checks.{pass, is_failure, is_pending, evaluate_check_policy, coalesce_reruns}
use patchrelay.Steward.Checks.Gate.{status-pass}
use patchrelay.Steward.Checks.Coalesced.{Counts, coalesce_reruns-members}

-- A run that succeeded, is neutral or was skipped.
abbrev pub Settled : CheckResult → Type 0
Settled c = (c.conclusion ≡ success) ⊎ (c.conclusion ≡ neutral) ⊎ (c.conclusion ≡ skipped)

Settled-clear :
    (cs : List CheckResult)
    → (is_nil (keep (λ c. is_failure c.conclusion) cs) ≡ true
        → is_nil (keep (λ c. is_pending c.conclusion) cs) ≡ true
        → All Settled cs)
      × (All Settled cs
          → (is_nil (keep (λ c. is_failure c.conclusion) cs) ≡ true)
            × (is_nil (keep (λ c. is_pending c.conclusion) cs) ≡ true))
Settled-clear [] = ((λ f p. tt), (λ h. (refl, refl)))
Settled-clear (c ∷ cs) =
    let ih = Settled-clear cs in ((λ f p. ground (arith, ih.0)), (λ h. ground (arith, ih.1)))

-- A run that, if it counts, succeeded, is neutral or was skipped.
abbrev pub Harmless : List CheckResult → CheckResult → Type 0
Harmless checks c = Counts checks c → Settled c

coalesce_reruns-Settled :
    (checks : List CheckResult)
    → All Settled (coalesce_reruns checks) ↔ All (Harmless checks) checks
coalesce_reruns-Settled checks = (
  λ h. All-of_In (Harmless checks) checks (λ c m k.
      All-In Settled (coalesce_reruns checks) h c ((coalesce_reruns-members checks c).1 m k)),
  λ h. All-of_In Settled (coalesce_reruns checks) (λ c m.
      let (known, k) = (coalesce_reruns-members checks c).0 m in
      All-In (Harmless checks) checks h c known k),
)

current-pass :
    (require_all : Bool) (checks : List CheckResult)
    → ((evaluate_check_policy [] require_all checks).status ≡ pass)
      ↔ ((checks ≢ []) × All Settled (coalesce_reruns checks))
unfolding evaluate_check_policy
current-pass require_all [] = ((λ h. cc), (λ g. absurd (g.0 refl)))
current-pass require_all (c ∷ cs) =
    let st =
      status-pass [] (keep (λ c. is_failure c.conclusion) (coalesce_reruns (c ∷ cs)))
        (keep (λ c. is_pending c.conclusion) (coalesce_reruns (c ∷ cs))) in
    (
      (λ h. ((λ e. cc), (Settled-clear (coalesce_reruns (c ∷ cs))).0 (st.0 h).1 (st.0 h).2)),
      (λ g. let k = (Settled-clear (coalesce_reruns (c ∷ cs))).1 g.1 in st.1 (refl, k.0, k.1)),
    )

-- With no named required checks the policy passes exactly when some check was seen and each run
-- that counts succeeded, is neutral or was skipped, where a run counts if selectLatestRerun leaves it of the runs that have
-- its normalised name and its app.
pub evaluate_check_policy-pass_unnamed :
    (require_all : Bool) (checks : List CheckResult)
    → ((evaluate_check_policy [] require_all checks).status ≡ pass)
      ↔ ((checks ≢ []) × All (Harmless checks) checks)
evaluate_check_policy-pass_unnamed require_all checks =
    let gate = current-pass require_all checks in
    let counted = coalesce_reruns-Settled checks in
    (λ h. let g = gate.0 h in (g.0, counted.0 g.1), λ g. gate.1 (g.0, counted.1 g.1))
