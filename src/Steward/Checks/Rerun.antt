-- ===== src/Steward/Checks/Rerun.antt =====
-- packages/merge-steward/src/check-policy.ts: which of several runs of one check counts.
use patchrelay.Prelude.{
  ℕ, ◌≤◌, ◌≡◌, refl, ◌∙◌, ◌⊎◌, inl, inr, Bool, true, false, not, Option, none, some, List, [], ◌∷◌,
  In, All, All-of_In, any, is_some, arith, if◌then◌else◌,
}
use patchrelay.Steward.Types.{CheckResult}
use patchrelay.Steward.Checks.{select_latest_rerun, latest_of, repeats, run_after}

-- Every run of the list has a run id.
abbrev pub Known : List CheckResult → Type 0
Known checks = All (λ c. is_some c.run_id ≡ true) checks

-- A run id, 0 where it is unknown.
abbrev pub number_of : Option ℕ → ℕ
number_of none = 0
number_of (some n) = n

Known-any :
    (checks : List CheckResult)
    → Known checks
    → any (λ check. not (is_some check.run_id)) checks ≡ false
Known-any [] h = refl
Known-any (c ∷ cs) h = ground (arith, Known-any cs)

-- One round of the scan keeps the later of two runs.
later : CheckResult → CheckResult → CheckResult
later c d = if run_after d.run_id c.run_id then d else c

later_cases : (c d : CheckResult) → (later c d ≡ c) ⊎ (later c d ≡ d)
unfolding later
later_cases c d = ground arith

later_known :
    (c d : CheckResult)
    → is_some c.run_id ≡ true
    → is_some d.run_id ≡ true
    → (is_some (later c d).run_id ≡ true)
      × (number_of c.run_id ≤ number_of (later c d).run_id)
      × (number_of d.run_id ≤ number_of (later c d).run_id)
unfolding later
later_known c d h k = ground arith

latest_of-In : (c : CheckResult) (cs : List CheckResult) → In (latest_of c cs) (c ∷ cs)
unfolding latest_of later
latest_of-In c [] = inl refl
latest_of-In c (d ∷ cs) = elim (latest_of-In (later c d) cs) [
  | inl e ↦ elim (later_cases c d) [ inl f ↦ inl (e ∙ f) | inr f ↦ inr (inl (e ∙ f)) ]
  | inr m ↦ inr (inr m)
]

abbrev pub AtMost : ℕ → List CheckResult → Type 0
AtMost n checks = All (λ d. number_of d.run_id ≤ n) checks

latest_of-max :
    (c : CheckResult) (cs : List CheckResult)
    → is_some c.run_id ≡ true
    → Known cs
    → AtMost (number_of (latest_of c cs).run_id) (c ∷ cs)
unfolding latest_of later
latest_of-max c [] k h = omega arith
latest_of-max c (d ∷ cs) k h =
    let two = later_known c d k h.0 in
    let ih = latest_of-max (later c d) cs two.0 h.1 in
    (omega (arith, two.1, ih.0), (omega (arith, two.2, ih.0), ih.1))

-- Where every run of a check has a run id and no id is there twice, exactly one run counts: it is
-- one of them, and no other has a higher id.
pub select_latest_rerun-latest :
    (c d : CheckResult) (cs : List CheckResult)
    → Known (c ∷ d ∷ cs)
    → repeats (c ∷ d ∷ cs) ≡ false
    → (r : CheckResult) × (select_latest_rerun (c ∷ d ∷ cs) ≡ r ∷ [])
      × In r (c ∷ d ∷ cs)
      × AtMost (number_of r.run_id) (c ∷ d ∷ cs)
unfolding select_latest_rerun
select_latest_rerun-latest c d cs k h = (
  latest_of c (d ∷ cs),
  rw (Known-any (c ∷ d ∷ cs) k) (rw h refl),
  latest_of-In c (d ∷ cs),
  latest_of-max c (d ∷ cs) k.0 k.1,
)

-- The choice makes no run up, and leaves no check without one.
pub select_latest_rerun-In :
    (checks : List CheckResult)
    → All (λ r. In r checks) (select_latest_rerun checks)
      × (select_latest_rerun checks ≡ [] → checks ≡ [])
unfolding select_latest_rerun
select_latest_rerun-In [] = (tt, λ e. e)
select_latest_rerun-In (c ∷ []) = ((inl refl, tt), λ e. e)
select_latest_rerun-In (c ∷ d ∷ cs) =
    chosen (any (λ check. not (is_some check.run_id)) (c ∷ d ∷ cs)) (repeats (c ∷ d ∷ cs))
  where
    chosen :
        (a b : Bool)
        → All
            (λ r. In r (c ∷ d ∷ cs))
            (if a then c ∷ d ∷ cs else if b then c ∷ d ∷ cs else latest_of c (d ∷ cs) ∷ [])
          × ((if a then c ∷ d ∷ cs else if b then c ∷ d ∷ cs else latest_of c (d ∷ cs) ∷ []) ≡ []
              → ◌≡◌ {A = List CheckResult} (c ∷ d ∷ cs) [])
    chosen true b = (All-of_In _ (c ∷ d ∷ cs) (λ a m. m), λ e. e)
    chosen false true = (All-of_In _ (c ∷ d ∷ cs) (λ a m. m), λ e. e)
    chosen false false = ((latest_of-In c (d ∷ cs), tt), λ e. cc)
