-- ===== src/Steward/Classify.antt =====
-- packages/merge-steward/src/classify.ts: whose fault a failed CI run is.
use patchrelay.Prelude.{
  ◌≡◌, refl, ◌≢◌, inl, inr, Bool, true, false, not, ◌&&◌, List, [], ◌∷◌, String, ◌=?◌, In, All,
  keep, any, all, is_nil, arith, Bool-cases, if◌then◌else◌, =?_iff, All-In, ◌↔◌,
}
use patchrelay.Steward.Types.{
  CheckResult, FailureClass, main_broken, branch_local, integration_conflict,
}
use patchrelay.Steward.Checks.{is_failure}

abbrev pub failed : List CheckResult → List CheckResult
failed checks = keep (λ c. is_failure c.conclusion) checks

-- `mainFailedNames.has(name)`.
has_name : List CheckResult → String → Bool
unfolding ◌=?◌
has_name checks name = any (λ c. c.name =? name) checks

unfoldable pub classify_failure : List CheckResult → List CheckResult → FailureClass
unfolding has_name
classify_failure branch_checks main_checks =
    let failed_on_branch = failed branch_checks in
    let failed_on_main = failed main_checks in
    if is_nil failed_on_branch
    then integration_conflict
    else if is_nil main_checks
    then integration_conflict
    else if all (λ c. has_name failed_on_main c.name) failed_on_branch
        && not (is_nil failed_on_main)
    then main_broken
    else if all (λ c. not (has_name failed_on_main c.name)) failed_on_branch
    then branch_local
    else integration_conflict

-- `name` is the name of a failed check of main.
abbrev pub FailsOnMain : List CheckResult → CheckResult → Type 0
FailsOnMain main_checks c = (m : CheckResult) × In m (failed main_checks) × (m.name ≡ c.name)

any-witness :
    (c : CheckResult) (ms : List CheckResult)
    → any (λ m. m.name =? c.name) ms ≡ true
    → (m : CheckResult) × In m ms × (m.name ≡ c.name)
any-witness c [] h = cc
any-witness c (m ∷ ms) h = elim (Bool-cases (m.name =? c.name)) [
  | inl e ↦ (m, inl refl, (=?_iff m.name c.name).0 e)
  | inr n ↦ let r = any-witness c ms (rw n at h) in (r.0, inr r.1, r.2)
]

any-of :
    (c : CheckResult) (ms : List CheckResult) (m : CheckResult)
    → In m ms
    → m.name ≡ c.name
    → any (λ m. m.name =? c.name) ms ≡ true
any-of c [] m i e = absurd i
any-of c (n ∷ ms) m (inl p) e = rw ((=?_iff n.name c.name).1 (rw (← p) e)) refl
any-of c (n ∷ ms) m (inr i) e = rw (any-of c ms m i e) (ground arith)

has_name_iff :
    (main_checks : List CheckResult) (c : CheckResult)
    → (has_name (failed main_checks) c.name ≡ true) ↔ FailsOnMain main_checks c
unfolding has_name
has_name_iff main_checks c =
    (any-witness c (failed main_checks), λ w. any-of c (failed main_checks) w.0 w.1 w.2)

all_iff :
    (p : CheckResult → Bool) (P : CheckResult → Type 0) (cs : List CheckResult)
    → ((c : CheckResult) → (p c ≡ true) ↔ P c)
    → (all p cs ≡ true) ↔ All P cs
all_iff p P [] h = ((λ e. tt), λ g. refl)
all_iff p P (c ∷ cs) h = ground (arith, h c, all_iff p P cs h)

not_iff : (b : Bool) (P : Type 0) → (b ≡ true) ↔ P → (not b ≡ true) ↔ (¬ P)
not_iff true P h = ((λ e. cc), λ n. absurd (n (h.0 refl)))
not_iff false P h = ((λ e p. cc (h.1 p)), λ n. refl)

-- The ladder of the classifier, on the answers of its tests.
abbrev ladder : Bool → Bool → Bool → Bool → Bool → FailureClass
ladder quiet no_baseline on_main main_failed off_main =
    if quiet
    then integration_conflict
    else if no_baseline
    then integration_conflict
    else if on_main && not main_failed
    then main_broken
    else if off_main
    then branch_local
    else integration_conflict

ladder-main_broken :
    (q n o m f : Bool)
    → (ladder q n o m f ≡ main_broken) ↔ ((q ≡ false) × (n ≡ false) × (o ≡ true) × (m ≡ false))
ladder-main_broken q n o m f = ground arith

ladder-branch_local :
    (q n o m f : Bool)
    → (ladder q n o m f ≡ branch_local)
      ↔ ((q ≡ false) × (n ≡ false) × ((o && not m) ≡ false) × (f ≡ true))
ladder-branch_local q n o m f = ground arith

is_nil-false : (xs : List CheckResult) → (is_nil xs ≡ false) ↔ (xs ≢ [])
is_nil-false [] = ((λ h. cc), λ h. absurd (h refl))
is_nil-false (x ∷ xs) = ((λ h e. cc), λ h. refl)

-- A failed check of main is a check of main.
baseline :
    (main_checks : List CheckResult) (c : CheckResult)
    → In c (failed main_checks)
    → is_nil main_checks ≡ false
baseline [] c m = absurd m
baseline (d ∷ ds) c m = refl

failed-not_nil : (c : CheckResult) (cs : List CheckResult) → In c cs → is_nil cs ≡ false
failed-not_nil c [] m = absurd m
failed-not_nil c (d ∷ cs) m = refl

first_witness :
    (P : CheckResult → Type 0) (cs : List CheckResult)
    → cs ≢ []
    → All P cs
    → (c : CheckResult) × In c cs × P c
first_witness P [] n g = absurd (n refl)
first_witness P (c ∷ cs) n g = (c, inl refl, g.0)

module _ (branch_checks main_checks : List CheckResult) where
  on_main_iff :
      (all (λ c. has_name (failed main_checks) c.name) (failed branch_checks) ≡ true)
      ↔ All (FailsOnMain main_checks) (failed branch_checks)
  on_main_iff = all_iff _ _ (failed branch_checks) (has_name_iff main_checks)

  off_main_iff :
      (all (λ c. not (has_name (failed main_checks) c.name)) (failed branch_checks) ≡ true)
      ↔ All (λ c. ¬ FailsOnMain main_checks c) (failed branch_checks)
  off_main_iff = all_iff _ _ (failed branch_checks) (λ c. not_iff _ _ (has_name_iff main_checks c))

  -- A failure is main's exactly when some check failed on the branch and every such check failed on
  -- main too.
  pub classify_failure-main_broken :
      (classify_failure branch_checks main_checks ≡ main_broken)
      ↔ ((failed branch_checks ≢ []) × All (FailsOnMain main_checks) (failed branch_checks))
  unfolding classify_failure
  classify_failure-main_broken =
      let table =
        ladder-main_broken (is_nil (failed branch_checks)) (is_nil main_checks)
          (all (λ c. has_name (failed main_checks) c.name) (failed branch_checks))
          (is_nil (failed main_checks))
          (all (λ c. not (has_name (failed main_checks) c.name)) (failed branch_checks)) in
      (
        (λ h. let t = table.0 h in ((is_nil-false _).0 t.0, on_main_iff.0 t.2)),
        (λ g.
            let w = first_witness _ (failed branch_checks) g.0 g.1 in
            table.1 (
              (is_nil-false _).1 g.0,
              baseline main_checks w.2.0 w.2.1,
              on_main_iff.1 g.1,
              failed-not_nil w.2.0 _ w.2.1,
            )),
      )

  -- A failure is the branch's own exactly when some check failed on the branch, main has checks to
  -- compare with, and none of the checks that failed on the branch failed on main.
  pub classify_failure-branch_local :
      (classify_failure branch_checks main_checks ≡ branch_local) ↔ (
        (failed branch_checks ≢ [])
        × (main_checks ≢ [])
        × All (λ c. ¬ FailsOnMain main_checks c) (failed branch_checks))
  unfolding classify_failure
  classify_failure-branch_local =
      let table =
        ladder-branch_local (is_nil (failed branch_checks)) (is_nil main_checks)
          (all (λ c. has_name (failed main_checks) c.name) (failed branch_checks))
          (is_nil (failed main_checks))
          (all (λ c. not (has_name (failed main_checks) c.name)) (failed branch_checks)) in
      (
        (λ h.
            let t = table.0 h in
            ((is_nil-false _).0 t.0, (is_nil-false _).0 t.1, off_main_iff.0 t.3)),
        (λ g.
            table.1 (
              (is_nil-false _).1 g.0,
              (is_nil-false _).1 g.1,
              not_both g.0 g.2,
              off_main_iff.1 g.2,
            )),
      )
    where
      not_both :
          failed branch_checks ≢ []
          → All (λ c. ¬ FailsOnMain main_checks c) (failed branch_checks)
          → (all (λ c. has_name (failed main_checks) c.name) (failed branch_checks)
              && not (is_nil (failed main_checks)))
            ≡ false
      not_both n g =
          elim (Bool-cases
            (all (λ c. has_name (failed main_checks) c.name) (failed branch_checks))) [
              | inl on ↦
                  let w = first_witness _ (failed branch_checks) n g in
                  absurd (w.2 (All-In _ _ (on_main_iff.0 on) w.0 w.1))
              | inr off ↦ rw off
            ]
