-- ===== src/Steward/Checks/Gate.antt =====
-- packages/merge-steward/src/check-policy.ts: what the answers of the policy mean where checks are named.
use patchrelay.Prelude.{
  ◌≡◌, refl, sym, subst, ◌≢◌, ◌↔◌, ◌⊎◌, inl, inr, Bool, true, false, List, [], ◌∷◌, ◌++◌, keep,
  is_nil, In, All, arith, keep-In, In-keep, In-append_left, In-append_right, In-append_cases,
}
use mathlib.Core.List.{append-nil}
use patchrelay.Steward.Types.{CheckResult, RequiredCheck, success, neutral, failure, skipped}
use patchrelay.Steward.Checks.{
  pass, fail, is_pending, blocks, runs_for, tally, evaluate_required, evaluate_check_policy,
  required_status,
}

-- A run that does not stand in the way: it succeeded, or is neutral.
abbrev pub Accepts : CheckResult → Type 0
Accepts c = (c.conclusion ≡ success) ⊎ (c.conclusion ≡ neutral)

-- A required check is met when it has runs that count, and all of them are accepted.
pub record Met (checks : List CheckResult) (r : RequiredCheck) : Type 0 where
  pub seen : runs_for r checks ≢ []
  pub green : All Accepts (runs_for r checks)

is_nil_append {ℓ} :
    {A : Type ℓ} (xs ys : List A)
    → is_nil (xs ++ ys) ≡ true
    → (is_nil xs ≡ true) × (is_nil ys ≡ true)
is_nil_append [] ys h = (refl, h)
is_nil_append (x ∷ xs) ys h = cc

is_nil_append_of {ℓ} :
    {A : Type ℓ} (xs ys : List A) → is_nil xs ≡ true → is_nil ys ≡ true → is_nil (xs ++ ys) ≡ true
is_nil_append_of [] ys h k = k
is_nil_append_of (x ∷ xs) ys h k = cc

-- No run blocks and none is pending exactly when every run is accepted.
clear→Accepts :
    (cs : List CheckResult)
    → is_nil (keep blocks cs) ≡ true
    → is_nil (keep (λ c. is_pending c.conclusion) cs) ≡ true
    → All Accepts cs
clear→Accepts [] f p = tt
clear→Accepts (c ∷ cs) f p = ground (arith, clear→Accepts cs)

Accepts→clear :
    (cs : List CheckResult)
    → All Accepts cs
    → (is_nil (keep blocks cs) ≡ true) × (is_nil (keep (λ c. is_pending c.conclusion) cs) ≡ true)
Accepts→clear [] h = (refl, refl)
Accepts→clear (c ∷ cs) h = ground (arith, Accepts→clear cs)

is_nil-eq {ℓ} : {A : Type ℓ} (xs : List A) → is_nil xs ≡ true → xs ≡ []
is_nil-eq [] h = refl
is_nil-eq (x ∷ xs) h = cc

pub status-pass :
    (m : List RequiredCheck) (f w : List CheckResult)
    → (required_status m f w ≡ pass) ↔ ((is_nil m ≡ true) × (is_nil f ≡ true) × (is_nil w ≡ true))
unfolding required_status
status-pass m f w = ground arith

status-fail :
    (m : List RequiredCheck) (f w : List CheckResult)
    → (required_status m f w ≡ fail) ↔ (is_nil f ≡ false)
unfolding required_status
status-fail m f w = ground arith

abbrev Clear : List RequiredCheck × List CheckResult × List CheckResult → Type 0
Clear (m, f, w) = (is_nil m ≡ true) × (is_nil f ≡ true) × (is_nil w ≡ true)

tally-Clear :
    (r : RequiredCheck) (runs : List CheckResult) (m : List RequiredCheck) (f w : List CheckResult)
    → Clear (tally r runs (m, f, w))
    → Clear (m, f, w) × (runs ≢ []) × All Accepts runs
unfolding tally
tally-Clear r [] m f w h = cc (is_nil_append m (r ∷ []) h.0).1
tally-Clear r (c ∷ cs) m f w h =
    let fs = is_nil_append f _ h.1 in
    let ws = is_nil_append w _ h.2 in
    ((h.0, fs.0, ws.0), (λ e. cc), clear→Accepts (c ∷ cs) fs.1 ws.1)

tally-Clear_of :
    (r : RequiredCheck) (runs : List CheckResult) (m : List RequiredCheck) (f w : List CheckResult)
    → Clear (m, f, w)
    → runs ≢ []
    → All Accepts runs
    → Clear (tally r runs (m, f, w))
unfolding tally
tally-Clear_of r [] m f w h n g = absurd (n refl)
tally-Clear_of r (c ∷ cs) m f w h n g =
    let k = Accepts→clear (c ∷ cs) g in
    (h.0, is_nil_append_of f _ h.1 k.0, is_nil_append_of w _ h.2 k.1)

-- The loop ends with three empty arrays exactly when it began so and every rule is met.
loop-Clear :
    (rs : List RequiredCheck) (checks : List CheckResult)
    (acc : List RequiredCheck × List CheckResult × List CheckResult)
    → Clear (evaluate_required rs checks acc)
    → Clear acc × All (Met checks) rs
unfolding evaluate_required
loop-Clear [] checks acc h = (h, tt)
loop-Clear (r ∷ rs) checks (m, f, w) h =
    let ih = loop-Clear rs checks (tally r (runs_for r checks) (m, f, w)) h in
    let one = tally-Clear r (runs_for r checks) m f w ih.0 in
    (one.0, (record { seen = one.1; green = one.2 }, ih.1))

loop-Clear_of :
    (rs : List RequiredCheck) (checks : List CheckResult)
    (acc : List RequiredCheck × List CheckResult × List CheckResult)
    → Clear acc
    → All (Met checks) rs
    → Clear (evaluate_required rs checks acc)
unfolding evaluate_required
loop-Clear_of [] checks acc h g = h
loop-Clear_of (r ∷ rs) checks (m, f, w) h g =
    loop-Clear_of rs checks _ (tally-Clear_of r (runs_for r checks) m f w h g.0.seen g.0.green) g.1

-- With named required checks the policy passes exactly when every one of them is met: it has runs
-- that count, and each of these succeeded or is neutral.
pub evaluate_check_policy-pass :
    (r : RequiredCheck) (rs : List RequiredCheck) (require_all : Bool) (checks : List CheckResult)
    → ((evaluate_check_policy (r ∷ rs) require_all checks).status ≡ pass)
      ↔ All (Met checks) (r ∷ rs)
unfolding evaluate_check_policy
evaluate_check_policy-pass r rs require_all checks =
    let out = evaluate_required (r ∷ rs) checks ([], [], []) in
    let st = status-pass out.0 out.1 out.2 in
    (
      (λ h. (loop-Clear (r ∷ rs) checks ([], [], []) (st.0 h)).1),
      (λ g. st.1 (loop-Clear_of (r ∷ rs) checks ([], [], []) (refl, refl, refl) g)),
    )

tally-failing :
    (r : RequiredCheck) (runs : List CheckResult) (m : List RequiredCheck) (f w : List CheckResult)
    → (tally r runs (m, f, w)).1 ≡ f ++ keep blocks runs
unfolding tally
tally-failing r [] m f w = sym (append-nil f)
tally-failing r (c ∷ cs) m f w = refl

-- A run that fails a required check: it failed, or was skipped.
abbrev pub Rejects : CheckResult → Type 0
Rejects c = (c.conclusion ≡ failure) ⊎ (c.conclusion ≡ skipped)

blocks-Rejects : (c : CheckResult) → (blocks c ≡ true) ↔ Rejects c
blocks-Rejects c = ground arith

-- A required check that has failed: one of its runs that count failed or was skipped.
abbrev pub Fails : RequiredCheck → List CheckResult → CheckResult → Type 0
Fails r checks c = In c (runs_for r checks) × Rejects c

abbrev pub SomeFails : List RequiredCheck → List CheckResult → CheckResult → Type 0
SomeFails [] checks c = ⊥
SomeFails (r ∷ rs) checks c = Fails r checks c ⊎ SomeFails rs checks c

module _ (rs : List RequiredCheck) (checks : List CheckResult) (r : RequiredCheck)
    (f : List CheckResult) (c : CheckResult) where
  tallied :
      In c (f ++ keep blocks (runs_for r checks)) ⊎ SomeFails rs checks c
      → In c f ⊎ SomeFails (r ∷ rs) checks c
  tallied (inl m) = elim (In-append_cases c f _ m) [
    | inl old ↦ inl old
    | inr new ↦
        let (k, b) = keep-In blocks c (runs_for r checks) new in
        inr (inl (k, (blocks-Rejects c).0 b))
  ]
  tallied (inr later) = inr (inr later)

  untallied :
      In c f ⊎ SomeFails (r ∷ rs) checks c
      → In c (f ++ keep blocks (runs_for r checks)) ⊎ SomeFails rs checks c
  untallied (inl old) = inl (In-append_left c f _ old)
  untallied (inr (inl (m, b))) =
      inl (In-append_right c f _ (In-keep blocks c (runs_for r checks) m ((blocks-Rejects c).1 b)))
  untallied (inr (inr later)) = inr later

-- The failing array grows by the runs that block, and by nothing else.
loop-failing :
    (rs : List RequiredCheck) (checks : List CheckResult)
    (acc : List RequiredCheck × List CheckResult × List CheckResult) (c : CheckResult)
    → In c (evaluate_required rs checks acc).1 ↔ (In c acc.1 ⊎ SomeFails rs checks c)
unfolding evaluate_required
loop-failing [] checks acc c = (inl, λ h. elim h [ inl m ↦ m | inr n ↦ absurd n ])
loop-failing (r ∷ rs) checks (m, f, w) c =
    let grown = tally-failing r (runs_for r checks) m f w in
    let ih = loop-failing rs checks (tally r (runs_for r checks) (m, f, w)) c in
    (
      (λ h. tallied rs checks r f c (subst (λ l. In c l ⊎ SomeFails rs checks c) grown (ih.0 h))),
      (λ h.
          ih.1 (
            subst (λ l. In c l ⊎ SomeFails rs checks c) (sym grown) (untallied rs checks r f c h))),
    )

is_nil_of_In : (c : CheckResult) (cs : List CheckResult) → In c cs → is_nil cs ≡ false
is_nil_of_In c [] m = absurd m
is_nil_of_In c (d ∷ cs) m = refl

In-of_not_nil : (cs : List CheckResult) → is_nil cs ≡ false → (c : CheckResult) × In c cs
In-of_not_nil [] h = cc
In-of_not_nil (c ∷ cs) h = (c, inl refl)

-- With named required checks the policy fails exactly when some run that counts for one of them
-- failed or was skipped, whatever else is missing or still pending.
pub evaluate_check_policy-fail :
    (r : RequiredCheck) (rs : List RequiredCheck) (require_all : Bool) (checks : List CheckResult)
    → ((evaluate_check_policy (r ∷ rs) require_all checks).status ≡ fail)
      ↔ ((c : CheckResult) × SomeFails (r ∷ rs) checks c)
unfolding evaluate_check_policy
evaluate_check_policy-fail r rs require_all checks =
    let out = evaluate_required (r ∷ rs) checks ([], [], []) in
    let st = status-fail out.0 out.1 out.2 in
    (
      (λ h.
          let found = In-of_not_nil out.1 (st.0 h) in
          (
            found.0,
            elim ((loop-failing (r ∷ rs) checks ([], [], []) found.0).0 found.1) [
              | inl n ↦ absurd n
              | inr s ↦ s
            ],
          )),
      (λ g.
          st.1
            (is_nil_of_In g.0 out.1 ((loop-failing (r ∷ rs) checks ([], [], []) g.0).1 (inr g.1)))),
    )
