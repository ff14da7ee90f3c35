-- ===== src/Steward/Checks/Coalesced.antt =====
-- packages/merge-steward/src/check-policy.ts: the runs that coalesceReruns leaves.
use patchrelay.Prelude.{
  ◌=?◌, true, ◌&&◌, opt_nat_eq, List, [], ◌∷◌, ◌++◌, keep, keep-In, ◌≡◌, ◌⊎◌, sym, subst, ◌∙◌, inl,
  inr, In, In-append_left, In-append_right, In-append_cases, All-In,
}
use mathlib.Core.List.{append-nil, append_assoc}
use patchrelay.Steward.Types.{CheckResult}
use patchrelay.Steward.Checks.{
  normalize_name, same_key, add_to_group, group_checks, latest_of_groups, select_latest_rerun,
  coalesce_reruns,
}
use patchrelay.Steward.Checks.Rerun.{select_latest_rerun-In}
use patchrelay.Steward.Checks.Current.{
  Group, Rows, Apart, Covers, Rows-add, Apart-add, Covers-add, Covers-added, same_key-left,
  same_key_sym, keep-same,
}

-- The run counts: it is among those that selectLatestRerun leaves of the runs with its name and app.
abbrev pub Counts : List CheckResult → CheckResult → Type 0
Counts checks c = In c (
    select_latest_rerun (
      keep (λ d. (normalize_name c.name =? normalize_name d.name) && opt_nat_eq c.app_id d.app_id)
        checks))

pub record Grouped (seen : List CheckResult) (gs : List Group) : Type 0 where
  pub rows : Rows seen gs
  pub keyed : Apart gs
  pub covered : (c : CheckResult) → In c seen → Covers gs c

-- A group that covers a run covers those with its key.
Covers-same :
    (c d : CheckResult) (gs : List Group) → same_key c d ≡ true → Covers gs d → Covers gs c
Covers-same c d [] k m = m
Covers-same c d (g ∷ gs) k (inl t) =
    inl (sym (same_key-left d g.0 c (same_key_sym g.0 d t)) ∙ same_key_sym c d k)
Covers-same c d (g ∷ gs) k (inr m) = inr (Covers-same c d gs k m)

Grouped-add :
    (check : CheckResult) (seen : List CheckResult) (gs : List Group)
    → Grouped seen gs
    → Grouped (seen ++ check ∷ []) (add_to_group check gs)
Grouped-add check seen gs h = record {
  rows = Rows-add check seen gs h.rows h.keyed (λ y m k. Covers-same check y gs k (h.covered y m));
  keyed = Apart-add check gs h.keyed;
  covered = λ c m. placed c (In-append_cases c seen (check ∷ []) m);
}
  where
    placed : (c : CheckResult) → In c seen ⊎ In c (check ∷ []) → Covers (add_to_group check gs) c
    placed c (inl m) = Covers-add check c gs (h.covered c m)
    placed c (inr (inl e)) = subst (Covers (add_to_group check gs)) (sym e) (Covers-added check gs)
    placed c (inr (inr n)) = absurd n

group_checks-Grouped :
    (checks seen : List CheckResult) (gs : List Group)
    → Grouped seen gs
    → Grouped (seen ++ checks) (group_checks gs checks)
unfolding group_checks
group_checks-Grouped [] seen gs h = subst (λ l. Grouped l gs) (sym (append-nil seen)) h
group_checks-Grouped (c ∷ cs) seen gs h =
    subst (λ l. Grouped l (group_checks (add_to_group c gs) cs)) (append_assoc seen (c ∷ []) cs)
      (group_checks-Grouped cs (seen ++ c ∷ []) _ (Grouped-add c seen gs h))

-- What counts of the runs with one key.
row_of :
    (checks : List CheckResult) (g : Group) (c : CheckResult)
    → g.0 ∷ g.1 ≡ keep (same_key g.0) checks
    → same_key g.0 c ≡ true
    → g.0 ∷ g.1 ≡ keep (same_key c) checks
row_of checks g c h k =
    h ∙ keep-same (same_key g.0) (same_key c) checks (λ x. same_key-left g.0 c x k)

Counts-latest :
    (checks : List CheckResult) (gs : List Group) (c : CheckResult)
    → Rows checks gs
    → Covers gs c
    → Counts checks c
    → In c (latest_of_groups gs)
unfolding latest_of_groups
Counts-latest checks [] c h m k = absurd m
Counts-latest checks (g ∷ gs) c h (inl t) k =
    In-append_left c (select_latest_rerun (g.0 ∷ g.1)) _
      (subst (λ l. In c (select_latest_rerun l)) (sym (row_of checks g c h.0 t)) k)
Counts-latest checks (g ∷ gs) c h (inr m) k =
    In-append_right c (select_latest_rerun (g.0 ∷ g.1)) _ (Counts-latest checks gs c h.1 m k)

latest-Counts :
    (checks : List CheckResult) (gs : List Group) (c : CheckResult)
    → Rows checks gs
    → In c (latest_of_groups gs)
    → In c checks × Counts checks c
unfolding latest_of_groups
latest-Counts checks [] c h m = absurd m
latest-Counts checks (g ∷ gs) c h m =
    elim (In-append_cases c (select_latest_rerun (g.0 ∷ g.1)) (latest_of_groups gs) m) [
      | inr later ↦ latest-Counts checks gs c h.1 later
      | inl here ↦
          let given =
            All-In _ (select_latest_rerun (g.0 ∷ g.1)) (select_latest_rerun-In (g.0 ∷ g.1)).0 c
              here in
          let (known, k) = keep-In (same_key g.0) c checks (subst (In c) h.0 given) in
          (known, subst (λ l. In c (select_latest_rerun l)) (row_of checks g c h.0 k) here)
    ]

-- The runs that are left are those that count.
pub coalesce_reruns-members :
    (checks : List CheckResult) (c : CheckResult)
    → (In c (coalesce_reruns checks) → In c checks × Counts checks c)
      × (In c checks → Counts checks c → In c (coalesce_reruns checks))
unfolding coalesce_reruns
coalesce_reruns-members checks c =
    let grouped =
      group_checks-Grouped checks [] [] (record { rows = tt; keyed = tt; covered = λ c m. m }) in
    (
      latest-Counts checks (group_checks [] checks) c grouped.rows,
      λ m k. Counts-latest checks (group_checks [] checks) c grouped.rows (grouped.covered c m) k,
    )
