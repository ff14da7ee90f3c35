-- ===== src/Steward/Checks/Current.antt =====
-- packages/merge-steward/src/check-policy.ts: the groups in which coalesceReruns puts the runs.
use patchrelay.Prelude.{
  ℕ, ◌=?◌, =?_iff, =?_refl, Bool, true, false, Bool-cases, Option, none, some, opt_nat_eq, ==_iff,
  List, [], ◌∷◌, ◌++◌, keep, ◌≡◌, ◌⊎◌, refl, sym, ap, ◌∙◌, inl, inr, In,
}
use patchrelay.Steward.Types.{CheckResult}
use patchrelay.Steward.Checks.{normalize_name, same_key, add_to_group}

abbrev pub Group : Type 0
Group = CheckResult × List CheckResult

clash : true ≡ false → ⊥
clash k = cc

opt_nat_eq-same : (a b : Option ℕ) → opt_nat_eq a b ≡ true → a ≡ b
opt_nat_eq-same none none h = refl
opt_nat_eq-same none (some b) h = cc
opt_nat_eq-same (some a) none h = cc
opt_nat_eq-same (some a) (some b) h = ap some ((==_iff a b).0 h)

opt_nat_eq_refl : (a : Option ℕ) → opt_nat_eq a a ≡ true
opt_nat_eq_refl none = refl
opt_nat_eq_refl (some a) = (==_iff a a).1 refl

same_key_refl : (a : CheckResult) → same_key a a ≡ true
same_key_refl a = rw (=?_refl (normalize_name a.name), opt_nat_eq_refl a.app_id) refl

keys :
    (a b : CheckResult)
    → same_key a b ≡ true
    → (normalize_name a.name ≡ normalize_name b.name) × (a.app_id ≡ b.app_id)
keys a b h = elim (Bool-cases (normalize_name a.name =? normalize_name b.name)) [
  | inl t ↦ ((=?_iff _ _).0 t, opt_nat_eq-same a.app_id b.app_id (rw t at h))
  | inr f ↦ absurd (clash (sym (rw f at h)))
]

-- Runs with one key have the same runs with their key.
pub same_key-left : (a b c : CheckResult) → same_key a b ≡ true → same_key a c ≡ same_key b c
same_key-left a b c h = let (p, q) = keys a b h in rw (p, q) refl

pub same_key_sym : (a b : CheckResult) → same_key a b ≡ true → same_key b a ≡ true
same_key_sym a b h = sym (same_key-left a b a h) ∙ same_key_refl a

module _ (p : CheckResult → Bool) where
  keep-snoc_true :
      (xs : List CheckResult) (x : CheckResult)
      → p x ≡ true
      → keep p (xs ++ x ∷ []) ≡ keep p xs ++ x ∷ []
  keep-snoc_true [] x h = rw h refl
  keep-snoc_true (y ∷ ys) x h = elim (Bool-cases (p y)) [
    | inl t ↦ rw t (ap (λ l. y ∷ l) (keep-snoc_true ys x h))
    | inr f ↦ rw f (keep-snoc_true ys x h)
  ]

  keep-snoc_false :
      (xs : List CheckResult) (x : CheckResult) → p x ≡ false → keep p (xs ++ x ∷ []) ≡ keep p xs
  keep-snoc_false [] x h = rw h refl
  keep-snoc_false (y ∷ ys) x h = elim (Bool-cases (p y)) [
    | inl t ↦ rw t (ap (λ l. y ∷ l) (keep-snoc_false ys x h))
    | inr f ↦ rw f (keep-snoc_false ys x h)
  ]

  keep-none :
      (xs : List CheckResult) → ((x : CheckResult) → In x xs → p x ≡ true → ⊥) → keep p xs ≡ []
  keep-none [] h = refl
  keep-none (x ∷ xs) h = elim (Bool-cases (p x)) [
    | inl t ↦ absurd (h x (inl refl) t)
    | inr f ↦ rw f (keep-none xs (λ y m. h y (inr m)))
  ]

pub keep-same :
    (p q : CheckResult → Bool) (xs : List CheckResult)
    → ((x : CheckResult) → p x ≡ q x)
    → keep p xs ≡ keep q xs
keep-same p q [] h = refl
keep-same p q (x ∷ xs) h = elim (Bool-cases (q x)) [
  | inl t ↦ rw (h x ∙ t, t) (ap (λ l. x ∷ l) (keep-same p q xs h))
  | inr f ↦ rw (h x ∙ f, f) (keep-same p q xs h)
]

-- Each group has the runs with its key, in their order.
abbrev pub Rows : List CheckResult → List Group → Type 0
Rows seen [] = Unit
Rows seen (g ∷ gs) = (g.0 ∷ g.1 ≡ keep (same_key g.0) seen) × Rows seen gs

-- The key of the run is not that of a group.
abbrev Outside : CheckResult → List Group → Type 0
Outside c [] = Unit
Outside c (g ∷ gs) = (same_key c g.0 ≡ false) × Outside c gs

abbrev pub Apart : List Group → Type 0
Apart [] = Unit
Apart (g ∷ gs) = Outside g.0 gs × Apart gs

abbrev pub Covers : List Group → CheckResult → Type 0
Covers [] c = ⊥
Covers (g ∷ gs) c = (same_key g.0 c ≡ true) ⊎ Covers gs c

Outside-add :
    (a check : CheckResult) (gs : List Group)
    → Outside a gs
    → same_key a check ≡ false
    → Outside a (add_to_group check gs)
unfolding add_to_group
Outside-add a check [] h n = (n, tt)
Outside-add a check ((first, others) ∷ gs) h n = elim (Bool-cases (same_key first check)) [
  | inl t ↦ rw (t, add_to_group) h
  | inr f ↦ rw (f, add_to_group) (h.0, Outside-add a check gs h.1 n)
]

pub Apart-add : (check : CheckResult) (gs : List Group) → Apart gs → Apart (add_to_group check gs)
unfolding add_to_group
Apart-add check [] h = (tt, tt)
Apart-add check ((first, others) ∷ gs) h = elim (Bool-cases (same_key first check)) [
  | inl t ↦ rw (t, add_to_group) h
  | inr f ↦ rw (f, add_to_group) (Outside-add first check gs h.0 f, Apart-add check gs h.1)
]

pub Covers-add :
    (check c : CheckResult) (gs : List Group) → Covers gs c → Covers (add_to_group check gs) c
unfolding add_to_group
Covers-add check c [] m = absurd m
Covers-add check c ((first, others) ∷ gs) m = elim (Bool-cases (same_key first check)) [
  | inl t ↦ rw (t, add_to_group) m
  | inr f ↦ rw (f, add_to_group) (later (Covers-add check c gs) m)
]
  where
    later :
        (Covers gs c → Covers (add_to_group check gs) c)
        → (same_key first c ≡ true) ⊎ Covers gs c
        → (same_key first c ≡ true) ⊎ Covers (add_to_group check gs) c
    later further (inl k) = inl k
    later further (inr k) = inr (further k)

pub Covers-added : (check : CheckResult) (gs : List Group) → Covers (add_to_group check gs) check
unfolding add_to_group
Covers-added check [] = inl (same_key_refl check)
Covers-added check ((first, others) ∷ gs) = elim (Bool-cases (same_key first check)) [
  | inl t ↦ rw (t, add_to_group) (inl t)
  | inr f ↦ rw (f, add_to_group) (inr (Covers-added check gs))
]

-- The groups whose key the run has not are left as they are.
Rows-snoc :
    (first check : CheckResult) (seen : List CheckResult) (gs : List Group)
    → same_key first check ≡ true
    → Outside first gs
    → Rows seen gs
    → Rows (seen ++ check ∷ []) gs
Rows-snoc first check seen [] t o h = tt
Rows-snoc first check seen (g ∷ gs) t o h = elim (Bool-cases (same_key g.0 check)) [
  | inl k ↦ absurd (clash (sym (same_key-left first check g.0 t ∙ same_key_sym g.0 check k) ∙ o.0))
  | inr f ↦ (
    h.0 ∙ sym (keep-snoc_false (same_key g.0) seen check f),
    Rows-snoc first check seen gs t o.1 h.1,
  )
]

pub Rows-add :
    (check : CheckResult) (seen : List CheckResult) (gs : List Group)
    → Rows seen gs
    → Apart gs
    → ((y : CheckResult) → In y seen → same_key check y ≡ true → Covers gs check)
    → Rows (seen ++ check ∷ []) (add_to_group check gs)
unfolding add_to_group
Rows-add check seen [] h a cover = (
  sym (
      keep-snoc_true (same_key check) seen check (same_key_refl check)
      ∙ ap (λ l. l ++ check ∷ []) (keep-none (same_key check) seen cover)),
  tt,
)
Rows-add check seen ((first, others) ∷ gs) h a cover = elim (Bool-cases (same_key first check)) [
  | inl t ↦
      rw (t, add_to_group)
        (
          ap (λ l. l ++ check ∷ []) h.0 ∙ sym (keep-snoc_true (same_key first) seen check t),
          Rows-snoc first check seen gs t a.0 h.1,
        )
  | inr f ↦
      rw (f, add_to_group)
        (
          h.0 ∙ sym (keep-snoc_false (same_key first) seen check f),
          Rows-add check seen gs h.1 a.1 (λ y m k. rest f (cover y m k)),
        )
]
  where
    rest :
        same_key first check ≡ false
        → (same_key first check ≡ true) ⊎ Covers gs check
        → Covers gs check
    rest f (inl t) = absurd (clash (sym t ∙ f))
    rest f (inr k) = k
