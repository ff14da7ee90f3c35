-- ===== src/Quill/Publication/Blocking.antt =====
-- packages/review-quill/src/review-publication-policy.ts: what the filter keeps, and when the review
-- requests changes.
use native.Mathlib.Omega.{arith}
use patchrelay.Prelude.{
  ℕ, zero, suc, ◌≤◌, String, Bool, true, false, Bool-cases, Option, List, [], ◌∷◌, length, take,
  keep, any, In, In-keep, keep-In, ◌≡◌, ◌↔◌, ◌⊎◌, refl, sym, inl, inr,
}
use patchrelay.Quill.Publication.{
  ReviewFinding, ReviewFindingSeverity, blocking, nit, ReviewArchitecturalConcern, ReviewVerdict,
  approve, request_changes, is_blocking, is_confident, is_known, not_after, insert_finding,
  sort_findings, filter_findings, resolve_event,
}

clash : true ≡ false → ⊥
clash k = cc

In-any : {A : Type 0} (p : A → Bool) (a : A) (xs : List A) → In a xs → p a ≡ true → any p xs ≡ true
In-any p a [] m h = absurd m
In-any p a (x ∷ xs) m h = elim (Bool-cases (p x)) [
  | inl t ↦ rw t refl
  | inr f ↦ elim m [ inl e ↦ absurd (clash cc) | inr k ↦ let ih = In-any p a xs k h in rw f ih ]
]

any-In :
    {A : Type 0} (p : A → Bool) (xs : List A) → any p xs ≡ true → (a : A) × In a xs × (p a ≡ true)
any-In p [] h = cc
any-In p (x ∷ xs) h = elim (Bool-cases (p x)) [
  | inl t ↦ (x, inl refl, t)
  | inr f ↦ let (a, m, k) = any-In p xs (rw f at h) in (a, inr m, k)
]

take-In : {A : Type 0} (n : ℕ) (a : A) (xs : List A) → In a (take n xs) → In a xs
take-In zero a xs m = absurd m
take-In (suc n) a [] m = m
take-In (suc n) a (x ∷ xs) (inl e) = inl e
take-In (suc n) a (x ∷ xs) (inr m) = inr (take-In n a xs m)

length-take : {A : Type 0} (n : ℕ) (xs : List A) → length (take n xs) ≤ n
length-take zero xs = (omega arith)
length-take (suc n) [] = omega arith
length-take (suc n) (x ∷ xs) = let ih = length-take n xs in omega arith

abbrev blocks : ReviewFinding → Bool
blocks f = is_blocking f.severity

-- Whether the first of the findings blocks.
abbrev first_blocks : List ReviewFinding → Bool
first_blocks [] = false
first_blocks (f ∷ rest) = blocks f

In-insert_finding :
    (x a : ReviewFinding) (xs : List ReviewFinding) → In a (insert_finding x xs) → In a (x ∷ xs)
unfolding insert_finding
In-insert_finding x a [] m = m
In-insert_finding x a (y ∷ ys) m = elim (Bool-cases (not_after x y)) [
  | inl t ↦ rw (t, insert_finding) at m
  | inr f ↦ behind (In-insert_finding x a ys) (rw (f, insert_finding) at m)
]
  where
    behind :
        (In a (insert_finding x ys) → In a (x ∷ ys))
        → In a (y ∷ insert_finding x ys)
        → In a (x ∷ y ∷ ys)
    behind further (inl e) = inr (inl e)
    behind further (inr k) = elim (further k) [ inl e ↦ inl e | inr r ↦ inr (inr r) ]

In-sort_findings : (a : ReviewFinding) (xs : List ReviewFinding) → In a (sort_findings xs) → In a xs
unfolding sort_findings
In-sort_findings a [] m = m
In-sort_findings a (x ∷ xs) m = elim (In-insert_finding x a (sort_findings xs) m) [
  | inl e ↦ inl e
  | inr k ↦ inr (In-sort_findings a xs k)
]

insert_finding-In :
    (x a : ReviewFinding) (xs : List ReviewFinding) → In a (x ∷ xs) → In a (insert_finding x xs)
unfolding insert_finding
insert_finding-In x a [] m = m
insert_finding-In x a (y ∷ ys) m = elim (Bool-cases (not_after x y)) [
  | inl t ↦ rw (t, insert_finding) m
  | inr f ↦ rw (f, insert_finding) (behind (insert_finding-In x a ys) m)
]
  where
    behind :
        (In a (x ∷ ys) → In a (insert_finding x ys))
        → In a (x ∷ y ∷ ys)
        → In a (y ∷ insert_finding x ys)
    behind further (inl e) = inr (further (inl e))
    behind further (inr (inl e)) = inl e
    behind further (inr (inr k)) = inr (further (inr k))

sort_findings-In : (a : ReviewFinding) (xs : List ReviewFinding) → In a xs → In a (sort_findings xs)
unfolding sort_findings
sort_findings-In a [] m = m
sort_findings-In a (x ∷ xs) (inl e) = insert_finding-In x a (sort_findings xs) (inl e)
sort_findings-In a (x ∷ xs) (inr m) =
    insert_finding-In x a (sort_findings xs) (inr (sort_findings-In a xs m))

severity_cases : (s : ReviewFindingSeverity) → (s ≡ blocking) ⊎ (s ≡ nit)
severity_cases blocking = inl refl
severity_cases nit = inr refl

-- No finding that blocks is behind one that does not.
leading : (x y : ReviewFinding) → not_after x y ≡ true → blocks y ≡ true → blocks x ≡ true
unfolding not_after is_blocking
leading x y h k = elim (severity_cases x.severity) [
  | inl p ↦ rw p refl
  | inr p ↦ elim (severity_cases y.severity) [
    | inl q ↦ absurd (clash (sym (rw (p, q, not_after) at h)))
    | inr q ↦ absurd (clash (sym (rw (q, is_blocking) at k)))
  ]
]

trailing : (x y : ReviewFinding) → not_after x y ≡ false → blocks x ≡ true → blocks y ≡ true
unfolding not_after is_blocking
trailing x y h k = elim (severity_cases y.severity) [
  | inl q ↦ rw q refl
  | inr q ↦ elim (severity_cases x.severity) [
    | inl p ↦ absurd (clash (rw (p, q, not_after) at h))
    | inr p ↦ absurd (clash (sym (rw (p, is_blocking) at k)))
  ]
]

-- A list with a finding that blocks starts with one.
abbrev Leads : List ReviewFinding → Type 0
Leads xs = (f : ReviewFinding) → In f xs → blocks f ≡ true → first_blocks xs ≡ true

insert_finding-Leads :
    (x : ReviewFinding) (xs : List ReviewFinding) → Leads xs → Leads (insert_finding x xs)
unfolding insert_finding
insert_finding-Leads x [] l f (inl e) b = cc
insert_finding-Leads x [] l f (inr m) b = absurd m
insert_finding-Leads x (y ∷ ys) l f m b = elim (Bool-cases (not_after x y)) [
  | inl t ↦ rw (t, insert_finding) (front t (rw (t, insert_finding) at m))
  | inr n ↦ rw (n, insert_finding) (back n (In-insert_finding x f (y ∷ ys) m))
]
  where
    front : not_after x y ≡ true → In f (x ∷ y ∷ ys) → blocks x ≡ true
    front t (inl e) = cc
    front t (inr k) = leading x y t (l f k b)

    back : not_after x y ≡ false → In f (x ∷ y ∷ ys) → blocks y ≡ true
    back n (inl e) = trailing x y n cc
    back n (inr k) = l f k b

sort_findings-Leads : (xs : List ReviewFinding) → Leads (sort_findings xs)
unfolding sort_findings
sort_findings-Leads [] f m b = absurd m
sort_findings-Leads (x ∷ xs) f m b =
    insert_finding-Leads x (sort_findings xs) (sort_findings-Leads xs) f m b

-- A cap above 0 keeps the first finding.
first_of_take :
    (n : ℕ) (xs : List ReviewFinding) → first_blocks xs ≡ true → any blocks (take (suc n) xs) ≡ true
first_of_take n [] h = cc
first_of_take n (x ∷ xs) h = rw h refl

-- What filterFindings posts: at most 20 findings, each one of the given, confident, and in a known file.
pub filter_findings-In :
    (known_paths : Option (List String)) (findings : List ReviewFinding)
    → (length (filter_findings known_paths findings) ≤ 20)
      × ((f : ReviewFinding)
          → In f (filter_findings known_paths findings)
          → In f findings × (is_confident f ≡ true) × (is_known known_paths f ≡ true))
unfolding filter_findings
filter_findings-In known_paths findings =
    let confident = keep is_confident findings in
    let wanted = keep (is_known known_paths) confident in
    (
      length-take 20 (sort_findings wanted),
      λ f m.
          let (k, known) =
            keep-In (is_known known_paths) f confident
              (In-sort_findings f wanted (take-In 20 f (sort_findings wanted) m)) in
          let (given, sure) = keep-In is_confident f findings k in (given, sure, known),
    )

-- A finding that blocks keeps the review from approving, whatever the cap drops.
filter_findings-blocks :
    (known_paths : Option (List String)) (findings : List ReviewFinding) (f : ReviewFinding)
    → In f findings
    → blocks f ≡ true
    → is_confident f ≡ true
    → is_known known_paths f ≡ true
    → any blocks (filter_findings known_paths findings) ≡ true
unfolding filter_findings
filter_findings-blocks known_paths findings f m b sure known =
    let confident = keep is_confident findings in
    let wanted = keep (is_known known_paths) confident in
    let there =
      In-keep (is_known known_paths) f confident (In-keep is_confident f findings m sure) known in
    first_of_take 19 (sort_findings wanted)
      (sort_findings-Leads wanted f (sort_findings-In f wanted there) b)

abbrev concern_blocks : ReviewArchitecturalConcern → Bool
concern_blocks c = is_blocking c.severity

resolve_event-cases :
    (verdict : ReviewVerdict) (filtered : List ReviewFinding)
    → resolve_event verdict filtered ≡ request_changes
    → (any blocks filtered ≡ true) ⊎ (any concern_blocks verdict.architectural_concerns ≡ true)
unfolding resolve_event
resolve_event-cases verdict filtered h = elim (Bool-cases (any blocks filtered)) [
  | inl t ↦ inl t
  | inr f ↦ elim (Bool-cases (any concern_blocks verdict.architectural_concerns)) [
    | inl t ↦ inr t
    | inr g ↦ absurd (approved (rw (f, g, resolve_event) at h))
  ]
]
  where
    approved : approve ≡ request_changes → ⊥
    approved e = cc

resolve_event-requests :
    (verdict : ReviewVerdict) (filtered : List ReviewFinding)
    → (any blocks filtered ≡ true) ⊎ (any concern_blocks verdict.architectural_concerns ≡ true)
    → resolve_event verdict filtered ≡ request_changes
unfolding resolve_event
resolve_event-requests verdict filtered (inl t) = rw (t, resolve_event) refl
resolve_event-requests verdict filtered (inr t) = elim (Bool-cases (any blocks filtered)) [
  | inl b ↦ rw (b, resolve_event) refl
  | inr n ↦ rw (n, t, resolve_event) refl
]

-- The cap and the order of the filter never change what the review says: with the filtered findings
-- resolveEvent requests changes exactly if some architectural concern blocks or some finding of the
-- verdict blocks that is confident and in a known file.
pub resolve_event-filter_findings_iff :
    (known_paths : Option (List String)) (verdict : ReviewVerdict)
    → (resolve_event verdict (filter_findings known_paths verdict.findings) ≡ request_changes) ↔ (
        ((f : ReviewFinding) × In f verdict.findings
          × (is_blocking f.severity ≡ true)
          × (is_confident f ≡ true)
          × (is_known known_paths f ≡ true))
        ⊎ ((c : ReviewArchitecturalConcern) × In c verdict.architectural_concerns
            × (is_blocking c.severity ≡ true)))
resolve_event-filter_findings_iff known_paths verdict =
    let filtered = filter_findings known_paths verdict.findings in
    (
      λ h. elim (resolve_event-cases verdict filtered h) [
        | inl t ↦
            let (f, m, b) = any-In blocks filtered t in
            let (given, sure, known) = (filter_findings-In known_paths verdict.findings).1 f m in
            inl (f, given, b, sure, known)
        | inr t ↦ inr (any-In concern_blocks verdict.architectural_concerns t)
      ],
      λ e. resolve_event-requests verdict filtered (elim e [
        | inl (f, m, b, sure, known) ↦
            inl (filter_findings-blocks known_paths verdict.findings f m b sure known)
        | inr (c, m, b) ↦ inr (In-any concern_blocks c verdict.architectural_concerns m b)
      ]),
    )
