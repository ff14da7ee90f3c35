-- ===== src/Quill/Publication/Disposition.antt =====
-- packages/review-quill/src/review-publication-policy.ts: when a finished review is still published.
use patchrelay.Prelude.{
  String, ◌=?◌, =?_iff, Bool, true, false, not, ◌&&◌, truthy, Bool-cases, ◌≡◌, ◌↔◌, ◌⊎◌, refl, inl,
  inr, sym,
}
use patchrelay.Quill.Publication.{
  PullRequestSnapshot, PublicationDisposition, publish, supersede, cancel,
  classify_publication_disposition,
}

clash : true ≡ false → ⊥
clash k = cc

abbrev is_publish : PublicationDisposition → Bool
is_publish publish = true
is_publish (supersede summary) = false
is_publish (cancel summary) = false

-- A commit that is not empty has moved.
abbrev moved : String → String → Bool
moved now before = truthy now && not (now =? before)

abbrev closed : String → Bool
closed state = not (state =? "open") && not (state =? "OPEN")

moved_cases :
    (now before : String) → moved now before ≡ false → (truthy now ≡ false) ⊎ (now ≡ before)
moved_cases now before h = elim (Bool-cases (truthy now)) [
  | inl t ↦ elim (Bool-cases (now =? before)) [
    | inl e ↦ inr ((=?_iff now before).0 e)
    | inr n ↦ absurd (clash (rw (t, n) at h))
  ]
  | inr f ↦ inl f
]

stays : (now before : String) → (truthy now ≡ false) ⊎ (now ≡ before) → moved now before ≡ false
stays now before (inl f) = rw f refl
stays now before (inr e) = elim (Bool-cases (truthy now)) [
  | inl t ↦ let same = (=?_iff now before).1 e in rw (t, same) refl
  | inr f ↦ rw f refl
]

closed_cases : (state : String) → closed state ≡ false → (state ≡ "open") ⊎ (state ≡ "OPEN")
closed_cases state h = elim (Bool-cases (state =? "open")) [
  | inl e ↦ inl ((=?_iff state "open").0 e)
  | inr n ↦ elim (Bool-cases (state =? "OPEN")) [
    | inl e ↦ inr ((=?_iff state "OPEN").0 e)
    | inr k ↦ absurd (clash (rw (n, k) at h))
  ]
]

opened : (state : String) → (state ≡ "open") ⊎ (state ≡ "OPEN") → closed state ≡ false
opened state (inl e) = let same = (=?_iff state "open").1 e in rw same refl
opened state (inr e) = elim (Bool-cases (state =? "open")) [
  | inl t ↦ rw t refl
  | inr n ↦ let same = (=?_iff state "OPEN").1 e in rw (n, same) refl
]

unchanged :
    (current : PullRequestSnapshot) (head base : String)
    → is_publish (classify_publication_disposition current head base) ≡ true
    → (moved current.head_sha head ≡ false)
      × (moved current.base_sha base ≡ false)
      × (closed current.state ≡ false)
      × (current.is_draft ≡ false)
unfolding classify_publication_disposition
unchanged current head base p = elim (Bool-cases (moved current.head_sha head)) [
  | inl t ↦ absurd (clash (sym (rw (t, classify_publication_disposition) at p)))
  | inr a ↦ elim (Bool-cases (moved current.base_sha base)) [
    | inl t ↦ absurd (clash (sym (rw (a, t, classify_publication_disposition) at p)))
    | inr b ↦ elim (Bool-cases (closed current.state)) [
      | inl t ↦ absurd (clash (sym (rw (a, b, t, classify_publication_disposition) at p)))
      | inr c ↦ elim (Bool-cases current.is_draft) [
        | inl t ↦ absurd (clash (sym (rw (a, b, c, t, classify_publication_disposition) at p)))
        | inr d ↦ (a, b, c, d)
      ]
    ]
  ]
]

published :
    (current : PullRequestSnapshot) (head base : String)
    → moved current.head_sha head ≡ false
    → moved current.base_sha base ≡ false
    → closed current.state ≡ false
    → current.is_draft ≡ false
    → classify_publication_disposition current head base ≡ publish
unfolding classify_publication_disposition
published current head base a b c d = rw (a, b, c, d, classify_publication_disposition) refl

-- A finished review is published exactly if the pull request is open and no draft, and its head and its
-- base are those that were reviewed, where they are known.
pub classify_publication_disposition_iff :
    (current : PullRequestSnapshot) (head base : String)
    → (classify_publication_disposition current head base ≡ publish) ↔ (
        ((truthy current.head_sha ≡ false) ⊎ (current.head_sha ≡ head))
        × ((truthy current.base_sha ≡ false) ⊎ (current.base_sha ≡ base))
        × ((current.state ≡ "open") ⊎ (current.state ≡ "OPEN"))
        × (current.is_draft ≡ false))
classify_publication_disposition_iff current head base = (
  λ h.
      let (a, b, c, d) = unchanged current head base (rw h refl) in
      (
        moved_cases current.head_sha head a,
        moved_cases current.base_sha base b,
        closed_cases current.state c,
        d,
      ),
  λ e.
      let (a, b, c, d) = e in
      published current head base (stays current.head_sha head a) (stays current.base_sha base b)
        (opened current.state c) d,
)
