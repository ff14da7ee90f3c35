-- ===== src/Steward/Store/Query/First.antt =====
-- packages/merge-steward/src/memory-store.ts: which entry getEntryByPR gives.
use patchrelay.Prelude.{
  ℕ, ◌≤◌, ltb, ◌==◌, ==_iff, String, ◌=?◌, =?_iff, Bool, true, false, not, sym, ◌∙◌, Bool-cases,
  none, some, List, [], ◌∷◌, ◌≡◌, ◌⊎◌, refl, inl, inr, In, All, arith,
}
use patchrelay.Steward.Types.{QueueEntry, is_terminal}
use patchrelay.Steward.Store.{Store}
use patchrelay.Steward.Store.Query.{is_live_for, best_entry, get_entry_by_pr}

module _ (p : QueueEntry → Bool) where
  abbrev NoneBefore : QueueEntry → List QueueEntry → Type 0
  NoneBefore r es = All (λ x. p x ≡ true → r.position ≤ x.position) es

  best_some :
      (b : QueueEntry) (es : List QueueEntry)
      → (r : QueueEntry) × (best_entry p (some b) es ≡ some r)
        × ((r ≡ b) ⊎ (In r es × (p r ≡ true)))
        × (r.position ≤ b.position)
        × NoneBefore r es
  unfolding best_entry
  best_some b [] = (b, refl, inl refl, omega arith, tt)
  best_some b (e ∷ es) = elim (Bool-cases (p e)) [
    | inr n ↦
        let (r, q, from, below, least) = best_some b es in
        (r, rw (n, best_entry) q, wider e r es b from, below, ((λ y. ground arith), least))
    | inl y ↦ elim (Bool-cases (ltb e.position b.position)) [
      | inl l ↦
          let (r, q, from, below, least) = best_some e es in
          (
            r,
            rw (y, best_entry) (rw l q),
            moved_up e r es b y from,
            ground arith,
            ((λ z. below), least),
          )
      | inr g ↦
          let (r, q, from, below, least) = best_some b es in
          (r, rw (y, best_entry) (rw g q), wider e r es b from, below, ((λ z. ground arith), least))
    ]
  ]
    where
      wider :
          (e r : QueueEntry) (es : List QueueEntry) (b : QueueEntry)
          → (r ≡ b) ⊎ (In r es × (p r ≡ true))
          → (r ≡ b) ⊎ (In r (e ∷ es) × (p r ≡ true))
      wider e r es b (inl s) = inl s
      wider e r es b (inr (m, k)) = inr (inr m, k)

      moved_up :
          (e r : QueueEntry) (es : List QueueEntry) (b : QueueEntry)
          → p e ≡ true
          → (r ≡ e) ⊎ (In r es × (p r ≡ true))
          → (r ≡ b) ⊎ (In r (e ∷ es) × (p r ≡ true))
      moved_up e r es b y (inl s) = inr (inl s, rw s y)
      moved_up e r es b y (inr (m, k)) = inr (inr m, k)

  best_none :
      (es : List QueueEntry)
      → ((best_entry p none es ≡ none) × All (λ x. p x ≡ false) es)
        ⊎ ((r : QueueEntry) × (best_entry p none es ≡ some r)
            × In r es
            × (p r ≡ true)
            × NoneBefore r es)
  unfolding best_entry
  best_none [] = inl (refl, tt)
  best_none (e ∷ es) = elim (Bool-cases (p e)) [
    | inl y ↦
        let (r, q, from, below, least) = best_some e es in
        let place = placed e r es y from in
        inr (r, rw (y, best_entry) q, place.0, place.1, ((λ z. below), least))
    | inr n ↦ elim (best_none es) [
      | inl (q, none_live) ↦ inl (rw (n, best_entry) q, (n, none_live))
      | inr (r, q, m, k, least) ↦
          inr (r, rw (n, best_entry) q, inr m, k, ((λ y. ground arith), least))
    ]
  ]
    where
      placed :
          (e r : QueueEntry) (es : List QueueEntry)
          → p e ≡ true
          → (r ≡ e) ⊎ (In r es × (p r ≡ true))
          → In r (e ∷ es) × (p r ≡ true)
      placed e r es y (inl s) = (inl s, rw s y)
      placed e r es y (inr (m, k)) = (inr m, k)

-- A live entry of the repository for the pull request: its status is not final.
abbrev pub Live : String → ℕ → QueueEntry → Type 0
Live repo_id pr_number e =
    (e.repo_id ≡ repo_id) × (e.pr_number ≡ pr_number) × (is_terminal e.status ≡ false)

module _ (repo_id : String) (pr_number : ℕ) where
  is_live_for-Live :
      (e : QueueEntry) → is_live_for repo_id pr_number e ≡ true → Live repo_id pr_number e
  is_live_for-Live e h = elim (Bool-cases (e.repo_id =? repo_id)) [
    | inl r ↦ elim (Bool-cases (e.pr_number == pr_number)) [
      | inl n ↦ (
        (=?_iff e.repo_id repo_id).0 r,
        (==_iff e.pr_number pr_number).0 n,
        unfinished (rw (r, n) at h),
      )
      | inr n ↦ absurd (clash (rw (r, n) at h))
    ]
    | inr r ↦ absurd (clash (rw r at h))
  ]
    where
      clash : false ≡ true → ⊥
      clash k = cc

      unfinished : {b : Bool} → not b ≡ true → b ≡ false
      unfinished {b} k = ground arith

  Live-is_live_for :
      (e : QueueEntry) → Live repo_id pr_number e → is_live_for repo_id pr_number e ≡ true
  Live-is_live_for e (r, n, t) =
      rw ((=?_iff e.repo_id repo_id).1 r, (==_iff e.pr_number pr_number).1 n, t) refl

  dead_entries :
      (es : List QueueEntry)
      → All (λ x. is_live_for repo_id pr_number x ≡ false) es
      → All (λ x. ¬ Live repo_id pr_number x) es
  dead_entries [] h = tt
  dead_entries (e ∷ es) h = (λ l. clash (sym h.0 ∙ Live-is_live_for e l), dead_entries es h.1)
    where
      clash : false ≡ true → ⊥
      clash k = cc

  later_entries :
      (r : QueueEntry) (es : List QueueEntry)
      → NoneBefore (is_live_for repo_id pr_number) r es
      → All (λ x. Live repo_id pr_number x → r.position ≤ x.position) es
  later_entries r [] h = tt
  later_entries r (e ∷ es) h = (λ l. h.0 (Live-is_live_for e l), later_entries r es h.1)

-- Either the pull request has no live entry in the repository and none is given, or the entry that is
-- given is a live one of the store and no live one has a lower position.
pub get_entry_by_pr-first :
    (s : Store) (repo_id : String) (pr_number : ℕ)
    → ((get_entry_by_pr s repo_id pr_number ≡ none)
        × All (λ x. ¬ Live repo_id pr_number x) s.entries)
      ⊎ ((r : QueueEntry) × (get_entry_by_pr s repo_id pr_number ≡ some r)
          × In r s.entries
          × Live repo_id pr_number r
          × All (λ x. Live repo_id pr_number x → r.position ≤ x.position) s.entries)
unfolding get_entry_by_pr
get_entry_by_pr-first s repo_id pr_number =
    elim (best_none (is_live_for repo_id pr_number) s.entries) [
      | inl (q, dead) ↦ inl (q, dead_entries repo_id pr_number s.entries dead)
      | inr (r, q, m, live, least) ↦ inr (
        r,
        q,
        m,
        is_live_for-Live repo_id pr_number r live,
        later_entries repo_id pr_number r s.entries least,
      )
    ]
