-- ===== src/Steward/Admission/Alone.antt =====
-- packages/merge-steward/src/service-queue.ts: a pull request has one live entry at most.
use patchrelay.Prelude.{
  ℕ, String, ◌=?◌, =?_iff, ==_iff, Bool, true, false, Bool-cases, none, some, List, [], ◌∷◌, ◌≡◌,
  ◌≢◌, sym, subst, ap, ◌∙◌, inl, inr, In, All-In, arith,
}
use patchrelay.Steward.Types.{QueueEntry, is_terminal}
use patchrelay.Steward.Store.{Store, Stamp, find_entry, get_entry, set_entry, append_event, insert}
use patchrelay.Steward.Store.Query.{get_entry_by_pr}
use patchrelay.Steward.Store.Query.First.{get_entry_by_pr-first}
use patchrelay.Steward.Store.Lookup.{find-set_entry, find-set_entry_other}
use patchrelay.Steward.Store.Sound.{some-injective}
use patchrelay.Steward.Exec.{Result, ok, err}
use patchrelay.Steward.Exec.Keeps.{Keeps, Keeps-bind, Keeps-pure}
use patchrelay.Steward.Context.{Context, World, OpenPr, ask}
use patchrelay.Steward.Admission.Queue.{Settings, new_entry}
use patchrelay.Steward.Admission.Admit.{try_admit, admit_each, scan_eligible_open_prs}
use patchrelay.Steward.Admission.Outcome.{Outcome}
use patchrelay.Steward.Admission.Outcome.Admit.{try_admit-Outcome}

-- Of the live entries of one pull request of a repository there is one at most.
pub record Alone (s : Store) : Type 0 where
  pub same :
      (i j : String) (a b : QueueEntry)
      → get_entry s i ≡ some a
      → get_entry s j ≡ some b
      → a.repo_id ≡ b.repo_id
      → a.pr_number ≡ b.pr_number
      → is_terminal a.status ≡ false
      → is_terminal b.status ≡ false
      → a ≡ b

pub find_entry-In :
    (i : String) (es : List QueueEntry) (a : QueueEntry) → find_entry i es ≡ some a → In a es
unfolding find_entry
find_entry-In i [] a h = ground arith
find_entry-In i (e ∷ es) a h = elim (Bool-cases (e.id =? i)) [
  | inl y ↦ inl (grind arith)
  | inr n ↦ inr (find_entry-In i es a (grind arith))
]

-- A pull request without a live entry has no entry that is live.
none_live-apart :
    (s : Store) (repo : String) (n : ℕ) (j : String) (b : QueueEntry)
    → get_entry_by_pr s repo n ≡ none
    → get_entry s j ≡ some b
    → b.repo_id ≡ repo
    → b.pr_number ≡ n
    → is_terminal b.status ≡ false
    → ⊥
unfolding get_entry
none_live-apart s repo n j b none_live found r p live = elim (get_entry_by_pr-first s repo n) [
  | inl (q, all) ↦
      let k = All-In _ s.entries all b (find_entry-In j s.entries b found) in
      let i = =?_iff b.repo_id repo in let m = ==_iff b.pr_number n in grind arith
  | inr (e, q, m, k, l) ↦ grind arith
]

-- An entry of a pull request without a live one may be inserted.
insert-Alone :
    (s : Store) (e : QueueEntry) (t : Stamp)
    → get_entry_by_pr s e.repo_id e.pr_number ≡ none
    → Alone s
    → Alone (insert s e t)
unfolding insert append_event get_entry
insert-Alone s e t none_live h = record {
  same = λ i j a b fa fb r p la lb. elim (Bool-cases (i =? e.id)) [
    | inl y ↦ elim (Bool-cases (j =? e.id)) [
      | inl z ↦ sym (found i a y fa) ∙ found j b z fb
      | inr z ↦
          let q = found i a y fa in
          absurd (
            none_live-apart s e.repo_id e.pr_number j b none_live (older j b z fb)
              (sym r ∙ ap (λ (x : QueueEntry). x.repo_id) (sym q))
              (sym p ∙ ap (λ (x : QueueEntry). x.pr_number) (sym q)) lb)
    ]
    | inr y ↦ elim (Bool-cases (j =? e.id)) [
      | inl z ↦
          let q = found j b z fb in
          absurd (
            none_live-apart s e.repo_id e.pr_number i a none_live (older i a y fa)
              (r ∙ ap (λ (x : QueueEntry). x.repo_id) (sym q))
              (p ∙ ap (λ (x : QueueEntry). x.pr_number) (sym q)) la)
      | inr z ↦ h.same i j a b (older i a y fa) (older j b z fb) r p la lb
    ]
  ];
}
  where
    apart : (other : String) → (other =? e.id) ≡ false → other ≢ e.id
    apart other n q = let i = (=?_iff other e.id).1 q in grind arith

    older :
        (other : String) (x : QueueEntry)
        → (other =? e.id) ≡ false
        → find_entry other (set_entry e s.entries) ≡ some x
        → find_entry other s.entries ≡ some x
    older other x n g = sym (find-set_entry_other e other s.entries (apart other n)) ∙ g

    found :
        (other : String) (x : QueueEntry)
        → (other =? e.id) ≡ true
        → find_entry other (set_entry e s.entries) ≡ some x
        → e ≡ x
    found other x y g = some-injective (
        sym (find-set_entry e s.entries)
        ∙ ap (λ i. find_entry i (set_entry e s.entries)) (sym ((=?_iff other e.id).0 y))
        ∙ g)

module _ (ctx : Context) (cfg : Settings) where
  Outcome-Alone :
      (reread : Bool) (n : ℕ) (branch sha : String) (w : World) (end : Result Bool × World)
      → Outcome ctx cfg reread n branch sha w end
      → Alone w.store
      → Alone end.1.store
  unfolding new_entry
  Outcome-Alone reread n branch sha w (ok true, v) o h =
      subst (λ (u : World). Alone u.store) (sym o.result) (insert-Alone w.store _ _ o.none_live h)
  Outcome-Alone reread n branch sha w (ok false, v) o h = subst Alone (sym o.0) h
  Outcome-Alone reread n branch sha w (err f, v) o h =
      subst (λ (u : World). Alone u.store) (sym o.2) h

  try_admit-Alone :
      (reread : Bool) (n : ℕ) (branch sha : String)
      → Keeps (λ (w : World). Alone w.store) (try_admit ctx cfg reread n branch sha)
  try_admit-Alone reread n branch sha = record {
    held = λ w h.
        Outcome-Alone reread n branch sha w _ (try_admit-Outcome ctx cfg reread n branch sha w) h;
  }

  admit_each-Alone :
      (reread : Bool) (prs : List OpenPr) (n : ℕ)
      → Keeps (λ (w : World). Alone w.store) (admit_each ctx cfg reread prs n)
  unfolding admit_each
  admit_each-Alone reread [] n = Keeps-pure n
  admit_each-Alone reread (pr ∷ prs) n =
      Keeps-bind _ _ (try_admit-Alone reread pr.number pr.branch pr.head_sha)
        (λ b. admit_each-Alone reread prs _)

  scan-Alone :
      (reread : Bool) → Keeps (λ (w : World). Alone w.store) (scan_eligible_open_prs ctx cfg reread)
  unfolding scan_eligible_open_prs ask
  scan-Alone reread =
      Keeps-bind _ _ (record { held = λ w h. h })
        (λ prs. Keeps-bind _ _ (admit_each-Alone reread prs 0) (λ n. Keeps-pure _))

-- A scan of the open pull requests, whatever it lists and however often, leaves a pull request with at
-- most one live entry where each had at most one before.
pub scan_eligible_open_prs-Alone :
    (ctx : Context) (cfg : Settings) (reread : Bool) (w : World)
    → Alone w.store
    → Alone (scan_eligible_open_prs ctx cfg reread w).1.store
scan_eligible_open_prs-Alone ctx cfg reread w h = (scan-Alone ctx cfg reread).held w h
