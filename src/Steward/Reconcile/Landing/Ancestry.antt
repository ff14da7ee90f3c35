-- ===== src/Steward/Reconcile/Landing/Ancestry.antt =====
-- packages/merge-steward/src/open-pr-ancestry.ts: what an empty list of blockers shows.
use patchrelay.Prelude.{
  String, Bool, true, false, List, [], ◌∷◌, ◌++◌, if◌then◌else◌, In, All, inl, inr, refl, subst,
  ◌=?◌,
}
use patchrelay.Steward.Types.{QueueEntry, PrStatus, OpenPrAncestor}
use patchrelay.Steward.Exec.{ok}
use patchrelay.Steward.Exec.Yields.{Yields, Yields-pure, Yields-if, Yields-bind, Yields-after}
use patchrelay.Steward.Context.{
  Context, Call, History, OpenPr, read_open_prs, read_ancestor, read_merge_base,
}
use patchrelay.Steward.Reconcile.Ancestry.{
  AncestryQuery, merge_base, is_ancestor, exempt, stands_on_head, blocker_of, blockers_of,
  find_unlanded_open_pr_ancestors,
}
use patchrelay.Steward.Reconcile.Landing.{Apart}
use patchrelay.Steward.Reconcile.Landing.Facts.{
  Fact, seen, ◌also◌, Any, Learnt, Quiet, gives, ask-Learnt,
}

module _ (ctx : Context) (q : AncestryQuery) where
  -- Whether the open pull request was found to stand above the entry's head.
  abbrev pub Above : OpenPr → Bool → History → Type 0
  Above pr true calls = In (read_ancestor q.pr_head_sha pr.head_sha (ok true)) calls
  Above pr false calls = Unit

  Above-grows :
      (pr : OpenPr) (b : Bool) (c : Call) (calls : History)
      → Above pr b calls
      → Above pr b (c ∷ calls)
  Above-grows pr true c calls h = inr h
  Above-grows pr false c calls h = tt

  abbrev above : OpenPr → Bool → Fact
  above pr b = record { Holds = Above pr b; grows = Above-grows pr b }

  pub Apart-grows :
      (pr : OpenPr) (c : Call) (calls : History) → Apart ctx q calls pr → Apart ctx q (c ∷ calls) pr
  Apart-grows pr c calls (inl e) = inl e
  Apart-grows pr c calls (inr (inl m)) = inr (inl (inr m))
  Apart-grows pr c calls (inr (inr (shared, m, n))) = inr (inr (shared, inr m, inr n))

  -- With no blockers the open pull requests are all apart from the commit.
  abbrev pub Clear : List OpenPr → List OpenPrAncestor → History → Type 0
  Clear prs [] calls = All (Apart ctx q calls) prs
  Clear prs (b ∷ bs) calls = Unit

  pub Clear-grows :
      (prs : List OpenPr) (bs : List OpenPrAncestor) (c : Call) (calls : History)
      → Clear prs bs calls
      → Clear prs bs (c ∷ calls)
  Clear-grows [] [] c calls h = tt
  Clear-grows (pr ∷ prs) [] c calls h = (Apart-grows pr c calls h.0, Clear-grows prs [] c calls h.1)
  Clear-grows prs (b ∷ bs) c calls h = tt

  abbrev pub clear : List OpenPr → List OpenPrAncestor → Fact
  clear prs bs = record { Holds = Clear prs bs; grows = Clear-grows prs bs }

  Clear-append :
      (pr : OpenPr) (prs : List OpenPr) (here rest : List OpenPrAncestor) (calls : History)
      → Clear (pr ∷ []) here calls
      → Clear prs rest calls
      → Clear (pr ∷ prs) (here ++ rest) calls
  Clear-append pr prs [] [] calls h k = (h.0, k)
  Clear-append pr prs [] (b ∷ rest) calls h k = tt
  Clear-append pr prs (b ∷ here) rest calls h k = tt

  stood :
      (pr : OpenPr) (a : Bool) (calls : History)
      → In (read_ancestor q.pr_head_sha pr.head_sha (ok a)) calls
      → Above pr a calls
  stood pr true calls m = m
  stood pr false calls m = tt

  shared_or_blocking :
      (pr : OpenPr) (shared : String) (landed : Bool) (b : OpenPrAncestor) (calls : History)
      → In (read_ancestor shared q.base_sha (ok landed)) calls
      → In (read_merge_base pr.head_sha q.candidate_sha (ok shared)) calls
      → Clear (pr ∷ []) (if landed then [] else b ∷ []) calls
  shared_or_blocking pr shared true b calls m n = (inr (inr (shared, n, m)), tt)
  shared_or_blocking pr shared false b calls m n = tt

  module _ {F : Fact} {K : QueueEntry → PrStatus → Type 0} {before : History} where
    stands_on_head-Learnt :
        (pr : OpenPr)
        → Yields
            (Learnt ctx K before F Any)
            (λ a. Learnt ctx K before (above pr a also F) Any)
            (Quiet ctx K before)
            (stands_on_head ctx q pr)
    unfolding stands_on_head is_ancestor
    stands_on_head-Learnt pr =
        Yields-if (pr.head_sha =? q.pr_head_sha)
          (λ e. Yields-pure false (λ w h. gives ctx K before (λ calls k. (tt, k)) h))
          (λ e.
            Yields-after (λ a w h. gives ctx K before (λ calls k. (stood pr a calls k.0, k.1)) h)
              (ask-Learnt ctx K before (read_ancestor q.pr_head_sha pr.head_sha)
                (ctx.services.is_ancestor q.pr_head_sha pr.head_sha) (λ r. refl)))

    blocker_of-Learnt :
        (pr : OpenPr)
        → Yields
            (Learnt ctx K before F Any)
            (λ bs. Learnt ctx K before (clear (pr ∷ []) bs also F) Any)
            (Quiet ctx K before)
            (blocker_of ctx q pr)
    unfolding blocker_of merge_base is_ancestor
    blocker_of-Learnt pr =
        Yields-if (exempt ctx q pr)
          (λ e. Yields-pure [] (λ w h. gives ctx K before (λ calls k. ((inl e, tt), k)) h))
          (λ e. Yields-bind (stands_on_head-Learnt pr) (λ a.
            Yields-if a
              (λ t. Yields-pure [] (λ w h.
                gives ctx K before
                  (λ calls k. ((inr (inl (subst (λ b. Above pr b calls) t k.0)), tt), k.1)) h))
              (λ f.
                Yields-bind
                  (ask-Learnt ctx K before (read_merge_base pr.head_sha q.candidate_sha)
                    (ctx.services.merge_base pr.head_sha q.candidate_sha) (λ r. refl))
                  (λ shared.
                    Yields-bind
                      (ask-Learnt ctx K before (read_ancestor shared q.base_sha)
                        (ctx.services.is_ancestor shared q.base_sha) (λ r. refl))
                      (λ landed. Yields-pure _ (λ w h.
                        gives ctx K before
                          (λ calls k.
                            (shared_or_blocking pr shared landed _ calls k.0 k.1.0, k.1.1.1))
                          h))))))

  module _ {K : QueueEntry → PrStatus → Type 0} {before : History} where
    blockers_of-Learnt :
        (F : Fact) (prs : List OpenPr)
        → Yields
            (Learnt ctx K before F Any)
            (λ bs. Learnt ctx K before (clear prs bs also F) Any)
            (Quiet ctx K before)
            (blockers_of ctx q prs)
    unfolding blockers_of
    blockers_of-Learnt F [] = Yields-pure [] (λ w h. gives ctx K before (λ calls k. (tt, k)) h)
    blockers_of-Learnt F (pr ∷ prs) = Yields-bind (blocker_of-Learnt pr) (λ here.
        Yields-bind (blockers_of-Learnt (clear (pr ∷ []) here also F) prs) (λ rest.
          Yields-pure (here ++ rest) (λ w h.
            gives ctx K before (λ calls k. (Clear-append pr prs here rest calls k.1.0 k.0, k.1.1))
              h)))

    -- The open pull requests were read, and an empty answer says that all are apart from the commit.
    pub find_unlanded-Learnt :
        (F : Fact)
        → Yields
            (Learnt ctx K before F Any)
            (λ bs w.
              (prs : List OpenPr) × Learnt ctx K before
                (clear prs bs also seen (read_open_prs (ok prs)) also F)
                Any
                w)
            (Quiet ctx K before)
            (find_unlanded_open_pr_ancestors ctx q)
    unfolding find_unlanded_open_pr_ancestors
    find_unlanded-Learnt F =
        Yields-bind (ask-Learnt ctx K before read_open_prs ctx.services.list_open_prs (λ r. refl))
          (λ prs.
            Yields-after (λ bs w h. (prs, h))
              (blockers_of-Learnt (seen (read_open_prs (ok prs)) also F) prs))
