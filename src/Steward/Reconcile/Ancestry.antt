-- ===== src/Steward/Reconcile/Ancestry.antt =====
-- packages/merge-steward/src/open-pr-ancestry.ts: history shared with open pull requests that main
-- does not have yet.
use patchrelay.Prelude.{
  ℕ, String, ◌=?◌, Bool, true, false, ◌&&◌, List, [], ◌∷◌, ◌++◌, map, ◌==◌, if◌then◌else◌, template,
  join, show, short, truthy,
}
use patchrelay.Steward.Types.{OpenPrAncestor}
use patchrelay.Steward.Exec.{pure, ◌>>=◌}
use patchrelay.Steward.Context.{
  Context, Act, OpenPr, ask, read_open_prs, read_ancestor, read_merge_base,
}

pub record AncestryQuery : Type 0 where
  pub current_pr_number : ℕ
  pub current_branch : String
  pub pr_head_sha : String
  pub candidate_sha : String
  pub base_sha : String

unfoldable pub describe_open_pr_ancestors : List OpenPrAncestor → String
unfolding template join show short
describe_open_pr_ancestors blockers =
    template ("candidate shares unlanded history with open PR " ∷ join ", " (map one blockers) ∷ [])
  where
    one : OpenPrAncestor → String
    one b = template ("#" ∷ show b.pr_number ∷ " (" ∷ short 12 b.shared_ancestor_sha ∷ ")" ∷ [])

module _ (ctx : Context) where
  unfoldable pub merge_base : String → String → Act String
  merge_base left right = ask (read_merge_base left right) (ctx.services.merge_base left right)

  unfoldable pub is_ancestor : String → String → Act Bool
  is_ancestor a b = ask (read_ancestor a b) (ctx.services.is_ancestor a b)

  -- The entry itself, and what is declared onto its branch, are never blockers.
  abbrev pub exempt : AncestryQuery → OpenPr → Bool
  exempt q pr =
      if pr.number == q.current_pr_number
      then true
      else truthy q.current_branch && (pr.base_branch =? q.current_branch)

  -- `openPr.headSha !== prHeadSha && await isAncestor(prHeadSha, openPr.headSha)`.
  unfoldable pub stands_on_head : AncestryQuery → OpenPr → Act Bool
  stands_on_head q pr =
      if pr.head_sha =? q.pr_head_sha then pure false else is_ancestor q.pr_head_sha pr.head_sha

  -- What one open pull request adds to the blockers.
  unfoldable pub blocker_of : AncestryQuery → OpenPr → Act (List OpenPrAncestor)
  blocker_of q pr = if exempt q pr then pure [] else do
    above ← stands_on_head q pr
    if above then pure [] else do
      shared ← merge_base pr.head_sha q.candidate_sha
      landed ← is_ancestor shared q.base_sha
      pure (if landed then [] else blocking pr shared ∷ [])
    where
      blocking : OpenPr → String → OpenPrAncestor
      blocking pr shared = record {
        pr_number = pr.number;
        branch = pr.branch;
        head_sha = pr.head_sha;
        shared_ancestor_sha = shared;
      }

  unfoldable pub blockers_of : AncestryQuery → List OpenPr → Act (List OpenPrAncestor)
  blockers_of q [] = pure []
  blockers_of q (pr ∷ prs) = do
    here ← blocker_of q pr
    rest ← blockers_of q prs
    pure (here ++ rest)

  unfoldable pub find_unlanded_open_pr_ancestors : AncestryQuery → Act (List OpenPrAncestor)
  find_unlanded_open_pr_ancestors q = do
    open_prs ← ask read_open_prs ctx.services.list_open_prs
    blockers_of q open_prs
