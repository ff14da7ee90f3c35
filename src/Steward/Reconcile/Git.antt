-- ===== src/Steward/Reconcile/Git.antt =====
-- packages/merge-steward/src/interfaces.ts: the git calls that the phases share, and the fingerprint
-- of the policy.
use patchrelay.Prelude.{String, Bool, Option}
use patchrelay.Steward.Exec.{gets}
use patchrelay.Steward.Context.{Context, Act, ask, fetched, read_head, pushed}

module _ (ctx : Context) where
  unfoldable pub fetch : Act (Unit {0})
  fetch = ask fetched ctx.services.fetch

  unfoldable pub head_sha : String → Act String
  head_sha branch = ask (read_head branch) (ctx.services.head_sha branch)

  unfoldable pub push : String → Bool → Option String → Act (Unit {0})
  push branch force target =
      ask (pushed branch force target) (ctx.services.push branch force target)

  unfoldable pub fingerprint : Act String
  fingerprint = gets λ w.
      ctx.services.digest w.policy.required_check_rules
        w.policy.require_all_checks_on_empty_required_set
