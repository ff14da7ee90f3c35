-- ===== src/Steward/Service.antt =====
-- packages/merge-steward/src/service.ts and service-runtime.ts: the service that serves events and ticks.
-- Each is served to its end before the next.
pub mod Kept
pub mod Runtime
mod Tests
use Prim.Native.Nat.{Ordering}
use patchrelay.Prelude.{
  ℕ, String, ◌=?◌, Bool, true, false, ◌&&◌, Option, none, some, List, [], ◌∷◌, keep, take, any,
  is_nil, or_else, if◌then◌else◌,
}
use patchrelay.Steward.Types.{QueueEntry, is_terminal}
use patchrelay.Steward.Policy.{sort}
use patchrelay.Steward.Store.{Store, get_entry}
use patchrelay.Steward.Exec.{pure, gets, attempt, skip, for_each, ◌>>=◌, ◌>>◌}
use patchrelay.Steward.Context.{Context, World, Act, ask, read_labels, changed_labels}
use patchrelay.Steward.Reconcile.Tick.{reconcile}
use patchrelay.Steward.Admission.Queue.{Settings, Params, enqueue}
use patchrelay.Steward.Admission.Admit.{scan_eligible_open_prs, scan_startup_admissions}
use patchrelay.Steward.Admission.Change.{
  dequeue_by_pr, update_head_by_pr, update_priority_by_pr, managed,
}
use patchrelay.Steward.Admission.Webhook.{HandlerConfig, StewardWebhookEvent, process_webhook_event}

-- `decidedAt ?? updatedAt`, the latest first.
unfoldable pub list_recent_terminal :
    (String → String → Ordering) → Store → String → ℕ → List QueueEntry
unfolding sort ◌=?◌
list_recent_terminal locale_compare s repo_id limit = take limit (
    sort
      (λ a b.
        locale_compare (or_else b.decided_at b.updated_at) (or_else a.decided_at a.updated_at))
      (keep (λ e. (e.repo_id =? repo_id) && is_terminal e.status) s.entries))

-- What reaches the service.
pub data Request : Type 0 where
  started : Request
  ticked : Request
  event : StewardWebhookEvent → Request
  enqueue_request : Params → Request
  dequeue_request : String → Request
  head_request : String → String → Request
  priority_request : ℕ → ℕ → Request

module _ (ctx : Context) (cfg : Settings) (config : HandlerConfig) where
  -- The labels of the queue are taken off a final entry's pull request.
  unfoldable pub recover_labels : QueueEntry → Act (Unit {0})
  recover_labels entry =
      attempt
        (ask (read_labels entry.pr_number) (ctx.services.list_labels entry.pr_number) >>= λ current.
          let remove = keep (λ label. any (λ l. l =? label) current) (managed ctx cfg) in
          if is_nil remove
          then skip
          else ask (changed_labels entry.pr_number [] remove)
              (ctx.services.set_labels entry.pr_number [] remove))
        (λ _. skip)

  unfoldable pub recover_terminal_queue_labels : Act (Unit {0})
  recover_terminal_queue_labels = if is_nil (managed ctx cfg) then skip else do
    entries ← gets (λ w. list_recent_terminal ctx.services.locale_compare w.store ctx.repo_id 3)
    for_each entries recover_labels

  -- The body of `runTick`: the scan of `beforeTick`, then the tick; an error is caught.
  unfoldable pub tick : Act (Unit {0})
  tick = attempt (scan_eligible_open_prs ctx cfg false >>= λ _. reconcile ctx) (λ _. skip)

  unfoldable pub dequeue_entry : String → Act Bool
  dequeue_entry id = do
    found ← gets (λ w. get_entry w.store id)
    elim found [
      | none ↦ pure false
      | some entry ↦ dequeue_by_pr ctx entry.pr_number >>= λ _. pure true
    ]

  unfoldable pub update_entry_head : String → String → Act Bool
  update_entry_head id head_sha = do
    found ← gets (λ w. get_entry w.store id)
    elim found [
      | none ↦ pure false
      | some entry ↦ update_head_by_pr ctx cfg entry.pr_number head_sha >>= λ _. pure true
    ]

  abbrev pub forget : {A : Type 0} → Act A → Act (Unit {0})
  forget act = act >>= λ _. skip

  unfoldable pub serve : Request → Act (Unit {0})
  serve started = recover_terminal_queue_labels >>= λ _. scan_startup_admissions ctx cfg
  serve ticked = tick
  serve (event e) = process_webhook_event ctx cfg config tick e
  serve (enqueue_request p) = forget (enqueue ctx cfg p)
  serve (dequeue_request id) = forget (dequeue_entry id)
  serve (head_request id head_sha) = forget (update_entry_head id head_sha)
  serve (priority_request pr_number priority) =
      forget (update_priority_by_pr ctx pr_number priority)

  -- The world after the requests, each of which may have thrown.
  unfoldable pub serve_all : List Request → World → World
  unfolding serve
  serve_all [] w = w
  serve_all (r ∷ rs) w = serve_all rs (serve r w).1
