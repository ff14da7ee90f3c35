-- ===== src/Steward/Service/Kept.antt =====
-- packages/merge-steward/src/service.ts: what the service keeps, whatever it is asked and whatever GitHub
-- and git answer.
use patchrelay.Prelude.{String, true, false, List, [], ◌∷◌}
use patchrelay.Steward.Types.{QueueEntry}
use patchrelay.Steward.Store.Sound.{Sound, insert-Sound, update_priority-Sound, live-Settled}
use patchrelay.Steward.Exec.Keeps.{
  Keeps, Keeps-bind, Keeps-pure, Keeps-attempt, Keeps-gets, Keeps-option,
}
use patchrelay.Steward.Context.{Context, World}
use patchrelay.Steward.Reconcile.Stable.{basic}
use patchrelay.Steward.Reconcile.Merge.{land}
use patchrelay.Steward.Reconcile.Safe.Merge.{land-Free}
use patchrelay.Steward.Reconcile.Safe.Tick.{reconcile-Safe}
use patchrelay.Steward.Reconcile.Kept.{Sound-Stable}
use patchrelay.Steward.Admission.Queue.{Settings}
use patchrelay.Steward.Admission.Webhook.{HandlerConfig}
use patchrelay.Steward.Admission.Safe.{
  Open, enqueue-Safe, scan-Safe, scan_startup-Safe, update_priority_by_pr-Safe, dequeue_by_pr-Safe,
  update_head_by_pr-Safe, process_webhook_event-Safe,
}
use patchrelay.Steward.Service.{
  Request, started, ticked, event, enqueue_request, dequeue_request, head_request, priority_request,
  tick, recover_labels, recover_terminal_queue_labels, dequeue_entry, update_entry_head, serve,
  serve_all,
}

module _ {P : World → Type 0} (o : Open P) (ctx : Context) (cfg : Settings) (config : HandlerConfig)
    (land-Safe : (e : QueueEntry) → Keeps P (land ctx e)) where
  tick-Safe : Keeps P (tick ctx cfg config)
  unfolding tick
  tick-Safe =
      Keeps-attempt _ _
        (Keeps-bind _ _ (scan-Safe o ctx cfg false)
          (λ _. reconcile-Safe o.stable ctx (λ _. Unit) (λ w h id e q. tt) (λ e k. land-Safe e)))
        (λ _. Keeps-pure tt)

  recover-Safe : Keeps P (recover_terminal_queue_labels ctx cfg config)
  unfolding recover_terminal_queue_labels recover_labels
  recover-Safe = search basic depth 14

  dequeue_entry-Safe : (id : String) → Keeps P (dequeue_entry ctx cfg config id)
  unfolding dequeue_entry
  dequeue_entry-Safe id = Keeps-bind _ _ (Keeps-gets _) (λ x.
      Keeps-option x _ _ (Keeps-pure false)
        (λ e. Keeps-bind _ _ (dequeue_by_pr-Safe o ctx cfg e.pr_number) (λ _. Keeps-pure true)))

  update_entry_head-Safe : (id sha : String) → Keeps P (update_entry_head ctx cfg config id sha)
  unfolding update_entry_head
  update_entry_head-Safe id sha = Keeps-bind _ _ (Keeps-gets _) (λ x.
      Keeps-option x _ _ (Keeps-pure false) (λ e.
        Keeps-bind _ _ (update_head_by_pr-Safe o ctx cfg e.pr_number sha) (λ _. Keeps-pure true)))

  serve-Safe : (r : Request) → Keeps P (serve ctx cfg config r)
  unfolding serve
  serve-Safe started = Keeps-bind _ _ recover-Safe (λ _. scan_startup-Safe o ctx cfg)
  serve-Safe ticked = tick-Safe
  serve-Safe (event e) =
      process_webhook_event-Safe o ctx cfg config (tick ctx cfg config) tick-Safe e
  serve-Safe (enqueue_request p) = Keeps-bind _ _ (enqueue-Safe o ctx cfg p) (λ _. Keeps-pure tt)
  serve-Safe (dequeue_request id) = Keeps-bind _ _ (dequeue_entry-Safe id) (λ _. Keeps-pure tt)
  serve-Safe (head_request id sha) =
      Keeps-bind _ _ (update_entry_head-Safe id sha) (λ _. Keeps-pure tt)
  serve-Safe (priority_request n priority) =
      Keeps-bind _ _ (update_priority_by_pr-Safe o ctx cfg n priority) (λ _. Keeps-pure tt)

  serve_all-Safe : (rs : List Request) (w : World) → P w → P (serve_all ctx cfg config rs w)
  unfolding serve_all
  serve_all-Safe [] w h = h
  serve_all-Safe (r ∷ rs) w h = serve_all-Safe rs _ ((serve-Safe r).held w h)

Sound-Open : Open (λ w. Sound w.store)
Sound-Open = record {
  stable = Sound-Stable;
  inserts = λ w e t live h. insert-Sound w.store e t (live-Settled e live) h;
  priorities = λ w id n d t h. update_priority-Sound w.store id n d t h;
}

-- Whatever requests it serves, from a well-formed store the service comes to a well-formed store.
pub serve_all-Sound :
    (ctx : Context) (cfg : Settings) (config : HandlerConfig) (rs : List Request) (w : World)
    → Sound w.store
    → Sound (serve_all ctx cfg config rs w).store
serve_all-Sound ctx cfg config rs w h =
    serve_all-Safe Sound-Open ctx cfg config (land-Free Sound-Stable ctx (λ w c h. h)) rs w h
