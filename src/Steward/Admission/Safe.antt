-- ===== src/Steward/Admission/Safe.antt =====
-- packages/merge-steward/src/service-queue.ts and webhook-handler.ts: a property that every mutation keeps,
-- across admission, the changes of queued pull requests, the scans and the events of GitHub.
use patchrelay.Prelude.{ℕ, String, Bool, false, Option, none, some, List, [], ◌∷◌, ◌≡◌, refl}
use patchrelay.Steward.Types.{QueueEntry, QueueEntryStatus, PrStatus, is_terminal}
use patchrelay.Steward.Store.{Stamp, insert, no_patch}
use patchrelay.Steward.Store.Mutate.{update_priority, dequeue}
use patchrelay.Steward.Exec.{Failure, Result, ok, err, modify, gets, ◌>>=◌}
use patchrelay.Steward.Exec.Keeps.{
  Keeps, keeps_rules, Keeps-bind, Keeps-pure, Keeps-raise, Keeps-attempt, Keeps-if, Keeps-option,
}
use patchrelay.Steward.Context.{Context, World, OpenPr, Act, write}
use patchrelay.Steward.Reconcile.Stable.{Stable, basic, ask-Safe}
use patchrelay.Steward.Reconcile.Safe.{get_pr_status-Safe}
use patchrelay.Steward.Reconcile.Safe.Validate.{checks_for-Safe, evaluate-Safe}
use patchrelay.Steward.Reconcile.Safe.Merge.{refresh_policy-Safe}
use patchrelay.Steward.Admission.Queue.{
  Settings, Params, new_entry, entry_by_pr, drop_candidate, send_back, invalidate_downstream_of,
  insert_entry, raced, overtake, insert_new, fresh_entry, enqueue,
}
use patchrelay.Steward.Admission.Admit.{
  admit_green, admit_approved, admit_live, latest_evicted, is_queued, settled, try_admit,
  admit_each, scan_eligible_open_prs, scan_startup_admissions,
}
use patchrelay.Steward.Admission.Change.{
  requeue_affected, reprioritize, update_priority_by_pr, dequeue_by_pr, remove_labels,
  remove_current, clear_queue_state_labels, retire_head, update_head_by_pr, merge_acknowledged,
  acknowledge_external_merge,
}
use patchrelay.Steward.Admission.Webhook.{
  StewardWebhookEvent, PolicySource, HandlerConfig, number_of, admit, suite_pr, admit_found,
  refresh_and_reconcile, process_webhook_event,
}

-- Beside what a tick does: a live entry is inserted, and a priority is changed.
pub record Open (P : World → Type 0) : Type 0 where
  pub stable : Stable P
  pub inserts :
      (w : World) (e : QueueEntry) (t : Stamp)
      → is_terminal e.status ≡ false
      → P w
      → P (record w { store = insert w.store e t })
  pub priorities :
      (w : World) (id : String) (priority : ℕ) (detail : Option String) (t : Stamp)
      → P w
      → P (record w { store = update_priority w.store id priority detail t })

module _ {P : World → Type 0} (st : Stable P) (ctx : Context) where
  entry_by_pr-Safe : (n : ℕ) → Keeps P (entry_by_pr ctx n)
  unfolding entry_by_pr
  entry_by_pr-Safe n = search basic

  drop_candidate-Safe : (name : Option String) → Keeps P (drop_candidate ctx name)
  unfolding drop_candidate
  drop_candidate-Safe none = search basic
  drop_candidate-Safe (some name) = search basic

  send_back-Safe :
      (to : QueueEntryStatus) (reason : String) (e : QueueEntry)
      → Keeps P (send_back ctx to reason e)
  unfolding send_back
  send_back-Safe to reason e = search (basic, drop_candidate-Safe)

  invalidate_downstream_of-Safe : (e : QueueEntry) → Keeps P (invalidate_downstream_of ctx e)
  unfolding invalidate_downstream_of
  invalidate_downstream_of-Safe e = search (basic, send_back-Safe)

module _ {P : World → Type 0} (o : Open P) (ctx : Context) (cfg : Settings) where
  st : Stable P
  st = o.stable

  ruleset queueing =
      (basic, entry_by_pr-Safe, drop_candidate-Safe, send_back-Safe, invalidate_downstream_of-Safe)

  inserted-Safe :
      (e : QueueEntry) → is_terminal e.status ≡ false → Keeps P (write ctx (λ s t. insert s e t))
  unfolding write modify
  inserted-Safe e live = record { held = λ w h. o.inserts w e _ live h }

  insert_entry-Safe :
      (e : QueueEntry) → is_terminal e.status ≡ false → Keeps P (insert_entry ctx cfg e)
  unfolding insert_entry
  insert_entry-Safe e live =
      Keeps-bind _ _ (search keeps_rules)
        (λ f. Keeps-option f _ _ (inserted-Safe e live) Keeps-raise)

  raced-Safe : (n : ℕ) (f : Failure) → Keeps P (raced ctx cfg n f)
  unfolding raced
  raced-Safe n f =
      Keeps-bind _ _ (entry_by_pr-Safe st ctx n)
        (λ x. Keeps-option x _ _ (Keeps-raise f) (λ e. Keeps-pure (some e)))

  overtake-Safe : (e : QueueEntry) → Keeps P (overtake ctx cfg e)
  unfolding overtake
  overtake-Safe e = search queueing

  insert_new-Safe : (e : QueueEntry) → is_terminal e.status ≡ false → Keeps P (insert_new ctx cfg e)
  unfolding insert_new
  insert_new-Safe e live =
      Keeps-bind _ _
        (Keeps-attempt _ _ (Keeps-bind _ _ (insert_entry-Safe e live) (λ _. Keeps-pure none))
          (raced-Safe e.pr_number))
        (λ won. Keeps-option won _ _ (overtake-Safe e) Keeps-pure)

  pub enqueue-Safe : (p : Params) → Keeps P (enqueue ctx cfg p)
  unfolding enqueue fresh_entry new_entry gets ◌>>=◌
  enqueue-Safe p = Keeps-bind _ _ (entry_by_pr-Safe st ctx p.pr_number) (λ x.
      Keeps-option x _ _ (record { held = λ w h. (insert_new-Safe _ refl).held w h }) Keeps-pure)

  admit_green-Safe :
      (n : ℕ) (branch sha : String) (pr : PrStatus) → Keeps P (admit_green ctx cfg n branch sha pr)
  unfolding admit_green
  admit_green-Safe n branch sha pr = search (queueing, enqueue-Safe)

  admit_approved-Safe :
      (n : ℕ) (branch sha : String) (pr : PrStatus)
      → Keeps P (admit_approved ctx cfg n branch sha pr)
  unfolding admit_approved
  admit_approved-Safe n branch sha pr =
      search (queueing, checks_for-Safe, evaluate-Safe, admit_green-Safe)

  admit_live-Safe : (n : ℕ) (branch sha : String) → Keeps P (admit_live ctx cfg n branch sha)
  unfolding admit_live
  admit_live-Safe n branch sha = search (queueing, get_pr_status-Safe, admit_approved-Safe)

  settled-Safe : (r : Result Bool) → Keeps P (settled ctx cfg r)
  settled-Safe (ok b) = search queueing
  settled-Safe (err f) = search queueing

  pub try_admit-Safe :
      (reread : Bool) (n : ℕ) (branch sha : String)
      → Keeps P (try_admit ctx cfg reread n branch sha)
  unfolding try_admit latest_evicted is_queued
  try_admit-Safe reread n branch sha = search (queueing, settled-Safe, admit_live-Safe) depth 16

  admit_each-Safe :
      (reread : Bool) (prs : List OpenPr) (n : ℕ) → Keeps P (admit_each ctx cfg reread prs n)
  unfolding admit_each
  admit_each-Safe reread [] n = Keeps-pure n
  admit_each-Safe reread (pr ∷ prs) n =
      Keeps-bind _ _ (try_admit-Safe reread pr.number pr.branch pr.head_sha)
        (λ b. admit_each-Safe reread prs _)

  pub scan-Safe : (reread : Bool) → Keeps P (scan_eligible_open_prs ctx cfg reread)
  unfolding scan_eligible_open_prs
  scan-Safe reread = search (queueing, admit_each-Safe)

  pub scan_startup-Safe : Keeps P (scan_startup_admissions ctx cfg)
  unfolding scan_startup_admissions
  scan_startup-Safe = search (queueing, scan-Safe)

  requeue_affected-Safe :
      (e : QueueEntry) (es : List QueueEntry) → Keeps P (requeue_affected ctx e es)
  unfolding requeue_affected
  requeue_affected-Safe e es = search queueing

  prioritized-Safe :
      (id : String) (n : ℕ) (d : Option String)
      → Keeps P (write ctx (λ s t. update_priority s id n d t))
  unfolding write modify
  prioritized-Safe id n d = record { held = λ w h. o.priorities w id n d _ h }

  reprioritize-Safe : (e : QueueEntry) (n : ℕ) → Keeps P (reprioritize ctx e n)
  unfolding reprioritize
  reprioritize-Safe e n = search (queueing, prioritized-Safe, requeue_affected-Safe) depth 12

  pub update_priority_by_pr-Safe : (n priority : ℕ) → Keeps P (update_priority_by_pr ctx n priority)
  unfolding update_priority_by_pr
  update_priority_by_pr-Safe n priority =
      Keeps-bind _ _ (entry_by_pr-Safe st ctx n)
        (λ x. Keeps-option x _ _ (Keeps-pure false) (λ e. search (queueing, reprioritize-Safe)))

  dequeued-Safe : (id : String) → Keeps P (write ctx (λ s t. dequeue s id t))
  unfolding write modify dequeue
  dequeued-Safe id = record { held = λ w h. st.moves w id _ no_patch none _ refl h }

  pub dequeue_by_pr-Safe : (n : ℕ) → Keeps P (dequeue_by_pr ctx n)
  unfolding dequeue_by_pr
  dequeue_by_pr-Safe n = Keeps-bind _ _ (entry_by_pr-Safe st ctx n) (λ x.
      Keeps-option x _ _ (Keeps-pure tt)
        (λ e. Keeps-bind _ _ (dequeued-Safe e.id) (λ _. invalidate_downstream_of-Safe st ctx e)))

  remove_labels-Safe : (n : ℕ) (remove : List String) → Keeps P (remove_labels ctx cfg n remove)
  unfolding remove_labels
  remove_labels-Safe n remove = search queueing

  remove_current-Safe : (n : ℕ) (l : Option (List String)) → Keeps P (remove_current ctx cfg n l)
  unfolding remove_current
  remove_current-Safe n none = search queueing
  remove_current-Safe n (some l) = remove_labels-Safe n _

  clear_labels-Safe : (n : ℕ) → Keeps P (clear_queue_state_labels ctx cfg n)
  unfolding clear_queue_state_labels
  clear_labels-Safe n = search (queueing, remove_current-Safe)

  retire_head-Safe : (e : QueueEntry) (n : ℕ) (sha : String) → Keeps P (retire_head ctx cfg e n sha)
  unfolding retire_head
  retire_head-Safe e n sha = search (queueing, clear_labels-Safe) depth 14

  pub update_head_by_pr-Safe : (n : ℕ) (sha : String) → Keeps P (update_head_by_pr ctx cfg n sha)
  unfolding update_head_by_pr
  update_head_by_pr-Safe n sha =
      Keeps-bind _ _ (entry_by_pr-Safe st ctx n)
        (λ x. Keeps-option x _ _ (Keeps-pure tt) (λ e. search (queueing, retire_head-Safe)))

  merge_acknowledged-Safe : (e : QueueEntry) (n : ℕ) → Keeps P (merge_acknowledged ctx cfg e n)
  unfolding merge_acknowledged
  merge_acknowledged-Safe e n = search (queueing, clear_labels-Safe) depth 12

  pub acknowledge-Safe : (n : ℕ) → Keeps P (acknowledge_external_merge ctx cfg n)
  unfolding acknowledge_external_merge
  acknowledge-Safe n =
      Keeps-bind _ _ (entry_by_pr-Safe st ctx n)
        (λ x. Keeps-option x _ _ (Keeps-pure tt) (λ e. merge_acknowledged-Safe e n))

  module _ (config : HandlerConfig) (trigger : Act (Unit {0})) (triggered : Keeps P trigger) where
    admit-Safe : (n : ℕ) (branch sha : String) → Keeps P (admit ctx cfg config trigger n branch sha)
    unfolding admit
    admit-Safe n branch sha = search (queueing, try_admit-Safe)

    suite_pr-Safe :
        (n : Option ℕ) (branch : String) → Keeps P (suite_pr ctx cfg config trigger n branch)
    unfolding suite_pr
    suite_pr-Safe n branch =
        Keeps-option (number_of n) _ _
          (Keeps-if _ _ _ (ask-Safe st _ _ (λ r. refl)) (Keeps-pure none))
          (λ k. Keeps-pure (some k))

    admit_found-Safe :
        (branch sha : String) (n : Option ℕ)
        → Keeps P (admit_found ctx cfg config trigger branch sha n)
    unfolding admit_found
    admit_found-Safe branch sha n =
        Keeps-option (number_of n) _ _ (Keeps-pure tt) (λ k. admit-Safe k branch sha)

    refresh_and_reconcile-Safe :
        (source : PolicySource) (action : String)
        → Keeps P (refresh_and_reconcile ctx cfg config trigger source action)
    unfolding refresh_and_reconcile
    refresh_and_reconcile-Safe source action =
        Keeps-attempt _ _ (Keeps-bind _ _ (refresh_policy-Safe st ctx _) (λ _. triggered))
          (λ _. Keeps-pure tt)

    pub process_webhook_event-Safe :
        (e : StewardWebhookEvent) → Keeps P (process_webhook_event ctx cfg config trigger e)
    unfolding process_webhook_event
    process_webhook_event-Safe (StewardWebhookEvent.pr_labeled n branch sha label) =
        search (queueing, admit-Safe)
    process_webhook_event-Safe (StewardWebhookEvent.pr_unlabeled n label) = search queueing
    process_webhook_event-Safe (StewardWebhookEvent.pr_merged n) = acknowledge-Safe n
    process_webhook_event-Safe (StewardWebhookEvent.pr_closed n) = dequeue_by_pr-Safe n
    process_webhook_event-Safe (StewardWebhookEvent.pr_synchronize n branch sha) =
        update_head_by_pr-Safe n sha
    process_webhook_event-Safe (StewardWebhookEvent.review_approved n branch sha) =
        admit-Safe n branch sha
    process_webhook_event-Safe (StewardWebhookEvent.check_suite_completed n branch sha c) =
        search (queueing, suite_pr-Safe, admit_found-Safe)
    process_webhook_event-Safe (StewardWebhookEvent.policy_changed source action branch) =
        search (queueing, refresh_and_reconcile-Safe)
    process_webhook_event-Safe (StewardWebhookEvent.push_event r sha) = search queueing
