-- ===== src/Steward/Reconcile/Kept.antt =====
-- packages/merge-steward/src/reconciler.ts: two stable properties across a tick, whatever git, GitHub and
-- CI answer and wherever it throws.
use patchrelay.Steward.Store.{Store}
use patchrelay.Steward.Store.Sound.{
  Sound, transition-Sound, update_base_ref-Sound, insert_incident-Sound,
}
use patchrelay.Steward.Store.Traced.{
  Follows, Follows-refl, Follows-trans, transition-Follows, update_base_ref-Follows,
  insert_incident-Follows,
}
use patchrelay.Steward.Context.{Context, World}
use patchrelay.Steward.Reconcile.Stable.{Stable}
use patchrelay.Steward.Reconcile.Tick.{reconcile}
use patchrelay.Steward.Reconcile.Safe.Merge.{land-Free}
use patchrelay.Steward.Reconcile.Safe.Tick.{reconcile-Safe}

pub Sound-Stable : Stable (λ w. Sound w.store)
Sound-Stable = record {
  calls = λ w c n h. h;
  policies = λ w p h. h;
  moves = λ w id to p d t n h. transition-Sound w.store id to p d t h;
  bases = λ w id base d t h. update_base_ref-Sound w.store id base d t h;
  incidents = λ w i h. insert_incident-Sound w.store i h;
}

pub Follows-Stable : (s : Store) → Stable (λ w. Follows s w.store)
Follows-Stable s = record {
  calls = λ w c n h. h;
  policies = λ w p h. h;
  moves =
      λ w id to p d t n h. Follows-trans s w.store _ h (transition-Follows w.store id to p d t n);
  bases =
      λ w id base d t h. Follows-trans s w.store _ h (update_base_ref-Follows w.store id base d t);
  incidents = λ w i h. Follows-trans s w.store _ h (insert_incident-Follows w.store i);
}

-- After a tick, whether it returns or throws, the store has the entries that it had and no others; each
-- has kept its repository, pull request, branch, admitted head, generation, place, priority, retry
-- budget and, once set, its time of decision; the log and the incidents were only added to.
pub reconcile-Follows : (ctx : Context) (w : World) → Follows w.store (reconcile ctx w).1.store
reconcile-Follows ctx w =
    let st = Follows-Stable w.store in
    (reconcile-Safe st ctx (λ _. Unit) (λ w h id e q. tt)
        (λ e k. land-Free st ctx (λ w c h. h) e)).held
      w (Follows-refl w.store)
