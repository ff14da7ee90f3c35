-- ===== src/Steward/Reconcile/Landing/Facts.antt =====
-- What a landing has learnt so far: calls that it has made since the last push to main.
use patchrelay.Prelude.{
  false, String, Option, none, some, [], ◌∷◌, ◌++◌, In, inl, inr, ◌≡◌, refl, ap,
}
use patchrelay.Steward.Types.{QueueEntry, PrStatus}
use patchrelay.Steward.Policy.{Policy}
use patchrelay.Steward.Store.{Store}
use patchrelay.Steward.Exec.{Result, ok, err, Exec, modify}
use patchrelay.Steward.Exec.Keeps.{Keeps}
use patchrelay.Steward.Exec.Yields.{Yields, Ends, Yields-of_Keeps}
use patchrelay.Steward.Context.{Context, World, Call, History, Action, pushed, ask, emit}
use patchrelay.Steward.Reconcile.Stable.{Stable, is_landing}
use patchrelay.Steward.Reconcile.Landing.{fresh, Allowed, Licensed, Tells}

-- What calls show, and go on showing when calls are made that land nothing.
pub record Fact : Type 1 where
  pub Holds : History → Type 0
  pub grows : (c : Call) (calls : History) → Holds calls → Holds (c ∷ calls)

abbrev pub nothing : Fact
nothing = record { Holds = λ _. Unit; grows = λ _ _ h. h }

abbrev pub seen : Call → Fact
seen c = record { Holds = In c; grows = λ d calls h. inr h }

infixr 30 ◌also◌
abbrev pub ◌also◌ : Fact → Fact → Fact
F also G = record {
  Holds = λ calls. F.Holds calls × G.Holds calls;
  grows = λ c calls h. (F.grows c calls h.0, G.grows c calls h.1);
}

abbrev pub Any : Policy → Type 0
Any _ = Unit

silent-Allowed :
    (ctx : Context) (K : QueueEntry → PrStatus → Type 0) (c : Call) (calls : History)
    → is_landing c ≡ false
    → Allowed ctx K c calls
silent-Allowed ctx K (pushed sha force none r) calls e = tt
silent-Allowed ctx K (pushed sha force (some b) r) calls e = cc
silent-Allowed ctx K _ calls e = tt

module _ (ctx : Context) (K : QueueEntry → PrStatus → Type 0) (before : History) where
  -- In the calls of a tick the fact holds since the last push to main, and the policy is as told.
  pub record Learnt (F : Fact) (Under : Policy → Type 0) (w : World) : Type 0 where
    pub calls : History
    pub split : w.history ≡ calls ++ before
    pub licensed : Licensed ctx K calls
    pub holds : F.Holds (fresh calls)
    pub under : Under w.policy

  -- A call that lands nothing, and what it adds.
  silent_call :
      (F G : Fact) (Under : Policy → Type 0) (w : World) (c : Call)
      → is_landing c ≡ false
      → ((calls : History) → F.Holds calls → G.Holds (c ∷ calls))
      → Learnt F Under w
      → Learnt G Under (record w { history = c ∷ w.history })
  silent_call F G Under w c e adds h = record {
    calls = c ∷ h.calls;
    split = ap (λ t. c ∷ t) h.split;
    licensed = (silent-Allowed ctx K c h.calls e, h.licensed);
    holds = rw e (adds (fresh h.calls) h.holds);
    under = h.under;
  }

  pub gives :
      {F G : Fact} {Under : Policy → Type 0} {w : World}
      → ((calls : History) → F.Holds calls → G.Holds calls)
      → Learnt F Under w
      → Learnt G Under w
  gives f h = record {
    calls = h.calls;
    split = h.split;
    licensed = h.licensed;
    holds = f (fresh h.calls) h.holds;
    under = h.under;
  }

  -- Nothing is known but that the calls so far were licensed.
  abbrev pub Quiet : World → Type 0
  Quiet = Learnt nothing Any

  pub quiet : (F : Fact) (Under : Policy → Type 0) (w : World) → Learnt F Under w → Quiet w
  quiet F Under w h = record {
    calls = h.calls;
    split = h.split;
    licensed = h.licensed;
    holds = tt;
    under = tt;
  }

  pub Quiet-Tells : (w : World) → Quiet w → Tells ctx K before w.history
  Quiet-Tells w h = record { calls = h.calls; split = h.split; licensed = h.licensed }

  pub Learnt-Stable : (F : Fact) → Stable (Learnt F Any)
  Learnt-Stable F = record {
    calls = λ w c e h. silent_call F F Any w c e (F.grows c) h;
    policies = λ w p h. record {
      calls = h.calls;
      split = h.split;
      licensed = h.licensed;
      holds = h.holds;
      under = tt;
    };
    moves = λ w id to p d t n h. again w _ h;
    bases = λ w id base d t h. again w _ h;
    incidents = λ w i h. again w _ h;
  }
    where
      again : (w : World) (s : Store) → Learnt F Any w → Learnt F Any (record w { store = s })
      again w s h = record {
        calls = h.calls;
        split = h.split;
        licensed = h.licensed;
        holds = h.holds;
        under = tt;
      }

  module _ {F : Fact} {Under : Policy → Type 0} where
    -- An action that lands nothing and writes no policy.
    pub emit-Learnt :
        (e : QueueEntry) (a : Action) (d : Option String)
        → Yields (Learnt F Under) (λ _. Learnt F Under) Quiet (emit e a d)
    unfolding emit modify
    emit-Learnt e a d = record { run = λ w h. silent_call F F Under w _ refl (F.grows _) h }

    asked :
        {A : Type 0} (call : Result A → Call) (r : Result A) (w : World)
        → ((r : Result A) → is_landing (call r) ≡ false)
        → Learnt F Under w
        → Ends
            (λ a. Learnt (seen (call (ok a)) also F) Under)
            Quiet
            (r, record w { history = call r ∷ w.history })
    asked call (ok a) w n h =
        silent_call F (seen (call (ok a)) also F) Under w _ (n (ok a))
          (λ calls k. (inl refl, F.grows _ calls k)) h
    asked call (err f) w n h = quiet F Under _ (silent_call F F Under w _ (n (err f)) (F.grows _) h)

    -- A call that is answered is a call that was seen.
    pub ask-Learnt :
        {A : Type 0} (call : Result A → Call) (answer : History → Result A)
        → ((r : Result A) → is_landing (call r) ≡ false)
        → Yields
            (Learnt F Under)
            (λ a. Learnt (seen (call (ok a)) also F) Under)
            Quiet
            (ask call answer)
    unfolding ask
    ask-Learnt call answer n = record { run = λ w h. asked call (answer w.history) w n h }

  -- What keeps every stable property keeps what was learnt.
  pub Yields-steady :
      {A : Type 0} {F : Fact} {act : Exec World A}
      → Keeps (Learnt F Any) act
      → Yields (Learnt F Any) (λ _. Learnt F Any) Quiet act
  Yields-steady {F} k = Yields-of_Keeps k (λ _ w h. h) (λ w h. quiet F Any w h)

pub Quiet-start :
    (ctx : Context) (K : QueueEntry → PrStatus → Type 0) (w : World) → Quiet ctx K w.history w
Quiet-start ctx K w = record { calls = []; split = refl; licensed = tt; holds = tt; under = tt }
