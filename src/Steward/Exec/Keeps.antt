-- ===== src/Steward/Exec/Keeps.antt =====
-- What an action leaves true: one rule for each way in which the reconciler builds its actions.
use patchrelay.Prelude.{Bool, true, false, Option, none, some, List, [], ◌∷◌, if◌then◌else◌}
use patchrelay.Steward.Exec.{
  Failure, Result, ok, err, Exec, pure, raise, gets, attempt, ◌>>=◌, for_each, for_each_until,
}

-- `I` holds in the state that `act` leaves, returned or thrown, if it held in the one before.
pub record Keeps {World Answer : Type 0} (I : World → Type 0) (act : Exec World Answer)
    : Type 0 where
  pub held : (before : World) → I before → I (act before).1

-- Two properties at once.
module _ {World Answer : Type 0} {I J : World → Type 0} {act : Exec World Answer} where
  pub Keeps-both : Keeps I act → Keeps J act → Keeps (λ w. I w × J w) act
  Keeps-both k l = record { held = λ w h. (k.held w h.0, l.held w h.1) }

-- Sequencing, and the `try` block.
module _ {World Answer Next : Type 0} {I : World → Type 0} where
  after_first :
      (next : Answer → Exec World Next) (r : Result Answer) (w : World)
      → ((x : Answer) → Keeps I (next x))
      → I w
      → I (((λ _. (r, w)) >>= next) w).1
  unfolding ◌>>=◌
  after_first next (ok x) w second i = (second x).held w i
  after_first next (err e) w second i = i

  -- What is read in a state where the property holds.
  pub Keeps-reads :
      (read : World → Answer) (next : Answer → Exec World Next)
      → ((w : World) → I w → Keeps I (next (read w)))
      → Keeps I (gets read >>= next)
  unfolding gets ◌>>=◌
  Keeps-reads read next second = record { held = λ w i. (second w i).held w i }

  pub Keeps-bind :
      (act : Exec World Answer) (next : Answer → Exec World Next)
      → Keeps I act
      → ((x : Answer) → Keeps I (next x))
      → Keeps I (act >>= next)
  unfolding ◌>>=◌
  Keeps-bind act next first second = record {
    held = λ w i. let (r, w') = act w in after_first next r w' second (first.held w i);
  }

module _ {World Answer : Type 0} {I : World → Type 0} where
  after_try :
      (handler : Failure → Exec World Answer) (r : Result Answer) (w : World)
      → ((f : Failure) → Keeps I (handler f))
      → I w
      → I (attempt (λ _. (r, w)) handler w).1
  unfolding attempt
  after_try handler (ok x) w caught i = i
  after_try handler (err f) w caught i = (caught f).held w i

  pub Keeps-attempt :
      (body : Exec World Answer) (handler : Failure → Exec World Answer)
      → Keeps I body
      → ((f : Failure) → Keeps I (handler f))
      → Keeps I (attempt body handler)
  unfolding attempt
  Keeps-attempt body handler tried caught = record {
    held = λ w i. let (r, w') = body w in after_try handler r w' caught (tried.held w i);
  }

  -- A test between two actions.
  pub Keeps-if :
      (test : Bool) (on off : Exec World Answer)
      → Keeps I on
      → Keeps I off
      → Keeps I (if test then on else off)
  Keeps-if true on off ky kn = ky
  Keeps-if false on off ky kn = kn

  -- The actions that write nothing.
  pub Keeps-gets : (read : World → Answer) → Keeps I (gets read)
  unfolding gets
  Keeps-gets read = record { held = λ _ i. i }

  pub Keeps-raise : (f : Failure) → Keeps I (raise {A = Answer} f)
  unfolding raise
  Keeps-raise f = record { held = λ _ i. i }

  pub Keeps-pure : (x : Answer) → Keeps I (pure x)
  unfolding pure
  Keeps-pure x = record { held = λ _ i. i }

-- A split on an optional answer.
module _ {World Answer Item : Type 0} {I : World → Type 0} where
  pub Keeps-option :
      (found : Option Item) (off : Exec World Answer) (on : Item → Exec World Answer)
      → Keeps I off
      → ((x : Item) → Keeps I (on x))
      → Keeps I (elim found [ none ↦ off | some x ↦ on x ])
  Keeps-option none off on kn ks = kn
  Keeps-option (some x) off on kn ks = ks x

-- The two loops.
module _ {World Item : Type 0} {I : World → Type 0} where
  pub Keeps-for_each :
      (items : List Item) (body : Item → Exec World (Unit {0}))
      → ((x : Item) → Keeps I (body x))
      → Keeps I (for_each items body)
  unfolding for_each
  Keeps-for_each [] body round = Keeps-pure tt
  Keeps-for_each (x ∷ items) body round =
      Keeps-bind (body x) (λ _. for_each items body) (round x)
        (λ _. Keeps-for_each items body round)

  pub Keeps-for_each_until :
      (items : List Item) (body : Item → Exec World Bool)
      → ((x : Item) → Keeps I (body x))
      → Keeps I (for_each_until items body)
  unfolding for_each_until
  Keeps-for_each_until [] body round = Keeps-pure tt
  Keeps-for_each_until (x ∷ items) body round =
      Keeps-bind (body x) _ (round x) (λ more. goes_on more (Keeps-for_each_until items body round))
    where
      goes_on :
          (more : Bool)
          → Keeps I (for_each_until items body)
          → Keeps I (elim more [ true ↦ for_each_until items body | false ↦ pure tt ])
      goes_on true rest = rest
      goes_on false rest = Keeps-pure tt

pub ruleset keeps_rules = (
  Keeps-bind, Keeps-attempt, Keeps-if, Keeps-gets, Keeps-pure, Keeps-raise, Keeps-for_each,
  Keeps-for_each_until,
)
