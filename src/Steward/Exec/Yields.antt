-- ===== src/Steward/Exec/Yields.antt =====
-- What an action answers: a condition on the state before it, one on the answer and the state after it,
-- and one on the state in which it throws.
use patchrelay.Prelude.{Bool, true, false, Option, none, some, ◌≡◌, refl, ap, if◌then◌else◌}
use patchrelay.Steward.Exec.{Failure, Result, ok, err, Exec, pure, gets, attempt, ◌>>=◌}
use patchrelay.Steward.Exec.Keeps.{Keeps}

module _ {World Answer : Type 0} where
  -- The end of a run: returned or thrown.
  abbrev pub Ends : (Answer → World → Type 0) → (World → Type 0) → Result Answer × World → Type 0
  Ends Returned Thrown (ok a, w) = Returned a w
  Ends Returned Thrown (err f, w) = Thrown w

  pub record Yields (Before : World → Type 0) (Returned : Answer → World → Type 0)
      (Thrown : World → Type 0) (act : Exec World Answer) : Type 0 where
    pub run : (w : World) → Before w → Ends Returned Thrown (act w)

module _ {World Answer : Type 0} {Thrown : World → Type 0} where
  either_way :
      {P : World → Type 0} {R : Answer → World → Type 0} (end : Result Answer × World)
      → ((a : Answer) (w : World) → P w → R a w)
      → ((w : World) → P w → Thrown w)
      → P end.1
      → Ends R Thrown end
  either_way (ok a, w) good bad h = good a w h
  either_way (err f, w) good bad h = bad w h

  -- An action that keeps a property answers whatever follows from it.
  pub Yields-of_Keeps :
      {P : World → Type 0} {R : Answer → World → Type 0} {act : Exec World Answer}
      → Keeps P act
      → ((a : Answer) (w : World) → P w → R a w)
      → ((w : World) → P w → Thrown w)
      → Yields P R Thrown act
  Yields-of_Keeps {act = act} k good bad = record {
    run = λ w h. either_way (act w) good bad (k.held w h);
  }

  pub Yields-before :
      {P Q : World → Type 0} {R : Answer → World → Type 0} {act : Exec World Answer}
      → ((w : World) → P w → Q w)
      → Yields Q R Thrown act
      → Yields P R Thrown act
  Yields-before f y = record { run = λ w h. y.run w (f w h) }

  pub Yields-after :
      {P : World → Type 0} {Q R : Answer → World → Type 0} {act : Exec World Answer}
      → ((a : Answer) (w : World) → Q a w → R a w)
      → Yields P Q Thrown act
      → Yields P R Thrown act
  Yields-after {Q} {R} {act} f y = record { run = λ w h. go (act w) (y.run w h) }
    where
      go : (end : Result Answer × World) → Ends Q Thrown end → Ends R Thrown end
      go (ok a, w) h = f a w h
      go (err e, w) h = h

  pub Yields-exists :
      {A : Type 0} {P : A → World → Type 0} {R : Answer → World → Type 0} {act : Exec World Answer}
      → ((a : A) → Yields (P a) R Thrown act)
      → Yields (λ w. (a : A) × P a w) R Thrown act
  Yields-exists f = record { run = λ w h. (f h.0).run w h.1 }

  pub Yields-given :
      {A : Type 0} {P : World → Type 0} {R : Answer → World → Type 0} {act : Exec World Answer}
      → (A → Yields P R Thrown act)
      → Yields (λ w. P w × A) R Thrown act
  Yields-given f = record { run = λ w h. (f h.1).run w h.0 }

  pub Yields-pure :
      {P : World → Type 0} {R : Answer → World → Type 0} (a : Answer)
      → ((w : World) → P w → R a w)
      → Yields P R Thrown (pure a)
  unfolding pure
  Yields-pure a f = record { run = f }

  pub Yields-gets :
      {P : World → Type 0} {R : Answer → World → Type 0} (read : World → Answer)
      → ((w : World) → P w → R (read w) w)
      → Yields P R Thrown (gets read)
  unfolding gets
  Yields-gets read f = record { run = f }

  -- A test between two actions, whose answer is known in each.
  pub Yields-if :
      {P : World → Type 0} {R : Answer → World → Type 0} (b : Bool) {on off : Exec World Answer}
      → (b ≡ true → Yields P R Thrown on)
      → (b ≡ false → Yields P R Thrown off)
      → Yields P R Thrown (if b then on else off)
  Yields-if true f g = f refl
  Yields-if false f g = g refl

  pub Yields-option :
      {Item : Type 0} {P : World → Type 0} {R : Answer → World → Type 0} (o : Option Item)
      {off : Exec World Answer} {on : Item → Exec World Answer}
      → (o ≡ none → Yields P R Thrown off)
      → ((x : Item) → o ≡ some x → Yields P R Thrown (on x))
      → Yields P R Thrown (elim o [ none ↦ off | some x ↦ on x ])
  Yields-option none f g = f refl
  Yields-option (some x) f g = g x refl

  -- A reading of a state that is known.
  pub Yields-got :
      (read : World → Answer) (w : World)
      → Yields (λ v. v ≡ w) (λ x v. (v ≡ w) × (x ≡ read w)) Thrown (gets read)
  unfolding gets
  Yields-got read w = record { run = λ v h. (h, ap read h) }

  pub Keeps-of_Yields :
      {act : Exec World Answer} → Yields Thrown (λ _. Thrown) Thrown act → Keeps Thrown act
  Keeps-of_Yields {act} y = record { held = λ w h. kept (act w) (y.run w h) }
    where
      kept : (end : Result Answer × World) → Ends (λ _. Thrown) Thrown end → Thrown end.1
      kept (ok a, w) h = h
      kept (err f, w) h = h

module _ {World Answer Next : Type 0} {P : World → Type 0} {Thrown : World → Type 0} where
  pub Yields-bind :
      {Q : Answer → World → Type 0} {R : Next → World → Type 0} {act : Exec World Answer}
      {next : Answer → Exec World Next}
      → Yields P Q Thrown act
      → ((a : Answer) → Yields (Q a) R Thrown (next a))
      → Yields P R Thrown (act >>= next)
  unfolding ◌>>=◌
  Yields-bind {Q} {R} {act} {next} first second = record { run = λ w h. go (act w) (first.run w h) }
    where
      go :
          (end : Result Answer × World)
          → Ends Q Thrown end
          → Ends R Thrown (elim end.0 [ ok a ↦ next a end.1 | err e ↦ (err e, end.1) ])
      go (ok a, w) h = (second a).run w h
      go (err f, w) h = h

module _ {World Answer : Type 0} {P : World → Type 0} {Caught Thrown : World → Type 0} where
  pub Yields-attempt :
      {R : Answer → World → Type 0} {body : Exec World Answer}
      {handler : Failure → Exec World Answer}
      → Yields P R Caught body
      → ((f : Failure) → Yields Caught R Thrown (handler f))
      → Yields P R Thrown (attempt body handler)
  unfolding attempt
  Yields-attempt {R} {body} {handler} tried caught = record {
    run = λ w h. go (body w) (tried.run w h);
  }
    where
      go :
          (end : Result Answer × World)
          → Ends R Caught end
          → Ends R Thrown (elim end.0 [ ok a ↦ (ok a, end.1) | err f ↦ handler f end.1 ])
      go (ok a, w) h = h
      go (err f, w) h = (caught f).run w h
