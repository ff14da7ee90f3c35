-- ===== src/Steward/Exec.antt =====
-- Actions of the reconciler (packages/merge-steward/src/reconciler*.ts are async functions that call
-- the store and the outside world and may throw). An action takes the state and returns a result
-- and the state; what was written before a throw stays written.
pub mod Keeps
pub mod Yields
use patchrelay.Prelude.{ℕ, String, Bool, true, false, Option, none, some, List, [], ◌∷◌}

-- What is thrown: an Error with the fields that a failed child process adds.
pub record Failure : Type 0 where
  pub message : String
  pub stderr : Option String
  pub stdout : Option String
  pub exit_code : Option ℕ
  pub signal : Option String
  pub timed_out : Bool

pub data Result {ℓ} (A : Type ℓ) : Type ℓ where
  ok : A → Result A
  err : Failure → Result A

abbrev pub Exec : Type 0 → Type 0 → Type 0
Exec S A = S → Result A × S

module _ {S A : Type 0} where
  unfoldable pub pure : A → Exec S A
  pure a s = (ok a, s)

  unfoldable pub raise : Failure → Exec S A
  raise f s = (err f, s)

  unfoldable pub gets : (S → A) → Exec S A
  gets f s = (ok (f s), s)

  -- `try { m } catch (error) { handler(error) }`.
  unfoldable pub attempt : Exec S A → (Failure → Exec S A) → Exec S A
  attempt m handler s = let (r, s') = m s in elim r [ ok a ↦ (ok a, s') | err f ↦ handler f s' ]

module _ {S : Type 0} where
  unfoldable pub modify : (S → S) → Exec S (Unit {0})
  modify f s = (ok tt, f s)

  abbrev pub skip : Exec S (Unit {0})
  skip = pure tt

module _ {S A B : Type 0} where
  infixl 10 ◌>>=◌ ◌>>◌
  unfoldable pub ◌>>=◌ : Exec S A → (A → Exec S B) → Exec S B
  ◌>>=◌ m f s = let (r, s') = m s in elim r [ ok a ↦ f a s' | err e ↦ (err e, s') ]

  abbrev pub ◌>>◌ : Exec S A → Exec S B → Exec S B
  m >> n = m >>= λ _. n

-- `for (const item of items) await body(item)`.
module _ {S A : Type 0} where
  unfoldable pub for_each : List A → (A → Exec S (Unit {0})) → Exec S (Unit {0})
  for_each [] body = pure tt
  for_each (a ∷ rest) body = body a >>= λ _. for_each rest body

  -- The same loop over a body that says whether to go on; `false` is `break`.
  unfoldable pub for_each_until : List A → (A → Exec S Bool) → Exec S (Unit {0})
  for_each_until [] body = pure tt
  for_each_until (a ∷ rest) body =
      body a >>= λ more. elim more [ true ↦ for_each_until rest body | false ↦ pure tt ]
