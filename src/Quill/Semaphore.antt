-- ===== src/Quill/Semaphore.antt =====
-- packages/review-quill/src/review-semaphore.ts: the gate before the reviews. A waiter is the number of
-- the call of `acquire` that waits; the holders are the calls whose slot is not released yet.
use native.Mathlib.Omega.{arith}
use patchrelay.Prelude.{
  ℕ, suc, ◌+◌, ◌-◌, ◌≤◌, ◌<◌, ltb, Bool, true, false, Bool-cases, List, [], ◌∷◌, ◌++◌, length, ◌≡◌,
  ◌⊎◌, refl, inl, inr, ◌==◌, if◌then◌else◌, List-cases,
}

pub record ReviewSemaphore : Type 0 where
  pub in_flight : ℕ
  pub waiters : List ℕ

-- `acquire`: the slot is had at once (`true`), or the call waits.
unfoldable pub acquire : ℕ → ℕ → ReviewSemaphore → Bool × ReviewSemaphore
acquire capacity caller s =
    if ltb s.in_flight capacity
    then (true, record s { in_flight = s.in_flight + 1 })
    else (false, record s { waiters = s.waiters ++ caller ∷ [] })

-- `release`: the first waiter, if any, is resumed and takes the slot; the answer is who was resumed.
unfoldable pub release : ReviewSemaphore → List ℕ × ReviewSemaphore
release s = elim s.waiters [
  | [] ↦ ([], record s { in_flight = s.in_flight - 1 })
  | waiter ∷ rest ↦ (waiter ∷ [], record { in_flight = s.in_flight - 1 + 1; waiters = rest })
]

-- The semaphore with the calls that hold a slot.
pub record Gate : Type 0 where
  pub semaphore : ReviewSemaphore
  pub holders : List ℕ

abbrev pub open_gate : Gate
open_gate = record { semaphore = record { in_flight = 0; waiters = [] }; holders = [] }

abbrev granted : Bool → ℕ → List ℕ → List ℕ
granted true caller holders = caller ∷ holders
granted false caller holders = holders

abbrev pub acquired : ℕ → ℕ → Gate → Gate
acquired capacity caller g =
    let (now, s) = acquire capacity caller g.semaphore in
    record { semaphore = s; holders = granted now caller g.holders }

abbrev pub remove_first : ℕ → List ℕ → List ℕ
remove_first x [] = []
remove_first x (y ∷ ys) = if x == y then ys else y ∷ remove_first x ys

abbrev pub released : ℕ → Gate → Gate
released holder g =
    let (resumed, s) = release g.semaphore in
    record { semaphore = s; holders = resumed ++ remove_first holder g.holders }

abbrev pub holds : ℕ → List ℕ → Bool
holds x [] = false
holds x (y ∷ ys) = if x == y then true else holds x ys

-- Calls of `acquire` by anyone, and one call of each release function by its holder.
pub data Run (capacity : ℕ) : Gate → Type 0 where
  opened : Run capacity open_gate
  acquires : (g : Gate) (caller : ℕ) → Run capacity g → Run capacity (acquired capacity caller g)
  releases :
      (g : Gate) (holder : ℕ)
      → holds holder g.holders ≡ true
      → Run capacity g
      → Run capacity (released holder g)

-- The count is that of the slots held, it stays within the capacity, and nobody waits beside a free
-- slot.
pub record Bounded (capacity : ℕ) (g : Gate) : Type 0 where
  pub counted : g.semaphore.in_flight ≡ length g.holders
  pub within : g.semaphore.in_flight ≤ capacity
  pub busy : (g.semaphore.waiters ≡ []) ⊎ (g.semaphore.in_flight ≡ capacity)

length-remove_first :
    (x : ℕ) (xs : List ℕ) → holds x xs ≡ true → suc (length (remove_first x xs)) ≡ length xs
length-remove_first x [] h = cc
length-remove_first x (y ∷ ys) h = elim (Bool-cases (x == y)) [
  | inl t ↦ rw t refl
  | inr f ↦ let ih = length-remove_first x ys (rw f at h) in rw f (omega arith)
]

idle :
    {waiters : List ℕ} {n capacity : ℕ}
    → (waiters ≡ []) ⊎ (n ≡ capacity)
    → n < capacity
    → waiters ≡ []
idle (inl e) h = e
idle (inr e) h = absurd (omega arith)

waiting :
    {waiters rest : List ℕ} {w n capacity : ℕ}
    → waiters ≡ w ∷ rest
    → (waiters ≡ []) ⊎ (n ≡ capacity)
    → n ≡ capacity
waiting q (inl e) = cc
waiting q (inr e) = e

acquired-Bounded :
    (capacity caller : ℕ) (g : Gate)
    → Bounded capacity g
    → Bounded capacity (acquired capacity caller g)
unfolding acquire
acquired-Bounded capacity caller g b = elim (Bool-cases (ltb g.semaphore.in_flight capacity)) [
  | inl t ↦ record {
    counted = rw t (let c = b.counted in omega arith);
    within = rw t (ground arith);
    busy = rw t (inl (idle b.busy (ground arith)));
  }
  | inr f ↦ record {
    counted = rw f b.counted;
    within = rw f b.within;
    busy = rw f (inr (let w = b.within in ground arith));
  }
]

released-Bounded :
    (capacity holder : ℕ) (g : Gate)
    → holds holder g.holders ≡ true
    → Bounded capacity g
    → Bounded capacity (released holder g)
unfolding release
released-Bounded capacity holder g h b =
    let fewer = length-remove_first holder g.holders h in
    let c = b.counted in
    let w = b.within in
    elim (List-cases g.semaphore.waiters) [
      | inl n ↦ record {
        counted = rw n (omega arith);
        within = rw n (omega arith);
        busy = rw n (inl refl);
      }
      | inr (x, rest, q) ↦
          let full = waiting q b.busy in
          record {
            counted = rw q (omega arith);
            within = rw q (omega arith);
            busy = rw q (inr (omega arith));
          }
    ]

-- However calls of acquire and of the release functions interleave, each release called once by a holder
-- of its slot: the count is the number of the slots held, it never exceeds the capacity, and a call
-- waits only where all slots are held.
pub Run-Bounded : (capacity : ℕ) (g : Gate) → Run capacity g → Bounded capacity g
Run-Bounded capacity g opened = record { counted = refl; within = omega arith; busy = inl refl }
Run-Bounded capacity g (acquires g' caller r) =
    acquired-Bounded capacity caller g' (Run-Bounded capacity g' r)
Run-Bounded capacity g (releases g' holder h r) =
    released-Bounded capacity holder g' h (Run-Bounded capacity g' r)
