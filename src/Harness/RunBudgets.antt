-- ===== src/Harness/RunBudgets.antt =====
-- src/run-budgets.ts: the limits of repairs and the delays between retries. Date.parse and toISOString
-- are parameters; `none` is NaN. The source's numbers are small enough to be exact.
use native.Mathlib.Omega.{arith}
use Prim.Native.Nat.{◌*◌, ◌^◌}
use patchrelay.Prelude.{
  ℕ, zero, suc, ◌+◌, ◌-◌, ◌≤◌, ◌<◌, ltb, min, ◌⊎◌, String, Bool, true, Bool-cases, Option, none,
  some, Option-cases, List, [], ◌∷◌, get_elem?, or_else, truthy, ◌≡◌, refl, inl, inr, if◌then◌else◌,
}

pub record RunBudgetTable : Type 0 where
  pub ci_repair : ℕ
  pub queue_repair : ℕ
  pub review_fix : ℕ
  pub zombie_recovery : ℕ

abbrev pub default_run_budgets : RunBudgetTable
default_run_budgets = record {
  ci_repair = 10;
  queue_repair = 10;
  review_fix = 3;
  zombie_recovery = 5;
}

-- `project?.repairBudgets`.
pub record RepairBudgets : Type 0 where
  pub ci_repair : Option ℕ
  pub queue_repair : Option ℕ
  pub review_fix : Option ℕ

unfoldable pub resolve_run_budgets : Option RepairBudgets → RunBudgetTable
resolve_run_budgets none = default_run_budgets
resolve_run_budgets (some b) = record {
  ci_repair = or_else b.ci_repair default_run_budgets.ci_repair;
  queue_repair = or_else b.queue_repair default_run_budgets.queue_repair;
  review_fix = or_else b.review_fix default_run_budgets.review_fix;
  zombie_recovery = default_run_budgets.zombie_recovery;
}

unfoldable pub get_zombie_recovery_delay_ms : ℕ → ℕ
get_zombie_recovery_delay_ms recovery_attempts = 15000 * 2 ^ recovery_attempts

-- `Math.min(Math.max(attempts, 1), steps.length) - 1`.
abbrev step_index : ℕ → ℕ
step_index attempts = min (if ltb attempts 1 then 1 else attempts) 3 - 1

abbrev pub capacity_backoff_steps_ms : List ℕ
capacity_backoff_steps_ms = 120000 ∷ 300000 ∷ 600000 ∷ []

-- The index is within the list.
unfoldable pub capacity_backoff_step_ms : ℕ → ℕ
capacity_backoff_step_ms attempts =
    or_else (get_elem? capacity_backoff_steps_ms (step_index attempts)) 0

module _ (parse : String → Option ℕ) where
  abbrev parsed : Option String → Option ℕ
  parsed none = none
  parsed (some text) = parse text

  -- `Math.max(0, parsed + delay - now)`, or 0 where there is nothing to parse.
  abbrev remaining : ℕ → ℕ → Option ℕ → ℕ
  remaining delay now none = 0
  remaining delay now (some t) = t + delay - now

  unfoldable pub get_remaining_zombie_recovery_delay_ms : Option String → ℕ → ℕ → ℕ
  unfolding get_zombie_recovery_delay_ms
  get_remaining_zombie_recovery_delay_ms none attempts now = 0
  get_remaining_zombie_recovery_delay_ms (some text) attempts now =
      if not_empty text
      then remaining (get_zombie_recovery_delay_ms attempts) now (parse text)
      else 0
    where
      not_empty : String → Bool
      not_empty t = truthy t

  -- When the provider said that it would be back, if that is still to come.
  unfoldable pub capacity_until_ms : Option String → ℕ → ℕ → ℕ → ℕ
  unfolding capacity_backoff_step_ms
  capacity_until_ms retry_at attempts now jitter = elim (parsed retry_at) [
    | some t ↦ if ltb now t then t + jitter else now + capacity_backoff_step_ms attempts + jitter
    | none ↦ now + capacity_backoff_step_ms attempts + jitter
  ]

  unfoldable pub resolve_capacity_backoff_until : (ℕ → String) → Option String → ℕ → ℕ → ℕ → String
  unfolding capacity_until_ms
  resolve_capacity_backoff_until format retry_at attempts now jitter =
      format (capacity_until_ms retry_at attempts now jitter)

  unfoldable pub get_remaining_capacity_backoff_ms : Option String → ℕ → ℕ
  get_remaining_capacity_backoff_ms none now = 0
  get_remaining_capacity_backoff_ms (some text) now =
      if truthy text then remaining 0 now (parse text) else 0

-- No retry time was announced that is still to come.
abbrev pub NoneToCome : Option ℕ → ℕ → Type 0
NoneToCome announced now = (announced ≡ none) ⊎ ((t : ℕ) × (announced ≡ some t) × (t ≤ now))

-- The delay after a number of failures in a row.
abbrev pub Delay : ℕ → ℕ → Type 0
Delay attempts wait =
    ((attempts ≤ 1) × (wait ≡ 120000))
    ⊎ ((attempts ≡ 2) × (wait ≡ 300000))
    ⊎ ((3 ≤ attempts) × (wait ≡ 600000))

steps : (n : ℕ) → Delay n (capacity_backoff_step_ms n)
unfolding capacity_backoff_step_ms
steps zero = inl (omega arith, refl)
steps (suc zero) = inl (omega arith, refl)
steps (suc (suc zero)) = inr (inl (refl, refl))
steps (suc (suc (suc n))) = inr (inr (omega arith, rw (top n) refl))
  where
    top : (n : ℕ) → step_index (suc (suc (suc n))) ≡ 2
    top n = ground arith

-- How long the deadline leaves, the jitter apart.
abbrev pub Waits : (String → Option ℕ) → Option String → ℕ → ℕ → ℕ → Type 0
Waits parse retry_at attempts now wait =
    ((t : ℕ) × (parsed parse retry_at ≡ some t) × (now < t) × (now + wait ≡ t))
    ⊎ (NoneToCome (parsed parse retry_at) now × Delay attempts wait)

until-Waits :
    (parse : String → Option ℕ) (retry_at : Option String) (attempts now jitter : ℕ)
    → (wait : ℕ) × (capacity_until_ms parse retry_at attempts now jitter ≡ now + wait + jitter)
      × Waits parse retry_at attempts now wait
unfolding capacity_until_ms
until-Waits parse retry_at attempts now jitter = elim (Option-cases (parsed parse retry_at)) [
  | inl n ↦ (
    capacity_backoff_step_ms attempts,
    rw (n, capacity_until_ms) refl,
    inr (inl n, steps attempts),
  )
  | inr (t, q) ↦ elim (Bool-cases (ltb now t)) [
    | inl l ↦ (
      t - now,
      rw (q, l, capacity_until_ms) (ground arith),
      inl (t, q, ground arith, ground arith),
    )
    | inr f ↦ (
      capacity_backoff_step_ms attempts,
      rw (q, f, capacity_until_ms) refl,
      inr (inr (t, q, ground arith), steps attempts),
    )
  ]
]

-- The deadline that resolveCapacityBackoffUntil prints, where Date.parse reads it back and it is not
-- empty, is read by getRemainingCapacityBackoffMs at a later moment as exactly what is left of a wait
-- and the jitter. The wait lasts until the announced retry where that is still to come, and else 2, 5 or
-- 10 minutes, after one, two or more failures in a row.
pub resolve_capacity_backoff_until-Waits :
    (parse : String → Option ℕ) (format : ℕ → String) (retry_at : Option String)
    (attempts now jitter later : ℕ)
    → truthy (format (capacity_until_ms parse retry_at attempts now jitter)) ≡ true
    → parse (format (capacity_until_ms parse retry_at attempts now jitter))
      ≡ some (capacity_until_ms parse retry_at attempts now jitter)
    → (wait : ℕ) × (get_remaining_capacity_backoff_ms parse
          (some (resolve_capacity_backoff_until parse format retry_at attempts now jitter))
          (now + later)
        ≡ wait + jitter - later)
      × Waits parse retry_at attempts now wait
unfolding get_remaining_capacity_backoff_ms resolve_capacity_backoff_until
resolve_capacity_backoff_until-Waits parse format retry_at attempts now jitter later h k =
    let (wait, e, w) = until-Waits parse retry_at attempts now jitter in
    (wait, rw (h, k, e) (omega arith), w)
