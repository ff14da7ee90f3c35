-- ===== src/Harness/Tests.antt =====
-- Runs of the retry delays on small inputs.
use patchrelay.Prelude.{
  ℕ, ◌+◌, ◌-◌, String, Option, none, some, ◌≡◌, refl, ◌==◌, ◌=?◌, if◌then◌else◌,
}
use patchrelay.Harness.RunBudgets.{
  get_remaining_zombie_recovery_delay_ms, get_remaining_capacity_backoff_ms, capacity_until_ms,
  resolve_capacity_backoff_until, Waits, resolve_capacity_backoff_until-Waits,
}

-- A calendar of one moment.
abbrev print : ℕ → String
print t = if t == 302500 then "302500" else "later"

abbrev parse : String → Option ℕ
parse text = if text =? "302500" then some 302500 else none

resolve_capacity_backoff_until-Waits_example :
    (wait : ℕ) × (get_remaining_capacity_backoff_ms parse
        (some (resolve_capacity_backoff_until parse print none 2 1000 1500))
        (1000 + 500)
      ≡ wait + 1500 - 500)
    × Waits parse none 2 1000 wait
unfolding capacity_until_ms ◌=?◌
resolve_capacity_backoff_until-Waits_example =
    resolve_capacity_backoff_until-Waits parse print none 2 1000 1500 500 refl refl

zombie_delay : get_remaining_zombie_recovery_delay_ms parse (some "302500") 3 302600 ≡ 119900
unfolding get_remaining_zombie_recovery_delay_ms ◌=?◌
zombie_delay = refl
