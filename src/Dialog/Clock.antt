-- ===== src/Dialog/Clock.antt =====
-- How the dialog's clock runs.
use sentinel_cosmic.Common.{
  ◌&&◌, arith, ◌+◌, refl, ◌≢◌, if◌then◌else◌, ◌*◌, ◌<◌, false, ℕ, ◌≤◌, ap, ◌%◌, ltb, ◌≡◌, Bool, suc,
  some, true, none,
}
use sentinel_cosmic.Dialog.{
  presses_allow, toggle_details, Input, total_of, step, deny_pressed, checks, toggles, bare,
  Controller, presses_deny, allow_pressed, tick, ticks, at_least, closes,
}
use sentinel_cosmic.Verdict.{Outcome}

-- A dialog with `t` seconds to go whose clock shows `n` ticks, and that is still open.
pub record Running (t n : ℕ) (c : Controller) : Type 0 where
  pub timeout_kept : c.timeout_secs ≡ t
  pub elapsed_exact : c.elapsed_ms ≡ 100 * n
  pub still_open : n < 10 * t

module _ (t : ℕ) (some_time : 0 < t) (no_overflow : t ≤ 2147483) where
  abbrev fires : Controller → Bool
  fires c =
      ltb 0 c.timeout_secs && at_least ((c.elapsed_ms + 100) % 4294967296) (total_of c.timeout_secs)

  clock : (n : ℕ) (c : Controller) → Running t n c → (c.elapsed_ms + 100) % 4294967296 ≡ 100 * suc n
  clock n c r = omega (arith, r.elapsed_exact, r.still_open, no_overflow)

  total : (n : ℕ) (c : Controller) → Running t n c → total_of c.timeout_secs ≡ 1000 * t
  total n c r = omega (arith, r.timeout_kept, no_overflow)

  fires_last : (n : ℕ) (c : Controller) → Running t n c → 10 * t ≤ suc n → fires c ≡ true
  fires_last n c r h =
      ground
        (arith, clock n c r, total n c r, r.timeout_kept, r.still_open, h, some_time, no_overflow)

  not_before : (n : ℕ) (c : Controller) → Running t n c → suc n < 10 * t → fires c ≡ false
  not_before n c r h =
      ground
        (arith, clock n c r, total n c r, r.timeout_kept, r.still_open, h, some_time, no_overflow)

  pub tick_last :
      (n : ℕ) (c : Controller)
      → Running t n c
      → 10 * t ≤ suc n
      → (tick c).1 ≡ some (bare Outcome.timeout)
  unfolding tick
  tick_last n c r h = ap (λ b. if b then some (bare Outcome.timeout) else none) (fires_last n c r h)

  pub tick_before : (n : ℕ) (c : Controller) → Running t n c → suc n < 10 * t → (tick c).1 ≡ none
  unfolding tick
  tick_before n c r h =
      ap (λ b. if b then some (bare Outcome.timeout) else none) (not_before n c r h)

  pub tick-Running :
      (n : ℕ) (c : Controller) → Running t n c → suc n < 10 * t → Running t (suc n) (tick c).0
  unfolding tick
  tick-Running n c r h = record {
    timeout_kept = r.timeout_kept;
    elapsed_exact = clock n c r;
    still_open = h;
  }

  pub step-Running :
      (n : ℕ) (c : Controller) (i : Input) → i ≢ ticks → Running t n c → Running t n (step c i).0
  unfolding step allow_pressed deny_pressed toggle_details
  step-Running n c ticks not_tick r = absurd (not_tick refl)
  step-Running n c presses_allow not_tick r = r
  step-Running n c presses_deny not_tick r = r
  step-Running n c toggles not_tick r = record {
    timeout_kept = r.timeout_kept;
    elapsed_exact = r.elapsed_exact;
    still_open = r.still_open;
  }
  step-Running n c (checks b) not_tick r = record {
    timeout_kept = r.timeout_kept;
    elapsed_exact = r.elapsed_exact;
    still_open = r.still_open;
  }
  step-Running n c closes not_tick r = r
