-- ===== src/Pam/Helper/Deadline.antt =====
-- The parent's deadline against the dialog's own.
use sentinel_cosmic.Common.{
  ◌*◌, ◌<◌, ℕ, ◌≤◌, ◌+◌, arith, ◌≡◌, ltb, true, inl, Bool-cases, inr, ◌==◌, ◌%◌, refl, ◌⊎◌, ap,
}
use sentinel_cosmic.Pam.Helper.{never, millis, parent_poll_timeout}

-- For every timeout up to 2147478 seconds, in i32 arithmetic that wraps: a timeout of zero waits for ever,
-- and any other waits exactly 5 seconds longer than the dialog's own total.
pub parent_poll_timeout_outlasts :
    (timeout_secs : ℕ)
    → timeout_secs ≤ 2147478
    → ((timeout_secs ≡ 0) × (parent_poll_timeout timeout_secs ≡ never))
      ⊎ ((0 < timeout_secs)
          × (parent_poll_timeout timeout_secs ≡ millis (1000 * timeout_secs + 5000)))
unfolding parent_poll_timeout
parent_poll_timeout_outlasts t h = elim (Bool-cases (t == 0)) [
  | inl e ↦ inl (ground (arith, e), rw e refl)
  | inr n ↦
      let small : ltb t 2147483648 ≡ true = ground (arith, h) in
      let exact : (t + 5) * 1000 % 4294967296 ≡ (t + 5) * 1000 = omega (arith, h) in
      let half : ltb ((t + 5) * 1000) 2147483648 ≡ true = ground (arith, h) in
      inr (ground (arith, n), rw (n, small) (rw exact (rw half (ap millis (omega arith)))))
]
