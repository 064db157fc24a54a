-- ===== src/Dialog/Deadline.antt =====
-- When the dialog closes by itself.
use sentinel_cosmic.Common.{
  none, ℕ, ◌*◌, ◌<◌, suc, ◌≤◌, some, ◌≡◌, Bool, Bool-cases, inr, refl, ap, ltb, ◌≢◌, ◌+◌, ◌∷◌,
  or_else, Option, arith, if◌then◌else◌, [], List, ◌&&◌, inl, ◌∙◌, sym, map_option, ◌⊎◌,
}
use sentinel_cosmic.Dialog.{
  Controller, bare, tick, step, toggles, Input, presses_deny, checks, play, ticks, deny_pressed,
  allow_pressed, closes, presses_allow, start, Args,
}
use sentinel_cosmic.Dialog.Clock.{tick_before, step-Running, tick_last, tick-Running, Running}
use sentinel_cosmic.Dialog.Gate.{tick_count}
use sentinel_cosmic.Text.{Text}
use sentinel_cosmic.Verdict.{Outcome, Verdict}

module _ (t : ℕ) (some_time : 0 < t) (no_overflow : t ≤ 2147483) where
  or_else-some :
      (o p : Option Verdict)
      → ((v : Verdict) × (p ≡ some v))
      → (v : Verdict) × (or_else o p ≡ some v)
  or_else-some none p h = h
  or_else-some (some v) p h = (v, refl)

  -- It closes on the last tick at the latest.
  play_ends :
      (n : ℕ) (c : Controller) (is : List Input)
      → Running t n c
      → 10 * t ≤ n + tick_count is
      → (v : Verdict) × (play c is ≡ some v)
  unfolding play step
  play_ends n c [] r h = absurd (omega (arith, r.still_open, h))
  play_ends n c (ticks ∷ is) r h = elim (Bool-cases (ltb (suc n) (10 * t))) [
    | inl e ↦ or_else-some (tick c).1 (play (tick c).0 is) (
        play_ends (suc n) (tick c).0 is
          (tick-Running t some_time no_overflow n c r (ground (arith, e))) (omega (arith, h)))
    | inr e ↦ (
      bare Outcome.timeout,
      ap (λ o. or_else o (play (tick c).0 is))
          (tick_last t some_time no_overflow n c r (ground (arith, e))),
    )
  ]
  play_ends n c (presses_allow ∷ is) r h = or_else-some (step c presses_allow).1 _ (
      play_ends n (step c presses_allow).0 is
        (step-Running t some_time no_overflow n c presses_allow (λ e. cc e) r) h)
  play_ends n c (presses_deny ∷ is) r h = (bare Outcome.deny, refl)
  play_ends n c (toggles ∷ is) r h =
      play_ends n (step c toggles).0 is
        (step-Running t some_time no_overflow n c toggles (λ e. cc e) r) h
  play_ends n c (checks b ∷ is) r h =
      play_ends n (step c (checks b)).0 is
        (step-Running t some_time no_overflow n c (checks b) (λ e. cc e) r) h
  play_ends n c (closes ∷ is) r h = (bare Outcome.deny, refl)

  not_timeout :
      (o p : Option Verdict) (w v : Verdict)
      → o ≡ some w
      → w.outcome ≢ Outcome.timeout
      → or_else o p ≡ some v
      → v.outcome ≢ Outcome.timeout
  not_timeout o p w v e n h t = n (outcome_eq w v (ap (λ q. or_else q p) (sym e) ∙ h) ∙ t)
    where
      outcome_eq : (x y : Verdict) → some x ≡ some y → x.outcome ≡ y.outcome
      outcome_eq x y q = cc q

  -- And not with a timeout before it.
  play_early :
      (n : ℕ) (c : Controller) (is : List Input) (v : Verdict)
      → Running t n c
      → play c is ≡ some v
      → v.outcome ≡ Outcome.timeout
      → 10 * t ≤ n + tick_count is
  unfolding play step allow_pressed deny_pressed
  play_early n c [] v r h o = absurd (cc h)
  play_early n c (ticks ∷ is) v r h o = elim (Bool-cases (ltb (suc n) (10 * t))) [
    | inl e ↦ omega (
      arith,
      play_early (suc n) (tick c).0 is v
          (tick-Running t some_time no_overflow n c r (ground (arith, e)))
          (ap (λ q. or_else q (play (tick c).0 is))
              (sym (tick_before t some_time no_overflow n c r (ground (arith, e))))
            ∙ h)
          o,
    )
    | inr e ↦ ground (arith, e)
  ]
  play_early n c (presses_allow ∷ is) v r h o = elim (Bool-cases c.allow_enabled) [
    | inl e ↦ absurd (
        not_timeout (allow_pressed c).1 (play c is)
          (record { outcome = Outcome.allow; remember = c.remember_offered && c.remember_checked })
          v (rw e refl) (λ q. cc q) h o)
    | inr e ↦
        play_early n c is v r
          (ap
              (λ b.
                or_else
                  (if b
                    then some (record {
                      outcome = Outcome.allow;
                      remember = c.remember_offered && c.remember_checked;
                    })
                    else none)
                  (play c is))
              (sym e)
            ∙ h)
          o
  ]
  play_early n c (presses_deny ∷ is) v r h o =
      absurd (not_timeout (deny_pressed c).1 (play c is) (bare Outcome.deny) v refl (λ q. cc q) h o)
  play_early n c (toggles ∷ is) v r h o =
      play_early n (step c toggles).0 is v
        (step-Running t some_time no_overflow n c toggles (λ e. cc e) r) h o
  play_early n c (checks b ∷ is) v r h o =
      play_early n (step c (checks b)).0 is v
        (step-Running t some_time no_overflow n c (checks b) (λ e. cc e) r) h o
  play_early n c (closes ∷ is) v r h o =
      absurd (not_timeout (step c closes).1 (play c is) (bare Outcome.deny) v refl (λ q. cc q) h o)

  start-Running :
      (a : Args) (coin : Bool) (lang : Text) → a.timeout ≡ t → Running t 0 (start a coin lang)
  unfolding start
  start-Running a coin lang e = record {
    timeout_kept = omega (arith, e, no_overflow);
    elapsed_exact = omega arith;
    still_open = omega (arith, some_time);
  }

-- A dialog with a timeout of up to 2147483 seconds closes itself exactly on time, whatever is done to it:
-- before its last tick of 100 milliseconds its answer is not `timeout`, and from that tick on it has given
-- a verdict.
pub play_closes :
    (a : Args) (coin : Bool) (lang : Text) (is : List Input)
    → 0 < a.timeout
    → a.timeout ≤ 2147483
    → ((tick_count is < 10 * a.timeout)
        × (map_option (λ v. v.outcome) (play (start a coin lang) is) ≢ some Outcome.timeout))
      ⊎ ((10 * a.timeout ≤ tick_count is) × (v : Verdict) × (play (start a coin lang) is ≡ some v))
play_closes a coin lang is some_time no_overflow =
    let open_now = start-Running a.timeout some_time no_overflow a coin lang refl in
    elim (Bool-cases (ltb (tick_count is) (10 * a.timeout))) [
      | inl e ↦ inl (
        ground (arith, e),
        λ h.
            let (v, given, o) = answered (play (start a coin lang) is) h in
            absurd (
              ground (
                arith,
                e,
                play_early a.timeout some_time no_overflow 0 (start a coin lang) is v open_now given
                    o,
              )),
      )
      | inr e ↦
          let (v, given) =
            play_ends a.timeout some_time no_overflow 0 (start a coin lang) is open_now
              (ground (arith, e)) in
          inr (ground (arith, e), v, given)
    ]
  where
    outcome_eq : {x y : Outcome} → some x ≡ some y → x ≡ y
    outcome_eq q = cc

    answered :
        (p : Option Verdict)
        → map_option (λ v. v.outcome) p ≡ some Outcome.timeout
        → (v : Verdict) × (p ≡ some v) × (v.outcome ≡ Outcome.timeout)
    answered none h = absurd (cc h)
    answered (some v) h = (v, refl, outcome_eq h)
