-- ===== src/Dialog/Gate.antt =====
-- When the dialog lets the user in.
use sentinel_cosmic.Common.{
  [], ◌<◌, ◌∷◌, min, ◌≤◌, ◌≡◌, arith, suc, some, ltb, List, refl, ℕ, ◌*◌, Bool, true, ◌≢◌, ◌%◌, inl,
  Bool-cases, ◌&&◌, inr, ◌+◌, sym, ◌∙◌, or_else, ap, subst, Option-cases, ◌⊎◌, false,
}
use sentinel_cosmic.Dialog.{
  tick, start, Controller, Args, i32_max, Input, ticks, at_least, allow_pressed, total_of, bare,
  play, presses_allow, toggles, checks, toggle_details, step, closes, presses_deny, deny_pressed,
}
use sentinel_cosmic.Grants.{secs}
use sentinel_cosmic.Text.{Text}
use sentinel_cosmic.Verdict.{Outcome, Verdict}

-- How many ticks there are among the inputs.
abbrev pub tick_count : List Input → ℕ
tick_count [] = 0
tick_count (ticks ∷ is) = suc (tick_count is)
tick_count (_ ∷ is) = tick_count is

-- Allow is enabled only once enough ticks have passed, `n` of them so far.
record Gated (min_time secs : ℕ) (n : ℕ) (c : Controller) : Type 0 where
  min_kept : c.min_time_ms ≡ min_time
  elapsed_small : c.elapsed_ms ≤ 100 * n
  enabled_late : c.allow_enabled ≡ true → min_time ≤ 100 * n
  offered : c.remember_offered ≡ ltb 0 secs

-- What a verdict shows: an Allow that it comes late enough, an opt-in that it was offered.
abbrev Fair : ℕ → ℕ → ℕ → Verdict → Type 0
Fair min_time secs n v =
    (v.outcome ≡ Outcome.allow → min_time ≤ 100 * n) × (v.remember ≡ true → 0 < secs)

module _ (min_time secs : ℕ) where
  start-Gated :
      (a : Args) (coin : Bool) (lang : Text)
      → min a.min_time i32_max ≡ min_time
      → a.remember_secs ≡ secs
      → Gated min_time secs 0 (start a coin lang)
  unfolding start
  start-Gated a coin lang e f = record {
    min_kept = e;
    elapsed_small = omega arith;
    enabled_late = λ h. ground (arith, h, e);
    offered = rw f refl;
  }

  tick-Gated :
      (n : ℕ) (c : Controller) → Gated min_time secs n c → Gated min_time secs (suc n) (tick c).0
  unfolding tick
  tick-Gated n c g = record {
    min_kept = g.min_kept;
    elapsed_small = omega (arith, g.elapsed_small);
    enabled_late = λ h. elim (Bool-cases c.allow_enabled) [
      | inl e ↦ omega (arith, g.enabled_late e)
      | inr e ↦ ground (arith, e, h, g.min_kept, g.elapsed_small)
    ];
    offered = g.offered;
  }

  tick_verdict : (c : Controller) (v : Verdict) → (tick c).1 ≡ some v → v ≡ bare Outcome.timeout
  unfolding tick
  tick_verdict c v h =
      elim (Bool-cases (
        ltb 0 c.timeout_secs
        && at_least ((c.elapsed_ms + 100) % 4294967296) (total_of c.timeout_secs))) [
          | inl e ↦ verdict_eq v (bare Outcome.timeout) (sym h ∙ rw e)
          | inr e ↦ absurd (cc (rw e at h))
        ]
    where
      verdict_eq : (x y : Verdict) → some x ≡ some y → x ≡ y
      verdict_eq x y e = cc e

  refusal-Fair :
      (n : ℕ) (o : Outcome) (v : Verdict) → o ≢ Outcome.allow → v ≡ bare o → Fair min_time secs n v
  refusal-Fair n o v not_allow e = rw e (λ a. absurd (not_allow a), λ r. absurd (cc r))

  allow-Fair :
      (n : ℕ) (c : Controller) (v : Verdict)
      → Gated min_time secs n c
      → (allow_pressed c).1 ≡ some v
      → Fair min_time secs n v
  unfolding allow_pressed
  allow-Fair n c v g h = elim (Bool-cases c.allow_enabled) [
    | inl e ↦
        let ticked : (c.remember_offered && c.remember_checked) ≡ v.remember =
          remember_eq
            (record {
              outcome = Outcome.allow;
              remember = c.remember_offered && c.remember_checked;
            })
            v (rw e at h) in
        (λ _. g.enabled_late e, λ r. ground (arith, ticked ∙ r, g.offered))
    | inr e ↦ absurd (ground (arith, e, h))
  ]
    where
      remember_eq : (x y : Verdict) → some x ≡ some y → x.remember ≡ y.remember
      remember_eq x y q = cc q

  step-Fair :
      (n : ℕ) (c : Controller) (i : Input) (v : Verdict)
      → Gated min_time secs n c
      → (step c i).1 ≡ some v
      → Fair min_time secs n v
  unfolding step deny_pressed
  step-Fair n c ticks v g h = refusal-Fair n Outcome.timeout v (λ e. cc e) (tick_verdict c v h)
  step-Fair n c presses_allow v g h = allow-Fair n c v g h
  step-Fair n c presses_deny v g h = refusal-Fair n Outcome.deny v (λ e. cc e) (bare_eq v h)
    where
      bare_eq : (w : Verdict) → some (bare Outcome.deny) ≡ some w → w ≡ bare Outcome.deny
      bare_eq w q = cc q
  step-Fair n c toggles v g h = absurd (cc h)
  step-Fair n c (checks b) v g h = absurd (cc h)
  step-Fair n c closes v g h = refusal-Fair n Outcome.deny v (λ e. cc e) (bare_eq v h)
    where
      bare_eq : (w : Verdict) → some (bare Outcome.deny) ≡ some w → w ≡ bare Outcome.deny
      bare_eq w q = cc q

  step-Gated :
      (n : ℕ) (c : Controller) (i : Input)
      → Gated min_time secs n c
      → Gated min_time secs (n + tick_count (i ∷ [])) (step c i).0
  unfolding step allow_pressed deny_pressed toggle_details
  step-Gated n c ticks g =
      subst (λ m. Gated min_time secs m (tick c).0) (omega arith) (tick-Gated n c g)
  step-Gated n c presses_allow g = subst (λ m. Gated min_time secs m c) (omega arith) g
  step-Gated n c presses_deny g = subst (λ m. Gated min_time secs m c) (omega arith) g
  step-Gated n c toggles g = record {
    min_kept = g.min_kept;
    elapsed_small = omega (arith, g.elapsed_small);
    enabled_late = λ h. omega (arith, g.enabled_late h);
    offered = g.offered;
  }
  step-Gated n c (checks b) g = record {
    min_kept = g.min_kept;
    elapsed_small = omega (arith, g.elapsed_small);
    enabled_late = λ h. omega (arith, g.enabled_late h);
    offered = g.offered;
  }
  step-Gated n c closes g = subst (λ m. Gated min_time secs m c) (omega arith) g

  Fair-later : (m n : ℕ) (v : Verdict) → m ≤ n → Fair min_time secs m v → Fair min_time secs n v
  Fair-later m n v le (late, asked) = (λ a. omega (arith, late a, le), asked)

  count_step :
      (n : ℕ) (i : Input) (is : List Input)
      → (n + tick_count (i ∷ [])) + tick_count is ≡ n + tick_count (i ∷ is)
  count_step n ticks is = omega arith
  count_step n presses_allow is = omega arith
  count_step n presses_deny is = omega arith
  count_step n toggles is = omega arith
  count_step n (checks b) is = omega arith
  count_step n closes is = omega arith

  play-Fair :
      (n : ℕ) (c : Controller) (is : List Input) (v : Verdict)
      → Gated min_time secs n c
      → play c is ≡ some v
      → Fair min_time secs (n + tick_count is) v
  unfolding play
  play-Fair n c [] v g h = absurd (cc h)
  play-Fair n c (i ∷ is) v g h = elim (Option-cases (step c i).1) [
    | inl e ↦
        subst (λ m. Fair min_time secs m v) (count_step n i is)
          (play-Fair (n + tick_count (i ∷ [])) (step c i).0 is v (step-Gated n c i g)
            (ap (λ o. or_else o (play (step c i).0 is)) (sym e) ∙ h))
    | inr (w, e) ↦
        Fair-later n (n + tick_count (i ∷ is)) v (omega arith)
          (step-Fair n c i v g (e ∙ ap (λ o. or_else o (play (step c i).0 is)) (sym e) ∙ h))
  ]

-- What a verdict shows, with nothing assumed of it.
abbrev pub Earned : ℕ → ℕ → ℕ → Verdict → Type 0
Earned min_time secs n v =
    ((v.outcome ≢ Outcome.allow) ⊎ (min_time ≤ 100 * n)) × ((v.remember ≡ false) ⊎ (0 < secs))

Outcome-allow? : (o : Outcome) → (o ≢ Outcome.allow) ⊎ (o ≡ Outcome.allow)
Outcome-allow? Outcome.allow = inr refl
Outcome-allow? Outcome.deny = inl (λ e. cc e)
Outcome-allow? Outcome.timeout = inl (λ e. cc e)

Fair-Earned :
    (min_time secs n : ℕ) (v : Verdict) → Fair min_time secs n v → Earned min_time secs n v
Fair-Earned min_time secs n v (late, asked) = (
  elim (Outcome-allow? v.outcome) [ inl other ↦ inl other | inr allowed ↦ inr (late allowed) ],
  elim (Bool-cases v.remember) [ inl e ↦ inr (asked e) | inr e ↦ inl e ],
)

-- Whatever is done to the dialog, an Allow comes only after the minimum time, measured in its ticks of 100
-- milliseconds, and an opt-in comes only if the backend passed a window to remember for.
pub play_gated :
    (a : Args) (coin : Bool) (lang : Text) (is : List Input) (v : Verdict)
    → play (start a coin lang) is ≡ some v
    → Earned (min a.min_time i32_max) a.remember_secs (tick_count is) v
play_gated a coin lang is v h =
    let min_time = min a.min_time i32_max in
    Fair-Earned min_time a.remember_secs (tick_count is) v (
      subst (λ n. Fair min_time a.remember_secs n v) (omega arith)
        (play-Fair min_time a.remember_secs 0 (start a coin lang) is v
          (start-Gated min_time a.remember_secs a coin lang refl refl) h))
