-- ===== src/Dialog/Startup/Answer.antt =====
-- The dialog's process and whoever reads its answer.
use sentinel_cosmic.Agent.Tests.{refused}
use sentinel_cosmic.Common.{
  ◌*◌, Bool-cases, true, false, ◌≡◌, ◌++◌, inr, [], ◌∷◌, Bool, is_some, min, inl, if◌then◌else◌,
  ◌≤◌, Option, unwrap_or, some, ℕ, none, refl, sym, ◌∙◌, List, ap,
}
use sentinel_cosmic.Dialog.{i32_max, Args, bare, start, play}
use sentinel_cosmic.Dialog.Gate.{tick_count, play_gated}
use sentinel_cosmic.Dialog.Startup.{finish, StartArgs, Desktop, run_main, Command, show_dialog}
use sentinel_cosmic.Pam.Helper.{Result, ok, bytes, ready, parent_wait}
use sentinel_cosmic.Pam.Helper.Pipe.{parent_wait-show_verdict}
use sentinel_cosmic.Text.{Text}
use sentinel_cosmic.Verdict.{Outcome, show_verdict, Verdict}

-- The verdict behind what the process writes.
pub shown_verdict : Args → Desktop → Verdict
shown_verdict a d = if is_some d.wayland_display then show_dialog a d else bare Outcome.deny

pub run_main-stdout :
    (is_file : Text → Bool) (starts : Command → Bool) (a : Args) (f : StartArgs) (d : Desktop)
    → (run_main is_file starts a f d).stdout ≡ show_verdict (shown_verdict a d) ++ (b'\n' ∷ [])
unfolding run_main finish shown_verdict
run_main-stdout is_file starts a f d = elim (Bool-cases (is_some d.wayland_display)) [
  | inl e ↦ rw e
  | inr e ↦ rw e
]

-- An Allow at the end of a chain of conditions, each of which would have been a refusal.
allow_if :
    (b : Bool) (v : Verdict)
    → (if b then v else bare Outcome.deny).outcome ≡ Outcome.allow
    → (b ≡ true) × (v.outcome ≡ Outcome.allow)
allow_if true v h = (refl, h)
allow_if false v h = absurd (cc h)

allow_or_bare :
    (o : Option Verdict)
    → (unwrap_or o (bare Outcome.deny)).outcome ≡ Outcome.allow
    → (v : Verdict) × (o ≡ some v) × (v.outcome ≡ Outcome.allow)
allow_or_bare none h = absurd (cc h)
allow_or_bare (some v) h = (v, refl, h)

-- The dialog's event loop gave an Allow itself.
abbrev pub Answered : Args → Desktop → Type 0
Answered a d =
    (v : Verdict) × (play (start a d.coin d.lang) d.events ≡ some v) × (v.outcome ≡ Outcome.allow)

pub allowed_verdict :
    (a : Args) (d : Desktop)
    → (shown_verdict a d).outcome ≡ Outcome.allow
    → (is_some d.wayland_display ≡ true)
      × (d.scene_loads ≡ true)
      × (min a.min_time i32_max ≤ 100 * tick_count d.events)
      × Answered a d
unfolding shown_verdict show_dialog
allowed_verdict a d h =
    let (display, shown) = allow_if (is_some d.wayland_display) (show_dialog a d) h in
    let (loaded, played) =
      allow_if d.scene_loads (unwrap_or (play (start a d.coin d.lang) d.events) (bare Outcome.deny))
        shown in
    let (v, e, allowed) = allow_or_bare (play (start a d.coin d.lang) d.events) played in
    (
      display,
      loaded,
      elim (play_gated a d.coin d.lang d.events v e).0 [
        | inl refused ↦ absurd (refused allowed)
        | inr late ↦ late
      ],
      (v, e, allowed),
    )

read_outcome : {v w : Verdict} → ok v ≡ ok w → v.outcome ≡ w.outcome
read_outcome e = cc

-- An Allow that is read was given in a dialog. Whatever the dialog's process meets, a parent that reads
-- its whole output takes it for an Allow only if there is a Wayland display, the scene loaded, the dialog
-- had run for the minimum time, measured in its ticks of 100 milliseconds, and what the user did in the
-- event loop itself gave an Allow: a loop that ends without one is never read as an Allow.
pub run_main_allow :
    (is_file : Text → Bool) (starts : Command → Bool) (a : Args) (f : StartArgs) (d : Desktop)
    (v : Verdict)
    → parent_wait (ready (bytes (run_main is_file starts a f d).stdout)) ≡ (false, ok v)
    → v.outcome ≡ Outcome.allow
    → (is_some d.wayland_display ≡ true)
      × (d.scene_loads ≡ true)
      × (min a.min_time i32_max ≤ 100 * tick_count d.events)
      × Answered a d
run_main_allow is_file starts a f d v r h =
    let w = shown_verdict a d in
    let written =
      ap (λ (out : List ℕ). parent_wait (ready (bytes out)))
        (run_main-stdout is_file starts a f d) in
    let same =
      ap (λ (p : Bool × Result Verdict). p.1) (sym r ∙ (written ∙ parent_wait-show_verdict w)) in
    allowed_verdict a d (sym (read_outcome same) ∙ h)
