-- ===== src/Agent/HelperUi/EndToEnd.antt =====
-- crates/sentinel-polkit-agent/src/helper_ui.rs with crates/sentinel-helper-kde/src/main.rs: from the agent's
-- request to the verdict that it reads.
use sentinel_cosmic.Agent.HelperUi.{
  Request, ok, read_error, line, run_helper_verdict, deadline, run_helper, helper_args,
  FirstVerdict, Event,
}
use sentinel_cosmic.Agent.HelperUi.Arguments.{parse-helper_args, shown}
use sentinel_cosmic.Agent.HelperUi.Slots.{IsPlain}
use sentinel_cosmic.Cli.Arguments.{declared, IsWellGiven, CliArg, Given, command_line}
use sentinel_cosmic.Common.{
  List, ◌≤◌, ◌∙◌, min, subst, false, inr, inl, ◌≡◌, ◌∷◌, sym, ℕ, is_some, true, suc, some, take,
  All, ◌++◌, ap, ◌*◌, refl, Bool, zero, Option, [], none,
}
use sentinel_cosmic.Dialog.{i32_max}
use sentinel_cosmic.Dialog.Gate.{tick_count}
use sentinel_cosmic.Dialog.Startup.{Desktop, Command}
use sentinel_cosmic.Dialog.Startup.Answer.{allowed_verdict, run_main-stdout, shown_verdict}
use sentinel_cosmic.Dialog.Startup.Process.{ran, helper_stdout}
use sentinel_cosmic.Text.{Text, lines}
use sentinel_cosmic.Verdict.{parse_verdict, Outcome, show_verdict, Verdict}
use sentinel_cosmic.Verdict.Wire.{parse_verdict-show_verdict}

-- The lines that come from the helper, until a read fails.
abbrev pub lines_of : List Event → List Text
lines_of [] = []
lines_of (line l ∷ es) = l ∷ lines_of es
lines_of (read_error ∷ es) = []
lines_of (deadline ∷ es) = lines_of es

FirstVerdict-line :
    (v : Verdict) (es : List Event) (l : Text)
    → FirstVerdict v es
    → All (λ k. k ≡ l) (lines_of es)
    → parse_verdict l ≡ some v
FirstVerdict-line v [] l h same = absurd h
FirstVerdict-line v (line k ∷ es) l (inl e) (first, same) = ap parse_verdict (sym first) ∙ e
FirstVerdict-line v (line k ∷ es) l (inr (e, h)) (first, same) = FirstVerdict-line v es l h same
FirstVerdict-line v (read_error ∷ es) l h same = absurd h
FirstVerdict-line v (deadline ∷ es) l h same = FirstVerdict-line v es l h same

take_one_line : (n : ℕ) (l : Text) → All (λ k. k ≡ l) (take n (l ∷ []))
take_one_line zero l = tt
take_one_line (suc zero) l = (refl, tt)
take_one_line (suc (suc n)) l = (refl, tt)

verdict_line :
    (o : Outcome) (r : Bool)
    → let v : Verdict = record { outcome = o; remember = r } in
      lines (show_verdict v ++ (b'\n' ∷ [])) ≡ show_verdict v ∷ []
unfolding lines show_verdict
verdict_line Outcome.allow true = refl
verdict_line Outcome.allow false = refl
verdict_line Outcome.deny true = refl
verdict_line Outcome.deny false = refl
verdict_line Outcome.timeout true = refl
verdict_line Outcome.timeout false = refl

same_outcome : {v w : Verdict} → some v ≡ some w → v.outcome ≡ w.outcome
same_outcome e = cc

helper_stdout-helper_args :
    (clap : List CliArg → List Text → Option Given)
    (documented : (g : Given) → IsWellGiven declared g → clap declared (command_line g) ≡ some g)
    (is_file : Text → Bool) (starts : Command → Bool) (program : Text) (req : Request) (d : Desktop)
    → IsPlain req
    → lines (helper_stdout clap is_file starts (program ∷ helper_args req) d)
      ≡ show_verdict (shown_verdict (shown req).0 d) ∷ []
unfolding helper_stdout
helper_stdout-helper_args clap documented is_file starts program req d texts =
    let w = shown_verdict (shown req).0 d in
    ap (λ m. lines (ran is_file starts d m)) (parse-helper_args clap documented req texts)
    ∙ ap lines (run_main-stdout is_file starts (shown req).0 (shown req).1 d)
    ∙ verdict_line w.outcome w.remember

-- The whole dialog, from the agent's request to its answer. Where clap takes declared arguments with
-- values that do not begin with a hyphen as they stand, the request's texts do not begin with a hyphen,
-- its pid is not negative and its numbers are in range, an Allow that the agent reads, without the test override, from the lines
-- that the dialog's process wrote, or from those of them that came before the agent's own deadline, was
-- given in a dialog that had the request's minimum display time behind it, measured in ticks of 100
-- milliseconds, on a Wayland display and with a scene that loaded.
pub helper_args-allow :
    (clap : List CliArg → List Text → Option Given)
    (documented : (g : Given) → IsWellGiven declared g → clap declared (command_line g) ≡ some g)
    (is_file : Text → Bool) (starts : Command → Bool) (program : Text) (req : Request) (d : Desktop)
    (n : ℕ) (es : List Event) (v : Verdict)
    → IsPlain req
    → lines_of es ≡ take n (lines (helper_stdout clap is_file starts (program ∷ helper_args req) d))
    → run_helper none (some es) req ≡ ok v
    → v.outcome ≡ Outcome.allow
    → (is_some d.wayland_display ≡ true)
      × (d.scene_loads ≡ true)
      × (min req.min_time i32_max ≤ 100 * tick_count d.events)
helper_args-allow clap documented is_file starts program req d n es v texts came read allowed =
    let w = shown_verdict (shown req).0 d in
    let (events, spawned, first) = run_helper_verdict (some es) req v read in
    let written =
      came
      ∙ ap (take n)
          (helper_stdout-helper_args clap documented is_file starts program req d texts) in
    let only : All (λ k. k ≡ show_verdict w) (lines_of es) =
      subst (λ ls. All (λ k. k ≡ show_verdict w) ls) (sym written)
        (take_one_line n (show_verdict w)) in
    let heard : FirstVerdict v es = subst (FirstVerdict v) (sym (some_events spawned)) first in
    let said =
      sym (parse_verdict-show_verdict w) ∙ FirstVerdict-line v es (show_verdict w) heard only in
    let (display, loaded, late, _) =
      allowed_verdict (shown req).0 d (same_outcome said ∙ allowed) in
    (display, loaded, late)
  where
    some_events : {a b : List Event} → some a ≡ some b → a ≡ b
    some_events q = cc
