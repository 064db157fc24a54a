-- ===== src/Pam/Authenticate/Recorded.antt =====
-- When the PAM module asks the broker to record a grant.
use sentinel_cosmic.Pam.Authenticate.Call.{Context, Env, Run, context_of, log_line, remember_key_of}
use sentinel_cosmic.Common.{
  sym, none, ℕ, true, ◌≡◌, some, refl, ltb, ◌∙◌, ap, false, ◌≢◌, Option, ◌&&◌, if◌then◌else◌, Bool,
  not, ◌<◌, [], ◌==◌, inr, Option-cases, arith, ◌||◌, Bool-cases, inl,
}
use sentinel_cosmic.Config.{RememberScope, HeadlessAction}
use sentinel_cosmic.Elevation.{remember_key_command}
use sentinel_cosmic.Pam.{pam_ignore, PamResult, pam_success}
use sentinel_cosmic.Pam.Authenticate.{
  request_of, has_display, by_config, window_of, sm_authenticate, is_remembered, policy_decision,
  handle_headless, dialog_result, ask_user, no_dialog, by_policy, by_bypass,
}
use sentinel_cosmic.Pam.Bypass.{check_agent_bypass}
use sentinel_cosmic.Pam.Helper.{run_child}
use sentinel_cosmic.Pam.ProcessInfo.{ProcessInfo}
use sentinel_cosmic.Policy.{PolicyDecision}
use sentinel_cosmic.Procfs.{read_proc_u32}
use sentinel_cosmic.Proto.{RememberKey}
use sentinel_cosmic.Text.{codes, Text}
use sentinel_cosmic.Text.Decimal.{u32_max}
use sentinel_cosmic.Verdict.{Outcome, is_allow, Verdict}
use sentinel_cosmic.Pam.Helper

-- A dialog that offered to remember and was answered with a ticked Allow.
abbrev pub Ticked : Env → Context → RememberKey → Run → Type 0
Ticked env c key r =
    (v : Verdict) × (run_child env.child ≡ Helper.ok v)
    × (v.outcome ≡ Outcome.allow)
    × (v.remember ≡ true)
    × (c.key ≡ some key)
    × (0 < c.cfg.remember_seconds)
    × (r.result ≡ pam_success)
    × (r.dialog ≡ some (request_of env c))

key_of_if :
    (b : Bool) (o : Option RememberKey) (key : RememberKey)
    → (if b then o else none) ≡ some key
    → (b ≡ true) × (o ≡ some key)
key_of_if true o key h = (refl, h)
key_of_if false o key h = absurd (cc h)

ticked_verdict :
    (r : Helper.Result Verdict)
    → (dialog_result r).1 ≡ true
    → (v : Verdict) × (r ≡ Helper.ok v)
      × (v.outcome ≡ Outcome.allow)
      × (v.remember ≡ true)
      × ((dialog_result r).0 ≡ pam_success)
unfolding dialog_result is_allow
ticked_verdict (Helper.err e) h = absurd (cc h)
ticked_verdict (Helper.ok v) h = by_outcome v v.outcome refl h
  where
    by_outcome :
        (w : Verdict) (o : Outcome)
        → w.outcome ≡ o
        → (dialog_result (Helper.ok w)).1 ≡ true
        → (v : Verdict) × (Helper.ok w ≡ Helper.ok v)
          × (v.outcome ≡ Outcome.allow)
          × (v.remember ≡ true)
          × ((dialog_result (Helper.ok w)).0 ≡ pam_success)
    by_outcome w Outcome.allow e h = (w, refl, e, rw (e, dialog_result) at h, rw (e, dialog_result))
    by_outcome w Outcome.deny e h = absurd (cc (rw (e, dialog_result) at h))
    by_outcome w Outcome.timeout e h = absurd (cc (rw (e, dialog_result) at h))

window_open :
    (c : Context) (key : RememberKey)
    → c.key ≡ some key
    → ltb 0 (window_of c) ≡ true
    → 0 < c.cfg.remember_seconds
unfolding window_of
window_open c key e h = ground (arith, e, h)

ask_user-Ticked :
    (env : Env) (c : Context) (key : RememberKey)
    → (ask_user env c).recorded ≡ some key
    → Ticked env c key (ask_user env c)
unfolding ask_user
ask_user-Ticked env c key h =
    let (asked, held) =
      key_of_if ((dialog_result (run_child env.child)).1 && ltb 0 (window_of c)) c.key key h in
    let (ticked, wide) : ((dialog_result (run_child env.child)).1 ≡ true)
        × (ltb 0 (window_of c) ≡ true) =
      (ground (arith, asked), ground (arith, asked)) in
    let (v, e, allowed, remembered, success) = ticked_verdict (run_child env.child) ticked in
    (v, e, allowed, remembered, held, window_open c key held wide, success, refl)

by_policy-Ticked :
    (env : Env) (c : Context) (d : PolicyDecision) (key : RememberKey)
    → (by_policy env c d).recorded ≡ some key
    → Ticked env c key (by_policy env c d)
unfolding by_policy
by_policy-Ticked env c PolicyDecision.allow key h = absurd (cc h)
by_policy-Ticked env c PolicyDecision.deny key h = absurd (cc h)
by_policy-Ticked env c PolicyDecision.ask key h = by_grant (is_remembered env c) h
  where
    by_grant :
        (b : Bool)
        → (if b
            then no_dialog pam_success (log_line c (codes "auth.allow") (codes "remember"))
            else ask_user env c).recorded
          ≡ some key
        → Ticked env c key (
            if b
            then no_dialog pam_success (log_line c (codes "auth.allow") (codes "remember"))
            else ask_user env c)
    by_grant true k = absurd (cc k)
    by_grant false k = ask_user-Ticked env c key k

handle_headless_recorded :
    (c : Context) (a : HeadlessAction) → (handle_headless c a).recorded ≡ none
unfolding handle_headless
handle_headless_recorded c HeadlessAction.allow = refl
handle_headless_recorded c HeadlessAction.deny = refl
handle_headless_recorded c HeadlessAction.password = refl

by_config-Ticked :
    (env : Env) (c : Context) (key : RememberKey) (on shown : Bool) (r : Run)
    → r ≡ (
        if not on
        then no_dialog pam_ignore []
        else if shown
        then by_policy env c (policy_decision c)
        else handle_headless c c.cfg.headless_action)
    → r.recorded ≡ some key
    → Ticked env c key r
by_config-Ticked env c key false shown r e h =
    absurd (cc (ap (λ (x : Run). x.recorded) (sym e) ∙ h))
by_config-Ticked env c key true true r e h =
    rw e (by_policy-Ticked env c (policy_decision c) key (ap (λ (x : Run). x.recorded) (sym e) ∙ h))
by_config-Ticked env c key true false r e h = absurd (
    cc (handle_headless_recorded c c.cfg.headless_action, ap (λ (x : Run). x.recorded) (sym e) ∙ h))

by_bypass-Ticked :
    (env : Env) (o : Option PamResult) (key : RememberKey)
    → (by_bypass env o).recorded ≡ some key
    → Ticked env (context_of env) key (by_bypass env o)
unfolding by_config
by_bypass-Ticked env (some rc) key h = absurd (cc h)
by_bypass-Ticked env none key h =
    let c = context_of env in
    by_config-Ticked env c key c.cfg.enabled (has_display env c) (by_config env c) refl h

-- The key of a grant names a login session.
remember_key_of_session :
    (loginuid sessionid : ℕ) (service : Text) (process : ProcessInfo) (scope : RememberScope)
    (key : RememberKey)
    → remember_key_of loginuid sessionid service process scope ≡ some key
    → (key.loginuid ≢ u32_max) × (key.sessionid ≢ u32_max)
unfolding remember_key_of
remember_key_of_session loginuid sessionid service process scope key h =
    elim (Bool-cases (loginuid == u32_max || sessionid == u32_max)) [
      | inl e ↦ absurd (ground (arith, e, h))
      | inr n ↦ elim (Option-cases process.remember_command) [
        | inl e ↦ absurd (ground (arith, e, h))
        | inr (cmd, e) ↦
            let made : RememberKey = record {
              loginuid = loginuid;
              sessionid = sessionid;
              service = service;
              command = remember_key_command cmd scope;
            } in
            let same : made ≡ key = made_key made key (rw (n, e) at h) in
            (
              λ m. ground (arith, n, ap (λ (k : RememberKey). k.loginuid) same ∙ m),
              λ m. ground (arith, n, ap (λ (k : RememberKey). k.sessionid) same ∙ m),
            )
      ]
    ]
  where
    made_key : (k l : RememberKey) → some k ≡ some l → k ≡ l
    made_key k l e = cc e

-- A grant is recorded only for a ticked Allow on a dialog that offered to remember, for the key of this
-- very request, which names a login session, with a window that is open; and the call then answers
-- SUCCESS.
pub sm_authenticate_recorded :
    (env : Env) (key : RememberKey)
    → (sm_authenticate env).recorded ≡ some key
    → Ticked env (context_of env) key (sm_authenticate env)
      × (key.loginuid ≢ u32_max)
      × (key.sessionid ≢ u32_max)
unfolding sm_authenticate context_of
sm_authenticate_recorded env key h =
    let ticked = by_bypass-Ticked env (check_agent_bypass env.bus) key h in
    let (login, session) =
      remember_key_of_session (read_proc_u32 env.proc.loginuid env.ppid)
        (read_proc_u32 env.proc.sessionid env.ppid) (context_of env).service
        (context_of env).process (context_of env).cfg.remember_scope key (ticked.4) in
    (ticked, login, session)
