-- ===== src/Pam/Authenticate/Success.antt =====
-- When the PAM module lets a request through.
use sentinel_cosmic.Pam.Authenticate.Call.{Context, Env, Run, context_of}
use sentinel_cosmic.Common.{
  ◌≡◌, ◌⊎◌, true, false, ◌↔◌, refl, ◌∙◌, inr, Bool-cases, Bool, inl, ap, ◌≢◌, sym, if◌then◌else◌,
  not, [],
}
use sentinel_cosmic.Config.{HeadlessAction}
use sentinel_cosmic.Pam.{pam_success, pam_auth_err, pam_ignore, PamResult}
use sentinel_cosmic.Pam.Authenticate.{
  is_remembered, policy_decision, has_display, dialog_result, by_config, ask_user, by_policy,
  sm_authenticate, handle_headless, no_dialog, by_bypass,
}
use sentinel_cosmic.Pam.Bypass.{Approved}
use sentinel_cosmic.Pam.Bypass.Owner.{check_agent_bypass_iff}
use sentinel_cosmic.Pam.Helper.{run_child}
use sentinel_cosmic.Policy.{PolicyDecision}
use sentinel_cosmic.Verdict.{Outcome, is_allow, Verdict}
use sentinel_cosmic.Pam.Helper

-- The user allowed the request in the dialog.
abbrev pub Clicked : Env → Type 0
Clicked env = (v : Verdict) × (run_child env.child ≡ Helper.ok v) × (v.outcome ≡ Outcome.allow)

abbrev pub PolicyGrounds : Env → Context → PolicyDecision → Type 0
PolicyGrounds env c d =
    (d ≡ PolicyDecision.allow)
    ⊎ ((d ≡ PolicyDecision.ask) × ((is_remembered env c ≡ true) ⊎ Clicked env))

-- What lets a request through, once the agent has handed out no approval: the module is enabled, and
-- either there is no display and the configuration allows that, or the policy allows the program, or a
-- grant is live, or the user clicks Allow.
abbrev pub ConfigGrounds : Env → Context → Type 0
ConfigGrounds env c =
    (c.cfg.enabled ≡ true)
    × (((has_display env c ≡ false) × (c.cfg.headless_action ≡ HeadlessAction.allow))
        ⊎ ((has_display env c ≡ true) × PolicyGrounds env c (policy_decision c)))

ok_inj : {v w : Verdict} → Helper.ok v ≡ Helper.ok w → v ≡ w
ok_inj e = cc

refused :
    (w : Verdict)
    → (dialog_result (Helper.ok w)).0 ≡ pam_auth_err
    → w.outcome ≢ Outcome.allow
    → ((dialog_result (Helper.ok w)).0 ≡ pam_success)
      ↔ ((u : Verdict) × (Helper.ok w ≡ Helper.ok u) × (u.outcome ≡ Outcome.allow))
refused w e n = (
  λ h. absurd (cc (e, h)),
  λ h. absurd (n (ap (λ (x : Verdict). x.outcome) (ok_inj (h.1)) ∙ h.2)),
)

dialog_result_iff :
    (r : Helper.Result Verdict)
    → ((dialog_result r).0 ≡ pam_success)
      ↔ ((v : Verdict) × (r ≡ Helper.ok v) × (v.outcome ≡ Outcome.allow))
unfolding dialog_result is_allow
dialog_result_iff (Helper.err e) = (λ h. absurd (cc h), λ h. absurd (cc (h.1)))
dialog_result_iff (Helper.ok v) = by_outcome v v.outcome refl
  where
    by_outcome :
        (w : Verdict) (o : Outcome)
        → w.outcome ≡ o
        → ((dialog_result (Helper.ok w)).0 ≡ pam_success)
          ↔ ((u : Verdict) × (Helper.ok w ≡ Helper.ok u) × (u.outcome ≡ Outcome.allow))
    by_outcome w Outcome.allow e = (λ h. (w, refl, e), λ h. rw (e, dialog_result))
    by_outcome w Outcome.deny e = refused w (rw (e, dialog_result)) (λ a. cc (a, e))
    by_outcome w Outcome.timeout e = refused w (rw (e, dialog_result)) (λ a. cc (a, e))

ask_user_iff : (env : Env) (c : Context) → ((ask_user env c).result ≡ pam_success) ↔ Clicked env
unfolding ask_user
ask_user_iff env c = dialog_result_iff (run_child env.child)

remembered_iff :
    (env : Env) (c : Context) (b : Bool)
    → is_remembered env c ≡ b
    → ((by_policy env c PolicyDecision.ask).result ≡ pam_success)
      ↔ ((is_remembered env c ≡ true) ⊎ Clicked env)
unfolding by_policy
remembered_iff env c true e = (λ h. inl e, λ h. rw e)
remembered_iff env c false e =
    let asked = ask_user_iff env c in
    rw e (λ h. inr (asked.0 h), λ h. elim h [ inl t ↦ absurd (cc t) | inr a ↦ asked.1 a ])

by_policy_iff :
    (env : Env) (c : Context) (d : PolicyDecision)
    → ((by_policy env c d).result ≡ pam_success) ↔ PolicyGrounds env c d
unfolding by_policy
by_policy_iff env c PolicyDecision.allow = (λ h. inl refl, λ h. refl)
by_policy_iff env c PolicyDecision.deny =
    (λ h. absurd (cc h), λ h. elim h [ inl e ↦ absurd (cc e) | inr e ↦ absurd (cc (e.0)) ])
by_policy_iff env c PolicyDecision.ask =
    let same = remembered_iff env c (is_remembered env c) refl in
    (λ h. inr (refl, same.0 h), λ h. elim h [ inl e ↦ absurd (cc e) | inr e ↦ same.1 (e.1) ])

handle_headless_iff :
    (c : Context) (a : HeadlessAction)
    → ((handle_headless c a).result ≡ pam_success) ↔ (a ≡ HeadlessAction.allow)
unfolding handle_headless
handle_headless_iff c HeadlessAction.allow = (λ h. refl, λ h. refl)
handle_headless_iff c HeadlessAction.deny = (λ h. absurd (cc h), λ h. absurd (cc h))
handle_headless_iff c HeadlessAction.password = (λ h. absurd (cc h), λ h. absurd (cc h))

abbrev result_of : Run → PamResult
result_of r = r.result

abbrev with_display : Env → Context → Bool → Run
with_display env c b =
    if b then by_policy env c (policy_decision c) else handle_headless c c.cfg.headless_action

abbrev when_enabled : Env → Context → Bool → Run
when_enabled env c b =
    if not b then no_dialog pam_ignore [] else with_display env c (has_display env c)

displayed_iff :
    (env : Env) (c : Context) (b : Bool)
    → has_display env c ≡ b
    → ((with_display env c b).result ≡ pam_success) ↔ (
        ((has_display env c ≡ false) × (c.cfg.headless_action ≡ HeadlessAction.allow))
        ⊎ ((has_display env c ≡ true) × PolicyGrounds env c (policy_decision c)))
displayed_iff env c true e =
    let same = by_policy_iff env c (policy_decision c) in
    (λ h. inr (e, same.0 h), λ h. elim h [ inl a ↦ absurd (cc (a.0, e)) | inr a ↦ same.1 (a.1) ])
displayed_iff env c false e =
    let same = handle_headless_iff c c.cfg.headless_action in
    (λ h. inl (e, same.0 h), λ h. elim h [ inl a ↦ same.1 (a.1) | inr a ↦ absurd (cc (a.0, e)) ])

by_config_iff :
    (env : Env) (c : Context) → ((by_config env c).result ≡ pam_success) ↔ ConfigGrounds env c
unfolding by_config
by_config_iff env c = elim (Bool-cases c.cfg.enabled) [
  | inl on ↦
      let same = displayed_iff env c (has_display env c) refl in
      let reached : (by_config env c).result ≡ (with_display env c (has_display env c)).result =
        ap (λ b. result_of (when_enabled env c b)) on in
      (λ h. (on, same.0 (sym reached ∙ h)), λ h. reached ∙ same.1 (h.1))
  | inr off ↦
      let stopped : (by_config env c).result ≡ pam_ignore =
        ap (λ b. result_of (when_enabled env c b)) off in
      (λ h. absurd (cc (stopped, h)), λ h. absurd (cc (h.0, off)))
]

-- The PAM module answers SUCCESS exactly when one of these holds: the agent that owns the bus name, and
-- that runs as the user being authenticated, hands out an approval; or it hands out none, the
-- module is enabled for the service, and either there is no display and the administrator configured
-- `allow` for that, or there is one and the policy allows the program, or the policy is silent and a
-- grant is live at the broker or the user clicks Allow in the dialog.
pub sm_authenticate_success :
    (env : Env)
    → ((sm_authenticate env).result ≡ pam_success)
      ↔ (Approved env.bus ⊎ ((¬ Approved env.bus) × ConfigGrounds env (context_of env)))
unfolding sm_authenticate
sm_authenticate_success env =
    let same = by_config_iff env (context_of env) in
    elim (check_agent_bypass_iff env.bus) [
      | inl (e, n) ↦
          (let reached : (sm_authenticate env).result ≡ (by_config env (context_of env)).result =
              ap (λ o. result_of (by_bypass env o)) e in
            (
              λ h. inr (n, same.0 (sym reached ∙ h)),
              λ h. elim h [ inl a ↦ absurd (n a) | inr g ↦ reached ∙ same.1 (g.1) ],
            ))
      | inr (e, a) ↦ (λ h. inl a, λ h. ap (λ o. result_of (by_bypass env o)) e)
    ]
