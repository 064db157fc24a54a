-- ===== src/Agent/Session/Consent.antt =====
-- What it takes to authenticate: the cases of a run, and what each leaves behind.
use sentinel_cosmic.Agent.Helper1.{run_helper1}
use sentinel_cosmic.Agent.HelperUi.{run_helper}
use sentinel_cosmic.Agent.Session.{
  ok, Result, hand_off, after_outcome, Env, State, request_of, record_tick, log_event,
  is_remembered, after_dialog, notify, AuthInputs, after_policy, run_dialog, run,
}
use sentinel_cosmic.Agent.Session.HandOff.{hand_off-true}
use sentinel_cosmic.Common.{
  ◌∙◌, some, refl, true, ◌≢◌, ◌⊎◌, ◌≡◌, Bool, inl, false, arith, ap, inr, ◌↔◌, sym, if◌then◌else◌,
}
use sentinel_cosmic.Grants.Map.{kept}
use sentinel_cosmic.Policy.{PolicyDecision, decide}
use sentinel_cosmic.Text.{Text, codes}
use sentinel_cosmic.Verdict.{Outcome, Verdict}
use sentinel_cosmic.Agent.HelperUi
use sentinel_cosmic.Agent.Helper1

abbrev pub decision : AuthInputs → PolicyDecision
decision i = decide i.cfg.policy i.process_exe (some i.action_id)

abbrev pub verdict_of : Env → AuthInputs → HelperUi.Result Verdict
verdict_of env i = run_helper env.canned_dialog env.dialog (request_of i)

-- Somebody agreed: the administrator in the policy, or the user, earlier or now.
abbrev pub Consented : Env → AuthInputs → State → Type 0
Consented env i s =
    (decision i ≡ PolicyDecision.allow)
    ⊎ (((decision i ≡ PolicyDecision.ask) × (is_remembered env i s ≡ true))
        ⊎ ((v : Verdict) × (decision i ≡ PolicyDecision.ask)
            × (verdict_of env i ≡ HelperUi.ok v)
            × (v.outcome ≡ Outcome.allow)))

-- A run that hands nothing off.
abbrev pub Kept : State → State × Result → Type 0
Kept s r = (r.0.queue ≡ s.queue) × (r.0.cache ≡ s.cache) × (r.1 ≢ ok true)

-- A run that hands off.
abbrev pub HandsOff : Env → AuthInputs → State → State × Result → Type 0
HandsOff env i s r =
    (warns : Bool) × (s' : State) × (s'.queue ≡ s.queue) × (r ≡ hand_off warns env i s')

abbrev pub Shape : Env → AuthInputs → State → Type 0 → State × Result → Type 0
Shape env i s c r = ((¬ c) × Kept s r) ⊎ (c × HandsOff env i s r)

log_keeps :
    (event source : Text) (i : AuthInputs) (s : State)
    → ((log_event event source i s).queue ≡ s.queue)
      × ((log_event event source i s).cache ≡ s.cache)
unfolding log_event
log_keeps event source i s = (refl, refl)

notify_keeps :
    (wanted : Bool) (summary body : Text) (s : State)
    → ((notify wanted summary body s).queue ≡ s.queue)
      × ((notify wanted summary body s).cache ≡ s.cache)
unfolding notify
notify_keeps true summary body s = (refl, refl)
notify_keeps false summary body s = (refl, refl)

record_tick_queue :
    (env : Env) (i : AuthInputs) (b : Bool) (s : State) → (record_tick env i b s).queue ≡ s.queue
unfolding record_tick
record_tick_queue env i b s = ground arith

refused_keeps :
    (wanted : Bool) (summary body event source : Text) (i : AuthInputs) (s : State)
    → Kept s (notify wanted summary body (log_event event source i s), ok false)
refused_keeps wanted summary body event source i s =
    let (nq, nc) = notify_keeps wanted summary body (log_event event source i s) in
    let (lq, lc) = log_keeps event source i s in (nq ∙ lq, nc ∙ lc, λ e. cc)

outcome_Shape :
    (env : Env) (i : AuthInputs) (s : State) (ticked : Bool) (o : Outcome)
    → Shape env i s (o ≡ Outcome.allow) (after_outcome env i s ticked o)
unfolding after_outcome
outcome_Shape env i s ticked Outcome.allow =
    let logged = log_event (codes "auth.allow") (codes "agent") i s in
    inr (refl, (true, record_tick env i ticked logged, same_queue logged, refl))
  where
    same_queue : (logged : State) → (record_tick env i ticked logged).queue ≡ logged.queue
    same_queue logged = record_tick_queue env i ticked logged
outcome_Shape env i s ticked Outcome.deny = inl (λ e. cc, refused_keeps _ _ _ _ _ i s)
outcome_Shape env i s ticked Outcome.timeout = inl (λ e. cc, refused_keeps _ _ _ _ _ i s)

abbrev Agreed : HelperUi.Result Verdict → Type 0
Agreed r = (v : Verdict) × (r ≡ HelperUi.ok v) × (v.outcome ≡ Outcome.allow)

pub ok_inj : {v w : Verdict} → HelperUi.ok v ≡ HelperUi.ok w → v ≡ w
ok_inj e = cc

dialog_Shape :
    (env : Env) (i : AuthInputs) (s : State) (r : HelperUi.Result Verdict)
    → Shape env i s (Agreed r) (after_dialog env i s r)
unfolding after_dialog
dialog_Shape env i s (HelperUi.err e) = inl (λ a. cc (a.1), (refl, refl, λ h. cc))
dialog_Shape env i s (HelperUi.ok v) = elim (outcome_Shape env i s v.remember v.outcome) [
  | inl (n, kept) ↦ inl (λ a. n (ap (λ (w : Verdict). w.outcome) (ok_inj (a.1)) ∙ a.2), kept)
  | inr (a, off) ↦ inr ((v, refl, a), off)
]

remembered_Shape :
    (env : Env) (i : AuthInputs) (s : State) (b : Bool)
    → is_remembered env i s ≡ b
    → Shape env i s ((is_remembered env i s ≡ true) ⊎ Agreed (verdict_of env i)) (
        if b
        then hand_off false env i (log_event (codes "auth.allow") (codes "remember") i s)
        else run_dialog env i s)
unfolding run_dialog
remembered_Shape env i s true e = inr (
  inl e,
  (
    false,
    log_event (codes "auth.allow") (codes "remember") i s,
    (log_keeps (codes "auth.allow") (codes "remember") i s).0,
    refl,
  ),
)
remembered_Shape env i s false e = elim (dialog_Shape env i s (verdict_of env i)) [
  | inl (n, kept) ↦ inl (λ c. elim c [ inl t ↦ cc (t, e) | inr a ↦ n a ], kept)
  | inr (a, off) ↦ inr (inr a, off)
]

abbrev PolicyAgrees : Env → AuthInputs → State → PolicyDecision → Type 0
PolicyAgrees env i s d =
    (d ≡ PolicyDecision.allow)
    ⊎ ((d ≡ PolicyDecision.ask) × ((is_remembered env i s ≡ true) ⊎ Agreed (verdict_of env i)))

policy_Shape :
    (env : Env) (i : AuthInputs) (s : State) (d : PolicyDecision)
    → Shape env i s (PolicyAgrees env i s d) (after_policy env i s d)
unfolding after_policy
policy_Shape env i s PolicyDecision.deny =
    inl (λ c. elim c [ inl e ↦ cc | inr e ↦ cc (e.0) ], refused_keeps _ _ _ _ _ i s)
policy_Shape env i s PolicyDecision.allow = inr (
  inl refl,
  (
    true,
    log_event (codes "auth.allow") (codes "policy") i s,
    (log_keeps (codes "auth.allow") (codes "policy") i s).0,
    refl,
  ),
)
policy_Shape env i s PolicyDecision.ask =
    elim (remembered_Shape env i s (is_remembered env i s) refl) [
      | inl (n, kept) ↦ inl (λ c. elim c [ inl e ↦ cc | inr a ↦ n (a.1) ], kept)
      | inr (c, off) ↦ inr (inr (refl, c), off)
    ]

consenting :
    (env : Env) (i : AuthInputs) (s : State) → PolicyAgrees env i s (decision i) ↔ Consented env i s
consenting env i s = (
  λ c. elim c [
    | inl e ↦ inl e
    | inr (a, inl t) ↦ inr (inl (a, t))
    | inr (a, inr (v, e, o)) ↦ inr (inr (v, a, e, o))
  ],
  λ c. elim c [
    | inl e ↦ inl e
    | inr (inl (a, t)) ↦ inr (a, inl t)
    | inr (inr (v, a, e, o)) ↦ inr (a, inr (v, e, o))
  ],
)

pub run-Shape :
    (env : Env) (i : AuthInputs) (s : State) → Shape env i s (Consented env i s) (run env i s)
unfolding run
run-Shape env i s =
    let same = consenting env i s in
    elim (policy_Shape env i s (decision i)) [
      | inl (n, kept) ↦ inl (λ c. n (same.1 c), kept)
      | inr (c, off) ↦ inr (same.0 c, off)
    ]

-- Whoever is authenticated was agreed to: a run returns true only if the policy allows the request,
-- or a live grant covers it, or the user allowed it in the dialog, and helper-1 then said SUCCESS.
pub run_success :
    (env : Env) (i : AuthInputs) (s : State)
    → (run env i s).1 ≡ ok true
    → Consented env i s × (run_helper1 env.canned_helper1 env.helper1 ≡ Helper1.ok true)
run_success env i s h = elim (run-Shape env i s) [
  | inl (n, (q, c, no_success)) ↦ absurd (no_success h)
  | inr (c, (warns, s', q, e)) ↦
      (c, hand_off-true warns env i s' (ap (λ (r : State × Result). r.1) (sym e) ∙ h))
]

-- Without consent nothing is let through: a run that the policy denies, or that is neither allowed by
-- the policy, covered by a live grant nor allowed in the dialog, queues no approval, records no
-- grant, and does not return true.
pub run_without_consent :
    (env : Env) (i : AuthInputs) (s : State)
    → ¬ Consented env i s
    → ((run env i s).0.queue ≡ s.queue)
      × ((run env i s).0.cache ≡ s.cache)
      × ((run env i s).1 ≢ ok true)
run_without_consent env i s n = elim (run-Shape env i s) [
  | inl (m, kept) ↦ kept
  | inr (c, off) ↦ absurd (n c)
]
