-- ===== src/Agent/Registration/Lifetime.antt =====
-- crates/sentinel-polkit-agent/src/main.rs: `run`, the agent's life from the bus to the signal.
use sentinel_cosmic.Agent.Registration.{
  not_registered, register, Attempted, resolve_session_id, register_retries, Registration,
  registered,
}
use sentinel_cosmic.Common.{
  some, ◌∷◌, none, false, Any, Bool, inl, [], ◌≡◌, ℕ, ◌++◌, true, refl, List, inr, Option,
  if◌then◌else◌, ap, ◌∙◌,
}
use sentinel_cosmic.Text.{Text}

-- What the agent asks of the bus and of the system, in its order.
pub data StartCall : Type 0 where
  connects : StartCall
  publishes_agent : StartCall
  publishes_bypass : StartCall
  claims_name : StartCall
  builds_proxy : StartCall
  registers_agent : StartCall
  installs_sigterm : StartCall
  installs_sigint : StartCall
  unregisters : StartCall

-- Whether each succeeds, where the session id comes from, and what polkit answers to the registration.
pub record Surroundings : Type 0 where
  pub bus : Bool
  pub session_option : Option Text
  pub xdg_session_id : Option Text
  pub proc_session_id : Option Text
  pub agent_published : Bool
  pub bypass_published : Bool
  pub name_claimed : Bool
  pub proxy_built : Bool
  pub answers : ℕ → Attempted
  pub sigterm_installed : Bool
  pub sigint_installed : Bool

-- `….context(…)?`: an error ends `run`.
abbrev and_then : StartCall → Bool → List StartCall × Bool → List StartCall × Bool
and_then c true (cs, r) = (c ∷ cs, r)
and_then c false (cs, r) = (c ∷ [], false)

abbrev is_registered : Registration → Bool
is_registered registered = true
is_registered not_registered = false

-- Behind the registration: the handlers, a signal, and the farewell, whose error is only logged.
abbrev serve_until_signal : Surroundings → List StartCall × Bool
serve_until_signal e =
    and_then installs_sigterm e.sigterm_installed
      (and_then installs_sigint e.sigint_installed (unregisters ∷ [], true))

abbrev publish : Surroundings → Option Text → List StartCall × Bool
publish e none = ([], false)
publish e (some session) = and_then publishes_agent e.agent_published (
    and_then publishes_bypass e.bypass_published (
      and_then claims_name e.name_claimed (
        and_then builds_proxy e.proxy_built (
          and_then registers_agent (is_registered (register register_retries e.answers).0)
            (serve_until_signal e)))))

-- The calls of `run`, and whether it returns without an error.
unfoldable pub run_agent : Surroundings → List StartCall × Bool
unfolding resolve_session_id
run_agent e =
    and_then connects e.bus
      (publish e (resolve_session_id e.session_option e.xdg_session_id e.proc_session_id))

abbrev pub IsRegistering : StartCall → Type 0
IsRegistering registers_agent = Unit {0}
IsRegistering _ = ⊥

-- What stands before the registration.
abbrev pub ready_calls : List StartCall
ready_calls =
    connects ∷ publishes_agent ∷ publishes_bypass ∷ claims_name ∷ builds_proxy ∷ registers_agent
    ∷ []

-- The other calls come to the registration only if they succeed.
IsRegistering-behind :
    (c : StartCall) (good : Bool) (rest : List StartCall × Bool)
    → ¬ IsRegistering c
    → Any IsRegistering (and_then c good rest).0
    → (good ≡ true) × Any IsRegistering rest.0 × ((and_then c good rest).0 ≡ c ∷ rest.0)
IsRegistering-behind c true rest n (inl h) = absurd (n h)
IsRegistering-behind c true rest n (inr h) = (refl, h, refl)
IsRegistering-behind c false rest n (inl h) = absurd (n h)
IsRegistering-behind c false rest n (inr h) = absurd h

and_then_head :
    (c : StartCall) (good : Bool) (rest : List StartCall × Bool)
    → (and_then c good rest).0 ≡ c ∷ (if good then rest.0 else [])
and_then_head c true rest = refl
and_then_head c false rest = refl

-- Up to the registration, once the session is known.
published :
    (e : Surroundings) (o : Option Text)
    → Any IsRegistering (publish e o).0
    → (rest : List StartCall) × (session : Text) × (connects ∷ (publish e o).0
        ≡ ready_calls ++ rest)
      × (o ≡ some session)
      × (e.bypass_published ≡ true)
      × (e.name_claimed ≡ true)
published e none h = absurd h
published e (some session) h =
    let (a, h1, p) = IsRegistering-behind publishes_agent e.agent_published _ (λ q. q) h in
    let (b, h2, q) = IsRegistering-behind publishes_bypass e.bypass_published _ (λ q. q) h1 in
    let (c, h3, r) = IsRegistering-behind claims_name e.name_claimed _ (λ q. q) h2 in
    let (d, h4, t) = IsRegistering-behind builds_proxy e.proxy_built _ (λ q. q) h3 in
    let last =
      and_then_head registers_agent (is_registered (register register_retries e.answers).0)
        (serve_until_signal e) in
    (
      _,
      session,
      ap (◌∷◌ connects) (
          p
          ∙ ap (◌∷◌ publishes_agent) (
              q
              ∙ ap (◌∷◌ publishes_bypass)
                  (r ∙ ap (◌∷◌ claims_name) (t ∙ ap (◌∷◌ builds_proxy) last)))),
      refl,
      b,
      c,
    )

-- polkit is told of the agent only when it can be served. If the agent comes to register, then before that
-- it connected, found out its session, published the object that polkit calls and the service that
-- pam_sentinel asks, and claimed the service's name, in this order, each with success.
pub run_agent-ready :
    (e : Surroundings)
    → Any IsRegistering (run_agent e).0
    → (rest : List StartCall) × (session : Text) × ((run_agent e).0 ≡ ready_calls ++ rest)
      × (resolve_session_id e.session_option e.xdg_session_id e.proc_session_id ≡ some session)
      × (e.bypass_published ≡ true)
      × (e.name_claimed ≡ true)
unfolding run_agent
run_agent-ready e h =
    let (bus, behind, first) = IsRegistering-behind connects e.bus _ (λ q. q) h in
    let (rest, session, calls, found, bypass, name) =
      published e (resolve_session_id e.session_option e.xdg_session_id e.proc_session_id) behind in
    (rest, session, first ∙ calls, found, bypass, name)
