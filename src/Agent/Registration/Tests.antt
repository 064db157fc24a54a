-- ===== src/Agent/Registration/Tests.antt =====
-- Tests of the registration, and its theorem at concrete answers.
use sentinel_cosmic.Agent.Registration.{
  other_error, registered, resolve_session_id, register_retries, accepted, Attempted,
  not_registered, method_error, register,
}
use sentinel_cosmic.Agent.Registration.Lifetime.{
  installs_sigterm, IsRegistering, ready_calls, unregisters, installs_sigint, Surroundings,
  run_agent,
}
use sentinel_cosmic.Agent.Registration.Retry.{Wins, register_iff}
use sentinel_cosmic.Common.{
  some, [], suc, ◌≡◌, ℕ, ◌↔◌, refl, none, zero, ◌∷◌, inl, Any, inr, ◌++◌, true,
}
use sentinel_cosmic.Text.{codes}

abbrev busy : Attempted
busy =
    method_error (codes "org.freedesktop.PolicyKit1.Error.Failed")
      (some (codes "An agent already exists for the given subject"))

abbrev answers : ℕ → Attempted
answers zero = busy
answers (suc zero) = busy
answers (suc (suc k)) = accepted

third_time : register register_retries answers ≡ (registered, 2)
unfolding register
third_time = refl

no_bus : register register_retries (λ k. other_error) ≡ (not_registered, 0)
unfolding register
no_bus = refl

register_iff_example : ((register 8 answers).0 ≡ registered) ↔ Wins 8 answers
register_iff_example = register_iff 8 answers

from_file : resolve_session_id none (some []) (some (codes "3\n")) ≡ some (codes "3")
unfolding resolve_session_id
from_file = refl

abbrev plain_session : Surroundings
plain_session = record {
  bus = true;
  session_option = none;
  xdg_session_id = some (codes "3");
  proc_session_id = none;
  agent_published = true;
  bypass_published = true;
  name_claimed = true;
  proxy_built = true;
  answers = answers;
  sigterm_installed = true;
  sigint_installed = true;
}

whole_life :
    run_agent plain_session
    ≡ (ready_calls ++ (installs_sigterm ∷ installs_sigint ∷ unregisters ∷ []), true)
unfolding run_agent register
whole_life = refl

registers_at_last : Any IsRegistering (run_agent plain_session).0
unfolding run_agent register
registers_at_last = inr (inr (inr (inr (inr (inl tt)))))
