-- ===== src/Config/Service.antt =====
-- The effective configuration of a service.
-- A remember window off the polkit service is what that service's own section asks for: without such
-- a setting it is 0, whatever `[general]` says.
use sentinel_cosmic.Common.{
  Bool-cases, unwrap_or, Option-cases, ℕ, ◌≢◌, ◌>>=◌, arith, ◌≡◌, inl, inr, Bool, refl, sym, ◌∙◌,
}
use sentinel_cosmic.Config.{
  Document, HeadlessAction, get_service, ServiceConfig, base_config, polkit_pam_service,
  for_service, apply_override,
}
use sentinel_cosmic.Policy.{Policy}
use sentinel_cosmic.Text.{Text, text_eq}
use sentinel_cosmic.Text.Equality.{text_eq_refl, text_eq_iff}

-- On every service other than polkit's the remember window is what that service's own section sets, and
-- nothing otherwise: the window of `[general]` does not reach it.
pub remember_seconds_terminal :
    (doc : Document) (service : Text)
    → service ≢ polkit_pam_service
    → (for_service doc service).remember_seconds
      ≡ unwrap_or (get_service doc.services service >>= λ o. o.remember_seconds) 0
unfolding for_service base_config apply_override
remember_seconds_terminal doc service n = elim (Bool-cases (text_eq service polkit_pam_service)) [
  | inl e ↦ absurd (n ((text_eq_iff _ _).0 e))
  | inr f ↦ elim (Option-cases (get_service doc.services service)) [
    | inl e ↦ ground (arith, e, f)
    | inr (o, e) ↦ ground (arith, e, f)
  ]
]

-- On the polkit service the window is that section's, and otherwise the one of `[general]`.
pub remember_seconds_polkit :
    (doc : Document)
    → (for_service doc polkit_pam_service).remember_seconds
      ≡ unwrap_or
          (get_service doc.services polkit_pam_service >>= λ o. o.remember_seconds)
          doc.general.remember_seconds
unfolding for_service base_config apply_override
remember_seconds_polkit doc = elim (Option-cases (get_service doc.services polkit_pam_service)) [
  | inl e ↦ ground (arith, e, text_eq_refl polkit_pam_service)
  | inr (o, e) ↦ ground (arith, e, text_eq_refl polkit_pam_service)
]

-- What every service has from the document, and no section can change.
abbrev pub shared_part : ServiceConfig → HeadlessAction × Bool × Bool × ℕ × Policy × Bool × Bool
shared_part c = (
  c.headless_action, c.show_process_info, c.log_attempts, c.min_display_time_ms, c.policy,
  c.notify_on_deny, c.notify_on_timeout,
)

shared_part_document :
    (doc : Document) (service : Text)
    → shared_part (for_service doc service) ≡ shared_part (base_config doc service)
unfolding for_service base_config apply_override
shared_part_document doc service = elim (Option-cases (get_service doc.services service)) [
  | inl e ↦ ground (arith, e)
  | inr (o, e) ↦ ground (arith, e)
]

base_shared :
    (doc : Document) (service other : Text)
    → shared_part (base_config doc service) ≡ shared_part (base_config doc other)
unfolding base_config
base_shared doc service other = refl

-- The headless action, the details switch, the logging switch, the minimum display time, the policy
-- and the notifications are the same for all services, whatever their sections hold.
pub shared_part_same :
    (doc : Document) (service other : Text)
    → shared_part (for_service doc service) ≡ shared_part (for_service doc other)
shared_part_same doc service other =
    shared_part_document doc service
    ∙ base_shared doc service other
    ∙ sym (shared_part_document doc other)
