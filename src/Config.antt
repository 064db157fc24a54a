-- ===== src/Config.antt =====
-- crates/sentinel-shared/src/lib.rs: the configuration document and `Document::for_service`.
-- A document is what `toml::from_str` hands over; the parser is not modelled.
pub mod Service
pub mod Load
pub mod Tests
use sentinel_cosmic.Common.{
  false, some, unwrap_or, ℕ, none, true, Option, List, ◌∷◌, [], if◌then◌else◌, Bool,
}
use sentinel_cosmic.Policy.{Policy, empty_policy}
use sentinel_cosmic.Text.{codes, Text, text_eq}

pub data HeadlessAction : Type 0 where
  allow : HeadlessAction
  deny : HeadlessAction
  password : HeadlessAction

pub data RememberScope : Type 0 where
  command : RememberScope
  program : RememberScope

pub record General : Type 0 where
  pub enabled : Bool
  pub timeout : ℕ
  pub randomize_buttons : Bool
  pub headless_action : HeadlessAction
  pub show_process_info : Bool
  pub log_attempts : Bool
  pub min_display_time_ms : ℕ
  pub remember_seconds : ℕ
  pub remember_scope : RememberScope

pub record Appearance : Type 0 where
  pub title : Text
  pub message : Text
  pub secondary : Text

pub record Notifications : Type 0 where
  pub on_deny : Bool
  pub on_timeout : Bool

pub record ServiceOverride : Type 0 where
  pub enabled : Option Bool
  pub timeout : Option ℕ
  pub randomize : Option Bool
  pub remember_seconds : Option ℕ
  pub remember_scope : Option RememberScope

pub record Document : Type 0 where
  pub general : General
  pub appearance : Appearance
  pub sound_name : Text
  pub services : List (Text × ServiceOverride)
  pub policy : Policy
  pub notifications : Notifications

pub record ServiceConfig : Type 0 where
  pub enabled : Bool
  pub timeout : ℕ
  pub randomize_buttons : Bool
  pub headless_action : HeadlessAction
  pub show_process_info : Bool
  pub log_attempts : Bool
  pub min_display_time_ms : ℕ
  pub title : Text
  pub message : Text
  pub secondary : Text
  pub sound_name : Text
  pub policy : Policy
  pub notify_on_deny : Bool
  pub notify_on_timeout : Bool
  pub remember_seconds : ℕ
  pub remember_scope : RememberScope

abbrev pub default_timeout : ℕ
default_timeout = 30

abbrev pub default_min_display_time : ℕ
default_min_display_time = 500

abbrev pub default_remember_seconds : ℕ
default_remember_seconds = 300

-- `impl Default for General`.
abbrev pub default_general : General
default_general = record {
  enabled = true;
  timeout = default_timeout;
  randomize_buttons = true;
  headless_action = password;
  show_process_info = true;
  log_attempts = true;
  min_display_time_ms = default_min_display_time;
  remember_seconds = default_remember_seconds;
  remember_scope = command;
}

abbrev pub default_title : Text
default_title = codes "Authentication Required"

abbrev pub default_message : Text
default_message = codes "The application \"%p\" is requesting elevated privileges."

-- `impl Default for Appearance`.
abbrev pub default_appearance : Appearance
default_appearance = record { title = default_title; message = default_message; secondary = [] }

-- `Document::defaults`.
abbrev pub defaults : Document
defaults = record {
  general = default_general;
  appearance = default_appearance;
  sound_name = codes "dialog-warning";
  services = [];
  policy = empty_policy;
  notifications = record { on_deny = false; on_timeout = false };
}

abbrev pub polkit_pam_service : Text
polkit_pam_service = codes "polkit-1"

-- `services.get(service)`.
unfoldable pub get_service : List (Text × ServiceOverride) → Text → Option ServiceOverride
unfolding text_eq
get_service [] service = none
get_service ((name, over) ∷ rest) service =
    if text_eq name service then some over else get_service rest service

-- The configuration before the overrides of the service.
unfoldable pub base_config : Document → Text → ServiceConfig
unfolding text_eq
base_config doc service = record {
  enabled = doc.general.enabled;
  timeout = doc.general.timeout;
  randomize_buttons = doc.general.randomize_buttons;
  headless_action = doc.general.headless_action;
  show_process_info = doc.general.show_process_info;
  log_attempts = doc.general.log_attempts;
  min_display_time_ms = doc.general.min_display_time_ms;
  title = doc.appearance.title;
  message = doc.appearance.message;
  secondary = doc.appearance.secondary;
  sound_name = doc.sound_name;
  policy = doc.policy;
  notify_on_deny = doc.notifications.on_deny;
  notify_on_timeout = doc.notifications.on_timeout;
  remember_seconds = if text_eq service polkit_pam_service then doc.general.remember_seconds else 0;
  remember_scope = doc.general.remember_scope;
}

unfoldable pub apply_override : ServiceConfig → ServiceOverride → ServiceConfig
apply_override cfg over = record cfg {
  enabled = unwrap_or over.enabled cfg.enabled;
  timeout = unwrap_or over.timeout cfg.timeout;
  randomize_buttons = unwrap_or over.randomize cfg.randomize_buttons;
  remember_seconds = unwrap_or over.remember_seconds cfg.remember_seconds;
  remember_scope = unwrap_or over.remember_scope cfg.remember_scope;
}

unfoldable pub for_service : Document → Text → ServiceConfig
unfolding get_service base_config apply_override
for_service doc service = elim (get_service doc.services service) [
  | none ↦ base_config doc service
  | some over ↦ apply_override (base_config doc service) over
]
