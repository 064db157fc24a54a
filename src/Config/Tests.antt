-- ===== src/Config/Tests.antt =====
-- Tests of the configuration.
use sentinel_cosmic.Common.{some, none, refl, ◌≡◌, ◌∷◌, []}
use sentinel_cosmic.Config.{Document, for_service, defaults, ServiceOverride}
use sentinel_cosmic.Config.Load.{ReadResult, not_found}
use sentinel_cosmic.Text.{codes, Text}

no_override : ServiceOverride
no_override = record {
  enabled = none;
  timeout = none;
  randomize = none;
  remember_seconds = none;
  remember_scope = none;
}

abbrev opted_in : Document
opted_in = record defaults {
  services =
      (
        codes "sudo",
        record {
          enabled = none;
          timeout = some 9;
          randomize = none;
          remember_seconds = some 60;
          remember_scope = none;
        },
      )
      ∷ [];
}

sudo_timeout : (for_service opted_in (codes "sudo")).timeout ≡ 9
unfolding for_service
sudo_timeout = refl

su_is_off : (for_service opted_in (codes "su")).remember_seconds ≡ 0
unfolding for_service
su_is_off = refl

abbrev no_file : Text → ReadResult
no_file path = not_found
