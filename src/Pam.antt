-- ===== src/Pam.antt =====
-- crates/pam-sentinel: the PAM module, which runs as root inside sudo, su and polkit's helper.
pub mod ProcessInfo
pub mod BrokerClient
pub mod Bypass
pub mod Display
pub mod Locale
pub mod Utf8
pub mod Helper
pub mod Authenticate
pub mod Tests

pub data PamResult : Type 0 where
  pam_success : PamResult
  pam_auth_err : PamResult
  pam_ignore : PamResult
