-- ===== src/Agent.antt =====
-- crates/sentinel-polkit-agent: the polkit agent of the user's session.
pub mod Queue
pub mod Cache
pub mod HelperUi
pub mod Helper1
pub mod Identity
pub mod Session
pub mod Begin
pub mod Registration
pub mod Flow
pub mod Tests
