-- ===== src/Pam/Bypass.antt =====
-- crates/pam-sentinel/src/agent_bypass.rs: asking the user's agent for an approval.
pub mod Owner
use sentinel_cosmic.Common.{
  Option, false, ◌≡◌, true, none, ◌>>=◌, Bool, or_else, some, ℕ, if◌then◌else◌, ◌==◌,
}
use sentinel_cosmic.Pam.{PamResult, pam_success}
use sentinel_cosmic.Text.{Text}
-- What PAM, the password database and the system bus answer; none where a call fails.
use sentinel_cosmic.Common.{
  some, Option, ℕ, if◌then◌else◌, Bool, ◌==◌, or_else, none, false, ◌≡◌, true, ◌>>=◌,
}
use sentinel_cosmic.Pam.{pam_success, PamResult}
use sentinel_cosmic.Text.{Text}

pub record Bus : Type 0 where
  pub pam_user : Option Text
  pub pam_user_item : Option Text
  pub uid_of_name : Text → Option ℕ
  pub connects : Bool
  pub owner_uid : Option ℕ
  pub proxy_built : Bool
  pub take_approval : Option Bool

unfoldable pub resolve_pam_user : Bus → Option Text
resolve_pam_user bus = or_else bus.pam_user bus.pam_user_item

-- `query_agent`: none where it fails.
unfoldable pub query_agent : Bus → ℕ → Option Bool
query_agent bus uid =
    if bus.connects
    then (bus.owner_uid >>= λ owner.
        if owner == uid then (if bus.proxy_built then bus.take_approval else none) else some false)
    else none

abbrev pub on_approval : Option Bool → Option PamResult
on_approval (some true) = some pam_success
on_approval (some false) = none
on_approval none = none

-- `check_agent_bypass`.
unfoldable pub check_agent_bypass : Bus → Option PamResult
unfolding resolve_pam_user query_agent
check_agent_bypass bus =
    resolve_pam_user bus
    >>= (λ user. bus.uid_of_name user >>= (λ uid. on_approval (query_agent bus uid)))

-- The agent of the user that is being authenticated handed out an approval.
abbrev pub Approved : Bus → Type 0
Approved bus =
    (user : Text) × (uid : ℕ) × (resolve_pam_user bus ≡ some user)
    × (bus.uid_of_name user ≡ some uid)
    × (bus.owner_uid ≡ some uid)
    × (bus.connects ≡ true)
    × (bus.proxy_built ≡ true)
    × (bus.take_approval ≡ some true)
