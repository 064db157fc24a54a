-- ===== src/Agent/Registration.antt =====
-- crates/sentinel-polkit-agent/src/main.rs: registering with polkit, and src/subject.rs: the session.
pub mod Retry
pub mod Lifetime
pub mod Tests
use sentinel_cosmic.Agent.Begin.{detail}
use sentinel_cosmic.Common.{
  some, ℕ, zero, ◌>>=◌, Bool, false, [], ◌&&◌, Option, suc, if◌then◌else◌, ◌||◌, reverse, ◌∷◌,
  is_some, or_else, none,
}
use sentinel_cosmic.Text.{trim, Text, codes, text_eq, strip_prefix, is_empty}

-- What polkit answers to an attempt: a method error carries its name and perhaps a detail.
pub data Attempted : Type 0 where
  accepted : Attempted
  method_error : Text → Option Text → Attempted
  other_error : Attempted

abbrev pub register_retries : ℕ
register_retries = 8

-- Whether a text ends with another, and whether it contains one.
unfoldable pub ends_with : Text → Text → Bool
unfolding strip_prefix
ends_with s p = is_some (strip_prefix (reverse s) (reverse p))

unfoldable pub has_infix : Text → Text → Bool
unfolding strip_prefix
has_infix [] p = is_some (strip_prefix [] p)
has_infix (c ∷ s) p = is_some (strip_prefix (c ∷ s) p) || has_infix s p

-- `is_agent_already_registered`.
unfoldable pub is_agent_already_registered : Attempted → Bool
unfolding ends_with has_infix
is_agent_already_registered accepted = false
is_agent_already_registered (method_error name none) = false
is_agent_already_registered (method_error name (some detail)) =
    ends_with name (codes ".Error.Failed") && has_infix detail (codes "already exists")
is_agent_already_registered other_error = false

pub data Registration : Type 0 where
  registered : Registration
  not_registered : Registration

-- The loop, over the answers that polkit would give to each attempt, and how often it backs off.
unfoldable pub register : ℕ → (ℕ → Attempted) → Registration × ℕ
unfolding is_agent_already_registered
register zero answers = (not_registered, 0)
register (suc n) answers =
    let rest = register n (λ k. answers (suc k)) in
    elim (answers 0) [
      | accepted ↦ (registered, 0)
      | method_error name detail ↦
          if is_agent_already_registered (method_error name detail)
          then (rest.0, suc rest.1)
          else (not_registered, 0)
      | other_error ↦ (not_registered, 0)
    ]

-- `resolve_session_id`, from the option, XDG_SESSION_ID and /proc/self/sessionid.
unfoldable pub resolve_session_id : Option Text → Option Text → Option Text → Option Text
unfolding trim text_eq
resolve_session_id override xdg file = or_else override (
    or_else (xdg >>= λ s. if is_empty s then none else some s) (
      file >>= λ contents.
      let s = trim contents in
      if is_empty s || text_eq s (codes "4294967295") then none else some s))
