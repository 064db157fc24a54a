-- ===== src/Policy.antt =====
-- crates/sentinel-shared/src/lib.rs: `Policy`, the static allow and deny lists.
pub mod Decide
pub mod Tests
use sentinel_cosmic.Basename.{process_basename}
use sentinel_cosmic.Common.{false, if◌then◌else◌, some, none, Option, [], Bool, List, any, true}
use sentinel_cosmic.Text.{Text, text_eq, contains}

pub data PolicyDecision : Type 0 where
  allow : PolicyDecision
  deny : PolicyDecision
  ask : PolicyDecision

pub record Policy : Type 0 where
  pub allow_list : List Text
  pub deny_list : List Text

abbrev pub empty_policy : Policy
empty_policy = record { allow_list = []; deny_list = [] }

-- `o == Some(entry)`.
abbrev pub is_some_eq : Option Text → Text → Bool
is_some_eq none t = false
is_some_eq (some s) t = text_eq s t

-- The closure of `list_matches` for one entry.
unfoldable pub entry_matches : Option Text → Option Text → Text → Bool
unfolding text_eq contains process_basename
entry_matches exe action entry = if is_some_eq action entry then true else elim exe [
  | none ↦ false
  | some path ↦
      if contains entry b'/' then text_eq entry path else is_some_eq (process_basename path) entry
]

unfoldable pub list_matches : List Text → Option Text → Option Text → Bool
unfolding entry_matches
list_matches list exe action = any (entry_matches exe action) list

unfoldable pub decide : Policy → Option Text → Option Text → PolicyDecision
unfolding list_matches
decide p exe action =
    if list_matches p.deny_list exe action
    then deny
    else if list_matches p.allow_list exe action
    then allow
    else ask
