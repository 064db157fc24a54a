-- ===== src/Pam/Display.antt =====
-- crates/pam-sentinel/src/display.rs: is there a Wayland display for the user?
use sentinel_cosmic.Common.{
  Option, none, [], false, ℕ, if◌then◌else◌, is_some, unwrap_or, Bool, ◌==◌, List, ◌&&◌, ◌∷◌, some,
  not, ◌++◌, ◌>>=◌, true,
}
use sentinel_cosmic.Text.{split, text_eq, strip_prefix, codes, Text, is_empty}
use sentinel_cosmic.Text.Decimal.{to_string}
-- An entry of /run/user/<uid>: its name, if that is UTF-8, and whether it is a socket.
use sentinel_cosmic.Common.{
  some, Option, ◌++◌, ℕ, if◌then◌else◌, Bool, ◌==◌, not, ◌&&◌, none, ◌∷◌, is_some, false, [],
  unwrap_or, List, true, ◌>>=◌,
}
use sentinel_cosmic.Text.{text_eq, Text, strip_prefix, codes, is_empty}
use sentinel_cosmic.Text.Decimal.{to_string}

pub record Entry : Type 0 where
  pub name : Option Text
  pub is_socket : Bool

-- `Path::extension` of a file name that does not begin with a dot: what stands behind the last dot.
unfoldable pub extension : List Text → Option Text
extension [] = none
extension (p ∷ []) = none
extension (p ∷ q ∷ []) = some q
extension (p ∷ q ∷ r ∷ ps) = extension (q ∷ r ∷ ps)

abbrev pub is_lock : Option Text → Bool
is_lock none = false
is_lock (some e) = text_eq e (codes "lock")

-- The tests that an entry's name passes.
unfoldable pub is_display_name : Text → Bool
unfolding strip_prefix extension split text_eq
is_display_name s =
    is_some (strip_prefix s (codes "wayland-"))
    && not (is_lock (extension (split (λ c. c == b'.') s)))

-- The loop: the name of the first socket.
unfoldable pub find_display : List Entry → Option Text
unfolding is_display_name
find_display [] = none
find_display (e ∷ es) =
    let rest = find_display es in
    elim e.name [ none ↦ rest | some s ↦ if is_display_name s && e.is_socket then some s else rest ]

-- The two variables that the search may set.
pub record DisplayEnv : Type 0 where
  pub wayland_display : Option Text
  pub xdg_runtime_dir : Option Text

abbrev pub display_set : DisplayEnv → Bool
display_set env = elim env.wayland_display [ none ↦ false | some v ↦ not (is_empty v) ]

abbrev search : Text → DisplayEnv → Option Text → DisplayEnv × Bool
search runtime_dir env none = (env, false)
search runtime_dir env (some s) = (
  record {
    wayland_display = some s;
    xdg_runtime_dir = some (unwrap_or env.xdg_runtime_dir runtime_dir);
  },
  true,
)

-- `detect_for_user`. The directory's entries are none where it cannot be read.
unfoldable pub detect_for_user : DisplayEnv → Option (List Entry) → ℕ → DisplayEnv × Bool
unfolding find_display to_string
detect_for_user env entries uid =
    if display_set env
    then (env, true)
    else search (codes "/run/user/" ++ to_string uid) env (entries >>= find_display)
