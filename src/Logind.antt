-- ===== src/Logind.antt =====
-- crates/sentinel-shared/src/lib.rs, module `logind` and `logfmt_session_for_pid`: the login session of a
-- process, as systemd's files give it, and the part of an audit line that tells it.
pub mod Fields
pub mod Told
pub mod Tests
use sentinel_cosmic.Common.{
  ◌∷◌, ◌&&◌, ◌>>=◌, ℕ, not, ◌++◌, retain, ◌==◌, all, Option, ◌||◌, some, if◌then◌else◌, map_option,
  [], Bool, leb, List, none,
}
use sentinel_cosmic.I18n.{lookup}
use sentinel_cosmic.LogKv.{quote}
use sentinel_cosmic.Procfs.{Proc, read_environ_var}
use sentinel_cosmic.Text.{
  split_once, codes, is_empty, utf8_len, starts_with_char, is_ascii_alphanumeric, lines, text_eq,
  Text,
}

pub record SessionInfo : Type 0 where
  pub state : Option Text
  pub kind : Option Text
  pub class : Option Text
  pub remote : Option Bool
  pub tty : Option Text

unfoldable pub is_safe_session_id : Text → Bool
unfolding utf8_len is_ascii_alphanumeric
is_safe_session_id s =
    not (is_empty s) && (leb (utf8_len s) 16 && all (λ c. is_ascii_alphanumeric c || c == b'-') s)

-- `parse_kv`: the lines `key=value` but comments, the later of two lines with one key first.
abbrev pub kept_line : Text → Bool
kept_line l = not (starts_with_char l b'#') && not (is_empty l)

unfoldable pub collect_kv : List Text → List (Text × Text) → List (Text × Text)
unfolding split_once
collect_kv [] m = m
collect_kv (l ∷ ls) m = elim (split_once l b'=') [
  | none ↦ collect_kv ls m
  | some kv ↦ collect_kv ls (kv ∷ m)
]

unfoldable pub parse_kv : Text → List (Text × Text)
unfolding collect_kv lines
parse_kv s = collect_kv (retain kept_line (lines s)) []

unfoldable pub info_of : List (Text × Text) → SessionInfo
unfolding lookup text_eq
info_of kv = record {
  state = lookup kv (codes "STATE");
  kind = lookup kv (codes "TYPE");
  class = lookup kv (codes "CLASS");
  remote = map_option (λ v. text_eq v (codes "1")) (lookup kv (codes "REMOTE"));
  tty = lookup kv (codes "TTY");
}

-- `session_info`. The files, by their paths, are what the kernel shows.
unfoldable pub session_info : (Text → Option Text) → Text → Option SessionInfo
unfolding is_safe_session_id parse_kv info_of
session_info files id =
    if is_safe_session_id id
    then map_option (λ raw. info_of (parse_kv raw)) (files (codes "/run/systemd/sessions/" ++ id))
    else none

-- `write!(out, " key={}", …)`, where there is a value.
abbrev pub fragment : Text → Option Text → Text
fragment key none = []
fragment key (some v) = b' ' ∷ (key ++ (b'=' ∷ v))

abbrev pub digit : Bool → Text
digit b = if b then codes "1" else codes "0"

unfoldable pub logfmt_info : SessionInfo → Text
unfolding quote
logfmt_info i =
    fragment (codes "session_type") (map_option quote i.kind)
    ++ (fragment (codes "session_class") (map_option quote i.class)
        ++ fragment (codes "session_remote") (map_option digit i.remote))

-- The session that the environment of a process names.
unfoldable pub session_of_pid : Proc → (Text → Option Text) → ℕ → Option SessionInfo
unfolding read_environ_var session_info
session_of_pid proc files pid =
    read_environ_var proc pid (codes "XDG_SESSION_ID") >>= session_info files

abbrev pub logfmt_found : Option SessionInfo → Text
logfmt_found none = []
logfmt_found (some i) = logfmt_info i

unfoldable pub logfmt_session_for_pid : Proc → (Text → Option Text) → ℕ → Text
unfolding session_of_pid logfmt_info
logfmt_session_for_pid proc files pid = logfmt_found (session_of_pid proc files pid)
