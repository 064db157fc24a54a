-- ===== src/Logind/Told.antt =====
-- What there is to tell of a process's session, said of systemd's files and not of the code that reads them.
use sentinel_cosmic.Common.{
  arith, Bool-cases, refl, ◌⊎◌, inr, true, ◌≡◌, ℕ, none, ◌++◌, ◌∷◌, sym, ◌≤◌, List, All,
  Option-cases, ◌≢◌, [], ap, if◌then◌else◌, inl, ◌==◌, false, map_option, some, ◌∙◌, or_else,
  Option, ◌||◌, ◌↔◌, retain, all, subst,
}
use sentinel_cosmic.I18n.{lookup}
use sentinel_cosmic.Logind.{
  digit, kept_line, info_of, is_safe_session_id, session_of_pid, session_info,
  logfmt_session_for_pid, collect_kv, parse_kv,
}
use sentinel_cosmic.Logind.Fields.{read_fields-logfmt, read_fields, fields_of, field_of}
use sentinel_cosmic.Procfs.{read_environ_var, Proc}
use sentinel_cosmic.Text.{
  lines, text_eq, Text, strip_prefix, is_ascii_alphanumeric, split_once, utf8_len, codes,
}

-- The value of the last line that begins with a key and an equals sign.
abbrev pub last_value : Text → List Text → Option Text
last_value key [] = none
last_value key (l ∷ ls) = or_else (last_value key ls) (strip_prefix l (key ++ (b'=' ∷ [])))

-- What can be the name of a session's file: it stays in the directory of sessions.
abbrev pub IsSafe : Text → Type 0
IsSafe id =
    (id ≢ []) × (utf8_len id ≤ 16) × All (λ c. (is_ascii_alphanumeric c ≡ true) ⊎ (c ≡ b'-')) id

-- The fields of a session's file.
abbrev pub file_fields : Text → List (Text × Text)
file_fields raw = field_of (codes "session_type") (last_value (codes "TYPE") (lines raw)) (
    field_of (codes "session_class") (last_value (codes "CLASS") (lines raw)) (
      field_of (codes "session_remote")
        (map_option (λ v. digit (text_eq v (codes "1"))) (last_value (codes "REMOTE") (lines raw)))
        []))

-- The fields that are due for a process: those of the file of the session that its environment names, where
-- that is a safe name and there is such a file, and none elsewhere.
pub data Told (proc : Proc) (files : Text → Option Text) (pid : ℕ)
    : List (Text × Text) → Type 0 where
  unnamed : read_environ_var proc pid (codes "XDG_SESSION_ID") ≡ none → Told proc files pid []
  unsafe :
      (id : Text)
      → read_environ_var proc pid (codes "XDG_SESSION_ID") ≡ some id
      → ¬ IsSafe id
      → Told proc files pid []
  absent :
      (id : Text)
      → read_environ_var proc pid (codes "XDG_SESSION_ID") ≡ some id
      → files (codes "/run/systemd/sessions/" ++ id) ≡ none
      → Told proc files pid []
  found :
      (id raw : Text)
      → read_environ_var proc pid (codes "XDG_SESSION_ID") ≡ some id
      → IsSafe id
      → files (codes "/run/systemd/sessions/" ++ id) ≡ some raw
      → Told proc files pid (file_fields raw)

-- The value of a line that `split_once` has split, if it has the key.
abbrev keyed : Text → Option (Text × Text) → Option Text
keyed key none = none
keyed key (some kv) = if text_eq kv.0 key then some kv.1 else none

abbrev Keyless : Text → Type 0
Keyless = All (λ c. (c == b'=') ≡ false)

keyed-split_once :
    (key l : Text)
    → Keyless key
    → keyed key (split_once l b'=') ≡ strip_prefix l (key ++ (b'=' ∷ []))
unfolding split_once strip_prefix text_eq
keyed-split_once [] [] h = refl
keyed-split_once (d ∷ key) [] h = refl
keyed-split_once [] (c ∷ l) h = elim (Bool-cases (c == b'=')) [
  | inl e ↦ rw e refl
  | inr e ↦ elim (Option-cases (split_once l b'=')) [
    | inl n ↦ rw (e, n) refl
    | inr (kv, s) ↦ rw (e, s) refl
  ]
]
keyed-split_once (d ∷ key) (c ∷ l) (k, h) = elim (Bool-cases (c == b'=')) [
  | inl e ↦ let other : (c == d) ≡ false = ground (arith, e, k) in rw (e, other) refl
  | inr e ↦
      let rest = keyed-split_once key l h in
      elim (Option-cases (split_once l b'=')) [
        | inl n ↦ elim (Bool-cases (c == d)) [
          | inl q ↦ rw (e, n, q) (ap (keyed key) (sym n) ∙ rest)
          | inr q ↦ rw (e, n, q) refl
        ]
        | inr (kv, s) ↦ elim (Bool-cases (c == d)) [
          | inl q ↦ rw (e, s, q) (ap (keyed key) (sym s) ∙ rest)
          | inr q ↦ rw (e, s, q) refl
        ]
      ]
]

-- A key that the code asks for: no equals sign in it, and no comment's first character.
abbrev IsKey : Text → Type 0
IsKey [] = ⊥
IsKey (c ∷ s) = ((c == b'#') ≡ false) × Keyless (c ∷ s)

IsKey-Keyless : (key : Text) → IsKey key → Keyless key
IsKey-Keyless [] k = absurd k
IsKey-Keyless (c ∷ s) (n, k) = k

-- A line that is passed over holds no value of a key.
dropped_line :
    (key l : Text) → IsKey key → kept_line l ≡ false → strip_prefix l (key ++ (b'=' ∷ [])) ≡ none
unfolding strip_prefix
dropped_line [] l k h = absurd k
dropped_line (d ∷ key) [] k h = refl
dropped_line (d ∷ key) (c ∷ l) (n, k) h =
    let other : (c == d) ≡ false = ground (arith, n, h) in rw other refl

or_else-none : (o : Option Text) → or_else o none ≡ o
or_else-none none = refl
or_else-none (some v) = refl

or_else_assoc : (o p q : Option Text) → or_else (or_else o p) q ≡ or_else o (or_else p q)
or_else_assoc none p q = refl
or_else_assoc (some v) p q = refl

or_keyed :
    (key : Text) (kv : Text × Text) (o : Option Text)
    → or_else (keyed key (some kv)) o ≡ (if text_eq kv.0 key then some kv.1 else o)
or_keyed key kv o = elim (Bool-cases (text_eq kv.0 key)) [ inl e ↦ rw e refl | inr e ↦ rw e refl ]

collect_unsplit :
    (l : Text) (r : List Text) (m : List (Text × Text))
    → split_once l b'=' ≡ none
    → collect_kv (l ∷ r) m ≡ collect_kv r m
unfolding collect_kv
collect_unsplit l r m n = rw (collect_kv, n) refl

collect_split :
    (l : Text) (kv : Text × Text) (r : List Text) (m : List (Text × Text))
    → split_once l b'=' ≡ some kv
    → collect_kv (l ∷ r) m ≡ collect_kv r (kv ∷ m)
unfolding collect_kv
collect_split l kv r m s = rw (collect_kv, s) refl

-- What the map holds under a key is the value of the last line that has it.
lookup-collect_kv :
    (key : Text) (ls : List Text) (m : List (Text × Text))
    → IsKey key
    → lookup (collect_kv (retain kept_line ls) m) key ≡ or_else (last_value key ls) (lookup m key)
unfolding collect_kv lookup
lookup-collect_kv key [] m k = refl
lookup-collect_kv key (l ∷ ls) m k =
    let same = keyed-split_once key l (IsKey-Keyless key k) in
    let passed : strip_prefix l (key ++ (b'=' ∷ [])) ≡ none
        → or_else (last_value key ls) (lookup m key)
          ≡ or_else (or_else (last_value key ls) (strip_prefix l (key ++ (b'=' ∷ []))))
              (lookup m key) =
      λ n.
        ap (λ o. or_else o (lookup m key))
          (sym (ap (or_else (last_value key ls)) n ∙ or_else-none (last_value key ls))) in
    elim (Bool-cases (kept_line l)) [
      | inr e ↦ rw e (lookup-collect_kv key ls m k ∙ passed (dropped_line key l k e))
      | inl e ↦ elim (Option-cases (split_once l b'=')) [
        | inl n ↦ rw e (
            ap (λ (k : List (Text × Text)). lookup k key)
              (collect_unsplit l (retain kept_line ls) m n)
            ∙ lookup-collect_kv key ls m k
            ∙ passed (sym same ∙ ap (keyed key) n))
        | inr (kv, s) ↦ rw e (
            ap (λ (k : List (Text × Text)). lookup k key)
              (collect_split l kv (retain kept_line ls) m s)
            ∙ lookup-collect_kv key ls (kv ∷ m) k
            ∙ ap (or_else (last_value key ls)) (sym (or_keyed key kv (lookup m key)))
            ∙ sym (or_else_assoc (last_value key ls) (keyed key (some kv)) (lookup m key))
            ∙ ap (λ o. or_else (or_else (last_value key ls) o) (lookup m key))
                (ap (keyed key) (sym s) ∙ same))
      ]
    ]

lookup-parse_kv :
    (key raw : Text) → IsKey key → lookup (parse_kv raw) key ≡ last_value key (lines raw)
unfolding parse_kv lookup
lookup-parse_kv key raw k =
    lookup-collect_kv key (lines raw) [] k ∙ or_else-none (last_value key (lines raw))

digit_map :
    (o : Option Text)
    → map_option digit (map_option (λ v. text_eq v (codes "1")) o)
      ≡ map_option (λ v. digit (text_eq v (codes "1"))) o
digit_map none = refl
digit_map (some v) = refl

info_of-file_fields : (raw : Text) → fields_of (some (info_of (parse_kv raw))) ≡ file_fields raw
unfolding info_of
info_of-file_fields raw =
    rw
      (
        lookup-parse_kv (codes "TYPE") raw (refl, (refl, (refl, (refl, (refl, tt))))),
        lookup-parse_kv (codes "CLASS") raw (refl, (refl, (refl, (refl, (refl, (refl, tt)))))),
        lookup-parse_kv (codes "REMOTE") raw
            (refl, (refl, (refl, (refl, (refl, (refl, (refl, tt))))))),
        digit_map (last_value (codes "REMOTE") (lines raw)),
      )
      refl

all_safe_iff :
    (id : Text)
    → (all (λ c. is_ascii_alphanumeric c || c == b'-') id ≡ true)
      ↔ All (λ c. (is_ascii_alphanumeric c ≡ true) ⊎ (c ≡ b'-')) id
all_safe_iff [] = (λ h. tt, λ h. refl)
all_safe_iff (c ∷ id) = ground (arith, all_safe_iff id)

IsSafe-iff : (id : Text) → (is_safe_session_id id ≡ true) ↔ IsSafe id
unfolding is_safe_session_id
IsSafe-iff [] = (λ h. absurd (cc h), λ h. absurd (h.0 refl))
IsSafe-iff (c ∷ id) = (
  λ h. (λ e. cc e, ground (arith, h), (all_safe_iff (c ∷ id)).0 (ground (arith, h))),
  λ h. let a = (all_safe_iff (c ∷ id)).1 (h.2) in ground (arith, a, h.1),
)

session_of_pid-Told :
    (proc : Proc) (files : Text → Option Text) (pid : ℕ)
    → Told proc files pid (fields_of (session_of_pid proc files pid))
unfolding session_of_pid session_info
session_of_pid-Told proc files pid =
    elim (Option-cases (read_environ_var proc pid (codes "XDG_SESSION_ID"))) [
      | inl n ↦ rw n (unnamed n)
      | inr (id, e) ↦ elim (Bool-cases (is_safe_session_id id)) [
        | inr u ↦ rw (e, u) (unsafe id e (λ h. absurd (cc ((IsSafe-iff id).1 h, u))))
        | inl s ↦ elim (Option-cases (files (codes "/run/systemd/sessions/" ++ id))) [
          | inl n ↦ rw (e, s, n) (absent id e n)
          | inr (raw, r) ↦
              rw (e, s, r)
                (subst (Told proc files pid) (sym (info_of-file_fields raw))
                  (found id raw e ((IsSafe-iff id).0 s) r))
        ]
      ]
    ]

-- An audit line tells of the session exactly what systemd's file of it says: the part of the line that is
-- written for a process reads back, field by field, as the values of the last TYPE, CLASS and REMOTE lines
-- of the file of the session that the environment of the process names, in this order and each only where
-- there is such a line, with the remote flag as 1 or 0. It reads back as nothing if no session is named, if
-- its name is no safe file name, or if there is no such file.
pub logfmt_session_for_pid-Told :
    (proc : Proc) (files : Text → Option Text) (pid : ℕ)
    → (fs : List (Text × Text)) × (read_fields 4 (logfmt_session_for_pid proc files pid) ≡ some fs)
      × Told proc files pid fs
logfmt_session_for_pid-Told proc files pid = (
  fields_of (session_of_pid proc files pid),
  read_fields-logfmt proc files pid,
  session_of_pid-Told proc files pid,
)
