-- ===== src/Logind/Fields.antt =====
-- A reader of the fields ` key=value` of an audit line, by which the session's part is judged.
use sentinel_cosmic.Common.{
  some, not, false, true, ℕ, zero, ◌∷◌, ◌>>=◌, all, [], suc, append_assoc, Bool, arith, none, ◌++◌,
  if◌then◌else◌, Option, refl, ◌==◌, ◌≡◌, map_option, List, Option-cases, inr, ap, inl, sym, ◌∙◌,
  append-nil, subst, Any, ◌⊎◌, ◌||◌,
}
use sentinel_cosmic.LogKv.{quote, is_special}
use sentinel_cosmic.LogKv.Reader.{read_value, Ends, read_value-quote}
use sentinel_cosmic.Logind.{
  SessionInfo, fragment, digit, logfmt_info, logfmt_found, logfmt_session_for_pid, session_of_pid,
  is_safe_session_id, session_info,
}
use sentinel_cosmic.Procfs.{Proc}
use sentinel_cosmic.Text.{split_once, Text, codes, is_whitespace, is_ascii_alphanumeric}

pub read_field : Text → Option (Text × Text × Text)
unfolding split_once
read_field [] = none
read_field (c ∷ s) =
    if c == b' '
    then (split_once s b'=' >>= (λ (kv : Text × Text).
        read_value kv.1 >>= (λ (vr : Text × Text). some (kv.0, vr.0, vr.1))))
    else none

pub read_fields : ℕ → Text → Option (List (Text × Text))
unfolding read_field
read_fields zero s = none
read_fields (suc n) [] = some []
read_fields (suc n) (c ∷ s) = read_field (c ∷ s) >>= λ (kvr : Text × Text × Text).
    map_option (λ fs. (kvr.0, kvr.1) ∷ fs) (read_fields n kvr.2)

abbrev pub field_of : Text → Option Text → List (Text × Text) → List (Text × Text)
field_of key none fs = fs
field_of key (some v) fs = (key, v) ∷ fs

-- What there is to tell of a session.
abbrev pub fields_of : Option SessionInfo → List (Text × Text)
fields_of none = []
fields_of (some i) = field_of (codes "session_type") i.kind (
    field_of (codes "session_class") i.class
      (field_of (codes "session_remote") (map_option digit i.remote) []))

quote-digit : (b : Bool) → quote (digit b) ≡ digit b
unfolding quote is_special
quote-digit true = refl
quote-digit false = refl

split_once_key :
    (key rest : Text)
    → all (λ c. not (c == b'=')) key ≡ true
    → split_once (key ++ (b'=' ∷ rest)) b'=' ≡ some (key, rest)
unfolding split_once
split_once_key [] rest h = refl
split_once_key (c ∷ key) rest h = ground (arith, h, split_once_key key rest)

read_field_value :
    (key v rest : Text)
    → all (λ c. not (c == b'=')) key ≡ true
    → Ends rest
    → read_field (b' ' ∷ (key ++ (b'=' ∷ (quote v ++ rest)))) ≡ some (key, v, rest)
unfolding read_field
read_field_value key v rest h e =
    rw (split_once_key key (quote v ++ rest) h) (rw (read_value-quote v rest e))

-- One more field in front of those that are read already.
read_fields_value :
    (n : ℕ) (key v rest : Text) (fs : List (Text × Text))
    → all (λ c. not (c == b'=')) key ≡ true
    → Ends rest
    → read_fields n rest ≡ some fs
    → read_fields (suc n) (fragment key (some (quote v)) ++ rest) ≡ some ((key, v) ∷ fs)
unfolding read_fields
read_fields_value n key v rest fs h e r =
    rw (append_assoc key (b'=' ∷ quote v) rest) (rw (read_field_value key v rest h e) (rw r))

abbrev and_more : ℕ → Option (Text × Text × Text) → Option (List (Text × Text))
and_more n o = o >>= λ (kvr : Text × Text × Text).
    map_option (λ (hs : List (Text × Text)). (kvr.0, kvr.1) ∷ hs) (read_fields n kvr.2)

read_fields_more :
    (n : ℕ) (s : Text) (fs : List (Text × Text))
    → read_fields n s ≡ some fs
    → read_fields (suc n) s ≡ some fs
unfolding read_fields
read_fields_more zero s fs r = cc
read_fields_more (suc n) [] fs r = r
read_fields_more (suc n) (c ∷ s) fs r = elim (Option-cases (read_field (c ∷ s))) [
  | inl e ↦ cc (ap (and_more n) (sym e) ∙ r)
  | inr (kvr, e) ↦ elim (Option-cases (read_fields n kvr.2)) [
    | inl g ↦ cc (ap (and_more n) (sym e) ∙ r, g)
    | inr (gs, g) ↦ rw e (
        ap (map_option (λ (hs : List (Text × Text)). (kvr.0, kvr.1) ∷ hs))
          (read_fields_more n kvr.2 gs g ∙ sym g)
        ∙ (ap (and_more n) (sym e) ∙ r))
  ]
]

read_fields_option :
    (n : ℕ) (key : Text) (o : Option Text) (rest : Text) (fs : List (Text × Text))
    → all (λ c. not (c == b'=')) key ≡ true
    → Ends rest
    → read_fields n rest ≡ some fs
    → read_fields (suc n) (fragment key (map_option quote o) ++ rest) ≡ some (field_of key o fs)
read_fields_option n key none rest fs h e r = read_fields_more n rest fs r
read_fields_option n key (some v) rest fs h e r = read_fields_value n key v rest fs h e r

quoted_digits : (o : Option Bool) → map_option digit o ≡ map_option quote (map_option digit o)
quoted_digits none = refl
quoted_digits (some b) = ap some (sym (quote-digit b))

fragment-Ends :
    (key : Text) (o : Option Text) (rest : Text) → Ends rest → Ends (fragment key o ++ rest)
unfolding is_whitespace
fragment-Ends key none rest e = e
fragment-Ends key (some v) rest e = refl

empty_line : read_fields 1 [] ≡ some []
unfolding read_fields
empty_line = refl

read_fields-logfmt_info :
    (i : SessionInfo) → read_fields 4 (logfmt_info i) ≡ some (fields_of (some i))
unfolding logfmt_info
read_fields-logfmt_info i =
    let remote = fragment (codes "session_remote") (map_option digit i.remote) in
    let last : read_fields 2 remote
        ≡ some (field_of (codes "session_remote") (map_option digit i.remote) []) =
      ap (λ (o : Option Text). read_fields 2 (fragment (codes "session_remote") o))
        (quoted_digits i.remote)
      ∙ ap (read_fields 2) (sym (append-nil _))
      ∙ read_fields_option 1 (codes "session_remote") (map_option digit i.remote) [] [] refl tt
          empty_line in
    let ends : Ends remote =
      subst Ends (append-nil _)
        (fragment-Ends (codes "session_remote") (map_option digit i.remote) [] tt) in
    read_fields_option 3 (codes "session_type") i.kind _ _ refl
      (fragment-Ends (codes "session_class") (map_option quote i.class) remote ends)
      (read_fields_option 2 (codes "session_class") i.class remote _ refl ends last)

read_found : (o : Option SessionInfo) → read_fields 4 (logfmt_found o) ≡ some (fields_of o)
unfolding read_fields
read_found none = refl
read_found (some i) = read_fields-logfmt_info i

-- Every field that is written is read back.
pub read_fields-logfmt :
    (proc : Proc) (files : Text → Option Text) (pid : ℕ)
    → read_fields 4 (logfmt_session_for_pid proc files pid)
      ≡ some (fields_of (session_of_pid proc files pid))
unfolding logfmt_session_for_pid
read_fields-logfmt proc files pid = read_found (session_of_pid proc files pid)

unsafe_char : (c : ℕ) → (c ≡ b'/') ⊎ (c ≡ b'.') → (is_ascii_alphanumeric c || c == b'-') ≡ false
unfolding is_ascii_alphanumeric
unsafe_char c h = ground (arith, h)

unsafe_text :
    (id : Text)
    → Any (λ c. (c ≡ b'/') ⊎ (c ≡ b'.')) id
    → all (λ c. is_ascii_alphanumeric c || c == b'-') id ≡ false
unsafe_text [] h = absurd h
unsafe_text (c ∷ id) (inl h) = rw (unsafe_char c h)
unsafe_text (c ∷ id) (inr h) = ground (arith, unsafe_text id h)

-- No environment reaches a file outside systemd's directory of sessions: a session id with a slash or a dot
-- in it names no session, whatever the file system holds.
pub session_info_confined :
    (files : Text → Option Text) (id : Text)
    → Any (λ c. (c ≡ b'/') ⊎ (c ≡ b'.')) id
    → session_info files id ≡ none
unfolding session_info is_safe_session_id
session_info_confined files id h = ground (arith, unsafe_text id h)
