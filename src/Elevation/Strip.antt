-- ===== src/Elevation/Strip.antt =====
-- Stripping an elevation command line of the tool and its flags.
-- The options of an elevation tool, as words of its command line.
use sentinel_cosmic.Common.{
  ◌≡◌, ◌++◌, refl, List, ◌∷◌, [], Bool-cases, ap, ◌∙◌, false, inl, All, true, inr,
}
use sentinel_cosmic.Elevation.{
  takes_value, is_elevation_tool, skip_flags, strip_elevation_prefix, strip_parts,
}
use sentinel_cosmic.Text.{split_whitespace, Text, join, starts_with_char}
use sentinel_cosmic.Text.Words.{space, IsWord, split_whitespace-join, split_whitespace-IsWord}

pub data Flag : Type 0 where
  standalone : (p : Text) → starts_with_char p b'-' ≡ true → takes_value p ≡ false → Flag
  valued : (p v : Text) → takes_value p ≡ true → Flag

abbrev pub flag_words : Flag → List Text
flag_words (standalone p d n) = p ∷ []
flag_words (valued p v h) = p ∷ v ∷ []

abbrev pub flags_words : List Flag → List Text
flags_words [] = []
flags_words (f ∷ fs) = flag_words f ++ flags_words fs

-- A command's first word is no flag.
abbrev pub IsCommand : List Text → Type 0
IsCommand [] = Unit {0}
IsCommand (p ∷ ps) = (takes_value p ≡ false) × (starts_with_char p b'-' ≡ false)

skip_command : (cmd : List Text) → IsCommand cmd → skip_flags cmd ≡ cmd
unfolding skip_flags
skip_command [] h = refl
skip_command (p ∷ []) h = rw (h.0, h.1)
skip_command (p ∷ v ∷ ps) h = rw (h.0, h.1)

skip_standalone :
    (p : Text) (ps : List Text)
    → takes_value p ≡ false
    → starts_with_char p b'-' ≡ true
    → skip_flags (p ∷ ps) ≡ skip_flags ps
unfolding skip_flags
skip_standalone p [] n d = rw (n, d)
skip_standalone p (v ∷ ps) n d = rw (n, d)

skip_valued :
    (p v : Text) (ps : List Text) → takes_value p ≡ true → skip_flags (p ∷ v ∷ ps) ≡ skip_flags ps
unfolding skip_flags
skip_valued p v ps h = rw h

pub skip_flags-flags_words :
    (fs : List Flag) (cmd : List Text) → IsCommand cmd → skip_flags (flags_words fs ++ cmd) ≡ cmd
skip_flags-flags_words [] cmd h = skip_command cmd h
skip_flags-flags_words (standalone p d n ∷ fs) cmd h =
    skip_standalone p (flags_words fs ++ cmd) n d ∙ skip_flags-flags_words fs cmd h
skip_flags-flags_words (valued p v k ∷ fs) cmd h =
    skip_valued p v (flags_words fs ++ cmd) k ∙ skip_flags-flags_words fs cmd h

-- The command line of a tool, its flags and the command is stripped to exactly the command, whatever
-- flags stand there, if all its words are words and the command does not begin with a flag.
pub strip-join :
    (tool : Text) (fs : List Flag) (cmd : List Text)
    → is_elevation_tool tool ≡ true
    → All IsWord (tool ∷ (flags_words fs ++ cmd))
    → IsCommand cmd
    → strip_elevation_prefix (join (tool ∷ (flags_words fs ++ cmd)) space) ≡ join cmd space
unfolding strip_elevation_prefix
strip-join tool fs cmd t ws c =
    ap (strip_parts _) (split_whitespace-join (tool ∷ (flags_words fs ++ cmd)) ws)
    ∙ rw t (ap (λ l. join l space) (skip_flags-flags_words fs cmd c))

-- A command line that does not begin with an elevation tool is passed on unchanged, blanks included.
pub strip_other :
    (cmdline : Text) (first : Text) (rest : List Text)
    → split_whitespace cmdline ≡ first ∷ rest
    → is_elevation_tool first ≡ false
    → strip_elevation_prefix cmdline ≡ cmdline
unfolding strip_elevation_prefix
strip_other cmdline first rest e n = ap (strip_parts cmdline) e ∙ rw n

-- The words that are left behind the flags.
pub skip_flags-IsCommand : (ps : List Text) → IsCommand (skip_flags ps)
unfolding skip_flags
skip_flags-IsCommand [] = tt
skip_flags-IsCommand (p ∷ []) = elim (Bool-cases (takes_value p)) [
  | inl e ↦ rw e tt
  | inr n ↦ elim (Bool-cases (starts_with_char p b'-')) [
    | inl e ↦ rw (n, e) tt
    | inr m ↦ rw (n, m) (n, m)
  ]
]
skip_flags-IsCommand (p ∷ v ∷ ps) = elim (Bool-cases (takes_value p)) [
  | inl e ↦ rw e (skip_flags-IsCommand ps)
  | inr n ↦ elim (Bool-cases (starts_with_char p b'-')) [
    | inl e ↦ rw (n, e) (skip_flags-IsCommand (v ∷ ps))
    | inr m ↦ rw (n, m) (n, m)
  ]
]

pub skip_flags-All : (P : Text → Type 0) (ps : List Text) → All P ps → All P (skip_flags ps)
unfolding skip_flags
skip_flags-All P [] h = tt
skip_flags-All P (p ∷ []) h = elim (Bool-cases (takes_value p)) [
  | inl e ↦ rw e tt
  | inr n ↦ elim (Bool-cases (starts_with_char p b'-')) [
    | inl e ↦ rw (n, e) tt
    | inr m ↦ rw (n, m) h
  ]
]
skip_flags-All P (p ∷ v ∷ ps) h = elim (Bool-cases (takes_value p)) [
  | inl e ↦ rw e (skip_flags-All P ps h.1.1)
  | inr n ↦ elim (Bool-cases (starts_with_char p b'-')) [
    | inl e ↦ rw (n, e) (skip_flags-All P (v ∷ ps) h.1)
    | inr m ↦ rw (n, m) h
  ]
]

-- Behind an elevation tool the words of the result are a command: none is lost or split when it is
-- read again, and the first is no flag.
pub strip-IsCommand :
    (cmdline : Text) (first : Text) (rest : List Text)
    → split_whitespace cmdline ≡ first ∷ rest
    → is_elevation_tool first ≡ true
    → (split_whitespace (strip_elevation_prefix cmdline) ≡ skip_flags rest)
      × IsCommand (skip_flags rest)
unfolding strip_elevation_prefix
strip-IsCommand cmdline first rest e t = (
  ap split_whitespace {y = join (skip_flags rest) space} (ap (strip_parts cmdline) e ∙ rw t)
      ∙ split_whitespace-join (skip_flags rest)
          (skip_flags-All IsWord rest (rw e at (split_whitespace-IsWord cmdline)).1),
  skip_flags-IsCommand rest,
)
