-- ===== src/LogKv/Reader.antt =====
-- A reader of one logfmt value, by which quoting is judged: a value that begins with a quote runs to
-- the next quote that is not escaped, any other to the next blank.
-- The text inside the quotes and what follows them.
use sentinel_cosmic.Common.{
  Bool-cases, if◌then◌else◌, [], ◌≢◌, false, none, ◌++◌, arith, ◌∙◌, append_assoc, ap, map_option,
  refl, ◌==◌, true, inl, Option, ==_iff, some, inr, ◌≡◌, ◌∷◌, ℕ, any,
}
use sentinel_cosmic.LogKv.{is_special, escape_value, quote}
use sentinel_cosmic.Text.{Text, is_whitespace}

pub read_quoted : Text → Option (Text × Text)
read_quoted [] = none
read_quoted (c ∷ []) = if c == b'"' then some ([], []) else none
read_quoted (c ∷ d ∷ s) =
    let escaped = map_option (λ (r : Text × Text). (d ∷ r.0, r.1)) (read_quoted s) in
    let plain = map_option (λ (r : Text × Text). (c ∷ r.0, r.1)) (read_quoted (d ∷ s)) in
    if c == b'"' then some ([], d ∷ s) else if c == b'\\' then escaped else plain

pub read_bare : Text → Text × Text
read_bare [] = ([], [])
read_bare (c ∷ s) =
    let (v, rest) = read_bare s in if is_whitespace c then ([], c ∷ s) else (c ∷ v, rest)

pub read_value : Text → Option (Text × Text)
unfolding read_quoted read_bare
read_value [] = some ([], [])
read_value (c ∷ s) = if c == b'"' then read_quoted s else some (read_bare (c ∷ s))

-- What may follow a value on the line: nothing, or a blank.
abbrev pub Ends : Text → Type 0
Ends [] = Unit {0}
Ends (c ∷ s) = is_whitespace c ≡ true

read_quoted_plain :
    (c : ℕ) (s : Text)
    → c ≢ b'"'
    → c ≢ b'\\'
    → read_quoted (c ∷ s) ≡ map_option (λ (r : Text × Text). (c ∷ r.0, r.1)) (read_quoted s)
unfolding read_quoted
read_quoted_plain c [] m n = ground arith
read_quoted_plain c (d ∷ s) m n = ground arith

read_quoted_end : (rest : Text) → read_quoted (b'"' ∷ rest) ≡ some ([], rest)
unfolding read_quoted
read_quoted_end [] = refl
read_quoted_end (d ∷ rest) = refl

read_quoted_escaped :
    (d : ℕ) (s : Text)
    → read_quoted (b'\\' ∷ d ∷ s) ≡ map_option (λ (r : Text × Text). (d ∷ r.0, r.1)) (read_quoted s)
unfolding read_quoted
read_quoted_escaped d s = refl

read_quoted-escape_value :
    (s rest : Text) → read_quoted (escape_value s ++ (b'"' ∷ rest)) ≡ some (s, rest)
unfolding escape_value
read_quoted-escape_value [] rest = read_quoted_end rest
read_quoted-escape_value (c ∷ s) rest = elim (Bool-cases (c == b'"')) [
  | inl e ↦ rw (e, (==_iff c b'"').0 e, read_quoted_escaped, read_quoted-escape_value s rest)
  | inr m ↦ elim (Bool-cases (c == b'\\')) [
    | inl e ↦ rw (m, e, (==_iff c b'\\').0 e, read_quoted_escaped, read_quoted-escape_value s rest)
    | inr n ↦
        rw (m, n)
          (rw (
            read_quoted_plain c _ (ground (arith, m)) (ground (arith, n)),
            read_quoted-escape_value s rest,
          ))
  ]
]

not_quote : (c : ℕ) (s : Text) → any is_special (c ∷ s) ≡ false → (c == b'"') ≡ false
unfolding is_special
not_quote c s h = ground (arith, h)

read_bare-append :
    (s rest : Text) → any is_special s ≡ false → Ends rest → read_bare (s ++ rest) ≡ (s, rest)
unfolding read_bare is_special
read_bare-append [] [] h e = refl
read_bare-append [] (c ∷ rest) h e = rw e
read_bare-append (c ∷ s) rest h e = ground (arith, read_bare-append s rest, h)

plain_value :
    (c : ℕ) (s rest : Text)
    → any is_special (c ∷ s) ≡ false
    → Ends rest
    → read_value (c ∷ (s ++ rest)) ≡ some (c ∷ s, rest)
unfolding read_value
plain_value c s rest n e = rw (not_quote c s n) (ap some (read_bare-append (c ∷ s) rest n e))

-- A quoted value is read back as it was, and the reading stops exactly where the value ends, for
-- every value: no value can start a field of its own on an audit line.
pub read_value-quote : (v rest : Text) → Ends rest → read_value (quote v ++ rest) ≡ some (v, rest)
unfolding read_value quote
read_value-quote [] rest e = read_quoted_end rest
read_value-quote (c ∷ s) rest e = elim (Bool-cases (any is_special (c ∷ s))) [
  | inl q ↦ rw q (
      ap read_quoted (append_assoc (escape_value (c ∷ s)) (b'"' ∷ []) rest)
      ∙ read_quoted-escape_value (c ∷ s) rest)
  | inr n ↦ rw n (plain_value c s rest n e)
]
