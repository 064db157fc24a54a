-- ===== src/Pam/Locale/Safe.antt =====
-- What reaches the environment of the dialog's process.
-- A forwarded variable with a short value of harmless characters.
use sentinel_cosmic.Common.{
  ◌≢◌, ◌≡◌, [], Any, ◌≤◌, All, true, ◌∷◌, arith, ltb, Bool, all, inl, none, List, refl, some,
  Bool-cases, inr, Option, ℕ,
}
use sentinel_cosmic.Pam.Locale.{
  forwarded_vars, locale_char, is_safe_locale_value, collect_locale, read_locale_env, forward,
}
use sentinel_cosmic.Procfs.{Proc, read_environ_var}
use sentinel_cosmic.Text.{Text, utf8_len}

abbrev pub Harmless : Text × Text → Type 0
Harmless (var, value) =
    Any (λ v. v ≡ var) forwarded_vars
    × ((value ≢ []) × (utf8_len value ≤ 32) × All (λ c. locale_char c ≡ true) value)

all-true : (p : ℕ → Bool) (s : Text) → all p s ≡ true → All (λ c. p c ≡ true) s
all-true p [] h = tt
all-true p (c ∷ s) h = (ground (arith, h), all-true p s (ground (arith, h)))

abbrev Proper : Text → Type 0
Proper value = (value ≢ []) × (utf8_len value ≤ 32) × All (λ c. locale_char c ≡ true) value

is_safe_locale_value-Proper : (value : Text) → is_safe_locale_value value ≡ true → Proper value
unfolding is_safe_locale_value
is_safe_locale_value-Proper [] h = absurd (cc h)
is_safe_locale_value-Proper (c ∷ s) h = elim (Bool-cases (ltb 32 (utf8_len (c ∷ s)))) [
  | inl e ↦ absurd (cc (rw e at h))
  | inr n ↦ (λ e. cc e, ground (arith, n), all-true locale_char (c ∷ s) (rw n at h))
]

module _ (P : Text → Type 0) where
  abbrev Fine : Text × Text → Type 0
  Fine e = P e.0 × Proper e.1

  forward-Fine :
      (var : Text) (o : Option Text) (out : List (Text × Text))
      → P var
      → All Fine out
      → All Fine (forward var o out)
  forward-Fine var none out p h = h
  forward-Fine var (some value) out p h = elim (Bool-cases (is_safe_locale_value value)) [
    | inl e ↦ rw e ((p, is_safe_locale_value-Proper value e), h)
    | inr n ↦ rw n h
  ]

  collect_locale-Fine :
      (proc : Proc) (pid : ℕ) (vars : List Text)
      → All P vars
      → All Fine (collect_locale proc pid vars)
  unfolding collect_locale
  collect_locale-Fine proc pid [] h = tt
  collect_locale-Fine proc pid (var ∷ vars) (p, ps) =
      forward-Fine var (read_environ_var proc pid var) (collect_locale proc pid vars) p
        (collect_locale-Fine proc pid vars ps)

-- Whatever environment the requesting process has, the dialog's process inherits from it at most the three
-- locale variables, and only values that are not empty, have at most 32 bytes and consist of letters,
-- digits, dots, underscores, at signs and hyphens.
pub read_locale_env-Harmless : (proc : Proc) (pid : ℕ) → All Harmless (read_locale_env proc pid)
unfolding read_locale_env
read_locale_env-Harmless proc pid =
    collect_locale-Fine (λ var. Any (λ v. v ≡ var) forwarded_vars) proc pid forwarded_vars
      (inl refl, (inr (inl refl), (inr (inr (inl refl)), tt)))
