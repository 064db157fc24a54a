-- ===== src/Elevation/Whole.antt =====
-- The command line of an elevation tool is not the command it runs.
use sentinel_cosmic.Common.{
  ◌∷◌, ap, Bool-cases, arith, ◌++◌, length-append, ◌≢◌, sym, inr, ◌≡◌, inl, ◌∙◌, length, All, false,
  All-append-right, List,
}
use sentinel_cosmic.Elevation.Strip.{Flag, flags_words}
use sentinel_cosmic.Text.{text_eq, split_whitespace, join, Text}
use sentinel_cosmic.Text.Equality.{text_eq_iff}
use sentinel_cosmic.Text.Words.{space, IsWord, split_whitespace-join}

module _ (tool : Text) (fs : List Flag) (cmd : List Text)
    (words : All IsWord (tool ∷ (flags_words fs ++ cmd))) where
  abbrev pub whole : Text
  whole = join (tool ∷ (flags_words fs ++ cmd)) space

  pub cmd_words : All IsWord cmd
  cmd_words = All-append-right IsWord (tool ∷ flags_words fs) cmd words

  not_itself : cmd ≢ tool ∷ (flags_words fs ++ cmd)
  not_itself e = omega (arith, ap (length {0}) e, length-append {0} (flags_words fs) cmd)

  pub differs : text_eq (join cmd space) whole ≡ false
  differs = elim (Bool-cases (text_eq (join cmd space) whole)) [
    | inl e ↦ absurd (
        not_itself (
          sym (split_whitespace-join cmd cmd_words)
          ∙ ap split_whitespace ((text_eq_iff (join cmd space) whole).0 e)
          ∙ split_whitespace-join (tool ∷ (flags_words fs ++ cmd)) words))
    | inr n ↦ n
  ]
