-- ===== src/Elevation/Remember.antt =====
-- Which commands may be remembered, and how the grant's key depends on the scope.
use sentinel_cosmic.Basename.{process_basename}
use sentinel_cosmic.Common.{List, ◌∷◌, unwrap_or, true, Bool-cases, inr, ◌≡◌, [], Any, inl, ◌↔◌}
use sentinel_cosmic.Config.{program}
use sentinel_cosmic.Elevation.{
  remember_eligible_command, first_word, remember_key_command, eligible_program,
  remember_ineligible,
}
use sentinel_cosmic.Text.{split_whitespace, Text, list_contains}
use sentinel_cosmic.Text.Equality.{list_contains_iff}

abbrev pub base_of : Text → Text
base_of first = unwrap_or (process_basename first) first

-- There is a program, and its basename is none of the shells, interpreters and wrappers.
abbrev pub NotListed : List Text → Type 0
NotListed [] = ⊥
NotListed (first ∷ rest) = ¬ Any (λ t. t ≡ base_of first) remember_ineligible

eligible_program_iff : (ws : List Text) → (eligible_program ws ≡ true) ↔ NotListed ws
unfolding eligible_program
eligible_program_iff [] = (λ h. cc, λ h. absurd h)
eligible_program_iff (first ∷ rest) =
    let l = list_contains_iff remember_ineligible (base_of first) in
    (
      λ h m. cc (l.1 m, h),
      λ n. elim (Bool-cases (list_contains remember_ineligible (base_of first))) [
        | inl e ↦ absurd (n (l.0 e))
        | inr e ↦ rw e
      ],
    )

-- A command may be remembered exactly when it has a first word and that word's basename is none of
-- the listed shells, interpreters, wrappers and editors; what stands behind it does not matter.
pub remember_eligible_iff :
    (cmd : Text) → (remember_eligible_command cmd ≡ true) ↔ NotListed (split_whitespace cmd)
unfolding remember_eligible_command
remember_eligible_iff cmd = eligible_program_iff (split_whitespace cmd)

-- Under the program scope two commands share a grant exactly when their first words are the same.
pub remember_key_program :
    (a b : Text)
    → (remember_key_command a program ≡ remember_key_command b program)
      ↔ (first_word (split_whitespace a) ≡ first_word (split_whitespace b))
unfolding remember_key_command
remember_key_program a b = (λ e. e, λ e. e)
