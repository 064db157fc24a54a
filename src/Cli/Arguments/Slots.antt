-- ===== src/Cli/Arguments/Slots.antt =====
-- Arguments of which some are given: each has its place, and a place may be empty.
use sentinel_cosmic.Cli.Arguments.{
  CliArg, declared, is_given, fits, distinct, Given, value_of, IsWellGiven,
}
use sentinel_cosmic.Common.{
  List, ◌∙◌, arith, true, false, refl, ◌||◌, none, inr, All, any, ◌∷◌, some, Option, [], ◌&&◌,
  if◌then◌else◌, is_some, Bool, not, ap, inl, Bool-cases, ◌≡◌, or_else,
}
use sentinel_cosmic.Text.{codes, Text, text_eq}

abbrev pub Slots : Type 0
Slots = List (Text × Option (Option Text))

-- The arguments at the places that are not empty.
abbrev pub collect : Slots → Given
collect [] = []
collect ((name, none) ∷ s) = collect s
collect ((name, some v) ∷ s) = (name, v) ∷ collect s

abbrev pub slot_held : Option (Option Text) → Option Text
slot_held none = none
slot_held (some v) = v

abbrev pub slot_value : Slots → Text → Option Text
slot_value [] name = none
slot_value ((n, o) ∷ s) name =
    or_else (if text_eq n name then slot_held o else none) (slot_value s name)

abbrev pub slot_given : Slots → Text → Bool
slot_given [] name = false
slot_given ((n, o) ∷ s) name = (text_eq n name && is_some o) || slot_given s name

abbrev pub slots_distinct : Slots → Bool
slots_distinct [] = true
slots_distinct ((n, o) ∷ s) = not (any (λ a. text_eq a.0 n) s) && slots_distinct s

abbrev pub slot_fits : List CliArg → Text → Option (Option Text) → Bool
slot_fits fs name none = true
slot_fits fs name (some v) = fits fs name v

pub collect-value : (s : Slots) (name : Text) → value_of (collect s) name ≡ slot_value s name
unfolding value_of
collect-value [] name = refl
collect-value ((n, none) ∷ s) name = elim (Bool-cases (text_eq n name)) [
  | inl e ↦ rw e (collect-value s name)
  | inr e ↦ rw e (collect-value s name)
]
collect-value ((n, some v) ∷ s) name =
    ap (λ o. or_else (if text_eq n name then v else none) o) (collect-value s name)

pub collect-given : (s : Slots) (name : Text) → is_given (collect s) name ≡ slot_given s name
unfolding is_given
collect-given [] name = refl
collect-given ((n, none) ∷ s) name = ground (arith, collect-given s name)
collect-given ((n, some v) ∷ s) name = ground (arith, collect-given s name)

slot_absent :
    (s : Slots) (name : Text) → any (λ a. text_eq a.0 name) s ≡ false → slot_given s name ≡ false
slot_absent [] name h = refl
slot_absent ((n, o) ∷ s) name h = ground (arith, h, slot_absent s name)

collect-distinct : (s : Slots) → slots_distinct s ≡ true → distinct (collect s) ≡ true
collect-distinct [] h = refl
collect-distinct ((n, none) ∷ s) h = collect-distinct s (ground (arith, h))
collect-distinct ((n, some v) ∷ s) h =
    ground (arith, h, collect-given s n, slot_absent s n, collect-distinct s)

collect-known :
    (fs : List CliArg) (s : Slots)
    → All (λ p. slot_fits fs p.0 p.1 ≡ true) s
    → All (λ a. fits fs a.0 a.1 ≡ true) (collect s)
collect-known fs [] h = tt
collect-known fs ((n, none) ∷ s) (f, h) = collect-known fs s h
collect-known fs ((n, some v) ∷ s) (f, h) = (f, collect-known fs s h)

-- What stands at distinct places, fits and has no surface forced is well given.
pub collect-IsWellGiven :
    (s : Slots)
    → slots_distinct s ≡ true
    → All (λ p. slot_fits declared p.0 p.1 ≡ true) s
    → slot_given s (codes "--layer-shell") ≡ false
    → IsWellGiven declared (collect s)
unfolding declared
collect-IsWellGiven s once fit unforced = record {
  known = collect-known declared s fit;
  once = collect-distinct s once;
  apart = rw (collect-given s (codes "--layer-shell") ∙ unforced) refl;
}
