-- ===== src/Text/Equality.antt =====
-- Comparison of texts and membership in a list of texts.
use sentinel_cosmic.Common.{
  true, List, ◌≡◌, any, refl, ◌∷◌, Any, [], ◌↔◌, arith, sym, Bool-eq_of_iff,
}
use sentinel_cosmic.Text.{text_eq, list_contains, Text}

text_eq_sound : (s t : Text) → text_eq s t ≡ true → s ≡ t
unfolding text_eq
text_eq_sound [] [] h = refl
text_eq_sound [] (d ∷ t) h = cc
text_eq_sound (c ∷ s) [] h = cc
text_eq_sound (c ∷ s) (d ∷ t) h = ground (arith, text_eq_sound s t)

pub text_eq_refl : (s : Text) → text_eq s s ≡ true
unfolding text_eq
text_eq_refl [] = refl
text_eq_refl (c ∷ s) = ground (arith, text_eq_refl s)

pub text_eq_iff : (s t : Text) → (text_eq s t ≡ true) ↔ (s ≡ t)
text_eq_iff s t = (text_eq_sound s t, λ e. rw e (text_eq_refl t))

-- A text is in a list if an entry equals it.
pub any-text_eq_iff :
    (s : Text) (list : List Text) → (any (λ t. text_eq t s) list ≡ true) ↔ Any (λ t. t ≡ s) list
any-text_eq_iff s [] = (λ h. cc, λ h. absurd h)
any-text_eq_iff s (t ∷ list) = ground (arith, text_eq_iff t s, any-text_eq_iff s list)

pub list_contains_iff :
    (list : List Text) (s : Text) → (list_contains list s ≡ true) ↔ Any (λ t. t ≡ s) list
unfolding list_contains
list_contains_iff list s = any-text_eq_iff s list

pub text_eq_sym : (s t : Text) → text_eq s t ≡ text_eq t s
text_eq_sym s t =
    Bool-eq_of_iff (text_eq s t) (text_eq t s)
      (λ h. (text_eq_iff t s).1 (sym ((text_eq_iff s t).0 h)))
      (λ h. (text_eq_iff s t).1 (sym ((text_eq_iff t s).0 h)))
