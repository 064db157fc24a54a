-- ===== src/I18n/Complete.antt =====
-- Every language has every text.
-- A table has the key, and a text for it that is not empty.
use sentinel_cosmic.Common.{
  [], ◌∙◌, ◌∷◌, ◌≢◌, ◌≡◌, inr, false, sym, arith, inl, some, Any, List, refl, not, all, ap, Bool,
  true, Option, none,
}
use sentinel_cosmic.I18n.{lookup, localized_tables}
use sentinel_cosmic.I18n.Tables.{en}
use sentinel_cosmic.Text.{is_empty, Text}

abbrev pub Has : Text → List (Text × Text) → Type 0
Has key table = (text : Text) × (lookup table key ≡ some text) × (text ≢ [])

abbrev filled : Option Text → Bool
filled none = false
filled (some text) = not (is_empty text)

filled-some : (o : Option Text) → filled o ≡ true → (text : Text) × (o ≡ some text) × (text ≢ [])
filled-some none h = absurd (cc h)
filled-some (some []) h = absurd (cc h)
filled-some (some (c ∷ s)) h = (c ∷ s, refl, λ e. cc e)

abbrev pub keys : List (Text × Text) → List Text
keys [] = []
keys ((k, v) ∷ es) = k ∷ keys es

all-filled :
    all (λ entry. all (λ key. filled (lookup (entry.1) key)) (keys en)) localized_tables ≡ true
unfolding lookup
all-filled = refl

abbrev Entry : Type 0
Entry = Text × List (Text × Text)

all-Any :
    {A : Type 0} (p : A → Bool) (a : A) (xs : List A)
    → all p xs ≡ true
    → Any (λ x. x ≡ a) xs
    → p a ≡ true
all-Any p a [] h m = absurd m
all-Any p a (x ∷ xs) h (inl e) = ap p (sym e) ∙ ground (arith, h)
all-Any p a (x ∷ xs) h (inr m) = all-Any p a xs (ground (arith, h)) m

-- Every language that has a table of its own has each of the English table's keys in it, with a text that is
-- not empty: no dialog falls back to English, or to a question mark, within a listed language.
pub lookup_complete :
    (lang : Text) (table : List (Text × Text)) (key : Text)
    → Any (λ e. e ≡ (lang, table)) localized_tables
    → Any (λ k. k ≡ key) (keys en)
    → Has key table
lookup_complete lang table key listed known = filled-some (lookup table key) (
    all-Any (λ k. filled (lookup table k)) key (keys en)
      (all-Any (λ (entry : Entry). all (λ k. filled (lookup (entry.1) k)) (keys en)) (lang, table)
        localized_tables all-filled listed)
      known)
