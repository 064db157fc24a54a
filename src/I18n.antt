-- ===== src/I18n.antt =====
-- crates/sentinel-shared/src/ui_i18n.rs: the texts of the dialog.
pub mod Tables
pub mod Complete
pub mod Tests
use sentinel_cosmic.Common.{
  if◌then◌else◌, ◌==◌, some, ◌||◌, map, Option, ◌+◌, [], or_else, ◌∷◌, ◌>>=◌, unwrap_or, ◌&&◌, List,
  leb, none,
}
use sentinel_cosmic.I18n.Tables.{de, en, es, fr, it, ja, nl, pl, pt, remember_labels, ru, tr, zh}
use sentinel_cosmic.Text.{first_part, is_empty, codes, Text, trim, text_eq}

-- A `match` of texts against texts: the first entry with the key.
unfoldable pub lookup {ℓ} : {A : Type ℓ} → List (Text × A) → Text → Option A
unfolding text_eq
lookup [] key = none
lookup ((k, v) ∷ es) key = if text_eq k key then some v else lookup es key

-- The table of each language that has one of its own.
abbrev pub localized_tables : List (Text × List (Text × Text))
localized_tables =
    (codes "de", de)
    ∷ (codes "es", es)
    ∷ (codes "fr", fr)
    ∷ (codes "it", it)
    ∷ (codes "ja", ja)
    ∷ (codes "nl", nl)
    ∷ (codes "pl", pl)
    ∷ (codes "pt", pt)
    ∷ (codes "ru", ru)
    ∷ (codes "tr", tr)
    ∷ (codes "zh", zh)
    ∷ []

-- `translate`.
unfoldable pub translate : Text → Text → Text
unfolding lookup
translate key lang =
    unwrap_or
      (or_else (lookup localized_tables lang >>= (λ table. lookup table key)) (lookup en key))
      (codes "?")

-- `remember_label_template`.
unfoldable pub remember_label_template : Text → Text
unfolding lookup
remember_label_template lang = unwrap_or (lookup remember_labels lang) (codes "Remember for %1")

abbrev pub to_ascii_lowercase : Text → Text
to_ascii_lowercase s = map (λ c. if leb 65 c && leb c 90 then c + 32 else c) s

-- The language that one variable names, if it names one.
unfoldable pub lang_of : Option Text → Option Text
unfolding trim text_eq first_part
lang_of none = none
lang_of (some value) =
    let v = trim value in
    let lang = to_ascii_lowercase (first_part (λ c. c == b'_' || (c == b'.' || c == b'@')) v) in
    if is_empty v || (text_eq v (codes "C") || text_eq v (codes "POSIX"))
    then none
    else if is_empty lang
    then none
    else some lang

-- `ui_lang`, from the values of LC_ALL, LC_MESSAGES and LANG.
unfoldable pub ui_lang : Option Text → Option Text → Option Text → Text
unfolding lang_of
ui_lang lc_all lc_messages lang =
    unwrap_or (or_else (lang_of lc_all) (or_else (lang_of lc_messages) (lang_of lang))) (codes "en")
