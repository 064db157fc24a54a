-- ===== src/I18n/Tests.antt =====
-- Tests of the texts.
use sentinel_cosmic.Common.{◌≡◌, some, none, refl}
use sentinel_cosmic.I18n.{translate, ui_lang}
use sentinel_cosmic.Text.{codes}

german : translate (codes "deny") (codes "de") ≡ codes "Verweigern"
unfolding translate
german = refl

marker : translate (codes "nope") (codes "de") ≡ codes "?"
unfolding translate
marker = refl

from_env : ui_lang none (some (codes "C")) (some (codes "pt_BR.UTF-8")) ≡ codes "pt"
unfolding ui_lang
from_env = refl
