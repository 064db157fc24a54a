-- ===== src/Message/Tests.antt =====
-- Tests of the templates.
use sentinel_cosmic.Common.{[], arith, refl, ◌≡◌, List, ◌∷◌, true, ◌++◌}
use sentinel_cosmic.Message.{format_message}
use sentinel_cosmic.Message.Template.{
  Piece, user_token, format_message-spell_all, meaning_all, literal, unknown, percent, spell_all,
  dangling,
}
use sentinel_cosmic.Text.{codes}

trailing : format_message (codes "hello %") [] [] [] ≡ codes "hello %"
unfolding format_message
trailing = refl

all_tokens :
    format_message (codes "%u %s %p %x 100%%") (codes "al") (codes "sudo") (codes "%u")
    ≡ codes "al sudo %u %x 100%"
unfolding format_message
all_tokens = refl

abbrev pieces : List Piece
pieces = user_token ∷ percent ∷ unknown b'x' (omega arith) ∷ literal b'!' (omega arith) ∷ []

format_message-spell_all_example :
    format_message (spell_all pieces ++ dangling true) (codes "%s") [] []
    ≡ meaning_all (codes "%s") [] [] pieces ++ dangling true
format_message-spell_all_example = format_message-spell_all (codes "%s") [] [] pieces true
