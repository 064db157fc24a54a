-- ===== src/LogKv/Tests.antt =====
-- Tests of the quoting.
use sentinel_cosmic.Common.{◌++◌, refl, some, ◌≡◌}
use sentinel_cosmic.LogKv.{quote}
use sentinel_cosmic.LogKv.Reader.{read_value, read_value-quote}
use sentinel_cosmic.Text.{Text, codes, is_whitespace}

bare : quote (codes "firefox") ≡ codes "firefox"
unfolding quote
bare = refl

backslash_alone : quote (codes "a\\b") ≡ codes "a\\b"
unfolding quote
backslash_alone = refl

quoted : quote (codes "a \"b\" \\") ≡ codes "\"a \\\"b\\\" \\\\\""
unfolding quote
quoted = refl

abbrev hostile : Text
hostile = codes "x\" uid=0 \"\\"

read_value-quote_example :
    read_value (quote hostile ++ codes " uid=7") ≡ some (hostile, codes " uid=7")
read_value-quote_example = read_value-quote hostile (codes " uid=7") (unfold is_whitespace in refl)
