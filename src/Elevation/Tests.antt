-- ===== src/Elevation/Tests.antt =====
-- Tests of the stripping, and the theorems at concrete command lines.
use sentinel_cosmic.Common.{List, ◌∷◌, ◌++◌, true, refl, ◌≡◌, [], arith, false, All}
use sentinel_cosmic.Elevation.{
  remember_eligible_command, is_elevation_tool, strip_elevation_prefix, takes_value,
}
use sentinel_cosmic.Elevation.Strip.{standalone, Flag, valued, IsCommand, flags_words}
use sentinel_cosmic.Text.{split_whitespace, Text, is_whitespace, codes}
use sentinel_cosmic.Text.Words.{IsWord}

sudo_user : strip_elevation_prefix (codes "sudo -E  -u root systemctl x") ≡ codes "systemctl x"
unfolding strip_elevation_prefix
sudo_user = refl

absolute_tool : strip_elevation_prefix (codes "/usr/bin/sudo-rs true") ≡ codes "true"
unfolding strip_elevation_prefix
absolute_tool = refl

no_command : strip_elevation_prefix (codes "sudo -i") ≡ []
unfolding strip_elevation_prefix
no_command = refl

flag_E : takes_value (codes "-E") ≡ false
unfolding takes_value
flag_E = refl

flag_u : takes_value (codes "-u") ≡ true
unfolding takes_value
flag_u = refl

abbrev sudo_flags : List Flag
sudo_flags = standalone (codes "-E") refl flag_E ∷ valued (codes "-u") (codes "root") flag_u ∷ []

abbrev cat_file : List Text
cat_file = codes "cat" ∷ codes "/etc/x" ∷ []

sudo_is_tool : is_elevation_tool (codes "sudo") ≡ true
unfolding is_elevation_tool
sudo_is_tool = refl

cat_plain : IsCommand cat_file
unfolding takes_value
cat_plain = (refl, refl)

words_hold : All IsWord (codes "sudo" ∷ (flags_words sudo_flags ++ cat_file))
unfolding is_whitespace
words_hold = ground arith

abbrev listing : Text
listing = codes "ls  -la"

listing_words : split_whitespace listing ≡ codes "ls" ∷ codes "-la" ∷ []
unfolding split_whitespace
listing_words = refl

listing_plain : is_elevation_tool (codes "ls") ≡ false
unfolding is_elevation_tool
listing_plain = refl

abbrev editing : Text
editing = codes "sudo -n vi -y"

editing_words : split_whitespace editing ≡ codes "sudo" ∷ codes "-n" ∷ codes "vi" ∷ codes "-y" ∷ []
unfolding split_whitespace
editing_words = refl

abbrev editing_rest : List Text
editing_rest = codes "-n" ∷ codes "vi" ∷ codes "-y" ∷ []

-- An assignment before the program hides it from the list.
assignment : remember_eligible_command (codes "A=1 bash") ≡ true
unfolding remember_eligible_command
assignment = refl

-- Flags that are written together are one word, so the value behind them is taken for the command.
joined_flags : strip_elevation_prefix (codes "sudo -nu root bash") ≡ codes "root bash"
unfolding strip_elevation_prefix
joined_flags = refl
