-- ===== src/Policy/Tests.antt =====
-- Tests of the policy lists.
use sentinel_cosmic.Basename.{process_basename}
use sentinel_cosmic.Common.{◌∷◌, ◌≡◌, some, Any, none, [], refl, ◌↔◌}
use sentinel_cosmic.Policy.{decide, ask, Policy, deny, allow}
use sentinel_cosmic.Policy.Decide.{decide_unknown, decide_iff, Matches}
use sentinel_cosmic.Text.{codes}

abbrev pacman : Policy
pacman = record { allow_list = codes "pacman" ∷ codes "/usr/bin/topgrade" ∷ []; deny_list = [] }

full_path_only : decide pacman (some (codes "/opt/topgrade")) none ≡ ask
unfolding decide
full_path_only = refl

any_directory : decide pacman (some (codes "/opt/evil/pacman")) none ≡ allow
unfolding decide
any_directory = refl

dots : process_basename (codes "/usr/..") ≡ none
unfolding process_basename
dots = refl

slashes : process_basename (codes "/usr/bin/ls/./") ≡ some (codes "ls")
unfolding process_basename
slashes = refl

abbrev both_lists : Policy
both_lists = record { allow_list = codes "act" ∷ []; deny_list = codes "act" ∷ [] }

decide_iff_example :
    ((decide both_lists none (some (codes "act")) ≡ deny)
      ↔ Any (Matches none (some (codes "act"))) both_lists.deny_list)
    × ((decide both_lists none (some (codes "act")) ≡ allow) ↔ (
        (¬ Any (Matches none (some (codes "act"))) both_lists.deny_list)
        × Any (Matches none (some (codes "act"))) both_lists.allow_list))
decide_iff_example = decide_iff both_lists none (some (codes "act"))

decide_unknown_example : decide pacman none none ≡ ask
decide_unknown_example = decide_unknown pacman
