-- ===== src/Procfs/Args.antt =====
-- How an argument vector shows as one line.
use sentinel_cosmic.Broker.Keys.{Lacks}
use sentinel_cosmic.Common.{
  false, some, ◌≡◌, not, All, ◌∷◌, refl, retain, [], ◌==◌, ◌∙◌, ◌++◌, List, ap, arith,
}
use sentinel_cosmic.Procfs.{cmdline_of_bytes, joined}
use sentinel_cosmic.Text.{split, is_empty, parts_pair, Text, join}
use sentinel_cosmic.Text.Words.{space}
-- The contents of a cmdline file: every argument with a NUL behind it.
use sentinel_cosmic.Broker.Keys.{Lacks}
use sentinel_cosmic.Common.{◌++◌, ◌∷◌, false, [], ◌≡◌, List}
use sentinel_cosmic.Text.{Text, is_empty}

abbrev pub terminated : List Text → Text
terminated [] = []
terminated (a ∷ rest) = a ++ (0 ∷ terminated rest)

-- An argument that is not empty and holds no NUL.
abbrev pub IsArg : Text → Type 0
IsArg a = (is_empty a ≡ false) × Lacks 0 a

parts_pair-append :
    (a s : Text)
    → Lacks 0 a
    → parts_pair (λ c. c == 0) (a ++ (0 ∷ s))
      ≡ (a, (parts_pair (λ c. c == 0) s).0 ∷ (parts_pair (λ c. c == 0) s).1)
unfolding parts_pair
parts_pair-append [] s h = refl
parts_pair-append (c ∷ a) s (n, h) =
    let other : (c == 0) ≡ false = ground (arith, n) in
    rw (other, parts_pair) (ap (λ (r : Text × List Text). (c ∷ r.0, r.1)) (parts_pair-append a s h))

split-append :
    (a s : Text) → Lacks 0 a → split (λ c. c == 0) (a ++ (0 ∷ s)) ≡ a ∷ split (λ c. c == 0) s
unfolding split
split-append a s h = ap (λ (r : Text × List Text). r.0 ∷ r.1) (parts_pair-append a s h)

split-terminated :
    (args : List Text) → All IsArg args → split (λ c. c == 0) (terminated args) ≡ args ++ ([] ∷ [])
unfolding split parts_pair
split-terminated [] h = refl
split-terminated (a ∷ args) (arg, h) =
    split-append a (terminated args) (arg.1) ∙ ap (◌∷◌ a) (split-terminated args h)

retain_args :
    (args : List Text) → All IsArg args → retain (λ p. not (is_empty p)) (args ++ ([] ∷ [])) ≡ args
retain_args [] h = refl
retain_args (a ∷ args) (arg, h) = rw (arg.0) (ap (◌∷◌ a) (retain_args args h))

-- The command line of a process is its arguments joined by blanks, if there is one, none of them is empty
-- and none holds a NUL: which of the blanks stood within an argument is forgotten.
pub cmdline_of_bytes-terminated :
    (a : Text) (args : List Text)
    → All IsArg (a ∷ args)
    → cmdline_of_bytes (terminated (a ∷ args)) ≡ some (join (a ∷ args) space)
unfolding cmdline_of_bytes
cmdline_of_bytes-terminated a args h =
    ap (λ ps. joined (retain (λ p. not (is_empty p)) ps)) (split-terminated (a ∷ args) h)
    ∙ ap joined (retain_args (a ∷ args) h)
