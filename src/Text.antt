-- ===== src/Text.antt =====
-- Texts as lists of code points, with the operations of Rust's `str` that the crates call.
pub mod Equality
pub mod Words
pub mod Decimal
pub mod Trim
use Prim.Native.Char.{code}
use sentinel_cosmic.Common.{
  ℕ, ◌+◌, Bool, true, false, ◌&&◌, ◌||◌, List, [], ◌∷◌, ◌++◌, reverse, Option, none, some, String,
  ltb, leb, ◌==◌, if◌then◌else◌, any, map_option,
}

abbrev pub Text : Type 0
Text = List ℕ

-- The code points of a literal. `String` has its own `[]` and `∷`.
abbrev pub codes : String → Text
codes String.[] = []
codes (String.◌∷◌ c s) = code c ∷ codes s

-- `s == t`.
unfoldable pub text_eq : Text → Text → Bool
text_eq [] [] = true
text_eq (c ∷ s) (d ∷ t) = c == d && text_eq s t
text_eq _ _ = false

-- `list.contains(&s)` on a slice of strings.
unfoldable pub list_contains : List Text → Text → Bool
unfolding text_eq
list_contains list s = any (λ t. text_eq t s) list

-- `s.contains(c)` for a character.
unfoldable pub contains : Text → ℕ → Bool
contains s c = any (λ d. d == c) s

abbrev pub is_empty {ℓ} : {A : Type ℓ} → List A → Bool
is_empty [] = true
is_empty (x ∷ xs) = false

-- `char::is_whitespace`, the Unicode property White_Space.
unfoldable pub is_whitespace : ℕ → Bool
is_whitespace c =
    (leb 9 c && leb c 13)
    || c == 32
    || c == 0x85
    || c == 0xa0
    || c == 0x1680
    || (leb 0x2000 c && leb c 0x200a)
    || c == 0x2028
    || c == 0x2029
    || c == 0x202f
    || c == 0x205f
    || c == 0x3000

-- `char::is_ascii_alphanumeric`.
unfoldable pub is_ascii_alphanumeric : ℕ → Bool
is_ascii_alphanumeric c =
    (leb b'0' c && leb c b'9') || (leb b'A' c && leb c b'Z') || (leb b'a' c && leb c b'z')

-- `str::len`: the length of the UTF-8 encoding in bytes.
unfoldable pub utf8_len : Text → ℕ
utf8_len [] = 0
utf8_len (c ∷ s) =
    (if ltb c 0x80 then 1 else if ltb c 0x800 then 2 else if ltb c 0x1_0000 then 3 else 4)
    + utf8_len s

unfoldable pub trim_start : Text → Text
unfolding is_whitespace
trim_start [] = []
trim_start (c ∷ s) = if is_whitespace c then trim_start s else c ∷ s

unfoldable pub trim_end : Text → Text
unfolding trim_start
trim_end s = reverse (trim_start (reverse s))

-- `str::trim`.
unfoldable pub trim : Text → Text
unfolding trim_start trim_end
trim s = trim_end (trim_start s)

-- `s.strip_prefix(p)`.
unfoldable pub strip_prefix : Text → Text → Option Text
strip_prefix s [] = some s
strip_prefix [] (d ∷ p) = none
strip_prefix (c ∷ s) (d ∷ p) = if c == d then strip_prefix s p else none

abbrev pub starts_with_char : Text → ℕ → Bool
starts_with_char [] d = false
starts_with_char (c ∷ s) d = c == d

-- The word that a text begins with, and the words behind it.
unfoldable pub words_pair : Text → Text × List Text
unfolding is_whitespace
words_pair [] = ([], [])
words_pair (c ∷ s) =
    let (w, ws) = words_pair s in
    if is_whitespace c then ([], if is_empty w then ws else w ∷ ws) else (c ∷ w, ws)

-- `str::split_whitespace`, collected: the maximal runs of other characters.
unfoldable pub split_whitespace : Text → List Text
unfolding words_pair
split_whitespace s = let (w, ws) = words_pair s in if is_empty w then ws else w ∷ ws

-- `parts.join(sep)`.
unfoldable pub join : List Text → Text → Text
join [] sep = []
join (w ∷ []) sep = w
join (w ∷ v ∷ ws) sep = w ++ (sep ++ join (v ∷ ws) sep)

-- The part of a text before the first character that passes, and the parts behind it.
unfoldable pub parts_pair : (ℕ → Bool) → Text → Text × List Text
parts_pair p [] = ([], [])
parts_pair p (c ∷ s) = let (w, ws) = parts_pair p s in if p c then ([], w ∷ ws) else (c ∷ w, ws)

-- `s.split(p)`, collected: at least one part.
unfoldable pub split : (ℕ → Bool) → Text → List Text
unfolding parts_pair
split p s = let (w, ws) = parts_pair p s in w ∷ ws

-- `s.split(p).next()`: there always is a first part.
unfoldable pub first_part : (ℕ → Bool) → Text → Text
first_part p [] = []
first_part p (c ∷ s) = if p c then [] else c ∷ first_part p s

-- `s.split_once(c)`.
unfoldable pub split_once : Text → ℕ → Option (Text × Text)
split_once [] d = none
split_once (c ∷ s) d =
    if c == d
    then some ([], s)
    else map_option (λ (kv : Text × Text). (c ∷ kv.0, kv.1)) (split_once s d)

cons_line : ℕ → List Text → List Text
cons_line c [] = (c ∷ []) ∷ []
cons_line c (l ∷ ls) = (c ∷ l) ∷ ls

-- `str::lines`, collected: the carriage return of a `\r\n` goes, and so does an empty last line.
unfoldable pub lines : Text → List Text
unfolding cons_line
lines [] = []
lines (c ∷ s) =
    let rest = lines s in
    if c == b'\n'
    then [] ∷ rest
    else if c == b'\r' && starts_with_char s b'\n'
    then rest
    else cons_line c rest
