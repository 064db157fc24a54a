-- ===== src/Text/Words.antt =====
-- What splitting at whitespace yields, and how trimming, splitting and joining fit together.
use mathlib.Core.List.{reverse-cons, reverse-reverse}
use sentinel_cosmic.Common.{
  ◌++◌, ap, true, List, inl, ◌≡◌, refl, ◌∷◌, if◌then◌else◌, ◌∙◌, All, ◌≢◌, inr, ℕ, false,
  Bool-cases, [], All-append, reverse,
}
use sentinel_cosmic.Text.{
  is_empty, trim, words_pair, is_whitespace, trim_start, split_whitespace, join, trim_end, Text,
}

-- A word: not empty, and without whitespace.
abbrev pub IsWord : Text → Type 0
IsWord w = (w ≢ []) × All (λ c. is_whitespace c ≡ false) w

abbrev pub Solid : Text → Type 0
Solid = All (λ c. is_whitespace c ≡ false)

pub words_pair-Solid : (s : Text) → Solid (words_pair s).0
unfolding words_pair
words_pair-Solid [] = tt
words_pair-Solid (c ∷ s) = elim (Bool-cases (is_whitespace c)) [
  | inl e ↦ rw e tt
  | inr e ↦ rw e (e, words_pair-Solid s)
]

words_pair-IsWord : (s : Text) → All IsWord (words_pair s).1
unfolding words_pair
words_pair-IsWord [] = tt
words_pair-IsWord (c ∷ s) = elim (Bool-cases (is_whitespace c)) [
  | inl e ↦
      rw e (with_word (words_pair s).0 (words_pair s).1 (words_pair-Solid s) (words_pair-IsWord s))
  | inr e ↦ rw e (words_pair-IsWord s)
]
  where
    with_word :
        (w : Text) (ws : List Text)
        → Solid w
        → All IsWord ws
        → All IsWord (if is_empty w then ws else w ∷ ws)
    with_word [] ws h hs = hs
    with_word (d ∷ w) ws h hs = ((λ e. cc, h), hs)

pub split_whitespace-IsWord : (s : Text) → All IsWord (split_whitespace s)
unfolding split_whitespace
split_whitespace-IsWord s =
    with_word (words_pair s).0 (words_pair s).1 (words_pair-Solid s) (words_pair-IsWord s)
  where
    with_word :
        (w : Text) (ws : List Text)
        → Solid w
        → All IsWord ws
        → All IsWord (if is_empty w then ws else w ∷ ws)
    with_word [] ws h hs = hs
    with_word (d ∷ w) ws h hs = ((λ e. cc, h), hs)

words_pair_space :
    (c : ℕ) (s : Text) → is_whitespace c ≡ true → words_pair (c ∷ s) ≡ ([], split_whitespace s)
unfolding words_pair split_whitespace
words_pair_space c s h = rw h

-- A run of other characters before a whitespace is the first word.
words_pair_run :
    (w : Text) (c : ℕ) (s : Text)
    → Solid w
    → is_whitespace c ≡ true
    → words_pair (w ++ (c ∷ s)) ≡ (w, split_whitespace s)
unfolding words_pair
words_pair_run [] c s h e = words_pair_space c s e
words_pair_run (d ∷ w) c s (hd, hw) e = rw (hd, words_pair_run w c s hw e)

words_pair_end : (w : Text) → Solid w → words_pair w ≡ (w, [])
unfolding words_pair
words_pair_end [] h = refl
words_pair_end (d ∷ w) (hd, hw) = rw (hd, words_pair_end w hw)

pub split_whitespace_word : (w : Text) → IsWord w → split_whitespace w ≡ w ∷ []
unfolding split_whitespace
split_whitespace_word [] (n, _) = absurd (n refl)
split_whitespace_word (d ∷ w) (n, h) = rw (words_pair_end (d ∷ w) h)

pub split_whitespace-append :
    (w : Text) (c : ℕ) (s : Text)
    → IsWord w
    → is_whitespace c ≡ true
    → split_whitespace (w ++ (c ∷ s)) ≡ w ∷ split_whitespace s
unfolding split_whitespace
split_whitespace-append [] c s (n, h) e = absurd (n refl)
split_whitespace-append (d ∷ w) c s (n, h) e = rw (words_pair_run (d ∷ w) c s h e)

abbrev pub space : Text
space = b' ' ∷ []

-- Words that are joined by blanks are found again.
pub split_whitespace-join : (ws : List Text) → All IsWord ws → split_whitespace (join ws space) ≡ ws
unfolding join
split_whitespace-join [] h = unfold split_whitespace in refl
split_whitespace-join (w ∷ []) h = split_whitespace_word w h.0
split_whitespace-join (w ∷ v ∷ ws) h =
    split_whitespace-append w b' ' (join (v ∷ ws) space) h.0 (unfold is_whitespace in refl)
    ∙ ap (◌∷◌ w) (split_whitespace-join (v ∷ ws) h.1)

trim_start-Solid : (s : Text) → Solid s → trim_start s ≡ s
unfolding trim_start
trim_start-Solid [] h = refl
trim_start-Solid (c ∷ s) h = rw (h.0)

pub Solid-reverse : (s : Text) → Solid s → Solid (reverse s)
Solid-reverse [] h = tt
Solid-reverse (c ∷ s) h =
    rw (reverse-cons c s) (All-append _ (reverse s) (c ∷ []) (Solid-reverse s h.1) (h.0, tt))

-- Trimming leaves a text without whitespace alone.
pub trim-Solid : (s : Text) → Solid s → trim s ≡ s
unfolding trim trim_end
trim-Solid s h =
    rw (trim_start-Solid s h, trim_start-Solid (reverse s) (Solid-reverse s h)) (reverse-reverse s)
