-- ===== src/Text/Trim.antt =====
-- Trimming words that are joined by blanks.
use mathlib.Core.List.{reverse-append, reverse-reverse}
use sentinel_cosmic.Common.{
  List, ap, ◌∷◌, ◌∙◌, reverse, append_assoc, ◌≢◌, Bool-cases, inr, refl, [], All, false, inl, true,
  append-nil, sym, ◌++◌, ◌≡◌,
}
use sentinel_cosmic.Text.{trim, join, is_empty, split_whitespace, Text, trim_start, trim_end}
use sentinel_cosmic.Text.Words.{Solid-reverse, split_whitespace-join, Solid, space, IsWord}

trim_start-append : (x y : Text) → x ≢ [] → Solid x → trim_start (x ++ y) ≡ x ++ y
unfolding trim_start
trim_start-append [] y n h = absurd (n refl)
trim_start-append (c ∷ x) y n h = rw (h.0)

trim_end-append : (x y : Text) → IsWord y → trim_end (x ++ y) ≡ x ++ y
unfolding trim_end
trim_end-append x y (n, h) = rw (reverse-append x y) (
    rw
      (trim_start-append (reverse y) (reverse x) (λ e. n (sym (reverse-reverse y) ∙ ap reverse e))
        (Solid-reverse y h))
      (ap reverse (sym (reverse-append x y)) ∙ reverse-reverse (x ++ y)))

-- The last word of a line.
join_last :
    (w : Text) (ws : List Text)
    → All IsWord (w ∷ ws)
    → (front : Text) × (last : Text) × IsWord last × (join (w ∷ ws) space ≡ front ++ last)
unfolding join
join_last w [] h = ([], w, h.0, refl)
join_last w (v ∷ ws) h =
    let (front, last, word, e) = join_last v ws h.1 in
    (w ++ (space ++ front), last, word, rw e (sym (append_assoc w (space ++ front) last)))

join_first : (w : Text) (ws : List Text) → (rest : Text) × (join (w ∷ ws) space ≡ w ++ rest)
unfolding join
join_first w [] = ([], sym (append-nil w))
join_first w (v ∷ ws) = (space ++ join (v ∷ ws) space, refl)

-- Words that are joined by blanks stand without a blank at either end.
pub trim-join :
    (w : Text) (ws : List Text)
    → All IsWord (w ∷ ws)
    → trim (join (w ∷ ws) space) ≡ join (w ∷ ws) space
unfolding trim
trim-join w ws h =
    let (rest, first) = join_first w ws in
    let (front, last, word, e) = join_last w ws h in
    ap trim_end (ap trim_start first ∙ trim_start-append w rest (h.0.0) (h.0.1) ∙ sym first)
    ∙ ap trim_end e
    ∙ trim_end-append front last word
    ∙ sym e

empty_of : (s : Text) → is_empty s ≡ true → s ≡ []
empty_of [] h = refl
empty_of (c ∷ s) h = cc

-- And they are not empty.
pub join_not_empty :
    (w : Text) (ws : List Text) → All IsWord (w ∷ ws) → is_empty (join (w ∷ ws) space) ≡ false
unfolding split_whitespace
join_not_empty w ws h = elim (Bool-cases (is_empty (join (w ∷ ws) space))) [
  | inl e ↦
      absurd
        (no_words (sym (split_whitespace-join (w ∷ ws) h) ∙ ap split_whitespace (empty_of _ e)))
  | inr n ↦ n
]
  where
    no_words : w ∷ ws ≢ []
    no_words e = cc e
