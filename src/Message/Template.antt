-- ===== src/Message/Template.antt =====
-- Templates as sequences of pieces: what each piece turns into.
-- A character behind `%` that is neither a token's letter nor a percent sign.
use sentinel_cosmic.Common.{
  Bool-cases, if◌then◌else◌, [], ◌≢◌, ◌++◌, arith, ◌∙◌, ap, refl, ◌==◌, inl, inr, ◌≡◌, List, ◌∷◌, ℕ,
  ==_iff, false, sym, true, Bool, append_assoc, subst,
}
use sentinel_cosmic.Message.{format_message, expand}
use sentinel_cosmic.Text.{Text, codes}

abbrev pub Foreign : ℕ → Type 0
Foreign c = (c ≢ b'u') × (c ≢ b's') × (c ≢ b'p') × (c ≢ b'%')

-- The pieces that a template can be written with.
pub data Piece : Type 0 where
  literal : (c : ℕ) → c ≢ b'%' → Piece
  user_token : Piece
  service_token : Piece
  process_token : Piece
  percent : Piece
  unknown : (c : ℕ) → Foreign c → Piece

-- How a piece is spelt in a template.
abbrev pub spell : Piece → Text
spell (literal c n) = c ∷ []
spell user_token = codes "%u"
spell service_token = codes "%s"
spell process_token = codes "%p"
spell percent = codes "%%"
spell (unknown c n) = b'%' ∷ c ∷ []

abbrev pub spell_all : List Piece → Text
spell_all [] = []
spell_all (p ∷ ps) = spell p ++ spell_all ps

module _ (user service process : Text) where
  -- What a piece stands for.
  abbrev pub meaning : Piece → Text
  meaning (literal c n) = c ∷ []
  meaning user_token = user
  meaning service_token = service
  meaning process_token = process
  meaning percent = b'%' ∷ []
  meaning (unknown c n) = b'%' ∷ c ∷ []

  abbrev pub meaning_all : List Piece → Text
  meaning_all [] = []
  meaning_all (p ∷ ps) = meaning p ++ meaning_all ps

  expand_literal :
      (c : ℕ) (s : Text)
      → c ≢ b'%'
      → expand user service process (c ∷ s) ≡ c ∷ expand user service process s
  unfolding expand
  expand_literal c [] n = refl
  expand_literal c (d ∷ s) n = ground arith

  expand_unknown :
      (c : ℕ) (s : Text)
      → Foreign c
      → expand user service process (b'%' ∷ c ∷ s) ≡ b'%' ∷ c ∷ expand user service process s
  unfolding expand
  expand_unknown c s n = ground arith

-- A percent sign with nothing behind it can end a template.
abbrev pub dangling : Bool → Text
dangling true = b'%' ∷ []
dangling false = []

-- What remains of a template behind its pieces is expanded by itself.
expand_behind :
    (user service process : Text) (ps : List Piece) (s : Text)
    → expand user service process (spell_all ps ++ s)
      ≡ meaning_all user service process ps ++ expand user service process s
unfolding expand
expand_behind u v p [] s = refl
expand_behind u v p (literal c n ∷ ps) s =
    expand_literal u v p c (spell_all ps ++ s) n ∙ ap (◌∷◌ c) (expand_behind u v p ps s)
expand_behind u v p (user_token ∷ ps) s =
    ap (◌++◌ u) (expand_behind u v p ps s) ∙ sym (append_assoc u (meaning_all u v p ps) _)
expand_behind u v p (service_token ∷ ps) s =
    ap (◌++◌ v) (expand_behind u v p ps s) ∙ sym (append_assoc v (meaning_all u v p ps) _)
expand_behind u v p (process_token ∷ ps) s =
    ap (◌++◌ p) (expand_behind u v p ps s) ∙ sym (append_assoc p (meaning_all u v p ps) _)
expand_behind u v p (percent ∷ ps) s = ap (◌∷◌ b'%') (expand_behind u v p ps s)
expand_behind u v p (unknown c n ∷ ps) s =
    expand_unknown u v p c (spell_all ps ++ s) n
    ∙ ap (λ (t : Text). b'%' ∷ c ∷ t) (expand_behind u v p ps s)

expand-dangling : (u v p : Text) (b : Bool) → expand u v p (dangling b) ≡ dangling b
unfolding expand
expand-dangling u v p true = refl
expand-dangling u v p false = refl

-- Every token is replaced by its value, inserted as it is and never read again as a template;
-- `%%` gives one percent sign; an unknown `%x`, a percent sign that ends the template and every other
-- character stay as they are.
pub format_message-spell_all :
    (user service process : Text) (ps : List Piece) (ends_in_percent : Bool)
    → format_message (spell_all ps ++ dangling ends_in_percent) user service process
      ≡ meaning_all user service process ps ++ dangling ends_in_percent
unfolding format_message
format_message-spell_all user service process ps b =
    expand_behind user service process ps (dangling b)
    ∙ ap (λ (t : Text). meaning_all user service process ps ++ t)
        (expand-dangling user service process b)

-- Every template is a sequence of pieces, with a percent sign behind them perhaps.
abbrev Spelled : Text → Type 0
Spelled t =
    (ps : List Piece) × (ends_in_percent : Bool) × (t ≡ spell_all ps ++ dangling ends_in_percent)

Spelled-more : (p : Piece) (t : Text) → Spelled t → Spelled (spell p ++ t)
Spelled-more p t (ps, b, e) =
    (p ∷ ps, b, ap (λ (r : Text). spell p ++ r) e ∙ sym (append_assoc (spell p) (spell_all ps) _))

token : (d : ℕ) → (p : Piece) × (spell p ≡ b'%' ∷ d ∷ [])
token d = elim (Bool-cases (d == b'u')) [
  | inl e ↦ (user_token, rw ((==_iff d b'u').0 e) refl)
  | inr u ↦ elim (Bool-cases (d == b's')) [
    | inl e ↦ (service_token, rw ((==_iff d b's').0 e) refl)
    | inr s ↦ elim (Bool-cases (d == b'p')) [
      | inl e ↦ (process_token, rw ((==_iff d b'p').0 e) refl)
      | inr p ↦ elim (Bool-cases (d == b'%')) [
        | inl e ↦ (percent, rw ((==_iff d b'%').0 e) refl)
        | inr q ↦ (
          unknown d (ground (arith, u), ground (arith, s), ground (arith, p), ground (arith, q)),
          refl,
        )
      ]
    ]
  ]
]

pub template-Spelled : (t : Text) → Spelled t
template-Spelled [] = ([], false, refl)
template-Spelled (c ∷ []) = elim (Bool-cases (c == b'%')) [
  | inl e ↦ ([], true, ap (λ d. d ∷ []) ((==_iff c b'%').0 e))
  | inr n ↦ (literal c (ground (arith, n)) ∷ [], false, refl)
]
template-Spelled (c ∷ d ∷ t) =
    let behind = template-Spelled t in
    let rest = template-Spelled (d ∷ t) in
    elim (Bool-cases (c == b'%')) [
      | inl e ↦
          let (p, spelt) = token d in
          subst Spelled
            (ap (λ (r : Text). r ++ t) spelt ∙ ap (λ k. k ∷ d ∷ t) (sym ((==_iff c b'%').0 e)))
            (Spelled-more p t behind)
      | inr n ↦ Spelled-more (literal c (ground (arith, n))) (d ∷ t) rest
    ]

-- Doubling every percent sign.
abbrev pub escape : Text → Text
escape [] = []
escape (c ∷ s) = if c == b'%' then b'%' ∷ b'%' ∷ escape s else c ∷ escape s

expand_percent : (u v p s : Text) → expand u v p (b'%' ∷ b'%' ∷ s) ≡ b'%' ∷ expand u v p s
unfolding expand
expand_percent u v p s = refl

expand-escape : (u v p s : Text) → expand u v p (escape s) ≡ s
expand-escape u v p [] = unfold expand in refl
expand-escape u v p (c ∷ s) = elim (Bool-cases (c == b'%')) [
  | inl e ↦ rw (e, (==_iff c b'%').0 e, expand_percent, expand-escape u v p s)
  | inr n ↦
      rw n
        (expand_literal u v p c (escape s) (ground (arith, n)) ∙ ap (◌∷◌ c) (expand-escape u v p s))
]

-- A text whose percent signs are doubled is shown as it is.
pub format_message-escape :
    (s user service process : Text) → format_message (escape s) user service process ≡ s
unfolding format_message
format_message-escape s user service process = expand-escape user service process s
