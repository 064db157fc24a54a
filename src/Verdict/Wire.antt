-- ===== src/Verdict/Wire.antt =====
-- The wire format of a verdict: what is written is read back, and what is read as an Allow.
-- What a verdict means to its reader: the opt-in counts with an Allow only.
use sentinel_cosmic.Common.{
  Any, Bool, false, Option-cases, List, inr, ◌∙◌, arith, ◌∷◌, true, [], refl, ◌↔◌, some, All, ◌&&◌,
  sym, ◌≡◌, inl, Bool-cases, any,
}
use sentinel_cosmic.Text.{codes, Text, split_whitespace, trim, text_eq}
use sentinel_cosmic.Text.Equality.{text_eq_iff, any-text_eq_iff}
use sentinel_cosmic.Text.Words.{split_whitespace-IsWord, IsWord, trim-Solid}
use sentinel_cosmic.Verdict.{
  timeout, Verdict, show_verdict, is_allow, parse_tokens, parse_outcome, Outcome, allow,
  parse_verdict, deny, remember_token,
}

abbrev pub normalize : Verdict → Verdict
normalize v = record v { remember = v.remember && is_allow v.outcome }

parse-show_verdict :
    (o : Outcome) (r : Bool)
    → let v : Verdict = record { outcome = o; remember = r } in
      parse_verdict (show_verdict v) ≡ some (normalize v)
unfolding parse_verdict show_verdict
parse-show_verdict allow true = refl
parse-show_verdict allow false = refl
parse-show_verdict deny true = refl
parse-show_verdict deny false = refl
parse-show_verdict timeout true = refl
parse-show_verdict timeout false = refl

-- A verdict that is written and read back keeps its outcome, and keeps the opt-in exactly when the
-- outcome is an Allow.
pub parse_verdict-show_verdict : (v : Verdict) → parse_verdict (show_verdict v) ≡ some (normalize v)
parse_verdict-show_verdict v = parse-show_verdict v.outcome v.remember

parse_outcome_allow : (t : Text) → parse_outcome t ≡ some allow → trim t ≡ codes "ALLOW"
unfolding parse_outcome
parse_outcome_allow t h = elim (Bool-cases (text_eq (trim t) (codes "ALLOW"))) [
  | inl e ↦ (text_eq_iff _ _).0 e
  | inr e ↦ absurd (ground (arith, e))
]

parse_tokens_allow :
    (ts : List Text) (v : Verdict)
    → All IsWord ts
    → parse_tokens ts ≡ some v
    → v.outcome ≡ allow
    → (rest : List Text) × (ts ≡ codes "ALLOW" ∷ rest)
      × (v.remember ≡ any (λ u. text_eq u remember_token) rest)
unfolding parse_tokens
parse_tokens_allow [] v w h a = absurd (unfold parse_outcome in cc)
parse_tokens_allow (t ∷ ts) v (w, ws) h a = elim (Option-cases (parse_outcome t)) [
  | inl e ↦ absurd (ground (arith, e))
  | inr (o, e) ↦
      let exact : t ≡ codes "ALLOW" =
        sym (trim-Solid t w.1) ∙ parse_outcome_allow t (ground (arith, e, h, a)) in
      (ts, cc exact, ground (arith, e, h))
]

-- Fail-safe reading: a line is read as an Allow only if its first word is exactly ALLOW, and as an
-- opt-in only if a later word is exactly REMEMBER.
pub parse_verdict_allow :
    (s : Text) (v : Verdict)
    → parse_verdict s ≡ some v
    → v.outcome ≡ allow
    → (rest : List Text) × (split_whitespace s ≡ codes "ALLOW" ∷ rest)
      × ((v.remember ≡ true) ↔ Any (λ u. u ≡ remember_token) rest)
unfolding parse_verdict
parse_verdict_allow s v h a =
    let (rest, e, r) = parse_tokens_allow (split_whitespace s) v (split_whitespace-IsWord s) h a in
    (rest, e, rw r (any-text_eq_iff remember_token rest))
