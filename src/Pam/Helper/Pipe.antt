-- ===== src/Pam/Helper/Pipe.antt =====
-- The verdict on its way through the pipe.
use sentinel_cosmic.Common.{
  ◌≡◌, ◌++◌, [], ◌&&◌, false, Bool, refl, ◌∷◌, true, ◌||◌, List, take, some, ◌==◌, ℕ, inl, none,
  inr, sym, unwrap_or, ap, Option-cases, ◌∙◌, Option,
}
use sentinel_cosmic.Pam.Helper.{
  ok, read_answer, bytes, ready, parent_wait, Spawn, fork_failed, read_failed, pipe_failed, forked,
  run_child, interrupted, poll_timeout, poll_failed, bare_deny,
}
use sentinel_cosmic.Pam.Utf8.{from_utf8}
use sentinel_cosmic.Text.{Text, first_part, split_whitespace, codes}
use sentinel_cosmic.Verdict.{Outcome, is_allow, show_verdict, Verdict, parse_verdict}
use sentinel_cosmic.Verdict.Wire.{parse_verdict_allow}

-- Whatever the helper prints as its verdict, the parent reads exactly that verdict from the 16 bytes it
-- takes; only a tick on something that is no Allow is lost.
pub parent_wait-show_verdict :
    (v : Verdict)
    → parent_wait (ready (bytes (show_verdict v ++ (b'\n' ∷ []))))
      ≡ (false, ok (record { outcome = v.outcome; remember = v.remember && is_allow v.outcome }))
unfolding parent_wait read_answer show_verdict
parent_wait-show_verdict v = by_cases v.outcome v.remember
  where
    by_cases :
        (o : Outcome) (b : Bool)
        → parent_wait
            (ready (bytes (show_verdict (record { outcome = o; remember = b }) ++ (b'\n' ∷ []))))
          ≡ (false, ok (record { outcome = o; remember = b && is_allow o }))
    by_cases Outcome.allow true = refl
    by_cases Outcome.allow false = refl
    by_cases Outcome.deny true = refl
    by_cases Outcome.deny false = refl
    by_cases Outcome.timeout true = refl
    by_cases Outcome.timeout false = refl

abbrev first_line : Text → Text
first_line s = first_part (λ c. c == b'\n' || c == b'\r') s

abbrev outcome_of : Option Verdict → Outcome
outcome_of p = (unwrap_or p bare_deny).outcome

some_verdict :
    (p : Option Verdict)
    → outcome_of p ≡ Outcome.allow
    → (w : Verdict) × (p ≡ some w) × (w.outcome ≡ Outcome.allow)
some_verdict none a = absurd (cc a)
some_verdict (some w) a = (w, refl, a)

read_answer_allow :
    (buf : List ℕ)
    → (read_answer buf).outcome ≡ Outcome.allow
    → (text : Text) × (rest : List Text) × (from_utf8 buf ≡ some text)
      × (split_whitespace (first_line text) ≡ codes "ALLOW" ∷ rest)
unfolding read_answer parse_verdict
read_answer_allow buf a = elim (Option-cases (from_utf8 buf)) [
  | inl e ↦
      absurd (cc (ap (λ o. outcome_of (parse_verdict (first_line (unwrap_or o [])))) (sym e) ∙ a))
  | inr (text, e) ↦
      let (w, p, allowed) =
        some_verdict (parse_verdict (first_line text))
          (ap (λ o. outcome_of (parse_verdict (first_line (unwrap_or o [])))) (sym e) ∙ a) in
      let (rest, words, ticked) = parse_verdict_allow (first_line text) w p allowed in
      (text, rest, e, words)
]

ok_inj : {v w : Verdict} → ok v ≡ ok w → v ≡ w
ok_inj e = cc

-- Nothing but a written ALLOW lets the user in: the parent takes an answer for an Allow only if the
-- child was started, its output came within the deadline, and the first line of the 16 bytes that were
-- read is UTF-8 and begins with the word ALLOW.
pub run_child_allow :
    (s : Spawn) (v : Verdict)
    → run_child s ≡ ok v
    → v.outcome ≡ Outcome.allow
    → (out : List ℕ) × (text : Text) × (rest : List Text) × (s ≡ forked (ready (bytes out)))
      × (from_utf8 (take 16 out) ≡ some text)
      × (split_whitespace (first_part (λ c. c == b'\n' || c == b'\r') text) ≡ codes "ALLOW" ∷ rest)
unfolding run_child parent_wait
run_child_allow pipe_failed v h a = absurd (cc h)
run_child_allow fork_failed v h a = absurd (cc h)
run_child_allow (forked poll_failed) v h a = absurd (cc h)
run_child_allow (forked poll_timeout) v h a = absurd (cc h)
run_child_allow (forked (ready interrupted)) v h a = absurd (cc h)
run_child_allow (forked (ready read_failed)) v h a = absurd (cc h)
run_child_allow (forked (ready (bytes []))) v h a = absurd (cc h)
run_child_allow (forked (ready (bytes (b ∷ bs)))) v h a =
    let (text, rest, e, words) =
      read_answer_allow (take 16 (b ∷ bs)) (ap (λ (w : Verdict). w.outcome) (ok_inj h) ∙ a) in
    (b ∷ bs, text, rest, refl, e, words)
