-- ===== src/Agent/Helper1.antt =====
-- crates/sentinel-polkit-agent/src/helper1.rs: the conversation with polkit-agent-helper-1.
-- What a read of the socket gives: a line, or an error. The list ends where the peer closes.
use sentinel_cosmic.Common.{
  some, true, suc, if◌then◌else◌, ◌||◌, false, Option, ◌⊎◌, ◌≢◌, is_some, Bool, ◌∷◌, none, ◌≡◌,
  ◌++◌, List, [], ℕ, inl, arith, Bool-cases, refl, inr, ap, ◌∙◌, ◌↔◌,
}
use sentinel_cosmic.Text.{strip_prefix, is_empty, text_eq, codes, trim, Text}
use sentinel_cosmic.Text.Equality.{text_eq_iff}

pub data Read : Type 0 where
  line : Text → Read
  failure : Read

pub data Result {ℓ} (A : Type ℓ) : Type ℓ where
  ok : A → Result A
  err : Result A

-- What the agent writes on the connection.
unfoldable pub greeting : Text → Text → Text
greeting username cookie = username ++ (b'\n' ∷ (cookie ++ (b'\n' ∷ [])))

abbrev is_prompt : Text → Bool
is_prompt rest =
    is_some (strip_prefix rest (codes "PROMPT_ECHO_OFF"))
    || is_some (strip_prefix rest (codes "PROMPT_ECHO_ON"))

-- What one line means: the number of empty replies to send, or a verdict.
pub data Meaning : Type 0 where
  skip : Meaning
  reply : Meaning
  verdict : Bool → Meaning

unfoldable pub after_prefix : Text → Option Text → Meaning
unfolding text_eq strip_prefix
after_prefix t (some rest) = if is_prompt rest then reply else skip
after_prefix t none =
    if text_eq t (codes "SUCCESS")
    then verdict true
    else if text_eq t (codes "FAILURE")
    then verdict false
    else skip

-- The meaning of a trimmed line.
unfoldable pub meaning : Text → Meaning
unfolding after_prefix
meaning trimmed =
    if is_empty trimmed then skip else after_prefix trimmed (strip_prefix trimmed (codes "PAM_"))

-- The loop: the verdict, and how many empty replies went out.
unfoldable pub converse : List Read → Result Bool × ℕ
unfolding meaning trim
converse [] = (ok false, 0)
converse (failure ∷ rs) = (err, 0)
converse (line l ∷ rs) = elim (meaning (trim l)) [
  | skip ↦ converse rs
  | reply ↦ let (v, n) = converse rs in (v, suc n)
  | verdict b ↦ (ok b, 0)
]

-- How the attempt goes: no socket or a failed connection or write, a silence that outlasts
-- HELPER1_TIMEOUT, or a conversation.
pub data Attempt : Type 0 where
  no_connection : Attempt
  silence : Attempt
  conversation : List Read → Attempt

-- `run`. The first argument is the value of SENTINEL_TEST_HELPER1_OUTCOME, if that is set.
unfoldable pub run_helper1 : Option Text → Attempt → Result Bool
unfolding converse text_eq
run_helper1 (some canned) a = ok (text_eq canned (codes "SUCCESS"))
run_helper1 none no_connection = err
run_helper1 none silence = ok false
run_helper1 none (conversation rs) = (converse rs).0

abbrev spelled : Bool → Text
spelled true = codes "SUCCESS"
spelled false = codes "FAILURE"

after_prefix_verdict :
    (t : Text) (p : Option Text) (b : Bool) → after_prefix t p ≡ verdict b → t ≡ spelled b
unfolding after_prefix
after_prefix_verdict t (some rest) b h = absurd (ground (arith, h))
after_prefix_verdict t none true h = (text_eq_iff t (codes "SUCCESS")).0 (ground (arith, h))
after_prefix_verdict t none false h = (text_eq_iff t (codes "FAILURE")).0 (ground (arith, h))

meaning_verdict : (t : Text) (b : Bool) → meaning t ≡ verdict b → t ≡ spelled b
unfolding meaning
meaning_verdict t b h = elim (Bool-cases (is_empty t)) [
  | inl e ↦ absurd (ground (arith, e, h))
  | inr n ↦ after_prefix_verdict t (strip_prefix t (codes "PAM_")) b (rw n at h)
]

meaning_of_spelled : (b : Bool) → meaning (spelled b) ≡ verdict b
unfolding meaning
meaning_of_spelled true = refl
meaning_of_spelled false = refl

meaning-spelled : (t : Text) (b : Bool) → t ≡ spelled b → meaning t ≡ verdict b
meaning-spelled t true e = ap meaning e ∙ meaning_of_spelled true
meaning-spelled t false e = ap meaning e ∙ meaning_of_spelled false

-- A line says SUCCESS, and no line before it says FAILURE or is a failed read.
abbrev pub Succeeds : List Read → Type 0
Succeeds [] = ⊥
Succeeds (failure ∷ rs) = ⊥
Succeeds (line l ∷ rs) = (trim l ≡ codes "SUCCESS") ⊎ ((trim l ≢ codes "FAILURE") × Succeeds rs)

converse_sound : (rs : List Read) → (converse rs).0 ≡ ok true → Succeeds rs
unfolding converse
converse_sound [] h = cc
converse_sound (failure ∷ rs) h = cc
converse_sound (line l ∷ rs) h = by_meaning (meaning (trim l)) refl (converse_sound rs)
  where
    by_meaning :
        (m : Meaning)
        → meaning (trim l) ≡ m
        → ((converse rs).0 ≡ ok true → Succeeds rs)
        → Succeeds (line l ∷ rs)
    by_meaning skip e ih =
        inr (λ f. cc (e, meaning-spelled (trim l) false f), ih (rw (e, converse) at h))
    by_meaning reply e ih =
        inr (λ f. cc (e, meaning-spelled (trim l) false f), ih (rw (e, converse) at h))
    by_meaning (verdict true) e ih = inl (meaning_verdict (trim l) true e)
    by_meaning (verdict false) e ih = absurd (cc (rw (e, converse) at h))

converse_complete : (rs : List Read) → Succeeds rs → (converse rs).0 ≡ ok true
unfolding converse
converse_complete [] s = absurd s
converse_complete (failure ∷ rs) s = absurd s
converse_complete (line l ∷ rs) (inl e) = rw (meaning-spelled (trim l) true e, converse)
converse_complete (line l ∷ rs) (inr (n, s)) =
    by_meaning (meaning (trim l)) refl (converse_complete rs s)
  where
    by_meaning :
        (m : Meaning)
        → meaning (trim l) ≡ m
        → (converse rs).0 ≡ ok true
        → (converse (line l ∷ rs)).0 ≡ ok true
    by_meaning skip e ih = rw (e, converse) ih
    by_meaning reply e ih = rw (e, converse) ih
    by_meaning (verdict true) e ih = rw (e, converse)
    by_meaning (verdict false) e ih = absurd (n (meaning_verdict (trim l) false e))

conversation_inj : {rs qs : List Read} → conversation rs ≡ conversation qs → rs ≡ qs
conversation_inj e = cc

-- Without the test override the attempt succeeds exactly when the connection is made and a line of
-- the conversation, blanks aside, is SUCCESS, with no FAILURE and no failed read before it. Silence
-- and an early end are failures.
pub run_helper1_success :
    (a : Attempt)
    → (run_helper1 none a ≡ ok true) ↔ ((rs : List Read) × (a ≡ conversation rs) × Succeeds rs)
unfolding run_helper1
run_helper1_success no_connection = (λ h. cc, λ h. cc (h.1))
run_helper1_success silence = (λ h. cc, λ h. cc (h.1))
run_helper1_success (conversation rs) =
    (λ h. (rs, refl, converse_sound rs h), λ h. by_reads h.0 h.1 h.2)
  where
    by_reads :
        (qs : List Read)
        → conversation rs ≡ conversation qs
        → Succeeds qs
        → (converse rs).0 ≡ ok true
    by_reads qs e s = rw (conversation_inj e) (converse_complete qs s)
