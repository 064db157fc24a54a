-- ===== src/Agent/Registration/Retry.antt =====
-- When the registration succeeds.
-- The first attempt that is not met by another agent's registration is accepted, and it is one of the first `n`.
use sentinel_cosmic.Agent.Begin.{detail}
use sentinel_cosmic.Agent.Registration.{
  is_agent_already_registered, registered, Attempted, accepted, register, method_error, other_error,
  not_registered,
}
use sentinel_cosmic.Common.{
  ℕ, zero, arith, ◌≡◌, true, ◌<◌, suc, ◌↔◌, refl, false, ap, ◌≢◌, sym, Bool-cases, inr, inl, ◌∙◌,
}

abbrev pub Wins : ℕ → (ℕ → Attempted) → Type 0
Wins n answers =
    (k : ℕ) × (k < n)
    × (answers k ≡ accepted)
    × ((j : ℕ) → j < k → is_agent_already_registered (answers j) ≡ true)

accepted_free : is_agent_already_registered accepted ≡ false
unfolding is_agent_already_registered
accepted_free = refl

other_free : is_agent_already_registered other_error ≡ false
unfolding is_agent_already_registered
other_free = refl

-- What the first answer leaves of the rest.
later :
    (n : ℕ) (answers : ℕ → Attempted)
    → is_agent_already_registered (answers 0) ≡ true
    → Wins n (λ k. answers (suc k)) ↔ Wins (suc n) answers
later n answers busy = (
  λ w. (suc w.0, omega (arith, w.1), w.2, λ j lt. earlier w.0 (w.3) j lt),
  λ w. back w.0 (w.1) (w.2) (w.3),
)
  where
    earlier :
        (k : ℕ)
        → ((j : ℕ) → j < k → is_agent_already_registered (answers (suc j)) ≡ true)
        → (j : ℕ) → j < suc k
        → is_agent_already_registered (answers j) ≡ true
    earlier k h zero lt = busy
    earlier k h (suc j) lt = h j (omega (arith, lt))

    back :
        (k : ℕ)
        → k < suc n
        → answers k ≡ accepted
        → ((j : ℕ) → j < k → is_agent_already_registered (answers j) ≡ true)
        → Wins n (λ i. answers (suc i))
    back zero lt e h = absurd (cc (ap is_agent_already_registered e, busy, accepted_free))
    back (suc k) lt e h = (k, omega (arith, lt), e, λ j less. h (suc j) (omega (arith, less)))

-- Any other error ends it.
no_win :
    (n : ℕ) (answers : ℕ → Attempted)
    → answers 0 ≢ accepted
    → is_agent_already_registered (answers 0) ≡ false
    → ¬ Wins (suc n) answers
no_win n answers refused free (zero, lt, e, h) = refused e
no_win n answers refused free (suc k, lt, e, h) = cc (free, h 0 (omega arith))

stops :
    (n : ℕ) (answers : ℕ → Attempted)
    → (register (suc n) answers).0 ≡ not_registered
    → ¬ Wins (suc n) answers
    → ((register (suc n) answers).0 ≡ registered) ↔ Wins (suc n) answers
stops n answers e lost = (λ h. absurd (cc (e, h)), λ w. absurd (lost w))

-- The agent registers exactly when, within its attempts, polkit accepts one and every one before it was turned
-- down for an agent that is already registered: any other error ends the attempts at once.
pub register_iff :
    (n : ℕ) (answers : ℕ → Attempted) → ((register n answers).0 ≡ registered) ↔ Wins n answers
unfolding register
register_iff zero answers = (λ h. absurd (cc h), λ h. absurd (omega (arith, h.1)))
register_iff (suc n) answers = by_answer (answers 0) refl (register_iff n (λ k. answers (suc k)))
  where
    by_answer :
        (a : Attempted)
        → answers 0 ≡ a
        → ((register n (λ k. answers (suc k))).0 ≡ registered) ↔ Wins n (λ k. answers (suc k))
        → ((register (suc n) answers).0 ≡ registered) ↔ Wins (suc n) answers
    by_answer accepted e ih =
        (λ h. (0, omega arith, e, λ j lt. absurd (omega (arith, lt))), λ w. rw (e, register))
    by_answer other_error e ih =
        stops n answers (rw (e, register))
          (no_win n answers (λ q. cc (e, q)) (ap is_agent_already_registered e ∙ other_free))
    by_answer (method_error name detail) e ih =
        elim (Bool-cases (is_agent_already_registered (method_error name detail))) [
          | inl b ↦
              let same = later n answers (ap is_agent_already_registered e ∙ b) in
              let rest : (register (suc n) answers).0 ≡ (register n (λ k. answers (suc k))).0 =
                rw (e, register) (rw b) in
              (λ h. same.0 (ih.0 (sym rest ∙ h)), λ w. rest ∙ ih.1 (same.1 w))
          | inr f ↦
              stops n answers (rw (e, register) (rw f))
                (no_win n answers (λ q. cc (e, q)) (ap is_agent_already_registered e ∙ f))
        ]
