-- ===== src/Agent/Queue/Take.antt =====
-- What `take_one` hands out.
-- How a queue is taken apart: what expired goes, and the first live approval is handed out.
use sentinel_cosmic.Agent.Queue.{ApprovalQueue, Approval, take_one}
use sentinel_cosmic.Common.{
  ℕ, ap, refl, ◌∷◌, ◌≡◌, ◌≤◌, All, some, ◌<◌, Bool-cases, Option, inl, ◌⊎◌, ◌++◌, inr, none, ltb,
  arith, [],
}

pub record Taken (now : ℕ) (q : ApprovalQueue) (rest : ApprovalQueue) (got : Option Approval)
    : Type 0 where
  pub expired : ApprovalQueue
  pub all_expired : All (λ a. a.expires_at ≤ now) expired
  pub split :
      ((got ≡ none) × (rest ≡ []) × (q ≡ expired))
      ⊎ ((a : Approval) × (got ≡ some a) × (now < a.expires_at) × (q ≡ expired ++ (a ∷ rest)))

skip_front :
    (now : ℕ) (front : Approval) (q rest : ApprovalQueue) (got : Option Approval)
    → front.expires_at ≤ now
    → Taken now q rest got
    → Taken now (front ∷ q) rest got
skip_front now front q rest got old t = record {
  expired = front ∷ t.expired;
  all_expired = (old, t.all_expired);
  split = elim t.split [
    | inl (e, r, s) ↦ inl (e, r, ap (◌∷◌ front) s)
    | inr (a, e, live, s) ↦ inr (a, e, live, ap (◌∷◌ front) s)
  ];
}

-- An approval is handed out exactly when one has not expired. It is the oldest such, everything before
-- it had expired and is dropped, and everything behind it stays.
pub take_one-Taken :
    (now : ℕ) (q : ApprovalQueue) → Taken now q (take_one now q).0 (take_one now q).1
unfolding take_one
take_one-Taken now [] = record { expired = []; all_expired = tt; split = inl (refl, refl, refl) }
take_one-Taken now (front ∷ q) = elim (Bool-cases (ltb now front.expires_at)) [
  | inl live ↦ rw live (record {
    expired = [];
    all_expired = tt;
    split = inr (front, refl, ground (arith, live), refl);
  })
  | inr old ↦ rw old (
      skip_front now front q (take_one now q).0 (take_one now q).1 (ground (arith, old))
        (take_one-Taken now q))
]
