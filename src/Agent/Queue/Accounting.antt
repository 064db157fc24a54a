-- ===== src/Agent/Queue/Accounting.antt =====
-- Approvals over a whole history: each serves once.
use sentinel_cosmic.Agent.Queue.{push, ApprovalQueue, drain, take_one, take_approval, new_approval}
use sentinel_cosmic.Agent.Queue.Take.{take_one-Taken, Taken}
use sentinel_cosmic.Common.{
  ℕ, refl, ◌∷◌, length-append, ◌≡◌, ◌≤◌, inl, ◌∙◌, ◌++◌, inr, length, List, arith, ◌+◌,
  if◌then◌else◌, [], append-nil, ap, sym, append_assoc,
}
use sentinel_cosmic.Text.{Text}

pub data Call : Type 0 where
  pushes : Text → Call
  takes : Call
  drains : Call

-- The calls on one queue, newest first, each with its instant.
abbrev pub Calls : Type 0
Calls = List (ℕ × Call)

abbrev after : ℕ → Call → ApprovalQueue → ApprovalQueue
after t (pushes action) q = push t q action
after t takes q = (take_approval t q).0
after t drains q = drain q

unfoldable pub queue_after : Calls → ApprovalQueue
unfolding push take_approval drain
queue_after [] = []
queue_after ((t, c) ∷ h) = after t c (queue_after h)

-- What was pushed since the last drain, oldest first.
abbrev pub pushed : Calls → ApprovalQueue
pushed [] = []
pushed ((t, pushes action) ∷ h) = pushed h ++ (new_approval t action ∷ [])
pushed ((t, takes) ∷ h) = pushed h
pushed ((t, drains) ∷ h) = []

-- How many calls since the last drain were answered with an approval.
unfoldable pub answered : Calls → ℕ
unfolding take_approval
answered [] = 0
answered ((t, pushes action) ∷ h) = answered h
answered ((t, takes) ∷ h) = (if (take_approval t (queue_after h)).1 then 1 else 0) + answered h
answered ((t, drains) ∷ h) = 0

-- The queue is what is left of the pushes, and every answer used up one of those that are gone.
pub record Ledger (h : Calls) : Type 0 where
  pub gone : ApprovalQueue
  pub accounts : pushed h ≡ gone ++ queue_after h
  pub spent : answered h ≤ length gone

regroup : (gone used rest q : ApprovalQueue) → q ≡ used ++ rest → gone ++ q ≡ (gone ++ used) ++ rest
regroup gone used rest q e = rw e (sym (append_assoc gone used rest))

Ledger-take :
    (t : ℕ) (h : Calls)
    → Ledger h
    → Taken t (queue_after h) (take_one t (queue_after h)).0 (take_one t (queue_after h)).1
    → Ledger ((t, takes) ∷ h)
unfolding queue_after answered take_approval
Ledger-take t h l k = elim k.split [
  | inl (e, r, s) ↦ record {
    gone = l.gone ++ k.expired;
    accounts =
        l.accounts
        ∙ regroup l.gone k.expired (take_one t (queue_after h)).0 (queue_after h)
            (s ∙ sym (append-nil k.expired) ∙ ap (◌++◌ k.expired) (sym r));
    spent = rw e (omega (arith, l.spent, length-append {0} l.gone k.expired));
  }
  | inr (a, e, live, s) ↦ record {
    gone = l.gone ++ (k.expired ++ (a ∷ []));
    accounts =
        l.accounts
        ∙ regroup l.gone (k.expired ++ (a ∷ [])) (take_one t (queue_after h)).0 (queue_after h)
            (s ∙ sym (append_assoc k.expired (a ∷ []) (take_one t (queue_after h)).0));
    spent = rw e (
        omega (
          arith,
          l.spent,
          length-append {0} l.gone (k.expired ++ (a ∷ [])),
          length-append {0} k.expired (a ∷ []),
        ));
  }
]

-- At any moment the queue holds, in order, exactly the approvals pushed since the last drain without
-- an initial part that is used up, and no more calls were answered with an approval than that part
-- has: an approval serves one call at most, and none that was drained serves any.
pub ledger : (h : Calls) → Ledger h
unfolding queue_after answered push
ledger [] = record { gone = []; accounts = refl; spent = omega arith }
ledger ((t, pushes action) ∷ h) =
    let l = ledger h in
    record {
      gone = l.gone;
      accounts =
          ap (λ (q : ApprovalQueue). q ++ (new_approval t action ∷ [])) l.accounts
          ∙ append_assoc l.gone (queue_after h) (new_approval t action ∷ []);
      spent = l.spent;
    }
ledger ((t, takes) ∷ h) = Ledger-take t h (ledger h) (take_one-Taken t (queue_after h))
ledger ((t, drains) ∷ h) = record { gone = []; accounts = refl; spent = omega arith }
