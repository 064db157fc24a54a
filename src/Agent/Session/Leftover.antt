-- ===== src/Agent/Session/Leftover.antt =====
-- What a run leaves in the queue of approvals.
use sentinel_cosmic.Agent.Helper1.{run_helper1}
use sentinel_cosmic.Agent.Queue.{new_approval, push, ApprovalQueue}
use sentinel_cosmic.Agent.Session.{
  Result, ok, run, Env, State, hand_off, settle, AuthInputs, helper1_failed, take_all,
}
use sentinel_cosmic.Agent.Session.Consent.{run-Shape, Consented}
use sentinel_cosmic.Agent.Session.HandOff.{hand_off-false}
use sentinel_cosmic.Common.{◌++◌, false, ◌∙◌, Bool, ◌∷◌, [], inr, sym, inl, ◌≡◌, ap}
use sentinel_cosmic.Grants.Map.{kept}
use sentinel_cosmic.Agent.Helper1

-- After a run that was agreed to and returned false the queue is empty: an approval that helper-1 did
-- not consume cannot be claimed by a later request.
pub run-false_drains :
    (env : Env) (i : AuthInputs) (s : State)
    → Consented env i s
    → (run env i s).1 ≡ ok false
    → (run env i s).0.queue ≡ []
run-false_drains env i s c h = elim (run-Shape env i s) [
  | inl (n, kept) ↦ absurd (n c)
  | inr (_, (warns, s', q, e)) ↦
      ap (λ (r : State × Result). r.0.queue) e
      ∙ hand_off-false warns env i s' (ap (λ (r : State × Result). r.1) (sym e) ∙ h)
]

hand_off_error :
    (warns : Bool) (env : Env) (i : AuthInputs) (s : State)
    → run_helper1 env.canned_helper1 env.helper1 ≡ Helper1.err
    → env.takes ≡ []
    → ((hand_off warns env i s).1 ≡ helper1_failed)
      × ((hand_off warns env i s).0.queue ≡ s.queue ++ (new_approval env.now_push i.action_id ∷ []))
unfolding hand_off settle push
hand_off_error warns env i s e t = (rw (e, settle), rw (e, settle) (rw (t, take_all)))

-- The approval is left behind when helper-1 cannot be reached: a run that was agreed to and whose
-- connection to helper-1 fails, while nobody takes an approval, ends with an error and leaves its
-- approval in the queue, live for a second.
pub run_error_leaves :
    (env : Env) (i : AuthInputs) (s : State)
    → Consented env i s
    → run_helper1 env.canned_helper1 env.helper1 ≡ Helper1.err
    → env.takes ≡ []
    → ((run env i s).1 ≡ helper1_failed)
      × ((run env i s).0.queue ≡ s.queue ++ (new_approval env.now_push i.action_id ∷ []))
run_error_leaves env i s c f t = elim (run-Shape env i s) [
  | inl (n, kept) ↦ absurd (n c)
  | inr (_, (warns, s', q, e)) ↦
      let (failed, left) = hand_off_error warns env i s' f t in
      (
        ap (λ (r : State × Result). r.1) e ∙ failed,
        ap (λ (r : State × Result). r.0.queue) e
            ∙ left
            ∙ ap (λ (l : ApprovalQueue). l ++ (new_approval env.now_push i.action_id ∷ [])) q,
      )
]
