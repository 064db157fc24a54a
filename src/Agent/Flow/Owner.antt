-- ===== src/Agent/Flow/Owner.antt =====
-- Whose approval lies in the queue: the promise that the comments of ApprovalQueue::drain and of
-- Agent::inflight make, and the histories in which it holds.
use sentinel_cosmic.Agent.Flow.{Job, AgentState, Reach, new_agent}
use sentinel_cosmic.Agent.Flow.Owned.{OrderlyReach, Reach-IsOwned, IsOwned, offers}
use sentinel_cosmic.Agent.Queue.{take_one, Approval, ApprovalQueue}
use sentinel_cosmic.Common.{
  ◌≢◌, ◌≡◌, some, refl, [], ◌∷◌, true, inl, inr, ◌∙◌, sym, arith, ap, length, ℕ, ◌≤◌,
}

one_handed_out : (now : ℕ) (b a : Approval) → (take_one now (b ∷ [])).1 ≡ some a → b ≡ a
unfolding take_one
one_handed_out now b a h = ground (arith, h)

none_handed_out :
    (now : ℕ) (q : ApprovalQueue) (a : Approval) → q ≡ [] → (take_one now q).1 ≢ some a
unfolding take_one
none_handed_out now q a e h = cc (ap (λ l. (take_one now l).1) (sym e) ∙ h)

handed_out :
    (s : AgentState) (a : Approval)
    → IsOwned s
    → (take_one s.now s.queue).1 ≡ some a
    → (length s.queue ≤ 1)
      × ((j : Job) × (s.inflight ≡ some j)
          × (offers j.phase ≡ true)
          × (a.action_id ≡ j.call.action_id))
unfolding take_one
handed_out s a (inl e) h = absurd (none_handed_out s.now s.queue a e h)
handed_out s a (inr (j, w)) h =
    let same =
      one_handed_out s.now w.approval a (ap (λ q. (take_one s.now q).1) (sym w.alone) ∙ h) in
    (
      rw w.alone (omega arith),
      (j, w.holds, w.pending, ap (λ (b : Approval). b.action_id) (sym same) ∙ w.own),
    )

-- No approval is claimed by a stranger, in an orderly history. If no attempt that ended without a drain
-- left its approval unconsumed, and no session pushed one while a cancellation of its cookie was under way,
-- then at any moment at most one approval is queued, and what pam_sentinel is handed was pushed for the
-- action of the very request that holds the mutex and waits for helper-1.
pub take_one-own :
    (now : ℕ) (s : AgentState) (a : Approval) (r : Reach (new_agent now) s)
    → OrderlyReach r
    → (take_one s.now s.queue).1 ≡ some a
    → (length s.queue ≤ 1)
      × ((j : Job) × (s.inflight ≡ some j)
          × (offers j.phase ≡ true)
          × (a.action_id ≡ j.call.action_id))
unfolding new_agent
take_one-own now s a r o h = handed_out s a (Reach-IsOwned refl (inl refl) r o) h
