-- ===== src/Agent/Queue.antt =====
-- crates/sentinel-polkit-agent/src/approval_queue.rs and bypass_service.rs: the queue of approvals.
-- Instants count nanoseconds; the queue is the list behind the mutex, oldest approval first.
pub mod Take
pub mod Accounting
use sentinel_cosmic.Common.{
  is_some, ℕ, ◌∷◌, some, Option, ◌++◌, none, ltb, List, ◌+◌, Bool, if◌then◌else◌, [],
}
use sentinel_cosmic.Grants.{secs}
use sentinel_cosmic.Text.{Text}

pub record Approval : Type 0 where
  pub action_id : Text
  pub expires_at : ℕ

abbrev pub ApprovalQueue : Type 0
ApprovalQueue = List Approval

abbrev pub default_ttl : ℕ
default_ttl = secs 1

abbrev pub new_approval : ℕ → Text → Approval
new_approval now action_id = record { action_id = action_id; expires_at = now + default_ttl }

-- `ApprovalQueue::push` at the instant `now`.
unfoldable pub push : ℕ → ApprovalQueue → Text → ApprovalQueue
push now q action_id = q ++ (new_approval now action_id ∷ [])

-- `ApprovalQueue::take_one`: drop what has expired, hand out the first that has not.
unfoldable pub take_one : ℕ → ApprovalQueue → ApprovalQueue × Option Approval
take_one now [] = ([], none)
take_one now (front ∷ q) =
    let rest = take_one now q in if ltb now front.expires_at then (q, some front) else rest

-- `ApprovalQueue::drain`.
unfoldable pub drain : ApprovalQueue → ApprovalQueue
drain q = []

-- `BypassService::take_approval`, the method that pam_sentinel calls.
unfoldable pub take_approval : ℕ → ApprovalQueue → ApprovalQueue × Bool
unfolding take_one
take_approval now q = let (q', a) = take_one now q in (q', is_some a)
