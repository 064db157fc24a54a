-- ===== src/Agent/Session/HandOff.antt =====
-- What the result of a hand-off says of helper-1 and of the queue.
use sentinel_cosmic.Agent.Helper1.{run_helper1}
use sentinel_cosmic.Agent.Queue.{push, drain}
use sentinel_cosmic.Agent.Session.{
  ok, Env, log_refusal, State, hand_off, settle, take_all, AuthInputs,
}
use sentinel_cosmic.Common.{false, ◌≡◌, refl, [], Bool, true}
use sentinel_cosmic.Agent.Helper1

settle-true :
    (warns : Bool) (i : AuthInputs) (s : State) (r : Helper1.Result Bool)
    → (settle warns i s r).1 ≡ ok true
    → r ≡ Helper1.ok true
unfolding settle
settle-true warns i s Helper1.err h = cc
settle-true warns i s (Helper1.ok true) h = refl
settle-true warns i s (Helper1.ok false) h = cc

settle-false :
    (warns : Bool) (i : AuthInputs) (s : State) (r : Helper1.Result Bool)
    → (settle warns i s r).1 ≡ ok false
    → (settle warns i s r).0.queue ≡ []
unfolding settle drain log_refusal
settle-false warns i s Helper1.err h = cc
settle-false warns i s (Helper1.ok true) h = cc
settle-false true i s (Helper1.ok false) h = refl
settle-false false i s (Helper1.ok false) h = refl

pub hand_off-true :
    (warns : Bool) (env : Env) (i : AuthInputs) (s : State)
    → (hand_off warns env i s).1 ≡ ok true
    → run_helper1 env.canned_helper1 env.helper1 ≡ Helper1.ok true
unfolding hand_off
hand_off-true warns env i s h =
    settle-true warns i
      (record s { queue = take_all env.takes (push env.now_push s.queue i.action_id) })
      (run_helper1 env.canned_helper1 env.helper1) h

pub hand_off-false :
    (warns : Bool) (env : Env) (i : AuthInputs) (s : State)
    → (hand_off warns env i s).1 ≡ ok false
    → (hand_off warns env i s).0.queue ≡ []
unfolding hand_off
hand_off-false warns env i s h =
    settle-false warns i
      (record s { queue = take_all env.takes (push env.now_push s.queue i.action_id) })
      (run_helper1 env.canned_helper1 env.helper1) h
