-- ===== src/Agent/Flow/Tests.antt =====
-- The agent's steps on two requests.
use sentinel_cosmic.Agent.Flow.{
  handed_off, running, agrees, Phase, Job, spawns, resolving, AuthCall, insert_session,
  abort_session, abort_task, new_agent, acquire, spawn_session, acquires, ended, Step, AgentState,
  Reach, request, here, next, begins, push_approval, drain_for_cancel,
}
use sentinel_cosmic.Agent.Flow.Drive.{Later, run-Driven, Driven, declined, agreed_events}
use sentinel_cosmic.Agent.Flow.Handles.{abort_session_exact, stopped}
use sentinel_cosmic.Agent.Flow.Owned.{OrderlyReach, offers}
use sentinel_cosmic.Agent.Flow.Owner.{take_one-own}
use sentinel_cosmic.Agent.Queue.{push, take_one, Approval, new_approval}
use sentinel_cosmic.Agent.Session.{run}
use sentinel_cosmic.Agent.Session.Consent.{Consented}
use sentinel_cosmic.Agent.Tests.{idle, refused, inputs}
use sentinel_cosmic.Common.{[], ◌∷◌, ◌≡◌, arith, some, map_option, refl, length, true, ◌≤◌, ◌⊎◌}
use sentinel_cosmic.I18n.{lookup}
use sentinel_cosmic.Text.{text_eq, codes}

abbrev upgrade : AuthCall
upgrade = record { cookie = codes "c1"; action_id = codes "org.example.upgrade" }

abbrev mount : AuthCall
mount = record { cookie = codes "c2"; action_id = codes "org.example.mount" }

abbrev held : Phase → Job
held p = record { call = upgrade; task = 0; phase = p }

-- The first request in its session, the second behind it.
abbrev in_session : AgentState
in_session =
    spawn_session (held resolving)
      (acquire upgrade (mount ∷ []) (request mount (request upgrade (new_agent 5))))

in_session-Reach : Reach (new_agent 5) in_session
unfolding new_agent request acquire
in_session-Reach =
    next
      (next (next (next here (begins upgrade refl)) (begins mount refl))
        (acquires upgrade (mount ∷ []) refl refl refl))
      (spawns (held resolving) refl refl)

-- The same behind the push.
abbrev offering : AgentState
offering = push_approval (held running) in_session

offering_step : Step in_session offering
unfolding spawn_session acquire request new_agent
offering_step = agrees (held running) refl refl

abbrev offered_approval : Approval
offered_approval = new_approval 5 upgrade.action_id

offered_taken : (take_one offering.now offering.queue).1 ≡ some offered_approval
unfolding take_one push_approval push spawn_session acquire request new_agent
offered_taken = refl

offering_held : offering.inflight ≡ some (held handed_off)
unfolding push_approval
offering_held = refl

abort_session_exact_example :
    (abort_session (codes "c1") [] in_session).inflight
    ≡ map_option (stopped (codes "c1")) in_session.inflight
abort_session_exact_example = abort_session_exact 5 in_session (codes "c1") [] in_session-Reach

abort_session_ended : (abort_session (codes "c1") [] in_session).inflight ≡ some (held ended)
unfolding abort_session abort_task spawn_session insert_session lookup text_eq acquire request
    new_agent
abort_session_ended = refl

offering_orderly : OrderlyReach (next in_session-Reach offering_step)
unfolding in_session-Reach offering_step spawn_session acquire request new_agent
offering_orderly = (((((tt, tt), tt), tt), tt), tt)

take_one-own_example :
    (length offering.queue ≤ 1)
    × ((j : Job) × (offering.inflight ≡ some j)
        × (offers j.phase ≡ true)
        × (offered_approval.action_id ≡ j.call.action_id))
take_one-own_example =
    take_one-own 5 offering offered_approval (next in_session-Reach offering_step) offering_orderly
      offered_taken

-- A session for the inputs of Agent/Tests.antt.
abbrev inputs_job : Job
inputs_job = record {
  call = record { cookie = inputs.cookie; action_id = inputs.action_id };
  task = 0;
  phase = running;
}

abbrev running_inputs : AgentState
running_inputs = record (new_agent 0) { inflight = some inputs_job }

running_empty : running_inputs.queue ≡ idle.queue
unfolding new_agent
running_empty = refl

Later-refused : Later running_inputs.now (refused.now_push ∷ refused.takes)
unfolding new_agent
Later-refused = omega arith

run-Driven_example :
    ((¬ Consented refused inputs idle)
      × Driven running_inputs inputs_job ended (declined ∷ []) (run refused inputs idle).0.queue)
    ⊎ (Consented refused inputs idle
        × Driven running_inputs inputs_job ended
            (agreed_events refused)
            (run refused inputs idle).0.queue)
run-Driven_example =
    run-Driven running_inputs inputs_job refused inputs idle refl running_empty refl Later-refused

-- The request that waits is cancelled, and waits on.
abbrev waiting_cancelled : AgentState
waiting_cancelled = drain_for_cancel mount.cookie in_session
