-- ===== src/Agent/Flow/Drive.antt =====
-- The run of a session, as it is in Session.antt, is a sequence of the agent's steps.
use sentinel_cosmic.Agent.Flow.{
  tick, advance, drain_leftover, handed_off, ended, AgentState, Phase, Job, here, take_step, Reach,
  at_phase, ticks, succeeds, fails, push_approval, running, breaks, next, declines, takes, drains,
  agrees, acquires, gives_up, aborts, cancels, Step, begins, completes, spawns,
}
use sentinel_cosmic.Agent.Helper1.{run_helper1}
use sentinel_cosmic.Agent.Queue.{drain, ApprovalQueue, push}
use sentinel_cosmic.Agent.Session.{
  Env, State, settle, AuthInputs, log_refusal, take_all, run, hand_off,
}
use sentinel_cosmic.Agent.Session.Consent.{run-Shape, Consented}
use sentinel_cosmic.Common.{
  arith, ◌≤◌, ◌-◌, List, ℕ, ◌≡◌, [], some, ◌+◌, Bool, ◌∷◌, refl, inr, inl, ◌∙◌, sym, true, false,
  ap₂, append-nil, ◌⊎◌, ap, ◌++◌, append_assoc,
}
use sentinel_cosmic.Text.{Text}
use sentinel_cosmic.Agent.Helper1

-- Instants that do not run backwards.
abbrev pub Later : ℕ → List ℕ → Type 0
Later now [] = Unit {0}
Later now (t ∷ ts) = (now ≤ t) × Later t ts

-- What a session and pam_sentinel do, as a history of the agent shows it; `foreign` is everything else.
pub data Event : Type 0 where
  declined : Event
  pushed : ℕ → Event
  taken : ℕ → Event
  succeeded : Event
  broke : Event
  failed : Event
  drained : Event
  foreign : Event

abbrev event_of : {s u : AgentState} → Step s u → List Event
event_of (begins c e) = foreign ∷ []
event_of (acquires c rest i w e) = foreign ∷ []
event_of (gives_up j i e) = foreign ∷ []
event_of (spawns j i e) = foreign ∷ []
event_of (declines j i e) = declined ∷ []
event_of {s = s} (agrees j i e) = pushed s.now ∷ []
event_of (succeeds j i e) = succeeded ∷ []
event_of (breaks j i e) = broke ∷ []
event_of (fails j i e) = failed ∷ []
event_of (drains j i e) = drained ∷ []
event_of (completes j i e) = foreign ∷ []
event_of {s = s} (takes e) = taken s.now ∷ []
event_of (cancels cookie e) = foreign ∷ []
event_of (aborts cookie rest c e) = foreign ∷ []
event_of (ticks n e) = []

abbrev pub events : {s u : AgentState} → Reach s u → List Event
events here = []
events (next r st) = events r ++ event_of st

abbrev Reach-trans : {s t u : AgentState} → Reach s t → Reach t u → Reach s u
Reach-trans r here = r
Reach-trans r (next q st) = next (Reach-trans r q) st

events_trans :
    {s t u : AgentState} (r : Reach s t) (q : Reach t u)
    → events (Reach-trans r q) ≡ events r ++ events q
events_trans r here = sym (append-nil (events r))
events_trans r (next q st) =
    ap (λ l. l ++ event_of st) (events_trans r q) ∙ append_assoc (events r) (events q) (event_of st)

-- The agent comes from a state, by steps that show just these events, to a phase and a queue.
abbrev pub Driven : AgentState → Job → Phase → List Event → ApprovalQueue → Type 0
Driven s j p es q =
    (u : AgentState) × (h : Reach s u) × (events h ≡ es)
    × (u.inflight ≡ some (at_phase p j))
    × (u.queue ≡ q)

-- What helper-1's answer makes a session do.
abbrev pub answer_events : Helper1.Result Bool → List Event
answer_events Helper1.err = broke ∷ []
answer_events (Helper1.ok true) = succeeded ∷ []
answer_events (Helper1.ok false) = failed ∷ drained ∷ []

abbrev pub taken_events : List ℕ → List Event
taken_events [] = []
taken_events (t ∷ ts) = taken t ∷ taken_events ts

-- A session that agrees: it pushes, approvals are taken, and it does what helper-1's answer asks for.
abbrev pub agreed_events : Env → List Event
agreed_events env =
    pushed env.now_push
    ∷ (taken_events env.takes ++ answer_events (run_helper1 env.canned_helper1 env.helper1))

waits_until : (s : AgentState) (t : ℕ) → s.now ≤ t → (tick (t - s.now) s) ≡ record s { now = t }
unfolding tick
waits_until s t h = let e : s.now + (t - s.now) ≡ t = omega arith in rw e

Driven-takes :
    (ts : List ℕ) (s : AgentState) (j : Job)
    → Later s.now ts
    → s.inflight ≡ some (at_phase handed_off j)
    → Driven s j handed_off (taken_events ts) (take_all ts s.queue)
unfolding take_all take_step tick
Driven-takes [] s j l e = (s, here, refl, e, refl)
Driven-takes (t ∷ ts) s j (h, l) e =
    let waited : AgentState = record s { now = t } in
    let (u, r, shown, held, q) = Driven-takes ts (take_step waited) j l e in
    let first : Reach s (take_step waited) =
      next (next here (ticks (t - s.now) (sym (waits_until s t h)))) (takes refl) in
    (u, Reach-trans first r, events_trans first r ∙ ap (λ l. taken t ∷ l) shown, held, q)

Driven-settled :
    (s : AgentState) (j : Job) (warns : Bool) (i : AuthInputs) (w : State) (r : Helper1.Result Bool)
    → s.inflight ≡ some (at_phase handed_off j)
    → s.queue ≡ w.queue
    → Driven s j ended (answer_events r) (settle warns i w r).0.queue
unfolding settle log_refusal drain advance drain_leftover
Driven-settled s j warns i w Helper1.err e q =
    (advance ended j s, next here (breaks j e refl), refl, refl, q)
Driven-settled s j warns i w (Helper1.ok true) e q =
    (advance ended j s, next here (succeeds j e refl), refl, refl, q)
Driven-settled s j true i w (Helper1.ok false) e q =
    (_, next (next here (fails j e refl)) (drains j refl refl), refl, refl, refl)
Driven-settled s j false i w (Helper1.ok false) e q =
    (_, next (next here (fails j e refl)) (drains j refl refl), refl, refl, refl)

Driven-hand_off :
    (s : AgentState) (j : Job) (warns : Bool) (env : Env) (i : AuthInputs) (w : State)
    → s.inflight ≡ some (at_phase running j)
    → s.queue ≡ w.queue
    → i.action_id ≡ j.call.action_id
    → Later s.now (env.now_push ∷ env.takes)
    → Driven s j ended (agreed_events env) (hand_off warns env i w).0.queue
unfolding hand_off push_approval
Driven-hand_off s j warns env i w e q a (h, l) =
    let waited : AgentState = record s { now = env.now_push } in
    let refilled : take_all env.takes (push env.now_push s.queue j.call.action_id)
        ≡ take_all env.takes (push env.now_push w.queue i.action_id) =
      ap₂ (λ (o : ApprovalQueue) (t : Text). take_all env.takes (push env.now_push o t)) q
        (sym a) in
    let (t, r, shown, held, left) = Driven-takes env.takes (push_approval j waited) j l refl in
    let answer = run_helper1 env.canned_helper1 env.helper1 in
    let (u, r', shown', ended', out) =
      Driven-settled t j warns i
        (record w { queue = take_all env.takes (push env.now_push w.queue i.action_id) }) answer
        held (left ∙ refilled) in
    let first : Reach s (push_approval j waited) =
      next (next here (ticks (env.now_push - s.now) (sym (waits_until s env.now_push h))))
        (agrees j e refl) in
    (
      u,
      Reach-trans first (Reach-trans r r'),
      events_trans first (Reach-trans r r')
          ∙ ap (λ l. pushed env.now_push ∷ l)
              (events_trans r r' ∙ ap₂ (λ (k l : List Event). k ++ l) shown shown'),
      ended',
      out,
    )

-- A session is a sequence of the agent's steps, and these are the ones that its inputs ask for. From a
-- request in its session, while the clock does not run backwards between its push and the instants at
-- which approvals are taken, the agent comes to the end of the session with the queue that the run of the
-- session leaves. Without consent the session declines and nothing else happens; with consent it pushes at
-- its instant, the approvals are taken at theirs, and helper-1's SUCCESS ends it, its FAILURE makes it
-- drain the queue, and an error breaks it off.
pub run-Driven :
    (s : AgentState) (j : Job) (env : Env) (i : AuthInputs) (w : State)
    → s.inflight ≡ some (at_phase running j)
    → s.queue ≡ w.queue
    → i.action_id ≡ j.call.action_id
    → Later s.now (env.now_push ∷ env.takes)
    → ((¬ Consented env i w) × Driven s j ended (declined ∷ []) (run env i w).0.queue)
      ⊎ (Consented env i w × Driven s j ended (agreed_events env) (run env i w).0.queue)
unfolding advance
run-Driven s j env i w e q a l = elim (run-Shape env i w) [
  | inl (n, same) ↦
      inl (n, (advance ended j s, next here (declines j e refl), refl, refl, q ∙ sym (same.0)))
  | inr (c, (warns, w', same, off)) ↦
      inr (c, rw off (Driven-hand_off s j warns env i w' e (q ∙ sym same) a l))
]
