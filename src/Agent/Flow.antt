-- ===== src/Agent/Flow.antt =====
-- crates/sentinel-polkit-agent/src/agent.rs: `Agent`, and its two methods step by step. Each step is what
-- one task does between two awaits: the requests that wait for the `inflight` mutex in its order, the one
-- that holds it, the task of its session, the cancellations, pam_sentinel and the clock take turns as they
-- like. What a session decides is in Session.antt; here it only ends, or hands an approval over.
pub mod Handles
pub mod Line
pub mod Owned
pub mod Owner
pub mod Drive
pub mod Tests
use sentinel_cosmic.Agent.Queue.{ApprovalQueue, drain, push, take_approval}
use sentinel_cosmic.Common.{
  ◌&&◌, ◌++◌, ◌==◌, ◌∷◌, ◌≡◌, ◌+◌, Bool, List, Option, [], false, if◌then◌else◌, none, not, retain,
  some, true, ℕ,
}
use sentinel_cosmic.I18n.{lookup}
use sentinel_cosmic.Text.{Text, text_eq}

-- One BeginAuthentication.
pub record AuthCall : Type 0 where
  pub cookie : Text
  pub action_id : Text

-- How far the request that holds the mutex has come: before the spawn; in its session, before the push;
-- behind the push, waiting for helper-1; told FAILURE, before the drain; with its `done` channel closed.
pub data Phase : Type 0 where
  resolving : Phase
  running : Phase
  handed_off : Phase
  turned_down : Phase
  ended : Phase

pub record Job : Type 0 where
  pub call : AuthCall
  pub task : ℕ
  pub phase : Phase

-- `sessions` maps a cookie to the handle of a task, and `cancelling` holds the cookies of the
-- cancellations that have drained the queue and wait for the map.
pub record AgentState : Type 0 where
  pub waiting : List AuthCall
  pub inflight : Option Job
  pub sessions : List (Text × ℕ)
  pub queue : ApprovalQueue
  pub cancelling : List Text
  pub next_task : ℕ
  pub now : ℕ

-- `Agent::new`.
unfoldable pub new_agent : ℕ → AgentState
new_agent now = record {
  waiting = [];
  inflight = none;
  sessions = [];
  queue = [];
  cancelling = [];
  next_task = 0;
  now = now;
}

-- `sessions.remove(&cookie)` and `sessions.insert(cookie, handle)`.
unfoldable pub remove_session : List (Text × ℕ) → Text → List (Text × ℕ)
unfolding text_eq
remove_session m cookie = retain (λ e. not (text_eq e.0 cookie)) m

unfoldable pub insert_session : List (Text × ℕ) → Text → ℕ → List (Text × ℕ)
unfolding remove_session
insert_session m cookie h = (cookie, h) ∷ remove_session m cookie

-- A task that was spawned and has not ended.
abbrev pub is_live : Phase → Bool
is_live resolving = false
is_live running = true
is_live handed_off = true
is_live turned_down = true
is_live ended = false

abbrev pub at_phase : Phase → Job → Job
at_phase p j = record j { phase = p }

-- `handle.abort()`, which does nothing to a task that has ended.
unfoldable pub abort_task : ℕ → Option Job → Option Job
abort_task h none = none
abort_task h (some j) = if is_live j.phase && (j.task == h) then some (at_phase ended j) else some j

-- The end of BeginAuthentication up to the wait for `inflight`, and the way to the lock.
unfoldable pub request : AuthCall → AgentState → AgentState
request c s = record s { waiting = s.waiting ++ (c ∷ []) }

unfoldable pub acquire : AuthCall → List AuthCall → AgentState → AgentState
acquire c rest s = record s {
  waiting = rest;
  inflight = some (record { call = c; task = 0; phase = resolving });
}

-- An error is returned before the spawn.
unfoldable pub give_up : AgentState → AgentState
give_up s = record s { inflight = none }

-- The spawn and the insertion, under the lock of the map.
unfoldable pub spawn_session : Job → AgentState → AgentState
unfolding insert_session
spawn_session j s = record s {
  inflight = some (record j { task = s.next_task; phase = running });
  sessions = insert_session s.sessions j.call.cookie s.next_task;
  next_task = s.next_task + 1;
}

-- The session agrees, and pushes its approval.
unfoldable pub push_approval : Job → AgentState → AgentState
unfolding push
push_approval j s = record s {
  inflight = some (at_phase handed_off j);
  queue = push s.now s.queue j.call.action_id;
}

unfoldable pub advance : Phase → Job → AgentState → AgentState
advance p j s = record s { inflight = some (at_phase p j) }

-- The session drops what helper-1 left.
unfoldable pub drain_leftover : Job → AgentState → AgentState
unfolding drain
drain_leftover j s = record s { inflight = some (at_phase ended j); queue = drain s.queue }

-- The end of BeginAuthentication, behind `done_rx.await`.
unfoldable pub complete : Job → AgentState → AgentState
unfolding remove_session
complete j s = record s { inflight = none; sessions = remove_session s.sessions j.call.cookie }

-- CancelAuthentication: first the queue, then the map.
unfoldable pub drain_for_cancel : Text → AgentState → AgentState
unfolding drain
drain_for_cancel cookie s = record s {
  queue = drain s.queue;
  cancelling = s.cancelling ++ (cookie ∷ []);
}

abbrev pub abort_found : Option ℕ → Option Job → Option Job
abort_found none o = o
abort_found (some h) o = abort_task h o

unfoldable pub abort_session : Text → List Text → AgentState → AgentState
unfolding lookup remove_session abort_task
abort_session cookie rest s = record s {
  inflight = abort_found (lookup s.sessions cookie) s.inflight;
  sessions = remove_session s.sessions cookie;
  cancelling = rest;
}

unfoldable pub take_step : AgentState → AgentState
unfolding take_approval
take_step s = record s { queue = (take_approval s.now s.queue).0 }

unfoldable pub tick : ℕ → AgentState → AgentState
tick n s = record s { now = s.now + n }

-- One step. How a session ends, and when, is left open: a job that is `running` may end without an approval,
-- and helper-1 may answer either way or not at all. The timeouts of helper_ui.rs and helper1.rs, which see
-- to it that one of these happens, are no part of the relation, so it holds every history of the agent, and
-- what is proved of all its histories holds of the agent's; that a step is there says nothing of progress.
pub data Step (s : AgentState) (u : AgentState) : Type 0 where
  begins : (c : AuthCall) → u ≡ request c s → Step s u
  acquires :
      (c : AuthCall) (rest : List AuthCall)
      → s.inflight ≡ none
      → s.waiting ≡ c ∷ rest
      → u ≡ acquire c rest s
      → Step s u
  gives_up : (j : Job) → s.inflight ≡ some (at_phase resolving j) → u ≡ give_up s → Step s u
  spawns : (j : Job) → s.inflight ≡ some (at_phase resolving j) → u ≡ spawn_session j s → Step s u
  declines : (j : Job) → s.inflight ≡ some (at_phase running j) → u ≡ advance ended j s → Step s u
  agrees : (j : Job) → s.inflight ≡ some (at_phase running j) → u ≡ push_approval j s → Step s u
  succeeds :
      (j : Job) → s.inflight ≡ some (at_phase handed_off j) → u ≡ advance ended j s → Step s u
  breaks : (j : Job) → s.inflight ≡ some (at_phase handed_off j) → u ≡ advance ended j s → Step s u
  fails :
      (j : Job) → s.inflight ≡ some (at_phase handed_off j) → u ≡ advance turned_down j s → Step s u
  drains :
      (j : Job) → s.inflight ≡ some (at_phase turned_down j) → u ≡ drain_leftover j s → Step s u
  completes : (j : Job) → s.inflight ≡ some (at_phase ended j) → u ≡ complete j s → Step s u
  takes : u ≡ take_step s → Step s u
  cancels : (cookie : Text) → u ≡ drain_for_cancel cookie s → Step s u
  aborts :
      (cookie : Text) (rest : List Text)
      → s.cancelling ≡ cookie ∷ rest
      → u ≡ abort_session cookie rest s
      → Step s u
  ticks : (n : ℕ) → u ≡ tick n s → Step s u

pub data Reach (s : AgentState) : AgentState → Type 0 where
  here : Reach s s
  next : {t u : AgentState} → Reach s t → Step t u → Reach s u
