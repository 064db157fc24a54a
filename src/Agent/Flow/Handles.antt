-- ===== src/Agent/Flow/Handles.antt =====
-- What the map of sessions holds, and which task a cancellation ends.
use sentinel_cosmic.Agent.Flow.{
  ticks, tick, complete, aborts, insert_session, ended, succeeds, resolving, abort_task, breaks,
  completes, takes, take_step, request, Job, AgentState, declines, is_live, remove_session,
  push_approval, advance, drain_for_cancel, cancels, Reach, agrees, acquires, begins, spawns, here,
  next, spawn_session, acquire, Phase, Step, drains, drain_leftover, gives_up, at_phase, give_up,
  fails, turned_down, abort_found, running, AuthCall, handed_off, abort_session, new_agent,
}
use sentinel_cosmic.Common.{
  some, [], map_option, subst, ◌&&◌, Option, ◌∷◌, ◌⊎◌, List, inl, inr, if◌then◌else◌, none, ◌≡◌, ℕ,
  true, refl, false, Bool-cases, ==_refl,
}
use sentinel_cosmic.I18n.{lookup}
use sentinel_cosmic.Text.{Text, text_eq}
use sentinel_cosmic.Text.Equality.{text_eq_refl}

-- The map holds exactly the handle of the task that lives, under its request's cookie; once the task has
-- ended, at most that.
abbrev pub TiedAt : Phase → Text × ℕ → List (Text × ℕ) → Type 0
TiedAt resolving e m = m ≡ []
TiedAt ended e m = (m ≡ []) ⊎ (m ≡ e ∷ [])
TiedAt _ e m = m ≡ e ∷ []

abbrev pub Tied : Option Job → List (Text × ℕ) → Type 0
Tied none m = m ≡ []
Tied (some j) m = TiedAt j.phase (j.call.cookie, j.task) m

abbrev pub IsTied : AgentState → Type 0
IsTied s = Tied s.inflight s.sessions

remove_session_self :
    (cookie : Text) (h : ℕ) (m : List (Text × ℕ))
    → (m ≡ []) ⊎ (m ≡ (cookie, h) ∷ [])
    → remove_session m cookie ≡ []
unfolding remove_session
remove_session_self cookie h m (inl e) = rw e
remove_session_self cookie h m (inr e) = rw (e, text_eq_refl cookie)

-- What a cancellation of the cookie does to the request that holds the mutex, said of the request itself.
abbrev pub stopped : Text → Job → Job
stopped cookie j = if is_live j.phase && text_eq j.call.cookie cookie then at_phase ended j else j

-- The cancellation's effect on one request, and what is left of the map.
abbrev pub Aborts : Text → Option Job → List (Text × ℕ) → Type 0
Aborts cookie o m =
    (abort_found (lookup m cookie) o ≡ map_option (stopped cookie) o)
    × Tied (map_option (stopped cookie) o) (remove_session m cookie)

Aborts-live :
    (cookie : Text) (call : AuthCall) (task : ℕ) (p : Phase)
    → is_live p ≡ true
    → Aborts cookie
        (some (record { call = call; task = task; phase = p }))
        ((call.cookie, task) ∷ [])
unfolding lookup remove_session abort_task
Aborts-live cookie call task running l = elim (Bool-cases (text_eq call.cookie cookie)) [
  | inl e ↦ rw (e, ==_refl task) (refl, inl refl)
  | inr n ↦ rw n (refl, refl)
]
Aborts-live cookie call task handed_off l = elim (Bool-cases (text_eq call.cookie cookie)) [
  | inl e ↦ rw (e, ==_refl task) (refl, inl refl)
  | inr n ↦ rw n (refl, refl)
]
Aborts-live cookie call task turned_down l = elim (Bool-cases (text_eq call.cookie cookie)) [
  | inl e ↦ rw (e, ==_refl task) (refl, inl refl)
  | inr n ↦ rw n (refl, refl)
]
Aborts-live cookie call task resolving l = cc
Aborts-live cookie call task ended l = cc

Aborts-empty :
    (cookie : Text) (call : AuthCall) (task : ℕ) (p : Phase)
    → is_live p ≡ false
    → Aborts cookie (some (record { call = call; task = task; phase = p })) []
unfolding lookup remove_session abort_task
Aborts-empty cookie call task running l = cc
Aborts-empty cookie call task handed_off l = cc
Aborts-empty cookie call task turned_down l = cc
Aborts-empty cookie call task resolving l = (refl, refl)
Aborts-empty cookie call task ended l = (refl, inl refl)

Aborts-ended :
    (cookie : Text) (call : AuthCall) (task : ℕ)
    → Aborts cookie
        (some (record { call = call; task = task; phase = ended }))
        ((call.cookie, task) ∷ [])
unfolding lookup remove_session abort_task
Aborts-ended cookie call task = elim (Bool-cases (text_eq call.cookie cookie)) [
  | inl e ↦ rw e (refl, inl refl)
  | inr n ↦ rw n (refl, inr refl)
]

Aborts-job :
    (cookie : Text) (call : AuthCall) (task : ℕ) (p : Phase) (m : List (Text × ℕ))
    → TiedAt p (call.cookie, task) m
    → Aborts cookie (some (record { call = call; task = task; phase = p })) m
Aborts-job cookie call task resolving m t = rw t (Aborts-empty cookie call task resolving refl)
Aborts-job cookie call task running m t = rw t (Aborts-live cookie call task running refl)
Aborts-job cookie call task handed_off m t = rw t (Aborts-live cookie call task handed_off refl)
Aborts-job cookie call task turned_down m t = rw t (Aborts-live cookie call task turned_down refl)
Aborts-job cookie call task ended m (inl e) = rw e (Aborts-empty cookie call task ended refl)
Aborts-job cookie call task ended m (inr e) = rw e (Aborts-ended cookie call task)

-- The same for every request that holds the mutex, and for none.
pub Aborts_lem :
    (cookie : Text) (o : Option Job) (m : List (Text × ℕ)) → Tied o m → Aborts cookie o m
unfolding remove_session lookup
Aborts_lem cookie none m t = rw t (refl, refl)
Aborts_lem cookie (some j) m t = Aborts-job cookie j.call j.task j.phase m t

abort_session-IsTied :
    (s : AgentState) (cookie : Text) (rest : List Text)
    → IsTied s
    → IsTied (abort_session cookie rest s)
unfolding abort_session
abort_session-IsTied s cookie rest t =
    let (e, tied) = Aborts_lem cookie s.inflight s.sessions t in rw e tied

pub Step-IsTied : {s u : AgentState} → IsTied s → Step s u → IsTied u
unfolding request acquire give_up spawn_session insert_session push_approval advance drain_leftover
    complete drain_for_cancel take_step tick
Step-IsTied t (begins c e) = rw e t
Step-IsTied {s} t (acquires c rest free w e) = rw e (subst (λ o. Tied o s.sessions) free t)
Step-IsTied {s} t (gives_up j p e) = rw e (subst (λ o. Tied o s.sessions) p t)
Step-IsTied {s} t (spawns j p e) = rw e (rw (subst (λ o. Tied o s.sessions) p t))
Step-IsTied {s} t (declines j p e) = rw e (inr (subst (λ o. Tied o s.sessions) p t))
Step-IsTied {s} t (agrees j p e) = rw e (subst (λ o. Tied o s.sessions) p t)
Step-IsTied {s} t (succeeds j p e) = rw e (inr (subst (λ o. Tied o s.sessions) p t))
Step-IsTied {s} t (breaks j p e) = rw e (inr (subst (λ o. Tied o s.sessions) p t))
Step-IsTied {s} t (fails j p e) = rw e (subst (λ o. Tied o s.sessions) p t)
Step-IsTied {s} t (drains j p e) = rw e (inr (subst (λ o. Tied o s.sessions) p t))
Step-IsTied {s} t (completes j p e) =
    rw e (remove_session_self j.call.cookie j.task s.sessions (subst (λ o. Tied o s.sessions) p t))
Step-IsTied t (takes e) = rw e t
Step-IsTied t (cancels c e) = rw e t
Step-IsTied {s} t (aborts c rest q e) = rw e (abort_session-IsTied s c rest t)
Step-IsTied t (ticks n e) = rw e t

pub Reach-IsTied : {s u : AgentState} → IsTied s → Reach s u → IsTied u
Reach-IsTied t here = t
Reach-IsTied t (next r st) = Step-IsTied (Reach-IsTied t r) st

-- A cancellation ends the session of its cookie and no other. After any steps of the agent from its start,
-- looking the cookie up in the map of sessions and aborting the handle found does to the request that
-- holds the mutex exactly this: if its cookie is the one, and its session has begun and not ended, the
-- session ends; in every other case, also where no request holds the mutex, nothing changes.
pub abort_session_exact :
    (now : ℕ) (s : AgentState) (cookie : Text) (rest : List Text)
    → Reach (new_agent now) s
    → (abort_session cookie rest s).inflight ≡ map_option (stopped cookie) s.inflight
unfolding abort_session new_agent
abort_session_exact now s cookie rest r =
    (Aborts_lem cookie s.inflight s.sessions (Reach-IsTied refl r)).0
