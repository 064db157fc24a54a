-- ===== src/Agent/Flow/Owned.antt =====
-- What lies in the queue along an orderly history.
use sentinel_cosmic.Agent.Flow.{
  ticks, tick, drain_for_cancel, Step, succeeds, begins, here, AgentState, handed_off, acquire,
  drain_leftover, gives_up, breaks, at_phase, fails, completes, cancels, spawns, aborts, declines,
  drains, give_up, Job, spawn_session, take_step, ended, turned_down, abort_session, next, agrees,
  push_approval, complete, advance, acquires, request, running, resolving, takes, AuthCall, Reach,
  Phase,
}
use sentinel_cosmic.Agent.Flow.Handles.{Aborts_lem, IsTied, Reach-IsTied, stopped}
use sentinel_cosmic.Agent.Queue.{take_one, drain, new_approval, Approval, take_approval, push}
use sentinel_cosmic.Common.{
  ◌∙◌, refl, map_option, ap, Bool, Bool-cases, ◌∷◌, inr, false, none, sym, ◌⊎◌, subst, Option, ◌≡◌,
  true, inl, ◌++◌, ◌≢◌, List, All, arith, [], some,
}
use sentinel_cosmic.Text.{text_eq, Text}
use sentinel_cosmic.Text.Equality.{text_eq_iff}

-- The request waits for helper-1 with its approval pushed and not drained.
abbrev pub offers : Phase → Bool
offers resolving = false
offers running = false
offers handed_off = true
offers turned_down = true
offers ended = false

abbrev offers_of : Option Job → Bool
offers_of none = false
offers_of (some j) = offers j.phase

-- The queue is empty, or holds the one approval of the request that holds the mutex, while that request
-- waits for helper-1 and nobody is cancelling it.
pub record IsOffered (s : AgentState) (j : Job) : Type 0 where
  pub holds : s.inflight ≡ some j
  pub pending : offers j.phase ≡ true
  pub approval : Approval
  pub alone : s.queue ≡ approval ∷ []
  pub own : approval.action_id ≡ j.call.action_id
  pub wanted : All (λ c. c ≢ j.call.cookie) s.cancelling

abbrev pub IsOwned : AgentState → Type 0
IsOwned s = (s.queue ≡ []) ⊎ ((j : Job) × IsOffered s j)

-- The step leaves no approval behind: an attempt that ends without a drain finds its approval consumed,
-- and a session that is being cancelled pushes none.
abbrev pub Orderly : {s u : AgentState} → Step s u → Type 0
Orderly {s} (agrees j p e) = All (λ c. c ≢ j.call.cookie) s.cancelling
Orderly {s} (succeeds j p e) = s.queue ≡ []
Orderly {s} (breaks j p e) = s.queue ≡ []
Orderly _ = Unit {0}

abbrev pub OrderlyReach : {s u : AgentState} → Reach s u → Type 0
OrderlyReach here = Unit {0}
OrderlyReach (next r st) = OrderlyReach r × Orderly st

some_inj {ℓ} : {A : Type ℓ} {a b : A} → some a ≡ some b → a ≡ b
some_inj e = cc

empty_of_idle :
    (s : AgentState) (o : Option Job)
    → IsOwned s
    → s.inflight ≡ o
    → offers_of o ≡ false
    → s.queue ≡ []
empty_of_idle s o (inl e) q f = e
empty_of_idle s o (inr (j, w)) q f = cc (ap offers_of (sym w.holds ∙ q), w.pending, f)

IsOwned-same :
    (s u : AgentState)
    → u.inflight ≡ s.inflight
    → u.queue ≡ s.queue
    → u.cancelling ≡ s.cancelling
    → IsOwned s
    → IsOwned u
IsOwned-same s u i q c (inl e) = inl (q ∙ e)
IsOwned-same s u i q c (inr (j, w)) = inr (
  j,
  record {
    holds = i ∙ w.holds;
    pending = w.pending;
    approval = w.approval;
    alone = q ∙ w.alone;
    own = w.own;
    wanted = rw c w.wanted;
  },
)

-- The request's phase moves on while its approval lies there.
IsOwned-moved :
    (s : AgentState) (j : Job) (p q : Phase)
    → s.inflight ≡ some (at_phase p j)
    → offers q ≡ true
    → IsOwned s
    → IsOwned (advance q j s)
unfolding advance
IsOwned-moved s j p q i o (inl e) = inl e
IsOwned-moved s j p q i o (inr (k, w)) =
    let same : k.call ≡ j.call = ap (λ (r : Job). r.call) (some_inj (sym w.holds ∙ i)) in
    inr (
      at_phase q j,
      record {
        holds = refl;
        pending = o;
        approval = w.approval;
        alone = w.alone;
        own = w.own ∙ ap (λ (c : AuthCall). c.action_id) same;
        wanted = rw (sym same) w.wanted;
      },
    )

taken_empty : (s : AgentState) → IsOwned s → (take_step s).queue ≡ []
unfolding take_step take_approval take_one
taken_empty s (inl e) = rw e
taken_empty s (inr (j, w)) = rw w.alone (ground arith)

pub spared : (cookie : Text) (j : Job) → cookie ≢ j.call.cookie → stopped cookie j ≡ j
spared cookie j n = elim (Bool-cases (text_eq j.call.cookie cookie)) [
  | inl e ↦ absurd (n (sym ((text_eq_iff _ _).0 e)))
  | inr f ↦ rw f (ground arith)
]

abort_session-IsOwned :
    (s : AgentState) (cookie : Text) (rest : List Text)
    → IsTied s
    → s.cancelling ≡ cookie ∷ rest
    → IsOwned s
    → IsOwned (abort_session cookie rest s)
unfolding abort_session
abort_session-IsOwned s cookie rest t c (inl e) = inl e
abort_session-IsOwned s cookie rest t c (inr (j, w)) =
    let wanted : All (λ d. d ≢ j.call.cookie) (cookie ∷ rest) =
      subst (λ l. All (λ d. d ≢ j.call.cookie) l) c w.wanted in
    inr (
      j,
      record {
        holds =
            (Aborts_lem cookie s.inflight s.sessions t).0
            ∙ ap (map_option (stopped cookie)) w.holds
            ∙ ap some (spared cookie j (wanted.0));
        pending = w.pending;
        approval = w.approval;
        alone = w.alone;
        own = w.own;
        wanted = wanted.1;
      },
    )

pub Step-IsOwned :
    {s u : AgentState} → IsTied s → IsOwned s → (st : Step s u) → Orderly st → IsOwned u
unfolding request acquire give_up spawn_session push_approval push advance drain_leftover drain
    complete drain_for_cancel take_step take_approval take_one tick
Step-IsOwned {s} t v (begins c e) o = rw e (IsOwned-same _ _ refl refl refl v)
Step-IsOwned {s} t v (acquires c rest free w e) o = rw e (inl (empty_of_idle s none v free refl))
Step-IsOwned {s} t v (gives_up j p e) o = rw e (inl (empty_of_idle s _ v p refl))
Step-IsOwned {s} t v (spawns j p e) o = rw e (inl (empty_of_idle s _ v p refl))
Step-IsOwned {s} t v (declines j p e) o = rw e (inl (empty_of_idle s _ v p refl))
Step-IsOwned {s} t v (agrees j p e) o = rw e (
    inr (
      at_phase handed_off j,
      record {
        holds = refl;
        pending = refl;
        approval = new_approval s.now j.call.action_id;
        alone =
            ap (λ l. l ++ (new_approval s.now j.call.action_id ∷ [])) (empty_of_idle s _ v p refl);
        own = refl;
        wanted = o;
      },
    ))
Step-IsOwned t v (succeeds j p e) o = rw e (inl o)
Step-IsOwned t v (breaks j p e) o = rw e (inl o)
Step-IsOwned {s} t v (fails j p e) o = rw e (IsOwned-moved s j handed_off turned_down p refl v)
Step-IsOwned t v (drains j p e) o = rw e (inl refl)
Step-IsOwned {s} t v (completes j p e) o = rw e (inl (empty_of_idle s _ v p refl))
Step-IsOwned {s} t v (takes e) o = rw e (inl (taken_empty s v))
Step-IsOwned t v (cancels c e) o = rw e (inl refl)
Step-IsOwned {s} t v (aborts c rest q e) o = rw e (abort_session-IsOwned s c rest t q v)
Step-IsOwned {s} t v (ticks n e) o = rw e (IsOwned-same _ _ refl refl refl v)

pub Reach-IsOwned :
    {s u : AgentState} → IsTied s → IsOwned s → (r : Reach s u) → OrderlyReach r → IsOwned u
Reach-IsOwned t v here o = v
Reach-IsOwned t v (next r st) o = Step-IsOwned (Reach-IsTied t r) (Reach-IsOwned t v r o.0) st o.1
