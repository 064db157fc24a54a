-- ===== src/Broker/Server.antt =====
-- The broker as a service: what its answers say about the requests that it served.
-- The requests that were dispatched, newest first, each with its instant.
use sentinel_cosmic.Broker.{dispatch, keystr, handle, peer_is_root}
use sentinel_cosmic.Broker.Keys.{Lacks, keystr_inj}
use sentinel_cosmic.Common.{
  ◌-◌, if◌then◌else◌, ◌∷◌, ℕ, List, [], inr, ◌≡◌, ◌<◌, refl, ◌≤◌, ◌∙◌, inl, true, ◌==◌, ==_iff, ap,
  ◌↔◌, Bool-cases, ◌&&◌, some, arith, Option, false, none, All, Any, ◌≢◌, Bool,
}
use sentinel_cosmic.Grants.{Grants, grant, fresh, capped}
use sentinel_cosmic.Grants.Refine.{Log, replay, Clock, Granted, later-Clock, fresh-replay_iff}
use sentinel_cosmic.Proto.{
  ping, record_remember, RememberKey, Request, is_bindable, check_remember, RememberQuery, Response,
  bind_bindable, error, recorded, bind_unbindable, remember,
}
use sentinel_cosmic.Proto.Frame.{Reader, Writer, Codec}
use sentinel_cosmic.Text.{codes}

abbrev pub History : Type 0
History = List (ℕ × Request)

-- The store after a history.
unfoldable pub served : History → Grants
served [] = []
served ((t, req) ∷ h) = (dispatch t req (served h)).0

-- The clock does not run backwards along a history.
abbrev pub InOrder : ℕ → History → Type 0
InOrder now [] = Unit {0}
InOrder now ((t, req) ∷ h) = (t ≤ now) × InOrder t h

-- The services that the requests name hold no NUL.
abbrev pub PlainService : Request → Type 0
PlainService ping = Unit {0}
PlainService (check_remember q) = Lacks 0 q.key.service
PlainService (record_remember k) = Lacks 0 k.service

-- A request that grants the key within the window.
abbrev pub GrantsKey : ℕ → ℕ → RememberKey → ℕ × Request → Type 0
GrantsKey now window k (t, ping) = ⊥
GrantsKey now window k (t, check_remember q) = ⊥
GrantsKey now window k (t, record_remember l) = (l ≡ k) × (now - t < window)

-- The grants of a history, by the text of their keys.
log_of : History → Log
log_of [] = []
log_of ((t, ping) ∷ h) = log_of h
log_of ((t, check_remember q) ∷ h) = log_of h
log_of ((t, record_remember k) ∷ h) = if is_bindable k then (t, keystr k) ∷ log_of h else log_of h

dispatch_ping : (now : ℕ) (s : Grants) → (dispatch now ping s).0 ≡ s
unfolding dispatch
dispatch_ping now s = refl

pub dispatch_check :
    (now : ℕ) (q : RememberQuery) (s : Grants)
    → dispatch now (check_remember q) s
      ≡ (s, remember (is_bindable q.key && fresh now s (keystr q.key) q.ttl_secs))
unfolding dispatch
dispatch_check now q s = elim (Bool-cases (is_bindable q.key)) [
  | inl e ↦ let (w, bound, same) = bind_bindable q.key e in rw (bound, dispatch) (rw (e, same))
  | inr n ↦ rw (bind_unbindable q.key n, dispatch) (rw n)
]

pub dispatch_record :
    (now : ℕ) (k : RememberKey) (s : Grants)
    → dispatch now (record_remember k) s ≡ (
        if is_bindable k
        then (grant now s (keystr k), recorded)
        else (s, error (codes "unbindable key")))
unfolding dispatch
dispatch_record now k s = elim (Bool-cases (is_bindable k)) [
  | inl e ↦ let (w, bound, same) = bind_bindable k e in rw (bound, dispatch) (rw (e, same))
  | inr n ↦ rw (bind_unbindable k n, dispatch) (rw n)
]

dispatch_record_store :
    (now : ℕ) (k : RememberKey) (s : Grants)
    → (dispatch now (record_remember k) s).0 ≡ (if is_bindable k then grant now s (keystr k) else s)
dispatch_record_store now k s = elim (Bool-cases (is_bindable k)) [
  | inl e ↦ rw (dispatch_record now k s, e)
  | inr n ↦ rw (dispatch_record now k s, n)
]

replay_record :
    (t : ℕ) (k : RememberKey) (s : Grants) (h : History) (b : Bool)
    → s ≡ replay (log_of h)
    → (if b then grant t s (keystr k) else s)
      ≡ replay (if b then (t, keystr k) ∷ log_of h else log_of h)
unfolding replay
replay_record t k s h true e = ap (λ m. grant t m (keystr k)) e
replay_record t k s h false e = e

served-replay : (h : History) → served h ≡ replay (log_of h)
unfolding served log_of replay
served-replay [] = refl
served-replay ((t, ping) ∷ h) = dispatch_ping t (served h) ∙ served-replay h
served-replay ((t, check_remember q) ∷ h) =
    ap (λ (r : Grants × Response). r.0) (dispatch_check t q (served h)) ∙ served-replay h
served-replay ((t, record_remember k) ∷ h) =
    dispatch_record_store t k (served h)
    ∙ replay_record t k (served h) h (is_bindable k) (served-replay h)

Clock-log_of : (now : ℕ) (h : History) → InOrder now h → Clock now (log_of h)
unfolding log_of
Clock-log_of now [] c = tt
Clock-log_of now ((t, ping) ∷ h) (le, c) = later-Clock t now (log_of h) le (Clock-log_of t h c)
Clock-log_of now ((t, check_remember q) ∷ h) (le, c) =
    later-Clock t now (log_of h) le (Clock-log_of t h c)
Clock-log_of now ((t, record_remember k) ∷ h) (le, c) = elim (Bool-cases (is_bindable k)) [
  | inl e ↦ rw e (le, Clock-log_of t h c)
  | inr n ↦ rw n (later-Clock t now (log_of h) le (Clock-log_of t h c))
]

module _ (now window : ℕ) (k : RememberKey) (plain : Lacks 0 k.service) where
  Granted-sound :
      (h : History)
      → All (λ e. PlainService e.1) h
      → Granted now window (keystr k) (log_of h)
      → Any (GrantsKey now window k) h
  unfolding log_of
  Granted-sound [] p g = g
  Granted-sound ((t, ping) ∷ h) (_, ps) g = inr (Granted-sound h ps g)
  Granted-sound ((t, check_remember q) ∷ h) (_, ps) g = inr (Granted-sound h ps g)
  Granted-sound ((t, record_remember l) ∷ h) (p, ps) g = elim (Bool-cases (is_bindable l)) [
    | inl e ↦ elim (rw e at g) [
      | inl (same, young) ↦ inl (keystr_inj l k p plain same, young)
      | inr rest ↦ inr (Granted-sound h ps rest)
    ]
    | inr n ↦ inr (Granted-sound h ps (rw n at g))
  ]

  Granted-complete :
      (h : History)
      → is_bindable k ≡ true
      → Any (GrantsKey now window k) h
      → Granted now window (keystr k) (log_of h)
  unfolding log_of
  Granted-complete [] b g = g
  Granted-complete ((t, ping) ∷ h) b (inl g) = absurd g
  Granted-complete ((t, ping) ∷ h) b (inr g) = Granted-complete h b g
  Granted-complete ((t, check_remember q) ∷ h) b (inl g) = absurd g
  Granted-complete ((t, check_remember q) ∷ h) b (inr g) = Granted-complete h b g
  Granted-complete ((t, record_remember l) ∷ h) b (inl (same, young)) =
      rw (same, b) (inl (refl, young))
  Granted-complete ((t, record_remember l) ∷ h) b (inr g) = elim (Bool-cases (is_bindable l)) [
    | inl e ↦ rw e (inr (Granted-complete h b g))
    | inr n ↦ rw n (Granted-complete h b g)
  ]

-- The broker's promise. After any requests at a clock that does not run backwards, whose services
-- hold no NUL, a query is answered `fresh` exactly when its key is bindable and a record request for
-- that very key (user, session, service and whole command) was served within the window that the
-- query asks for, and within 900 seconds.
pub check_fresh_iff :
    (now : ℕ) (h : History) (q : RememberQuery)
    → InOrder now h
    → All (λ e. PlainService e.1) h
    → Lacks 0 q.key.service
    → ((dispatch now (check_remember q) (served h)).1 ≡ remember true)
      ↔ ((is_bindable q.key ≡ true) × Any (GrantsKey now (capped q.ttl_secs) q.key) h)
check_fresh_iff now h q c ps plain =
    rw (dispatch_check now q (served h), served-replay h)
      (
        λ e.
            let b : is_bindable q.key ≡ true = ground (arith, e) in
            (
              b,
              Granted-sound now (capped q.ttl_secs) q.key plain h ps (
                  (fresh-replay_iff now (log_of h) (keystr q.key) q.ttl_secs
                      (Clock-log_of now h c)).0
                    (ground (arith, e))),
            ),
        λ g. rw (
          g.0,
          (fresh-replay_iff now (log_of h) (keystr q.key) q.ttl_secs (Clock-log_of now h c)).1
              (Granted-complete now (capped q.ttl_secs) q.key plain h g.0 g.1),
        ),
      )

-- A key that is bound to no login session or to no command is turned away: recording it leaves the
-- store as it was and is answered with an error, and a query for it is answered `not fresh`.
pub unbindable_refused :
    (now : ℕ) (k : RememberKey) (ttl : ℕ) (store : Grants)
    → is_bindable k ≡ false
    → (dispatch now (record_remember k) store ≡ (store, error (codes "unbindable key")))
      × (dispatch now (check_remember (record { key = k; ttl_secs = ttl })) store
          ≡ (store, remember false))
unbindable_refused now k ttl store n = (
  rw (dispatch_record now k store, n),
  rw (dispatch_check now (record { key = k; ttl_secs = ttl }) store, n),
)

-- A peer that is not root, or whose uid is not known, gets no byte and changes nothing, whatever it
-- sends.
pub handle_not_root :
    (requests : Codec Request) (responses : Codec Response) (cred : Option ℕ) (now : ℕ)
    (store : Grants) (r : Reader) (w : Writer)
    → cred ≢ some 0
    → handle requests responses true cred now store r w ≡ (store, w)
unfolding handle peer_is_root
handle_not_root requests responses none now store r w n = refl
handle_not_root requests responses (some uid) now store r w n = elim (Bool-cases (uid == 0)) [
  | inl e ↦ absurd (n (ap some ((==_iff uid 0).0 e)))
  | inr m ↦ rw m
]
