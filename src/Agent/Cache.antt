-- ===== src/Agent/Cache.antt =====
-- crates/sentinel-polkit-agent/src/remember.rs: the agent's cache of remember grants.
-- `RememberCache::key`.
use sentinel_cosmic.Broker.Keys.{Lacks, cut_unique}
use sentinel_cosmic.Common.{
  refl, ◌<◌, List, ◌≡◌, inr, ◌↔◌, ◌++◌, ap, inl, ◌≤◌, ◌∷◌, Bool, [], Any, ℕ, true, All, ◌-◌, ap₂,
}
use sentinel_cosmic.Grants.{capped, Grants, grant, fresh}
use sentinel_cosmic.Grants.Refine.{replay, Clock, Log, fresh-replay_iff, Granted}
use sentinel_cosmic.Text.{Text}

unfoldable pub cache_key : Text → Text → Text
cache_key action_id command = action_id ++ (0 ∷ command)

-- `RememberCache::is_fresh`.
unfoldable pub cache_is_fresh : ℕ → Grants → Text → Text → ℕ → Bool
unfolding fresh cache_key
cache_is_fresh now cache action_id command ttl_secs =
    fresh now cache (cache_key action_id command) ttl_secs

-- `RememberCache::remember`.
unfoldable pub cache_remember : ℕ → Grants → Text → Text → Grants
unfolding grant cache_key
cache_remember now cache action_id command = grant now cache (cache_key action_id command)

-- The Allows that were remembered, newest first: instant, action and command.
abbrev pub Remembered : Type 0
Remembered = List (ℕ × Text × Text)

pub cache_after : Remembered → Grants
cache_after [] = []
cache_after ((t, action, command) ∷ h) = cache_remember t (cache_after h) action command

abbrev pub InOrder : ℕ → Remembered → Type 0
InOrder now [] = Unit {0}
InOrder now ((t, action, command) ∷ h) = (t ≤ now) × InOrder t h

log_of : Remembered → Log
log_of [] = []
log_of ((t, action, command) ∷ h) = (t, cache_key action command) ∷ log_of h

cache_after-replay : (h : Remembered) → cache_after h ≡ replay (log_of h)
unfolding cache_after log_of replay cache_remember
cache_after-replay [] = refl
cache_after-replay ((t, action, command) ∷ h) =
    ap (λ s. grant t s (cache_key action command)) (cache_after-replay h)

Clock-log_of : (now : ℕ) (h : Remembered) → InOrder now h → Clock now (log_of h)
unfolding log_of
Clock-log_of now [] c = tt
Clock-log_of now ((t, action, command) ∷ h) (le, c) = (le, Clock-log_of t h c)

-- An Allow for the action and the command within the window.
abbrev pub Matching : ℕ → ℕ → Text → Text → ℕ × Text × Text → Type 0
Matching now window action command (t, a, c) = (a ≡ action) × (c ≡ command) × (now - t < window)

-- Two pairs with one key are the same pair, if the actions hold no NUL.
pub cache_key_inj :
    (a b x y : Text) → Lacks 0 a → Lacks 0 b → cache_key a x ≡ cache_key b y → (a ≡ b) × (x ≡ y)
unfolding cache_key
cache_key_inj a b x y = cut_unique a b x y

module _ (now window : ℕ) (action command : Text) (plain : Lacks 0 action) where
  Granted-sound :
      (h : Remembered)
      → All (λ e. Lacks 0 e.1) h
      → Granted now window (cache_key action command) (log_of h)
      → Any (Matching now window action command) h
  unfolding log_of
  Granted-sound [] p g = g
  Granted-sound ((t, a, c) ∷ h) (p, ps) (inl (same, young)) =
      let (ea, ec) = cache_key_inj a action c command p plain same in inl (ea, ec, young)
  Granted-sound ((t, a, c) ∷ h) (p, ps) (inr g) = inr (Granted-sound h ps g)

  Granted-complete :
      (h : Remembered)
      → Any (Matching now window action command) h
      → Granted now window (cache_key action command) (log_of h)
  unfolding log_of
  Granted-complete [] g = g
  Granted-complete ((t, a, c) ∷ h) (inl (ea, ec, young)) = inl (ap₂ cache_key ea ec, young)
  Granted-complete ((t, a, c) ∷ h) (inr g) = inr (Granted-complete h g)

-- The cache's promise. At a clock that does not run backwards, and for actions that hold no NUL, a
-- request is found fresh exactly when an Allow was remembered for the same action and the same
-- command within the configured window, and within 900 seconds.
pub cache_is_fresh_iff :
    (now : ℕ) (h : Remembered) (action command : Text) (ttl : ℕ)
    → InOrder now h
    → All (λ e. Lacks 0 e.1) h
    → Lacks 0 action
    → (cache_is_fresh now (cache_after h) action command ttl ≡ true)
      ↔ Any (Matching now (capped ttl) action command) h
unfolding cache_is_fresh
cache_is_fresh_iff now h action command ttl c ps plain =
    let refined =
      fresh-replay_iff now (log_of h) (cache_key action command) ttl (Clock-log_of now h c) in
    rw (cache_after-replay h) (
      λ e. Granted-sound now (capped ttl) action command plain h ps (refined.0 e),
      λ g. refined.1 (Granted-complete now (capped ttl) action command plain h g),
    )
