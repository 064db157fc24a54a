-- ===== src/Grants.antt =====
-- `HashMap<String, Instant>` as crates/sentinel-broker/src/store.rs and
-- crates/sentinel-polkit-agent/src/remember.rs use it: a map from the text of a grant's key to the
-- instant of the grant. Instants count nanoseconds of the monotonic clock.
pub mod Map
pub mod Refine
use sentinel_cosmic.Common.{
  ◌==◌, Option, List, min, some, Bool, false, ltb, ◌∷◌, ◌*◌, ℕ, none, if◌then◌else◌, [], ◌-◌,
}
use sentinel_cosmic.Text.{text_eq, Text}

abbrev pub Grants : Type 0
Grants = List (Text × ℕ)

-- `Duration::from_secs`.
abbrev pub secs : ℕ → ℕ
secs n = n * 1_000_000_000

-- `MAX_REMEMBER`, the same 900 seconds in both crates.
abbrev pub max_remember : ℕ
max_remember = secs 900

-- `t.elapsed()`: never negative.
abbrev pub elapsed : ℕ → ℕ → ℕ
elapsed now t = now - t

unfoldable pub get : Grants → Text → Option ℕ
unfolding text_eq
get [] k = none
get ((j, t) ∷ s) k = if text_eq j k then some t else get s k

unfoldable pub insert : Grants → Text → ℕ → Grants
unfolding text_eq
insert [] k t = (k, t) ∷ []
insert ((j, u) ∷ s) k t = if text_eq j k then (k, t) ∷ s else (j, u) ∷ insert s k t

-- `map.retain(|_, t| t.elapsed() < MAX_REMEMBER)`.
unfoldable pub prune : ℕ → Grants → Grants
prune now [] = []
prune now ((j, t) ∷ s) =
    if ltb (elapsed now t) max_remember then (j, t) ∷ prune now s else prune now s

-- The window that a client asks for, capped.
abbrev pub capped : ℕ → ℕ
capped ttl_secs = min (secs ttl_secs) max_remember

abbrev pub is_some_and {ℓ} : {A : Type ℓ} → Option A → (A → Bool) → Bool
is_some_and none p = false
is_some_and (some a) p = p a

-- `map.get(key).is_some_and(|t| t.elapsed() < ttl)` behind the test for a window of zero.
unfoldable pub fresh : ℕ → Grants → Text → ℕ → Bool
unfolding get
fresh now s k ttl_secs =
    if ttl_secs == 0
    then false
    else is_some_and (get s k) (λ t. ltb (elapsed now t) (capped ttl_secs))

-- Recording a grant: prune, then insert.
unfoldable pub grant : ℕ → Grants → Text → Grants
unfolding prune insert
grant now s k = insert (prune now s) k now
