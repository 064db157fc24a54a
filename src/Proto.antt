-- ===== src/Proto.antt =====
-- crates/sentinel-broker-proto/src/lib.rs: the messages between the PAM module and the broker.
pub mod Frame
pub mod Tests
use sentinel_cosmic.Common.{◌==◌, ℕ, true, some, Bool, none, not, ◌&&◌, Option, false, ◌≡◌, refl}
use sentinel_cosmic.Text.{Text, is_empty}
use sentinel_cosmic.Text.Decimal.{u32_max}

pub record RememberKey : Type 0 where
  pub loginuid : ℕ
  pub sessionid : ℕ
  pub service : Text
  pub command : Text

-- `RememberKey::is_bindable`. `u32_max` is the kernel's mark for "no login session".
unfoldable pub is_bindable : RememberKey → Bool
is_bindable k =
    not (k.loginuid == u32_max) && not (k.sessionid == u32_max) && not (is_empty k.command)

-- A key with the proof that it may be bound: there is no other way to make one.
pub record BoundKey : Type 0 where
  pub key : RememberKey
  pub bindable : is_bindable key ≡ true

bind_by : (k : RememberKey) (b : Bool) → is_bindable k ≡ b → Option BoundKey
bind_by k true e = some (record { key = k; bindable = e })
bind_by k false e = none

-- `RememberKey::bind`.
unfoldable pub bind : RememberKey → Option BoundKey
unfolding bind_by is_bindable
bind k = bind_by k (is_bindable k) refl

pub record RememberQuery : Type 0 where
  pub key : RememberKey
  pub ttl_secs : ℕ

pub data Request : Type 0 where
  check_remember : RememberQuery → Request
  record_remember : RememberKey → Request
  ping : Request

pub data Response : Type 0 where
  remember : Bool → Response
  recorded : Response
  pong : ℕ → Response
  error : Text → Response

abbrev pub protocol_version : ℕ
protocol_version = 1

bind_by-true :
    (k : RememberKey) (b : Bool) (e : is_bindable k ≡ b)
    → b ≡ true
    → (w : BoundKey) × (bind_by k b e ≡ some w) × (w.key ≡ k)
unfolding bind_by
bind_by-true k true e h = (record { key = k; bindable = e }, refl, refl)
bind_by-true k false e h = cc

bind_by-false :
    (k : RememberKey) (b : Bool) (e : is_bindable k ≡ b) → b ≡ false → bind_by k b e ≡ none
unfolding bind_by
bind_by-false k true e h = cc
bind_by-false k false e h = refl

-- A bindable key is bound to itself.
pub bind_bindable :
    (k : RememberKey) → is_bindable k ≡ true → (w : BoundKey) × (bind k ≡ some w) × (w.key ≡ k)
unfolding bind
bind_bindable k h = bind_by-true k (is_bindable k) refl h

-- Any other is turned away.
pub bind_unbindable : (k : RememberKey) → is_bindable k ≡ false → bind k ≡ none
unfolding bind
bind_unbindable k h = bind_by-false k (is_bindable k) refl h
