-- ===== src/Broker.antt =====
-- crates/sentinel-broker: the store of remember grants and the server in front of it.
pub mod Keys
pub mod Server
pub mod Daemon
pub mod Tests
use sentinel_cosmic.Common.{
  false, some, ◌&&◌, ℕ, none, Option, ◌∷◌, Bool, if◌then◌else◌, not, ◌==◌, ◌++◌,
}
use sentinel_cosmic.Grants.{Grants, grant, fresh}
use sentinel_cosmic.Proto.{
  BoundKey, bind, protocol_version, remember, recorded, pong, Response, Request, check_remember,
  error, RememberKey, record_remember, ping,
}
use sentinel_cosmic.Proto.Frame.{Codec, Reader, ok, Result, write_frame, err, Writer, read_frame}
use sentinel_cosmic.Text.{Text, codes}
use sentinel_cosmic.Text.Decimal.{to_string}

-- src/store.rs: `RememberStore::keystr`.
unfoldable pub keystr : RememberKey → Text
unfolding to_string
keystr k =
    to_string k.loginuid ++ (0 ∷ (to_string k.sessionid ++ (0 ∷ (k.service ++ (0 ∷ k.command)))))

-- `RememberStore::is_fresh`. The state is the map behind the mutex.
unfoldable pub is_fresh : ℕ → Grants → BoundKey → ℕ → Bool
unfolding fresh keystr
is_fresh now store k ttl_secs = fresh now store (keystr k.key) ttl_secs

-- `RememberStore::record`.
unfoldable pub record_grant : ℕ → Grants → BoundKey → Grants
unfolding grant keystr
record_grant now store k = grant now store (keystr k.key)

-- src/server.rs: `dispatch`, at the instant `now`.
unfoldable pub dispatch : ℕ → Request → Grants → Grants × Response
unfolding is_fresh record_grant bind
dispatch now ping store = (store, pong protocol_version)
dispatch now (check_remember q) store = elim (bind q.key) [
  | none ↦ (store, remember false)
  | some k ↦ (store, remember (is_fresh now store k q.ttl_secs))
]
dispatch now (record_remember key) store = elim (bind key) [
  | none ↦ (store, error (codes "unbindable key"))
  | some k ↦ (record_grant now store k, recorded)
]

-- `peer_is_root`: the peer's uid, or none where the lookup fails.
unfoldable pub peer_is_root : Option ℕ → Bool
peer_is_root none = false
peer_is_root (some uid) = uid == 0

-- The codecs of the two message types, which the wire crate derives with postcard.
module _ (requests : Codec Request) (responses : Codec Response) where
  -- What `handle` does with the request that it read.
  abbrev answer : ℕ → Grants → Writer → Result Request → Grants × Writer
  answer now store w (err e) = (store, w)
  answer now store w (ok req) =
      let (store', resp) = dispatch now req store in (store', (write_frame responses w resp).0)

  -- `handle`: authenticate, read one request, dispatch it, write one response.
  unfoldable pub handle : Bool → Option ℕ → ℕ → Grants → Reader → Writer → Grants × Writer
  unfolding dispatch read_frame write_frame peer_is_root
  handle enforce_peer_root cred now store r w =
      if enforce_peer_root && not (peer_is_root cred)
      then (store, w)
      else answer now store w (read_frame requests r).1
