-- ===== src/Broker/Daemon.antt =====
-- crates/sentinel-broker/src/main.rs: the daemon's start and its accept loop. A connection's thread touches
-- the store at most once, under the store's mutex; the connections stand in the order in which they do.
pub mod Root
pub mod Tests
use sentinel_cosmic.Broker.{handle}
use sentinel_cosmic.Common.{
  some, ℕ, ◌==◌, Bool, Option, List, false, if◌then◌else◌, ◌∷◌, unwrap_or, [], true, none,
}
use sentinel_cosmic.Grants.{Grants}
use sentinel_cosmic.Proto.{Request, Response}
use sentinel_cosmic.Proto.Frame.{Reader, Codec, Writer}
use sentinel_cosmic.Text.{Text, is_empty, codes}

abbrev pub default_sock_path : Text
default_sock_path = codes "/run/sentinel-broker/broker.sock"

-- The text before the last slash.
unfoldable pub before_slash : Text → Option Text
before_slash [] = none
before_slash (c ∷ s) = elim (before_slash s) [
  | some dir ↦ some (c ∷ dir)
  | none ↦ if c == b'/' then some [] else none
]

-- `Path::parent` for a path that ends in a name: the text before the last slash, the root if that is empty,
-- the empty path where there is no slash, and none for the empty text.
unfoldable pub parent_dir : Text → Option Text
parent_dir s = elim (before_slash s) [
  | none ↦ if is_empty s then none else some []
  | some dir ↦ if is_empty dir then some (b'/' ∷ []) else some dir
]

-- What the daemon does to the file system before it listens.
pub data SetUp : Type 0 where
  create_dir_all : Text → SetUp
  set_mode : Text → ℕ → SetUp
  remove_file : Text → SetUp
  bind_socket : Text → SetUp

-- Whether the directory is there, and whether each call succeeds.
pub record FileSystem : Type 0 where
  pub dir_exists : Text → Bool
  pub creates : Bool
  pub sets_dir_mode : Bool
  pub binds : Bool
  pub sets_socket_mode : Bool

-- A call whose error ends `main`.
abbrev attempt : SetUp → Bool → List SetUp × Bool → List SetUp × Bool
attempt call true (calls, listens) = (call ∷ calls, listens)
attempt call false (calls, listens) = (call ∷ [], false)

abbrev sock_path : Option Text → Text
sock_path env = unwrap_or env default_sock_path

abbrev sock_dir : Option Text → Text
sock_dir env = unwrap_or (parent_dir (sock_path env)) (codes "/run/sentinel-broker")

-- Modes are written in decimal: 448 is 0o700, 384 is 0o600.

-- Clear a socket that was left, bind, and close it to others.
abbrev bind_private : FileSystem → Text → List SetUp × Bool
bind_private fs path = attempt (remove_file path) true (
    attempt (bind_socket path) fs.binds
      (attempt (set_mode path 384) fs.sets_socket_mode ([], true)))

-- The calls of `main` up to the loop, and whether it gets there. The argument is SENTINEL_BROKER_SOCK.
unfoldable pub set_up : FileSystem → Option Text → List SetUp × Bool
unfolding parent_dir
set_up fs env =
    if fs.dir_exists (sock_dir env)
    then bind_private fs (sock_path env)
    else attempt (create_dir_all (sock_dir env)) fs.creates
        (attempt (set_mode (sock_dir env) 448) fs.sets_dir_mode (bind_private fs (sock_path env)))

-- One connection: the peer's uid, the instant at which the store is asked, and the two directions.
pub record Connection : Type 0 where
  pub cred : Option ℕ
  pub at_instant : ℕ
  pub reader : Reader
  pub writer : Writer

pub data Incoming : Type 0 where
  accepted : Connection → Incoming
  accept_failed : Incoming

module _ (requests : Codec Request) (responses : Codec Response) where
  -- The loop: a failed accept is passed over. What each connection was sent is kept in its order.
  unfoldable pub serve : List Incoming → Grants → Grants × List Writer
  serve [] store = (store, [])
  serve (accept_failed ∷ is) store = serve is store
  serve (accepted c ∷ is) store =
      let (store', sent) =
        handle requests responses true c.cred c.at_instant store c.reader c.writer in
      let (last, outs) = serve is store' in (last, sent ∷ outs)
