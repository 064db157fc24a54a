-- ===== src/Broker/Daemon/Tests.antt =====
-- The daemon's start.
use sentinel_cosmic.Broker.{peer_is_root}
use sentinel_cosmic.Broker.Daemon.{
  FileSystem, remove_file, default_sock_path, create_dir_all, set_up, set_mode, before_slash,
  bind_socket, accept_failed, accepted, Incoming, serve, Connection,
}
use sentinel_cosmic.Broker.Daemon.Root.{serve-root}
use sentinel_cosmic.Broker.Tests.{null_requests, null_responses, socket, empty_frame}
use sentinel_cosmic.Common.{true, none, refl, ◌≡◌, [], ◌∷◌, false, some, List}
use sentinel_cosmic.Text.{codes}

abbrev bare_system : FileSystem
bare_system = record {
  dir_exists = λ _. false;
  creates = true;
  sets_dir_mode = true;
  binds = true;
  sets_socket_mode = true;
}

first_start : set_up bare_system none ≡ (
  create_dir_all (codes "/run/sentinel-broker")
      ∷ set_mode (codes "/run/sentinel-broker") 448
      ∷ remove_file default_sock_path
      ∷ bind_socket default_sock_path
      ∷ set_mode default_sock_path 384
      ∷ [],
  true,
)
unfolding set_up before_slash
first_start = refl

abbrev stranger : Connection
stranger = record { cred = some 1000; at_instant = 0; reader = empty_frame; writer = socket }

abbrev root_peer : Connection
root_peer = record stranger { cred = some 0 }

abbrev arrivals : List Incoming
arrivals = accepted stranger ∷ accept_failed ∷ accepted root_peer ∷ []

serve-root_example :
    (serve null_requests null_responses arrivals []).0
    ≡ (serve null_requests null_responses (accepted root_peer ∷ []) []).0
unfolding peer_is_root
serve-root_example = serve-root null_requests null_responses arrivals []
