-- ===== src/Broker/Daemon/Root.antt =====
-- Whom the daemon listens to.
use sentinel_cosmic.Broker.{peer_is_root, handle}
use sentinel_cosmic.Broker.Daemon.{Incoming, serve, accepted, accept_failed}
use sentinel_cosmic.Broker.Server.{handle_not_root}
use sentinel_cosmic.Common.{
  refl, inr, [], false, ◌≡◌, inl, retain, Bool-cases, ◌∷◌, List, Bool, Option, ℕ, ap, sym, ◌≢◌,
  some, ◌∙◌, true,
}
use sentinel_cosmic.Grants.{Grants}
use sentinel_cosmic.Proto.{Request, Response}
use sentinel_cosmic.Proto.Frame.{Codec, Writer}

abbrev pub from_root : Incoming → Bool
from_root (accepted c) = peer_is_root c.cred
from_root accept_failed = false

stranger_ne : (cred : Option ℕ) → peer_is_root cred ≡ false → cred ≢ some 0
unfolding peer_is_root
stranger_ne cred e q = cc (ap peer_is_root (sym q) ∙ e)

-- Others change nothing: whoever else connects, in whatever order, and however often accepting fails, the
-- store ends as if root's connections alone had been made.
pub serve-root :
    (requests : Codec Request) (responses : Codec Response) (is : List Incoming) (store : Grants)
    → (serve requests responses is store).0
      ≡ (serve requests responses (retain from_root is) store).0
unfolding serve
serve-root requests responses [] store = refl
serve-root requests responses (accept_failed ∷ is) store = serve-root requests responses is store
serve-root requests responses (accepted c ∷ is) store = elim (Bool-cases (peer_is_root c.cred)) [
  | inl e ↦ rw e (
      serve-root requests responses is
        (handle requests responses true c.cred c.at_instant store c.reader c.writer).0)
  | inr e ↦ rw e (
      ap (λ (p : Grants × Writer). (serve requests responses is p.0).0)
        (handle_not_root requests responses c.cred c.at_instant store c.reader c.writer
          (stranger_ne c.cred e))
      ∙ serve-root requests responses is store)
]
