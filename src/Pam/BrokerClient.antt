-- ===== src/Pam/BrokerClient.antt =====
-- crates/pam-sentinel/src/broker_client.rs: the PAM module's questions to the broker.
pub mod EndToEnd
pub mod Remembered
pub mod Tests
use sentinel_cosmic.Common.{some, Option, ℕ, if◌then◌else◌, Bool, ◌&&◌, none, false, true}
use sentinel_cosmic.Text.{Text}
use sentinel_cosmic.Proto.{
  error, record_remember, Response, RememberKey, check_remember, Request, remember,
}
use sentinel_cosmic.Proto.Frame.{read_frame, Writer, write_frame, Codec, Reader, Result, ok, err}

-- What a round trip meets: whether the socket connects and takes its two timeouts, the room for the
-- request, and what comes back until the connection ends or the timeout passes.
pub record Link : Type 0 where
  pub connects : Bool
  pub timeouts_set : Bool
  pub writer : Writer
  pub reader : Reader

abbrev pub response_of : Result Response → Option Response
response_of (ok resp) = some resp
response_of (err e) = none

module _ (requests : Codec Request) (responses : Codec Response) where
  abbrev after_write : Link → Writer × Result (Unit {0}) → Option Response
  after_write link (w, err e) = none
  after_write link (w, ok _) = response_of (read_frame responses link.reader).1

  -- `roundtrip_at`.
  unfoldable pub roundtrip_at : Link → Request → Option Response
  unfolding write_frame read_frame
  roundtrip_at link req =
      if link.connects && link.timeouts_set
      then after_write link (write_frame requests link.writer req)
      else none

  abbrev is_fresh_answer : Option Response → Bool
  is_fresh_answer (some (remember true)) = true
  is_fresh_answer _ = false

  -- `check_remember`.
  unfoldable pub ask_broker : Link → RememberKey → ℕ → Bool
  unfolding roundtrip_at
  ask_broker link key ttl_secs =
      is_fresh_answer
        (roundtrip_at link (check_remember (record { key = key; ttl_secs = ttl_secs })))

  abbrev rejection : Option Response → Option Text
  rejection (some (error e)) = some e
  rejection _ = none

  -- `record_remember`: the message of the broker's error, which is logged. The server sees what was sent.
  unfoldable pub tell_broker : Link → RememberKey → Option Text
  unfolding roundtrip_at
  tell_broker link key = rejection (roundtrip_at link (record_remember key))
