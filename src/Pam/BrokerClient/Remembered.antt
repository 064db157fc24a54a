-- ===== src/Pam/BrokerClient/Remembered.antt =====
-- A grant that is recorded over one connection and asked for over another.
use sentinel_cosmic.Broker.{keystr, handle}
use sentinel_cosmic.Broker.Server.{dispatch_record}
use sentinel_cosmic.Common.{◌∙◌, ap₂, ◌<◌, [], some, Bool, true, ◌≡◌, ap, ℕ, arith, ◌&&◌}
use sentinel_cosmic.Grants.{prune, capped, fresh, grant, elapsed, Grants}
use sentinel_cosmic.Grants.Map.{get-insert}
use sentinel_cosmic.Pam.BrokerClient.{ask_broker}
use sentinel_cosmic.Pam.BrokerClient.EndToEnd.{read_sent, granted, ask_broker-handle, link}
use sentinel_cosmic.Proto.{
  Request, record_remember, check_remember, remember, is_bindable, Response, RememberKey,
}
use sentinel_cosmic.Proto.Frame.{ok, Writer, Bytes, Codec, write_frame}
use sentinel_cosmic.Text.{Text}
use sentinel_cosmic.Text.Equality.{text_eq_refl}

fresh-grant :
    (t0 t1 : ℕ) (store : Grants) (k : Text) (ttl : ℕ)
    → elapsed t1 t0 < capped ttl
    → fresh t1 (grant t0 store k) k ttl ≡ true
unfolding fresh grant
fresh-grant t0 t1 store k ttl h =
    rw (get-insert (prune t0 store) k t0 k, text_eq_refl k) (ground (arith, h))

module _ (requests : Codec Request) (responses : Codec Response)
    (requests_decode : (m : Request) (b : Bytes)
      → requests.to_allocvec m ≡ some b
      → requests.from_bytes b ≡ some m)
    (responses_decode : (m : Response) (b : Bytes)
      → responses.to_allocvec m ≡ some b
      → responses.from_bytes b ≡ some m)
    (t0 : ℕ) (store : Grants) (key : RememberKey) where
  -- The store after the broker handled what a client sends to record the key.
  pub store_after : Writer → Writer → Grants
  unfolding handle
  store_after client server =
      (handle requests responses true (some 0) t0 store
        (record {
          input = (write_frame requests client (record_remember key)).0.sent;
          allocated = 0;
        })
        server).0

  store_after-grant :
      (client server : Writer)
      → is_bindable key ≡ true
      → client.sent ≡ []
      → (write_frame requests client (record_remember key)).1 ≡ ok tt
      → store_after client server ≡ grant t0 store (keystr key)
  unfolding store_after handle
  store_after-grant client server b empty h =
      rw
        (
          read_sent requests requests_decode client (record_remember key) empty h,
          store_after,
          handle,
        )
        (rw (dispatch_record t0 key store) (rw b))

  granted_after :
      (t1 ttl : ℕ) (client server : Writer)
      → is_bindable key ≡ true
      → elapsed t1 t0 < capped ttl
      → client.sent ≡ []
      → (write_frame requests client (record_remember key)).1 ≡ ok tt
      → granted requests responses requests_decode responses_decode t1
          (store_after client server)
          key
          ttl
        ≡ true
  granted_after t1 ttl client server b h empty told = ap₂ ◌&&◌ b (
      ap (λ s. fresh t1 s (keystr key) ttl) (store_after-grant client server b empty told)
      ∙ fresh-grant t0 t1 store (keystr key) ttl h)

  -- A grant that was recorded is found. If a bound key is recorded over one connection, and asked for over
  -- another before the window has passed since, which is at most 900 seconds, then the client lets the
  -- request through without a dialog; the connections take the whole of every message, their client is
  -- root, and the codecs decode what they encode.
  pub ask_broker-recorded :
      (t1 ttl : ℕ) (client server client' server' : Writer)
      → is_bindable key ≡ true
      → elapsed t1 t0 < capped ttl
      → client.sent ≡ []
      → (write_frame requests client (record_remember key)).1 ≡ ok tt
      → client'.sent ≡ []
      → server'.sent ≡ []
      → (write_frame requests client' (check_remember (record { key = key; ttl_secs = ttl }))).1
        ≡ ok tt
      → (write_frame responses server' (remember true)).1 ≡ ok tt
      → ask_broker requests responses
          (link requests responses requests_decode responses_decode t1
            (store_after client server)
            key
            ttl
            client'
            server')
          key
          ttl
        ≡ true
  ask_broker-recorded t1 ttl client server client' server' b h empty told empty' silent asked
        replies =
      let found = granted_after t1 ttl client server b h empty told in
      ask_broker-handle requests responses requests_decode responses_decode t1
        (store_after client server) key ttl client' server' empty' silent asked
        (ap (λ (g : Bool). (write_frame responses server' (remember g)).1) found ∙ replies)
      ∙ found
