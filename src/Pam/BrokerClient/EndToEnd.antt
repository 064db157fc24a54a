-- ===== src/Pam/BrokerClient/EndToEnd.antt =====
-- The client and the broker over one connection.
use sentinel_cosmic.Broker.{keystr, handle}
use sentinel_cosmic.Broker.Server.{dispatch_check}
use sentinel_cosmic.Common.{
  ap, ◌∙◌, some, refl, [], false, ◌&&◌, ℕ, Bool, true, append-nil, sym, ◌++◌, ◌≡◌,
}
use sentinel_cosmic.Grants.{Grants, fresh}
use sentinel_cosmic.Pam.BrokerClient.{
  roundtrip_at, ask_broker, is_fresh_answer, Link, response_of, after_write,
}
use sentinel_cosmic.Proto.{Request, remember, Response, RememberKey, check_remember, is_bindable}
use sentinel_cosmic.Proto.Frame.{
  Result, ok, err, Codec, Writer, read_frame, Reader, Bytes, write_frame,
}
use sentinel_cosmic.Proto.Frame.Laws.{frame_of, read_frame-write_frame}
-- What was written to an empty connection is read back.
use sentinel_cosmic.Broker.{keystr, handle}
use sentinel_cosmic.Broker.Server.{dispatch_check}
use sentinel_cosmic.Common.{◌&&◌, [], ℕ, sym, true, Bool, append-nil, some, ◌++◌, ◌∙◌, ◌≡◌, ap}
use sentinel_cosmic.Grants.{Grants, fresh}
use sentinel_cosmic.Proto.{RememberKey, Response, check_remember, is_bindable}
use sentinel_cosmic.Proto.Frame.{write_frame, Reader, Bytes, read_frame, Codec, Writer}
use sentinel_cosmic.Proto.Frame.Laws.{read_frame-write_frame, frame_of}

pub read_sent :
    {T : Type 0} (codec : Codec T)
    → ((m : T) (b : Bytes) → codec.to_allocvec m ≡ some b → codec.from_bytes b ≡ some m)
    → (w : Writer) (msg : T) → w.sent ≡ []
    → (write_frame codec w msg).1 ≡ ok tt
    → (read_frame codec (record { input = (write_frame codec w msg).0.sent; allocated = 0 })).1
      ≡ ok msg
read_sent codec lawful w msg empty h =
    let (body, sent, fits, reads) = read_frame-write_frame codec lawful w msg h in
    let framed : (write_frame codec w msg).0.sent ≡ frame_of body ++ [] =
      sent ∙ ap (λ (s : Bytes). s ++ frame_of body) empty ∙ sym (append-nil (frame_of body)) in
    ap (λ (s : Bytes). (read_frame codec (record { input = s; allocated = 0 })).1) framed
    ∙ ap (λ (r : Reader × Result _). r.1) (reads [] 0)

module _ (requests : Codec Request) (responses : Codec Response)
    (requests_decode : (m : Request) (b : Bytes)
      → requests.to_allocvec m ≡ some b
      → requests.from_bytes b ≡ some m)
    (responses_decode : (m : Response) (b : Bytes)
      → responses.to_allocvec m ≡ some b
      → responses.from_bytes b ≡ some m)
    (now : ℕ) (store : Grants) (key : RememberKey) (ttl : ℕ) where
  abbrev pub question : Request
  question = check_remember (record { key = key; ttl_secs = ttl })

  abbrev pub granted : Bool
  granted = is_bindable key && fresh now store (keystr key) ttl

  -- What the broker has sent after it handled the client's request.
  pub replied : Writer → Writer → Bytes
  unfolding handle write_frame
  replied client server =
      (handle requests responses true (some 0) now store
        (record { input = (write_frame requests client question).0.sent; allocated = 0 })
        server).1.sent

  replied-write_frame :
      (client server : Writer)
      → client.sent ≡ []
      → (write_frame requests client question).1 ≡ ok tt
      → replied client server ≡ (write_frame responses server (remember granted)).0.sent
  unfolding replied handle
  replied-write_frame client server empty h =
      rw (read_sent requests requests_decode client question empty h, replied, handle)
        (rw (dispatch_check now (record { key = key; ttl_secs = ttl }) store))

  -- The client's side of that connection.
  abbrev pub link : Writer → Writer → Link
  link client server = record {
    connects = true;
    timeouts_set = true;
    writer = client;
    reader = record { input = replied client server; allocated = 0 };
  }

  -- A client and a broker at the two ends of a connection, which takes the whole of both messages and
  -- whose client is root: the client lets the request through without a dialog exactly when its key is
  -- bound to a session and the store holds a fresh grant for it, if the codecs decode what they encode.
  pub ask_broker-handle :
      (client server : Writer)
      → client.sent ≡ []
      → server.sent ≡ []
      → (write_frame requests client question).1 ≡ ok tt
      → (write_frame responses server (remember granted)).1 ≡ ok tt
      → ask_broker requests responses (link client server) key ttl ≡ granted
  unfolding ask_broker roundtrip_at
  ask_broker-handle client server empty silent asked replies =
      ap (is_fresh_answer requests responses) (
        after_write_ok (link client server) (write_frame requests client question) asked
        ∙ ap
            (λ (b : Bytes).
              response_of (read_frame responses (record { input = b; allocated = 0 })).1)
            (replied-write_frame client server empty asked)
        ∙ ap response_of
            (read_sent responses responses_decode server (remember granted) silent replies))
      ∙ fresh_answer granted
    where
      after_write_ok :
          (link : Link) (p : Writer × Result (Unit {0}))
          → p.1 ≡ ok tt
          → after_write requests responses link p ≡ response_of (read_frame responses link.reader).1
      after_write_ok link (w, ok _) h = refl
      after_write_ok link (w, err e) h = cc

      fresh_answer : (b : Bool) → is_fresh_answer requests responses (some (remember b)) ≡ b
      fresh_answer true = refl
      fresh_answer false = refl
