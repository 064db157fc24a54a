-- ===== src/Pam/BrokerClient/Tests.antt =====
-- A client and a broker with codecs for the two messages of a query.
use sentinel_cosmic.Broker.{keystr}
use sentinel_cosmic.Common.{
  true, none, ℕ, Option, [], ◌≡◌, ◌++◌, refl, ap, length, sym, ◌∙◌, false, ◌∷◌, some, suc, arith,
  zero,
}
use sentinel_cosmic.Grants.{secs, Grants, fresh}
use sentinel_cosmic.Pam.BrokerClient.{ask_broker}
use sentinel_cosmic.Pam.BrokerClient.EndToEnd.{ask_broker-handle, question, link, granted}
use sentinel_cosmic.Pam.BrokerClient.Remembered.{store_after, ask_broker-recorded}
use sentinel_cosmic.Proto.{
  ping, error, pong, recorded, remember, Request, RememberKey, check_remember, record_remember,
  Response, is_bindable,
}
use sentinel_cosmic.Proto.Frame.{Writer, Bytes, Codec, read_exact, write_frame}
use sentinel_cosmic.Proto.Frame.Laws.{read_exact-append}
use sentinel_cosmic.Text.{codes}
use sentinel_cosmic.Proto.Frame

-- Codecs for the messages of a query and of a grant, over bytes that hold any number: a third byte of 0
-- marks a grant, any other is one more than the window.
abbrev of_key : ℕ → RememberKey → Request
of_key zero key = record_remember key
of_key (suc ttl) key = check_remember (record { key = key; ttl_secs = ttl })

abbrev with_service : ℕ → ℕ → ℕ → Option (Bytes × Bytes) → Option Request
with_service login session mark none = none
with_service login session mark (some (service, command)) = some (
    of_key mark
      (record { loginuid = login; sessionid = session; service = service; command = command }))

abbrev encode_key : ℕ → RememberKey → Bytes
encode_key mark k = k.loginuid ∷ k.sessionid ∷ mark ∷ length k.service ∷ (k.service ++ k.command)

abbrev encode_request : Request → Option Bytes
encode_request (check_remember q) = some (encode_key (suc q.ttl_secs) q.key)
encode_request (record_remember k) = some (encode_key 0 k)
encode_request _ = none

abbrev decode_request : Bytes → Option Request
decode_request (login ∷ session ∷ ttl ∷ n ∷ rest) =
    with_service login session ttl (read_exact n rest)
decode_request _ = none

abbrev request_codec : Codec Request
request_codec = record { to_allocvec = encode_request; from_bytes = decode_request }

some_inj {ℓ} : {A : Type ℓ} {x y : A} → some x ≡ some y → x ≡ y
some_inj e = cc e

requests_decode : (m : Request) (b : Bytes) → encode_request m ≡ some b → decode_request b ≡ some m
requests_decode (check_remember q) b h =
    ap decode_request (sym (some_inj h))
    ∙ ap (with_service q.key.loginuid q.key.sessionid (suc q.ttl_secs))
        (read_exact-append q.key.service q.key.command)
requests_decode (record_remember k) b h =
    ap decode_request (sym (some_inj h))
    ∙ ap (with_service k.loginuid k.sessionid 0) (read_exact-append k.service k.command)
requests_decode ping b h = absurd (cc h)

abbrev encode_response : Response → Option Bytes
encode_response (remember true) = some (1 ∷ [])
encode_response (remember false) = some []
encode_response _ = none

abbrev decode_response : Bytes → Option Response
decode_response [] = some (remember false)
decode_response (_ ∷ _) = some (remember true)

abbrev response_codec : Codec Response
response_codec = record { to_allocvec = encode_response; from_bytes = decode_response }

responses_decode :
    (m : Response) (b : Bytes) → encode_response m ≡ some b → decode_response b ≡ some m
responses_decode (remember true) b h = ap decode_response (sym (some_inj h))
responses_decode (remember false) b h = ap decode_response (sym (some_inj h))
responses_decode recorded b h = absurd (cc h)
responses_decode (pong v) b h = absurd (cc h)
responses_decode (error e) b h = absurd (cc h)

abbrev upgrade : RememberKey
upgrade = record {
  loginuid = 1000;
  sessionid = 3;
  service = codes "sudo";
  command = codes "pacman -Syu";
}

abbrev store : Grants
store = (keystr upgrade, secs 5) ∷ []

abbrev wire : Writer
wire = record { sent = []; room = 100 }

still_fresh :
    granted request_codec response_codec requests_decode responses_decode (secs 64) store upgrade 60
    ≡ true
unfolding is_bindable fresh keystr
still_fresh = refl

question_fits :
    (write_frame request_codec wire (
      question request_codec response_codec requests_decode responses_decode
        (secs 64)
        store
        upgrade
        60)).1
    ≡ Frame.ok tt
unfolding write_frame
question_fits = refl

answer_fits :
    (write_frame response_codec wire (
      remember (
        granted request_codec response_codec requests_decode responses_decode
          (secs 64)
          store
          upgrade
          60))).1
    ≡ Frame.ok tt
unfolding write_frame is_bindable fresh keystr
answer_fits = refl

ask_broker-handle_example :
    ask_broker request_codec response_codec
      (link request_codec response_codec requests_decode responses_decode
        (secs 64)
        store
        upgrade
        60
        wire
        wire)
      upgrade
      60
    ≡ granted request_codec response_codec requests_decode responses_decode
        (secs 64)
        store
        upgrade
        60
ask_broker-handle_example =
    ask_broker-handle request_codec response_codec requests_decode responses_decode (secs 64) store
      upgrade 60 wire wire refl refl question_fits answer_fits

grant_fits : (write_frame request_codec wire (record_remember upgrade)).1 ≡ Frame.ok tt
unfolding write_frame
grant_fits = refl

ask_fits :
    (write_frame request_codec wire (check_remember (record { key = upgrade; ttl_secs = 60 }))).1
    ≡ Frame.ok tt
unfolding write_frame
ask_fits = refl

fresh_fits : (write_frame response_codec wire (remember true)).1 ≡ Frame.ok tt
unfolding write_frame
fresh_fits = refl

upgrade_bindable : is_bindable upgrade ≡ true
unfolding is_bindable
upgrade_bindable = refl

ask_broker-recorded_example :
    ask_broker request_codec response_codec
      (link request_codec response_codec requests_decode responses_decode
        (secs 64)
        (store_after request_codec response_codec requests_decode responses_decode
          (secs 5)
          []
          upgrade
          wire
          wire)
        upgrade
        60
        wire
        wire)
      upgrade
      60
    ≡ true
ask_broker-recorded_example =
    ask_broker-recorded request_codec response_codec requests_decode responses_decode (secs 5) []
      upgrade (secs 64) 60 wire wire wire wire upgrade_bindable (omega arith) refl grant_fits refl
      refl ask_fits fresh_fits
