-- ===== src/Broker/Tests.antt =====
-- Tests of the broker, and the theorems at concrete requests.
use sentinel_cosmic.Broker.{keystr, handle, dispatch}
use sentinel_cosmic.Broker.Server.{GrantsKey, check_fresh_iff, served, History}
use sentinel_cosmic.Common.{◌≡◌, ◌∷◌, arith, [], ◌↔◌, some, refl, true, Any, false}
use sentinel_cosmic.Grants.{capped, secs}
use sentinel_cosmic.Proto.{
  RememberQuery, RememberKey, ping, is_bindable, Request, record_remember, Response, remember,
  check_remember, recorded,
}
use sentinel_cosmic.Proto.Frame.{Writer, Reader, Codec}
use sentinel_cosmic.Text.{codes}
use sentinel_cosmic.Text.Decimal.{u32_max}

abbrev upgrade : RememberKey
upgrade = record {
  loginuid = 1000;
  sessionid = 3;
  service = codes "sudo";
  command = codes "pacman -Syu";
}

abbrev other_command : RememberKey
other_command = record upgrade { command = codes "pacman -U /tmp/evil" }

abbrev query : RememberQuery
query = record { key = upgrade; ttl_secs = 60 }

keystr_text : keystr upgrade ≡ codes "1000\03\0sudo\0pacman -Syu"
unfolding keystr
keystr_text = refl

abbrev history : History
history =
    (secs 20, ping)
    ∷ (secs 10, record_remember other_command)
    ∷ (secs 5, record_remember upgrade)
    ∷ []

fresh_now : (dispatch (secs 64) (check_remember query) (served history)).1 ≡ remember true
unfolding dispatch served
fresh_now = refl

stale : (dispatch (secs 65) (check_remember query) (served history)).1 ≡ remember false
unfolding dispatch served
stale = refl

check_fresh_iff_example :
    ((dispatch (secs 64) (check_remember query) (served history)).1 ≡ remember true)
    ↔ ((is_bindable upgrade ≡ true) × Any (GrantsKey (secs 64) (capped 60) upgrade) history)
check_fresh_iff_example =
    check_fresh_iff (secs 64) history query (omega arith) (omega arith) (omega arith)

abbrev no_session : RememberKey
no_session = record upgrade { sessionid = u32_max }

no_session_unbindable : is_bindable no_session ≡ false
unfolding is_bindable
no_session_unbindable = refl

abbrev pub null_requests : Codec Request
null_requests = record { to_allocvec = λ r. some []; from_bytes = λ b. some ping }

abbrev pub null_responses : Codec Response
null_responses = record { to_allocvec = λ r. some []; from_bytes = λ b. some recorded }

abbrev pub empty_frame : Reader
empty_frame = record { input = 0 ∷ 0 ∷ 0 ∷ 0 ∷ []; allocated = 0 }

abbrev pub socket : Writer
socket = record { sent = []; room = 4 }

root_answered :
    (handle null_requests null_responses true (some 0) 0 [] empty_frame socket).1.sent
    ≡ 0 ∷ 0 ∷ 0 ∷ 0 ∷ []
unfolding handle
root_answered = refl
