-- ===== src/Stream/Terminal.antt =====
-- services/api/src/services/terminal-proxy.ts: a terminal session from the upgrade on, two sockets with a
-- relay each way (Stream/Relay), a ping interval and an expiry timer. A socket's close is taken
-- not to throw, and a close that the peer begins is the one event of the socket's close.
pub mod Ended
pub mod Closing
pub mod Lasting
pub mod Connecting
use hill90_app.Stream.Relay.{
  Pump, Event, message, poll, relay_defaults, start, on_message, on_poll, cleanup,
}
use hill90_app.Prelude.{
  List, Bool, some, not, ℕ, Option, [], false, if◌then◌else◌, ◌∷◌, ◌&&◌, true, none,
}

pub data ReadyState : Type 0 where
  connecting opened closing closed : ReadyState

unfoldable pub is_open : ReadyState → Bool
is_open opened = true
is_open connecting = false
is_open closing = false
is_open closed = false

abbrev pub close_credential_expired : ℕ
close_credential_expired = 4002

abbrev pub close_access_revoked : ℕ
close_access_revoked = 4004

abbrev pub close_relay_overflow : ℕ
close_relay_overflow = 4003

-- `client_code` is the code of the first close of the client's socket from here; a close without one
-- is 1005.
pub record Session : Type 0 where
  pub client : ReadyState
  pub agent : ReadyState
  pub client_code : Option ℕ
  pub ping_armed : Bool
  pub expiry_armed : Bool
  pub agent_to_client : Pump ℕ
  pub client_to_agent : Pump ℕ

unfoldable pub start_session : Session
start_session = record {
  client = opened;
  agent = connecting;
  client_code = none;
  ping_armed = true;
  expiry_armed = true;
  agent_to_client = start true;
  client_to_agent = start true;
}

pub close_client : ℕ → Session → Session
unfolding is_open
close_client code s =
    if is_open s.client then record s { client = closing; client_code = some code } else s

close_agent : Session → Session
unfolding is_open
close_agent s = if is_open s.agent then record s { agent = closing } else s

pub cleanup_all : Session → Session
unfolding close_client close_agent
cleanup_all s = close_agent (
    close_client 1005 (record s {
      agent_to_client = cleanup s.agent_to_client;
      client_to_agent = cleanup s.client_to_agent;
      expiry_armed = false;
      ping_armed = false;
    }))

-- `endForOverflow`
end_for_overflow : Session → Session
unfolding close_client cleanup_all
end_for_overflow s = cleanup_all (close_client close_relay_overflow s)

-- A frame of the agent, by its number, with the client's queue after it; and the other way round. A
-- pump calls back when it is overflowed by this frame.
from_agent : ℕ → ℕ → Session → Session
unfolding end_for_overflow is_open
from_agent frame queued s =
    let p = on_message relay_defaults frame (is_open s.client) queued s.agent_to_client in
    let v = record s { agent_to_client = p } in
    if not s.agent_to_client.overflowed && p.overflowed then end_for_overflow v else v

from_client : ℕ → ℕ → Session → Session
unfolding end_for_overflow is_open
from_client frame queued s =
    let p = on_message relay_defaults frame (is_open s.agent) queued s.client_to_agent in
    let v = record s { client_to_agent = p } in
    if not s.client_to_agent.overflowed && p.overflowed then end_for_overflow v else v

-- What reaches a session. `denied` is a re-check that has found the access gone, which may come after the
-- interval that began it is cleared; an error of either socket comes before its close.
pub data SessionEvent : Type 0 where
  agent_opened agent_closed client_closed : SessionEvent
  agent_error client_error unexpected_response : SessionEvent
  denied expired : SessionEvent
  agent_message client_message : ℕ → ℕ → SessionEvent
  client_polled agent_polled : ℕ → SessionEvent

pub session_step : SessionEvent → Session → Session
unfolding cleanup_all close_client from_agent from_client is_open
session_step agent_opened s = elim s.agent [ connecting ↦ record s { agent = opened } | _ ↦ s ]
session_step agent_closed s = cleanup_all (record s { agent = closed })
session_step client_closed s = cleanup_all (record s { client = closed })
session_step agent_error s = cleanup_all s
session_step client_error s = cleanup_all s
session_step unexpected_response s = close_client 1011 s
session_step denied s = cleanup_all (close_client close_access_revoked s)
session_step expired s =
    if s.expiry_armed then cleanup_all (close_client close_credential_expired s) else s
session_step (agent_message frame queued) s = from_agent frame queued s
session_step (client_message frame queued) s = from_client frame queued s
session_step (client_polled buffered) s = record s {
  agent_to_client = on_poll relay_defaults (is_open s.client) buffered s.agent_to_client;
}
session_step (agent_polled buffered) s = record s {
  client_to_agent = on_poll relay_defaults (is_open s.agent) buffered s.client_to_agent;
}

pub run_session : List SessionEvent → Session → Session
unfolding session_step
run_session [] s = s
run_session (e ∷ es) s = run_session es (session_step e s)
