-- ===== src/Stream/Terminal/Connecting.antt =====
-- A session that ends before the agent has answered.
use hill90_app.Stream.Relay.{Pump, relay_defaults, on_message}
use hill90_app.Stream.Terminal.{
  unexpected_response, denied, client_error, agent_error, agent_closed, close_client,
  client_message, cleanup_all, connecting, opened, closed, Session, start_session, SessionEvent,
  agent_opened, client_closed, expired, agent_message, client_polled, agent_polled, session_step,
  run_session, is_open, from_agent, from_client, ReadyState, close_access_revoked,
  close_credential_expired,
}
use hill90_app.Stream.Terminal.Ended.{
  Shut, Shut-not_open, shut_down, shut_down-Shut, cleanup_all-fields,
}
use hill90_app.Prelude.{
  if-not, if-so, All, List, true, false, [], refl, subst, ◌∷◌, ◌++◌, sym, ◌≡◌, ◌≢◌, ◌∙◌, ap, ℕ,
  arith, Bool,
}

-- What can come while the agent's socket connects: frames of the client, and the relays' timers.
abbrev pub Early : SessionEvent → Type 0
Early (client_message frame queued) = Unit {0}
Early (client_polled buffered) = Unit {0}
Early (agent_polled buffered) = Unit {0}
Early _ = ⊥

-- The client goes away or fails, its access is gone, or its credential ends.
abbrev pub Leaves : SessionEvent → Type 0
Leaves client_closed = Unit {0}
Leaves client_error = Unit {0}
Leaves denied = Unit {0}
Leaves expired = Unit {0}
Leaves _ = ⊥

-- Anything but an answer of the agent.
abbrev pub Unanswered : SessionEvent → Type 0
Unanswered agent_opened = ⊥
Unanswered agent_closed = ⊥
Unanswered agent_error = ⊥
Unanswered unexpected_response = ⊥
Unanswered _ = Unit {0}

-- Frames of the agent, and timers.
abbrev pub Quiet : SessionEvent → Type 0
Quiet (agent_message frame queued) = Unit {0}
Quiet expired = Unit {0}
Quiet (client_polled buffered) = Unit {0}
Quiet (agent_polled buffered) = Unit {0}
Quiet _ = ⊥

record IsUp (s : Session) : Type 0 where
  agent_waits : s.agent ≡ connecting
  client_up : s.client ≡ opened
  expires : s.expiry_armed ≡ true

-- Both timers are cleared and the client is on its way out, with the agent's socket as it is.
pub record IsLeft (agent : ReadyState) (s : Session) : Type 0 where
  pub agent_stays : s.agent ≡ agent
  pub client_gone : Shut s.client
  pub no_pings : s.ping_armed ≡ false
  pub no_expiry : s.expiry_armed ≡ false

-- A frame for a socket that is not open changes nothing.
not_open : (frame queued : ℕ) (p : Pump ℕ) → on_message relay_defaults frame false queued p ≡ p
unfolding on_message
not_open frame queued p = ground arith

from_agent-gone :
    (frame queued : ℕ) (s : Session) → is_open s.client ≡ false → from_agent frame queued s ≡ s
unfolding from_agent
from_agent-gone frame queued s h =
    let same : on_message relay_defaults frame (is_open s.client) queued s.agent_to_client
        ≡ s.agent_to_client =
      ap (λ (b : Bool). on_message relay_defaults frame b queued s.agent_to_client) h
      ∙ not_open frame queued s.agent_to_client in
    rw same (ground arith)

from_client-waits :
    (frame queued : ℕ) (s : Session) → is_open s.agent ≡ false → from_client frame queued s ≡ s
unfolding from_client
from_client-waits frame queued s h =
    let same : on_message relay_defaults frame (is_open s.agent) queued s.client_to_agent
        ≡ s.client_to_agent =
      ap (λ (b : Bool). on_message relay_defaults frame b queued s.client_to_agent) h
      ∙ not_open frame queued s.client_to_agent in
    rw same (ground arith)

step-IsUp : (e : SessionEvent) (s : Session) → Early e → IsUp s → IsUp (session_step e s)
unfolding session_step is_open
step-IsUp (client_message frame queued) s q u =
    subst IsUp (sym (from_client-waits frame queued s (ap is_open u.agent_waits))) u
step-IsUp (client_polled buffered) s q u = record {
  agent_waits = u.agent_waits;
  client_up = u.client_up;
  expires = u.expires;
}
step-IsUp (agent_polled buffered) s q u = record {
  agent_waits = u.agent_waits;
  client_up = u.client_up;
  expires = u.expires;
}
step-IsUp agent_opened s q u = elim q [ ]
step-IsUp agent_closed s q u = elim q [ ]
step-IsUp client_closed s q u = elim q [ ]
step-IsUp agent_error s q u = elim q [ ]
step-IsUp client_error s q u = elim q [ ]
step-IsUp denied s q u = elim q [ ]
step-IsUp expired s q u = elim q [ ]
step-IsUp unexpected_response s q u = elim q [ ]
step-IsUp (agent_message frame queued) s q u = elim q [ ]

-- A teardown leaves a socket that connects.
cleanup_all-IsLeft :
    (s : Session) → s.agent ≡ connecting → s.client ≢ connecting → IsLeft connecting (cleanup_all s)
unfolding shut_down is_open
cleanup_all-IsLeft s waits up =
    let (pings, expires, client, agent, _, _) = cleanup_all-fields s in
    record {
      agent_stays = agent ∙ ap shut_down waits;
      client_gone = subst Shut (sym client) (shut_down-Shut s.client up);
      no_pings = pings;
      no_expiry = expires;
    }

-- A close of the client's socket leaves the agent's and the timers as they are.
close_client-fields :
    (code : ℕ) (s : Session)
    → ((close_client code s).agent ≡ s.agent)
      × (s.client ≢ connecting → (close_client code s).client ≢ connecting)
      × (Shut s.client → Shut (close_client code s).client)
      × ((close_client code s).ping_armed ≡ s.ping_armed)
      × ((close_client code s).expiry_armed ≡ s.expiry_armed)
unfolding close_client is_open
close_client-fields code s = ground arith

close-IsLeft :
    (code : ℕ) (s : Session)
    → s.agent ≡ connecting
    → s.client ≢ connecting
    → IsLeft connecting (cleanup_all (close_client code s))
close-IsLeft code s waits up =
    let (agent, client, _, _, _) = close_client-fields code s in
    cleanup_all-IsLeft (close_client code s) (agent ∙ waits) (client up)

step-Leaves :
    (e : SessionEvent) (s : Session) → Leaves e → IsUp s → IsLeft connecting (session_step e s)
unfolding session_step
step-Leaves client_closed s q u =
    cleanup_all-IsLeft (record s { client = closed }) u.agent_waits (λ h. ground (arith, h))
step-Leaves client_error s q u =
    cleanup_all-IsLeft s u.agent_waits (λ h. ground (arith, h, u.client_up))
step-Leaves denied s q u =
    close-IsLeft close_access_revoked s u.agent_waits (λ h. ground (arith, h, u.client_up))
step-Leaves expired s q u =
    subst (IsLeft connecting) (sym (if-so s.expiry_armed _ s u.expires))
      (close-IsLeft close_credential_expired s u.agent_waits (λ h. ground (arith, h, u.client_up)))
step-Leaves agent_opened s q u = elim q [ ]
step-Leaves agent_closed s q u = elim q [ ]
step-Leaves agent_error s q u = elim q [ ]
step-Leaves unexpected_response s q u = elim q [ ]
step-Leaves (agent_message frame queued) s q u = elim q [ ]
step-Leaves (client_message frame queued) s q u = elim q [ ]
step-Leaves (client_polled buffered) s q u = elim q [ ]
step-Leaves (agent_polled buffered) s q u = elim q [ ]

Shut-ready : (r : ReadyState) → Shut r → r ≢ connecting
Shut-ready r h q = ground (arith, h, q)

-- Timers and frames of the agent change nothing that is left.
step-Quiet :
    (agent : ReadyState) (e : SessionEvent) (s : Session)
    → Quiet e
    → IsLeft agent s
    → IsLeft agent (session_step e s)
unfolding session_step
step-Quiet agent (agent_message frame queued) s q l =
    subst (IsLeft agent)
      (sym (from_agent-gone frame queued s (Shut-not_open s.client l.client_gone))) l
step-Quiet agent expired s q l =
    subst (IsLeft agent) (sym (if-not s.expiry_armed _ s l.no_expiry)) l
step-Quiet agent (client_polled buffered) s q l = record {
  agent_stays = l.agent_stays;
  client_gone = l.client_gone;
  no_pings = l.no_pings;
  no_expiry = l.no_expiry;
}
step-Quiet agent (agent_polled buffered) s q l = record {
  agent_stays = l.agent_stays;
  client_gone = l.client_gone;
  no_pings = l.no_pings;
  no_expiry = l.no_expiry;
}
step-Quiet agent agent_opened s q l = elim q [ ]
step-Quiet agent agent_closed s q l = elim q [ ]
step-Quiet agent client_closed s q l = elim q [ ]
step-Quiet agent agent_error s q l = elim q [ ]
step-Quiet agent client_error s q l = elim q [ ]
step-Quiet agent denied s q l = elim q [ ]
step-Quiet agent unexpected_response s q l = elim q [ ]
step-Quiet agent (client_message frame queued) s q l = elim q [ ]

step-Unanswered :
    (e : SessionEvent) (s : Session)
    → Unanswered e
    → IsLeft connecting s
    → IsLeft connecting (session_step e s)
unfolding session_step is_open
step-Unanswered (client_message frame queued) s q l =
    subst (IsLeft connecting) (sym (from_client-waits frame queued s (ap is_open l.agent_stays))) l
step-Unanswered (agent_message frame queued) s q l =
    step-Quiet connecting (agent_message frame queued) s tt l
step-Unanswered expired s q l = step-Quiet connecting expired s tt l
step-Unanswered (client_polled buffered) s q l =
    step-Quiet connecting (client_polled buffered) s tt l
step-Unanswered (agent_polled buffered) s q l = step-Quiet connecting (agent_polled buffered) s tt l
step-Unanswered client_closed s q l =
    cleanup_all-IsLeft (record s { client = closed }) l.agent_stays (λ h. ground (arith, h))
step-Unanswered client_error s q l =
    cleanup_all-IsLeft s l.agent_stays (Shut-ready s.client l.client_gone)
step-Unanswered denied s q l =
    close-IsLeft close_access_revoked s l.agent_stays (Shut-ready s.client l.client_gone)
step-Unanswered agent_opened s q l = elim q [ ]
step-Unanswered agent_closed s q l = elim q [ ]
step-Unanswered agent_error s q l = elim q [ ]
step-Unanswered unexpected_response s q l = elim q [ ]

opens-IsLeft : (s : Session) → IsLeft connecting s → IsLeft opened (session_step agent_opened s)
unfolding session_step
opens-IsLeft s l =
    let e : (elim s.agent [ connecting ↦ record s { agent = opened } | _ ↦ s ])
        ≡ record s { agent = opened } =
      ground (arith, l.agent_stays) in
    subst (IsLeft opened) (sym e) (record {
      agent_stays = refl;
      client_gone = l.client_gone;
      no_pings = l.no_pings;
      no_expiry = l.no_expiry;
    })

run-Quiet :
    (es : List SessionEvent) (s : Session)
    → All Quiet es
    → IsLeft opened s
    → IsLeft opened (run_session es s)
unfolding run_session
run-Quiet [] s q l = l
run-Quiet (e ∷ es) s q l = run-Quiet es (session_step e s) q.1 (step-Quiet opened e s q.0 l)

run-Unanswered :
    (es later : List SessionEvent) (s : Session)
    → All Unanswered es
    → All Quiet later
    → IsLeft connecting s
    → IsLeft opened (run_session (es ++ agent_opened ∷ later) s)
unfolding run_session
run-Unanswered [] later s q k l = run-Quiet later (session_step agent_opened s) k (opens-IsLeft s l)
run-Unanswered (e ∷ es) later s q k l =
    run-Unanswered es later (session_step e s) q.1 k (step-Unanswered e s q.0 l)

run-Early :
    (before : List SessionEvent) (e : SessionEvent) (es later : List SessionEvent) (s : Session)
    → All Early before
    → Leaves e
    → All Unanswered es
    → All Quiet later
    → IsUp s
    → IsLeft opened (run_session (before ++ e ∷ es ++ agent_opened ∷ later) s)
unfolding run_session
run-Early [] e es later s b q u k up =
    run-Unanswered es later (session_step e s) u k (step-Leaves e s q up)
run-Early (x ∷ before) e es later s b q u k up =
    run-Early before e es later (session_step x s) b.1 q u k (step-IsUp x s b.0 up)

start-IsUp : IsUp start_session
unfolding start_session
start-IsUp = record { agent_waits = refl; client_up = refl; expires = refl }

-- When the client goes away, its access is revoked or its credential ends while the agent's socket still
-- connects, and the agent answers after that, whatever else came between, the teardown has left that
-- socket to connect: it is open, with both timers cleared and the client's socket shut, and stays so
-- through whatever the agent sends and whichever timers fire.
pub run_session-IsLeft :
    (before : List SessionEvent) (e : SessionEvent) (es later : List SessionEvent)
    → All Early before
    → Leaves e
    → All Unanswered es
    → All Quiet later
    → IsLeft opened (run_session (before ++ e ∷ es ++ agent_opened ∷ later) start_session)
run_session-IsLeft before e es later b q u k =
    run-Early before e es later start_session b q u k start-IsUp
