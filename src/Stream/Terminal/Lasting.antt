-- ===== src/Stream/Terminal/Lasting.antt =====
-- A session that has ended stays so.
use hill90_app.Stream.Relay.{on_poll, message, poll, relay_defaults, step, on_message}
use hill90_app.Stream.Relay.Backpressure.{start-IsConsistent}
use hill90_app.Stream.Terminal.{
  close_credential_expired, close_access_revoked, close_relay_overflow, from_client, from_agent,
  end_for_overflow, close_client, connecting, opened, closing, closed, Session, start_session,
  cleanup_all, SessionEvent, agent_opened, agent_closed, client_closed, agent_error, client_error,
  unexpected_response, denied, expired, agent_message, client_message, client_polled, agent_polled,
  session_step, run_session, is_open,
}
use hill90_app.Stream.Terminal.Closing.{Closes, step-Closes}
use hill90_app.Stream.Terminal.Ended.{
  closed_client-IsReady, Shut-not_open, IsRunning, IsEnded, Invariant, Invariant-IsReady,
  outward-Invariant, inward-Invariant, cleanup_all-IsEnded, cleanup_all-fields,
}
use hill90_app.Prelude.{
  not, ◌&&◌, ◌∙◌, ◌∷◌, [], ◌≡◌, false, ◌≢◌, true, refl, some, ◌++◌, List, inl, if-both, subst,
  arith, sym, inr, if-not, ℕ,
}

end_for_overflow-IsEnded : (s : Session) → Invariant s → IsEnded (end_for_overflow s)
unfolding end_for_overflow
end_for_overflow-IsEnded s i =
    cleanup_all-IsEnded (close_client close_relay_overflow s)
      (closed_client-IsReady close_relay_overflow s (Invariant-IsReady s i))

from_agent-Invariant :
    (frame queued : ℕ) (s : Session) → Invariant s → Invariant (from_agent frame queued s)
unfolding from_agent Invariant step
from_agent-Invariant frame queued s i =
    let v = outward-Invariant s (message frame (is_open s.client) queued) (λ e. e) i in
    if-both Invariant _ _ _ (inr (end_for_overflow-IsEnded _ v)) v

from_client-Invariant :
    (frame queued : ℕ) (s : Session) → Invariant s → Invariant (from_client frame queued s)
unfolding from_client Invariant step
from_client-Invariant frame queued s i =
    let v = inward-Invariant s (message frame (is_open s.agent) queued) (λ e. e) i in
    if-both Invariant _ _ _ (inr (end_for_overflow-IsEnded _ v)) v

closed_client-Invariant : (code : ℕ) (s : Session) → Invariant s → Invariant (close_client code s)
unfolding close_client Invariant is_open
closed_client-Invariant code s (inl r) = inl (
    if-both IsRunning (is_open s.client) _ s
      (record {
        pings = r.pings;
        expires = r.expires;
        connected = r.connected;
        client_up = λ q. ground (arith, q);
        outward = r.outward;
        inward = r.inward;
      })
      r)
closed_client-Invariant code s (inr d) =
    inr
      (subst IsEnded (sym (if-not (is_open s.client) _ s (Shut-not_open s.client d.client_shut))) d)

opened_already : (s : Session) → s.agent ≢ connecting → session_step agent_opened s ≡ s
unfolding session_step
opened_already s h = ground (arith, h)

step-Invariant : (e : SessionEvent) (s : Session) → Invariant s → Invariant (session_step e s)
unfolding session_step Invariant step
step-Invariant agent_closed s i = inr (step-Closes agent_closed s tt i)
step-Invariant client_closed s i = inr (step-Closes client_closed s tt i)
step-Invariant agent_error s i = inr (step-Closes agent_error s tt i)
step-Invariant client_error s i = inr (step-Closes client_error s tt i)
step-Invariant denied s i = inr (step-Closes denied s tt i)
step-Invariant expired s i = inr (step-Closes expired s tt i)
step-Invariant agent_opened s i =
    subst Invariant (sym (opened_already s (Invariant-IsReady s i).connected)) i
step-Invariant unexpected_response s i = closed_client-Invariant 1011 s i
step-Invariant (agent_message frame queued) s i = from_agent-Invariant frame queued s i
step-Invariant (client_message frame queued) s i = from_client-Invariant frame queued s i
step-Invariant (client_polled buffered) s i =
    outward-Invariant s (poll (is_open s.client) buffered) (λ e. tt) i
step-Invariant (agent_polled buffered) s i =
    inward-Invariant s (poll (is_open s.agent) buffered) (λ e. tt) i

-- A ping interval that is cleared is not armed again.
Silent : Session → Type 0
Silent s = s.ping_armed ≡ false

cleanup_all-Silent : (s : Session) → Silent (cleanup_all s)
unfolding Silent
cleanup_all-Silent s = (cleanup_all-fields s).0

same_pings : (s s' : Session) → s'.ping_armed ≡ s.ping_armed → Silent s → Silent s'
unfolding Silent
same_pings s s' e h = e ∙ h

step-Silent : (e : SessionEvent) (s : Session) → Silent s → Silent (session_step e s)
unfolding session_step from_agent from_client end_for_overflow
step-Silent agent_closed s h = cleanup_all-Silent (record s { agent = closed })
step-Silent client_closed s h = cleanup_all-Silent (record s { client = closed })
step-Silent agent_error s h = cleanup_all-Silent s
step-Silent client_error s h = cleanup_all-Silent s
step-Silent denied s h = cleanup_all-Silent (close_client close_access_revoked s)
step-Silent expired s h =
    let v = close_client close_credential_expired s in
    if-both Silent s.expiry_armed (cleanup_all v) s (cleanup_all-Silent v) h
step-Silent agent_opened s h = unfold Silent in ground (arith, h)
step-Silent unexpected_response s h =
    let v : Session = record s { client = closing; client_code = some 1011 } in
    unfold close_client in if-both Silent (is_open s.client) v s (same_pings s v refl h) h
step-Silent (agent_message frame queued) s h =
    let p = on_message relay_defaults frame (is_open s.client) queued s.agent_to_client in
    let v : Session = record s { agent_to_client = p } in
    if-both Silent (not s.agent_to_client.overflowed && p.overflowed)
      (cleanup_all (close_client close_relay_overflow v)) v
      (cleanup_all-Silent (close_client close_relay_overflow v)) (same_pings s v refl h)
step-Silent (client_message frame queued) s h =
    let p = on_message relay_defaults frame (is_open s.agent) queued s.client_to_agent in
    let v : Session = record s { client_to_agent = p } in
    if-both Silent (not s.client_to_agent.overflowed && p.overflowed)
      (cleanup_all (close_client close_relay_overflow v)) v
      (cleanup_all-Silent (close_client close_relay_overflow v)) (same_pings s v refl h)
step-Silent (client_polled buffered) s h =
    same_pings s
      (record s {
        agent_to_client = on_poll relay_defaults (is_open s.client) buffered s.agent_to_client;
      })
      refl h
step-Silent (agent_polled buffered) s h =
    same_pings s
      (record s {
        client_to_agent = on_poll relay_defaults (is_open s.agent) buffered s.client_to_agent;
      })
      refl h

step-IsEnded : (e : SessionEvent) (s : Session) → IsEnded s → IsEnded (session_step e s)
unfolding Invariant Silent
step-IsEnded e s d = elim (step-Invariant e s (inr d)) [
  | inl r ↦ absurd (ground (arith, r.pings, step-Silent e s d.no_pings))
  | inr d' ↦ d'
]

run-IsEnded : (es : List SessionEvent) (s : Session) → IsEnded s → IsEnded (run_session es s)
unfolding run_session
run-IsEnded [] s d = d
run-IsEnded (e ∷ es) s d = run-IsEnded es (session_step e s) (step-IsEnded e s d)

run-closing :
    (before : List SessionEvent) (e : SessionEvent) (after : List SessionEvent) (s : Session)
    → Closes e
    → Invariant s
    → IsEnded (run_session (before ++ e ∷ after) s)
unfolding run_session
run-closing [] e after s c i = run-IsEnded after (session_step e s) (step-Closes e s c i)
run-closing (b ∷ before) e after s c i =
    run-closing before e after (session_step b s) c (step-Invariant b s i)

-- The session whose agent has answered.
abbrev pub connected_session : Session
connected_session = record start_session { agent = opened }

connected-Invariant : Invariant connected_session
unfolding start_session Invariant
connected-Invariant = inl (record {
  pings = refl;
  expires = refl;
  connected = λ q. ground (arith, q);
  client_up = λ q. ground (arith, q);
  outward = start-IsConsistent true;
  inward = start-IsConsistent true;
})

-- Once the agent has answered, the first close or error of a socket, revocation or expiry ends the
-- session, whatever came before: from then on, whatever else arrives, both timers are cleared, both
-- sockets closing or closed, and neither relay holds a timer or a paused socket.
pub run_session-IsEnded :
    (before : List SessionEvent) (e : SessionEvent) (after : List SessionEvent)
    → Closes e
    → IsEnded (run_session (before ++ e ∷ after) connected_session)
run_session-IsEnded before e after c =
    run-closing before e after connected_session c connected-Invariant
