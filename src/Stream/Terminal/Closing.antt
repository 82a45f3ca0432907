-- ===== src/Stream/Terminal/Closing.antt =====
-- The events that end a session.
use hill90_app.Stream.Terminal.{
  close_credential_expired, close_access_revoked, closed, Session, SessionEvent, agent_opened,
  agent_closed, client_closed, agent_error, client_error, unexpected_response, denied, expired,
  agent_message, client_message, client_polled, agent_polled, session_step,
}
use hill90_app.Prelude.{if-so, if-not, subst, sym, inl, arith, inr}
use hill90_app.Stream.Terminal.Ended.{
  IsEnded, Invariant, Invariant-IsReady, cleanup_all-IsEnded, closed_client-IsReady,
  running-IsReady,
}

-- What closes a session.
abbrev pub Closes : SessionEvent → Type 0
Closes agent_closed = Unit {0}
Closes client_closed = Unit {0}
Closes agent_error = Unit {0}
Closes client_error = Unit {0}
Closes denied = Unit {0}
Closes expired = Unit {0}
Closes _ = ⊥

pub step-Closes :
    (e : SessionEvent) (s : Session) → Closes e → Invariant s → IsEnded (session_step e s)
unfolding session_step Invariant
step-Closes agent_closed s c i =
    cleanup_all-IsEnded (record s { agent = closed })
      (let r = Invariant-IsReady s i in
        record {
          connected = λ q. ground (arith, q);
          client_up = r.client_up;
          outward = r.outward;
          inward = r.inward;
        })
step-Closes client_closed s c i =
    cleanup_all-IsEnded (record s { client = closed })
      (let r = Invariant-IsReady s i in
        record {
          connected = r.connected;
          client_up = λ q. ground (arith, q);
          outward = r.outward;
          inward = r.inward;
        })
step-Closes agent_error s c i = cleanup_all-IsEnded s (Invariant-IsReady s i)
step-Closes client_error s c i = cleanup_all-IsEnded s (Invariant-IsReady s i)
step-Closes denied s c i =
    cleanup_all-IsEnded _ (closed_client-IsReady close_access_revoked s (Invariant-IsReady s i))
step-Closes expired s c (inl r) =
    subst IsEnded (sym (if-so s.expiry_armed _ _ r.expires)) (
      cleanup_all-IsEnded _
        (closed_client-IsReady close_credential_expired s (running-IsReady s r)))
step-Closes expired s c (inr d) = subst IsEnded (sym (if-not s.expiry_armed _ _ d.no_expiry)) d
step-Closes agent_opened s c i = elim c [ ]
step-Closes unexpected_response s c i = elim c [ ]
step-Closes (agent_message frame queued) s c i = elim c [ ]
step-Closes (client_message frame queued) s c i = elim c [ ]
step-Closes (client_polled buffered) s c i = elim c [ ]
step-Closes (agent_polled buffered) s c i = elim c [ ]
