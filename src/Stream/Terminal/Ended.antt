-- ===== src/Stream/Terminal/Ended.antt =====
-- A session that has ended holds nothing.
use hill90_app.Stream.Relay.{Pump, Event, relay_defaults, step, cleanup}
use hill90_app.Stream.Relay.Backpressure.{
  IsShut, IsConsistent, IsReleased, step-IsConsistent, cleanup-IsReleased, cleanup-keeps,
  step-IsReleased,
}
use hill90_app.Stream.Terminal.{
  is_open, close_agent, close_client, ReadyState, connecting, opened, closing, closed, Session,
  cleanup_all,
}
use hill90_app.Prelude.{
  if-both, if◌then◌else◌, subst, refl, sym, Bool-cases, ◌⊎◌, ℕ, inl, arith, false, ◌≡◌, ◌≢◌, true,
  inr,
}

-- The socket is on its way out.
abbrev pub Shut : ReadyState → Type 0
Shut r = (r ≡ closing) ⊎ (r ≡ closed)

-- Both timers are cleared, the sockets are closing or closed, and no relay holds a timer or a socket.
pub record IsEnded (s : Session) : Type 0 where
  pub no_pings : s.ping_armed ≡ false
  pub no_expiry : s.expiry_armed ≡ false
  pub client_shut : Shut s.client
  pub agent_shut : Shut s.agent
  pub outward : IsReleased s.agent_to_client
  pub inward : IsReleased s.client_to_agent

pub record IsRunning (s : Session) : Type 0 where
  pub pings : s.ping_armed ≡ true
  pub expires : s.expiry_armed ≡ true
  pub connected : s.agent ≢ connecting
  pub client_up : s.client ≢ connecting
  pub outward : IsConsistent s.agent_to_client
  pub inward : IsConsistent s.client_to_agent

-- What the teardown needs.
pub record IsReady (s : Session) : Type 0 where
  pub connected : s.agent ≢ connecting
  pub client_up : s.client ≢ connecting
  pub outward : IsConsistent s.agent_to_client ⊎ IsReleased s.agent_to_client
  pub inward : IsConsistent s.client_to_agent ⊎ IsReleased s.client_to_agent

released : (p : Pump ℕ) → IsConsistent p ⊎ IsReleased p → IsReleased (cleanup p)
released p (inl c) = cleanup-IsReleased p c
released p (inr r) = cleanup-keeps p r

-- The sockets after the teardown, and what it leaves of the rest.
unfoldable pub shut_down : ReadyState → ReadyState
unfolding is_open
shut_down r = if is_open r then closing else r

pub shut_down-Shut : (r : ReadyState) → r ≢ connecting → Shut (shut_down r)
unfolding shut_down is_open
shut_down-Shut connecting h = absurd (h refl)
shut_down-Shut opened h = inl refl
shut_down-Shut closing h = inl refl
shut_down-Shut closed h = inr refl

pub cleanup_all-fields :
    (s : Session)
    → ((cleanup_all s).ping_armed ≡ false)
      × ((cleanup_all s).expiry_armed ≡ false)
      × ((cleanup_all s).client ≡ shut_down s.client)
      × ((cleanup_all s).agent ≡ shut_down s.agent)
      × ((cleanup_all s).agent_to_client ≡ cleanup s.agent_to_client)
      × ((cleanup_all s).client_to_agent ≡ cleanup s.client_to_agent)
unfolding cleanup_all close_client close_agent shut_down
cleanup_all-fields s = elim (Bool-cases (is_open s.client)) [
  | inl c ↦ elim (Bool-cases (is_open s.agent)) [
    | inl a ↦ ground (arith, c, a)
    | inr a ↦ ground (arith, c, a)
  ]
  | inr c ↦ elim (Bool-cases (is_open s.agent)) [
    | inl a ↦ ground (arith, c, a)
    | inr a ↦ ground (arith, c, a)
  ]
]

pub cleanup_all-IsEnded : (s : Session) → IsReady s → IsEnded (cleanup_all s)
cleanup_all-IsEnded s r =
    let (pings, expires, client, agent, out_, in_) = cleanup_all-fields s in
    record {
      no_pings = pings;
      no_expiry = expires;
      client_shut = subst Shut (sym client) (shut_down-Shut s.client r.client_up);
      agent_shut = subst Shut (sym agent) (shut_down-Shut s.agent r.connected);
      outward = subst IsReleased (sym out_) (released s.agent_to_client r.outward);
      inward = subst IsReleased (sym in_) (released s.client_to_agent r.inward);
    }

pub running-IsReady : (s : Session) → IsRunning s → IsReady s
running-IsReady s r = record {
  connected = r.connected;
  client_up = r.client_up;
  outward = inl r.outward;
  inward = inl r.inward;
}

pub ended-IsReady : (s : Session) → IsEnded s → IsReady s
ended-IsReady s e = record {
  connected = λ q. ground (arith, q, e.agent_shut);
  client_up = λ q. ground (arith, q, e.client_shut);
  outward = inr e.outward;
  inward = inr e.inward;
}

pub closed_client-IsReady : (code : ℕ) (s : Session) → IsReady s → IsReady (close_client code s)
unfolding close_client is_open
closed_client-IsReady code s r =
    if-both IsReady (is_open s.client) _ s
      (record {
        connected = r.connected;
        client_up = λ q. ground (arith, q);
        outward = r.outward;
        inward = r.inward;
      })
      r

-- A session is running or has ended.
unfoldable pub Invariant : Session → Type 0
Invariant s = IsRunning s ⊎ IsEnded s

pub Invariant-IsReady : (s : Session) → Invariant s → IsReady s
unfolding Invariant
Invariant-IsReady s (inl r) = running-IsReady s r
Invariant-IsReady s (inr e) = ended-IsReady s e

pub Shut-not_open : (r : ReadyState) → Shut r → is_open r ≡ false
unfolding is_open
Shut-not_open r (inl e) = rw e refl
Shut-not_open r (inr e) = rw e refl

-- A step of each relay; it finds a socket that is shut not open.
pub outward-Invariant :
    (s : Session) (e : Event ℕ)
    → (is_open s.client ≡ false → IsShut e)
    → Invariant s
    → Invariant (record s { agent_to_client = step relay_defaults e s.agent_to_client })
unfolding Invariant
outward-Invariant s e shut (inl r) = inl (record {
  pings = r.pings;
  expires = r.expires;
  connected = r.connected;
  client_up = r.client_up;
  outward = step-IsConsistent relay_defaults e s.agent_to_client r.outward;
  inward = r.inward;
})
outward-Invariant s e shut (inr d) = inr (record {
  no_pings = d.no_pings;
  no_expiry = d.no_expiry;
  client_shut = d.client_shut;
  agent_shut = d.agent_shut;
  outward =
      step-IsReleased relay_defaults e s.agent_to_client
        (shut (Shut-not_open s.client d.client_shut)) d.outward;
  inward = d.inward;
})

pub inward-Invariant :
    (s : Session) (e : Event ℕ)
    → (is_open s.agent ≡ false → IsShut e)
    → Invariant s
    → Invariant (record s { client_to_agent = step relay_defaults e s.client_to_agent })
unfolding Invariant
inward-Invariant s e shut (inl r) = inl (record {
  pings = r.pings;
  expires = r.expires;
  connected = r.connected;
  client_up = r.client_up;
  outward = r.outward;
  inward = step-IsConsistent relay_defaults e s.client_to_agent r.inward;
})
inward-Invariant s e shut (inr d) = inr (record {
  no_pings = d.no_pings;
  no_expiry = d.no_expiry;
  client_shut = d.client_shut;
  agent_shut = d.agent_shut;
  outward = d.outward;
  inward =
      step-IsReleased relay_defaults e s.client_to_agent (shut (Shut-not_open s.agent d.agent_shut))
        d.inward;
})
