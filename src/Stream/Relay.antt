-- ===== src/Stream/Relay.antt =====
-- services/api/src/services/relay-backpressure.ts: one direction of a WebSocket relay. The sockets are
-- the environment: an event carries what `isOpen(to)` and `to.bufferedAmount` answer while the
-- listener runs. The proofs are in the modules below.
pub mod Delivery
pub mod Backpressure
use hill90_app.Prelude.{
  ℕ, ◌/◌, ◌*◌, Bool, true, false, Option, none, some, List, [], ◌∷◌, ◌++◌, ltb, leb, not,
  if◌then◌else◌,
}

-- The thresholds of `RelayOptions`; the poll's period does not enter the logic.
pub record RelayOptions : Type 0 where
  pub high_water_bytes : ℕ
  pub hard_cap_bytes : ℕ

abbrev pub relay_defaults : RelayOptions
relay_defaults = record { high_water_bytes = 1024 * 1024; hard_cap_bytes = 8 * 1024 * 1024 }

-- The closure's variables, and what it did to the sockets. `source_paused` is `from._socket`, which
-- is optional: `none` where it is absent.
pub record Pump (D : Type 0) : Type 0 where
  pub resume_timer : Bool
  pub paused : Bool
  pub overflowed : Bool
  pub source_paused : Option Bool
  pub sent : List D
  pub overflow_calls : List ℕ

-- `from._socket?.pause()` and `from._socket?.resume()`
abbrev pub set_source : Bool → Option Bool → Option Bool
set_source b none = none
set_source b (some p) = some b

abbrev resume_threshold : RelayOptions → ℕ
resume_threshold o = o.high_water_bytes / 2

-- What reaches the pump: a frame of `from`, with the answers of `to`, or a round of the poll.
pub data Event (D : Type 0) : Type 0 where
  message : D → Bool → ℕ → Event D
  poll : Bool → ℕ → Event D

module _ {D : Type 0} where
  unfoldable pub start : Bool → Pump D
  start has_socket = record {
    resume_timer = false;
    paused = false;
    overflowed = false;
    source_paused = if has_socket then some false else none;
    sent = [];
    overflow_calls = [];
  }

  stop_polling : Pump D → Pump D
  stop_polling p = record p { resume_timer = false }

  resume_source : Pump D → Pump D
  unfolding stop_polling
  resume_source p =
      let q = stop_polling (record p { paused = false }) in
      record q { source_paused = set_source false q.source_paused }

  pause_source : Pump D → Pump D
  pause_source p = if p.paused then p else record p {
    paused = true;
    source_paused = set_source true p.source_paused;
    resume_timer = true;
  }

  -- The interval's callback. It runs only while the interval exists.
  pub on_poll : RelayOptions → Bool → ℕ → Pump D → Pump D
  unfolding resume_source
  on_poll o to_open buffered p =
      if not p.resume_timer
      then p
      else (if not to_open
          then resume_source p
          else if leb buffered (resume_threshold o)
          then resume_source p
          else p)

  -- The 'message' listener; `queued` is `to.bufferedAmount` after the send.
  unfoldable pub on_message : RelayOptions → D → Bool → ℕ → Pump D → Pump D
  unfolding stop_polling pause_source
  on_message o data' to_open queued p =
      if p.overflowed
      then p
      else if not to_open
      then p
      else let q = record p { sent = p.sent ++ data' ∷ [] } in
        if ltb o.hard_cap_bytes queued
        then (let r = stop_polling (record q { overflowed = true }) in
            record r { overflow_calls = r.overflow_calls ++ queued ∷ [] })
        else if ltb o.high_water_bytes queued
        then pause_source q
        else q

  -- The returned teardown.
  pub cleanup : Pump D → Pump D
  unfolding stop_polling
  cleanup p =
      let q = stop_polling p in
      if q.paused then record q { source_paused = set_source false q.source_paused } else q

  unfoldable pub step : RelayOptions → Event D → Pump D → Pump D
  unfolding on_message on_poll
  step o (message data' to_open queued) p = on_message o data' to_open queued p
  step o (poll to_open buffered) p = on_poll o to_open buffered p

  unfoldable pub run : RelayOptions → List (Event D) → Pump D → Pump D
  run o [] p = p
  run o (e ∷ es) p = run o es (step o e p)
