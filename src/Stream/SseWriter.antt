-- ===== src/Stream/SseWriter.antt =====
-- services/api/src/services/sse-writer.ts: the bounded writer of Server-Sent Events. A producer is a
-- number; what the closure does to the response and to the producers is kept in order.
pub mod Bounds
use hill90_app.Prelude.{
  ℕ, zero, suc, ◌*◌, Bool, true, false, Option, none, some, List, [], ◌∷◌, ◌++◌, ◌&&◌, ◌||◌, not,
  ltb, is_some, if◌then◌else◌,
}

-- `SSE_DEFAULTS.hardCapBytes`
abbrev pub hard_cap_bytes : ℕ
hard_cap_bytes = 8 * 1024 * 1024

-- What the closure calls. `accepted` is what `res.write` returned.
pub data Call : Type 0 where
  written : ℕ → Call
  paused_source resumed_source : ℕ → Call
  overflowed_at : ℕ → Call

-- The closure's variables; `drain_listeners` are the `once` listeners that wait on the response.
pub record Writer : Type 0 where
  pub source : Option ℕ
  pub overflowed : Bool
  pub paused : Bool
  pub drain_listeners : ℕ
  pub calls : List Call

pub create : Writer
create = record {
  source = none;
  overflowed = false;
  paused = false;
  drain_listeners = 0;
  calls = [];
}

-- The response while `write` runs: its flags and length, and what `res.write` will return.
pub record Response : Type 0 where
  pub writable_ended : Bool
  pub destroyed : Bool
  pub writable_length : ℕ
  pub accepts : Bool

call : Call → Writer → Writer
call c w = record w { calls = w.calls ++ c ∷ [] }

call_source : (ℕ → Call) → Writer → Writer
unfolding call
call_source c w = elim w.source [ none ↦ w | some s ↦ call (c s) w ]

pub set_source : Option ℕ → Writer → Writer
set_source s w = record w { source = s }

pub write : ℕ → ℕ → Response → Writer → Writer × Bool
unfolding call call_source
write cap chunk res w =
    if w.overflowed || res.writable_ended || res.destroyed
    then (w, false)
    else if ltb cap res.writable_length
    then (call (overflowed_at res.writable_length) (record w { overflowed = true }), false)
    else (
      if not res.accepts && is_some w.source && not w.paused
          then (let v =
                call_source paused_source (record (call (written chunk) w) { paused = true }) in
              record v { drain_listeners = suc v.drain_listeners })
          else call (written chunk) w,
      res.accepts,
    )

-- One 'drain' listener.
on_drain : Writer → Writer
unfolding call_source
on_drain w =
    let v = record w { paused = false } in if v.overflowed then v else call_source resumed_source v

run_listeners : ℕ → Writer → Writer
unfolding on_drain
run_listeners zero w = w
run_listeners (suc n) w = run_listeners n (on_drain w)

-- The response emits 'drain': each listener runs once and is gone.
pub drain : Writer → Writer
unfolding run_listeners
drain w = run_listeners w.drain_listeners (record w { drain_listeners = 0 })

pub data Event : Type 0 where
  frame : ℕ → Response → Event
  drained : Event

pub run : ℕ → List Event → Writer → Writer
unfolding write drain
run cap [] w = w
run cap (frame chunk res ∷ es) w = run cap es (write cap chunk res w).0
run cap (drained ∷ es) w = run cap es (drain w)
