-- ===== src/Stream/PollSignal.antt =====
-- services/api/src/services/sse-writer.ts: the signal that a follow-mode stream's poll is failing.
pub mod Outages
use hill90_app.Prelude.{
  ℕ, zero, suc, ◌+◌, ◌-◌, ◌/◌, max, Bool, true, false, Option, none, some, List, [], ◌∷◌, ◌&&◌, not,
  leb, if◌then◌else◌,
}

-- `SSE_DEFAULTS.pollFailureSignalMs`
abbrev pub poll_failure_signal_ms : ℕ
poll_failure_signal_ms = 10000

-- `none` is the `Infinity` that a division by an interval of 0 gives.
unfoldable pub failure_threshold_for : ℕ → Option ℕ
failure_threshold_for interval = elim interval [
  | zero ↦ none
  | suc k ↦ some (max 1 ((poll_failure_signal_ms + suc k - 1) / suc k))
]

-- The closure's variables, and how often `onThresholdCrossed` was called.
pub record PollSignal : Type 0 where
  pub consecutive_failures : ℕ
  pub signalled : Bool
  pub fired : ℕ

abbrev pub fresh_signal : PollSignal
fresh_signal = record { consecutive_failures = 0; signalled = false; fired = 0 }

unfoldable pub record_failure : ℕ → PollSignal → PollSignal
record_failure threshold s =
    let t = record s { consecutive_failures = s.consecutive_failures + 1 } in
    if not t.signalled && leb threshold t.consecutive_failures
    then record t { signalled = true; fired = t.fired + 1 }
    else t

pub record_success : PollSignal → PollSignal
record_success s = record s { consecutive_failures = 0; signalled = false }

pub data Tick : Type 0 where
  failure success : Tick

pub run_ticks : ℕ → List Tick → PollSignal → PollSignal
unfolding record_failure record_success
run_ticks threshold [] s = s
run_ticks threshold (failure ∷ ticks) s = run_ticks threshold ticks (record_failure threshold s)
run_ticks threshold (success ∷ ticks) s = run_ticks threshold ticks (record_success s)
