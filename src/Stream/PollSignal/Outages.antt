-- ===== src/Stream/PollSignal/Outages.antt =====
-- The signal against the outages that a reader of the ticks sees.
use hill90_app.Prelude.{
  ℕ, zero, suc, ◌+◌, ◌-◌, ◌*◌, ◌≤◌, ◌<◌, ◌≡◌, ◌⊎◌, some, List, [], ◌∷◌, arith, leb, if◌then◌else◌,
}
use hill90_app.Stream.PollSignal.{
  PollSignal, fresh_signal, record_failure, record_success, Tick, failure, success, run_ticks,
  failure_threshold_for, poll_failure_signal_ms,
}

-- The lengths of the maximal runs of failures, the first one `n` longer.
unfoldable pub failure_runs : ℕ → List Tick → List ℕ
failure_runs n [] = n ∷ []
failure_runs n (failure ∷ ticks) = failure_runs (n + 1) ticks
failure_runs n (success ∷ ticks) = n ∷ failure_runs 0 ticks

unfoldable pub count_long : ℕ → List ℕ → ℕ
count_long threshold [] = 0
count_long threshold (n ∷ ns) = (if leb threshold n then 1 else 0) + count_long threshold ns

run_ticks-fired :
    (threshold : ℕ) (ticks : List Tick) (s : PollSignal)
    → 1 ≤ threshold
    → s.signalled ≡ leb threshold s.consecutive_failures
    → (run_ticks threshold ticks s).fired + (if s.signalled then 1 else 0)
      ≡ s.fired + count_long threshold (failure_runs s.consecutive_failures ticks)
unfolding run_ticks failure_runs count_long
run_ticks-fired threshold [] s pos h = ground arith
run_ticks-fired threshold (failure ∷ ticks) s pos h =
    ground (arith, run_ticks-fired threshold ticks (record_failure threshold s) pos)
run_ticks-fired threshold (success ∷ ticks) s pos h =
    ground (arith, run_ticks-fired threshold ticks (record_success s) pos)

-- With a threshold of at least one, the signal fires exactly once for each maximal run of failures
-- that is as long as the threshold, and for no shorter run.
run_ticks-count_long :
    (threshold : ℕ) (ticks : List Tick)
    → 1 ≤ threshold
    → (run_ticks threshold ticks fresh_signal).fired ≡ count_long threshold (failure_runs 0 ticks)
run_ticks-count_long threshold ticks pos =
    ground (arith, run_ticks-fired threshold ticks fresh_signal pos)

-- For a positive interval the threshold is at least one, that many polls span the ten seconds, and
-- one poll fewer does not.
failure_threshold_for_bounds :
    (interval n : ℕ)
    → failure_threshold_for interval ≡ some n
    → (1 ≤ n)
      × (poll_failure_signal_ms ≤ n * interval)
      × ((n ≡ 1) ⊎ ((n - 1) * interval < poll_failure_signal_ms))
unfolding failure_threshold_for
failure_threshold_for_bounds zero n h = ground arith
failure_threshold_for_bounds (suc k) n h = grind arith
