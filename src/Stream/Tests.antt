-- ===== src/Stream/Tests.antt =====
-- Short runs of the relay, of the event stream's writer, of its failure signal and of a bounded read.
use hill90_app.Prelude.{◌++◌, ℕ, ◌≡◌, refl, true, false, some, List, [], ◌∷◌}
use hill90_app.Stream.Terminal.{
  start_session, run_session, opened, client_message, agent_message, denied, expired, client_closed,
  agent_opened,
}
use hill90_app.Stream.Relay.{relay_defaults, Event, message, poll, start, run, step}
use hill90_app.Stream.Relay.Delivery.{delivered, overflow, run-delivered}
use hill90_app.Stream.Relay.Backpressure.{IsConsistent, run-start-IsConsistent}
use hill90_app.Stream.SseWriter as SseWriter
use hill90_app.Stream.SseWriter.{Response, frame, drained, create, written, overflowed_at}
use hill90_app.Stream.SseWriter.Bounds.{visible, admitted, run-admitted}
use hill90_app.Stream.BoundedRead.{StreamEvent, bytes, ended, collect_bounded}
use hill90_app.Stream.BoundedRead.Ceiling.{answer, collect_bounded-answer}
use hill90_app.Stream.PollSignal.{Tick, failure, success, failure_threshold_for}
use hill90_app.Stream.Deadline.{arm_credential_deadline}
use hill90_app.Stream.Terminal.Ended.{IsEnded}
use hill90_app.Stream.Terminal.Lasting.{run_session-IsEnded, connected_session}
use hill90_app.Stream.Terminal.Connecting.{IsLeft, run_session-IsLeft}

abbrev frames : List (Event ℕ)
frames = message 1 true 10 ∷ message 2 false 0 ∷ message 3 true 2000000 ∷ poll true 600000 ∷ []

run-delivered_example :
    ((run relay_defaults frames (start true)).sent ≡ delivered relay_defaults frames)
    × ((run relay_defaults frames (start true)).overflow_calls ≡ overflow relay_defaults frames)
run-delivered_example = run-delivered relay_defaults frames true

run-start-IsConsistent_example : IsConsistent (run relay_defaults frames (start true))
run-start-IsConsistent_example = run-start-IsConsistent relay_defaults frames true

frames-calm : (run relay_defaults frames (start true)).overflowed ≡ false
unfolding run start step
frames-calm = refl

abbrev slow : ℕ → Response
slow queued = record {
  writable_ended = false;
  destroyed = false;
  writable_length = queued;
  accepts = false;
}

abbrev events : List SseWriter.Event
events = frame 1 (slow 0) ∷ drained ∷ frame 2 (slow 50) ∷ frame 3 (slow 200) ∷ frame 4 (slow 0) ∷ []

run-admitted_example :
    visible (SseWriter.run 100 events (SseWriter.set_source (some 7) create)).calls
    ≡ admitted 100 events
run-admitted_example = run-admitted 100 events (some 7)

abbrev stream : List StreamEvent
stream = bytes (1 ∷ 2 ∷ []) ∷ bytes (3 ∷ []) ∷ ended ∷ []

collect_bounded-answer_example : collect_bounded 2 stream ≡ answer 2 [] stream
collect_bounded-answer_example = collect_bounded-answer 2 stream

abbrev ticks : List Tick
ticks = failure ∷ failure ∷ success ∷ failure ∷ failure ∷ failure ∷ []

two_seconds : failure_threshold_for 2000 ≡ some 5
unfolding failure_threshold_for
two_seconds = refl

minute_armed : arm_credential_deadline (some 100) 40000 ≡ some 60000
unfolding arm_credential_deadline
minute_armed = refl

run_session-IsEnded_example : IsEnded (
    run_session
      ((client_message 1 2000000 ∷ agent_message 2 0 ∷ [])
        ++ denied ∷ agent_message 3 9000000 ∷ client_message 4 2000000 ∷ expired ∷ [])
      connected_session)
run_session-IsEnded_example =
    run_session-IsEnded (client_message 1 2000000 ∷ agent_message 2 0 ∷ []) denied
      (agent_message 3 9000000 ∷ client_message 4 2000000 ∷ expired ∷ []) tt

run_session-IsLeft_example : IsLeft opened (
    run_session
      ((client_message 1 5 ∷ [])
        ++ denied ∷ (client_closed ∷ expired ∷ [])
        ++ agent_opened ∷ (agent_message 2 0 ∷ expired ∷ []))
      start_session)
run_session-IsLeft_example =
    run_session-IsLeft (client_message 1 5 ∷ []) denied (client_closed ∷ expired ∷ [])
      (agent_message 2 0 ∷ expired ∷ []) (tt, tt) tt (tt, (tt, tt)) (tt, (tt, tt))
