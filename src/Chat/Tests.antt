-- ===== src/Chat/Tests.antt =====
-- A thread of two messages that grows by a third.
use hill90_app.Chat.Poll.{
  closed, oldest, drained, backfill, newer, sse_backfill_limit, tick, backfill_tail, poll, start,
  run, Env, Message, Stream,
}
use hill90_app.Prelude.{inl, arith, length, ◌++◌, true, ltb, ◌≡◌, refl, [], false, ◌∷◌}
use hill90_app.Chat.Poll.Delivery.{IsSteady, frames_of, IsHealthy}
use hill90_app.Chat.Poll.Sequence.{Ascending, sent, Within}
use hill90_app.Chat.Poll.Once.{Round, run-ticks, ticks}
use hill90_app.Chat.Poll.Backfill.{poll-start, IsNewest}
use hill90_app.Chat.Poll.Order.{run-start-Within}
use hill90_app.Prelude.Exec.{ok}

abbrev hello : Message
hello = record { seq = 3; content = "hello" }

abbrev reply : Message
reply = record { seq = 5; content = "reply" }

abbrev thanks : Message
thanks = record { seq = 6; content = "thanks" }

abbrev env : Env
env = record {
  messages = hello ∷ reply ∷ [];
  page = ok tt;
  count = ok 2;
  goes_away = false;
  queued = λ f. 0;
  accepts = λ f. true;
}

abbrev later : Env
later = record env { messages = hello ∷ reply ∷ thanks ∷ []; count = ok 3 }

env-IsHealthy : IsHealthy env 2
env-IsHealthy = record { page = refl; count = refl; stays = refl; room = λ f. omega arith }

later-IsHealthy : IsHealthy later 3
later-IsHealthy = record { page = refl; count = refl; stays = refl; room = λ f. omega arith }

abbrev full : Env
full = record later { queued = λ f. 9000000 }

run-start-Within_example :
    Within 3
      (run (tick env ∷ drained ∷ tick full ∷ closed ∷ []) (start 3)).cursor
      (sent (run (tick env ∷ drained ∷ tick full ∷ closed ∷ []) (start 3)).wire)
run-start-Within_example = run-start-Within (tick env ∷ drained ∷ tick full ∷ closed ∷ []) 3 (
  (omega arith, (omega arith, tt)),
  (tt, ((omega arith, (omega arith, (omega arith, tt))), (tt, tt))),
)

abbrev steady : Stream
steady = record (start 3) { is_backfill = false }

steady-IsSteady : IsSteady steady
unfolding start
steady-IsSteady = record {
  live = record { open_ended = refl; connected = refl; fits = refl; polls = refl };
  caught_up = refl;
}

-- A poll whose frames the response takes with a request to wait, and a poll after the drain.
abbrev slow : Round
slow = record { env = record env { accepts = λ f. false }; total = 2; drains = true }

abbrev brisk : Round
brisk = record { env = later; total = 3; drains = false }

slow-IsHealthy : IsHealthy slow.env 2
slow-IsHealthy = record { page = refl; count = refl; stays = refl; room = λ f. omega arith }

steady-reads : steady.poll_paused ≡ false
unfolding start
steady-reads = refl

run-ticks_example :
    (run (ticks (slow ∷ brisk ∷ [])) steady).wire
    ≡ steady.wire ++ frames_of (newer steady.cursor later.messages)
run-ticks_example =
    run-ticks steady slow (brisk ∷ []) steady-IsSteady steady-reads slow-IsHealthy
      (omega arith, (omega arith, tt))
      (
        inl refl,
        later-IsHealthy,
        (thanks ∷ [], refl),
        (omega arith, (omega arith, (omega arith, tt))),
        tt,
      )

poll-start_example :
    let rows = backfill_tail 3 sse_backfill_limit env.messages in
    ((poll env (start 3)).wire
      ≡ backfill (record {
        sent = length rows;
        total = 2;
        oldest_seq_sent = oldest rows;
        has_older = ltb (length rows) 2;
      })
        ∷ frames_of rows)
    × IsNewest sse_backfill_limit rows (newer 3 env.messages)
    × Ascending 3 rows
poll-start_example = poll-start env 2 3 env-IsHealthy (omega arith, (omega arith, tt))
