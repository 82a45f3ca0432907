-- ===== src/Chat/Poll.antt =====
-- services/api/src/routes/chat.ts, GET /threads/:id/stream: the poll that sends the messages of a thread,
-- and services/api/src/helpers/chat-backfill.ts, which bounds its first run. The bounded writer of
-- sse-writer.ts stands here as this route uses it: its source is the poll itself.
pub mod Sequence
pub mod Order
pub mod Backfill
pub mod Delivery
pub mod Once
use hill90_app.Prelude.Exec.{Result, ok, thrown}
use hill90_app.Stream.SseWriter.{hard_cap_bytes}
use hill90_app.Stream.PollSignal.{PollSignal, fresh_signal, record_failure, record_success}
use hill90_app.Prelude.{
  if◌then◌else◌, true, List, length, some, false, [], ◌++◌, String, ltb, ◌||◌, ℕ, Option, Bool, ◌∷◌,
  drop, ◌-◌, none,
}

abbrev pub sse_backfill_limit : ℕ
sse_backfill_limit = 500

-- A row of `chat_messages`; the other columns are `content`.
pub record Message : Type 0 where
  pub seq : ℕ
  pub content : String

pub record BackfillNotice : Type 0 where
  pub sent : ℕ
  pub total : ℕ
  pub oldest_seq_sent : Option ℕ
  pub has_older : Bool

pub data Frame : Type 0 where
  backfill : BackfillNotice → Frame
  message : Message → Frame
  delayed overflow : Frame

-- The closure's variables; `polling` says that the two intervals are not cleared.
pub record Stream : Type 0 where
  pub cursor : ℕ
  pub is_backfill : Bool
  pub poll_paused : Bool
  pub writable_ended : Bool
  pub destroyed : Bool
  pub overflowed : Bool
  pub polling : Bool
  pub signal : PollSignal
  pub wire : List Frame

unfoldable pub start : ℕ → Stream
start cursor = record {
  cursor = cursor;
  is_backfill = true;
  poll_paused = false;
  writable_ended = false;
  destroyed = false;
  overflowed = false;
  polling = true;
  signal = fresh_signal;
  wire = [];
}

-- What one poll meets: the thread's messages by `seq`, how the two queries end, whether the client goes
-- away while they run, and how much is queued, and what `res.write` returns, at each frame.
pub record Env : Type 0 where
  pub messages : List Message
  pub page : Result (Unit {0})
  pub count : Result ℕ
  pub goes_away : Bool
  pub queued : Frame → ℕ
  pub accepts : Frame → Bool

-- `POLL_SQL`
pub newer : ℕ → List Message → List Message
newer cursor [] = []
newer cursor (m ∷ ms) = let rest = newer cursor ms in if ltb cursor m.seq then m ∷ rest else rest

-- `BACKFILL_TAIL_SQL`
pub backfill_tail : ℕ → ℕ → List Message → List Message
unfolding newer
backfill_tail cursor limit ms = let rows = newer cursor ms in drop (length rows - limit) rows

pub oldest : List Message → Option ℕ
oldest [] = none
oldest (m ∷ ms) = some m.seq

pub backfill_notice : List Message → ℕ → BackfillNotice
unfolding oldest
backfill_notice rows total = record {
  sent = length rows;
  total = total;
  oldest_seq_sent = oldest rows;
  has_older = ltb (length rows) total;
}

gone : Stream → Bool
gone st = st.writable_ended || st.destroyed

put : Frame → Stream → Stream
put f st = record st { wire = st.wire ++ f ∷ [] }

-- `onOverflow`: `cleanup`, the last frame and the end of the response.
on_overflow : Stream → Stream
unfolding put
on_overflow st = record (put overflow st) {
  overflowed = true;
  polling = false;
  writable_ended = true;
}

-- `sse.write`
pub sse_write : Env → Frame → Stream → Stream
unfolding gone put on_overflow
sse_write env f st =
    if st.overflowed || gone st
    then st
    else if ltb hard_cap_bytes (env.queued f)
    then on_overflow st
    else if env.accepts f
    then put f st
    else record (put f st) { poll_paused = true }

-- `failureThresholdFor(CHAT_STREAM_POLL_MS)`
abbrev pub poll_threshold : ℕ
poll_threshold = 10

-- `pollFailureSignal.recordFailure`, with its callback
fail : Env → Stream → Stream
unfolding sse_write
fail env st =
    let signal = record_failure poll_threshold st.signal in
    let v = record st { signal = signal } in
    if ltb st.signal.fired signal.fired then sse_write env delayed v else v

-- The loop over the rows; a response that is gone ends the poll.
pub send_rows : Env → List Message → Stream → Stream
unfolding sse_write gone
send_rows env [] st = record st { signal = record_success st.signal }
send_rows env (m ∷ ms) st =
    let next = send_rows env ms (record (sse_write env (message m) st) { cursor = m.seq }) in
    if gone st then st else next

-- The poll from the answer of its query on, with the rows it gave.
announce : Env → List Message → Stream → Result ℕ → Stream
unfolding send_rows fail
announce env rows st (thrown e) = fail env st
announce env rows st (ok total) =
    send_rows env rows (sse_write env (backfill (backfill_notice rows total)) st)

leaves : Env → Stream → Stream
leaves env st = if env.goes_away then record st { destroyed = true } else st

pub deliver : Env → List Message → Stream → Stream
unfolding announce leaves
deliver env rows st =
    if st.is_backfill
    then announce env rows (leaves env (record st { is_backfill = false })) env.count
    else send_rows env rows (leaves env st)

-- The rows that the query gives.
pub page_of : Env → Stream → List Message
unfolding backfill_tail newer
page_of env st =
    if st.is_backfill
    then backfill_tail st.cursor sse_backfill_limit env.messages
    else newer st.cursor env.messages

poll_page : Env → Stream → Result (Unit {0}) → Stream
unfolding deliver page_of fail leaves
poll_page env st (thrown e) = fail env (leaves env st)
poll_page env st (ok u) = deliver env (page_of env st) st

pub poll : Env → Stream → Stream
unfolding poll_page gone
poll env st =
    if st.writable_ended || st.destroyed || st.poll_paused then st else poll_page env st env.page

-- What happens on a stream, one thing after the other; `drained` resumes the poll.
pub data Event : Type 0 where
  tick : Env → Event
  drained closed : Event

-- 'close' runs `cleanup`; an interval that is cleared ticks no more.
pub step : Event → Stream → Stream
unfolding poll
step (tick env) st = if st.polling then poll env st else st
step drained st = if st.overflowed then st else record st { poll_paused = false }
step closed st = record st { polling = false; destroyed = true }

pub run : List Event → Stream → Stream
unfolding step
run [] st = st
run (e ∷ es) st = run es (step e st)
