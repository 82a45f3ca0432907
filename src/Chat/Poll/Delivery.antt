-- ===== src/Chat/Poll/Delivery.antt =====
-- Polls that meet no failure and keep below the writer's cap, whatever `res.write` returns.
use hill90_app.Prelude.Exec.{ok}
use hill90_app.Stream.SseWriter.{hard_cap_bytes}
use hill90_app.Stream.PollSignal.{record_success}
use hill90_app.Chat.Poll.{
  poll_page, leaves, gone, Message, Frame, message, Stream, Env, newer, page_of, sse_write,
  send_rows, deliver, poll,
}
use hill90_app.Prelude.{
  Bool-cases, inl, inr, ◌∙◌, ◌||◌, Bool, refl, if-not, if◌then◌else◌, ap, arith, List, false, ◌≡◌,
  [], ◌∷◌, ℕ, ◌≤◌, true, ◌++◌,
}
use mathlib.Core.List.{append_assoc, append-nil}

pub record IsHealthy (env : Env) (total : ℕ) : Type 0 where
  pub page : env.page ≡ ok tt
  pub count : env.count ≡ ok total
  pub stays : env.goes_away ≡ false
  pub room : (f : Frame) → env.queued f ≤ hard_cap_bytes

-- A stream that is open.
pub record IsLive (st : Stream) : Type 0 where
  pub open_ended : st.writable_ended ≡ false
  pub connected : st.destroyed ≡ false
  pub fits : st.overflowed ≡ false
  pub polls : st.polling ≡ true

unfoldable pub last_seq : ℕ → List Message → ℕ
last_seq k [] = k
last_seq k (m ∷ ms) = last_seq m.seq ms

unfoldable pub frames_of : List Message → List Frame
frames_of [] = []
frames_of (m ∷ ms) = message m ∷ frames_of ms

-- Whether polls are paused after a frame, and after the frames of rows.
abbrev pub held : Env → Frame → Bool → Bool
held env f paused = if env.accepts f then paused else true

unfoldable pub paused_by : Env → List Message → Bool → Bool
paused_by env [] paused = paused
paused_by env (m ∷ ms) paused = paused_by env ms (held env (message m) paused)

pub sse_write-IsHealthy :
    (env : Env) (total : ℕ) (f : Frame) (st : Stream)
    → IsHealthy env total
    → IsLive st
    → sse_write env f st
      ≡ record st { wire = st.wire ++ f ∷ []; poll_paused = held env f st.poll_paused }
unfolding sse_write
sse_write-IsHealthy env total f st h l = elim (Bool-cases (env.accepts f)) [
  | inl e ↦ rw e (ground (arith, h.room f, e, l.fits, l.open_ended, l.connected))
  | inr e ↦ rw e (ground (arith, h.room f, e, l.fits, l.open_ended, l.connected))
]

closed-not : (st : Stream) → IsLive st → gone st ≡ false
unfolding gone
closed-not st l = rw (l.open_ended, l.connected) refl

idle-not :
    (st : Stream)
    → IsLive st
    → st.poll_paused ≡ false
    → (st.writable_ended || st.destroyed || st.poll_paused) ≡ false
idle-not st l reads = rw (l.open_ended, l.connected, reads) refl

pub send_rows-IsHealthy :
    (env : Env) (total : ℕ) (rows : List Message) (st : Stream)
    → IsHealthy env total
    → IsLive st
    → send_rows env rows st ≡ record st {
      cursor = last_seq st.cursor rows;
      wire = st.wire ++ frames_of rows;
      signal = record_success st.signal;
      poll_paused = paused_by env rows st.poll_paused;
    }
unfolding send_rows last_seq frames_of paused_by
send_rows-IsHealthy env total [] st h l = ground (arith, append-nil st.wire)
send_rows-IsHealthy env total (m ∷ ms) st h l =
    let paused = held env (message m) st.poll_paused in
    let v : Stream = record st {
      cursor = m.seq;
      wire = st.wire ++ message m ∷ [];
      poll_paused = paused;
    } in
    let live : IsLive v = record {
      open_ended = l.open_ended;
      connected = l.connected;
      fits = l.fits;
      polls = l.polls;
    } in
    if-not (gone st) st
      (send_rows env ms (record (sse_write env (message m) st) { cursor = m.seq }))
      (closed-not st l)
    ∙ ap (λ (q : Stream). send_rows env ms (record q { cursor = m.seq }))
        (sse_write-IsHealthy env total (message m) st h l)
    ∙ send_rows-IsHealthy env total ms v h live
    ∙ ap
        (λ w. record st {
          cursor = last_seq m.seq ms;
          wire = w;
          signal = record_success st.signal;
          poll_paused = paused_by env ms paused;
        })
        (append_assoc st.wire (message m ∷ []) (frames_of ms))

-- The cursor has passed the first poll.
pub record IsSteady (st : Stream) : Type 0 where
  pub live : IsLive st
  pub caught_up : st.is_backfill ≡ false

abbrev pub after_poll : Env → List Message → Stream → Stream
after_poll env rows st = record st {
  poll_paused = paused_by env rows st.poll_paused;
  cursor = last_seq st.cursor rows;
  wire = st.wire ++ frames_of rows;
  signal = record_success st.signal;
}

pub deliver-IsHealthy :
    (env : Env) (total : ℕ) (rows : List Message) (st : Stream)
    → IsHealthy env total
    → IsSteady st
    → deliver env rows st ≡ after_poll env rows st
unfolding deliver leaves
deliver-IsHealthy env total rows st h s =
    if-not st.is_backfill _ _ s.caught_up
    ∙ ap (λ (b : Bool). send_rows env rows (if b then record st { destroyed = true } else st))
        h.stays
    ∙ send_rows-IsHealthy env total rows st h s.live

pub poll-IsHealthy :
    (env : Env) (total : ℕ) (st : Stream)
    → IsHealthy env total
    → IsSteady st
    → st.poll_paused ≡ false
    → poll env st ≡ after_poll env (newer st.cursor env.messages) st
unfolding poll poll_page page_of
poll-IsHealthy env total st h s reads =
    if-not _ st _ (idle-not st s.live reads)
    ∙ ap (poll_page env st) h.page
    ∙ deliver-IsHealthy env total _ st h s
    ∙ ap (λ rows. after_poll env rows st) (if-not st.is_backfill _ _ s.caught_up)
