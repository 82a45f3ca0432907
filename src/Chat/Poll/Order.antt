-- ===== src/Chat/Poll/Order.antt =====
-- The order of the messages on a stream.
use hill90_app.Chat.Poll.{
  record_failure, closed, poll_threshold, drained, backfill_notice, ok, leaves, thrown, tick, start,
  deliver, Result, poll, run, announce, fail, Event, step, poll_page, hard_cap_bytes, on_overflow,
  gone, put, sse_write, send_rows, Message, Frame, backfill, message, delayed, overflow, Stream,
  Env, page_of,
}
use hill90_app.Prelude.{
  false, if-both, ◌∙◌, All, ◌⊎◌, ◌||◌, ap, true, inl, ltb, [], inr, ℕ, ◌≡◌, refl, List, ◌++◌, arith,
  ◌∷◌,
}
use mathlib.Core.List.{append-nil}
use hill90_app.Chat.Poll.Sequence.{
  Within-append, sent-append, Within-weaken, page_of-Ascending, Within, Ascending, sent,
}

-- What was sent, in order.
Ordered : ℕ → Stream → Type 0
Ordered lo st = Within lo st.cursor (sent st.wire)

-- What was sent, and at most the frame after it.
pub Extends : Frame → Stream → Stream → Type 0
Extends f st st' =
    (st'.cursor ≡ st.cursor)
    × ((sent st'.wire ≡ sent st.wire) ⊎ (sent st'.wire ≡ sent st.wire ++ sent (f ∷ [])))

sse_write-Extends : (env : Env) (f : Frame) (st : Stream) → Extends f st (sse_write env f st)
unfolding sse_write put on_overflow Extends sent
sse_write-Extends env f st =
    if-both (Extends f st) (st.overflowed || gone st) st _ (refl, inl refl)
      (if-both (Extends f st) (ltb hard_cap_bytes (env.queued f)) _ _
        (refl, inl (sent-append st.wire (overflow ∷ []) ∙ append-nil (sent st.wire)))
        (if-both (Extends f st) (env.accepts f) _ _ (refl, inr (sent-append st.wire (f ∷ [])))
          (refl, inr (sent-append st.wire (f ∷ [])))))

send_rows-Ordered :
    (env : Env) (lo : ℕ) (rows : List Message) (st : Stream)
    → Ascending st.cursor rows
    → Ordered lo st
    → Ordered lo (send_rows env rows st)
unfolding send_rows Ordered Extends
send_rows-Ordered env lo [] st a h = h
send_rows-Ordered env lo (m ∷ ms) st a h = if-both (Ordered lo) (gone st) st _ h (
    send_rows-Ordered env lo ms (record (sse_write env (message m) st) { cursor = m.seq }) a.1
      after)
  where
    after : Within lo m.seq (sent (sse_write env (message m) st).wire)
    after = elim (sse_write-Extends env (message m) st).1 [
      | inl q ↦ rw q (Within-weaken lo st.cursor m.seq (sent st.wire) (omega (arith, a.0)) h)
      | inr q ↦ rw q (
          unfold sent in
          Within-append lo st.cursor m.seq (sent st.wire) (m.seq ∷ []) h (a.0, omega arith))
    ]

-- A frame that is no message.
quiet :
    (env : Env) (lo : ℕ) (f : Frame) (st : Stream)
    → sent (f ∷ []) ≡ []
    → Ordered lo st
    → Ordered lo (sse_write env f st)
unfolding Extends Ordered
quiet env lo f st q h =
    let (c, w) = sse_write-Extends env f st in
    let same : sent (sse_write env f st).wire ≡ sent st.wire = elim w [
      | inl e ↦ e
      | inr e ↦ e ∙ ap (λ l. sent st.wire ++ l) q ∙ append-nil (sent st.wire)
    ] in
    rw (c, same) h

relabel :
    (lo : ℕ) (st st' : Stream)
    → st'.cursor ≡ st.cursor
    → st'.wire ≡ st.wire
    → Ordered lo st
    → Ordered lo st'
unfolding Ordered
relabel lo st st' c w h = rw (c, w) h

fail-Ordered : (env : Env) (lo : ℕ) (st : Stream) → Ordered lo st → Ordered lo (fail env st)
unfolding fail sent
fail-Ordered env lo st h =
    let v : Stream = record st { signal = record_failure poll_threshold st.signal } in
    let k : Ordered lo v = relabel lo st v refl refl h in
    if-both (Ordered lo) (ltb st.signal.fired v.signal.fired) (sse_write env delayed v) v
      (quiet env lo delayed v refl k) k

announce-Ordered :
    (env : Env) (lo : ℕ) (rows : List Message) (st : Stream) (r : Result ℕ)
    → Ascending st.cursor rows
    → Ordered lo st
    → Ordered lo (announce env rows st r)
unfolding announce Extends
announce-Ordered env lo rows st (thrown e) a h = fail-Ordered env lo st h
announce-Ordered env lo rows st (ok total) a h =
    send_rows-Ordered env lo rows (sse_write env notice st)
      (rw (sse_write-Extends env notice st).0 a) (quiet env lo notice st (unfold sent in refl) h)
  where
    notice : Frame
    notice = backfill (backfill_notice rows total)

poll_page-Ordered :
    (env : Env) (lo : ℕ) (st : Stream) (r : Result (Unit {0}))
    → Ascending 0 env.messages
    → Ordered lo st
    → Ordered lo (poll_page env st r)
unfolding poll_page deliver leaves
poll_page-Ordered env lo st (thrown e) a h = fail-Ordered env lo _ (
    if-both (Ordered lo) env.goes_away (record st { destroyed = true }) st
      (relabel lo st (record st { destroyed = true }) refl refl h) h)
poll_page-Ordered env lo st (ok u) a h =
    let rows = page_of-Ascending env st a in
    if-both (Ordered lo) st.is_backfill _ _
      (announce-Ordered env lo (page_of env st) _ env.count
        (if-both (λ (v : Stream). Ascending v.cursor (page_of env st)) env.goes_away
          (record st { is_backfill = false; destroyed = true }) (record st { is_backfill = false })
          rows rows)
        (if-both (Ordered lo) env.goes_away (record st { is_backfill = false; destroyed = true })
          (record st { is_backfill = false })
          (relabel lo st (record st { is_backfill = false; destroyed = true }) refl refl h)
          (relabel lo st (record st { is_backfill = false }) refl refl h)))
      (send_rows-Ordered env lo (page_of env st) _
        (if-both (λ (v : Stream). Ascending v.cursor (page_of env st)) env.goes_away
          (record st { destroyed = true }) st rows rows)
        (if-both (Ordered lo) env.goes_away (record st { destroyed = true }) st
          (relabel lo st (record st { destroyed = true }) refl refl h) h))

-- Each poll meets the thread's messages in the order of their `seq`, which starts above 0.
abbrev pub Sequenced : Event → Type 0
Sequenced (tick env) = Ascending 0 env.messages
Sequenced drained = Unit {0}
Sequenced closed = Unit {0}

step-Ordered :
    (e : Event) (lo : ℕ) (st : Stream) → Sequenced e → Ordered lo st → Ordered lo (step e st)
unfolding step poll
step-Ordered (tick env) lo st a h =
    if-both (Ordered lo) st.polling _ _
      (if-both (Ordered lo) _ _ _ h (poll_page-Ordered env lo st env.page a h)) h
step-Ordered drained lo st a h =
    if-both (Ordered lo) st.overflowed _ _ h
      (relabel lo st (record st { poll_paused = false }) refl refl h)
step-Ordered closed lo st a h =
    relabel lo st (record st { polling = false; destroyed = true }) refl refl h

run-Ordered :
    (es : List Event) (lo : ℕ) (st : Stream)
    → All Sequenced es
    → Ordered lo st
    → Ordered lo (run es st)
unfolding run
run-Ordered [] lo st a h = h
run-Ordered (e ∷ es) lo st a h = run-Ordered es lo (step e st) a.1 (step-Ordered e lo st a.0 h)

-- On a stream whose polls run one after the other, whatever fails, drains or closes between them, the
-- client is sent messages with strictly increasing `seq`, all above the cursor that it connected with
-- and none above the cursor that is kept.
pub run-start-Within :
    (es : List Event) (cursor : ℕ)
    → All Sequenced es
    → Within cursor (run es (start cursor)).cursor (sent (run es (start cursor)).wire)
unfolding Ordered
run-start-Within es cursor a =
    run-Ordered es cursor (start cursor) a (unfold start sent in omega arith)
