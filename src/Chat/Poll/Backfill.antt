-- ===== src/Chat/Poll/Backfill.antt =====
-- The first poll, and what follows when its count fails.
use hill90_app.Prelude.Exec.{ok, thrown}
use hill90_app.Stream.PollSignal.{record_failure}
use hill90_app.Chat.Poll.{
  fail, send_rows, announce, fresh_signal, leaves, poll_threshold, oldest, BackfillNotice, deliver,
  poll_page, Message, Stream, start, Env, newer, backfill_tail, backfill, backfill_notice,
  sse_backfill_limit, page_of, poll,
}
use hill90_app.Chat.Poll.Delivery.{
  IsHealthy, IsLive, IsSteady, frames_of, after_poll, sse_write-IsHealthy, send_rows-IsHealthy,
  poll-IsHealthy, held,
}
use hill90_app.Chat.Poll.Sequence.{Ascending, page_of-Ascending}
use hill90_app.Prelude.{
  inl, true, ◌++◌, ℕ, ltb, leb, List, suc, ◌⊎◌, false, refl, arith, ◌≤◌, take, drop, [], ap, ◌≡◌,
  length, inr, ◌∷◌, length-drop, Bool, leb→le, zero, ◌∙◌, if◌then◌else◌, String, ◌-◌, Bool-cases,
}

take-drop : {A : Type 0} (n : ℕ) (l : List A) → take n l ++ drop n l ≡ l
take-drop zero l = refl
take-drop (suc n) [] = refl
take-drop (suc n) (x ∷ l) = ap (λ r. x ∷ r) (take-drop n l)

-- The newest rows, at most `limit` of them, and fewer only when there are no more.
pub record IsNewest (limit : ℕ) (rows all_rows : List Message) : Type 0 where
  pub older : List Message
  pub split_rows : older ++ rows ≡ all_rows
  pub bounded : length rows ≤ limit
  pub full : (older ≡ []) ⊎ (length rows ≡ limit)

backfill_tail-IsNewest :
    (cursor limit : ℕ) (ms : List Message)
    → IsNewest limit (backfill_tail cursor limit ms) (newer cursor ms)
unfolding backfill_tail
backfill_tail-IsNewest cursor limit ms =
    let rows = newer cursor ms in
    let n = length rows - limit in
    record {
      older = take n rows;
      split_rows = take-drop n rows;
      bounded = omega (arith, length-drop n rows);
      full = whole rows;
    }
  where
    whole :
        (rows : List Message)
        → (take (length rows - limit) rows ≡ [])
          ⊎ (length (drop (length rows - limit) rows) ≡ limit)
    whole rows = elim (Bool-cases (leb (length rows) limit)) [
      | inl e ↦
          let z : length rows - limit ≡ 0 = omega (arith, leb→le (length rows) limit e) in
          inl (ap (λ n. take n rows) z)
      | inr e ↦ inr (ground (arith, e, length-drop (length rows - limit) rows))
    ]

-- A stream whose first query has been answered.
abbrev queried : ℕ → Stream
queried cursor = record (start cursor) { is_backfill = false }

abbrev announced : Env → ℕ → BackfillNotice → Stream
announced env cursor notice = record (queried cursor) {
  wire = backfill notice ∷ [];
  poll_paused = held env (backfill notice) false;
}

queried-IsLive : (cursor : ℕ) → IsLive (queried cursor)
unfolding start
queried-IsLive cursor = record { open_ended = refl; connected = refl; fits = refl; polls = refl }

announced-IsLive :
    (env : Env) (cursor : ℕ) (notice : BackfillNotice) → IsLive (announced env cursor notice)
unfolding start
announced-IsLive env cursor notice = record {
  open_ended = refl;
  connected = refl;
  fits = refl;
  polls = refl;
}

poll-announced :
    (env : Env) (total cursor : ℕ)
    → IsHealthy env total
    → let rows = backfill_tail cursor sse_backfill_limit env.messages in
      poll env (start cursor)
      ≡ after_poll env rows (announced env cursor (backfill_notice rows total))
unfolding poll poll_page page_of deliver leaves announce start
poll-announced env total cursor h =
    let rows = backfill_tail cursor sse_backfill_limit env.messages in
    let notice = backfill_notice rows total in
    ap (poll_page env (start cursor)) h.page
    ∙ ap
        (λ (b : Bool).
          announce env rows
            (if b then record (queried cursor) { destroyed = true } else queried cursor) env.count)
        h.stays
    ∙ ap (announce env rows (queried cursor)) h.count
    ∙ ap (send_rows env rows)
        (sse_write-IsHealthy env total (backfill notice) (queried cursor) h (queried-IsLive cursor))
    ∙ send_rows-IsHealthy env total rows (announced env cursor notice) h
        (announced-IsLive env cursor notice)

-- A first poll of a table in order, whose queries do not fail, whose client stays and whose queue keeps
-- within the cap, sends a notice and then, at most 500 of them and by increasing `seq`, the newest of
-- the messages above the cursor, also where `res.write` asks it to wait; it leaves out older ones only
-- when it sends 500. The notice has their number and the thread's, and says whether the thread has more.
pub poll-start :
    (env : Env) (total cursor : ℕ)
    → IsHealthy env total
    → Ascending 0 env.messages
    → let rows = backfill_tail cursor sse_backfill_limit env.messages in
      ((poll env (start cursor)).wire
        ≡ backfill (record {
          sent = length rows;
          total = total;
          oldest_seq_sent = oldest rows;
          has_older = ltb (length rows) total;
        })
          ∷ frames_of rows)
      × IsNewest sse_backfill_limit rows (newer cursor env.messages)
      × Ascending cursor rows
unfolding backfill_notice page_of start
poll-start env total cursor h a = (
  ap (λ v. v.wire) (poll-announced env total cursor h),
  backfill_tail-IsNewest cursor sse_backfill_limit env.messages,
  page_of-Ascending env (start cursor) a,
)

-- The count of a first poll fails.
pub record IsUncounted (env : Env) (e : String) : Type 0 where
  pub page : env.page ≡ ok tt
  pub count : env.count ≡ thrown e
  pub stays : env.goes_away ≡ false

abbrev uncounted : ℕ → Stream
uncounted cursor = record (queried cursor) { signal = record_failure poll_threshold fresh_signal }

uncounted-IsSteady : (cursor : ℕ) → IsSteady (uncounted cursor)
unfolding start
uncounted-IsSteady cursor = record {
  live = record { open_ended = refl; connected = refl; fits = refl; polls = refl };
  caught_up = refl;
}

poll-uncounted :
    (env : Env) (e : String) (cursor : ℕ)
    → IsUncounted env e
    → poll env (start cursor) ≡ uncounted cursor
unfolding poll poll_page page_of deliver leaves announce start fail record_failure
poll-uncounted env e cursor h =
    let rows = backfill_tail cursor sse_backfill_limit env.messages in
    ap (poll_page env (start cursor)) h.page
    ∙ ap
        (λ (b : Bool).
          announce env rows
            (if b then record (queried cursor) { destroyed = true } else queried cursor) env.count)
        h.stays
    ∙ ap (announce env rows (queried cursor)) h.count

-- When the count of the first poll fails, the next poll that does not fail replays every message above the
-- cursor with which the client connected, however many there are, and no notice is sent.
pub poll-unbounded :
    (env env' : Env) (e : String) (total cursor : ℕ)
    → IsUncounted env e
    → IsHealthy env' total
    → (poll env' (poll env (start cursor))).wire ≡ frames_of (newer cursor env'.messages)
unfolding start
poll-unbounded env env' e total cursor h h' =
    ap (λ v. (poll env' v).wire) (poll-uncounted env e cursor h)
    ∙ ap (λ v. v.wire)
        (poll-IsHealthy env' total (uncounted cursor) h' (uncounted-IsSteady cursor) refl)
