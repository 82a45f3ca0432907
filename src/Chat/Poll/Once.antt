-- ===== src/Chat/Poll/Once.antt =====
-- Polls one after the other, and polls that overlap.
use mathlib.Core.Path.{ap₂}
use hill90_app.Chat.Poll.{
  Frame, drained, message, Message, Stream, Env, newer, page_of, deliver, Event, tick, step, run,
}
use hill90_app.Chat.Poll.Sequence.{newer-Ascending, Ascending, newer-whole}
use hill90_app.Chat.Poll.Delivery.{
  IsHealthy, IsSteady, last_seq, frames_of, after_poll, deliver-IsHealthy, poll-IsHealthy,
  paused_by,
}
use hill90_app.Prelude.{
  false, true, Bool, ◌⊎◌, if-so, if-not, sym, subst, ◌∙◌, ap, inl, [], arith, Bool-cases, ◌≤◌, ◌≡◌,
  ℕ, refl, ◌++◌, List, ltb, inr, ◌∷◌, ltb→lt,
}
use mathlib.Core.List.{append-nil, append_assoc}

last_seq-above : (k : ℕ) (ms : List Message) → Ascending k ms → k ≤ last_seq k ms
unfolding last_seq
last_seq-above k [] a = omega arith
last_seq-above k (m ∷ ms) a = omega (arith, a.0, last_seq-above m.seq ms a.1)

Ascending-prefix : (k : ℕ) (t ext : List Message) → Ascending k (t ++ ext) → Ascending k t
Ascending-prefix k [] ext a = tt
Ascending-prefix k (m ∷ t) ext a = (a.0, Ascending-prefix m.seq t ext a.1)

-- Above the last of `t` there is what follows `t`.
newer-last :
    (k : ℕ) (t ext : List Message) → Ascending k (t ++ ext) → newer (last_seq k t) (t ++ ext) ≡ ext
unfolding newer last_seq
newer-last k [] ext a = newer-whole k k ext (omega arith) a
newer-last k (m ∷ t) ext a =
    ground
      (arith, newer-last m.seq t ext a.1, last_seq-above m.seq t (Ascending-prefix m.seq t ext a.1))

-- What is newer than a cursor, in a table that has grown, is what was, and what is newer than that.
newer-grown :
    (c k : ℕ) (t ext : List Message)
    → Ascending k (t ++ ext)
    → newer c (t ++ ext) ≡ newer c t ++ newer (last_seq c (newer c t)) (t ++ ext)
unfolding newer last_seq
newer-grown c k [] ext a = refl
newer-grown c k (m ∷ t) ext a = elim (Bool-cases (ltb c m.seq)) [
  | inl e ↦
      let below : c ≤ m.seq = omega (arith, ltb→lt c m.seq e) in
      let all_new = newer-whole c m.seq t below (Ascending-prefix m.seq t ext a.1) in
      ground (
        arith,
        e,
        all_new,
        newer-whole c m.seq (t ++ ext) below a.1,
        newer-last m.seq t ext a.1,
        last_seq-above m.seq t (Ascending-prefix m.seq t ext a.1),
      )
  | inr e ↦ ground (
    arith,
    e,
    newer-grown c m.seq t ext a.1,
    last_seq-above c (newer c t) (newer-Ascending c m.seq t (Ascending-prefix m.seq t ext a.1)),
  )
]

-- A poll, and whether the response asks for more ('drain') before the next one.
pub record Round : Type 0 where
  pub env : Env
  pub total : ℕ
  pub drains : Bool

-- Where `res.write` has asked to wait, the response drains before the next poll.
abbrev pub IsResumed : Round → Type 0
IsResumed r = (r.drains ≡ true) ⊎ ((f : Frame) → r.env.accepts f ≡ true)

-- Each poll after the first, `r`, is healthy, does not come while polls are paused, and meets a table that has
-- grown at its end.
abbrev pub Grows : Round → List Round → Type 0
Grows r [] = Unit {0}
Grows r (q ∷ rs) =
    IsResumed r
    × IsHealthy q.env q.total
    × ((ext : List Message) × (q.env.messages ≡ r.env.messages ++ ext))
    × Ascending 0 q.env.messages
    × Grows q rs

abbrev pub final : Round → List Round → List Message
final r [] = r.env.messages
final r (q ∷ rs) = final q rs

abbrev pub drain_if : Bool → List Event → List Event
drain_if true es = drained ∷ es
drain_if false es = es

abbrev pub ticks : List Round → List Event
ticks [] = []
ticks (r ∷ rs) = tick r.env ∷ drain_if r.drains (ticks rs)

final-extends :
    (r : Round) (rs : List Round)
    → Grows r rs
    → (ext : List Message) × (final r rs ≡ r.env.messages ++ ext)
final-extends r [] g = ([], sym (append-nil r.env.messages))
final-extends r (q ∷ rs) (_, h, (ext, e), a, g) =
    let (ext', e') = final-extends q rs g in
    (ext ++ ext', e' ∙ ap (λ l. l ++ ext') e ∙ append_assoc r.env.messages ext ext')

final-Ascending :
    (r : Round) (rs : List Round)
    → Ascending 0 r.env.messages
    → Grows r rs
    → Ascending 0 (final r rs)
final-Ascending r [] a g = a
final-Ascending r (q ∷ rs) a (_, h, e, a', g) = final-Ascending q rs a' g

frames_of-append : (l r : List Message) → frames_of (l ++ r) ≡ frames_of l ++ frames_of r
unfolding frames_of
frames_of-append [] r = refl
frames_of-append (m ∷ l) r = ap (λ x. message m ∷ x) (frames_of-append l r)

after_poll-IsSteady :
    (env : Env) (rows : List Message) (st : Stream)
    → IsSteady st
    → IsSteady (after_poll env rows st)
after_poll-IsSteady env rows st s = record {
  live = record {
    open_ended = s.live.open_ended;
    connected = s.live.connected;
    fits = s.live.fits;
    polls = s.live.polls;
  };
  caught_up = s.caught_up;
}

step-IsHealthy :
    (env : Env) (total : ℕ) (st : Stream)
    → IsHealthy env total
    → IsSteady st
    → st.poll_paused ≡ false
    → step (tick env) st ≡ after_poll env (newer st.cursor env.messages) st
unfolding step
step-IsHealthy env total st h s reads =
    if-so st.polling _ _ s.live.polls ∙ poll-IsHealthy env total st h s reads

-- A stream that reads again after a poll.
abbrev resumed : Env → List Message → Stream → Stream
resumed env rows st = record (after_poll env rows st) { poll_paused = false }

resumed-IsSteady :
    (env : Env) (rows : List Message) (st : Stream) → IsSteady st → IsSteady (resumed env rows st)
resumed-IsSteady env rows st s = record {
  live = record {
    open_ended = s.live.open_ended;
    connected = s.live.connected;
    fits = s.live.fits;
    polls = s.live.polls;
  };
  caught_up = s.caught_up;
}

paused_by-accepts :
    (env : Env) (rows : List Message)
    → ((f : Frame) → env.accepts f ≡ true)
    → paused_by env rows false ≡ false
unfolding paused_by
paused_by-accepts env [] h = refl
paused_by-accepts env (m ∷ ms) h = rw (h (message m)) (paused_by-accepts env ms h)

run-drain_if :
    (env : Env) (drains : Bool) (rows : List Message) (es : List Event) (st : Stream)
    → IsSteady st
    → st.poll_paused ≡ false
    → (drains ≡ true) ⊎ ((f : Frame) → env.accepts f ≡ true)
    → run (drain_if drains es) (after_poll env rows st) ≡ run es (resumed env rows st)
unfolding run step
run-drain_if env true rows es st s reads c = ap (run es) (if-not st.overflowed _ _ s.live.fits)
run-drain_if env false rows es st s reads (inl e) = cc
run-drain_if env false rows es st s reads (inr all_taken) =
    let reads' : paused_by env rows st.poll_paused ≡ false =
      ap (paused_by env rows) reads ∙ paused_by-accepts env rows all_taken in
    ap (λ (b : Bool). run es (record (after_poll env rows st) { poll_paused = b })) reads'

run-round :
    (r : Round) (es : List Event) (st : Stream)
    → IsSteady st
    → st.poll_paused ≡ false
    → IsHealthy r.env r.total
    → IsResumed r
    → run (tick r.env ∷ drain_if r.drains es) st
      ≡ run es (resumed r.env (newer st.cursor r.env.messages) st)
unfolding run
run-round r es st s reads h c =
    ap (run (drain_if r.drains es)) (step-IsHealthy r.env r.total st h s reads)
    ∙ run-drain_if r.env r.drains (newer st.cursor r.env.messages) es st s reads c

last-wire : (drains : Bool) (st : Stream) → (run (drain_if drains []) st).wire ≡ st.wire
unfolding run step
last-wire true st = ground arith
last-wire false st = refl

-- After the backfill, polls whose queries do not fail, on a stream whose client stays, whose queue keeps within
-- the cap, and which drains before the next poll whenever `res.write` has asked it to wait, send every
-- message above the cursor once, whole and in order, however the thread's table grows at its end from one
-- poll to the next.
pub run-ticks :
    (st : Stream) (r : Round) (rs : List Round)
    → IsSteady st
    → st.poll_paused ≡ false
    → IsHealthy r.env r.total
    → Ascending 0 r.env.messages
    → Grows r rs
    → (run (ticks (r ∷ rs)) st).wire ≡ st.wire ++ frames_of (newer st.cursor (final r rs))
run-ticks st r [] s reads h a g =
    unfold run in
    (ap (λ q. (run (drain_if r.drains []) q).wire) (step-IsHealthy r.env r.total st h s reads)
      ∙ last-wire r.drains (after_poll r.env (newer st.cursor r.env.messages) st))
run-ticks st r (q ∷ rs) s reads h a (c, h', grown, a', g) =
    let rows = newer st.cursor r.env.messages in
    let v : Stream = resumed r.env rows st in
    let (ext, e) = final-extends r (q ∷ rs) (c, h', grown, a', g) in
    let ascending = final-Ascending q rs a' g in
    ap (λ z. z.wire) (run-round r (ticks (q ∷ rs)) st s reads h c)
    ∙ run-ticks v q rs (resumed-IsSteady r.env rows st s) refl h' a' g
    ∙ append_assoc st.wire (frames_of rows)
        (frames_of (newer (last_seq st.cursor rows) (final q rs)))
    ∙ ap (λ l. st.wire ++ l)
        (sym (frames_of-append rows (newer (last_seq st.cursor rows) (final q rs)))
          ∙ ap frames_of (
              sym (
                subst (λ l. newer st.cursor l ≡ rows ++ newer (last_seq st.cursor rows) l) (sym e)
                  (newer-grown st.cursor 0 r.env.messages ext (subst (Ascending 0) e ascending)))))

page_of-IsSteady :
    (env : Env) (st : Stream) → IsSteady st → page_of env st ≡ newer st.cursor env.messages
unfolding page_of
page_of-IsSteady env st s = if-not st.is_backfill _ _ s.caught_up

-- A poll does not wait for the one before it: of two polls that both query before either delivers, each
-- sends every message above the cursor, so that each such message is sent twice.
pub deliver-overlaps :
    (env env' : Env) (total total' : ℕ) (st : Stream)
    → IsSteady st
    → IsHealthy env total
    → IsHealthy env' total'
    → env'.messages ≡ env.messages
    → (deliver env' (page_of env' st) (deliver env (page_of env st) st)).wire
      ≡ st.wire
        ++ frames_of (newer st.cursor env.messages)
        ++ frames_of (newer st.cursor env.messages)
deliver-overlaps env env' total total' st s h h' e =
    let rows = page_of env st in
    ap (λ q. (deliver env' (page_of env' st) q).wire) (deliver-IsHealthy env total rows st h s)
    ∙ ap (λ q. q.wire)
        (deliver-IsHealthy env' total' (page_of env' st) (after_poll env rows st) h'
          (after_poll-IsSteady env rows st s))
    ∙ ap₂ (λ l r. st.wire ++ frames_of l ++ frames_of r) (page_of-IsSteady env st s)
        (page_of-IsSteady env' st s ∙ ap (newer st.cursor) e)
