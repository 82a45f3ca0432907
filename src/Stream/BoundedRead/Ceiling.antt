-- ===== src/Stream/BoundedRead/Ceiling.antt =====
-- The ceiling of a bounded read, and the answer against a plain reading of the events.
use mathlib.Core.List.{append-nil, append_assoc}
use hill90_app.Prelude.{
  ℕ, ◌+◌, ◌≤◌, ◌<◌, ◌≡◌, ◌∙◌, ap, sym, refl, ◌⊎◌, inl, inr, false, Option, none, some, List, [],
  ◌∷◌, ◌++◌, arith, ltb, length, length-append, if◌then◌else◌, Bool-cases,
}
use hill90_app.Stream.BoundedRead.{
  StreamEvent, bytes, failed, ended, closed, Outcome, resolved, too_large, errored, Collector,
  collector, concat, on_event, collect, collect_bounded,
}

-- The answer read off the events: `read` are the bytes so far.
pub answer : ℕ → List ℕ → List StreamEvent → Option Outcome
answer max_bytes read [] = none
answer max_bytes read (failed err ∷ es) = some (errored err)
answer max_bytes read (ended ∷ es) = some (resolved read)
answer max_bytes read (closed ∷ es) = some (resolved read)
answer max_bytes read (bytes chunk ∷ es) =
    if ltb max_bytes (length read + length chunk)
    then some (too_large max_bytes)
    else answer max_bytes (read ++ chunk) es

concat-append : (cs : List (List ℕ)) (c : List ℕ) → concat (cs ++ c ∷ []) ≡ concat cs ++ c
unfolding concat
concat-append [] c = append-nil c
concat-append (d ∷ cs) c =
    ap (λ r. d ++ r) (concat-append cs c) ∙ sym (append_assoc d (concat cs) c)

on_event-settled :
    (max_bytes : ℕ) (e : StreamEvent) (c : Collector) (o : Outcome)
    → c.settled ≡ some o
    → (on_event max_bytes e c).settled ≡ some o
unfolding on_event
on_event-settled max_bytes (bytes chunk) c o h = ground arith
on_event-settled max_bytes (failed err) c o h = ground arith
on_event-settled max_bytes ended c o h = ground arith
on_event-settled max_bytes closed c o h = ground arith

collect-settled :
    (max_bytes : ℕ) (es : List StreamEvent) (c : Collector) (o : Outcome)
    → c.settled ≡ some o
    → (collect max_bytes es c).settled ≡ some o
unfolding collect
collect-settled max_bytes [] c o h = h
collect-settled max_bytes (e ∷ es) c o h =
    collect-settled max_bytes es (on_event max_bytes e c) o (on_event-settled max_bytes e c o h)

on_event-bytes :
    (max_bytes : ℕ) (chunk : List ℕ) (c : Collector)
    → c.settled ≡ none
    → c.total ≡ length (concat c.chunks)
    → ltb max_bytes (length (concat c.chunks) + length chunk) ≡ false
    → let d = on_event max_bytes (bytes chunk) c in
      (d.settled ≡ none)
      × (d.total ≡ length (concat d.chunks))
      × (concat d.chunks ≡ concat c.chunks ++ chunk)
unfolding on_event
on_event-bytes max_bytes chunk c pending h fits =
    ground (arith, concat-append c.chunks chunk, length-append (concat c.chunks) chunk)

collect-answer :
    (max_bytes : ℕ) (es : List StreamEvent) (c : Collector)
    → c.settled ≡ none
    → c.total ≡ length (concat c.chunks)
    → (collect max_bytes es c).settled ≡ answer max_bytes (concat c.chunks) es
unfolding collect answer
collect-answer max_bytes [] c pending h = pending
collect-answer max_bytes (failed err ∷ es) c pending h =
    collect-settled max_bytes es _ (errored err) (unfold on_event in ground arith)
collect-answer max_bytes (ended ∷ es) c pending h =
    collect-settled max_bytes es _ (resolved (concat c.chunks)) (unfold on_event in ground arith)
collect-answer max_bytes (closed ∷ es) c pending h =
    collect-settled max_bytes es _ (resolved (concat c.chunks)) (unfold on_event in ground arith)
collect-answer max_bytes (bytes chunk ∷ es) c pending h =
    elim (Bool-cases (ltb max_bytes (length (concat c.chunks) + length chunk))) [
      | inl past ↦
          rw past
            (collect-settled max_bytes es _ (too_large max_bytes) (unfold on_event in ground arith))
      | inr fits ↦
          let (pending', counted, held) = on_event-bytes max_bytes chunk c pending h fits in
          rw fits (
            collect-answer max_bytes es (on_event max_bytes (bytes chunk) c) pending' counted
            ∙ ap (λ r. answer max_bytes r es) held)
    ]

-- The promise settles as a plain reading of the events says: with all the bytes at the end of a
-- stream that stays within the limit, with the limit's error at the first chunk that passes it,
-- with the stream's own error if that comes first, and never twice.
pub collect_bounded-answer :
    (max_bytes : ℕ) (es : List StreamEvent) → collect_bounded max_bytes es ≡ answer max_bytes [] es
unfolding collect_bounded
collect_bounded-answer max_bytes es =
    unfold concat in collect-answer max_bytes es collector refl refl

-- The bytes in memory within the limit, and none kept by a destroyed stream.
pub record IsBounded (max_bytes : ℕ) (c : Collector) : Type 0 where
  pub held : length (concat c.chunks) ≤ max_bytes
  pub counted : length (concat c.chunks) ≤ c.total
  pub dropped : (c.destroyed ≡ false) ⊎ (max_bytes < c.total)
  pub gone : (c.destroyed ≡ false) ⊎ (c.chunks ≡ [])

on_event-IsBounded :
    (max_bytes : ℕ) (e : StreamEvent) (c : Collector)
    → IsBounded max_bytes c
    → IsBounded max_bytes (on_event max_bytes e c)
unfolding on_event concat
on_event-IsBounded max_bytes (bytes chunk) c h =
    ground (arith, concat-append c.chunks chunk, length-append (concat c.chunks) chunk)
on_event-IsBounded max_bytes (failed err) c h = ground arith
on_event-IsBounded max_bytes ended c h = ground arith
on_event-IsBounded max_bytes closed c h = ground arith

collect-IsBounded :
    (max_bytes : ℕ) (es : List StreamEvent) (c : Collector)
    → IsBounded max_bytes c
    → IsBounded max_bytes (collect max_bytes es c)
unfolding collect
collect-IsBounded max_bytes [] c h = h
collect-IsBounded max_bytes (e ∷ es) c h =
    collect-IsBounded max_bytes es (on_event max_bytes e c) (on_event-IsBounded max_bytes e c h)

-- Whatever the stream emits, in whatever order, also after it was destroyed, at
-- most `max_bytes` bytes are held in memory, the stream is destroyed only beyond the limit, and
-- then nothing is kept.
collect-collector-IsBounded :
    (max_bytes : ℕ) (es : List StreamEvent) → IsBounded max_bytes (collect max_bytes es collector)
unfolding concat
collect-collector-IsBounded max_bytes es =
    collect-IsBounded max_bytes es collector
      (record { held = omega arith; counted = omega arith; dropped = inl refl; gone = inl refl })
