-- ===== src/Stream/BoundedRead.antt =====
-- services/api/src/helpers/bounded-read.ts: collecting a stream under a ceiling. A byte is a number;
-- the events of the stream are a list, in the order in which Node emits them.
pub mod Ceiling
use hill90_app.Prelude.{
  ℕ, ◌+◌, ◌*◌, Bool, true, false, Option, none, some, List, [], ◌∷◌, ◌++◌, ltb, length,
  if◌then◌else◌,
}

-- `MAX_READ_BYTES`
abbrev pub max_read_bytes : ℕ
max_read_bytes = 2 * 1024 * 1024

pub data StreamEvent : Type 0 where
  bytes : List ℕ → StreamEvent
  failed : ℕ → StreamEvent
  ended closed : StreamEvent

-- How the promise settles; `too_large` carries the limit, as `ReadTooLargeError` does.
pub data Outcome : Type 0 where
  resolved : List ℕ → Outcome
  too_large : ℕ → Outcome
  errored : ℕ → Outcome

-- The variables of the promise's body, with what it did to the stream.
pub record Collector : Type 0 where
  pub chunks : List (List ℕ)
  pub total : ℕ
  pub settled : Option Outcome
  pub destroyed : Bool

abbrev pub collector : Collector
collector = record { chunks = []; total = 0; settled = none; destroyed = false }

-- `Buffer.concat`
pub concat : List (List ℕ) → List ℕ
concat [] = []
concat (c ∷ cs) = c ++ concat cs

-- Only the first settling counts.
settle : Outcome → Collector → Collector
settle o c = elim c.settled [ none ↦ record c { settled = some o } | some _ ↦ c ]

on_data : ℕ → List ℕ → Collector → Collector
unfolding settle
on_data max_bytes chunk c =
    let d = record c { total = c.total + length chunk } in
    if ltb max_bytes d.total
    then settle (too_large max_bytes) (record d { destroyed = true; chunks = [] })
    else record d { chunks = d.chunks ++ chunk ∷ [] }

pub on_event : ℕ → StreamEvent → Collector → Collector
unfolding on_data settle
on_event max_bytes (bytes chunk) c = on_data max_bytes chunk c
on_event max_bytes (failed err) c = settle (errored err) c
on_event max_bytes ended c = settle (resolved (concat c.chunks)) c
on_event max_bytes closed c = settle (resolved (concat c.chunks)) c

pub collect : ℕ → List StreamEvent → Collector → Collector
unfolding on_event
collect max_bytes [] c = c
collect max_bytes (e ∷ es) c = collect max_bytes es (on_event max_bytes e c)

-- `collectBounded`: how the promise settled, `none` while it is pending.
pub collect_bounded : ℕ → List StreamEvent → Option Outcome
collect_bounded max_bytes es = (collect max_bytes es collector).settled
