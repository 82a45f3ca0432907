-- ===== src/Stream/SseWriter/Bounds.antt =====
-- What the writer hands to the response, and that its producer is never left waiting.
use mathlib.Core.List.{append-nil, append_assoc}
use mathlib.Core.Path.{ap₂}
use hill90_app.Prelude.{
  ℕ, zero, suc, ◌≡◌, ◌∙◌, ap, refl, ◌⊎◌, inr, Bool, true, false, Option, some, List, [], ◌∷◌, ◌++◌,
  arith, ◌||◌, ◌&&◌, not, or_else, ltb, if◌then◌else◌,
}
use hill90_app.Stream.SseWriter.{
  Call, written, paused_source, resumed_source, overflowed_at, Writer, create, Response, set_source,
  write, drain, Event, frame, drained, run, run_listeners, on_drain,
}

-- Whether the producer `s` is halted after some calls.
pub halted : ℕ → Bool → List Call → Bool
halted s b [] = b
halted s b (written chunk ∷ cs) = halted s b cs
halted s b (overflowed_at n ∷ cs) = halted s b cs
halted s b (paused_source t ∷ cs) = halted s true cs
halted s b (resumed_source t ∷ cs) = halted s false cs

halted-append :
    (s : ℕ) (b : Bool) (cs ds : List Call) → halted s b (cs ++ ds) ≡ halted s (halted s b cs) ds
unfolding halted
halted-append s b [] ds = refl
halted-append s b (written chunk ∷ cs) ds = halted-append s b cs ds
halted-append s b (overflowed_at n ∷ cs) ds = halted-append s b cs ds
halted-append s b (paused_source t ∷ cs) ds = halted-append s true cs ds
halted-append s b (resumed_source t ∷ cs) ds = halted-append s false cs ds

-- The writer of one producer.
pub record IsServing (s : ℕ) (w : Writer) : Type 0 where
  pub source : w.source ≡ some s
  pub listens : w.drain_listeners ≡ (if w.paused then 1 else 0)
  pub flows : (w.overflowed ≡ true) ⊎ (halted s false w.calls ≡ w.paused)

write-IsServing :
    (limit s chunk : ℕ) (res : Response) (w : Writer)
    → IsServing s w
    → IsServing s (write limit chunk res w).0
unfolding write halted
write-IsServing limit s chunk res w h = ground (
  arith,
  halted-append s false w.calls (written chunk ∷ []),
  halted-append s false w.calls (overflowed_at res.writable_length ∷ []),
  halted-append s false (w.calls ++ written chunk ∷ []) (paused_source s ∷ []),
)

drain-IsServing : (s : ℕ) (w : Writer) → IsServing s w → IsServing s (drain w)
unfolding drain halted
drain-IsServing s w h = ground (arith, halted-append s false w.calls (resumed_source s ∷ []))

run-IsServing :
    (limit s : ℕ) (es : List Event) (w : Writer) → IsServing s w → IsServing s (run limit es w)
unfolding run
run-IsServing limit s [] w h = h
run-IsServing limit s (frame chunk res ∷ es) w h =
    run-IsServing limit s es _ (write-IsServing limit s chunk res w h)
run-IsServing limit s (drained ∷ es) w h =
    run-IsServing limit s es (drain w) (drain-IsServing s w h)

-- With one producer set from the start, after any frames and drains: exactly one 'drain' listener
-- waits while the writer is paused and none else, and unless the cap was passed the producer is
-- halted exactly while the writer is paused.
pub run-create-IsServing :
    (limit s : ℕ) (es : List Event) → IsServing s (run limit es (set_source (some s) create))
unfolding set_source create halted
run-create-IsServing limit s es =
    run-IsServing limit s es (set_source (some s) create)
      (record { source = refl; listens = refl; flows = inr refl })

-- The calls that reach the response and the caller, without those to the producer.
pub visible : List Call → List Call
visible [] = []
visible (written chunk ∷ cs) = written chunk ∷ visible cs
visible (overflowed_at n ∷ cs) = overflowed_at n ∷ visible cs
visible (paused_source t ∷ cs) = visible cs
visible (resumed_source t ∷ cs) = visible cs

-- Every frame while the response is live and its queue within the cap; the first frame that finds
-- the queue past the cap is reported and ends the list.
pub admitted : ℕ → List Event → List Call
admitted limit [] = []
admitted limit (drained ∷ es) = admitted limit es
admitted limit (frame chunk res ∷ es) =
    if res.writable_ended || res.destroyed
    then admitted limit es
    else if ltb limit res.writable_length
    then overflowed_at res.writable_length ∷ []
    else written chunk ∷ admitted limit es

visible-append : (cs ds : List Call) → visible (cs ++ ds) ≡ visible cs ++ visible ds
unfolding visible
visible-append [] ds = refl
visible-append (written chunk ∷ cs) ds = ap (λ r. written chunk ∷ r) (visible-append cs ds)
visible-append (overflowed_at n ∷ cs) ds = ap (λ r. overflowed_at n ∷ r) (visible-append cs ds)
visible-append (paused_source t ∷ cs) ds = visible-append cs ds
visible-append (resumed_source t ∷ cs) ds = visible-append cs ds

on_drain-visible :
    (w : Writer)
    → (visible (on_drain w).calls ≡ visible w.calls) × ((on_drain w).overflowed ≡ w.overflowed)
unfolding on_drain visible
on_drain-visible w = ground (
  arith,
  append-nil (visible w.calls),
  visible-append w.calls (resumed_source (or_else w.source 0) ∷ []),
)

-- A pass over the listeners is invisible.
run_listeners-visible :
    (n : ℕ) (w : Writer)
    → (visible (run_listeners n w).calls ≡ visible w.calls)
      × ((run_listeners n w).overflowed ≡ w.overflowed)
unfolding run_listeners visible
run_listeners-visible zero w = (refl, refl)
run_listeners-visible (suc n) w =
    let (calls, over) = run_listeners-visible n (on_drain w) in
    let (calls', over') = on_drain-visible w in (calls ∙ calls', over ∙ over')

abbrev Agrees : ℕ → List Event → Writer → Type 0
Agrees limit es w =
    visible (run limit es w).calls
    ≡ visible w.calls ++ (if w.overflowed then [] else admitted limit es)

-- What one call of `write` adds to the visible calls, and whether it passes the cap.
abbrev emitted : ℕ → ℕ → Response → Writer → List Call
emitted limit chunk res w =
    if w.overflowed || res.writable_ended || res.destroyed
    then []
    else if ltb limit res.writable_length
    then overflowed_at res.writable_length ∷ []
    else written chunk ∷ []

abbrev passes : ℕ → Response → Writer → Bool
passes limit res w =
    w.overflowed || (not (res.writable_ended || res.destroyed) && ltb limit res.writable_length)

write-emits :
    (limit chunk : ℕ) (res : Response) (w : Writer)
    → (visible (write limit chunk res w).0.calls ≡ visible w.calls ++ emitted limit chunk res w)
      × ((write limit chunk res w).0.overflowed ≡ passes limit res w)
unfolding write visible
write-emits limit chunk res w = ground (
  arith,
  append-nil (visible w.calls),
  visible-append w.calls (written chunk ∷ []),
  visible-append w.calls (overflowed_at res.writable_length ∷ []),
  visible-append (w.calls ++ written chunk ∷ []) (paused_source (or_else w.source 0) ∷ []),
  append-nil (visible (w.calls ++ written chunk ∷ [])),
)

emitted-admitted :
    (limit chunk : ℕ) (res : Response) (es : List Event) (w : Writer)
    → (visible w.calls ++ emitted limit chunk res w)
        ++ (if passes limit res w then [] else admitted limit es)
      ≡ visible w.calls ++ (if w.overflowed then [] else admitted limit (frame chunk res ∷ es))
unfolding admitted
emitted-admitted limit chunk res es w = ground (
  arith,
  append-nil (visible w.calls),
  append-nil (visible w.calls ++ emitted limit chunk res w),
  append_assoc (visible w.calls) (written chunk ∷ []) (admitted limit es),
)

write-visible :
    (limit chunk : ℕ) (res : Response) (es : List Event) (w : Writer)
    → Agrees limit es (write limit chunk res w).0
    → Agrees limit (frame chunk res ∷ es) w
unfolding run
write-visible limit chunk res es w ih =
    let (calls, over) = write-emits limit chunk res w in
    ih
    ∙ ap₂ (λ (c : List Call) (b : Bool). c ++ (if b then [] else admitted limit es)) calls over
    ∙ emitted-admitted limit chunk res es w

run-Agrees : (limit : ℕ) (es : List Event) (w : Writer) → Agrees limit es w
unfolding run admitted drain
run-Agrees limit [] w = ground (arith, append-nil (visible w.calls))
run-Agrees limit (frame chunk res ∷ es) w =
    write-visible limit chunk res es w (run-Agrees limit es (write limit chunk res w).0)
run-Agrees limit (drained ∷ es) w =
    let (calls, over) =
      run_listeners-visible w.drain_listeners (record w { drain_listeners = 0 }) in
    run-Agrees limit es (drain w)
    ∙ ap₂ (λ (c : List Call) (b : Bool). c ++ (if b then [] else admitted limit es)) calls over

-- Whatever producer is set and whenever the response drains, what reaches the response is exactly
-- every frame that finds it live, up to the first one that finds more than `limit` queued; that one
-- is refused and reported, once, and nothing follows it.
pub run-admitted :
    (limit : ℕ) (es : List Event) (source : Option ℕ)
    → visible (run limit es (set_source source create)).calls ≡ admitted limit es
unfolding set_source create visible
run-admitted limit es source = run-Agrees limit es (set_source source create)
