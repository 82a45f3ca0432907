-- ===== src/Stream/Relay/Backpressure.antt =====
-- The pause, the poll that ends it, and the teardown.
use hill90_app.Prelude.{
  ℕ, ◌/◌, ◌≤◌, ◌<◌, ◌≡◌, refl, ◌⊎◌, inl, inr, Bool, true, false, List, [], ◌∷◌, arith, All,
}
use hill90_app.Stream.Relay.{
  RelayOptions, Pump, Event, message, poll, set_source, start, step, run, cleanup,
}

module _ {D : Type 0} where
  -- The poll exists exactly while the source is paused, until an overflow ends it; the socket, if
  -- there is one, is paused exactly if the pump says so.
  pub record IsConsistent (p : Pump D) : Type 0 where
    pub polled : (p.overflowed ≡ true) ⊎ (p.resume_timer ≡ p.paused)
    pub stopped : (p.overflowed ≡ false) ⊎ (p.resume_timer ≡ false)
    pub held : p.source_paused ≡ set_source p.paused p.source_paused

  pub start-IsConsistent : (has_socket : Bool) → IsConsistent (start has_socket)
  unfolding start
  start-IsConsistent true = record { polled = inr refl; stopped = inl refl; held = refl }
  start-IsConsistent false = record { polled = inr refl; stopped = inl refl; held = refl }

  pub step-IsConsistent :
      (o : RelayOptions) (e : Event D) (p : Pump D) → IsConsistent p → IsConsistent (step o e p)
  unfolding step
  step-IsConsistent o (message d to_open queued) p c = ground arith
  step-IsConsistent o (poll to_open buffered) p c = ground arith

  run-IsConsistent :
      (o : RelayOptions) (es : List (Event D)) (p : Pump D)
      → IsConsistent p
      → IsConsistent (run o es p)
  unfolding run
  run-IsConsistent o [] p c = c
  run-IsConsistent o (e ∷ es) p c = run-IsConsistent o es (step o e p) (step-IsConsistent o e p c)

  -- After any events: the poll is armed exactly while the pump is paused, until an overflow stops it
  -- for good, and the socket, if there is one, is paused exactly if the pump is.
  pub run-start-IsConsistent :
      (o : RelayOptions) (es : List (Event D)) (has_socket : Bool)
      → IsConsistent (run o es (start has_socket))
  run-start-IsConsistent o es has_socket =
      run-IsConsistent o es (start has_socket) (start-IsConsistent has_socket)

  -- With a socket and after any events without an overflow, a frame that finds the destination open and leaves the queue
  -- between the two marks pauses the socket and arms the poll.
  pub step-message_pauses :
      (o : RelayOptions) (es : List (Event D)) (d : D) (queued : ℕ)
      → (run o es (start true)).overflowed ≡ false
      → o.high_water_bytes < queued
      → queued ≤ o.hard_cap_bytes
      → ((step o (message d true queued) (run o es (start true))).source_paused
          ≡ set_source true (run o es (start true)).source_paused)
        × ((step o (message d true queued) (run o es (start true))).resume_timer ≡ true)
  unfolding step
  step-message_pauses o es d queued h lo hi = ground (arith, run-start-IsConsistent o es true)

  -- After any events without an overflow, a round of the poll that finds the destination closed, or its
  -- queue at no more than half the high-water mark, leaves nothing paused and no poll armed.
  pub step-poll_resumes :
      (o : RelayOptions) (es : List (Event D)) (has_socket : Bool) (to_open : Bool) (buffered : ℕ)
      → (run o es (start has_socket)).overflowed ≡ false
      → (to_open ≡ false) ⊎ (buffered ≤ o.high_water_bytes / 2)
      → let p = step o (poll to_open buffered) (run o es (start has_socket)) in
        (p.paused ≡ false)
        × (p.resume_timer ≡ false)
        × (p.source_paused ≡ set_source false p.source_paused)
  unfolding step
  step-poll_resumes o es has_socket to_open buffered h room =
      ground (arith, run-start-IsConsistent o es has_socket)

  -- Nothing arrives at an open destination.
  abbrev pub IsShut : Event D → Type 0
  IsShut (message d to_open queued) = to_open ≡ false
  IsShut (poll to_open buffered) = Unit

  pub record IsReleased (p : Pump D) : Type 0 where
    pub no_timer : p.resume_timer ≡ false
    pub flowing : p.source_paused ≡ set_source false p.source_paused

  pub cleanup-IsReleased : (p : Pump D) → IsConsistent p → IsReleased (cleanup p)
  unfolding cleanup
  cleanup-IsReleased p c = ground arith

  pub cleanup-keeps : (p : Pump D) → IsReleased p → IsReleased (cleanup p)
  unfolding cleanup
  cleanup-keeps p r = ground arith

  pub step-IsReleased :
      (o : RelayOptions) (e : Event D) (p : Pump D)
      → IsShut e
      → IsReleased p
      → IsReleased (step o e p)
  unfolding step
  step-IsReleased o (message d to_open queued) p shut r = ground arith
  step-IsReleased o (poll to_open buffered) p shut r = ground arith

  run-IsReleased :
      (o : RelayOptions) (es : List (Event D)) (p : Pump D)
      → All IsShut es
      → IsReleased p
      → IsReleased (run o es p)
  unfolding run
  run-IsReleased o [] p shut r = r
  run-IsReleased o (e ∷ es) p (shut, later) r =
      run-IsReleased o es (step o e p) later (step-IsReleased o e p shut r)

  -- The teardown after any events leaves no poll armed and no socket paused, and this lasts while
  -- no frame finds the destination open.
  pub cleanup-run-IsReleased :
      (o : RelayOptions) (before after : List (Event D)) (has_socket : Bool)
      → All IsShut after
      → IsReleased (run o after (cleanup (run o before (start has_socket))))
  cleanup-run-IsReleased o before after has_socket shut =
      run-IsReleased o after (cleanup (run o before (start has_socket))) shut
        (cleanup-IsReleased _ (run-start-IsConsistent o before has_socket))
