-- ===== src/Stream/Relay/Delivery.antt =====
-- What a pump delivers, against a description that reads the events alone.
use mathlib.Core.List.{append-nil, append_assoc}
use hill90_app.Prelude.{
  ℕ, ◌≡◌, inl, inr, Bool-cases, refl, sym, ◌∙◌, ap, Bool, true, false, List, [], ◌∷◌, ◌++◌, arith,
  ltb, if◌then◌else◌,
}
use hill90_app.Stream.Relay.{RelayOptions, Pump, Event, message, poll, start, step, run}

module _ {D : Type 0} where
  -- Every frame that arrives while the destination is open, up to and with the first one that
  -- takes the queue past the hard cap.
  pub delivered : RelayOptions → List (Event D) → List D
  delivered o [] = []
  delivered o (poll to_open buffered ∷ es) = delivered o es
  delivered o (message d to_open queued ∷ es) =
      if to_open
      then d ∷ (if ltb o.hard_cap_bytes queued then [] else delivered o es)
      else delivered o es

  -- The queue at that frame, if there is one.
  pub overflow : RelayOptions → List (Event D) → List ℕ
  overflow o [] = []
  overflow o (poll to_open buffered ∷ es) = overflow o es
  overflow o (message d to_open queued ∷ es) =
      if to_open
      then (if ltb o.hard_cap_bytes queued then queued ∷ [] else overflow o es)
      else overflow o es

  step_overflowed :
      (o : RelayOptions) (e : Event D) (p : Pump D)
      → p.overflowed ≡ true
      → ((step o e p).overflowed ≡ true)
        × ((step o e p).sent ≡ p.sent)
        × ((step o e p).overflow_calls ≡ p.overflow_calls)
  unfolding step
  step_overflowed o (message d to_open queued) p h = ground arith
  step_overflowed o (poll to_open buffered) p h = ground arith

  run_overflowed :
      (o : RelayOptions) (es : List (Event D)) (p : Pump D)
      → p.overflowed ≡ true
      → ((run o es p).sent ≡ p.sent) × ((run o es p).overflow_calls ≡ p.overflow_calls)
  unfolding run
  run_overflowed o [] p h = (refl, refl)
  run_overflowed o (e ∷ es) p h =
      let (h', same_sent, same_calls) = step_overflowed o e p h in
      let (rest_sent, rest_calls) = run_overflowed o es (step o e p) h' in
      (rest_sent ∙ same_sent, rest_calls ∙ same_calls)

  step-poll_keeps :
      (o : RelayOptions) (to_open : Bool) (buffered : ℕ) (p : Pump D)
      → ((step o (poll to_open buffered) p).overflowed ≡ p.overflowed)
        × ((step o (poll to_open buffered) p).sent ≡ p.sent)
        × ((step o (poll to_open buffered) p).overflow_calls ≡ p.overflow_calls)
  unfolding step
  step-poll_keeps o to_open buffered p = ground arith

  -- One frame at an open destination: it is sent, and past the hard cap it is the last one.
  step-message_open :
      (o : RelayOptions) (d : D) (queued : ℕ) (p : Pump D)
      → p.overflowed ≡ false
      → ((step o (message d true queued) p).sent ≡ p.sent ++ d ∷ [])
        × ((step o (message d true queued) p).overflowed ≡ ltb o.hard_cap_bytes queued)
        × ((step o (message d true queued) p).overflow_calls
            ≡ p.overflow_calls ++ (if ltb o.hard_cap_bytes queued then queued ∷ [] else []))
  unfolding step
  step-message_open o d queued p h = ground (arith, append-nil p.overflow_calls)

  step-message_shut :
      (o : RelayOptions) (d : D) (queued : ℕ) (p : Pump D) → step o (message d false queued) p ≡ p
  unfolding step
  step-message_shut o d queued p = ground arith

  abbrev Agrees : RelayOptions → List (Event D) → Pump D → Type 0
  Agrees o es p =
      ((run o es p).sent ≡ p.sent ++ delivered o es)
      × ((run o es p).overflow_calls ≡ p.overflow_calls ++ overflow o es)

  run-Agrees :
      (o : RelayOptions) (es : List (Event D)) (p : Pump D) → p.overflowed ≡ false → Agrees o es p
  unfolding run delivered overflow
  run-Agrees o [] p h = (sym (append-nil _), sym (append-nil _))
  run-Agrees o (poll to_open buffered ∷ es) p h =
      let (same_overflowed, same_sent, same_calls) = step-poll_keeps o to_open buffered p in
      let (sent, calls) =
        run-Agrees o es (step o (poll to_open buffered) p) (same_overflowed ∙ h) in
      (
        sent ∙ ap (λ s. s ++ delivered o es) same_sent,
        calls ∙ ap (λ s. s ++ overflow o es) same_calls,
      )
  run-Agrees o (message d false queued ∷ es) p h =
      let same = step-message_shut o d queued p in
      let (sent, calls) = run-Agrees o es p h in
      (ap (λ r. (run o es r).sent) same ∙ sent, ap (λ r. (run o es r).overflow_calls) same ∙ calls)
  run-Agrees o (message d true queued ∷ es) p h =
      let q = step o (message d true queued) p in
      let (sent, over, calls) = step-message_open o d queued p h in
      elim (Bool-cases (ltb o.hard_cap_bytes queued)) [
        | inl past ↦
            let (rest_sent, rest_calls) = run_overflowed o es q (over ∙ past) in
            (rw past (rest_sent ∙ sent), rw past (rest_calls ∙ rw past at calls))
        | inr fits ↦
            let (rest_sent, rest_calls) = run-Agrees o es q (over ∙ fits) in
            (
              rw fits (
                  rest_sent
                  ∙ ap (λ s. s ++ delivered o es) sent
                  ∙ append_assoc p.sent (d ∷ []) (delivered o es)),
              rw fits (
                  rest_calls
                  ∙ ap (λ s. s ++ overflow o es) (rw (fits, append-nil p.overflow_calls) at calls)),
            )
      ]

  -- What a fresh pump has sent after any events is exactly what the description keeps of them, and
  -- `onOverflow` was called exactly for the frame that it stops at.
  pub run-delivered :
      (o : RelayOptions) (es : List (Event D)) (has_socket : Bool)
      → ((run o es (start has_socket)).sent ≡ delivered o es)
        × ((run o es (start has_socket)).overflow_calls ≡ overflow o es)
  unfolding start
  run-delivered o es has_socket = run-Agrees o es (start has_socket) refl
