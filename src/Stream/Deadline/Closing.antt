-- ===== src/Stream/Deadline/Closing.antt =====
-- When the timer of a stream is armed, and how a stream is closed.
use hill90_app.Prelude.{
  ℕ, ◌+◌, ◌*◌, ◌≡◌, ◌≤◌, ◌<◌, refl, true, false, some, List, [], ◌∷◌, String, arith, length,
}
use hill90_app.Prelude.Exec.{ok, thrown}
use hill90_app.Stream.Deadline.{
  DeadlineTarget, deadline_max_ms, arm_credential_deadline, on_deadline, on_recheck,
  still_authorised, end_stream_for_expired_credential, end_stream_for_revoked_access, Occasion,
  deadline, recheck, run_occasions, open_stream,
}

-- A deadline is armed only for a credential whose end is still ahead, it comes no later than that end,
-- and its delay is positive and within the range of setTimeout.
arm_credential_deadline-bounds :
    (exp now delay : ℕ)
    → arm_credential_deadline (some exp) now ≡ some delay
    → (now < exp * 1000) × (now + delay ≤ exp * 1000) × (1 ≤ delay) × (delay ≤ deadline_max_ms)
unfolding arm_credential_deadline
arm_credential_deadline-bounds exp now delay h = ground (arith, h)

-- The error frame that closes a stream: that of its first deadline, or of its first check that does not
-- find a participant, whichever comes first; a check that fails counts as such.
unfoldable pub closing : List Occasion → List String
closing [] = []
closing (deadline ∷ os) = "Credential expired" ∷ []
closing (recheck (ok true) ∷ os) = closing os
closing (recheck (ok false) ∷ os) = "Access revoked" ∷ []
closing (recheck (thrown e) ∷ os) = "Access revoked" ∷ []

run_occasions-ended :
    (os : List Occasion) (res : DeadlineTarget)
    → res.writable_ended ≡ true
    → (run_occasions os res).errors ≡ res.errors × ((run_occasions os res).ends ≡ res.ends)
unfolding run_occasions
run_occasions-ended [] res h = (refl, refl)
run_occasions-ended (deadline ∷ os) res h =
    ground (arith, h, run_occasions-ended os (on_deadline res))
run_occasions-ended (recheck answer ∷ os) res h =
    ground (arith, h, run_occasions-ended os (on_recheck answer res))

-- Whatever deadlines and checks come, and in whatever order, an open stream gets exactly the frame that
-- closes it, and is ended exactly as often as it gets one.
pub run_occasions-closing :
    (os : List Occasion)
    → ((run_occasions os open_stream).errors ≡ closing os)
      × ((run_occasions os open_stream).ends ≡ length (closing os))
unfolding run_occasions closing on_deadline on_recheck still_authorised
    end_stream_for_expired_credential end_stream_for_revoked_access
run_occasions-closing [] = (refl, refl)
run_occasions-closing (deadline ∷ os) = run_occasions-ended os _ refl
run_occasions-closing (recheck (ok true) ∷ os) = run_occasions-closing os
run_occasions-closing (recheck (ok false) ∷ os) = run_occasions-ended os _ refl
run_occasions-closing (recheck (thrown e) ∷ os) = run_occasions-ended os _ refl
