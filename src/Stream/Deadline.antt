-- ===== src/Stream/Deadline.antt =====
-- services/api/src/helpers/stream-deadline.ts and helpers/participation-watch.ts: what ends an open
-- stream, its credential's end or the loss of access. The participation query is a parameter's
-- result; an error frame is known by its `error` field.
pub mod Closing
use hill90_app.Prelude.{
  ℕ, ◌+◌, ◌-◌, ◌*◌, Bool, true, false, Option, none, some, List, [], ◌∷◌, ◌++◌, String, leb, min,
  ◌||◌, not, if◌then◌else◌,
}
use hill90_app.Prelude.Exec.{Result, ok, thrown}

abbrev pub deadline_max_ms : ℕ
deadline_max_ms = 2147483647

-- The response, with the error frames written to it and how often it was ended.
pub record DeadlineTarget : Type 0 where
  pub errors : List String
  pub ends : ℕ
  pub writable_ended : Bool
  pub destroyed : Bool

-- The delay of the timer; `none` where the caller has to refuse. `exp` is `none` if it is not a number.
unfoldable pub arm_credential_deadline : Option ℕ → ℕ → Option ℕ
arm_credential_deadline none now = none
arm_credential_deadline (some exp) now =
    if leb (exp * 1000) now then none else some (min (exp * 1000 - now) deadline_max_ms)

end_with : String → DeadlineTarget → DeadlineTarget
end_with error res = record res {
  errors = res.errors ++ error ∷ [];
  ends = res.ends + 1;
  writable_ended = true;
}

pub end_stream_for_expired_credential : DeadlineTarget → DeadlineTarget
unfolding end_with
end_stream_for_expired_credential = end_with "Credential expired"

pub end_stream_for_revoked_access : DeadlineTarget → DeadlineTarget
unfolding end_with
end_stream_for_revoked_access = end_with "Access revoked"

-- The timer's callback, for a caller whose `onExpired` ends the stream.
pub on_deadline : DeadlineTarget → DeadlineTarget
unfolding end_stream_for_expired_credential
on_deadline res =
    if res.writable_ended || res.destroyed then res else end_stream_for_expired_credential res

pub still_authorised : Result Bool → Bool
still_authorised (ok answer) = answer
still_authorised (thrown e) = false

-- The callers' heartbeat: a response that is over is left alone.
pub on_recheck : Result Bool → DeadlineTarget → DeadlineTarget
unfolding still_authorised end_stream_for_revoked_access
on_recheck answer res =
    if still_authorised answer || res.writable_ended || res.destroyed
    then res
    else end_stream_for_revoked_access res

pub data Occasion : Type 0 where
  deadline : Occasion
  recheck : Result Bool → Occasion

pub run_occasions : List Occasion → DeadlineTarget → DeadlineTarget
unfolding on_deadline on_recheck
run_occasions [] res = res
run_occasions (deadline ∷ os) res = run_occasions os (on_deadline res)
run_occasions (recheck answer ∷ os) res = run_occasions os (on_recheck answer res)

abbrev pub open_stream : DeadlineTarget
open_stream = record { errors = []; ends = 0; writable_ended = false; destroyed = false }
