-- ===== src/Agent/Verification/History.antt =====
-- What may be reported, read off the history of passes and container operations.
use hill90_app.Prelude.{
  ◌≡◌, refl, ◌∙◌, Bool, true, false, not, ◌||◌, some, List, [], ◌∷◌, String, arith, str_eq, eq_iff,
  if◌then◌else◌,
}
use hill90_app.Agent.Verification.{
  Verification, initial, unknown_status, set, get, set_all_false, record_reconcile_pass,
  record_reconcile_failure, mark_status_verified, is_status_verified, reported_status,
}

pub data Happening : Type 0 where
  pass : List String → Happening
  failure : Happening
  operation : String → Happening

-- The history, the latest happening first.
pub replay : List Happening → Verification
replay [] = initial
replay (pass unverified ∷ hs) = record_reconcile_pass unverified (replay hs)
replay (failure ∷ hs) = record_reconcile_failure (replay hs)
replay (operation agent_id ∷ hs) = mark_status_verified agent_id (replay hs)

unfoldable pub listed : String → List String → Bool
listed a [] = false
listed a (b ∷ bs) = str_eq b a || listed a bs

-- An operation on the agent itself after the latest pass vouches for it; otherwise that pass does,
-- unless it failed or could not inspect the agent; before any pass everything is vouched for.
unfoldable pub vouched : String → List Happening → Bool
vouched a [] = true
vouched a (pass unverified ∷ hs) = not (listed a unverified)
vouched a (failure ∷ hs) = false
vouched a (operation agent_id ∷ hs) = if str_eq agent_id a then true else vouched a hs

get-set :
    (k j : String) (v : Bool) (m : List (String × Bool))
    → get j (set k v m) ≡ (if str_eq k j then some v else get j m)
unfolding get set
get-set k j v [] = refl
get-set k j v ((i, u) ∷ m) = ground (arith, eq_iff k j, eq_iff i k, eq_iff i j, get-set k j v m)

get-set_all_false :
    (a : String) (ids : List String) (m : List (String × Bool))
    → get a (set_all_false ids m) ≡ (if listed a ids then some false else get a m)
unfolding set_all_false listed
get-set_all_false a [] m = refl
get-set_all_false a (id ∷ ids) m =
    get-set_all_false a ids (set id false m) ∙ ground (arith, get-set id a false m)

pub record_reconcile_pass-verified :
    (a : String) (ids : List String) (v : Verification)
    → is_status_verified a (record_reconcile_pass ids v) ≡ not (listed a ids)
unfolding is_status_verified record_reconcile_pass
record_reconcile_pass-verified a ids v = ground (arith, get-set_all_false a ids [])

replay-verified :
    (a : String) (hs : List Happening) → is_status_verified a (replay hs) ≡ vouched a hs
unfolding replay vouched is_status_verified record_reconcile_pass record_reconcile_failure
    mark_status_verified
replay-verified a [] = refl
replay-verified a (pass unverified ∷ hs) = ground (arith, get-set_all_false a unverified [])
replay-verified a (failure ∷ hs) = refl
replay-verified a (operation agent_id ∷ hs) =
    ground (arith, get-set agent_id a true (replay hs).explicit, replay-verified a hs)

-- After any history of passes, failures and operations, the API reports the recorded status of an
-- agent exactly if the history vouches for it, and `unknown` otherwise.
pub reported_status-vouched :
    (a recorded : String) (hs : List Happening)
    → reported_status a recorded (replay hs) ≡ (if vouched a hs then recorded else unknown_status)
unfolding reported_status
reported_status-vouched a recorded hs = rw (replay-verified a hs)
