-- ===== src/Agent/Verification.antt =====
-- services/api/src/services/agent-status-verification.ts: whether a recorded status may be reported as
-- fact.
pub mod History
use hill90_app.Prelude.{
  Bool, true, false, Option, none, some, List, [], ◌∷◌, String, str_eq, if◌then◌else◌,
}

abbrev pub unknown_status : String
unknown_status = "unknown"

-- The module's variables; the map is an association list with one entry for a key.
pub record Verification : Type 0 where
  pub default_verified : Bool
  pub explicit : List (String × Bool)

abbrev pub initial : Verification
initial = record { default_verified = true; explicit = [] }

-- `Map.set` and `Map.get`
pub set : String → Bool → List (String × Bool) → List (String × Bool)
set k v [] = (k, v) ∷ []
set k v ((j, u) ∷ m) = if str_eq j k then (k, v) ∷ m else (j, u) ∷ set k v m

pub get : String → List (String × Bool) → Option Bool
get k [] = none
get k ((j, u) ∷ m) = if str_eq j k then some u else get k m

set_all_false : List String → List (String × Bool) → List (String × Bool)
unfolding set
set_all_false [] m = m
set_all_false (id ∷ ids) m = set_all_false ids (set id false m)

unfoldable pub record_reconcile_pass : List String → Verification → Verification
unfolding set_all_false
record_reconcile_pass unverified v = record v {
  default_verified = true;
  explicit = set_all_false unverified [];
}

unfoldable pub record_reconcile_failure : Verification → Verification
record_reconcile_failure v = record v { default_verified = false; explicit = [] }

pub mark_status_verified : String → Verification → Verification
unfolding set
mark_status_verified agent_id v = record v { explicit = set agent_id true v.explicit }

unfoldable pub is_status_verified : String → Verification → Bool
unfolding get
is_status_verified agent_id v = elim (get agent_id v.explicit) [
  | none ↦ v.default_verified
  | some b ↦ b
]

unfoldable pub reported_status : String → String → Verification → String
unfolding is_status_verified
reported_status agent_id recorded v =
    if is_status_verified agent_id v then recorded else unknown_status
