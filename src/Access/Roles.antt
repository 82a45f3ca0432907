-- ===== src/Access/Roles.antt =====
-- services/api/src/middleware/keycloak-config.ts (`rolesFrom`), middleware/role.ts, helpers/scope.ts and
-- helpers/elevated-scope.ts (`isAdmin`).
pub mod Hierarchy
use hill90_app.Prelude.{
  ℕ, Bool, true, false, Option, none, some, List, [], ◌∷◌, ◌++◌, ◌||◌, String, str_eq, any,
  if◌then◌else◌,
}
use hill90_app.Prelude.Exec.{Result, ok, thrown}

-- A value under `resource_access.<client>.roles`: an array of role names, or anything else.
pub data RoleClaim : Type 0 where
  not_array : RoleClaim
  array : List String → RoleClaim

-- The claims of a verified token that this service reads. A claim of the wrong type is `none`;
-- `exp` counts seconds.
pub record Payload : Type 0 where
  pub exp : Option ℕ
  pub sub : Option String
  pub resource_access : Option (List (String × RoleClaim))

pub lookup_client : String → List (String × RoleClaim) → RoleClaim
lookup_client k [] = not_array
lookup_client k ((j, c) ∷ m) = if str_eq j k then c else lookup_client k m

array_or_empty : RoleClaim → List String
array_or_empty not_array = []
array_or_empty (array roles) = roles

-- `client` is `getClientId()`.
unfoldable pub roles_from : String → Payload → List String
unfolding lookup_client array_or_empty
roles_from client payload = elim payload.resource_access [
  | none ↦ []
  | some ra ↦ array_or_empty (lookup_client client ra)
]

-- `roles.includes(role)` and `Set.has`
unfoldable pub has_role : List String → String → Bool
has_role [] role = false
has_role (r ∷ rs) role = str_eq r role || has_role rs role

-- `isAdmin(req)`, and the test of `scopeToOwner`
pub is_admin : String → Payload → Bool
unfolding has_role
is_admin client payload = has_role (roles_from client payload) "admin"

-- The rows that `scopeToOwner` lets a query see: all, or those created by a subject.
pub data Scope : Type 0 where
  everything : Scope
  created_by : Option String → Scope

pub scope_to_owner : String → Payload → Scope
unfolding is_admin
scope_to_owner client payload =
    if is_admin client payload then everything else created_by payload.sub

-- What a request meets at `requireRole`.
pub data Gate : Type 0 where
  not_authenticated forbidden next : Gate
  raised : String → Gate

-- `inherited` are the names that the map's prototype answers for: what is found there is not
-- `undefined`, so `??` keeps it, and it cannot be iterated.
module _ (inherited : String → Bool) where
  pub implied_roles : String → Result (List String)
  implied_roles role =
      if str_eq role "admin"
      then ok ("user" ∷ [])
      else if inherited role
      then thrown "ROLE_IMPLIES[role] is not iterable"
      else ok []

  add_implied : Result (List String) → Result (List String) → Result (List String)
  add_implied (thrown e) rest = thrown e
  add_implied (ok roles) (thrown e) = thrown e
  add_implied (ok roles) (ok out) = ok (roles ++ out)

  implied_by : List String → Result (List String)
  unfolding implied_roles add_implied
  implied_by [] = ok []
  implied_by (role ∷ granted) = add_implied (implied_roles role) (implied_by granted)

  -- The set as a list; only membership is ever asked of it.
  pub effective_roles : List String → Result (List String)
  unfolding implied_by
  effective_roles granted = add_implied (ok granted) (implied_by granted)

  gate : String → Result (List String) → Gate
  unfolding has_role
  gate role (thrown e) = raised e
  gate role (ok roles) = if has_role roles role then next else forbidden

  pub require_role : String → String → Option Payload → Gate
  unfolding gate effective_roles
  require_role client role none = not_authenticated
  require_role client role (some user) = gate role (effective_roles (roles_from client user))
