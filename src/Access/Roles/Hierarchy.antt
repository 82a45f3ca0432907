-- ===== src/Access/Roles/Hierarchy.antt =====
-- Exactly which principals a role gate admits.
use hill90_app.Prelude.{
  ◌≡◌, ◌≢◌, ◌↔◌, ◌⊎◌, refl, Bool, true, false, ◌&&◌, ◌||◌, not, Option, none, some, List, [], ◌∷◌,
  ◌++◌, String, arith, str_eq, eq_iff, if◌then◌else◌,
}
use hill90_app.Prelude.Exec.{Result, ok, thrown}
use hill90_app.Access.Roles.{
  Payload, roles_from, has_role, next, raised, forbidden, implied_roles, add_implied, implied_by,
  effective_roles, gate, require_role,
}

module _ (inherited : String → Bool) where
  -- A granted role for which the map's prototype answers.
  unfoldable pub breaks : List String → Bool
  breaks [] = false
  breaks (r ∷ rs) = (not (str_eq r "admin") && inherited r) || breaks rs

  has_role-append :
      (xs ys : List String) (role : String)
      → has_role (xs ++ ys) role ≡ (has_role xs role || has_role ys role)
  unfolding has_role
  has_role-append [] ys role = refl
  has_role-append (x ∷ xs) ys role = ground (arith, has_role-append xs ys role)

  -- Membership in the outcome of an expansion; `none` where it threw.
  holds : String → Result (List String) → Option Bool
  unfolding has_role
  holds role (thrown e) = none
  holds role (ok out) = some (has_role out role)

  add_implied-holds :
      (role r : String) (rs : List String) (out : Result (List String))
      → holds role out
        ≡ (if breaks rs then none else some (str_eq "user" role && has_role rs "admin"))
      → holds role (add_implied inherited (implied_roles inherited r) out)
        ≡ (if breaks (r ∷ rs) then none else some (str_eq "user" role && has_role (r ∷ rs) "admin"))
  unfolding add_implied implied_roles breaks holds
  add_implied-holds role r rs (thrown e) h = ground (arith, eq_iff r "admin")
  add_implied-holds role r rs (ok out) h = ground (arith, eq_iff r "admin")

  implied_by-holds :
      (role : String) (granted : List String)
      → holds role (implied_by inherited granted)
        ≡ (if breaks granted then none else some (str_eq "user" role && has_role granted "admin"))
  unfolding implied_by breaks holds
  implied_by-holds role [] = ground arith
  implied_by-holds role (r ∷ rs) =
      add_implied-holds role r rs (implied_by inherited rs) (implied_by-holds role rs)

  gate-holds :
      (role : String) (granted : List String) (out : Result (List String))
      → gate inherited role (add_implied inherited (ok granted) out) ≡ (elim (holds role out) [
        | none ↦ raised (elim out [ ok _ ↦ "" | thrown e ↦ e ])
        | some b ↦ if has_role granted role || b then next else forbidden
      ])
  unfolding gate add_implied holds
  gate-holds role granted (thrown e) = refl
  gate-holds role granted (ok out) = rw (has_role-append granted out role)

  gate_clear :
      (role : String) (granted : List String)
      → breaks granted ≡ false
      → gate inherited role (effective_roles inherited granted) ≡ (
          if has_role granted role || (str_eq "user" role && has_role granted "admin")
          then next
          else forbidden)
  unfolding effective_roles
  gate_clear role granted clear =
      rw (
        gate-holds role granted (implied_by inherited granted),
        implied_by-holds role granted,
        clear,
      )

  -- A request with a principal passes the gate for `role` exactly if `role` is among its granted
  -- roles, or `role` is "user" and "admin" is among them, provided that no granted role other than
  -- "admin" is a name that the prototype of the role map answers for.
  pub require_role_iff :
      (client role : String) (user : Payload)
      → breaks (roles_from client user) ≡ false
      → (require_role inherited client role (some user) ≡ next) ↔ (
          (has_role (roles_from client user) role ≡ true)
          ⊎ ((role ≡ "user") × (has_role (roles_from client user) "admin" ≡ true)))
  unfolding require_role effective_roles
  require_role_iff client role user clear =
      rw (gate_clear role (roles_from client user) clear) (ground (arith, eq_iff "user" role))

  -- A granted role that is such a name makes every gate throw, so neither the handler nor the 403 is
  -- reached.
  pub require_role-breaks :
      (client role : String) (user : Payload)
      → breaks (roles_from client user) ≡ true
      → (require_role inherited client role (some user) ≢ next)
        × (require_role inherited client role (some user) ≢ forbidden)
  unfolding require_role effective_roles
  require_role-breaks client role user broken =
      let granted = roles_from client user in
      rw
        (
          gate-holds role granted (implied_by inherited granted),
          implied_by-holds role granted,
          broken,
        )
        (ground arith)
