-- ===== src/Access/Tests.antt =====
-- One user at the HTTP boundary, at the role gate and at the terminal's handshake.
use hill90_app.Prelude.{
  ℕ, ◌≡◌, ◌↔◌, ◌⊎◌, refl, Bool, true, false, Option, none, some, [], ◌∷◌, String, str_eq,
}
use hill90_app.Prelude.Exec.{Result, ok}
use hill90_app.Prelude.Text.{Text, codes, starts_with, text_eq}
use hill90_app.Access.Roles.{Payload, array, roles_from, has_role, next, require_role}
use hill90_app.Access.Roles.Hierarchy.{breaks, require_role_iff}
use hill90_app.Access.Auth as Auth
use hill90_app.Access.Auth.{
  Decoded, complete, Principal, bearer, require_auth, verify_terminal_token,
}
use hill90_app.Access.Auth.Boundary.{IsAgreed, verify_terminal_token-require_auth}
use hill90_app.Access.Upgrade.{
  Request, Session, upgraded, offered_token, on_upgrade, parse_thread_id, is_origin_allowed,
}
use hill90_app.Access.Upgrade.Guards.{IsGranted, on_upgrade-IsGranted}
use hill90_app.Access.Page.{natural, PageParams, page, parse_page_params}

abbrev claims : Payload
claims = record {
  exp = some 100;
  sub = some "ann";
  resource_access = some (("hill90", array ("user" ∷ [])) ∷ []);
}

abbrev inherited : String → Bool
inherited name = str_eq name "constructor"

abbrev decode : Text → Decoded ℕ
decode token = complete 1

abbrev signing_key : ℕ → Result ℕ
signing_key header = ok header

abbrev verify : Text → ℕ → Result Payload
verify token key = ok claims

claims-unbroken : breaks inherited (roles_from "hill90" claims) ≡ false
unfolding roles_from breaks
claims-unbroken = refl

require_role_iff_example : (require_role inherited "hill90" "user" (some claims) ≡ next) ↔ (
    (has_role (roles_from "hill90" claims) "user" ≡ true)
    ⊎ ((◌≡◌ {A = String} "user" "user") × (has_role (roles_from "hill90" claims) "admin" ≡ true)))
require_role_iff_example = require_role_iff inherited "hill90" "user" claims claims-unbroken

verify_terminal_token-require_auth_example :
    IsAgreed decode signing_key verify "hill90" (codes "abc")
verify_terminal_token-require_auth_example =
    verify_terminal_token-require_auth decode signing_key verify "hill90" (codes "abc")

claims-pass : require_auth decode signing_key verify (some (codes "Bearer abc")) ≡ Auth.next claims
unfolding require_auth starts_with
claims-pass = refl

abbrev ann : Principal
ann = record { sub = "ann"; roles = "user" ∷ []; exp = 100 }

abbrev request : Request
request = record {
  url = some (codes "/chat/threads/t1/terminal");
  origin = some (codes "https://hill90.com");
  protocols = some (codes "hill90.terminal, hill90.bearer.abc");
  authorization = none;
}

abbrev foreign_request : Request
foreign_request = record request { origin = some (codes "https://evil.com") }

abbrev origins : Text
origins = codes "https://hill90.com"

abbrev verify_token : Text → Result (Option Principal)
verify_token token = ok (some ann)

abbrev is_participant : Text → String → Result Bool
is_participant thread sub = ok true

abbrev resolve_upstream : Text → Result (Option Text)
resolve_upstream thread = ok (some (codes "ws://web"))

abbrev session : Session
session = record {
  thread = codes "t1";
  user = ann;
  upstream = codes "ws://web";
  expiry_timer = 60000;
}

request-upgraded :
    on_upgrade origins verify_token 40000 is_participant resolve_upstream request ≡ upgraded session
unfolding on_upgrade offered_token text_eq
request-upgraded = refl

on_upgrade-IsGranted_example :
    IsGranted origins verify_token 40000 is_participant resolve_upstream request session
on_upgrade-IsGranted_example =
    on_upgrade-IsGranted origins verify_token 40000 is_participant resolve_upstream request session
      request-upgraded

request-path : parse_thread_id request.url ≡ some (codes "t1")
unfolding parse_thread_id
request-path = refl

foreign_request-origin : is_origin_allowed origins foreign_request.origin ≡ false
unfolding is_origin_allowed text_eq
foreign_request-origin = refl

abbrev fifty : PageParams
fifty = record { limit = some 50; offset = none }

fifty-page : parse_page_params (some (natural 50)) none ≡ page fifty
unfolding parse_page_params
fifty-page = refl
