-- ===== src/Access/Auth.antt =====
-- services/api/src/middleware/auth.ts (`createRequireAuth`) and services/terminal-token.ts
-- (`verifyTerminalToken`). What `jsonwebtoken` and the key resolver do is a parameter: `decode`,
-- `get_signing_key`, and `verify` for RS256 and the configured issuer.
pub mod Boundary
use hill90_app.Prelude.{
  ℕ, Bool, true, false, Option, none, some, List, [], ◌∷◌, String, str_eq, length, drop, not, ◌||◌,
  if◌then◌else◌,
}
use hill90_app.Prelude.Exec.{Result, ok, thrown}
use hill90_app.Prelude.Text.{Text, codes, starts_with}
use hill90_app.Access.Roles.{Payload, roles_from}

-- `jwt.decode(token, { complete: true })`: null, a bare string, or the parts.
pub data Decoded (Header : Type 0) : Type 0 where
  undecodable bare_string : Decoded Header
  complete : Header → Decoded Header

pub data Reply : Type 0 where
  refused : ℕ → String → Reply
  next : Payload → Reply

pub record Principal : Type 0 where
  pub sub : String
  pub roles : List String
  pub exp : ℕ

abbrev pub bearer : Text
bearer = codes "Bearer "

-- `typeof payload.sub !== 'string' || payload.sub.length === 0`
pub subject : Payload → Option String
subject p = elim p.sub [ none ↦ none | some s ↦ if str_eq s "" then none else some s ]

module _ {Header Key : Type 0} (decode : Text → Decoded Header)
    (get_signing_key : Header → Result Key) (verify : Text → Key → Result Payload) where
  -- The claims that the middleware checks after the signature.
  check_claims : Payload → Reply
  unfolding subject
  check_claims payload = elim payload.exp [
    | none ↦ refused 401 "Token missing exp claim"
    | some _ ↦ elim (subject payload) [
      | none ↦ refused 401 "Token missing sub claim"
      | some _ ↦ next payload
    ]
  ]

  -- The `try` block; its `catch` answers for whatever is thrown in it.
  verified_reply : Result Payload → Reply
  unfolding check_claims
  verified_reply (thrown e) = refused 401 "Invalid or expired token"
  verified_reply (ok payload) = check_claims payload

  keyed_reply : Text → Result Key → Reply
  unfolding verified_reply
  keyed_reply token (thrown e) = refused 401 "Invalid or expired token"
  keyed_reply token (ok key) = verified_reply (verify token key)

  decoded_reply : Text → Decoded Header → Reply
  unfolding keyed_reply
  decoded_reply token undecodable = refused 401 "Invalid token"
  decoded_reply token bare_string = refused 401 "Invalid token"
  decoded_reply token (complete header) = keyed_reply token (get_signing_key header)

  unfoldable pub require_auth : Option Text → Reply
  unfolding decoded_reply
  require_auth none = refused 401 "Missing or invalid Authorization header"
  require_auth (some header) =
      if not (starts_with header bearer)
      then refused 401 "Missing or invalid Authorization header"
      else (let token = drop (length bearer) header in decoded_reply token (decode token))

  -- The terminal's verifier: every refusal is `null`.
  check_principal : String → Payload → Option Principal
  unfolding subject
  check_principal client payload = elim payload.exp [
    | none ↦ none
    | some exp ↦ elim (subject payload) [
      | none ↦ none
      | some sub ↦ some (record { sub = sub; roles = roles_from client payload; exp = exp })
    ]
  ]

  verified_principal : String → Result Payload → Option Principal
  unfolding check_principal
  verified_principal client (thrown e) = none
  verified_principal client (ok payload) = check_principal client payload

  keyed_principal : String → Text → Result Key → Option Principal
  unfolding verified_principal
  keyed_principal client token (thrown e) = none
  keyed_principal client token (ok key) = verified_principal client (verify token key)

  decoded_principal : String → Text → Decoded Header → Option Principal
  unfolding keyed_principal
  decoded_principal client token undecodable = none
  decoded_principal client token bare_string = none
  decoded_principal client token (complete header) =
      keyed_principal client token (get_signing_key header)

  pub verify_terminal_token : String → Text → Option Principal
  unfolding decoded_principal
  verify_terminal_token client token = decoded_principal client token (decode token)
