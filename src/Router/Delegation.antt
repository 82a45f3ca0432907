-- ===== src/Router/Delegation.antt =====
-- services/api/src/services/model-router-delegation.ts: the token of a delegated agent, which the AI
-- service asks for.
pub mod Accepted
use hill90_app.Access.Auth.{bearer}
use hill90_app.Prelude.Exec.{Result, ok, thrown}
use hill90_app.Prelude.Text.{Text, starts_with, text_eq}
use hill90_app.Router.Token.{Claims, Crypto, Config, signed}
use hill90_app.Prelude.{not, none, if◌then◌else◌, ◌||◌, Option, ℕ, length, some, ◌==◌, drop, String}

pub record DelegationTokenRequest : Type 0 where
  pub sub : String
  pub delegation_id : String
  pub parent_jti : String
  pub expires_at : ℕ

-- `get_private_key` of this file, which takes the variable as it stands.
unfoldable pub delegation_private_key : Crypto → Config → Result Text
delegation_private_key c config = elim config.signing_private_key [
  | none ↦ thrown "MODEL_ROUTER_SIGNING_PRIVATE_KEY not configured"
  | some pem ↦ c.create_private_key pem
]

pub delegation_claims : DelegationTokenRequest → String → ℕ → Claims
delegation_claims req jti now = record {
  sub = some req.sub;
  principal_type = none;
  iss = some "hill90-api";
  aud = some "hill90-model-router";
  exp = some req.expires_at;
  iat = some now;
  jti = some jti;
  owner = none;
  scopes = none;
  agent_slug = none;
  correlation_id = none;
  delegation_id = some req.delegation_id;
  parent_jti = some req.parent_jti;
}

pub data DelegationReply : Type 0 where
  delegation_refused : ℕ → String → DelegationReply
  delegated : Text → String → DelegationReply

-- The `catch` of the handler answers for what the signing throws; its message is left off.
sign_with : Crypto → DelegationTokenRequest → String → ℕ → Result Text → DelegationReply
unfolding delegation_claims
sign_with c req jti now (thrown e) = delegation_refused 500 "Token signing failed"
sign_with c req jti now (ok key) = delegated (signed c key (delegation_claims req jti now)) jti

-- The body, whose fields are `none` where they are missing or falsy. The code takes a truthy value of any type;
-- the fields have their types here.
pub record DelegationBody : Type 0 where
  pub sub : Option String
  pub delegation_id : Option String
  pub parent_jti : Option String
  pub expires_at : Option ℕ

unfoldable pub request_of : DelegationBody → Option DelegationTokenRequest
request_of body = elim body.sub [
  | none ↦ none
  | some sub ↦ elim body.delegation_id [
    | none ↦ none
    | some delegation_id ↦ elim body.parent_jti [
      | none ↦ none
      | some parent_jti ↦ elim body.expires_at [
        | none ↦ none
        | some expires_at ↦ some (record {
          sub = sub;
          delegation_id = delegation_id;
          parent_jti = parent_jti;
          expires_at = expires_at;
        })
      ]
    ]
  ]
]

reply_to_body : Crypto → Config → String → ℕ → Option DelegationTokenRequest → DelegationReply
unfolding sign_with
reply_to_body c config jti now none = delegation_refused 400 "Missing required fields"
reply_to_body c config jti now (some req) =
    sign_with c req jti now (delegation_private_key c config)

check_service_token :
    Crypto → Config → String → ℕ → DelegationBody → Text → Option Text → DelegationReply
unfolding reply_to_body request_of
check_service_token c config jti now body token none =
    delegation_refused 503 "Service token not configured"
check_service_token c config jti now body token (some expected) =
    if not (length expected == length token) || not (text_eq expected token)
    then delegation_refused 403 "Invalid service token"
    else reply_to_body c config jti now (request_of body)

-- `jti` is the random UUID, `now` the clock in seconds.
pub delegation_token_handler :
    Crypto → Config → String → ℕ → Option Text → DelegationBody → DelegationReply
unfolding check_service_token
delegation_token_handler c config jti now none body = delegation_refused 403 "Missing service token"
delegation_token_handler c config jti now (some header) body =
    if not (starts_with header bearer)
    then delegation_refused 403 "Missing service token"
    else check_service_token c config jti now body (drop (length bearer) header)
        config.internal_service_token
