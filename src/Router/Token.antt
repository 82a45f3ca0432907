-- ===== src/Router/Token.antt =====
-- services/api/src/services/model-router-token.ts: the token that an agent holds. Cryptography and
-- JSON are a parameter, `Crypto`, in base64url throughout. A message that quotes a value stands
-- here without it.
pub mod RoundTrip
pub mod Verified
use hill90_app.Prelude.{
  ℕ, ◌+◌, Bool, false, Option, none, some, List, [], ◌∷◌, ◌++◌, String, str_eq, ltb, is_some,
  or_else, not, ◌&&◌, ◌==◌, if◌then◌else◌,
}
use hill90_app.Prelude.Exec.{Result, ok, thrown}
use hill90_app.Prelude.Text.{Text, split}

-- The claims of a payload. One that is missing or of another type is `none`; the times are seconds.
pub record Claims : Type 0 where
  pub sub : Option String
  pub principal_type : Option String
  pub iss : Option String
  pub aud : Option String
  pub exp : Option ℕ
  pub iat : Option ℕ
  pub jti : Option String
  pub owner : Option String
  pub scopes : Option (List String)
  pub agent_slug : Option String
  pub correlation_id : Option String
  pub delegation_id : Option String
  pub parent_jti : Option String

-- What `crypto` and `JSON` give, Ed25519 with the public key that belongs to the private one.
-- `decode_alg` reads the `alg` of a header.
pub record Crypto : Type 0 where
  pub create_private_key : Text → Result Text
  pub sign : Text → Text → Text
  pub verify : Text → Text → Text → Bool
  pub encode_header : String → Text
  pub decode_alg : Text → Result (Option String)
  pub encode_claims : Claims → Text
  pub decode_claims : Text → Result Claims
  pub sha256_hex : String → String

-- The process environment. A variable that is empty counts as missing, as in the source.
pub record Config : Type 0 where
  pub signing_private_key : Option Text
  pub internal_service_token : Option Text
  pub workload_v2 : Bool

-- The two random UUIDs of a mint, and the clock.
pub record Draw : Type 0 where
  pub uuid : String
  pub secret_uuid : String
  pub now : ℕ

pub record TokenOptions : Type 0 where
  pub agent_slug : String
  pub agent_uuid : String
  pub owner : String
  pub scopes : Option (List String)
  pub correlation_id : Option String

pub record TokenResult : Type 0 where
  pub token : Text
  pub jti : String
  pub refresh_secret : String
  pub expires_at : ℕ

-- The call with an id and an owner.
legacy : String → String → TokenOptions
legacy agent_id owner = record {
  agent_slug = agent_id;
  agent_uuid = agent_id;
  owner = owner;
  scopes = some [];
  correlation_id = none;
}

-- `replace(/\\n/g, '\n')`
after_backslash : Text → Text
after_backslash [] = b'\\' ∷ []
after_backslash (c ∷ s) = if c == b'n' then 10 ∷ s else b'\\' ∷ c ∷ s

unfoldable pub unescape_newlines : Text → Text
unfolding after_backslash
unescape_newlines [] = []
unescape_newlines (c ∷ s) =
    let rest = unescape_newlines s in if c == b'\\' then after_backslash rest else c ∷ rest

unfoldable pub get_private_key : Crypto → Config → Result Text
get_private_key c config = elim config.signing_private_key [
  | none ↦ thrown "MODEL_ROUTER_SIGNING_PRIVATE_KEY not configured"
  | some pem ↦ c.create_private_key (unescape_newlines pem)
]

-- `if (correlationId)`
non_empty : Option String → Option String
non_empty none = none
non_empty (some s) = if str_eq s "" then none else some s

unfoldable pub claims : Config → TokenOptions → Draw → Claims
unfolding non_empty
claims config opts draw = record {
  sub = some (if config.workload_v2 then opts.agent_uuid else opts.agent_slug);
  principal_type = some "agent";
  iss = some "hill90-api";
  aud = some "hill90-model-router";
  exp = some (draw.now + 3600);
  iat = some draw.now;
  jti = some draw.uuid;
  owner = some opts.owner;
  scopes = some (or_else opts.scopes []);
  agent_slug = if config.workload_v2 then some opts.agent_slug else none;
  correlation_id = non_empty opts.correlation_id;
  delegation_id = none;
  parent_jti = none;
}

abbrev pub signing_input : Crypto → Claims → Text
signing_input c payload = c.encode_header "EdDSA" ++ b'.' ∷ c.encode_claims payload

abbrev pub signed : Crypto → Text → Claims → Text
signed c key payload = signing_input c payload ++ b'.' ∷ c.sign key (signing_input c payload)

minted : Crypto → Config → TokenOptions → Draw → Result Text → Result TokenResult
minted c config opts draw (thrown e) = thrown e
minted c config opts draw (ok key) = ok (record {
  token = signed c key (claims config opts draw);
  jti = draw.uuid;
  refresh_secret = draw.secret_uuid;
  expires_at = draw.now + 3600;
})

pub generate_agent_model_router_token : Crypto → Config → TokenOptions → Draw → Result TokenResult
unfolding minted
generate_agent_model_router_token c config opts draw =
    minted c config opts draw (get_private_key c config)

-- The segments of a token; more or fewer than three are refused.
three : List Text → Option (Text × Text × Text)
three (header ∷ payload ∷ signature ∷ []) = some (header, payload, signature)
three _ = none

unfoldable pub check_payload : Bool → ℕ → Claims → Result Claims
check_payload allow_expired now payload =
    if not (elim payload.iss [ none ↦ false | some iss ↦ str_eq iss "hill90-api" ])
    then thrown "unexpected issuer"
    else if not (elim payload.aud [ none ↦ false | some aud ↦ str_eq aud "hill90-model-router" ])
    then thrown "unexpected audience"
    else if not allow_expired && (elim payload.exp [ none ↦ false | some exp ↦ ltb exp now ])
    then thrown "token has expired"
    else ok payload

decoded_payload : Bool → ℕ → Result Claims → Result Claims
unfolding check_payload
decoded_payload allow_expired now (thrown e) = thrown e
decoded_payload allow_expired now (ok payload) = check_payload allow_expired now payload

check_signature : Crypto → Text × Text × Text → Bool → ℕ → Result Text → Result Claims
unfolding decoded_payload
check_signature c parts allow_expired now (thrown e) = thrown e
check_signature c (header, payload, signature) allow_expired now (ok key) =
    if not (c.verify key (header ++ b'.' ∷ payload) signature)
    then thrown "JWT signature does not verify"
    else decoded_payload allow_expired now (c.decode_claims payload)

check_alg : Crypto → Config → Text × Text × Text → Bool → ℕ → Result (Option String) → Result Claims
unfolding check_signature
check_alg c config parts allow_expired now (thrown e) = thrown e
check_alg c config parts allow_expired now (ok none) = thrown "unexpected JWT alg"
check_alg c config parts allow_expired now (ok (some alg)) =
    if not (str_eq alg "EdDSA")
    then thrown "unexpected JWT alg"
    else check_signature c parts allow_expired now (get_private_key c config)

check_parts : Crypto → Config → Bool → ℕ → Option (Text × Text × Text) → Result Claims
unfolding check_alg
check_parts c config allow_expired now none = thrown "malformed JWT: expected three segments"
check_parts c config allow_expired now (some (header, payload, signature)) =
    check_alg c config (header, payload, signature) allow_expired now (c.decode_alg header)

-- `allow_expired` is `opts.allowExpired`, `now` the clock in seconds.
pub verify_model_router_token : Crypto → Config → Text → Bool → ℕ → Result Claims
unfolding three check_parts
verify_model_router_token c config token allow_expired now =
    check_parts c config allow_expired now (three (split b'.' token))

unfoldable pub is_model_router_configured : Config → Bool
is_model_router_configured config = is_some config.signing_private_key
