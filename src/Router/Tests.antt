-- ===== src/Router/Tests.antt =====
-- An agent that renews its token, and one that delegates, under a toy cipher: each message has the same
-- signature, a hash is the text itself, and there is one payload.
use hill90_app.Prelude.Exec.{ok}
use hill90_app.Prelude.Text.{Text, text_eq}
use hill90_app.Router.Token.{
  unescape_newlines, signed, claims, verify_model_router_token, get_private_key, Claims, Crypto,
  Config, Draw, TokenResult,
}
use hill90_app.Router.Token.RoundTrip.{IsSound, generate-ok, verify-generate}
use hill90_app.Router.Token.Verified.{IsVerified, verify_model_router_token-IsVerified}
use hill90_app.Router.Refresh.{
  truthy, renewed, selects, rotate, model_router_refresh_handler, Request, look_up,
  revoke_superseded, options_of, AgentRow, World, Run,
}
use hill90_app.Prelude.{
  String, eq_iff, differ, ◌++◌, none, ◌∙◌, ◌≢◌, inl, refl, false, [], ◌∷◌, some, true, inr, ◌≡◌,
  arith,
}
use hill90_app.Access.Auth.{bearer}
use hill90_app.Router.Refresh.Rotation.{refresh-single_use, stored}
use hill90_app.Router.Refresh.Chain.{identify-bearer, refresh-refresh, identified-rotates}
use hill90_app.Router.Refresh.Authorised.{refresh-IsAuthorised, IsAuthorised}
use hill90_app.Router.Refresh.Superseded.{IsRenewal}
use hill90_app.Router.Refresh.Races.{rotate-races, rotate-ok, Unrevoked, Holds}
use hill90_app.Router.Delegation.{
  delegation_private_key, request_of, delegated, DelegationTokenRequest, DelegationBody,
  delegation_claims, delegation_token_handler,
}
use hill90_app.Router.Delegation.Accepted.{
  delegation_token_handler-Signed, delegation_token_handler-verified, delegation_token_handler-ok,
}

abbrev toy : Claims → Crypto
toy payload = record {
  create_private_key = λ pem. ok pem;
  sign = λ key message. 7 ∷ [];
  verify = λ key message signature. text_eq signature (7 ∷ []);
  encode_header = λ alg. 1 ∷ [];
  decode_alg = λ header. ok (some "EdDSA");
  encode_claims = λ payload. 2 ∷ [];
  decode_claims = λ body. ok payload;
  sha256_hex = λ s. s;
}

abbrev config : Config
config = record {
  signing_private_key = some (5 ∷ []);
  internal_service_token = some (9 ∷ []);
  workload_v2 = false;
}

abbrev draw : Draw
draw = record { uuid = "j1"; secret_uuid = "s1"; now = 1000 }

abbrev run : Run
run = record { draw = draw; select = ok tt; update = ok tt; revoke = ok tt }

abbrev agent : AgentRow
agent = record {
  id = "u1";
  agent_id = "scout";
  status = "running";
  created_by = "owner";
  model_router_jti = some "j0";
  model_router_exp = some 900;
  model_router_refresh_hash = some "s0";
}

abbrev before : World
before = record { agents = agent ∷ []; revocations = []; audit_log = [] }

abbrev payload : Claims
payload = claims config (options_of agent) draw

abbrev c : Crypto
c = toy payload

has_key : get_private_key c config ≡ ok (5 ∷ [])
unfolding get_private_key unescape_newlines
has_key = refl

payload-IsSound : IsSound c (5 ∷ []) payload
unfolding text_eq
payload-IsSound = record {
  header-Lacks = (λ e. omega arith, tt);
  claims-Lacks = (λ e. omega arith, tt);
  signature-Lacks = (λ e. omega arith, tt);
  decode_alg-encode_header = refl;
  decode_claims-encode_claims = refl;
  verify-sign = refl;
}

abbrev token : Text
token = signed c (5 ∷ []) payload

abbrev fresh : TokenResult
fresh = record { token = token; jti = "j1"; refresh_secret = "s1"; expires_at = 4600 }

verify-generate_example :
    verify_model_router_token c config token false 4600 ≡ ok (claims config (options_of agent) draw)
verify-generate_example =
    verify-generate c config (options_of agent) draw (5 ∷ []) fresh false 4600 has_key
      payload-IsSound (generate-ok c config (options_of agent) draw (5 ∷ []) has_key)
      (inl (omega arith))

expired-verified :
    verify_model_router_token c config token true 9999 ≡ ok (claims config (options_of agent) draw)
expired-verified =
    verify-generate c config (options_of agent) draw (5 ∷ []) fresh true 9999 has_key
      payload-IsSound (generate-ok c config (options_of agent) draw (5 ∷ []) has_key) (inr refl)

verify_model_router_token-IsVerified_example :
    IsVerified c config token (claims config (options_of agent) draw)
verify_model_router_token-IsVerified_example =
    verify_model_router_token-IsVerified c config token true 9999
      (claims config (options_of agent) draw) expired-verified

abbrev request : Request
request = record { refresh_secret = some "s0"; authorization = some (bearer ++ token) }

abbrev again : Request
again = record { refresh_secret = some "s0"; authorization = none }

abbrev after : World
after = revoke_superseded config run agent (stored c agent fresh "s1" before)

found : look_up "scout" "s0" (agent ∷ []) ≡ some agent
unfolding look_up selects
found = refl

named : payload.sub ≡ some "scout"
unfolding claims
named = refl

verified : verify_model_router_token c config token true 1000 ≡ ok payload
verified =
    verify-generate c config (options_of agent) draw (5 ∷ []) fresh true 1000 has_key
      payload-IsSound (generate-ok c config (options_of agent) draw (5 ∷ []) has_key) (inr refl)

renews : model_router_refresh_handler c config run request before ≡ (renewed token "s1" 4600, after)
renews =
    identified-rotates c config run request before "scout" "s0" agent
      (identify-bearer c config 1000 "s0" token (5 ∷ []) payload "scout" has_key (differ refl)
        (differ refl) named verified)
      refl found
    ∙ rotate-ok c config run agent before (5 ∷ []) has_key refl

refresh-IsAuthorised_example :
    (agent : AgentRow) × IsAuthorised c config request before agent
    × (rotate c config run (some agent) before ≡ (renewed token "s1" 4600, after))
refresh-IsAuthorised_example =
    refresh-IsAuthorised c config run request before after token "s1" 4600 renews

refresh-single_use_example :
    (model_router_refresh_handler c config run again after) ≢ (renewed token "s2" 5000, after)
refresh-single_use_example =
    refresh-single_use c config config run run request again before after after "s0" "u1" token
      token "s1" "s2" 4600 5000 renews refl refl ((λ e. refl), tt) (differ refl)

refresh-refresh_example :
    IsRenewal
      (model_router_refresh_handler c config run
        (record { refresh_secret = some "s1"; authorization = some (bearer ++ token) })
        after).0
refresh-refresh_example =
    refresh-refresh c config run run request before after token (5 ∷ []) "s1" 4600 renews has_key
      (payload-IsSound, tt) refl refl (differ refl) (((differ refl), (differ refl)), tt)

other_run : Run
other_run = record run { draw = record { uuid = "j2"; secret_uuid = "s2"; now = 1000 } }

old-other : truthy agent.model_router_jti ≢ some "j1"
unfolding truthy
old-other e = absurd (ground (arith, e, eq_iff "j0" "j1"))

rotate-races_example :
    let first = rotate c config run (look_up "scout" "s0" before.agents) before in
    let second = rotate c config other_run (look_up "scout" "s0" before.agents) first.1 in
    IsRenewal first.0
    × IsRenewal second.0
    × Holds c agent other_run second.1.agents
    × Unrevoked "j1" second.1.revocations
unfolding other_run
rotate-races_example =
    rotate-races c config run other_run "scout" "s0" agent before (5 ∷ []) found has_key refl refl
      tt old-other

unrenewed : ¬ IsRenewal (model_router_refresh_handler c config run again after).0
unrenewed (t, next, exp, e) =
    let p = model_router_refresh_handler c config run again after in
    refresh-single_use c config config run run request again before after p.1 "s0" "u1" token t "s1"
      next 4600 exp renews refl refl ((λ e. refl), tt) (differ refl) (λ i. (e i, p.1))

abbrev body : DelegationBody
body = record {
  sub = some "scout";
  delegation_id = some "d1";
  parent_jti = some "j1";
  expires_at = some 2000;
}

abbrev delegation : DelegationTokenRequest
delegation = record { sub = "scout"; delegation_id = "d1"; parent_jti = "j1"; expires_at = 2000 }

abbrev d : Crypto
d = toy (delegation_claims delegation "j3" 1000)

abbrev delegated_token : Text
delegated_token = signed d (5 ∷ []) (delegation_claims delegation "j3" 1000)

given : request_of body ≡ some delegation
unfolding request_of
given = refl

has_delegation_key : delegation_private_key d config ≡ ok (5 ∷ [])
unfolding delegation_private_key
has_delegation_key = refl

plain : unescape_newlines (5 ∷ []) ≡ 5 ∷ []
unfolding unescape_newlines
plain = refl

delegates :
    delegation_token_handler d config "j3" 1000 (some (bearer ++ 9 ∷ [])) body
    ≡ delegated delegated_token "j3"
delegates =
    delegation_token_handler-ok d config "j3" 1000 body (9 ∷ []) delegation (5 ∷ []) refl given
      has_delegation_key

delegation_token_handler-Signed_example :
    (sent : Text) × (some (bearer ++ 9 ∷ []) ≡ some (bearer ++ sent))
    × (config.internal_service_token ≡ some sent)
    × (req : DelegationTokenRequest) × (key : Text) × (request_of body ≡ some req)
    × (◌≡◌ {A = String} "j3" "j3")
    × (delegation_private_key d config ≡ ok key)
    × (delegated_token ≡ signed d key (delegation_claims req "j3" 1000))
delegation_token_handler-Signed_example =
    delegation_token_handler-Signed d config "j3" "j3" 1000 (some (bearer ++ 9 ∷ [])) body
      delegated_token delegates

delegation-IsSound : IsSound d (5 ∷ []) (delegation_claims delegation "j3" 1000)
unfolding text_eq
delegation-IsSound = record {
  header-Lacks = (λ e. omega arith, tt);
  claims-Lacks = (λ e. omega arith, tt);
  signature-Lacks = (λ e. omega arith, tt);
  decode_alg-encode_header = refl;
  decode_claims-encode_claims = refl;
  verify-sign = refl;
}

delegation_token_handler-verified_example :
    verify_model_router_token d config delegated_token false 1999
    ≡ ok (delegation_claims delegation "j3" 1000)
delegation_token_handler-verified_example =
    delegation_token_handler-verified d config "j3" "j3" 1000 1999 (some (bearer ++ 9 ∷ [])) body
      delegation delegated_token (5 ∷ []) (5 ∷ []) delegates given refl plain has_delegation_key
      delegation-IsSound (omega arith)
