-- ===== src/Router/Delegation/Accepted.antt =====
-- Who is given a token for a delegated agent, and that the model router's check takes it.
use hill90_app.Access.Auth.{bearer}
use hill90_app.Prelude.Exec.{Result-cases, ok}
use hill90_app.Prelude.Text.{starts_with-append, Text, starts_with, text_eq_iff}
use hill90_app.Router.Token.{
  check_payload, get_private_key, unescape_newlines, Crypto, Config, signed,
  verify_model_router_token,
}
use hill90_app.Router.Token.RoundTrip.{IsSound, verify-signed}
use hill90_app.Router.Refresh.Authorised.{starts_with-split}
use hill90_app.Router.Delegation.{
  sign_with, reply_to_body, check_service_token, DelegationTokenRequest, DelegationBody, delegated,
  delegation_private_key, delegation_claims, request_of, delegation_token_handler,
}
use hill90_app.Prelude.{
  length, ==_iff, false, ◌⊎◌, true, Bool, ◌≤◌, inr, some, drop, ◌++◌, ◌≡◌, none, inl, Option, sym,
  ℕ, ◌∙◌, ap, Bool-cases, refl, String, arith,
}

reply_to_body-delegated :
    (c : Crypto) (config : Config) (jti jti' : String) (now : ℕ) (o : Option DelegationTokenRequest)
    (token : Text)
    → reply_to_body c config jti now o ≡ delegated token jti'
    → (req : DelegationTokenRequest) × (key : Text) × (o ≡ some req)
      × (jti' ≡ jti)
      × (delegation_private_key c config ≡ ok key)
      × (token ≡ signed c key (delegation_claims req jti now))
unfolding reply_to_body
reply_to_body-delegated c config jti jti' now none token h = absurd (ground (arith, h))
reply_to_body-delegated c config jti jti' now (some req) token h =
    elim (Result-cases (delegation_private_key c config)) [
      | inl (key, e) ↦
          let q = sym (ap (sign_with c req jti now) e) ∙ h in
          unfold sign_with in (req, key, refl, ground (arith, q), e, ground (arith, q))
      | inr (x, e) ↦
          let q = sym (ap (sign_with c req jti now) e) ∙ h in
          absurd (unfold sign_with in ground (arith, q))
    ]

check_service_token-delegated :
    (c : Crypto) (config : Config) (jti jti' : String) (now : ℕ) (body : DelegationBody)
    (sent : Text) (o : Option Text) (token : Text)
    → check_service_token c config jti now body sent o ≡ delegated token jti'
    → (o ≡ some sent) × (reply_to_body c config jti now (request_of body) ≡ delegated token jti')
unfolding check_service_token
check_service_token-delegated c config jti jti' now body sent none token h =
    absurd (ground (arith, h))
check_service_token-delegated c config jti jti' now body sent (some expected) token h =
    ground (arith, h, text_eq_iff expected sent)

-- A token is given only to a caller that sends the service token, for a body whose four fields are
-- there; it is signed with the key as it stands in the environment, for the claims of the body.
pub delegation_token_handler-Signed :
    (c : Crypto) (config : Config) (jti jti' : String) (now : ℕ) (header : Option Text)
    (body : DelegationBody) (token : Text)
    → delegation_token_handler c config jti now header body ≡ delegated token jti'
    → (sent : Text) × (header ≡ some (bearer ++ sent))
      × (config.internal_service_token ≡ some sent)
      × (req : DelegationTokenRequest) × (key : Text) × (request_of body ≡ some req)
      × (jti' ≡ jti)
      × (delegation_private_key c config ≡ ok key)
      × (token ≡ signed c key (delegation_claims req jti now))
unfolding delegation_token_handler
delegation_token_handler-Signed c config jti jti' now none body token h = absurd (ground (arith, h))
delegation_token_handler-Signed c config jti jti' now (some header) body token h =
    elim (Bool-cases (starts_with header bearer)) [
      | inl e ↦
          let sent = drop 7 header in
          let q : check_service_token c config jti now body sent config.internal_service_token
              ≡ delegated token jti' =
            ground (arith, h, e) in
          let (same, r) = check_service_token-delegated c config jti jti' now body sent _ token q in
          let (req, key, a, b, k, t) =
            reply_to_body-delegated c config jti jti' now (request_of body) token r in
          (sent, ap (λ x. some x) (starts_with-split bearer header e), same, req, key, a, b, k, t)
      | inr e ↦ absurd (ground (arith, h, e))
    ]

same_key :
    (c : Crypto) (config : Config) (pem key : Text)
    → config.signing_private_key ≡ some pem
    → unescape_newlines pem ≡ pem
    → delegation_private_key c config ≡ ok key
    → get_private_key c config ≡ ok key
unfolding delegation_private_key get_private_key
same_key c config pem key e plain h = ground (arith, e, plain, h)

delegation_claims-check :
    (req : DelegationTokenRequest) (jti : String) (now later : ℕ) (allow_expired : Bool)
    → (later ≤ req.expires_at) ⊎ (allow_expired ≡ true)
    → check_payload allow_expired later (delegation_claims req jti now)
      ≡ ok (delegation_claims req jti now)
unfolding check_payload delegation_claims
delegation_claims-check req jti now later allow_expired valid = ground (arith, valid)

-- Where the key stands in the environment without an escaped line break, a token that was given is
-- accepted by the check of the agents' tokens until it expires, and read back as the claims of the
-- body.
pub delegation_token_handler-verified :
    (c : Crypto) (config : Config) (jti jti' : String) (now later : ℕ) (header : Option Text)
    (body : DelegationBody) (req : DelegationTokenRequest) (token pem key : Text)
    → delegation_token_handler c config jti now header body ≡ delegated token jti'
    → request_of body ≡ some req
    → config.signing_private_key ≡ some pem
    → unescape_newlines pem ≡ pem
    → delegation_private_key c config ≡ ok key
    → IsSound c key (delegation_claims req jti now)
    → later ≤ req.expires_at
    → verify_model_router_token c config token false later ≡ ok (delegation_claims req jti now)
delegation_token_handler-verified c config jti jti' now later header body req token pem key h b p
      plain k sound valid =
    let (_, _, _, req', key', b', _, k', t) =
      delegation_token_handler-Signed c config jti jti' now header body token h in
    let same_req : req' ≡ req = ground (arith, b, b') in
    let same : key' ≡ key = ground (arith, k, k') in
    ap (λ x. verify_model_router_token c config x false later)
      (t
        ∙ ap (λ x. signed c x (delegation_claims req' jti now)) same
        ∙ ap (λ x. signed c key (delegation_claims x jti now)) same_req)
    ∙ verify-signed c config key (delegation_claims req jti now) false later
        (same_key c config pem key p plain k) sound
    ∙ delegation_claims-check req jti now later false (inl valid)

-- A caller that sends the service token and four fields is given a token when there is a key.
pub delegation_token_handler-ok :
    (c : Crypto) (config : Config) (jti : String) (now : ℕ) (body : DelegationBody) (sent : Text)
    (req : DelegationTokenRequest) (key : Text)
    → config.internal_service_token ≡ some sent
    → request_of body ≡ some req
    → delegation_private_key c config ≡ ok key
    → delegation_token_handler c config jti now (some (bearer ++ sent)) body
      ≡ delegated (signed c key (delegation_claims req jti now)) jti
unfolding delegation_token_handler check_service_token reply_to_body sign_with
    delegation_private_key
delegation_token_handler-ok c config jti now body sent req key e b k =
    rw (starts_with-append bearer sent) (
      rw e (
        rw ((text_eq_iff sent sent).1 refl)
          (rw ((==_iff (length sent) (length sent)).1 refl) (rw b (rw k refl)))))
