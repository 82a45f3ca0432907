-- ===== src/Router/Token/RoundTrip.antt =====
-- A token that was minted is accepted.
use mathlib.Core.List.{append_assoc}
use hill90_app.Prelude.{
  ◌+◌, ℕ, ◌≤◌, ◌≡◌, ◌⊎◌, ◌∙◌, refl, ap, Bool, true, some, [], ◌∷◌, ◌++◌, arith,
}
use hill90_app.Prelude.Exec.{ok}
use hill90_app.Prelude.Text.{Text, Lacks, split, split-append, split-Lacks}
use hill90_app.Router.Token.{
  Claims, Crypto, Config, Draw, TokenOptions, TokenResult, get_private_key, claims, signing_input,
  signed, minted, generate_agent_model_router_token, three, check_payload, decoded_payload,
  check_signature, check_alg, check_parts, verify_model_router_token,
}

-- What the token code relies on for one key and one payload: base64url has no dot, a payload and
-- the algorithm of a header are read back as written, and a signature verifies.
pub record IsSound (c : Crypto) (key : Text) (payload : Claims) : Type 0 where
  pub header-Lacks : Lacks b'.' (c.encode_header "EdDSA")
  pub claims-Lacks : Lacks b'.' (c.encode_claims payload)
  pub signature-Lacks : Lacks b'.' (c.sign key (signing_input c payload))
  pub decode_alg-encode_header : c.decode_alg (c.encode_header "EdDSA") ≡ ok (some "EdDSA")
  pub decode_claims-encode_claims : c.decode_claims (c.encode_claims payload) ≡ ok payload
  pub verify-sign :
      c.verify key (signing_input c payload) (c.sign key (signing_input c payload)) ≡ true

split-signed :
    (c : Crypto) (key : Text) (payload : Claims)
    → IsSound c key payload
    → split b'.' (signed c key payload)
      ≡ c.encode_header "EdDSA"
        ∷ c.encode_claims payload
        ∷ c.sign key (signing_input c payload)
        ∷ []
split-signed c key payload sound =
    let h = c.encode_header "EdDSA" in
    let p = c.encode_claims payload in
    let s = c.sign key (signing_input c payload) in
    ap (λ t. split b'.' t) (append_assoc h (b'.' ∷ p) (b'.' ∷ s))
    ∙ split-append b'.' h (p ++ b'.' ∷ s) sound.header-Lacks
    ∙ ap (λ l. h ∷ l) (split-append b'.' p s sound.claims-Lacks)
    ∙ ap (λ l. h ∷ p ∷ l) (split-Lacks b'.' s sound.signature-Lacks)

-- A signed payload is read back when the checks of its claims pass.
pub verify-signed :
    (c : Crypto) (config : Config) (key : Text) (payload : Claims) (allow_expired : Bool) (now : ℕ)
    → get_private_key c config ≡ ok key
    → IsSound c key payload
    → verify_model_router_token c config (signed c key payload) allow_expired now
      ≡ check_payload allow_expired now payload
unfolding verify_model_router_token three check_parts check_alg check_signature decoded_payload
verify-signed c config key payload allow_expired now has_key sound =
    rw
      (
        split-signed c key payload sound,
        sound.decode_alg-encode_header,
        has_key,
        sound.verify-sign,
        sound.decode_claims-encode_claims,
      )
      refl

pub generate-ok :
    (c : Crypto) (config : Config) (opts : TokenOptions) (draw : Draw) (key : Text)
    → get_private_key c config ≡ ok key
    → generate_agent_model_router_token c config opts draw
      ≡ ok (record {
        token = signed c key (claims config opts draw);
        jti = draw.uuid;
        refresh_secret = draw.secret_uuid;
        expires_at = draw.now + 3600;
      })
unfolding generate_agent_model_router_token minted
generate-ok c config opts draw key has_key = rw has_key refl

minted-token :
    (c : Crypto) (config : Config) (opts : TokenOptions) (draw : Draw) (key : Text)
    (r : TokenResult)
    → get_private_key c config ≡ ok key
    → generate_agent_model_router_token c config opts draw ≡ ok r
    → r.token ≡ signed c key (claims config opts draw)
unfolding generate_agent_model_router_token minted
minted-token c config opts draw key r has_key h = ground (arith, has_key, h)

-- A token that was minted under a key is accepted under it and read back as the claims minted, up to
-- and in the second of its expiry, and after it where an expired token is allowed.
pub verify-generate :
    (c : Crypto) (config : Config) (opts : TokenOptions) (draw : Draw) (key : Text)
    (r : TokenResult) (allow_expired : Bool) (now : ℕ)
    → get_private_key c config ≡ ok key
    → IsSound c key (claims config opts draw)
    → generate_agent_model_router_token c config opts draw ≡ ok r
    → (now ≤ r.expires_at) ⊎ (allow_expired ≡ true)
    → verify_model_router_token c config r.token allow_expired now ≡ ok (claims config opts draw)
verify-generate c config opts draw key r allow_expired now has_key sound h valid =
    ap (λ t. verify_model_router_token c config t allow_expired now)
      (minted-token c config opts draw key r has_key h)
    ∙ verify-signed c config key (claims config opts draw) allow_expired now has_key sound
    ∙ in_time
  where
    in_time :
        check_payload allow_expired now (claims config opts draw) ≡ ok (claims config opts draw)
    in_time =
        unfold check_payload claims generate_agent_model_router_token minted in
        ground (arith, h, valid, has_key)
