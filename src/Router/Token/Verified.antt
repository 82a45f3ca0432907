-- ===== src/Router/Token/Verified.antt =====
-- What an accepted token vouches for.
use hill90_app.Prelude.{
  refl, Bool-cases, str_eq, ap, ◌∙◌, none, String, List, Option, ℕ, ◌≡◌, inl, inr, Bool, true, some,
  [], ◌∷◌, ◌++◌, arith, eq_iff, Option-cases,
}
use hill90_app.Prelude.Exec.{thrown, Result, ok}
use hill90_app.Prelude.Text.{Text, split}
use hill90_app.Router.Token.{
  check_signature, decoded_payload, three, check_alg, verify_model_router_token, check_parts,
  Claims, Crypto, Config, get_private_key, check_payload,
}

-- The token is three segments under the key of the service, of this issuer and for this audience.
pub record IsVerified (c : Crypto) (config : Config) (token : Text) (payload : Claims)
    : Type 0 where
  pub key : Text
  pub header : Text
  pub body : Text
  pub signature : Text
  pub segments : split b'.' token ≡ header ∷ body ∷ signature ∷ []
  pub has_key : get_private_key c config ≡ ok key
  pub alg : c.decode_alg header ≡ ok (some "EdDSA")
  pub verified : c.verify key (header ++ b'.' ∷ body) signature ≡ true
  pub decoded : c.decode_claims body ≡ ok payload
  pub issuer : payload.iss ≡ some "hill90-api"
  pub audience : payload.aud ≡ some "hill90-model-router"

check_payload-claims :
    (allow_expired : Bool) (now : ℕ) (p q : Claims)
    → check_payload allow_expired now p ≡ ok q
    → (p ≡ q) × (p.iss ≡ some "hill90-api") × (p.aud ≡ some "hill90-model-router")
unfolding check_payload
check_payload-claims allow_expired now p q h = elim (Option-cases p.iss) [
  | inl e ↦ ground (arith, h, e)
  | inr (iss, e) ↦ elim (Option-cases p.aud) [
    | inl e' ↦ ground (arith, h, e, e')
    | inr (aud, e') ↦
        ground (arith, h, e, e', eq_iff iss "hill90-api", eq_iff aud "hill90-model-router")
  ]
]

three-parts : (l : List Text) (h p s : Text) → three l ≡ some (h, p, s) → l ≡ h ∷ p ∷ s ∷ []
unfolding three
three-parts [] h p s e = ground (arith, e)
three-parts (a ∷ []) h p s e = ground (arith, e)
three-parts (a ∷ b ∷ []) h p s e = ground (arith, e)
three-parts (a ∷ b ∷ d ∷ []) h p s e = ground (arith, e)
three-parts (a ∷ b ∷ d ∷ f ∷ l) h p s e = ground (arith, e)

-- What the checks after the segments leave, one test after the other.
record Checked (c : Crypto) (config : Config) (header body signature : Text) (payload : Claims)
    : Type 0 where
  key : Text
  has_key : get_private_key c config ≡ ok key
  alg : c.decode_alg header ≡ ok (some "EdDSA")
  verified : c.verify key (header ++ b'.' ∷ body) signature ≡ true
  decoded : c.decode_claims body ≡ ok payload
  issuer : payload.iss ≡ some "hill90-api"
  audience : payload.aud ≡ some "hill90-model-router"

decoded_payload-claims :
    (allow_expired : Bool) (now : ℕ) (r : Result Claims) (q : Claims)
    → decoded_payload allow_expired now r ≡ ok q
    → (r ≡ ok q) × (q.iss ≡ some "hill90-api") × (q.aud ≡ some "hill90-model-router")
unfolding decoded_payload
decoded_payload-claims allow_expired now (thrown e) q h = ground (arith, h)
decoded_payload-claims allow_expired now (ok p) q h =
    ground (arith, check_payload-claims allow_expired now p q h)

check_signature-verified :
    (c : Crypto) (header body signature key : Text) (allow_expired : Bool) (now : ℕ) (q : Claims)
    → check_signature c (header, body, signature) allow_expired now (ok key) ≡ ok q
    → (c.verify key (header ++ b'.' ∷ body) signature ≡ true)
      × (decoded_payload allow_expired now (c.decode_claims body) ≡ ok q)
unfolding check_signature
check_signature-verified c header body signature key allow_expired now q h = ground (arith, h)

check_signature-Checked :
    (c : Crypto) (config : Config) (header body signature : Text) (allow_expired : Bool) (now : ℕ)
    (r : Result Text) (q : Claims)
    → get_private_key c config ≡ r
    → c.decode_alg header ≡ ok (some "EdDSA")
    → check_signature c (header, body, signature) allow_expired now r ≡ ok q
    → Checked c config header body signature q
check_signature-Checked c config header body signature allow_expired now (thrown e) q k a h =
    absurd (unfold check_signature in ground (arith, h))
check_signature-Checked c config header body signature allow_expired now (ok key) q k a h =
    let v = check_signature-verified c header body signature key allow_expired now q h in
    let d = decoded_payload-claims allow_expired now (c.decode_claims body) q v.1 in
    record {
      key = key;
      has_key = k;
      alg = a;
      verified = v.0;
      decoded = d.0;
      issuer = d.1;
      audience = d.2;
    }

check_alg-Checked :
    (c : Crypto) (config : Config) (header body signature : Text) (allow_expired : Bool) (now : ℕ)
    (r : Result (Option String)) (q : Claims)
    → c.decode_alg header ≡ r
    → check_alg c config (header, body, signature) allow_expired now r ≡ ok q
    → Checked c config header body signature q
unfolding check_alg
check_alg-Checked c config header body signature allow_expired now (thrown e) q a h =
    absurd (ground (arith, h))
check_alg-Checked c config header body signature allow_expired now (ok none) q a h =
    absurd (ground (arith, h))
check_alg-Checked c config header body signature allow_expired now (ok (some alg)) q a h =
    elim (Bool-cases (str_eq alg "EdDSA")) [
      | inl e ↦
          check_signature-Checked c config header body signature allow_expired now
            (get_private_key c config) q refl
            (a ∙ ap (λ x. ok (some x)) (ground (arith, e, eq_iff alg "EdDSA")))
            (ground (arith, h, e))
      | inr e ↦ absurd (ground (arith, h, e))
    ]

check_parts-IsVerified :
    (c : Crypto) (config : Config) (token : Text) (allow_expired : Bool) (now : ℕ)
    (parts : Option (Text × Text × Text)) (q : Claims)
    → three (split b'.' token) ≡ parts
    → check_parts c config allow_expired now parts ≡ ok q
    → IsVerified c config token q
unfolding check_parts
check_parts-IsVerified c config token allow_expired now none q e h = absurd (ground (arith, h))
check_parts-IsVerified c config token allow_expired now (some (header, body, signature)) q e h =
    let k =
      check_alg-Checked c config header body signature allow_expired now (c.decode_alg header) q
        refl h in
    record {
      key = k.key;
      header = header;
      body = body;
      signature = signature;
      segments = three-parts (split b'.' token) header body signature e;
      has_key = k.has_key;
      alg = k.alg;
      verified = k.verified;
      decoded = k.decoded;
      issuer = k.issuer;
      audience = k.audience;
    }

-- A token that is accepted, whether or not an expired one is allowed, has three segments, names the
-- algorithm EdDSA, is signed by the key of the service over its first two segments, and gives the
-- claims of its second one, with this service as issuer and the model router as audience.
pub verify_model_router_token-IsVerified :
    (c : Crypto) (config : Config) (token : Text) (allow_expired : Bool) (now : ℕ) (q : Claims)
    → verify_model_router_token c config token allow_expired now ≡ ok q
    → IsVerified c config token q
unfolding verify_model_router_token
verify_model_router_token-IsVerified c config token allow_expired now q h =
    check_parts-IsVerified c config token allow_expired now (three (split b'.' token)) q refl h
