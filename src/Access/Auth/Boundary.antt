-- ===== src/Access/Auth/Boundary.antt =====
-- What the two boundaries let through, and that they agree.
use hill90_app.Prelude.{
  ◌≡◌, ◌≢◌, refl, inl, inr, true, Option, none, some, ◌++◌, String, arith, length, drop, ap,
  Bool-cases, Option-cases, ◌∙◌, sym, eq_iff,
}
use hill90_app.Prelude.Exec.{Result, ok, thrown}
use hill90_app.Prelude.Text.{Text, starts_with, starts_with-append}
use hill90_app.Access.Roles.{Payload, roles_from}
use hill90_app.Access.Auth.{
  Decoded, undecodable, bare_string, complete, Reply, refused, next, Principal, bearer, subject,
  require_auth, verify_terminal_token, verified_reply, keyed_reply, decoded_reply,
  verified_principal, keyed_principal, decoded_principal, check_claims, check_principal,
}

module _ {Header Key : Type 0} (decode : Text → Decoded Header)
    (get_signing_key : Header → Result Key) (verify : Text → Key → Result Payload) where
  -- The token was decoded, its key found and its signature accepted with these claims, which name
  -- a subject and an end.
  pub record IsVerified (token : Text) (p : Payload) : Type 0 where
    pub header : Header
    pub key : Key
    pub decoded : decode token ≡ complete header
    pub keyed : get_signing_key header ≡ ok key
    pub signed : verify token key ≡ ok p
    pub ends : p.exp ≢ none
    pub named : subject p ≢ none

  check_claims-next :
      (q p : Payload)
      → check_claims decode get_signing_key verify q ≡ next p
      → (q ≡ p) × (q.exp ≢ none) × (subject q ≢ none)
  unfolding check_claims
  check_claims-next q p e = ground arith

  verified_reply-next :
      (r : Result Payload) (p : Payload)
      → verified_reply decode get_signing_key verify r ≡ next p
      → (r ≡ ok p) × (p.exp ≢ none) × (subject p ≢ none)
  unfolding verified_reply
  verified_reply-next (thrown m) p e = cc
  verified_reply-next (ok q) p e =
      let (same, ends, named) = check_claims-next q p e in
      (ap ok same, rw same at ends, rw same at named)

  decoded_reply-next :
      (token : Text) (d : Decoded Header) (p : Payload)
      → decode token ≡ d
      → decoded_reply decode get_signing_key verify token d ≡ next p
      → IsVerified token p
  unfolding decoded_reply
  decoded_reply-next token undecodable p _ e = cc
  decoded_reply-next token bare_string p _ e = cc
  decoded_reply-next token (complete header) p decoded e = go (get_signing_key header) refl e
    where
      go :
          (k : Result Key)
          → get_signing_key header ≡ k
          → keyed_reply decode get_signing_key verify token k ≡ next p
          → IsVerified token p
      go (thrown m) _ e' = cc
      go (ok key) keyed e' =
          let (signed, ends, named) = verified_reply-next (verify token key) p e' in
          record {
            header = header;
            key = key;
            decoded = decoded;
            keyed = keyed;
            signed = signed;
            ends = ends;
            named = named;
          }

  -- A request that the middleware lets through carried a bearer token that was decoded, whose key
  -- was found and whose signature, issuer and algorithm were accepted, and the principal handed on
  -- is exactly the verified claims, with an end and a non-empty subject.
  pub require_auth-IsVerified :
      (header : Text) (p : Payload)
      → require_auth decode get_signing_key verify (some header) ≡ next p
      → (starts_with header bearer ≡ true) × IsVerified (drop (length bearer) header) p
  unfolding require_auth
  require_auth-IsVerified header p e = elim (Bool-cases (starts_with header bearer)) [
    | inl here ↦ (
      here,
      decoded_reply-next (drop (length bearer) header) (decode (drop (length bearer) header)) p refl
          (rw here at e),
    )
    | inr gone ↦ cc (rw gone at e)
  ]

  -- The principal that the terminal makes of the claims that the middleware accepts.
  pub principal_of : String → Reply → Option Principal
  principal_of client (refused status message) = none
  principal_of client (next payload) = elim payload.exp [
    | none ↦ none
    | some exp ↦ elim payload.sub [
      | none ↦ none
      | some sub ↦ some (record { sub = sub; roles = roles_from client payload; exp = exp })
    ]
  ]

  check_agree :
      (client : String) (p : Payload)
      → check_principal decode get_signing_key verify client p
        ≡ principal_of client (check_claims decode get_signing_key verify p)
  unfolding check_principal check_claims principal_of
  check_agree client p = ground arith

  verified_agree :
      (client : String) (r : Result Payload)
      → verified_principal decode get_signing_key verify client r
        ≡ principal_of client (verified_reply decode get_signing_key verify r)
  unfolding verified_principal verified_reply principal_of
  verified_agree client (thrown m) = refl
  verified_agree client (ok p) = check_agree client p

  keyed_agree :
      (client : String) (token : Text) (k : Result Key)
      → keyed_principal decode get_signing_key verify client token k
        ≡ principal_of client (keyed_reply decode get_signing_key verify token k)
  unfolding keyed_principal keyed_reply principal_of
  keyed_agree client token (thrown m) = refl
  keyed_agree client token (ok key) = verified_agree client (verify token key)

  decoded_agree :
      (client : String) (token : Text) (d : Decoded Header)
      → decoded_principal decode get_signing_key verify client token d
        ≡ principal_of client (decoded_reply decode get_signing_key verify token d)
  unfolding decoded_principal decoded_reply principal_of
  decoded_agree client token undecodable = refl
  decoded_agree client token bare_string = refl
  decoded_agree client token (complete header) = keyed_agree client token (get_signing_key header)

  agrees :
      (client : String) (token : Text)
      → verify_terminal_token decode get_signing_key verify client token
        ≡ principal_of client (require_auth decode get_signing_key verify (some (bearer ++ token)))
  unfolding verify_terminal_token require_auth
  agrees client token =
      rw (starts_with-append bearer token) (decoded_agree client token (decode token))

  -- The principal says who the claims are about, until when, and with which roles.
  pub record IsOf (client : String) (payload : Payload) (principal : Principal) : Type 0 where
    pub about : payload.sub ≡ some principal.sub
    pub named : principal.sub ≢ ""
    pub ends : payload.exp ≡ some principal.exp
    pub allowed : principal.roles ≡ roles_from client payload

  principal_of-IsOf :
      (client : String) (payload : Payload) (principal : Principal)
      → subject payload ≢ none
      → principal_of client (next payload) ≡ some principal
      → IsOf client payload principal
  unfolding principal_of subject
  principal_of-IsOf client payload principal h e = elim (Option-cases payload.exp) [
    | inl x ↦ absurd (ground (arith, x))
    | inr (exp, x) ↦ elim (Option-cases payload.sub) [
      | inl y ↦ absurd (ground (arith, x, y))
      | inr (sub, y) ↦
          let same : record { sub = sub; roles = roles_from client payload; exp = exp }
              ≡ principal =
            ground (arith, x, y) in
          record {
            about = ground (arith, y, same);
            named = λ q. h (ground (arith, y, q, same, eq_iff sub ""));
            ends = ground (arith, x, same);
            allowed = ground (arith, same);
          }
    ]
  ]

  principal_of-total :
      (client : String) (payload : Payload)
      → payload.exp ≢ none
      → subject payload ≢ none
      → (principal : Principal) × (principal_of client (next payload) ≡ some principal)
  unfolding principal_of subject
  principal_of-total client payload ends named = elim (Option-cases payload.exp) [
    | inl x ↦ absurd (ends x)
    | inr (exp, x) ↦ elim (Option-cases payload.sub) [
      | inl y ↦ absurd (named (ground (arith, y)))
      | inr (sub, y) ↦
          (record { sub = sub; roles = roles_from client payload; exp = exp }, ground (arith, x, y))
    ]
  ]

  -- What the terminal and the HTTP boundary make of a token.
  pub record IsAgreed (client : String) (token : Text) : Type 0 where
    pub passed_on :
        (payload : Payload)
        → require_auth decode get_signing_key verify (some (bearer ++ token)) ≡ next payload
        → (principal : Principal) × (verify_terminal_token decode get_signing_key verify client
              token
            ≡ some principal)
          × IsOf client payload principal
    pub admitted :
        (principal : Principal)
        → verify_terminal_token decode get_signing_key verify client token ≡ some principal
        → (payload : Payload) × (require_auth decode get_signing_key verify (some (bearer ++ token))
            ≡ next payload)
          × IsOf client payload principal

  -- The terminal accepts a token exactly if the HTTP boundary accepts it as a bearer token: with the same
  -- verifier, each claims that the boundary passes on make a principal of the terminal, and each principal comes
  -- of claims that the boundary passes on. It has their subject, which is not empty, their end and their roles.
  pub verify_terminal_token-require_auth : (client : String) (token : Text) → IsAgreed client token
  verify_terminal_token-require_auth client token = record {
    passed_on = λ payload e.
        let verified = (require_auth-IsVerified (bearer ++ token) payload e).1 in
        let (principal, made) = principal_of-total client payload verified.ends verified.named in
        (
          principal,
          agrees client token ∙ ap (principal_of client) e ∙ made,
          principal_of-IsOf client payload principal verified.named made,
        );
    admitted = λ principal e.
        go principal (require_auth decode get_signing_key verify (some (bearer ++ token))) refl
          (sym (agrees client token) ∙ e);
  }
    where
      go :
          (principal : Principal) (r : Reply)
          → require_auth decode get_signing_key verify (some (bearer ++ token)) ≡ r
          → principal_of client r ≡ some principal
          → (payload : Payload) × (require_auth decode get_signing_key verify
                (some (bearer ++ token))
              ≡ next payload)
            × IsOf client payload principal
      go principal (refused status message) e made =
          absurd (unfold principal_of in ground (arith, made))
      go principal (next payload) e made = (
        payload,
        e,
        principal_of-IsOf client payload principal
            (require_auth-IsVerified (bearer ++ token) payload e).1.named made,
      )
