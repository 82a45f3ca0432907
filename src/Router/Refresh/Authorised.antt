-- ===== src/Router/Refresh/Authorised.antt =====
-- Who is given a new token.
use hill90_app.Access.Auth.{bearer}
use hill90_app.Prelude.Exec.{Result, ok, thrown}
use hill90_app.Prelude.Text.{Text, starts_with}
use hill90_app.Router.Token.{Claims, Crypto, Config, verify_model_router_token}
use hill90_app.Router.Token.Verified.{verify_model_router_token-IsVerified, IsVerified}
use hill90_app.Router.Refresh.{
  rejected, refresh_identified, Identity, rotate, renewed, refresh_selected, Run,
  model_router_refresh_handler, World, identify, look_up, selects, identify_secret, AgentRow,
  identify_claims, identify_bearer, Request, claimed, truthy,
}
use hill90_app.Prelude.{
  List, eq_iff, sym, In, ◌⊎◌, none, Bool-cases, drop, Option, ◌∷◌, true, ◌≡◌, some, String, ℕ,
  Option-cases, ◌++◌, ap, length, ◌∙◌, inl, inr, [], refl, arith,
}

-- The request carries a verified token that names `sub`, and the secret.
pub record IsIdentified (c : Crypto) (config : Config) (req : Request) (sub secret : String)
    : Type 0 where
  pub token : Text
  pub payload : Claims
  pub has_secret : req.refresh_secret ≡ some secret
  pub carried : req.authorization ≡ some (bearer ++ token)
  pub token-IsVerified : IsVerified c config token payload
  pub subject : payload.sub ≡ some sub

pub starts_with-split : (p s : Text) → starts_with s p ≡ true → s ≡ p ++ drop (length p) s
unfolding starts_with
starts_with-split [] s h = refl
starts_with-split (a ∷ p) [] h = absurd (ground (arith, h))
starts_with-split (a ∷ p) (b ∷ s) h =
    let e : b ≡ a = ground (arith, h) in
    let t : starts_with s p ≡ true = ground (arith, h) in
    ap (λ x. x ∷ s) e ∙ ap (λ l. a ∷ l) (starts_with-split p s t)

truthy-some : (o : Option String) (s : String) → truthy o ≡ some s → o ≡ some s
unfolding truthy
truthy-some none s h = h
truthy-some (some a) s h = ground (arith, h)

-- What the steps of `identify` leave, from the last one on.
identify_claims-claimed :
    (secret : String) (r : Result Claims) (sub secret' : String)
    → identify_claims secret r ≡ claimed sub secret'
    → (payload : Claims) × (r ≡ ok payload) × (payload.sub ≡ some sub) × (secret ≡ secret')
unfolding identify_claims
identify_claims-claimed secret (thrown e) sub secret' h = absurd (ground (arith, h))
identify_claims-claimed secret (ok p) sub secret' h = elim (Option-cases (truthy p.sub)) [
  | inl e ↦ absurd (ground (arith, h, e))
  | inr (s, e) ↦ (p, refl, truthy-some p.sub sub (ground (arith, h, e)), ground (arith, h, e))
]

identify_bearer-claimed :
    (c : Crypto) (config : Config) (now : ℕ) (secret : String) (header : Option Text)
    (sub secret' : String)
    → identify_bearer c config now secret header ≡ claimed sub secret'
    → (token : Text) × (header ≡ some (bearer ++ token))
      × (identify_claims secret (verify_model_router_token c config token true now)
          ≡ claimed sub secret')
unfolding identify_bearer
identify_bearer-claimed c config now secret none sub secret' h = absurd (ground (arith, h))
identify_bearer-claimed c config now secret (some header) sub secret' h =
    elim (Bool-cases (starts_with header bearer)) [
      | inl e ↦ (
        drop 7 header,
        ap (λ x. some x) (starts_with-split bearer header e),
        ground (arith, h, e),
      )
      | inr e ↦ absurd (ground (arith, h, e))
    ]

identify_secret-claimed :
    (c : Crypto) (config : Config) (now : ℕ) (header : Option Text) (o : Option String)
    (sub secret : String)
    → identify_secret c config now header o ≡ claimed sub secret
    → (s : String) × (o ≡ some s) × (identify_bearer c config now s header ≡ claimed sub secret)
unfolding identify_secret
identify_secret-claimed c config now header none sub secret h = absurd (ground (arith, h))
identify_secret-claimed c config now header (some s) sub secret h = (s, refl, h)

identify-IsIdentified :
    (c : Crypto) (config : Config) (now : ℕ) (req : Request) (sub secret : String)
    → identify c config now req ≡ claimed sub secret
    → IsIdentified c config req sub secret
unfolding identify
identify-IsIdentified c config now req sub secret h =
    let q : identify_secret c config now req.authorization (truthy req.refresh_secret)
        ≡ claimed sub secret =
      ground (arith, h) in
    let (s, e, b) =
      identify_secret-claimed c config now req.authorization (truthy req.refresh_secret) sub secret
        q in
    let (token, carried, k) =
      identify_bearer-claimed c config now s req.authorization sub secret b in
    let (p, v, subject, same) =
      identify_claims-claimed s (verify_model_router_token c config token true now) sub secret k in
    record {
      token = token;
      payload = p;
      has_secret = truthy-some req.refresh_secret s e ∙ ap (λ x. some x) same;
      carried = carried;
      token-IsVerified = verify_model_router_token-IsVerified c config token true now p v;
      subject = subject;
    }

-- A row that the query gives.
pub record IsSelected (sub hash : String) (row : AgentRow) : Type 0 where
  pub named : (row.agent_id ≡ sub) ⊎ (row.id ≡ sub)
  pub has_hash : row.model_router_refresh_hash ≡ some hash
  pub running : row.status ≡ "running"

selects-IsSelected :
    (sub hash : String) (row : AgentRow) → selects sub hash row ≡ true → IsSelected sub hash row
unfolding selects
selects-IsSelected sub hash row h = elim (Option-cases row.model_router_refresh_hash) [
  | inl e ↦ absurd (ground (arith, h, e))
  | inr (k, e) ↦ record {
    named = ground (arith, h, e, eq_iff row.agent_id sub, eq_iff row.id sub);
    has_hash = ground (arith, h, e, eq_iff k hash);
    running = ground (arith, h, e, eq_iff row.status "running");
  }
]

look_up-IsSelected :
    (sub hash : String) (rows : List AgentRow) (row : AgentRow)
    → look_up sub hash rows ≡ some row
    → In row rows × IsSelected sub hash row
unfolding look_up
look_up-IsSelected sub hash [] row h = absurd (ground (arith, h))
look_up-IsSelected sub hash (r ∷ rows) row h = elim (Bool-cases (selects sub hash r)) [
  | inl e ↦
      let same : r ≡ row = ground (arith, h, e) in
      (inl (sym same), selects-IsSelected sub hash row (sym (ap (selects sub hash) same) ∙ e))
  | inr e ↦ let (i, s) = look_up-IsSelected sub hash rows row (ground (arith, h, e)) in (inr i, s)
]

-- A renewal of the row `agent` of the table.
pub record IsAuthorised (c : Crypto) (config : Config) (req : Request) (s : World)
    (agent : AgentRow) : Type 0 where
  pub sub : String
  pub secret : String
  pub request-IsIdentified : IsIdentified c config req sub secret
  pub in_table : In agent s.agents
  pub agent-IsSelected : IsSelected sub (c.sha256_hex secret) agent

looked_up-chosen :
    (c : Crypto) (config : Config) (run : Run) (s s' : World) (o : Option AgentRow) (token : Text)
    (secret' : String) (exp : ℕ)
    → rotate c config run o s ≡ (renewed token secret' exp, s')
    → (agent : AgentRow) × (o ≡ some agent)
looked_up-chosen c config run s s' none token secret' exp h =
    absurd (unfold rotate in ground (arith, h))
looked_up-chosen c config run s s' (some agent) token secret' exp h = (agent, refl)

selected-chosen :
    (c : Crypto) (config : Config) (run : Run) (sub secret : String) (s s' : World)
    (r : Result (Unit {0})) (token : Text) (secret' : String) (exp : ℕ)
    → refresh_selected c config run sub secret s r ≡ (renewed token secret' exp, s')
    → rotate c config run (look_up sub (c.sha256_hex secret) s.agents) s
      ≡ (renewed token secret' exp, s')
unfolding refresh_selected
selected-chosen c config run sub secret s s' (thrown e) token secret' exp h =
    absurd (ground (arith, h))
selected-chosen c config run sub secret s s' (ok u) token secret' exp h = h

-- A token is renewed only for an agent that is running and whose stored hash is that of the
-- secret sent, with a bearer token that this service signed for the agent's slug or id, and the
-- renewal is that of `rotate` for this agent.
pub refresh-IsAuthorised :
    (c : Crypto) (config : Config) (run : Run) (req : Request) (s s' : World) (token : Text)
    (secret' : String) (exp : ℕ)
    → model_router_refresh_handler c config run req s ≡ (renewed token secret' exp, s')
    → (agent : AgentRow) × IsAuthorised c config req s agent
      × (rotate c config run (some agent) s ≡ (renewed token secret' exp, s'))
unfolding model_router_refresh_handler
refresh-IsAuthorised c config run req s s' token secret' exp h =
    by_identity (identify c config run.draw.now req) refl h
  where
    by_identity :
        (i : Identity)
        → identify c config run.draw.now req ≡ i
        → refresh_identified c config run s i ≡ (renewed token secret' exp, s')
        → (agent : AgentRow) × IsAuthorised c config req s agent
          × (rotate c config run (some agent) s ≡ (renewed token secret' exp, s'))
    by_identity (rejected status message) e k = absurd (ground (arith, k))
    by_identity (claimed sub secret) e k =
        let q = selected-chosen c config run sub secret s s' run.select token secret' exp k in
        let (agent, a) = looked_up-chosen c config run s s' _ token secret' exp q in
        let (i, sel) = look_up-IsSelected sub (c.sha256_hex secret) s.agents agent a in
        (
          agent,
          record {
            sub = sub;
            secret = secret;
            request-IsIdentified = identify-IsIdentified c config run.draw.now req sub secret e;
            in_table = i;
            agent-IsSelected = sel;
          },
          sym (ap (λ o. rotate c config run o s) a) ∙ q,
        )
