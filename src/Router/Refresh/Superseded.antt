-- ===== src/Router/Refresh/Superseded.antt =====
-- The token that a renewal supersedes, and the answers that change nothing.
use hill90_app.Prelude.Exec.{Result, ok, thrown}
use hill90_app.Router.Refresh.Authorised.{refresh-IsAuthorised}
use hill90_app.Router.Refresh.Rotation.{revoke_superseded-agents, rotate-stores, stored}
use hill90_app.Router.Token.{Crypto, Config, TokenResult, generate_agent_model_router_token}
use hill90_app.Router.Refresh.{
  revoke_agent_model_router_token, audited, revoke_superseded, token_revoked, truthy, rotate_minted,
  refresh_identified, refresh_selected, store_and_revoke, model_router_refresh_handler, Text,
  AgentRow, World, Request, Run, Reply, renewed, Identity, rejected, claimed, identify, look_up,
  rotate, options_of,
}
use hill90_app.Prelude.{
  arith, Option-cases, In, [], ◌∷◌, ◌++◌, ap, inl, String, ◌∙◌, ℕ, refl, Option, some, ◌≡◌, inr,
  none, List, sym, ◌⊎◌,
}

abbrev pub IsRenewal : Reply → Type 0
IsRenewal reply =
    (token : Text) × (secret : String) × (exp : ℕ) × (reply ≡ renewed token secret exp)

-- Either a renewal, or nothing has changed.
abbrev KeptUnlessRenewed : World → Reply × World → Type 0
KeptUnlessRenewed s p = IsRenewal p.0 ⊎ (p.1 ≡ s)

rotate-kept :
    (c : Crypto) (config : Config) (run : Run) (o : Option AgentRow) (s : World)
    → KeptUnlessRenewed s (rotate c config run o s)
unfolding rotate
rotate-kept c config run none s = inr refl
rotate-kept c config run (some agent) s =
    by_mint (generate_agent_model_router_token c config (options_of agent) run.draw)
  where
    by_update :
        (t : TokenResult) (r : Result (Unit {0}))
        → KeptUnlessRenewed s (store_and_revoke c config run agent s r t)
    by_update t (thrown e) = unfold store_and_revoke in inr refl
    by_update t (ok u) =
        unfold store_and_revoke in inl (t.token, t.refresh_secret, t.expires_at, refl)

    by_mint : (r : Result TokenResult) → KeptUnlessRenewed s (rotate_minted c config run agent s r)
    by_mint (thrown e) = unfold rotate_minted in inr refl
    by_mint (ok t) = unfold rotate_minted in by_update t run.update

-- A request that is not answered with a new token, be it refused or broken off by a failing query or
-- mint, changes no row, revokes nothing and writes no audit entry.
pub refresh-kept :
    (c : Crypto) (config : Config) (run : Run) (req : Request) (s : World)
    → (¬ IsRenewal (model_router_refresh_handler c config run req s).0)
    → (model_router_refresh_handler c config run req s).1 ≡ s
unfolding model_router_refresh_handler
refresh-kept c config run req s h = elim (by_identity (identify c config run.draw.now req)) [
  | inl r ↦ absurd (h r)
  | inr e ↦ e
]
  where
    by_select :
        (sub secret : String) (r : Result (Unit {0}))
        → KeptUnlessRenewed s (refresh_selected c config run sub secret s r)
    by_select sub secret (thrown e) = unfold refresh_selected in inr refl
    by_select sub secret (ok u) =
        unfold refresh_selected in
        rotate-kept c config run (look_up sub (c.sha256_hex secret) s.agents) s

    by_identity : (i : Identity) → KeptUnlessRenewed s (refresh_identified c config run s i)
    by_identity (rejected status message) = unfold refresh_identified in inr refl
    by_identity (claimed sub secret) = unfold refresh_identified in by_select sub secret run.select

-- The reply and the table, which the agent and the next request see.
abbrev pub seen : Reply × World → Reply × List AgentRow
seen p = (p.0, p.1.agents)

abbrev answered : Run → Result (Unit {0}) → Run
answered run answer = record run { revoke = answer }

-- Whether the AI service takes the revocation of the superseded token or not changes neither the
-- reply nor the table.
refresh-answer :
    (c : Crypto) (config : Config) (run : Run) (answer : Result (Unit {0})) (req : Request)
    (s : World)
    → seen (model_router_refresh_handler c config (record run { revoke = answer }) req s)
      ≡ seen (model_router_refresh_handler c config run req s)
unfolding model_router_refresh_handler
refresh-answer c config run answer req s = by_identity (identify c config run.draw.now req)
  where
    by_update :
        (agent : AgentRow) (t : TokenResult) (r : Result (Unit {0}))
        → seen (store_and_revoke c config (answered run answer) agent s r t)
          ≡ seen (store_and_revoke c config run agent s r t)
    by_update agent t (thrown e) = unfold store_and_revoke in refl
    by_update agent t (ok u) =
        unfold store_and_revoke in
        ap (λ l. (renewed t.token t.refresh_secret t.expires_at, l))
          (revoke_superseded-agents config (answered run answer) agent _
            ∙ sym (revoke_superseded-agents config run agent _))

    by_mint :
        (agent : AgentRow) (r : Result TokenResult)
        → seen (rotate_minted c config (answered run answer) agent s r)
          ≡ seen (rotate_minted c config run agent s r)
    by_mint agent (thrown e) = unfold rotate_minted in refl
    by_mint agent (ok t) = unfold rotate_minted in by_update agent t run.update

    by_row :
        (o : Option AgentRow)
        → seen (rotate c config (answered run answer) o s) ≡ seen (rotate c config run o s)
    by_row none = unfold rotate in refl
    by_row (some agent) =
        unfold rotate in
        by_mint agent (generate_agent_model_router_token c config (options_of agent) run.draw)

    by_select :
        (sub secret : String) (r : Result (Unit {0}))
        → seen (refresh_selected c config (answered run answer) sub secret s r)
          ≡ seen (refresh_selected c config run sub secret s r)
    by_select sub secret (thrown e) = unfold refresh_selected in refl
    by_select sub secret (ok u) =
        unfold refresh_selected in by_row (look_up sub (c.sha256_hex secret) s.agents)

    by_identity :
        (i : Identity)
        → seen (refresh_identified c config (answered run answer) s i)
          ≡ seen (refresh_identified c config run s i)
    by_identity (rejected status message) = unfold refresh_identified in refl
    by_identity (claimed sub secret) = unfold refresh_identified in by_select sub secret run.select

unsent :
    (config : Config) (run : Run) (agent : AgentRow) (s : World)
    → config.internal_service_token ≡ none
    → ((revoke_superseded config run agent s).revocations ≡ s.revocations)
      × ((jti : String)
          → truthy agent.model_router_jti ≡ some jti
          → (revoke_superseded config run agent s).audit_log
            ≡ s.audit_log ++ token_revoked agent.agent_id jti ∷ [])
unfolding revoke_superseded audited revoke_agent_model_router_token
unsent config run agent s unset = (
  elim (Option-cases (truthy agent.model_router_jti)) [
    | inl e ↦ ground (arith, e)
    | inr (jti, e) ↦ ground (arith, e, unset)
  ],
  λ jti e. ground (arith, e, unset),
)

-- Where the service token is not set, nothing is revoked, and yet the audit log says of the superseded
-- token of a renewal that it is.
pub refresh-unsent :
    (c : Crypto) (config : Config) (run : Run) (req : Request) (s s' : World) (token : Text)
    (secret : String) (exp : ℕ)
    → model_router_refresh_handler c config run req s ≡ (renewed token secret exp, s')
    → config.internal_service_token ≡ none
    → (agent : AgentRow) × In agent s.agents
      × (s'.revocations ≡ s.revocations)
      × ((jti : String)
          → truthy agent.model_router_jti ≡ some jti
          → s'.audit_log ≡ s.audit_log ++ token_revoked agent.agent_id jti ∷ [])
refresh-unsent c config run req s s' token secret exp h unset =
    let (agent, a, r) = refresh-IsAuthorised c config run req s s' token secret exp h in
    let (t, _, _, _, _, after) = rotate-stores c config run agent s s' token secret exp r in
    let (same, logged) = unsent config run agent (stored c agent t secret s) unset in
    (
      agent,
      a.in_table,
      ap (λ w. w.revocations) after ∙ same,
      λ jti e. ap (λ w. w.audit_log) after ∙ logged jti e,
    )
