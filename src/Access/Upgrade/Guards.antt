-- ===== src/Access/Upgrade/Guards.antt =====
-- What an open terminal session has been checked for, and in which order.
use hill90_app.Prelude.{
  ℕ, ◌+◌, ◌*◌, ◌≤◌, ◌<◌, ◌≡◌, ◌⊎◌, refl, inl, inr, Bool, true, false, Option, none, some, [], ◌∷◌,
  String, arith, Bool-cases, Option-cases,
}
use hill90_app.Prelude.Exec.{Result, ok, thrown}
use hill90_app.Prelude.Text.{Text}
use hill90_app.Access.Auth.{Principal}
use hill90_app.Access.Upgrade.{
  Request, Session, Answer, refused, upgraded, max_timeout_ms, parse_thread_id, is_origin_allowed,
  offered_token, is_admin, connect, admit, on_upgrade,
}

module _ (configured : Text) (verify_token : Text → Result (Option Principal)) (now : ℕ)
    (is_participant : Text → String → Result Bool)
    (resolve_upstream : Text → Result (Option Text)) where
  abbrev admin : Principal → Bool
  admin = is_admin configured verify_token now is_participant resolve_upstream

  abbrev handle : Request → Answer
  handle = on_upgrade configured verify_token now is_participant resolve_upstream

  pub record IsGranted (req : Request) (s : Session) : Type 0 where
    pub token : Text
    pub thread : parse_thread_id req.url ≡ some s.thread
    pub origin : is_origin_allowed configured req.origin ≡ true
    pub offered : offered_token req ≡ some token
    pub verified : verify_token token ≡ ok (some s.user)
    pub live : now < s.user.exp * 1000
    pub member : (admin s.user ≡ true) ⊎ (is_participant s.thread s.user.sub ≡ ok true)
    pub upstream : resolve_upstream s.thread ≡ ok (some s.upstream)
    pub timed : now + s.expiry_timer ≤ s.user.exp * 1000
    pub capped : s.expiry_timer ≤ max_timeout_ms

  connect-upgraded :
      (thread : Text) (user : Principal) (s : Session) (r : Result (Option Text))
      → connect configured verify_token now is_participant resolve_upstream thread user r
        ≡ upgraded s
      → now < user.exp * 1000
      → (s.thread ≡ thread)
        × (s.user ≡ user)
        × (r ≡ ok (some s.upstream))
        × (now + s.expiry_timer ≤ user.exp * 1000)
        × (s.expiry_timer ≤ max_timeout_ms)
  unfolding connect
  connect-upgraded thread user s (thrown m) e live = cc
  connect-upgraded thread user s (ok none) e live = cc
  connect-upgraded thread user s (ok (some [])) e live = cc
  connect-upgraded thread user s (ok (some (c ∷ url))) e live = ground arith

  admit-upgraded :
      (thread : Text) (user : Principal) (s : Session)
      → admit configured verify_token now is_participant resolve_upstream thread (ok (some user))
        ≡ upgraded s
      → (now < user.exp * 1000)
        × (s.thread ≡ thread)
        × (s.user ≡ user)
        × ((admin user ≡ true) ⊎ (is_participant thread user.sub ≡ ok true))
        × (resolve_upstream thread ≡ ok (some s.upstream))
        × (now + s.expiry_timer ≤ user.exp * 1000)
        × (s.expiry_timer ≤ max_timeout_ms)
  unfolding admit
  admit-upgraded thread user s e =
      ground (arith, connect-upgraded thread user s (resolve_upstream thread))

  -- An origin that is not in the allowlist is answered 403 whatever credential comes with it,
  -- so the answer tells nothing about the credential.
  pub on_upgrade-origin :
      (req : Request) (thread : Text)
      → parse_thread_id req.url ≡ some thread
      → is_origin_allowed configured req.origin ≡ false
      → handle req ≡ refused 403
  unfolding on_upgrade
  on_upgrade-origin req thread path origin = rw (on_upgrade, path) (rw origin)

  admitted :
      (req : Request) (s : Session) (thread token : Text) (r : Result (Option Principal))
      → parse_thread_id req.url ≡ some thread
      → is_origin_allowed configured req.origin ≡ true
      → offered_token req ≡ some token
      → verify_token token ≡ r
      → admit configured verify_token now is_participant resolve_upstream thread r ≡ upgraded s
      → IsGranted req s
  unfolding admit
  admitted req s thread token (thrown m) path origin offered verified e = cc
  admitted req s thread token (ok none) path origin offered verified e = cc
  admitted req s thread token (ok (some user)) path origin offered verified e =
      let (live, same_thread, same_user, member, upstream, timed, capped) =
        admit-upgraded thread user s e in
      record {
        token = token;
        thread = cc;
        origin = origin;
        offered = offered;
        verified = cc;
        live = rw same_user live;
        member = rw (same_user, same_thread) member;
        upstream = rw same_thread upstream;
        timed = rw same_user timed;
        capped = capped;
      }

  -- A session is opened only for a thread's path, an allowed origin, a token that the verifier
  -- accepts and whose end is still ahead, a participant of the thread or an admin, and a running
  -- agent; and its timer ends it no later than its credential, without passing setTimeout's range.
  pub on_upgrade-IsGranted :
      (req : Request) (s : Session) → handle req ≡ upgraded s → IsGranted req s
  unfolding on_upgrade
  on_upgrade-IsGranted req s e = elim (Option-cases (parse_thread_id req.url)) [
    | inl missed ↦ cc (rw (on_upgrade, missed) at e)
    | inr (thread, path) ↦ elim (Bool-cases (is_origin_allowed configured req.origin)) [
      | inr foreign ↦ cc (rw (on_upgrade-origin req thread path foreign) at e)
      | inl origin ↦ elim (Option-cases (offered_token req)) [
        | inl bare ↦ ground (arith, path, origin, bare)
        | inr (token, offered) ↦
            admitted req s thread token (verify_token token) path origin offered refl (ground arith)
      ]
    ]
  ]
