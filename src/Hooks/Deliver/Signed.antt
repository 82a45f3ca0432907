-- ===== src/Hooks/Deliver/Signed.antt =====
-- A secret that is stored signs what is posted, or nothing is posted.
use hill90_app.Prelude.Exec.{Result, ok, thrown, Result-cases}
use hill90_app.Prelude.Text.{Text}
use hill90_app.Docker.Frames.{Bytes}
use hill90_app.Hooks.Keys.{Cipher, decrypt_provider_key}
use hill90_app.Hooks.Deliver.{
  with_key, post_with, WebhookRow, Post, is_discord_webhook, decrypt_webhook_secret, signature_of,
  deliver_webhook, deliver_all, dispatch_async,
}
use hill90_app.Prelude.{
  true, Bool, if◌then◌else◌, inl, ◌∙◌, sym, ◌∷◌, none, ◌≡◌, [], ◌⊎◌, inr, List, Option, String,
  refl, ap, false, if-not, some, ◌++◌, arith,
}
use mathlib.Core.List.{append_assoc}

-- A row whose secret is stored.
pub record HasSecret (hook : WebhookRow) (encrypted nonce : Bytes) : Type 0 where
  pub stored : hook.secret_encrypted ≡ some encrypted
  pub drawn : hook.secret_nonce ≡ some nonce

-- The request of a webhook that is no Discord one, signed with the secret that is stored in the row.
pub record IsSigned (hmac : Text → Text → Text) (c : Cipher) (key : Option Text) (body : Text)
    (encrypted nonce : Bytes) (hook : WebhookRow) (post : Post) : Type 0 where
  pub hex_key : Text
  pub secret : Text
  pub configured : key ≡ some hex_key
  pub decrypted : decrypt_provider_key c encrypted nonce hex_key ≡ ok secret
  pub unchanged : post.body ≡ body
  pub sent_to : post.url ≡ hook.url
  pub signed : (secret ≡ []) ⊎ (post.signature ≡ some (hmac secret body))

decrypted-some :
    (c : Cipher) (key : Option Text) (hook : WebhookRow) (encrypted nonce : Bytes) (o : Option Text)
    → HasSecret hook encrypted nonce
    → decrypt_webhook_secret c key hook ≡ ok o
    → (hex_key : Text) × (secret : Text) × (key ≡ some hex_key)
      × (o ≡ some secret)
      × (decrypt_provider_key c encrypted nonce hex_key ≡ ok secret)
unfolding decrypt_webhook_secret
decrypted-some c key hook encrypted nonce o h e = by_key key (sym (rw (h.stored, h.drawn) refl) ∙ e)
  where
    by_key :
        (k : Option Text)
        → with_key c encrypted nonce k ≡ ok o
        → (hex_key : Text) × (secret : Text) × (k ≡ some hex_key)
          × (o ≡ some secret)
          × (decrypt_provider_key c encrypted nonce hex_key ≡ ok secret)
    by_key none q = absurd (unfold with_key in ground (arith, q))
    by_key (some k) q = elim (Result-cases (decrypt_provider_key c encrypted nonce k)) [
      | inl (s, r) ↦ (k, s, refl, unfold with_key in ground (arith, q, r), r)
      | inr (x, r) ↦ absurd (unfold with_key in ground (arith, q, r))
    ]

signature_of-some :
    (hmac : Text → Text → Text) (body secret : Text)
    → (secret ≡ []) ⊎ (signature_of hmac false body (some secret) ≡ some (hmac secret body))
unfolding signature_of
signature_of-some hmac body [] = inl refl
signature_of-some hmac body (a ∷ s) = inr refl

signature_of-stored :
    (hmac : Text → Text → Text) (b : Bool) (other body secret : Text) (o : Option Text)
    → b ≡ false
    → o ≡ some secret
    → (secret ≡ []) ⊎ (signature_of hmac b (if b then other else body) o ≡ some (hmac secret body))
signature_of-stored hmac true other body secret o plain is = absurd (ground (arith, plain))
signature_of-stored hmac false other body secret o plain is =
    rw is (signature_of-some hmac body secret)

-- What is posted to a webhook whose secret is stored.
abbrev pub SignedOrSilent :
    (Text → Text → Text)
    → Cipher
    → Option Text
    → Text
    → Bytes
    → Bytes
    → WebhookRow
    → List Post
    → Type 0
SignedOrSilent hmac c key body encrypted nonce hook posts =
    ((e : String) × (decrypt_webhook_secret c key hook ≡ thrown e) × (posts ≡ []))
    ⊎ ((post : Post) × (posts ≡ post ∷ []) × IsSigned hmac c key body encrypted nonce hook post)

-- To a webhook that is no Discord one and whose row stores a secret, nothing is sent when the secret does not
-- decrypt, and else one request, which carries the body and, unless the secret is empty, its HMAC
-- under the secret.
pub deliver_webhook-IsSigned :
    (hmac : Text → Text → Text) (discord_body : Text → Text) (c : Cipher) (key : Option Text)
    (body : Text) (hook : WebhookRow) (encrypted nonce : Bytes)
    → HasSecret hook encrypted nonce
    → is_discord_webhook hook.url ≡ false
    → SignedOrSilent hmac c key body encrypted nonce hook
        (deliver_webhook hmac discord_body c key body hook)
unfolding deliver_webhook
deliver_webhook-IsSigned hmac discord_body c key body hook encrypted nonce h plain =
    by_secret (decrypt_webhook_secret c key hook) refl
  where
    by_secret :
        (r : Result (Option Text))
        → decrypt_webhook_secret c key hook ≡ r
        → SignedOrSilent hmac c key body encrypted nonce hook
            (post_with hmac discord_body hook body r)
    by_secret (thrown e) q = unfold post_with in inl (e, q, refl)
    by_secret (ok o) q =
        let (k, s, has_key, is, d) = decrypted-some c key hook encrypted nonce o h q in
        let signed =
          signature_of-stored hmac (is_discord_webhook hook.url) (discord_body body) body s o plain
            is in
        unfold post_with in
        inr (
          _,
          refl,
          record {
            hex_key = k;
            secret = s;
            configured = has_key;
            decrypted = d;
            unchanged = if-not (is_discord_webhook hook.url) _ _ plain;
            sent_to = refl;
            signed = signed;
          },
        )

-- A webhook whose secret cannot be decrypted costs no other one its delivery.
pub deliver_all-others :
    (hmac : Text → Text → Text) (discord_body : Text → Text) (c : Cipher) (key : Option Text)
    (body : Text) (before : List WebhookRow) (hook : WebhookRow) (after : List WebhookRow)
    (e : String)
    → decrypt_webhook_secret c key hook ≡ thrown e
    → dispatch_async hmac discord_body c key body (ok (before ++ hook ∷ after))
      ≡ dispatch_async hmac discord_body c key body (ok before)
        ++ dispatch_async hmac discord_body c key body (ok after)
unfolding dispatch_async deliver_all deliver_webhook post_with
deliver_all-others hmac discord_body c key body [] hook after e h = rw h refl
deliver_all-others hmac discord_body c key body (b ∷ before) hook after e h =
    ap (λ l. deliver_webhook hmac discord_body c key body b ++ l)
      (deliver_all-others hmac discord_body c key body before hook after e h)
    ∙ sym (append_assoc (deliver_webhook hmac discord_body c key body b) _ _)
