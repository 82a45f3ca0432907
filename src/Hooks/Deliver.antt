-- ===== src/Hooks/Deliver.antt =====
-- services/api/src/services/webhook-dispatch.ts: what is posted to the webhooks of an agent. The HMAC, the
-- formatting of a Discord embed and the cipher are parameters; console output is left out.
pub mod Signed
use hill90_app.Prelude.Exec.{Result, ok, thrown}
use hill90_app.Prelude.Text.{Text, codes, starts_with}
use hill90_app.Docker.Frames.{Bytes}
use hill90_app.Hooks.Keys.{Cipher, decrypt_provider_key}
use hill90_app.Prelude.{List, [], Bool, ◌++◌, String, ◌||◌, ◌∷◌, Option, if◌then◌else◌, some, none}

pub record WebhookRow : Type 0 where
  pub id : String
  pub url : Text
  pub secret_encrypted : Option Bytes
  pub secret_nonce : Option Bytes

-- A request that was sent; `signature` is the header X-Webhook-Signature without its prefix.
pub record Post : Type 0 where
  pub url : Text
  pub body : Text
  pub signature : Option Text

-- `s.includes(t)`
contains : Text → Text → Bool
contains t [] = starts_with [] t
contains t (c ∷ s) = let rest = contains t s in starts_with (c ∷ s) t || rest

unfoldable pub is_discord_webhook : Text → Bool
unfolding contains
is_discord_webhook url =
    contains (codes "discord.com/api/webhooks/") url
    || contains (codes "discordapp.com/api/webhooks/") url

with_key : Cipher → Bytes → Bytes → Option Text → Result (Option Text)
with_key c encrypted nonce none = thrown "PROVIDER_KEY_ENCRYPTION_KEY not configured"
with_key c encrypted nonce (some key) = elim (decrypt_provider_key c encrypted nonce key) [
  | ok s ↦ ok (some s)
  | thrown e ↦ thrown e
]

-- `key` is the variable PROVIDER_KEY_ENCRYPTION_KEY, `none` where it is empty.
unfoldable pub decrypt_webhook_secret : Cipher → Option Text → WebhookRow → Result (Option Text)
unfolding with_key
decrypt_webhook_secret c key hook = elim hook.secret_encrypted [
  | none ↦ ok none
  | some encrypted ↦ elim hook.secret_nonce [
    | none ↦ ok none
    | some nonce ↦ with_key c encrypted nonce key
  ]
]

-- `if (secret && !isDiscord)`
pub signature_of : (Text → Text → Text) → Bool → Text → Option Text → Option Text
signature_of hmac discord body none = none
signature_of hmac discord body (some []) = none
signature_of hmac discord body (some (c ∷ s)) = if discord then none else some (hmac (c ∷ s) body)

post_with :
    (Text → Text → Text) → (Text → Text) → WebhookRow → Text → Result (Option Text) → List Post
unfolding signature_of
post_with hmac discord_body hook body (thrown e) = []
post_with hmac discord_body hook body (ok secret) =
    let discord = is_discord_webhook hook.url in
    let delivery_body = if discord then discord_body body else body in
    record {
      url = hook.url;
      body = delivery_body;
      signature = signature_of hmac discord delivery_body secret;
    }
    ∷ []

-- The requests of one delivery: one, or none where the secret cannot be decrypted. How a request ends
-- is logged only.
pub deliver_webhook :
    (Text → Text → Text) → (Text → Text) → Cipher → Option Text → Text → WebhookRow → List Post
unfolding post_with
deliver_webhook hmac discord_body c key body hook =
    post_with hmac discord_body hook body (decrypt_webhook_secret c key hook)

-- The rows of the query, and the requests of their deliveries, which `allSettled` awaits.
pub deliver_all :
    (Text → Text → Text) → (Text → Text) → Cipher → Option Text → Text → List WebhookRow → List Post
unfolding deliver_webhook
deliver_all hmac discord_body c key body [] = []
deliver_all hmac discord_body c key body (hook ∷ hooks) =
    deliver_webhook hmac discord_body c key body hook
    ++ deliver_all hmac discord_body c key body hooks

pub dispatch_async :
    (Text → Text → Text)
    → (Text → Text)
    → Cipher
    → Option Text
    → Text
    → Result (List WebhookRow)
    → List Post
unfolding deliver_all
dispatch_async hmac discord_body c key body (thrown e) = []
dispatch_async hmac discord_body c key body (ok rows) =
    deliver_all hmac discord_body c key body rows
