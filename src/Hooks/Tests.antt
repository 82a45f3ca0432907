-- ===== src/Hooks/Tests.antt =====
-- A webhook with a stored secret, under a toy cipher that keeps the text.
use hill90_app.Prelude.Exec.{ok, thrown}
use hill90_app.Prelude.Text.{Text, codes, starts_with}
use hill90_app.Hooks.Redact.{Object, error_object, plain, ref, text, redact_deep}
use hill90_app.Hooks.Redact.Clean.{Clean, redact_deep-Clean}
use hill90_app.Hooks.Keys.{from_hex, get_key_buffer, Cipher, EncryptedKey}
use hill90_app.Hooks.Deliver.{
  deliver_webhook, is_discord_webhook, decrypt_webhook_secret, WebhookRow,
}
use hill90_app.Prelude.{zero, suc, ℕ, none, some, ◌++◌, ◌≡◌, ◌∷◌, false, [], refl}
use hill90_app.Hooks.Deliver.Signed.{deliver_webhook-IsSigned, SignedOrSilent}

abbrev cipher : Cipher
cipher = record {
  seal = λ key nonce s. s;
  tag = λ key nonce s. codes "0123456789abcdef";
  unseal = λ key nonce body tag. ok body;
}

abbrev hex_key : Text
hex_key = codes "00112233445566778899aabbccddeeff00112233445566778899aabbccddeeff"

abbrev stored : EncryptedKey
stored = record { encrypted = codes "s3" ++ codes "0123456789abcdef"; nonce = [] }

key-from_hex : get_key_buffer hex_key ≡ ok (from_hex hex_key)
unfolding get_key_buffer from_hex
key-from_hex = refl

abbrev hook : WebhookRow
hook = record {
  id = "h1";
  url = codes "https://example.org/hook";
  secret_encrypted = some stored.encrypted;
  secret_nonce = some [];
}

not_discord : is_discord_webhook hook.url ≡ false
unfolding is_discord_webhook starts_with
not_discord = refl

deliver_webhook-IsSigned_example :
    SignedOrSilent
      (λ s body. s)
      cipher
      (some hex_key)
      (codes "body")
      stored.encrypted
      []
      hook
      (deliver_webhook (λ s body. s) (λ body. body) cipher (some hex_key) (codes "body") hook)
deliver_webhook-IsSigned_example =
    deliver_webhook-IsSigned (λ s body. s) (λ body. body) cipher (some hex_key) (codes "body") hook
      stored.encrypted [] (record { stored = refl; drawn = refl }) not_discord

unkeyed :
    decrypt_webhook_secret cipher none hook ≡ thrown "PROVIDER_KEY_ENCRYPTION_KEY not configured"
unfolding decrypt_webhook_secret
unkeyed = refl

abbrev open_hook : WebhookRow
open_hook = record hook { secret_encrypted = none }

abbrev heap : ℕ → Object
heap zero = error_object (codes "Error") (codes "failed") none ((codes "config", ref 1) ∷ [])
heap (suc n) = plain ((codes "Authorization", text (codes "x")) ∷ (codes "self", ref 0) ∷ [])

redact_deep-Clean_example : Clean (λ s. []) heap (redact_deep (λ s. []) heap (ref 0))
redact_deep-Clean_example = redact_deep-Clean (λ s. []) heap (ref 0)
