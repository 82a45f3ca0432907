-- ===== src/Hooks/Keys.antt =====
-- services/api/src/services/provider-key-crypto.ts: the envelope of a stored secret. AES-256-GCM is a
-- parameter, `Cipher`; a buffer is a list of bytes.
pub mod Envelope
use hill90_app.Prelude.Exec.{Result, ok, thrown}
use hill90_app.Prelude.Text.{Text}
use hill90_app.Docker.Frames.{Bytes}
use hill90_app.Prelude.{
  ℕ, ◌+◌, if◌then◌else◌, ◌-◌, ◌==◌, ◌*◌, ◌&&◌, not, leb, length, [], take, Option, ◌++◌, ◌∷◌, some,
  drop, none, ltb,
}

-- `createCipheriv` with its tag, and `createDecipheriv`, which throws where the tag does not fit.
pub record Cipher : Type 0 where
  pub seal : Bytes → Bytes → Text → Bytes
  pub tag : Bytes → Bytes → Text → Bytes
  pub unseal : Bytes → Bytes → Bytes → Bytes → Result Text

pub record EncryptedKey : Type 0 where
  pub encrypted : Bytes
  pub nonce : Bytes

abbrev pub tag_length : ℕ
tag_length = 16

-- A hexadecimal digit.
hex_digit : ℕ → Option ℕ
hex_digit c =
    if leb b'0' c && leb c b'9'
    then some (c - b'0')
    else if leb b'a' c && leb c b'f'
    then some (c - b'a' + 10)
    else if leb b'A' c && leb c b'F'
    then some (c - b'A' + 10)
    else none

-- `Buffer.from(hexKey, 'hex')`, which stops at the first pair that is none.
unfoldable pub from_hex : Text → Bytes
unfolding hex_digit
from_hex [] = []
from_hex (c ∷ []) = []
from_hex (c ∷ d ∷ s) =
    let rest = from_hex s in
    elim (hex_digit c) [
      | none ↦ []
      | some h ↦ elim (hex_digit d) [ none ↦ [] | some l ↦ (h * 16 + l) ∷ rest ]
    ]

unfoldable pub get_key_buffer : Text → Result Bytes
unfolding from_hex
get_key_buffer hex_key =
    let buf = from_hex hex_key in
    if not (length buf == 32)
    then thrown "PROVIDER_KEY_ENCRYPTION_KEY must be 32 bytes (64 hex chars)"
    else ok buf

sealed : Cipher → Bytes → Text → Result Bytes → Result EncryptedKey
sealed c nonce plaintext (thrown e) = thrown e
sealed c nonce plaintext (ok key) =
    ok (record {
      encrypted = c.seal key nonce plaintext ++ c.tag key nonce plaintext;
      nonce = nonce;
    })

-- `nonce` is the draw of `randomBytes`.
pub encrypt_provider_key : Cipher → Bytes → Text → Text → Result EncryptedKey
unfolding sealed get_key_buffer
encrypt_provider_key c nonce plaintext hex_key = sealed c nonce plaintext (get_key_buffer hex_key)

-- The `try` block.
opened : Cipher → Bytes → Bytes → Result Bytes → Result Text
opened c encrypted nonce (thrown e) = thrown e
opened c encrypted nonce (ok key) =
    let n = length encrypted - tag_length in
    c.unseal key nonce (take n encrypted) (drop n encrypted)

-- Its `catch`: the class of the error stands for its message.
wrapped : Result Text → Result Text
wrapped (ok s) = ok s
wrapped (thrown e) = thrown "ProviderKeyDecryptionError"

pub decrypt_provider_key : Cipher → Bytes → Bytes → Text → Result Text
unfolding opened wrapped get_key_buffer
decrypt_provider_key c encrypted nonce hex_key =
    if ltb (length encrypted) tag_length
    then thrown "Ciphertext too short"
    else wrapped (opened c encrypted nonce (get_key_buffer hex_key))
