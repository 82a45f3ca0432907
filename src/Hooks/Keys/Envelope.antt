-- ===== src/Hooks/Keys/Envelope.antt =====
-- The round trip of the envelope, and its refusals.
use hill90_app.Prelude.Exec.{Result, ok, thrown, ok_inj}
use hill90_app.Prelude.Text.{Text, drop-append}
use hill90_app.Docker.Frames.{Bytes}
use hill90_app.Hooks.Keys.{
  from_hex, sealed, wrapped, opened, Cipher, EncryptedKey, tag_length, get_key_buffer,
  encrypt_provider_key, decrypt_provider_key,
}
use hill90_app.Prelude.{
  not, inr, ltb_not, ==_iff, ◌≤◌, refl, if-so, ◌==◌, inl, Bool-cases, ltb_ge, sym, ap, if-not,
  false, length-append, length, ◌++◌, take-append, ltb, ◌∙◌, take, drop, ◌≡◌, ◌-◌, arith,
}

-- What the envelope relies on for one text: a tag has 16 bytes, and what is sealed is unsealed.
pub record IsSealing (c : Cipher) (key nonce : Bytes) (plaintext : Text) : Type 0 where
  pub tag-length : length (c.tag key nonce plaintext) ≡ tag_length
  pub unseal-seal :
      c.unseal key nonce (c.seal key nonce plaintext) (c.tag key nonce plaintext) ≡ ok plaintext

sealed-opened :
    (c : Cipher) (key nonce : Bytes) (plaintext : Text)
    → IsSealing c key nonce plaintext
    → opened c (c.seal key nonce plaintext ++ c.tag key nonce plaintext) nonce (ok key)
      ≡ ok plaintext
unfolding opened
sealed-opened c key nonce plaintext h =
    let body = c.seal key nonce plaintext in
    let tag = c.tag key nonce plaintext in
    let n : length (body ++ tag) - tag_length ≡ length body =
      omega (arith, length-append body tag, h.tag-length) in
    ap (λ k. c.unseal key nonce (take k (body ++ tag)) (drop k (body ++ tag))) n
    ∙ ap (λ b. c.unseal key nonce b (drop (length body) (body ++ tag))) (take-append body tag)
    ∙ ap (λ t. c.unseal key nonce body t) (drop-append body tag)
    ∙ h.unseal-seal

pub encrypt_provider_key-ok :
    (c : Cipher) (nonce : Bytes) (plaintext hex_key : Text) (key : Bytes)
    → get_key_buffer hex_key ≡ ok key
    → encrypt_provider_key c nonce plaintext hex_key
      ≡ ok (record {
        encrypted = c.seal key nonce plaintext ++ c.tag key nonce plaintext;
        nonce = nonce;
      })
unfolding encrypt_provider_key sealed
encrypt_provider_key-ok c nonce plaintext hex_key key k = ap (sealed c nonce plaintext) k

-- A secret that was encrypted under a key is decrypted under it to what it was.
pub decrypt-encrypt :
    (c : Cipher) (nonce : Bytes) (plaintext hex_key : Text) (key : Bytes) (e : EncryptedKey)
    → get_key_buffer hex_key ≡ ok key
    → IsSealing c key nonce plaintext
    → encrypt_provider_key c nonce plaintext hex_key ≡ ok e
    → decrypt_provider_key c e.encrypted e.nonce hex_key ≡ ok plaintext
unfolding decrypt_provider_key wrapped encrypt_provider_key sealed
decrypt-encrypt c nonce plaintext hex_key key e k h made =
    ap (λ (x : EncryptedKey). decrypt_provider_key c x.encrypted x.nonce hex_key) (sym is)
    ∙ if-not (ltb (length body) tag_length) _ _ long
    ∙ ap (λ r. wrapped (opened c body nonce r)) k
    ∙ ap wrapped (sealed-opened c key nonce plaintext h)
  where
    body : Bytes
    body = c.seal key nonce plaintext ++ c.tag key nonce plaintext

    is : ◌≡◌ {A = EncryptedKey} (record { encrypted = body; nonce = nonce }) e
    is = ok_inj (sym (ap (sealed c nonce plaintext) k) ∙ made)

    long : ltb (length body) tag_length ≡ false
    long = ltb_ge (length body) tag_length (
        omega (
          arith,
          h.tag-length,
          length-append (c.seal key nonce plaintext) (c.tag key nonce plaintext),
        ))

wrapped-ok : (r : Result Text) (s : Text) → wrapped r ≡ ok s → r ≡ ok s
unfolding wrapped
wrapped-ok (ok t) s h = h
wrapped-ok (thrown e) s h = absurd (ground (arith, h))

opened-ok :
    (c : Cipher) (encrypted nonce : Bytes) (r : Result Bytes) (s : Text)
    → opened c encrypted nonce r ≡ ok s
    → (key : Bytes) × (r ≡ ok key) × (opened c encrypted nonce (ok key) ≡ ok s)
unfolding opened
opened-ok c encrypted nonce (thrown e) s h = absurd (ground (arith, h))
opened-ok c encrypted nonce (ok key) s h = (key, refl, h)

get_key_buffer-length :
    (hex_key : Text) (key : Bytes) → get_key_buffer hex_key ≡ ok key → length key ≡ 32
unfolding get_key_buffer
get_key_buffer-length hex_key key h = elim (Bool-cases (length (from_hex hex_key) == 32)) [
  | inl e ↦
      let same = ok_inj (sym (if-not (not (length (from_hex hex_key) == 32)) _ _ (ap not e)) ∙ h) in
      sym (ap length same) ∙ (==_iff (length (from_hex hex_key)) 32).0 e
  | inr e ↦ absurd (ground (arith, h, e))
]

-- What is decrypted was unsealed, under the key of 32 bytes that the text names, from all bytes but the last
-- 16 and with these as its tag.
pub decrypt_provider_key-unsealed :
    (c : Cipher) (encrypted nonce : Bytes) (hex_key s : Text)
    → decrypt_provider_key c encrypted nonce hex_key ≡ ok s
    → (key : Bytes) × (get_key_buffer hex_key ≡ ok key)
      × (length key ≡ 32)
      × (16 ≤ length encrypted)
      × (c.unseal key nonce
            (take (length encrypted - 16) encrypted)
            (drop (length encrypted - 16) encrypted)
          ≡ ok s)
unfolding decrypt_provider_key opened
decrypt_provider_key-unsealed c encrypted nonce hex_key s h =
    elim (Bool-cases (ltb (length encrypted) tag_length)) [
      | inl e ↦ absurd (short (sym (if-so _ _ _ e) ∙ h))
      | inr e ↦
          let w =
            wrapped-ok (opened c encrypted nonce (get_key_buffer hex_key)) s
              (sym (if-not (ltb (length encrypted) tag_length) _ _ e) ∙ h) in
          let (key, k, u) = opened-ok c encrypted nonce (get_key_buffer hex_key) s w in
          (key, k, get_key_buffer-length hex_key key k, ltb_not (length encrypted) tag_length e, u)
    ]
  where
    short : ◌≡◌ {A = Result Text} (thrown "Ciphertext too short") (ok s) → ⊥
    short e = ground (arith, e)
