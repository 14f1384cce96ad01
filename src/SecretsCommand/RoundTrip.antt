-- ===== src/SecretsCommand/RoundTrip.antt =====
-- What the command encrypts, it decrypts, and so do the operators.
use keptn_gitops_operator.Base.{
  Reply, error, String, ◌<>◌, ◌≡◌, refl, ◌∙◌, none, some, arith, value, returned,
}
use keptn_gitops_operator.Cluster.{read_file, encrypt_oaep, Env, World, perform}
use keptn_gitops_operator.Operator.Secrets.{with_block, with_key, decode_pem}
use keptn_gitops_operator.Operator.Secrets as Operators
use keptn_gitops_operator.Operator.Secrets.Plain.{HasNoColon, IsRsa, rsa_secret, rsa_prefix}
use keptn_gitops_operator.SecretsCommand.{
  rsa_oaep_encrypt, encoded, rsa_oaep_decrypt, encrypt_with, encrypt_in_block, encrypt_from_file,
  encrypt_public_pem, decrypt_with, decrypt_in_block, decrypt_from_file, decrypt_private_pem,
}

module _ (E : Env) where
  -- The bytes of a PEM file that can be read.
  pub record HoldsPem (file bytes : String) (w : World E) : Type 0 where
    pub text : String
    pub reads : (E.respond (read_file file) w.state).0 ≡ (text, none)
    pub is_pem : E.pem_decode text ≡ some bytes

  -- A text that has no colon and is base64 of what DecryptOAEP takes back with the private key.
  abbrev IsCipher : String → String → String → Type 0
  IsCipher private message text =
      HasNoColon text
      × (E.decrypt_oaep "sha256" private (E.base64_decode text).0 "OAEP Encrypted" ≡ value message)

  module _ (private : String) (lib : IsRsa E) where
    IsCipher-encoded :
        (message text : String) (s : E.State) (r : Reply String)
        → (E.respond (encrypt_oaep "sha256" (E.public_key private) message "OAEP Encrypted") s).0
          ≡ r
        → encoded E r ≡ value text
        → IsCipher private message text
    unfolding encoded
    IsCipher-encoded message text s (error e) a h = absurd (ground arith)
    IsCipher-encoded message text s (value ct) a h =
        let (plain, read) = lib.encodes s "sha256" _ message "OAEP Encrypted" ct a in
        let same : E.base64_encode ct ≡ text = ground arith in
        rw (← same, read) (plain, lib.decrypts s "sha256" private message "OAEP Encrypted" ct a)

    IsCipher-encrypt_public_pem :
        (message ct file bytes : String) (w : World E)
        → HoldsPem file bytes w
        → E.parse_public_key bytes ≡ value (E.public_key private)
        → (encrypt_public_pem E message file w).0 ≡ returned (value ct)
        → IsCipher private message ct
    unfolding encrypt_public_pem encrypt_from_file encrypt_in_block encrypt_with rsa_oaep_encrypt
        perform
    IsCipher-encrypt_public_pem message ct file bytes w h parsed e =
        IsCipher-encoded message ct (E.respond (read_file file) w.state).1 _ refl
          (ground (arith, h.reads, h.is_pem, parsed, e))

    -- Where rsa and base64 behave as documented (EncryptOAEP for a key's public key is
    -- undone by DecryptOAEP with that key, the same hash and the same label; base64 writes
    -- such a text without a colon and reads it again), the command's decryption with a
    -- file of a private key gives back each message that its encryption with a file of
    -- that key's public key has encrypted.
    pub decrypt_private_pem-encrypt_public_pem :
        (message ct public_key public_bytes private_key private_bytes : String) (w w' : World E)
        → HoldsPem public_key public_bytes w
        → E.parse_public_key public_bytes ≡ value (E.public_key private)
        → HoldsPem private_key private_bytes w'
        → E.parse_private_key private_bytes ≡ value private
        → (encrypt_public_pem E message public_key w).0 ≡ returned (value ct)
        → (decrypt_private_pem E ct private_key w').0 ≡ returned (value message)
    unfolding decrypt_private_pem decrypt_from_file decrypt_in_block decrypt_with rsa_oaep_decrypt
        perform
    decrypt_private_pem-encrypt_public_pem message ct pk pb sk sb w w' hp parsed hs parsed' e =
        rw
          (
            hs.reads,
            hs.is_pem,
            parsed',
            (IsCipher-encrypt_public_pem message ct pk pb w hp parsed e).1,
          )
          refl

    -- Where rsa and base64 behave as documented (EncryptOAEP for a key's public key is
    -- undone by DecryptOAEP with that key, the same hash and the same label; base64 writes
    -- such a text without a colon and reads it again), and RSA_PRIVATE_KEY has the PEM of
    -- a private key in base64, the operators' DecryptSecret gives back each message that
    -- the command has encrypted with a file of that key's public key, from its text after
    -- "rsa:".
    pub operator_decrypts :
        (message ct public_key public_bytes pem text private_bytes : String) (w : World E)
        → HoldsPem public_key public_bytes w
        → E.parse_public_key public_bytes ≡ value (E.public_key private)
        → E.lookup_env "RSA_PRIVATE_KEY" ≡ some pem
        → E.base64_decode pem ≡ (text, none)
        → E.pem_decode text ≡ some private_bytes
        → E.parse_private_key private_bytes ≡ value private
        → (encrypt_public_pem E message public_key w).0 ≡ returned (value ct)
        → Operators.decrypt_secret E ("rsa:" <> ct) ≡ returned (value message)
    unfolding Operators.decrypt_private_pem with_block with_key decode_pem
        Operators.rsa_oaep_decrypt
    operator_decrypts message ct pk pb pem text sb w hp parsed set base is_pem parsed' e =
        let (plain, decrypts) = IsCipher-encrypt_public_pem message ct pk pb w hp parsed e in
        let read : Operators.decrypt_private_pem E ct pem ≡ returned (value message) =
          ground (arith, base, is_pem, parsed', decrypts) in
        rw (rsa_prefix ct) (rsa_secret E ct pem plain set ∙ read)
