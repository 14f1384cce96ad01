-- ===== src/Operator/Secrets/Plain.antt =====
-- What becomes of a secret: a plain one is given as it is, an encrypted one is decrypted.
use keptn_gitops_operator.Base.{
  String, ◌<>◌, ◌≡◌, refl, false, Option, none, some, [], ◌∷◌, arith, Reply, value, error, returned,
  eqb,
}
use keptn_gitops_operator.Cluster.{Env, World, encrypt_oaep, perform}
use Prim.Native.Char.{code}
use Prim.Native.String.append.{nil, cons}
use text.Mathlib.TextLemmas.{append_assoc}
use keptn_gitops_operator.Operator.Instance.{encrypt_public_pem, encrypt_with, encrypt}
use keptn_gitops_operator.Operator.Instance as Instance
use keptn_gitops_operator.Operator.Secrets.{
  split_colon, decrypt_secret, decrypt_parts, decrypt_private_pem, decode_pem, with_block, with_key,
  rsa_oaep_decrypt,
}

-- Texts without a colon.
abbrev pub HasNoColon : String → Type 0
HasNoColon String.[] = Unit
HasNoColon (String.◌∷◌ c s) = (eqb (code c) b':' ≡ false) × HasNoColon s

split_colon-HasNoColon : (s : String) → HasNoColon s → split_colon s ≡ s ∷ []
unfolding split_colon
split_colon-HasNoColon String.[] h = refl
split_colon-HasNoColon (String.◌∷◌ c s) (h, rest) = rw (h, split_colon-HasNoColon s rest) refl

-- The text before a colon is the first part.
split_colon-append :
    (s t : String) → HasNoColon s → split_colon (s <> (":" <> t)) ≡ s ∷ split_colon t
unfolding split_colon
split_colon-append String.[] t h = rw (nil (":" <> t), cons ":" "" t, nil t) refl
split_colon-append (String.◌∷◌ c s) t (h, rest) =
    rw (cons c s (":" <> t), h, split_colon-append s t rest) refl

pub rsa_prefix : (ct : String) → "rsa:" <> ct ≡ "rsa" <> (":" <> ct)
rsa_prefix ct = append_assoc "rsa" ":" ct

-- rsa and base64 as documented: what EncryptOAEP gives for the public key of a private one, a hash and a
-- label, DecryptOAEP takes back with that key, the same hash and the same label; and base64 writes
-- such a text without a colon and reads it again.
pub record IsRsa (E : Env) : Type 1 where
  pub decrypts :
      (s : E.State) (hash private message label ct : String)
      → (E.respond (encrypt_oaep hash (E.public_key private) message label) s).0 ≡ value ct
      → E.decrypt_oaep hash private ct label ≡ value message
  pub encodes :
      (s : E.State) (hash public message label ct : String)
      → (E.respond (encrypt_oaep hash public message label) s).0 ≡ value ct
      → HasNoColon (E.base64_encode ct) × (E.base64_decode (E.base64_encode ct) ≡ (ct, none))

module _ (E : Env) where
  pub rsa_secret :
      (ct pem : String)
      → HasNoColon ct
      → E.lookup_env "RSA_PRIVATE_KEY" ≡ some pem
      → decrypt_secret E ("rsa" <> (":" <> ct)) ≡ decrypt_private_pem E ct pem
  unfolding decrypt_secret decrypt_parts
  rsa_secret ct pem h set =
      rw
        (
          decrypt_secret,
          split_colon-append "rsa" ct (refl, (refl, (refl, tt))),
          set,
          split_colon-HasNoColon ct h,
        )
        refl

  module _ (lib : IsRsa E) where
    decrypt-encrypt_with :
        (pem message secret : String) (block : Reply (Option String)) (w : World E)
        → E.lookup_env "RSA_PRIVATE_KEY" ≡ some pem
        → decode_pem E pem ≡ block
        → (encrypt_with E message block w).0 ≡ returned (value secret)
        → decrypt_secret E secret ≡ returned (value message)
    unfolding encrypt_with encrypt Instance.rsa_oaep_encrypt Instance.encoded_or_exit perform
        decrypt_private_pem with_block with_key rsa_oaep_decrypt
    decrypt-encrypt_with pem message secret (error e) w set q h = absurd (ground arith)
    decrypt-encrypt_with pem message secret (value none) w set q h = absurd (ground arith)
    decrypt-encrypt_with pem message secret (value (some bytes)) w set q h =
        go (E.parse_private_key bytes) refl h
      where
        key_read :
            (key : String) (r : Reply String)
            → E.parse_private_key bytes ≡ value key
            → (E.respond
                (encrypt_oaep "sha256" (E.public_key key) message "OAEP Encrypted")
                w.state).0
              ≡ r
            → (encrypt E message (value key) w).0 ≡ returned (value secret)
            → decrypt_secret E secret ≡ returned (value message)
        key_read key (error e) p a h = absurd (ground arith)
        key_read key (value ct) p a h =
            let (plain, read) = lib.encodes w.state "sha256" _ message "OAEP Encrypted" ct a in
            ground (
              arith,
              plain,
              read,
              lib.decrypts w.state "sha256" key message "OAEP Encrypted" ct a,
              rsa_prefix (E.base64_encode ct),
              rsa_secret (E.base64_encode ct) pem plain set,
            )

        go :
            (r : Reply String)
            → E.parse_private_key bytes ≡ r
            → (encrypt_with E message (value (some bytes)) w).0 ≡ returned (value secret)
            → decrypt_secret E secret ≡ returned (value message)
        go (error e) p h = absurd (ground arith)
        go (value key) p h = key_read key _ p refl (ground arith)

    -- Where rsa and base64 behave as documented (EncryptOAEP for a key's public key is
    -- undone by DecryptOAEP with that key, the same hash and the same label; base64 writes
    -- such a text without a colon and reads it again), DecryptSecret gives back each
    -- message for which EncryptPublicPEM gave a secret.
    pub decrypt-encrypt :
        (message secret : String) (w : World E)
        → (encrypt_public_pem E message w).0 ≡ returned (value secret)
        → decrypt_secret E secret ≡ returned (value message)
    unfolding encrypt_public_pem
    decrypt-encrypt message secret w h = go (E.lookup_env "RSA_PRIVATE_KEY") refl h
      where
        go :
            (r : Option String)
            → E.lookup_env "RSA_PRIVATE_KEY" ≡ r
            → (encrypt_public_pem E message w).0 ≡ returned (value secret)
            → decrypt_secret E secret ≡ returned (value message)
        go none q h = absurd (ground arith)
        go (some pem) q h =
            decrypt-encrypt_with pem message secret (decode_pem E pem) w q refl (ground arith)
