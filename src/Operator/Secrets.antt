-- ===== src/Operator/Secrets.antt =====
-- keptn-operator/pkg/utils/decrypt.go and GetGitCredentials of git.go. promotion-service has the
-- same two functions, and gitops-operator's differ by one test.
mod Tests
pub mod Plain
pub mod Sample
use keptn_gitops_operator.Base.{
  String, Option, none, some, List, [], ◌∷◌, ◌==◌, GoError, failed, Reply, value, error, Outcome,
  returned, panicked, ended, if◌then◌else◌, eqb,
}
use keptn_gitops_operator.Cluster.{GitRepositoryConfig, Env}
use Prim.Native.Char.{code, Char}

abbrev cons_char : Char → List String → List String
cons_char c [] = String.◌∷◌ c "" ∷ []
cons_char c (s ∷ ss) = String.◌∷◌ c s ∷ ss

-- strings.Split(s, ":"): the parts between the colons, one at least.
unfoldable pub split_colon : String → List String
split_colon String.[] = "" ∷ []
split_colon (String.◌∷◌ c s) =
    let rest = split_colon s in if eqb (code c) b':' then "" ∷ rest else cons_char c rest

module _ (E : Env) where
  -- The error of the base64 text is dropped.
  unfoldable pub rsa_oaep_decrypt : String → String → Reply String
  rsa_oaep_decrypt cipher_text key =
      E.decrypt_oaep "sha256" key (E.base64_decode cipher_text).0 "OAEP Encrypted"

  -- `none` is the nil block of a text that is no PEM.
  unfoldable pub decode_pem : String → Reply (Option String)
  decode_pem key = elim (E.base64_decode key).1 [
    | some err ↦ error err
    | none ↦ value (E.pem_decode (E.base64_decode key).0)
  ]

  unfoldable pub with_key : String → Reply String → Reply String
  unfolding rsa_oaep_decrypt
  with_key message (error err) = error err
  with_key message (value key) = rsa_oaep_decrypt message key

  -- `block.Bytes` of a nil block panics.
  unfoldable pub with_block : String → Reply (Option String) → Outcome (Reply String)
  unfolding with_key
  with_block message (error err) = returned (error err)
  with_block message (value none) = panicked "nil pointer dereference"
  with_block message (value (some bytes)) = returned (with_key message (E.parse_private_key bytes))

  unfoldable pub decrypt_private_pem : String → String → Outcome (Reply String)
  unfolding with_block decode_pem
  decrypt_private_pem message key = with_block message (decode_pem key)

  abbrev key_not_set : GoError
  key_not_set =
      failed "environment variable RSA_PRIVATE_KEY is not set, will not be able to decrypt secrets"

  -- `data[1]` of a secret that is just "rsa" panics.
  unfoldable pub decrypt_parts : String → List String → Outcome (Reply String)
  decrypt_parts pem_private (scheme ∷ message ∷ more) = decrypt_private_pem message pem_private
  decrypt_parts pem_private _ = panicked "index out of range"

  unfoldable pub decrypt_secret : String → Outcome (Reply String)
  unfolding split_colon decrypt_parts decrypt_private_pem
  decrypt_secret secret = elim (split_colon secret) [
    | [] ↦ panicked "index out of range"
    | scheme ∷ more ↦
        if scheme == "rsa"
        then elim (E.lookup_env "RSA_PRIVATE_KEY") [
          | none ↦ returned (error key_not_set)
          | some pem_private ↦ decrypt_parts pem_private (scheme ∷ more)
        ]
        else returned (value secret)
  ]

  abbrev pub or_main : String → String
  or_main branch = if branch == "" then "main" else branch

  abbrev pub with_secret :
      String → String → String → Outcome (Reply String) → Outcome (Reply GitRepositoryConfig)
  with_secret remote_uri user branch (ended message) = ended message
  with_secret remote_uri user branch (returned (error err)) = returned (error err)
  with_secret remote_uri user branch (returned (value secret)) = returned (
      value
        (record { remote_uri = remote_uri; user = user; token = secret; branch = or_main branch }))

  unfoldable pub get_git_credentials :
      String → String → String → String → Outcome (Reply GitRepositoryConfig)
  get_git_credentials remote_uri user token branch =
      with_secret remote_uri user branch (decrypt_secret token)
