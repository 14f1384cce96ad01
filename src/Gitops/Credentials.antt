-- ===== src/Gitops/Credentials.antt =====
-- gitops-operator/controllers/common: decrypt.go and the credentials of utils_git.go.
mod Tests
pub mod Same
use keptn_gitops_operator.Base.{
  String, Option, none, some, List, [], ◌∷◌, ◌==◌, GoError, failed, Reply, value, error, Outcome,
  returned, panicked, ended, ended, if◌then◌else◌,
}
use keptn_gitops_operator.Api.{KeptnProject}
use keptn_gitops_operator.Cluster.{
  ◌>>=◌, ◌>>◌, keptn_project, GitRepositoryConfig, get_object, Env, Exec, pure, lift, perform,
}
use keptn_gitops_operator.Operator.Secrets.{split_colon}

abbrev key_is_empty : GoError
key_is_empty = failed "RSA_PRIVATE_KEY is empty, will not be able to decrypt secrets"

abbrev key_is_not_set : GoError
key_is_not_set =
    failed "environment variable RSA_PRIVATE_KEY is not set, will not be able to decrypt secrets"

module _ (E : Env) where
  -- The error of the base64 text is dropped.
  unfoldable pub rsa_oaep_decrypt : String → String → Reply String
  rsa_oaep_decrypt cipher_text priv_key =
      E.decrypt_oaep "sha256" priv_key (E.base64_decode cipher_text).0 "OAEP Encrypted"

  decoded_pem : String × Option GoError → Reply (Option String)
  decoded_pem (keyraw, some err) = error err
  decoded_pem (keyraw, none) = value (E.pem_decode keyraw)

  -- `none` is the nil block of a text that is no PEM.
  unfoldable pub decode_pem : String → Reply (Option String)
  unfolding decoded_pem
  decode_pem key = decoded_pem (E.base64_decode key)

  decrypt_with : String → Reply String → Reply String
  unfolding rsa_oaep_decrypt
  decrypt_with message (error err) = error err
  decrypt_with message (value private_key) = rsa_oaep_decrypt message private_key

  -- `block.Bytes` of a nil block panics.
  decrypt_in_block : String → Reply (Option String) → Outcome (Reply String)
  unfolding decrypt_with
  decrypt_in_block message (error err) = returned (error err)
  decrypt_in_block message (value none) = panicked "nil pointer dereference"
  decrypt_in_block message (value (some bytes)) =
      returned (decrypt_with message (E.parse_private_key bytes))

  unfoldable pub decrypt_private_pem : String → String → Outcome (Reply String)
  unfolding decrypt_in_block decode_pem
  decrypt_private_pem message key = decrypt_in_block message (decode_pem key)

  -- `data[1]` of a secret that is just "rsa" panics.
  unfoldable pub decrypt_parts : String → List String → Outcome (Reply String)
  unfolding decrypt_private_pem
  decrypt_parts pem_private (scheme ∷ message ∷ more) = decrypt_private_pem message pem_private
  decrypt_parts pem_private _ = panicked "index out of range"

  unfoldable pub with_pem : List String → Option String → Outcome (Reply String)
  unfolding decrypt_parts
  with_pem data_ none = returned (error key_is_not_set)
  with_pem data_ (some pem_private) =
      if pem_private == "" then returned (error key_is_empty) else decrypt_parts pem_private data_

  -- strings.Split gives one part at least.
  unfoldable pub decrypt_split : String → List String → Outcome (Reply String)
  unfolding with_pem
  decrypt_split secret [] = panicked "index out of range"
  decrypt_split secret (scheme ∷ more) =
      if scheme == "rsa"
      then with_pem (scheme ∷ more) (E.lookup_env "RSA_PRIVATE_KEY")
      else returned (value secret)

  unfoldable pub decrypt_secret : String → Outcome (Reply String)
  unfolding decrypt_split split_colon
  decrypt_secret secret = decrypt_split secret (split_colon secret)

  -- An empty branch is the main one.
  abbrev with_secret :
      String → String → String → Outcome (Reply String) → Outcome (Reply GitRepositoryConfig)
  with_secret remote_uri user branch (ended how) = ended how
  with_secret remote_uri user branch (returned (error err)) = returned (error err)
  with_secret remote_uri user branch (returned (value secret)) = returned (
      value (record {
        remote_uri = remote_uri;
        user = user;
        token = secret;
        branch = if branch == "" then "main" else branch;
      }))

  unfoldable pub get_git_credentials :
      String → String → String → String → Outcome (Reply GitRepositoryConfig)
  unfolding decrypt_secret
  get_git_credentials remote_uri user token branch =
      with_secret remote_uri user branch (decrypt_secret token)

  unfoldable pub with_project : Reply KeptnProject → Exec E (Reply GitRepositoryConfig)
  unfolding get_git_credentials
  with_project (error err) = pure (error err)
  with_project (value obj) = lift (
      get_git_credentials obj.spec.repository obj.spec.username obj.spec.password
        obj.spec.default_branch)

  unfoldable pub get_upstream_credentials : String → String → Exec E (Reply GitRepositoryConfig)
  unfolding with_project
  get_upstream_credentials project namespace = do
    obj ← perform (get_object keptn_project (record { name = project; namespace = namespace }))
    with_project obj
