-- ===== src/Operator/Instance.antt =====
-- keptn-operator/controllers/keptninstancecontroller: the status of a KeptnInstance holds the
-- (encrypted) API token in use. With it EncryptPublicPEM of pkg/utils/encrypt.go.
mod Tests
pub mod Refresh
use keptn_gitops_operator.Base.{
  ℕ, ◌+◌, String, ◌<>◌, true, false, Option, none, some, ◌==◌, not_found, failed, error_text, Reply,
  value, error, if◌then◌else◌, ltb,
}
use keptn_gitops_operator.Api.{NamespacedName, KeptnInstance}
use keptn_gitops_operator.Cluster.{
  ◌>>=◌, ◌>>◌, keptn_instance, get_object, update_status, now, encrypt_oaep, Env, Exec, pure, panic,
  exit, perform,
}
use keptn_gitops_operator.Operator.Result.{Result, result, error_interval, success_interval}
use keptn_gitops_operator.Operator.Utils.{get_keptn_cp_token}
use keptn_gitops_operator.Operator.Secrets.{decode_pem}

abbrev pub refresh_interval : ℕ
refresh_interval = 120

abbrev token_or_empty : Reply String → String
token_or_empty (error _) = ""
token_or_empty (value token) = token

module _ (E : Env) where
  -- log.Fatal ends the process.
  unfoldable pub encoded_or_exit : Reply String → Exec E String
  encoded_or_exit (error err) = exit (error_text err)
  encoded_or_exit (value ciphertext) = pure (E.base64_encode ciphertext)

  unfoldable pub rsa_oaep_encrypt : String → String → Exec E String
  unfolding encoded_or_exit
  rsa_oaep_encrypt secret_message key = do
    ciphertext ← perform (encrypt_oaep "sha256" key secret_message "OAEP Encrypted")
    encoded_or_exit ciphertext

  unfoldable pub encrypt : String → Reply String → Exec E (Reply String)
  unfolding rsa_oaep_encrypt
  encrypt message (error err) = pure (error err)
  encrypt message (value private_key) = do
    ct ← rsa_oaep_encrypt message (E.public_key private_key)
    pure (value ("rsa:" <> ct))

  -- The error of decodePem is not looked at, and a nil block panics.
  unfoldable pub encrypt_with : String → Reply (Option String) → Exec E (Reply String)
  unfolding encrypt
  encrypt_with message (value (some bytes)) = encrypt message (E.parse_private_key bytes)
  encrypt_with message _ = panic "nil pointer dereference"

  unfoldable pub encrypt_public_pem : String → Exec E (Reply String)
  unfolding encrypt_with decode_pem
  encrypt_public_pem message = elim (E.lookup_env "RSA_PRIVATE_KEY") [
    | none ↦ pure (
        error (
          failed
            "environment variable RSA_PRIVATE_KEY is not set, will not be able to decrypt secrets"))
    | some pem_private ↦ encrypt_with message (decode_pem E pem_private)
  ]

  abbrev with_token : KeptnInstance → String → KeptnInstance
  with_token instance_ token = record instance_ {
    status = record instance_.status { auth_header = "x-token"; current_token = token };
  }

  save_now : KeptnInstance → Exec E Result
  save_now instance_ = do
    time ← perform now
    bad ← perform (
        update_status keptn_instance
          (record instance_ { status = record instance_.status { last_updated = time } }))
    pure (elim bad [ some err ↦ result true error_interval (some err) | none ↦ result true 0 none ])

  -- The test and the update that both token types make: `token` is compared with the current token,
  -- and the clock is read only if they agree.
  refresh : KeptnInstance → String → Result → Exec E Result
  unfolding save_now
  refresh instance_ token otherwise =
      if instance_.status.current_token == token
      then (do
        time ← perform now
        if ltb (instance_.status.last_updated + refresh_interval) time
            then save_now instance_
            else pure otherwise)
      else save_now instance_

  with_encrypted : KeptnInstance → Reply String → Exec E Result
  unfolding refresh
  with_encrypted instance_ (error err) = pure (result true 0 (some err))
  with_encrypted instance_ (value enc_token) =
      refresh (with_token instance_ enc_token) enc_token (result false success_interval none)

  -- A token that could not be read is logged, and the empty one is encrypted.
  with_token_of : KeptnInstance → Reply String → Exec E Result
  unfolding with_encrypted encrypt_public_pem
  with_token_of instance_ token = do
    encrypted ← encrypt_public_pem (token_or_empty token)
    with_encrypted instance_ encrypted

  with_internal : String → KeptnInstance → Exec E Result
  unfolding with_token_of
  with_internal namespace instance_ = do
    token ← get_keptn_cp_token E namespace
    with_token_of instance_ token

  with_scheme : String → KeptnInstance → Exec E Result
  unfolding with_internal refresh
  with_scheme namespace instance_ =
      if instance_.spec.token_type == "internal"
      then with_internal namespace instance_
      else if instance_.spec.token_type == "x-token"
      then refresh (with_token instance_ instance_.spec.token) instance_.spec.token
          (result true 10 none)
      else pure (result false success_interval none)

  -- A URL that does not parse panics.
  with_object : NamespacedName → Reply KeptnInstance → Exec E Result
  unfolding with_scheme
  with_object req (error (not_found _)) = pure (result true 0 none)
  with_object req (error (failed message)) =
      pure (result true error_interval (some (failed message)))
  with_object req (value instance_) = elim (E.parse_scheme instance_.spec.api_url) [
    | error err ↦ panic (error_text err)
    | value scheme ↦
        with_scheme req.namespace
          (record instance_ { status = record instance_.status { scheme = scheme } })
  ]

  pub reconcile : NamespacedName → Exec E Result
  unfolding with_object
  reconcile req = do found ← perform (get_object keptn_instance req); with_object req found
