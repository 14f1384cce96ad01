-- ===== src/Promotion/Handler.antt =====
-- promotion-service/eventhandler/eventhandlers.go, with EnvBasedStringSupplier of common/utils.go and
-- GetUpstreamCredentials of githandler.go. The git handler is the interface GitHandlerInterface: its
-- UpdateGitRepo is a call.
mod Tests
pub mod Attempts
pub mod Finish
use keptn_gitops_operator.Base.{
  ℕ, zero, suc, String, Option, none, some, GoError, failed, error_text, Reply, value, error,
  lookup, GoMap, ◌==◌, if◌then◌else◌,
}
use keptn_gitops_operator.Api.{KeptnProjectSpec, KeptnProject}
use keptn_gitops_operator.Cluster.{
  keptn_project, GitRepositoryConfig, status_succeeded, status_errored, result_pass, result_failed,
  get_object, new_client, send_started, send_finished, update_git_repo, Env, Exec, pure, panic,
  exit, lift, perform, ◌>>=◌, ◌>>◌,
}
use keptn_gitops_operator.Operator.Utils.{key_of}
use keptn_gitops_operator.Operator.Secrets.{get_git_credentials}

-- The fields of keptnv2.EventData that the handler reads.
pub record EventData : Type 0 where
  pub project : String
  pub stage : String
  pub service : String
  pub labels : GoMap

-- `v, ok := labels[k]`
abbrev pub label : GoMap → String → Option String
label none k = none
label (some m) k = lookup k m

abbrev or_default : String → Option String → String
or_default other none = other
or_default other (some s) = s

abbrev or_if_empty : String → String → String
or_if_empty other s = if s == "" then other else s

-- The zero KeptnProject that Get leaves where it fails.
abbrev project_or_zero : Reply KeptnProject → KeptnProjectSpec
project_or_zero (value project) = project.spec
project_or_zero (error _) = record {
  repository = "";
  username = "";
  password = "";
  initial_shipyard = "";
  default_branch = "";
}

module _ (E : Env) where
  unfoldable pub env_based_string : String → String → String
  env_based_string variable other = or_if_empty other (or_default "" (E.lookup_env variable))

  -- The error of Get is overwritten; log.Fatal ends the process.
  unfoldable pub get_upstream_credentials : String → String → Exec E (Reply GitRepositoryConfig)
  get_upstream_credentials project namespace = do
    bad ← perform new_client
    elim bad [
      | some err ↦ exit (error_text err)
      | none ↦ do
        found ← perform (get_object keptn_project (key_of namespace project))
        let spec = project_or_zero found
        lift (get_git_credentials E spec.repository spec.username spec.password spec.default_branch)
    ]

  -- The loop's condition: a round that fails has another.
  abbrev pub or_again :
      (GoError → Exec E (Option GoError)) → Option GoError → Exec E (Option GoError)
  or_again next none = pure none
  or_again next (some err) = next err

  -- `for err != nil && count <= 5`, with the rounds that are left; the last error comes back.
  unfoldable pub retry : ℕ → Exec E (Option GoError) → GoError → Exec E (Option GoError)
  retry zero again err = pure (some err)
  retry (suc rounds) again err = again >>= or_again (retry rounds again)

  unfoldable pub send_error : String → Exec E (Option GoError)
  send_error message = perform (send_finished status_errored result_failed message)

  -- Report an error to the API. An error of that is returned in its place.
  unfoldable pub fail_with : GoError → Exec E (Option GoError)
  unfolding send_error
  fail_with err = do
    send_err ← send_error (error_text err)
    pure (elim send_err [ none ↦ some err | some err' ↦ some err' ])

  -- After the loop `err.Error()` is called, also where a round has left no error.
  unfoldable pub report_failure : Option GoError → Exec E (Option GoError)
  unfolding send_error
  report_failure none = panic "nil pointer dereference"
  report_failure (some err) = do send_error (error_text err); pure (some err)

  unfoldable pub after_update : Exec E (Option GoError) → Option GoError → Exec E (Option GoError)
  unfolding retry report_failure
  after_update again (some err) = do last ← retry 6 again err; report_failure last
  after_update again none = perform (send_finished status_succeeded result_pass "")

  unfoldable pub with_credentials :
      EventData → String → String → Reply GitRepositoryConfig → Exec E (Option GoError)
  unfolding after_update fail_with
  with_credentials data_ version config_version (error err) = fail_with err
  with_credentials data_ version config_version (value secret) = do
    let again = perform (update_git_repo secret data_.stage data_.service version config_version)
    bad ← again
    after_update again bad

  unfoldable pub with_version : EventData → Option String → Exec E (Option GoError)
  unfolding with_credentials fail_with get_upstream_credentials env_based_string
  with_version data_ none = fail_with (failed "No version label given")
  with_version data_ (some version) = do
    credentials ← get_upstream_credentials data_.project (env_based_string "POD_NAMESPACE" "keptn")
    with_credentials data_ version (or_default "0" (label data_.labels "configVersion")) credentials

  -- From the event's data, as far as it can be parsed.
  unfoldable pub handle_promotion_triggered_event : Reply EventData → Exec E (Option GoError)
  unfolding with_version
  handle_promotion_triggered_event (error err) = pure (some err)
  handle_promotion_triggered_event (value data_) = do
    bad ← perform (send_started status_succeeded)
    elim bad [
      | some err ↦ pure (some err)
      | none ↦ with_version data_ (label data_.labels "version")
    ]
