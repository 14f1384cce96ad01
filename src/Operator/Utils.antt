-- ===== src/Operator/Utils.antt =====
-- keptn-operator/pkg/utils: helpers.go, keptn.go, and the credentials part of git.go.
pub mod Traces
pub mod Existence
mod Tests
use keptn_gitops_operator.Base.{panicked}
use keptn_gitops_operator.Base.{returned}
use keptn_gitops_operator.Base.{Outcome}
use keptn_gitops_operator.Base.{
  ℕ, String, ◌<>◌, Bool, true, false, ◌||◌, Option, none, some, List, [], ◌∷◌, GoError, failed,
  error_text, Reply, value, error, ◌==◌, eqb, index, if◌then◌else◌,
}
use keptn_gitops_operator.Api.{NamespacedName, KeptnInstance, KeptnProject, DataObject}
use keptn_gitops_operator.Cluster.{
  ◌>>=◌, ◌>>◌, Env, Exec, pure, lift, perform, get_object, keptn_instance, keptn_project,
  core_secret, get_all_projects, GitRepositoryConfig, HttpResponse, ModelProject,
}
use keptn_gitops_operator.Operator.Secrets.{decrypt_secret, get_git_credentials}

unfoldable pub contains_string : List String → String → Bool
contains_string [] s = false
contains_string (item ∷ slice) s = item == s || contains_string slice s

abbrev body_error : String → Option GoError → GoError
body_error body none = failed body
body_error body (some err) = failed ("could not read response body: " <> error_text err)

-- nil if the code is the expected one, and else an error with the body's text.
unfoldable pub check_response_code : HttpResponse → ℕ → Option GoError
check_response_code response expected =
    if eqb response.status_code expected then none else elim response.body [
      | none ↦ some (failed "could not read response body")
      | some (body, err) ↦ some (body_error body err)
    ]

unfoldable pub filter_projects : List ModelProject → String → List ModelProject
filter_projects [] name = []
filter_projects (project ∷ projects) name =
    let rest = filter_projects projects name in
    if name == "" || name == project.project_name then project ∷ rest else rest

-- A service is its name.
unfoldable pub filter_services : List String → String → List String
filter_services [] name = []
filter_services (service ∷ services) name =
    let rest = filter_services services name in
    if name == "" || name == service then service ∷ rest else rest

abbrev pub key_of : String → String → NamespacedName
key_of namespace name = record { name = name; namespace = namespace }

module _ (E : Env) where
  -- The end of both triggerTask functions: the context that the API's response names. Reading a
  -- nil body panics.
  read_event_response : HttpResponse → Outcome (Reply String)
  read_event_response response = elim (check_response_code response 200) [
    | some err ↦ returned (error err)
    | none ↦ elim response.body [
      | none ↦ panicked "nil pointer dereference"
      | some (body, _) ↦ returned (E.unmarshal_context body)
    ]
  ]

  unfoldable pub event_response : Reply HttpResponse → Outcome (Reply String)
  unfolding read_event_response
  event_response (error err) = returned (error err)
  event_response (value response) = read_event_response response

  abbrev secret_token : Reply DataObject → Reply String
  secret_token (error err) = error (failed ("could not fetch keptn token: " <> error_text err))
  secret_token (value secret) = value (index secret.entries "keptn-api-token")

  unfoldable pub get_keptn_cp_token : String → Exec E (Reply String)
  get_keptn_cp_token namespace = do
    found ← perform (get_object core_secret (key_of namespace "keptn-api-token"))
    pure (secret_token found)

  abbrev pub with_token : KeptnInstance → Reply String → Reply (KeptnInstance × String)
  with_token instance_ (error err) = error err
  with_token instance_ (value token) = value (instance_, token)

  found_instance : Reply KeptnInstance → Exec E (Reply (KeptnInstance × String))
  found_instance (error err) =
      pure (error (failed ("could not fetch keptn instance: " <> error_text err)))
  found_instance (value instance_) = do
    token ← lift (decrypt_secret E instance_.status.current_token)
    pure (with_token instance_ token)

  -- The instance of a namespace is the one that is named "default", with its token decrypted.
  unfoldable pub get_keptn_instance : String → Exec E (Reply (KeptnInstance × String))
  unfolding found_instance
  get_keptn_instance namespace = do
    found ← perform (get_object keptn_instance (key_of namespace "default"))
    found_instance found

  abbrev exists_in : String → Reply (List ModelProject) → Bool × Option GoError
  exists_in project (error err) = (false, some err)
  exists_in project (value projects) = elim (filter_projects projects project) [
    | [] ↦
        if project == ""
        then (false, none)
        else (false, some (failed ("no project" <> project <> "found: %!w(<nil>)")))
    | _ ∷ _ ↦ (true, none)
  ]

  query_projects : String → Reply (KeptnInstance × String) → Exec E (Bool × Option GoError)
  query_projects project (error err) = pure (false, some err)
  query_projects project (value (instance_, token)) = do
    projects ← perform (get_all_projects instance_.spec.api_url token)
    pure (exists_in project projects)

  -- Whether the Keptn API lists the project, with the error that comes beside `false`.
  unfoldable pub check_keptn_project_exists : String → String → Exec E (Bool × Option GoError)
  unfolding query_projects
  check_keptn_project_exists namespace project = do
    found ← get_keptn_instance namespace
    query_projects project found

  found_project : Reply KeptnProject → Exec E (Reply GitRepositoryConfig)
  found_project (error err) = pure (error err)
  found_project (value obj) = lift (
      get_git_credentials E obj.spec.repository obj.spec.username obj.spec.password
        obj.spec.default_branch)

  unfoldable pub get_upstream_credentials : String → String → Exec E (Reply GitRepositoryConfig)
  unfolding found_project
  get_upstream_credentials project namespace = do
    found ← perform (get_object keptn_project (key_of namespace project))
    found_project found
