-- ===== src/Operator/Project/Requests.antt =====
-- The requests of the project controller to the Keptn API: deleteKeptnProject and createProject.
use keptn_gitops_operator.Base.{
  String, ◌<>◌, Option, none, some, List, [], ◌∷◌, ◌==◌, GoError, failed, error_text, Reply, value,
  error, if◌then◌else◌,
}
use keptn_gitops_operator.Api.{KeptnProject, KeptnInstance}
use keptn_gitops_operator.Cluster.{
  Body, no_body, fields, HttpRequest, HttpResponse, new_request, send, Env, Exec, pure, panic, lift,
  perform, ◌>>=◌,
}
use keptn_gitops_operator.Operator.Utils.{check_response_code}
use keptn_gitops_operator.Operator.Secrets.{decrypt_secret}

abbrev pub project_url : KeptnInstance → String
project_url instance_ = instance_.spec.api_url <> "/controlPlane/v1/project"

abbrev pub request_of : KeptnInstance → String → String → String → Body → HttpRequest
request_of instance_ token method url body = record {
  method = method;
  url = url;
  content_type = "application/json";
  auth_header = instance_.status.auth_header;
  token = token;
  body = body;
}

-- The literal of createProject: in base64, a shipyard with three stages of a dummy sequence.
abbrev pub default_shipyard : String
default_shipyard =
    "YXBpVmVyc2lvbjogInNwZWMua2VwdG4uc2gvMC4yLjAiCmtpbmQ6ICJTaGlweWFyZCIKbWV0YWRhdGE6CiAgbmFtZTogInBvZHRhdG8taGVhZCIKc3BlYzoKICBzdGFnZXM6CiAgICAtIG5hbWU6ICJkZXYiCiAgICAgIHNlcXVlbmNlczoKICAgICAgICAtIG5hbWU6ICJkdW1teSIKICAgICAgICAgIHRhc2tzOgogICAgICAgICAgICAtIG5hbWU6ICJkdW1teSIKICAgIC0gbmFtZTogImhhcmRlbmluZyIKICAgICAgc2VxdWVuY2VzOgogICAgICAgIC0gbmFtZTogImR1bW15IgogICAgICAgICAgdGFza3M6CiAgICAgICAgICAgIC0gbmFtZTogImR1bW15IgogICAgLSBuYW1lOiAicHJvZHVjdGlvbiIKICAgICAgc2VxdWVuY2VzOgogICAgICAgIC0gbmFtZTogImR1bW15IgogICAgICAgICAgdGFza3M6CiAgICAgICAgICAgIC0gbmFtZTogImR1bW15IgoK"

module _ (E : Env) where
  -- An invalid URL is logged, and the nil request is used.
  unfoldable pub delete_keptn_project :
      KeptnInstance → String → KeptnProject → Exec E (Option GoError)
  delete_keptn_project instance_ token project = do
    let url = project_url instance_ <> ("/" <> project.meta.name)
    bad ← perform (new_request "DELETE" url)
    elim bad [
      | some _ ↦ panic "nil pointer dereference"
      | none ↦ do
        response ← perform (send (request_of instance_ token "DELETE" url no_body))
        pure (elim response [ error err ↦ some err | value _ ↦ none ])
    ]

  abbrev pub created : String → Reply HttpResponse → Option GoError
  created name (error err) = some err
  created name (value response) = elim (check_response_code response 200) [
    | none ↦ none
    | some err ↦ some (failed ("could not create project " <> (name <> (": " <> error_text err))))
  ]

  abbrev pub project_fields : KeptnProject → String → List (String × String)
  project_fields project secret =
      ("gitRemoteURL", project.spec.repository)
      ∷ ("gitToken", secret)
      ∷ ("gitUser", project.spec.username)
      ∷ (
        "shipyard",
        (if project.spec.initial_shipyard == ""
            then default_shipyard
            else project.spec.initial_shipyard),
      )
      ∷ ("name", project.meta.name)
      ∷ []

  unfoldable pub post_project :
      KeptnInstance → String → KeptnProject → Reply String → Exec E (Option GoError)
  post_project instance_ token project (error err) = pure (some err)
  post_project instance_ token project (value secret) = do
    bad ← perform (new_request "POST" (project_url instance_))
    elim bad [
      | some err ↦ pure (some err)
      | none ↦ do
        response ← perform (
            send (
              request_of instance_ token "POST" (project_url instance_)
                (fields (project_fields project secret))))
        pure (created project.meta.name response)
    ]

  unfoldable pub create_project : KeptnInstance → String → KeptnProject → Exec E (Option GoError)
  unfolding post_project
  create_project instance_ token project = do
    secret ← lift (decrypt_secret E project.spec.password)
    post_project instance_ token project secret
