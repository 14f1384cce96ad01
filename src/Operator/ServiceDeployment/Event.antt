-- ===== src/Operator/ServiceDeployment/Event.antt =====
-- triggerTask of the service deployment controller: the event and its request.
use keptn_gitops_operator.Base.{
  String, ◌<>◌, none, some, List, [], ◌∷◌, ◌==◌, Reply, error, if◌then◌else◌, insert, GoMap,
}
use keptn_gitops_operator.Api.{KeptnInstance, KeptnServiceDeploymentSpec}
use keptn_gitops_operator.Cluster.{
  KeptnTriggerEvent, event, HttpRequest, new_request, send, Env, Exec, pure, lift, perform, ◌>>=◌,
}
use keptn_gitops_operator.Operator.Utils.{event_response}

-- `for key, value := range more { labels[key] = value }`
unfoldable pub insert_all : List (String × String) → List (String × String) → List (String × String)
insert_all [] labels = labels
insert_all ((k, v) ∷ more) labels = insert_all more (insert k v labels)

abbrev pub or_zero : String → String
or_zero config_version = if config_version == "" then "0" else config_version

abbrev pub pairs_of : GoMap → List (String × String)
pairs_of none = []
pairs_of (some m) = m

-- The labels of the event: the version and the configuration version, and then the spec's own.
unfoldable pub event_labels : KeptnServiceDeploymentSpec → List (String × String)
unfolding insert_all
event_labels spec =
    insert_all (pairs_of spec.labels)
      (("version", spec.version) ∷ ("configVersion", or_zero spec.config_version) ∷ [])

unfoldable pub trigger_event : KeptnServiceDeploymentSpec → String → String → KeptnTriggerEvent
unfolding event_labels
trigger_event spec deployment_event shkeptncontext = record {
  content_type = "application/json";
  project = spec.project;
  service = spec.service;
  stage = spec.stage;
  image = spec.service <> (":" <> spec.version);
  labels = some (event_labels spec);
  source = "Keptn GitOps Operator";
  spec_version = "1.0";
  event_type = "sh.keptn.event." <> (spec.stage <> ("." <> deployment_event));
  context = shkeptncontext;
}

abbrev pub trigger_request :
    KeptnInstance → String → KeptnServiceDeploymentSpec → String → String → HttpRequest
trigger_request instance_ token spec deployment_event shkeptncontext = record {
  method = "POST";
  url = instance_.spec.api_url <> "/v1/event";
  content_type = "application/cloudevents+json";
  auth_header = instance_.status.auth_header;
  token = token;
  body = event (trigger_event spec deployment_event shkeptncontext);
}

module _ (E : Env) where
  unfoldable pub trigger_task :
      KeptnInstance → String → KeptnServiceDeploymentSpec → String → String → Exec E (Reply String)
  trigger_task instance_ token spec deployment_event shkeptncontext = do
    bad ← perform (new_request "POST" (instance_.spec.api_url <> "/v1/event"))
    elim bad [
      | some err ↦ pure (error err)
      | none ↦ do
        response ←
            perform (send (trigger_request instance_ token spec deployment_event shkeptncontext))
        lift (event_response E response)
    ]
