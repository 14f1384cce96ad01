-- ===== src/Operator/SequenceExecution.antt =====
-- keptn-operator/controllers/keptnsequenceexecutioncontroller: a KeptnSequenceExecution triggers
-- its event at the Keptn API, once for each change of its spec.
mod Tests
pub mod Sends
pub mod Once
pub mod Events
use keptn_gitops_operator.Base.{
  ◌+◌, ◌<◌, String, ◌<>◌, Bool, true, false, not, ◌||◌, Option, none, some, List, [], ◌∷◌, ◌==◌,
  GoError, not_found, failed, Reply, value, error, if◌then◌else◌, index,
}
use keptn_gitops_operator.Api.{
  NamespacedName, KeptnInstance, KeptnSequenceExecutionSpec, KeptnSequenceExecution,
}
use keptn_gitops_operator.Cluster.{
  ◌>>=◌, ◌>>◌, keptn_project, keptn_sequence_execution, of_sequence_execution, KeptnTriggerEvent,
  event, HttpRequest, ModelProject, get_object, update_status, record_event, get_all_projects,
  get_all_services, new_request, send, Env, Exec, pure, lift, perform,
}
use keptn_gitops_operator.Operator.Result.{Result, result, error_interval, success_interval}
use keptn_gitops_operator.Operator.Utils.{
  filter_projects, filter_services, event_response, get_keptn_instance,
}

-- `version := "undefined"; if Labels["version"] != "" { version = Labels[version] }`
unfoldable pub image_version : KeptnSequenceExecutionSpec → String
image_version spec =
    if index spec.labels "version" == "" then "undefined" else index spec.labels "undefined"

-- The event that triggerTask marshals.
unfoldable pub trigger_event : KeptnSequenceExecutionSpec → KeptnTriggerEvent
unfolding image_version
trigger_event spec = record {
  content_type = "application/json";
  project = spec.project;
  service = spec.service;
  stage = spec.stage;
  image = spec.service <> (":" <> image_version spec);
  labels = spec.labels;
  source = "Keptn GitOps Operator";
  spec_version = "1.0";
  event_type = "sh.keptn.event." <> spec.event;
  context = "";
}

-- The POST of triggerTask.
abbrev pub trigger_request : KeptnInstance → String → KeptnSequenceExecutionSpec → HttpRequest
trigger_request instance_ token spec = record {
  method = "POST";
  url = instance_.spec.api_url <> "/v1/event";
  content_type = "application/cloudevents+json";
  auth_header = instance_.status.auth_header;
  token = token;
  body = event (trigger_event spec);
}

module _ (E : Env) where
  check_keptn_project : String → String → Exec E Bool
  check_keptn_project namespace project = do
    found ← perform (get_object keptn_project (record { name = project; namespace = namespace }))
    pure (elim found [ error _ ↦ false | value _ ↦ true ])

  abbrev services_found : String → String → Reply (List String) → Bool × Option GoError
  services_found project service (error err) = (false, some err)
  services_found project service (value services) = elim (filter_services services service) [
    | [] ↦ (false, some (failed ("no services " <> service <> " found in project " <> project)))
    | _ ∷ _ ↦ (true, none)
  ]

  -- The two loops: the first stage of the first project that has one decides.
  search_projects :
      KeptnInstance → String → String → String → List ModelProject → Exec E (Bool × Option GoError)
  search_projects instance_ token project service [] = pure (false, none)
  search_projects instance_ token project service (proj ∷ projects) = elim proj.stages [
    | [] ↦ search_projects instance_ token project service projects
    | stage ∷ _ ↦ do
      services ← perform (get_all_services instance_.spec.api_url token proj.project_name stage)
      pure (services_found project service services)
  ]

  with_projects :
      KeptnInstance
      → String
      → String
      → String
      → Reply (List ModelProject)
      → Exec E (Bool × Option GoError)
  unfolding search_projects
  with_projects instance_ token project service (error err) = pure (false, some err)
  with_projects instance_ token project service (value projects) =
      elim (filter_projects projects project) [
        | [] ↦ pure (
            if project == ""
            then (false, some (failed "no projects found"))
            else (false, some (failed ("no project " <> project <> " found"))))
        | proj ∷ more ↦ search_projects instance_ token project service (proj ∷ more)
      ]

  pub check_if_service_exists :
      KeptnInstance → String → String → String → Exec E (Bool × Option GoError)
  unfolding with_projects
  check_if_service_exists instance_ token project service = do
    projects ← perform (get_all_projects instance_.spec.api_url token)
    with_projects instance_ token project service projects

  trigger_task : KeptnInstance → String → KeptnSequenceExecutionSpec → Exec E (Reply String)
  trigger_task instance_ token spec = do
    bad ← perform (new_request "POST" (instance_.spec.api_url <> "/v1/event"))
    elim bad [
      | some err ↦ pure (error err)
      | none ↦ do
        response ← perform (send (trigger_request instance_ token spec))
        lift (event_response E response)
    ]

  -- Write the status; a failure is logged only.
  save : KeptnSequenceExecution → Exec E (Option GoError)
  save kse = perform (update_status keptn_sequence_execution kse)

  -- The object whose status is written after its event has been triggered.
  unfoldable pub applied : KeptnSequenceExecution → String → KeptnSequenceExecution
  applied kse kcontext = record kse {
    status = record kse.status {
      update_pending = false;
      keptn_context = kcontext;
      last_applied_hash = E.hash (of_sequence_execution kse.spec);
    };
  }

  finish : KeptnSequenceExecution → Reply String → Exec E Result
  unfolding save applied
  finish kse (error err) = pure (result true 0 (some err))
  finish kse (value kcontext) = do
    save (applied kse kcontext)
    pure (result false success_interval none)

  -- The test before triggerTask.
  unfoldable pub is_due : KeptnSequenceExecution → Bool
  is_due kse =
      kse.status.keptn_context == ""
      || (not (kse.status.last_applied_hash == E.hash (of_sequence_execution kse.spec))
          || kse.status.update_pending)

  apply : KeptnInstance → String → KeptnSequenceExecution → Exec E Result
  unfolding is_due trigger_task finish
  apply instance_ token kse =
      if is_due kse
      then (do kcontext ← trigger_task instance_ token kse.spec; finish kse kcontext)
      else pure (result false success_interval none)

  with_service : KeptnInstance → String → KeptnSequenceExecution → Bool → Exec E Result
  unfolding save
  with_service instance_ token kse false = do
    perform (
        record_event "Warning" "KeptnServiceNotFound" (
          "Keptn service "
          <> (kse.spec.service <> (" in project " <> (kse.spec.project <> " does not exist")))))
    save (record kse {
      status = record kse.status { service_exists = false; update_pending = true };
    })
    pure (result false 30 none)
  with_service instance_ token kse true =
      if kse.status.service_exists then apply instance_ token kse else do
        save (record kse { status = record kse.status { service_exists = true } })
        pure (result true 0 none)

  with_project : KeptnInstance → String → KeptnSequenceExecution → Bool → Exec E Result
  unfolding save
  with_project instance_ token kse false = do
    perform (
        record_event "Warning" "KeptnProjectNotFound"
          ("Keptn project " <> (kse.spec.project <> " does not exist")))
    save (record kse {
      status = record kse.status { project_exists = false; update_pending = true };
    })
    pure (result false 30 none)
  with_project instance_ token kse true =
      if kse.status.project_exists
      then (do
        service ← check_if_service_exists instance_ token kse.spec.project kse.spec.service
        with_service instance_ token kse service.0)
      else do
        save (record kse { status = record kse.status { project_exists = true } })
        pure (result true 0 none)

  with_object :
      NamespacedName → KeptnInstance → String → Reply KeptnSequenceExecution → Exec E Result
  with_object req instance_ token (error (not_found _)) = pure (result true 0 none)
  with_object req instance_ token (error (failed message)) =
      pure (result false 0 (some (failed message)))
  with_object req instance_ token (value kse) = do
    exists ← check_keptn_project req.namespace kse.spec.project
    with_project instance_ token kse exists

  with_instance : NamespacedName → Reply (KeptnInstance × String) → Exec E Result
  with_instance req (error err) = pure (result true error_interval none)
  with_instance req (value (instance_, token)) = do
    found ← perform (get_object keptn_sequence_execution req)
    with_object req instance_ token found

  pub reconcile : NamespacedName → Exec E Result
  unfolding check_keptn_project check_if_service_exists apply with_service with_project with_object
      with_instance
  reconcile req = do found ← get_keptn_instance E req.namespace; with_instance req found
