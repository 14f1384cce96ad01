-- ===== src/Operator/Service.antt =====
-- keptn-operator/controllers/keptnservicecontroller: a KeptnService is a service of the Keptn API.
-- A finalizer holds the object until the service is deleted there.
mod Tests
pub mod Sends
pub mod Deletion
pub mod Creation
use keptn_gitops_operator.Base.{
  String, ◌<>◌, Bool, true, false, Option, none, some, List, [], ◌∷◌, ◌==◌, GoError, not_found,
  failed, error_text, Reply, value, error, if◌then◌else◌,
}
use keptn_gitops_operator.Api.{NamespacedName, KeptnProject, KeptnService, KeptnInstance}
use keptn_gitops_operator.Cluster.{
  ◌>>=◌, ◌>>◌, keptn_project, keptn_service, Body, no_body, fields, HttpRequest, HttpResponse,
  ModelProject, get_object, update, update_status, record_event, get_all_projects, get_all_services,
  new_request, send, Env, Exec, pure, panic, perform,
}
use keptn_gitops_operator.Operator.Result.{Result, result, error_interval, success_interval}
use keptn_gitops_operator.Operator.Utils.{
  contains_string, check_response_code, filter_projects, filter_services, key_of,
  get_keptn_instance,
}

abbrev pub finalizer : String
finalizer = "keptnservices.keptn.sh/finalizer"

abbrev service_url : KeptnInstance → String → String
service_url instance_ project =
    instance_.spec.api_url <> ("/controlPlane/v1/project/" <> (project <> "/service"))

abbrev request_of : KeptnInstance → String → String → String → Body → HttpRequest
request_of instance_ token method url body = record {
  method = method;
  url = url;
  content_type = "application/json";
  auth_header = instance_.status.auth_header;
  token = token;
  body = body;
}

module _ (E : Env) where
  abbrev is_ready : Reply KeptnProject → Bool
  is_ready (error _) = false
  is_ready (value project) = project.project_exists

  check_keptn_project : String → String → Exec E Bool
  check_keptn_project namespace project = do
    found ← perform (get_object keptn_project (key_of namespace project))
    pure (is_ready found)

  -- An invalid URL is logged, and the nil request is used.
  delete_keptn_service : KeptnInstance → String → KeptnService → Exec E (Option GoError)
  delete_keptn_service instance_ token svc = do
    let url = service_url instance_ svc.spec.project <> ("/" <> svc.spec.service)
    bad ← perform (new_request "DELETE" url)
    elim bad [
      | some _ ↦ panic "nil pointer dereference"
      | none ↦ do
        response ← perform (send (request_of instance_ token "DELETE" url no_body))
        pure (elim response [ error err ↦ some err | value _ ↦ none ])
    ]

  abbrev created : String → Reply HttpResponse → Option GoError
  created service (error err) = some err
  created service (value response) = elim (check_response_code response 200) [
    | none ↦ none
    | some err ↦
        some (failed ("could not create service " <> (service <> (": " <> error_text err))))
  ]

  create_service : KeptnInstance → String → String → String → Exec E (Option GoError)
  create_service instance_ token service project = do
    bad ← perform (new_request "POST" (service_url instance_ project))
    elim bad [
      | some err ↦ pure (some err)
      | none ↦ do
        response ← perform (
            send (
              request_of instance_ token "POST" (service_url instance_ project)
                (fields (("serviceName", service) ∷ []))))
        pure (created service response)
    ]

  abbrev services_found : String → String → Reply (List String) → Bool × Option GoError
  services_found project service (error err) = (false, some err)
  services_found project service (value services) = elim (filter_services services service) [
    | [] ↦ (false, some (failed ("no services " <> (service <> (" found in project " <> project)))))
    | _ ∷ _ ↦ (true, none)
  ]

  -- The two loops: the first stage of the first project that has one decides.
  search_projects :
      KeptnInstance → String → String → String → List ModelProject → Exec E (Bool × Option GoError)
  search_projects instance_ token project service [] = pure (false, none)
  search_projects instance_ token project service (proj ∷ projects) = elim proj.stages [
    | [] ↦ search_projects instance_ token project service projects
    | stage ∷ _ ↦ do
      services ← perform (get_all_services instance_.spec.api_url token proj.project_name stage)
      pure (services_found project service services)
  ]

  with_projects :
      KeptnInstance
      → String
      → String
      → String
      → Reply (List ModelProject)
      → Exec E (Bool × Option GoError)
  unfolding search_projects
  with_projects instance_ token project service (error err) = pure (false, some err)
  with_projects instance_ token project service (value projects) =
      elim (filter_projects projects project) [
        | [] ↦ pure (
            if project == ""
            then (false, some (failed "no projects found"))
            else (false, some (failed ("no project " <> (project <> " found: %!w(<nil>)")))))
        | proj ∷ more ↦ search_projects instance_ token project service (proj ∷ more)
      ]

  pub check_if_service_exists :
      KeptnInstance → String → String → String → Exec E (Bool × Option GoError)
  unfolding with_projects
  check_if_service_exists instance_ token project service = do
    projects ← perform (get_all_projects instance_.spec.api_url token)
    with_projects instance_ token project service projects

  -- The last part. An error of the look-up is returned even if the service has been created.
  pub with_existence : KeptnInstance → String → KeptnService → Bool × Option GoError → Exec E Result
  unfolding create_service
  with_existence instance_ token svc (true, err) = pure (result true success_interval err)
  with_existence instance_ token svc (false, err) = do
    bad ← create_service instance_ token svc.spec.service svc.spec.project
    pure (elim bad [
      | none ↦ result true success_interval err
      | some failure ↦ result true error_interval (some failure)
    ])

  save_then : KeptnService → Result → Exec E Result
  save_then svc next = do
    bad ← perform (update_status keptn_service svc)
    pure (elim bad [ none ↦ next | some err ↦ result true error_interval (some err) ])

  with_project : KeptnInstance → String → KeptnService → Bool → Exec E Result
  unfolding check_if_service_exists with_existence save_then
  with_project instance_ token svc false = do
    perform (
        record_event "Warning" "KeptnProjectNotFound"
          ("Keptn project " <> (svc.spec.project <> " does not exist")))
    save_then (record svc { project_exists = false }) (result false 30 none)
  with_project instance_ token svc true =
      if svc.project_exists
      then (do
        exists ← check_if_service_exists instance_ token svc.spec.project svc.spec.service
        with_existence instance_ token svc exists)
      else save_then (record svc { project_exists = true }) (result true 0 none)

  -- An object that is not being deleted.
  with_live : String → KeptnInstance → String → KeptnService → Exec E Result
  unfolding check_keptn_project with_project
  with_live namespace instance_ token svc = do
    exists ← check_keptn_project namespace svc.spec.project
    with_project instance_ token svc exists

  abbrev with_finalizers : KeptnService → List String → KeptnService
  with_finalizers svc finalizers = record svc { meta = record svc.meta { finalizers = finalizers } }

  -- Register the finalizer first, if it is not there.
  register : String → KeptnInstance → String → KeptnService → Exec E Result
  unfolding with_live
  register namespace instance_ token svc =
      if contains_string svc.meta.finalizers finalizer
      then with_live namespace instance_ token svc
      else do
        let svc' = with_finalizers svc (E.add_finalizer svc.meta.finalizers finalizer)
        bad ← perform (update keptn_service svc')
        elim bad [
          | some err ↦ pure (result false 0 (some err))
          | none ↦ with_live namespace instance_ token svc'
        ]

  -- An object under deletion: delete the service, then drop the finalizer.
  finalize : KeptnInstance → String → KeptnService → Exec E Result
  unfolding delete_keptn_service
  finalize instance_ token svc =
      if contains_string svc.meta.finalizers finalizer
      then (do
        bad ← delete_keptn_service instance_ token svc
        elim bad [
          | some err ↦ pure (result false 0 (some err))
          | none ↦ do
            stale ← perform (
                update keptn_service
                  (with_finalizers svc (E.remove_finalizer svc.meta.finalizers finalizer)))
            pure (result false 0 stale)
        ])
      else pure (result false 0 none)

  pub with_object : NamespacedName → KeptnInstance → String → Reply KeptnService → Exec E Result
  unfolding register finalize
  with_object req instance_ token (error (not_found _)) = pure (result true 0 none)
  with_object req instance_ token (error (failed _)) = pure (result true error_interval none)
  with_object req instance_ token (value svc) =
      if svc.meta.deleting
      then finalize instance_ token svc
      else register req.namespace instance_ token svc

  with_instance : NamespacedName → Reply (KeptnInstance × String) → Exec E Result
  unfolding with_object
  with_instance req (error err) = pure (result true error_interval none)
  with_instance req (value (instance_, token)) = do
    found ← perform (get_object keptn_service req)
    with_object req instance_ token found

  pub reconcile : NamespacedName → Exec E Result
  unfolding with_instance
  reconcile req = do found ← get_keptn_instance E req.namespace; with_instance req found
