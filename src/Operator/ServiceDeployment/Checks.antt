-- ===== src/Operator/ServiceDeployment/Checks.antt =====
-- What the service deployment controller looks up: the project, the service in the cluster and in the
-- Keptn API, and the deployment context.
use keptn_gitops_operator.Base.{
  String, ◌<>◌, Bool, true, false, ◌&&◌, Option, none, some, List, [], ◌∷◌, ◌==◌, GoError,
  not_found, failed, Reply, value, error, if◌then◌else◌,
}
use keptn_gitops_operator.Api.{
  ObjectMeta, no_meta, KeptnService, KeptnInstance, KeptnDeploymentContext,
}
use keptn_gitops_operator.Cluster.{
  keptn_project, keptn_service, keptn_deployment_context, ModelProject, get_object, list_objects,
  get_all_projects, get_all_services, Env, Exec, pure, perform, ◌>>=◌,
}
use keptn_gitops_operator.Operator.Utils.{filter_projects, filter_services}

abbrev pub context_name : String → String → String → String
context_name project service version = project <> ("-" <> (service <> ("-" <> version)))

-- The zero KeptnDeploymentContext, under the name and namespace of the metadata.
abbrev pub empty_context : ObjectMeta → KeptnDeploymentContext
empty_context meta = record {
  meta = meta;
  spec = record { project = ""; service = ""; version = "" };
  status = record { last_applied_hash = none; keptn_context = "" };
}

abbrev pub no_service : KeptnService
no_service = record {
  meta = no_meta;
  spec = record { service = ""; project = ""; version = ""; stage = ""; deployment_event = "" };
  project_exists = false;
}

-- The loop of servicesList.
unfoldable pub find_service : List KeptnService → String → String → Reply KeptnService
find_service [] project service = error (failed "no service found")
find_service (svc ∷ items) project service =
    let rest = find_service items project service in
    if svc.spec.project == project && svc.spec.service == service then value svc else rest

module _ (E : Env) where
  unfoldable pub check_keptn_project : String → String → Exec E Bool
  check_keptn_project namespace project = do
    found ← perform (get_object keptn_project (record { name = project; namespace = namespace }))
    pure (elim found [ error _ ↦ false | value _ ↦ true ])

  unfoldable pub services_list : String → String → String → Exec E (Reply KeptnService)
  unfolding find_service
  services_list namespace project service = do
    items ← perform (list_objects keptn_service (some namespace))
    pure (elim items [ error err ↦ error err | value l ↦ find_service l project service ])

  abbrev pub services_found : String → Reply (List String) → Bool
  services_found service (error err) = false
  services_found service (value services) = elim (filter_services services service) [
    | [] ↦ false
    | _ ∷ _ ↦ true
  ]

  -- The two loops: the first stage of the first project that has one decides.
  unfoldable pub search_projects : KeptnInstance → String → String → List ModelProject → Exec E Bool
  search_projects instance_ token service [] = pure false
  search_projects instance_ token service (proj ∷ projects) = elim proj.stages [
    | [] ↦ search_projects instance_ token service projects
    | stage ∷ _ ↦ do
      services ← perform (get_all_services instance_.spec.api_url token proj.project_name stage)
      pure (services_found service services)
  ]

  unfoldable pub with_listed :
      KeptnInstance → String → String → String → Reply KeptnService → Exec E (KeptnService × Bool)
  unfolding search_projects
  with_listed instance_ token project service (error err) = pure (no_service, false)
  with_listed instance_ token project service (value svc) = do
    projects ← perform (get_all_projects instance_.spec.api_url token)
    elim projects [
      | error err ↦ pure (svc, false)
      | value l ↦ do
        exists ← search_projects instance_ token service (filter_projects l project)
        pure (svc, exists)
    ]

  -- The KeptnService, with whether the Keptn API has the service too. The stages that the function
  -- returns beside them are dropped by its caller.
  unfoldable pub check_if_service_exists :
      String → KeptnInstance → String → String → String → Exec E (KeptnService × Bool)
  unfolding services_list with_listed
  check_if_service_exists namespace instance_ token project service = do
    svc ← services_list namespace project service
    with_listed instance_ token project service svc

  -- An error other than "not found" leaves the empty context, which is not new.
  abbrev pub context_found :
      Reply KeptnDeploymentContext → KeptnDeploymentContext × Bool × Option GoError
  context_found (error (not_found message)) = (empty_context no_meta, true, none)
  context_found (error (failed message)) = (empty_context no_meta, false, some (failed message))
  context_found (value found) = (found, false, none)

  unfoldable pub get_keptn_context :
      String → String → String → String → Exec E (KeptnDeploymentContext × Bool × Option GoError)
  get_keptn_context namespace project service version = do
    found ← perform (
        get_object keptn_deployment_context
          (record { name = context_name project service version; namespace = namespace }))
    pure (context_found found)
