-- ===== src/Operator/ServiceDeployment.antt =====
-- keptn-operator/controllers/keptnservicedeploymentcontroller: a KeptnServiceDeployment triggers
-- the deployment event of its service. The stages of one version share a deployment context.
mod Tests
pub mod Checks
pub mod Event
pub mod Sends
pub mod Labels
pub mod Contexts
unfoldable pub use Event.*
unfoldable pub use Checks.*
use keptn_gitops_operator.Base.{
  String, ◌<>◌, Bool, true, false, not, ◌&&◌, ◌||◌, Option, none, some, List, [], ◌∷◌, ◌==◌,
  GoError, not_found, failed, Reply, value, error, if◌then◌else◌, insert, GoMap, index,
}
use keptn_gitops_operator.Api.{
  ObjectMeta, no_meta, NamespacedName, KeptnService, KeptnInstance, KeptnServiceDeploymentSpec,
  KeptnServiceDeployment, KeptnDeploymentContext,
}
use keptn_gitops_operator.Cluster.{
  keptn_project, keptn_service, keptn_service_deployment, keptn_deployment_context,
  of_service_deployment, KeptnTriggerEvent, event, HttpRequest, ModelProject, get_object,
  list_objects, create, update_status, set_controller_reference, record_event, get_all_projects,
  get_all_services, new_request, send, Env, Exec, pure, lift, perform, ◌>>=◌, ◌>>◌,
}
use keptn_gitops_operator.Operator.Result.{Result, result, error_interval, success_interval}
use keptn_gitops_operator.Operator.Utils.{
  filter_projects, filter_services, event_response, get_keptn_instance,
}

abbrev owned_context : KeptnDeploymentContext → Reply (List String) → KeptnDeploymentContext
owned_context context (error _) = context
owned_context context (value owners) = record context {
  meta = record context.meta { owners = owners };
}

module _ (E : Env) where
  save : KeptnServiceDeployment → Exec E (Option GoError)
  save ksd = perform (update_status keptn_service_deployment ksd)

  -- `Status().Update`, and what both results of it return.
  save_then : KeptnServiceDeployment → Result → Exec E Result
  unfolding save
  save_then ksd next = do
    bad ← save ksd
    pure (elim bad [ none ↦ next | some err ↦ result true error_interval (some err) ])

  unfoldable pub applied_context :
      KeptnServiceDeployment → String → KeptnDeploymentContext → KeptnDeploymentContext
  applied_context ksd kcontext context = record context {
    status = record {
      last_applied_hash = some (
          insert ksd.spec.stage (E.hash (of_service_deployment ksd.spec))
            (pairs_of context.status.last_applied_hash));
      keptn_context = kcontext;
    };
  }

  unfoldable pub applied : KeptnServiceDeployment → String → KeptnServiceDeployment
  applied ksd kcontext = record ksd {
    status = record ksd.status {
      update_pending = false;
      keptn_context = kcontext;
      last_applied_hash = E.hash (of_service_deployment ksd.spec);
    };
  }

  finish : KeptnServiceDeployment → KeptnDeploymentContext → Reply String → Exec E Result
  unfolding save
  finish ksd context (error err) = pure (result true 0 (some err))
  finish ksd context (value kcontext) = do
    perform (update_status keptn_deployment_context (applied_context ksd kcontext context))
    save (applied ksd kcontext)
    pure (result false 30 none)

  unfoldable pub is_due : KeptnServiceDeployment → KeptnDeploymentContext → Bool
  is_due ksd context =
      not (
        index context.status.last_applied_hash ksd.spec.stage
        == E.hash (of_service_deployment ksd.spec))
      || ksd.status.update_pending

  apply :
      KeptnInstance
      → String
      → KeptnServiceDeployment
      → KeptnService
      → KeptnDeploymentContext
      → Exec E Result
  unfolding is_due trigger_task finish
  apply instance_ token ksd service context =
      if is_due ksd context
      then (do
        kcontext ←
            trigger_task E instance_ token ksd.spec service.spec.deployment_event
              context.status.keptn_context
        finish ksd context kcontext)
      else pure (result false 30 none)

  -- The context that is created is owned by the KeptnService if the reference could be set.
  create_context : String → KeptnServiceDeployment → KeptnService → Exec E Result
  create_context namespace ksd service = do
    let context = empty_context (record no_meta {
      name = context_name ksd.spec.project ksd.spec.service ksd.spec.version;
      namespace = namespace;
    })
    owners ← perform (set_controller_reference service.meta.name context.meta)
    bad ← perform (create keptn_deployment_context (owned_context context owners))
    pure (elim bad [ none ↦ result true 0 none | some err ↦ result true 0 (some err) ])

  with_context :
      String
      → KeptnInstance
      → String
      → KeptnServiceDeployment
      → KeptnService
      → KeptnDeploymentContext × Bool × Option GoError
      → Exec E Result
  unfolding apply create_context
  with_context namespace instance_ token ksd service (context, true, _) =
      create_context namespace ksd service
  with_context namespace instance_ token ksd service (context, false, _) =
      apply instance_ token ksd service context

  abbrev with_prerequisites : KeptnServiceDeployment → Bool → Bool → Bool → KeptnServiceDeployment
  with_prerequisites ksd project_exists service_exists pending = record ksd {
    status = record ksd.status {
      prerequisites = record ksd.status.prerequisites {
        project_exists = project_exists;
        service_exists = service_exists;
      };
      update_pending = pending;
    };
  }

  with_service :
      String → KeptnInstance → String → KeptnServiceDeployment → KeptnService × Bool → Exec E Result
  unfolding save_then get_keptn_context with_context
  with_service namespace instance_ token ksd (service, false) = do
    perform (
        record_event "Warning" "KeptnServiceNotFound" (
          "Keptn service "
          <> (ksd.spec.service <> (" in project " <> (ksd.spec.project <> " does not exist")))))
    save_then (with_prerequisites ksd ksd.status.prerequisites.project_exists false true)
        (result false 30 none)
  with_service namespace instance_ token ksd (service, true) =
      if ksd.status.prerequisites.service_exists
      then (do
        context ← get_keptn_context E namespace ksd.spec.project ksd.spec.service ksd.spec.version
        with_context namespace instance_ token ksd service context)
      else save_then
          (with_prerequisites ksd ksd.status.prerequisites.project_exists true
            ksd.status.update_pending)
          (result true success_interval none)

  with_project : String → KeptnInstance → String → KeptnServiceDeployment → Bool → Exec E Result
  unfolding save_then check_if_service_exists with_service
  with_project namespace instance_ token ksd false = do
    perform (
        record_event "Warning" "KeptnProjectNotFound"
          ("Keptn project " <> (ksd.spec.project <> " does not exist")))
    save_then (with_prerequisites ksd false ksd.status.prerequisites.service_exists true)
        (result false 30 none)
  with_project namespace instance_ token ksd true =
      if ksd.status.prerequisites.project_exists
      then (do
        service ←
            check_if_service_exists E namespace instance_ token ksd.spec.project ksd.spec.service
        with_service namespace instance_ token ksd service)
      else save_then
          (with_prerequisites ksd true ksd.status.prerequisites.service_exists
            ksd.status.update_pending)
          (result true error_interval none)

  with_object :
      NamespacedName → KeptnInstance → String → Reply KeptnServiceDeployment → Exec E Result
  with_object req instance_ token (error (not_found _)) = pure (result true 0 none)
  with_object req instance_ token (error (failed message)) =
      pure (result true error_interval (some (failed message)))
  with_object req instance_ token (value ksd) = do
    exists ← check_keptn_project E req.namespace ksd.spec.project
    with_project req.namespace instance_ token ksd exists

  with_instance : NamespacedName → Reply (KeptnInstance × String) → Exec E Result
  with_instance req (error err) = pure (result true error_interval none)
  with_instance req (value (instance_, token)) = do
    found ← perform (get_object keptn_service_deployment req)
    with_object req instance_ token found

  pub reconcile : NamespacedName → Exec E Result
  unfolding check_keptn_project with_project with_object with_instance
  reconcile req = do found ← get_keptn_instance E req.namespace; with_instance req found
