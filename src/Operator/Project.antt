-- ===== src/Operator/Project.antt =====
-- keptn-operator/controllers/keptnprojectcontroller: a KeptnProject is a project of the Keptn API,
-- with a KeptnShipyard of its own. A finalizer holds it until the project is deleted there.
mod Tests
pub mod Requests
pub mod Sends
pub mod Deletion
unfoldable pub use Requests.*
use keptn_gitops_operator.Base.{
  String, ◌<>◌, Bool, true, false, Option, none, some, List, [], ◌∷◌, ◌==◌, GoError, not_found,
  failed, error_text, Reply, value, error, if◌then◌else◌,
}
use keptn_gitops_operator.Api.{NamespacedName, KeptnProject, KeptnShipyard, KeptnInstance}
use keptn_gitops_operator.Cluster.{
  keptn_project, keptn_shipyard, of_shipyard_spec, Body, no_body, fields, HttpRequest, HttpResponse,
  get_object, create, update, update_status, set_controller_reference, record_event, new_request,
  send, Env, Exec, pure, panic, lift, perform, ◌>>=◌, ◌>>◌,
}
use keptn_gitops_operator.Operator.Result.{Result, result, error_interval, success_interval}
use keptn_gitops_operator.Operator.Utils.{
  contains_string, check_response_code, get_keptn_instance, check_keptn_project_exists,
}
use keptn_gitops_operator.Operator.Secrets.{decrypt_secret}
use keptn_gitops_operator.Operator.Compose.{create_shipyard, update_shipyard, check_keptn_shipyard}

abbrev pub finalizer : String
finalizer = "keptnprojects.keptn.sh/finalizer"

-- The interval is the success interval, or the error interval beside an error, and 0 at once.
unfoldable pub finish_reconcile : Option GoError → Bool → Result
finish_reconcile (some err) requeue_immediate =
    result true (if requeue_immediate then 0 else error_interval) (some err)
finish_reconcile none requeue_immediate =
    result true (if requeue_immediate then 0 else success_interval) none

module _ (E : Env) where
  -- A shipyard that is not in the cluster yet, as it is created, but for its owner.
  unfoldable pub fresh_shipyard : String → KeptnShipyard → KeptnShipyard
  fresh_shipyard namespace shipyard = record shipyard {
    meta = record shipyard.meta { namespace = namespace };
    status = record shipyard.status { last_applied_hash = E.hash (of_shipyard_spec shipyard.spec) };
  }

  create_object : String → KeptnProject → KeptnShipyard → Exec E Result
  unfolding finish_reconcile fresh_shipyard
  create_object namespace project shipyard = do
    let shipyard' = fresh_shipyard namespace shipyard
    owned ← perform (set_controller_reference project.meta.name shipyard'.meta)
    elim owned [
      | error err ↦ pure (finish_reconcile (some err) false)
      | value owners ↦ do
        bad ← perform (
            create keptn_shipyard
              (record shipyard' { meta = record shipyard'.meta { owners = owners } }))
        pure (elim bad [
          | some err ↦ finish_reconcile (some err) false
          | none ↦ finish_reconcile none true
        ])
    ]

  sync_shipyard : String → KeptnProject → KeptnShipyard → Bool × String → Exec E Result
  unfolding create_object finish_reconcile
  sync_shipyard namespace project shipyard (false, shipyard_hash) =
      create_object namespace project shipyard
  sync_shipyard namespace project shipyard (true, shipyard_hash) = do
    bad ← update_shipyard E shipyard shipyard_hash namespace
    pure (finish_reconcile bad false)

  with_shipyard : String → KeptnProject → Reply KeptnShipyard → Exec E Result
  unfolding sync_shipyard finish_reconcile
  with_shipyard namespace project (error err) = pure (finish_reconcile (some err) false)
  with_shipyard namespace project (value shipyard) = do
    present ← check_keptn_shipyard E namespace project.meta.name
    sync_shipyard namespace project shipyard present

  save_then : KeptnProject → Exec E Result
  unfolding finish_reconcile
  save_then project = do
    bad ← perform (update_status keptn_project project)
    pure (elim bad [
      | some err ↦ finish_reconcile (some err) false
      | none ↦ finish_reconcile none true
    ])

  -- The project is not known to the API: report it if it was, and else create it.
  with_missing : KeptnInstance → String → KeptnProject → Exec E Result
  unfolding save_then create_project finish_reconcile
  with_missing instance_ token project =
      if project.project_exists
      then (do
        perform (
            record_event "Warning" "KeptnProjectNotFound"
              ("Keptn project " <> (project.meta.name <> " does not exist in Keptn")))
        save_then (record project { project_exists = false }))
      else do
        bad ← create_project E instance_ token project
        pure (elim bad [
          | some err ↦ finish_reconcile (some err) false
          | none ↦ result false error_interval none
        ])

  pub with_existence : String → KeptnInstance → String → KeptnProject → Bool → Exec E Result
  unfolding with_missing with_shipyard
  with_existence namespace instance_ token project false = with_missing instance_ token project
  with_existence namespace instance_ token project true =
      if project.project_exists
      then (do
        shipyard ← create_shipyard E project.meta.name
        with_shipyard namespace project shipyard)
      else save_then (record project { project_exists = true })

  -- An object that is not being deleted.
  with_live : String → KeptnInstance → String → KeptnProject → Exec E Result
  unfolding with_existence
  with_live namespace instance_ token project = do
    exists ← check_keptn_project_exists E namespace project.meta.name
    with_existence namespace instance_ token project exists.0

  abbrev with_finalizers : KeptnProject → List String → KeptnProject
  with_finalizers project finalizers = record project {
    meta = record project.meta { finalizers = finalizers };
  }

  -- Register the finalizer first, if it is not there.
  register : String → KeptnInstance → String → KeptnProject → Exec E Result
  unfolding with_live finish_reconcile
  register namespace instance_ token project =
      if contains_string project.meta.finalizers finalizer
      then with_live namespace instance_ token project
      else do
        let project' = with_finalizers project (E.add_finalizer project.meta.finalizers finalizer)
        bad ← perform (update keptn_project project')
        elim bad [
          | some err ↦ pure (finish_reconcile (some err) false)
          | none ↦ with_live namespace instance_ token project'
        ]

  -- An object under deletion: delete the project, then drop the finalizer.
  finalize : KeptnInstance → String → KeptnProject → Exec E Result
  unfolding delete_keptn_project finish_reconcile
  finalize instance_ token project =
      if contains_string project.meta.finalizers finalizer
      then (do
        bad ← delete_keptn_project E instance_ token project
        elim bad [
          | some err ↦ pure (result false 0 (some err))
          | none ↦ do
            stale ← perform (
                update keptn_project
                  (with_finalizers project (E.remove_finalizer project.meta.finalizers finalizer)))
            pure (elim stale [
              | some err ↦ result false 0 (some err)
              | none ↦ finish_reconcile none false
            ])
        ])
      else pure (finish_reconcile none false)

  pub with_object : NamespacedName → KeptnInstance → String → Reply KeptnProject → Exec E Result
  unfolding register finalize finish_reconcile
  with_object req instance_ token (error (not_found _)) = pure (finish_reconcile none false)
  with_object req instance_ token (error (failed message)) =
      pure (finish_reconcile (some (failed message)) false)
  with_object req instance_ token (value project) =
      if project.meta.deleting
      then finalize instance_ token project
      else register req.namespace instance_ token project

  with_instance : NamespacedName → Reply (KeptnInstance × String) → Exec E Result
  unfolding with_object finish_reconcile
  with_instance req (error err) = pure (finish_reconcile (some err) false)
  with_instance req (value (instance_, token)) = do
    found ← perform (get_object keptn_project req)
    with_object req instance_ token found

  pub reconcile : NamespacedName → Exec E Result
  unfolding with_instance
  reconcile req = do found ← get_keptn_instance E req.namespace; with_instance req found
