-- ===== src/Operator/Stage.antt =====
-- keptn-operator/controllers/keptnstagecontroller: a change of a KeptnStage updates the shipyard of
-- its project. The controller of KeptnSequences does nothing but ask for the next run.
use keptn_gitops_operator.Base.{
  String, Bool, true, false, none, some, not_found, failed, Reply, value, error,
}
use keptn_gitops_operator.Api.{NamespacedName, KeptnStage, KeptnShipyard}
use keptn_gitops_operator.Cluster.{keptn_stage, get_object, Env, Exec, pure, perform, ◌>>=◌}
use keptn_gitops_operator.Operator.Result.{Result, result, error_interval, success_interval}
use keptn_gitops_operator.Operator.Compose.{create_shipyard, update_shipyard, check_keptn_shipyard}

module _ (E : Env) where
  sync_shipyard : String → KeptnShipyard → Bool × String → Exec E Result
  sync_shipyard namespace shipyard (false, shipyard_hash) = pure (result true error_interval none)
  sync_shipyard namespace shipyard (true, shipyard_hash) = do
    bad ← update_shipyard E shipyard shipyard_hash namespace
    pure (elim bad [
      | some _ ↦ result true error_interval none
      | none ↦ result false success_interval none
    ])

  with_shipyard : String → KeptnStage → Reply KeptnShipyard → Exec E Result
  unfolding sync_shipyard
  with_shipyard namespace stage (error err) = pure (result false error_interval (some err))
  with_shipyard namespace stage (value shipyard) = do
    present ← check_keptn_shipyard E namespace stage.spec.project
    sync_shipyard namespace shipyard present

  with_object : NamespacedName → Reply KeptnStage → Exec E Result
  unfolding with_shipyard
  with_object req (error (not_found _)) = pure (result true 0 none)
  with_object req (error (failed message)) = pure (result false 0 (some (failed message)))
  with_object req (value stage) = do
    shipyard ← create_shipyard E stage.spec.project
    with_shipyard req.namespace stage shipyard

  pub reconcile : NamespacedName → Exec E Result
  unfolding with_object
  reconcile req = do found ← perform (get_object keptn_stage req); with_object req found

  pub reconcile_sequence : NamespacedName → Exec E Result
  reconcile_sequence req = pure (result false 30 none)
