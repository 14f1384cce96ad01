-- ===== src/Operator/ScheduledExec.antt =====
-- keptn-operator/controllers/keptnscheduledexeccontroller: a KeptnScheduledExec creates one
-- KeptnSequenceExecution when its start time has passed. Times are numbers of seconds.
mod Tests
pub mod Starts
use keptn_gitops_operator.Base.{
  ℕ, String, true, false, not, ◌&&◌, none, some, not_found, failed, Reply, value, error,
  if◌then◌else◌, ltb,
}
use keptn_gitops_operator.Api.{no_meta, NamespacedName, KeptnSequenceExecution, KeptnScheduledExec}
use keptn_gitops_operator.Cluster.{
  ◌>>=◌, ◌>>◌, keptn_sequence_execution, keptn_scheduled_exec, get_object, create, update_status,
  now, Env, Exec, pure, perform,
}
use keptn_gitops_operator.Operator.Result.{Result, result}

abbrev pub execution_of : String → KeptnScheduledExec → KeptnSequenceExecution
execution_of namespace exec = record {
  meta = record no_meta { generate_name = "scheduledexecution-"; namespace = namespace };
  spec = exec.spec.sequence_execution_template;
  status = record {
    project_exists = false;
    service_exists = false;
    keptn_context = "";
    last_applied_hash = "";
    update_pending = false;
  };
}

module _ (E : Env) where
  save_then : KeptnScheduledExec → Exec E Result
  save_then exec = do
    bad ← perform (update_status keptn_scheduled_exec exec)
    pure (elim bad [ some err ↦ result true 10 (some err) | none ↦ result true 0 none ])

  start : String → KeptnScheduledExec → Exec E Result
  unfolding save_then
  start namespace exec = do
    bad ← perform (create keptn_sequence_execution (execution_of namespace exec))
    elim bad [
      | some err ↦ pure (result true 10 (some err))
      | none ↦ save_then (record exec { started = true })
    ]

  -- The clock is read once for each of the two tests.
  with_time : String → KeptnScheduledExec → Reply ℕ → Exec E Result
  unfolding start
  with_time namespace exec (error err) = pure (result false 0 (some err))
  with_time namespace exec (value scheduled) = do
    first ← perform now
    if ltb first scheduled && exec.started then save_then (record exec { started = false }) else do
      second ← perform now
      if ltb scheduled second && not exec.started
          then start namespace exec
          else pure (result false 30 none)

  with_object : NamespacedName → Reply KeptnScheduledExec → Exec E Result
  unfolding with_time
  with_object req (error (not_found _)) = pure (result true 0 none)
  with_object req (error (failed message)) = pure (result false 0 (some (failed message)))
  with_object req (value exec) = with_time req.namespace exec (E.parse_time exec.spec.start_time)

  pub reconcile : NamespacedName → Exec E Result
  unfolding with_object
  reconcile req = do found ← perform (get_object keptn_scheduled_exec req); with_object req found
