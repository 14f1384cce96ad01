-- ===== src/Operator/SequenceExecution/Tests.antt =====
-- Runs of the sequence execution controller on the small cluster.
use keptn_gitops_operator.Api.{KeptnSequenceExecutionSpec}
use keptn_gitops_operator.Base.{
  index, some, ◌∷◌, [], false, eq_iff, lookup, String, ◌≤◌, ◌≡◌, ◌≢◌, refl, arith, some,
}
use keptn_gitops_operator.Cluster.{World}
use keptn_gitops_operator.Api.{KeptnSequenceExecution}
use keptn_gitops_operator.Cluster.{perform}
use keptn_gitops_operator.Cluster.Sample.{sample_env, sample_world, execution, execution_spec, key}
use keptn_gitops_operator.Cluster.Sample.Laws.{execution_is_stored, execution_Stores}
use keptn_gitops_operator.Operator.Utils.Traces.{sends}
use keptn_gitops_operator.Operator.SequenceExecution.{reconcile, applied, is_due, trigger_event}
use keptn_gitops_operator.Operator.SequenceExecution.Sends.{sends-reconcile_execution}
use keptn_gitops_operator.Operator.SequenceExecution.Once.{
  idle-reconcile, last_saved, reconcile_once,
}
use keptn_gitops_operator.Operator.SequenceExecution.Events.{version_is_lost}
use keptn_gitops_operator.Operator.Utils.{
  get_keptn_instance, filter_projects, filter_services, event_response, check_response_code,
}
use keptn_gitops_operator.Operator.Secrets.{decrypt_secret}

abbrev triggered : KeptnSequenceExecution
triggered = applied sample_env execution "ctx"

abbrev first_run : World sample_env
first_run = (reconcile sample_env (key "run") sample_world).1

first_run-sends : sends sample_env first_run ≡ 1
unfolding reconcile perform is_due get_keptn_instance decrypt_secret filter_projects filter_services
    event_response check_response_code
first_run-sends = refl

first_run-saves : last_saved first_run.trace ≡ some triggered
unfolding reconcile perform is_due get_keptn_instance decrypt_secret filter_projects filter_services
    event_response check_response_code
first_run-saves = refl

context_given : ◌≢◌ {A = String} "ctx" ""
context_given e = ground (arith, (eq_iff "ctx" "").1 e)

version_given : ◌≢◌ {A = String} "1.2" ""
version_given e = ground (arith, (eq_iff "1.2" "").1 e)

reconcile_once_example :
    sends sample_env (reconcile sample_env (key "run") first_run).1 ≡ sends sample_env first_run
unfolding applied
reconcile_once_example =
    reconcile_once sample_env execution_Stores (key "run") triggered sample_world first_run-sends
      first_run-saves context_given

sends-reconcile_execution_example : sends sample_env first_run ≤ 1
sends-reconcile_execution_example = sends-reconcile_execution sample_env (key "run") sample_world

abbrev newer_spec : KeptnSequenceExecutionSpec
newer_spec = record execution_spec { labels = some (("version", "1.3") ∷ []) }

newer_version_given : index newer_spec.labels "version" ≢ ""
unfolding lookup
newer_version_given e = ground (arith, (eq_iff "1.3" "").1 e)

version_is_lost_example : (trigger_event execution_spec).image ≡ (trigger_event newer_spec).image
unfolding lookup
version_is_lost_example =
    version_is_lost execution_spec newer_spec refl refl version_given newer_version_given

abbrev settled_world : World sample_env
settled_world = record sample_world { state = record sample_world.state { execution = triggered } }

triggered_is_idle : is_due sample_env triggered ≡ false
unfolding is_due applied
triggered_is_idle = refl

triggered_is_stored : execution_Stores.stored settled_world.state (key "run") ≡ some triggered
unfolding applied
triggered_is_stored = execution_is_stored triggered

idle-reconcile_example : sends sample_env (reconcile sample_env (key "run") settled_world).1 ≡ 0
idle-reconcile_example =
    idle-reconcile sample_env execution_Stores (key "run") triggered triggered_is_idle settled_world
      triggered_is_stored
