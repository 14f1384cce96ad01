-- ===== src/Operator/ServiceDeployment/Tests.antt =====
-- Deployments of two stages on the small cluster.
use keptn_gitops_operator.Base.{eq_iff, true}
use keptn_gitops_operator.Base.{eq_iff, String, ◌<>◌, refl, String}
use keptn_gitops_operator.Base.{
  eq_iff, String, ◌<>◌, refl, ◌≤◌, ◌≡◌, ◌≢◌, false, arith, none, some, ◌∷◌, [], lookup,
}
use keptn_gitops_operator.Api.{
  KeptnServiceDeployment, KeptnServiceDeploymentSpec, KeptnDeploymentContext,
}
use keptn_gitops_operator.Cluster.Sample.{sample_env, sample_world, meta, key}
use keptn_gitops_operator.Operator.Utils.Traces.{sends}
use keptn_gitops_operator.Operator.ServiceDeployment.{
  reconcile, is_due, applied_context, event_labels,
}
use keptn_gitops_operator.Operator.ServiceDeployment.Sends.{sends-reconcile_deployment}
use keptn_gitops_operator.Operator.ServiceDeployment.Labels.{lookup-event_labels}
use keptn_gitops_operator.Operator.ServiceDeployment.Contexts.{applied_elsewhere}

abbrev spec_of : String → KeptnServiceDeploymentSpec
spec_of stage = record {
  project = "podtato";
  service = "web";
  stage = stage;
  version = "1.2";
  config_version = "7";
  author = "";
  source_commit_hash = "";
  labels = some (("version", "own") ∷ []);
}

abbrev deployment : String → KeptnServiceDeployment
deployment stage = record {
  meta = meta ("web-" <> stage);
  spec = spec_of stage;
  status = record {
    deployed_version = "";
    deployed_config_version = "";
    update_pending = false;
    keptn_context = "";
    last_applied_hash = "";
    prerequisites = record { project_exists = true; service_exists = true; stage_exists = true };
    progress = record { artifact_available = true; deployment_triggered = false };
  };
}

abbrev context : KeptnDeploymentContext
context = record {
  meta = meta "podtato-web-1.2";
  spec = record { project = "podtato"; service = "web"; version = "1.2" };
  status = record { last_applied_hash = some (("prod", "h0") ∷ []); keptn_context = "ctx" };
}

apart : ◌≢◌ {A = String} "dev" "prod"
apart e = ground (arith, (eq_iff "dev" "prod").1 e)

sends-reconcile_deployment_example :
    sends sample_env (reconcile sample_env (key "web-dev") sample_world).1 ≤ 1
sends-reconcile_deployment_example =
    sends-reconcile_deployment sample_env (key "web-dev") sample_world

applied_elsewhere_example :
    is_due sample_env
      (deployment "prod")
      (applied_context sample_env (deployment "dev") "ctx" context)
    ≡ is_due sample_env (deployment "prod") context
applied_elsewhere_example =
    applied_elsewhere sample_env (deployment "dev") "ctx" context (deployment "prod") apart

no_more_labels : lookup {V = String} "version" [] ≡ none
unfolding lookup
no_more_labels = refl

lookup-event_labels_example : lookup "version" (event_labels (spec_of "dev")) ≡ some "own"
unfolding lookup
lookup-event_labels_example = lookup-event_labels (spec_of "dev") "version" (no_more_labels, tt)
