-- ===== src/Operator/ServiceDeployment/Sends.antt =====
-- How often a run of `reconcile` posts, whatever the cluster and the Keptn API answer.
use keptn_gitops_operator.Base.{
  ◌+◌, ◌≤◌, String, ◌≡◌, refl, Bool, true, false, Option, List, [], ◌∷◌, arith, GoError, not_found,
  failed, Reply, value, error, Outcome, returned, ended,
}
use keptn_gitops_operator.Api.{
  NamespacedName, KeptnService, KeptnInstance, KeptnServiceDeployment, KeptnDeploymentContext,
}
use keptn_gitops_operator.Cluster.{ModelProject, Env, World, continue, perform}
use keptn_gitops_operator.Operator.Utils.{get_keptn_instance}
use keptn_gitops_operator.Operator.ServiceDeployment.{
  check_keptn_project, search_projects, check_if_service_exists, apply, with_context, with_service,
  with_project, with_object, with_instance, reconcile,
}
use keptn_gitops_operator.Operator.Utils.Traces.{sends, sends-get_keptn_instance}

module _ (E : Env) where
  sends-search_projects :
      (i : KeptnInstance) (t s : String) (l : List ModelProject) (w : World E)
      → sends E (search_projects E i t s l w).1 ≡ sends E w
  unfolding search_projects perform
  sends-search_projects i t s [] w = refl
  sends-search_projects i t s (x ∷ l) w = ground (arith, sends-search_projects i t s l w)

  sends-check_if_service_exists :
      (ns : String) (i : KeptnInstance) (t p s : String) (w : World E)
      → sends E (check_if_service_exists E ns i t p s w).1 ≡ sends E w
  unfolding check_if_service_exists perform
  sends-check_if_service_exists ns i t p s w = grind (arith, sends-search_projects)

  sends-apply :
      (i : KeptnInstance) (t : String) (k : KeptnServiceDeployment) (s : KeptnService)
      (c : KeptnDeploymentContext) (w : World E)
      → sends E (apply E i t k s c w).1 ≤ sends E w + 1
  unfolding apply perform
  sends-apply i t k s c w = ground arith

  sends-with_context :
      (ns : String) (i : KeptnInstance) (t : String) (k : KeptnServiceDeployment) (s : KeptnService)
      (c : KeptnDeploymentContext × Bool × Option GoError) (w : World E)
      → sends E (with_context E ns i t k s c w).1 ≤ sends E w + 1
  unfolding with_context perform
  sends-with_context ns i t k s (c, true, e) w = ground arith
  sends-with_context ns i t k s (c, false, e) w = sends-apply i t k s c w

  sends-with_service :
      (ns : String) (i : KeptnInstance) (t : String) (k : KeptnServiceDeployment)
      (b : KeptnService × Bool) (w : World E)
      → sends E (with_service E ns i t k b w).1 ≤ sends E w + 1
  unfolding with_service perform
  sends-with_service ns i t k (s, false) w = ground arith
  sends-with_service ns i t k (s, true) w = grind (arith, sends-with_context)

  sends-with_project :
      (ns : String) (i : KeptnInstance) (t : String) (k : KeptnServiceDeployment) (b : Bool)
      (w : World E)
      → sends E (with_project E ns i t k b w).1 ≤ sends E w + 1
  unfolding with_project perform
  sends-with_project ns i t k false w = ground arith
  sends-with_project ns i t k true w =
      grind (arith, sends-with_service, sends-check_if_service_exists)

  sends-with_object :
      (req : NamespacedName) (i : KeptnInstance) (t : String) (r : Reply KeptnServiceDeployment)
      (w : World E)
      → sends E (with_object E req i t r w).1 ≤ sends E w + 1
  unfolding with_object perform check_keptn_project
  sends-with_object req i t (error (not_found m)) w = omega arith
  sends-with_object req i t (error (failed m)) w = omega arith
  sends-with_object req i t (value k) w = grind (arith, sends-with_project)

  sends-with_instance :
      (req : NamespacedName) (o : Outcome (Reply (KeptnInstance × String))) (w : World E)
      → sends E (continue o (with_instance E req) w).1 ≤ sends E w + 1
  unfolding with_instance perform
  sends-with_instance req (ended m) w = omega arith
  sends-with_instance req (returned (error e)) w = omega arith
  sends-with_instance req (returned (value (i, t))) w = grind (arith, sends-with_object)

  -- A run of Reconcile of the service deployments sends at most one request to the Keptn
  -- API's event endpoint.
  pub sends-reconcile_deployment :
      (req : NamespacedName) (w : World E) → sends E (reconcile E req w).1 ≤ sends E w + 1
  unfolding reconcile
  sends-reconcile_deployment req w = rw (← sends-get_keptn_instance E req.namespace w) (
      sends-with_instance req (get_keptn_instance E req.namespace w).0
        (get_keptn_instance E req.namespace w).1)
