-- ===== src/Operator/SequenceExecution/Sends.antt =====
-- How often a run of `reconcile` posts, whatever the cluster and the Keptn API answer.
use keptn_gitops_operator.Operator.Utils.Traces.{sends-get_keptn_instance}
use keptn_gitops_operator.Operator.SequenceExecution.{check_keptn_project}
use keptn_gitops_operator.Operator.SequenceExecution.{with_instance}
use keptn_gitops_operator.Operator.SequenceExecution.{with_object}
use keptn_gitops_operator.Operator.SequenceExecution.{reconcile}
use keptn_gitops_operator.Base.{
  ◌+◌, ◌≤◌, String, ◌≡◌, refl, Bool, true, false, List, [], ◌∷◌, arith, not_found, failed, Reply,
  value, error, Outcome, returned, ended,
}
use keptn_gitops_operator.Api.{NamespacedName, KeptnInstance, KeptnSequenceExecution}
use keptn_gitops_operator.Cluster.{ModelProject, Env, World, continue, perform}
use keptn_gitops_operator.Operator.Utils.{get_keptn_instance}
use keptn_gitops_operator.Operator.SequenceExecution.{
  search_projects, check_if_service_exists, apply, with_service, with_project,
}
use keptn_gitops_operator.Operator.Utils.Traces.{sends}

module _ (E : Env) where
  sends-search_projects :
      (i : KeptnInstance) (t p s : String) (l : List ModelProject) (w : World E)
      → sends E (search_projects E i t p s l w).1 ≡ sends E w
  unfolding search_projects perform
  sends-search_projects i t p s [] w = refl
  sends-search_projects i t p s (x ∷ l) w = ground (arith, sends-search_projects i t p s l w)

  pub sends-check_if_service_exists :
      (i : KeptnInstance) (t p s : String) (w : World E)
      → sends E (check_if_service_exists E i t p s w).1 ≡ sends E w
  unfolding check_if_service_exists perform search_projects
  sends-check_if_service_exists i t p s w = grind (arith, sends-search_projects)

  sends-apply :
      (i : KeptnInstance) (t : String) (k : KeptnSequenceExecution) (w : World E)
      → sends E (apply E i t k w).1 ≤ sends E w + 1
  unfolding apply perform
  sends-apply i t k w = ground arith

  sends-with_service :
      (i : KeptnInstance) (t : String) (k : KeptnSequenceExecution) (b : Bool) (w : World E)
      → sends E (with_service E i t k b w).1 ≤ sends E w + 1
  unfolding with_service perform
  sends-with_service i t k false w = ground arith
  sends-with_service i t k true w = ground (arith, sends-apply i t k w)

  sends-with_project :
      (i : KeptnInstance) (t : String) (k : KeptnSequenceExecution) (b : Bool) (w : World E)
      → sends E (with_project E i t k b w).1 ≤ sends E w + 1
  unfolding with_project perform
  sends-with_project i t k false w = ground arith
  sends-with_project i t k true w = grind (arith, sends-with_service, sends-check_if_service_exists)

  sends-with_object :
      (req : NamespacedName) (i : KeptnInstance) (t : String) (r : Reply KeptnSequenceExecution)
      (w : World E)
      → sends E (with_object E req i t r w).1 ≤ sends E w + 1
  unfolding with_object perform check_keptn_project
  sends-with_object req i t (error (not_found m)) w = omega arith
  sends-with_object req i t (error (failed m)) w = omega arith
  sends-with_object req i t (value k) w = grind (arith, sends-with_project)

  sends-with_instance :
      (req : NamespacedName) (r : Reply (KeptnInstance × String)) (w : World E)
      → sends E (with_instance E req r w).1 ≤ sends E w + 1
  unfolding with_instance perform
  sends-with_instance req (error e) w = omega arith
  sends-with_instance req (value (i, t)) w = grind (arith, sends-with_object)

  continue-sends :
      (req : NamespacedName) (o : Outcome (Reply (KeptnInstance × String))) (w : World E)
      → sends E (continue o (with_instance E req) w).1 ≤ sends E w + 1
  continue-sends req (returned r) w = sends-with_instance req r w
  continue-sends req (ended m) w = omega arith

  -- A run of Reconcile of the sequence executions sends at most one request to the Keptn
  -- API's event endpoint.
  pub sends-reconcile_execution :
      (req : NamespacedName) (w : World E) → sends E (reconcile E req w).1 ≤ sends E w + 1
  unfolding reconcile
  sends-reconcile_execution req w = rw (← sends-get_keptn_instance E req.namespace w) (
      continue-sends req (get_keptn_instance E req.namespace w).0
        (get_keptn_instance E req.namespace w).1)
