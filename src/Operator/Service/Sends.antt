-- ===== src/Operator/Service/Sends.antt =====
-- How often a run of `reconcile` changes the Keptn API, whatever the cluster and the API answer.
use keptn_gitops_operator.Base.{
  ◌+◌, ◌≤◌, String, ◌≡◌, refl, Bool, true, false, Option, List, [], ◌∷◌, arith, GoError, not_found,
  failed, Reply, value, error, Outcome, returned, ended,
}
use keptn_gitops_operator.Api.{NamespacedName, KeptnService, KeptnInstance}
use keptn_gitops_operator.Cluster.{ModelProject, Env, World, continue, perform}
use keptn_gitops_operator.Operator.Utils.{get_keptn_instance}
use keptn_gitops_operator.Operator.Utils.Traces.{sends, sends-get_keptn_instance}
use keptn_gitops_operator.Operator.Service.{
  check_keptn_project, delete_keptn_service, create_service, search_projects, with_projects,
  check_if_service_exists, with_existence, save_then, with_project, with_live, register, finalize,
  with_object, with_instance, reconcile,
}

module _ (E : Env) where
  sends-search_projects :
      (i : KeptnInstance) (t p s : String) (l : List ModelProject) (w : World E)
      → sends E (search_projects E i t p s l w).1 ≡ sends E w
  unfolding search_projects perform
  sends-search_projects i t p s [] w = refl
  sends-search_projects i t p s (x ∷ l) w = ground (arith, sends-search_projects i t p s l w)

  pub sends-check_if_service_exists :
      (i : KeptnInstance) (t p s : String) (w : World E)
      → sends E (check_if_service_exists E i t p s w).1 ≡ sends E w
  unfolding check_if_service_exists with_projects perform
  sends-check_if_service_exists i t p s w = grind (arith, sends-search_projects)

  sends-with_existence :
      (i : KeptnInstance) (t : String) (svc : KeptnService) (b : Bool × Option GoError)
      (w : World E)
      → sends E (with_existence E i t svc b w).1 ≤ sends E w + 1
  unfolding with_existence create_service perform
  sends-with_existence i t svc (true, e) w = omega arith
  sends-with_existence i t svc (false, e) w = ground arith

  sends-with_project :
      (i : KeptnInstance) (t : String) (svc : KeptnService) (b : Bool) (w : World E)
      → sends E (with_project E i t svc b w).1 ≤ sends E w + 1
  unfolding with_project save_then perform
  sends-with_project i t svc false w = ground arith
  sends-with_project i t svc true w =
      grind (arith, sends-with_existence, sends-check_if_service_exists)

  sends-register :
      (ns : String) (i : KeptnInstance) (t : String) (svc : KeptnService) (w : World E)
      → sends E (register E ns i t svc w).1 ≤ sends E w + 1
  unfolding register with_live check_keptn_project perform
  sends-register ns i t svc w = grind (arith, sends-with_project)

  sends-finalize :
      (i : KeptnInstance) (t : String) (svc : KeptnService) (w : World E)
      → sends E (finalize E i t svc w).1 ≤ sends E w + 1
  unfolding finalize delete_keptn_service perform
  sends-finalize i t svc w = ground arith

  sends-with_object :
      (req : NamespacedName) (i : KeptnInstance) (t : String) (r : Reply KeptnService) (w : World E)
      → sends E (with_object E req i t r w).1 ≤ sends E w + 1
  unfolding with_object
  sends-with_object req i t (error (not_found m)) w = omega arith
  sends-with_object req i t (error (failed m)) w = omega arith
  sends-with_object req i t (value svc) w =
      ground (arith, sends-register req.namespace i t svc w, sends-finalize i t svc w)

  sends-with_instance :
      (req : NamespacedName) (o : Outcome (Reply (KeptnInstance × String))) (w : World E)
      → sends E (continue o (with_instance E req) w).1 ≤ sends E w + 1
  unfolding with_instance perform
  sends-with_instance req (ended m) w = omega arith
  sends-with_instance req (returned (error e)) w = omega arith
  sends-with_instance req (returned (value (i, t))) w = grind (arith, sends-with_object)

  -- A run of Reconcile of the services sends at most one request that creates or deletes
  -- something in the Keptn API.
  pub sends-reconcile_service :
      (req : NamespacedName) (w : World E) → sends E (reconcile E req w).1 ≤ sends E w + 1
  unfolding reconcile
  sends-reconcile_service req w = rw (← sends-get_keptn_instance E req.namespace w) (
      sends-with_instance req (get_keptn_instance E req.namespace w).0
        (get_keptn_instance E req.namespace w).1)
