-- ===== src/Operator/Project/Sends.antt =====
-- How often a run of `reconcile` changes the Keptn API, whatever the cluster and the API answer.
use keptn_gitops_operator.Base.{
  ◌+◌, ◌≤◌, String, ◌≡◌, refl, Bool, true, false, arith, not_found, failed, Reply, value, error,
  Outcome, returned, ended,
}
use keptn_gitops_operator.Api.{NamespacedName, KeptnProject, KeptnShipyard, KeptnInstance}
use keptn_gitops_operator.Cluster.{keptn_project, update, Env, World, continue, perform}
use keptn_gitops_operator.Operator.Utils.{get_keptn_instance}
use keptn_gitops_operator.Operator.Compose.{create_shipyard, update_shipyard, check_keptn_shipyard}
use keptn_gitops_operator.Operator.Utils.Traces.{
  sends, sends-get_keptn_instance, sends-check_keptn_project_exists,
}
use keptn_gitops_operator.Operator.Project.{
  finalizer, delete_keptn_project, create_project, post_project, create_object, sync_shipyard,
  with_shipyard, save_then, with_missing, with_existence, with_live, register, finalize,
  with_object, with_instance, reconcile,
}

module _ (E : Env) where
  sends-create_shipyard : (p : String) (w : World E) → sends E (create_shipyard E p w).1 ≡ sends E w
  unfolding create_shipyard perform
  sends-create_shipyard p w = ground arith

  sends-sync_shipyard :
      (ns : String) (project : KeptnProject) (s : KeptnShipyard) (b : Bool × String) (w : World E)
      → sends E (sync_shipyard E ns project s b w).1 ≡ sends E w
  unfolding sync_shipyard create_object update_shipyard perform
  sends-sync_shipyard ns project s (false, h) w = ground arith
  sends-sync_shipyard ns project s (true, h) w = ground arith

  sends-with_shipyard :
      (ns : String) (project : KeptnProject) (r : Reply KeptnShipyard) (w : World E)
      → sends E (with_shipyard E ns project r w).1 ≡ sends E w
  unfolding with_shipyard check_keptn_shipyard perform
  sends-with_shipyard ns project (error e) w = refl
  sends-with_shipyard ns project (value s) w = grind (arith, sends-sync_shipyard)

  sends-with_missing :
      (i : KeptnInstance) (t : String) (project : KeptnProject) (w : World E)
      → sends E (with_missing E i t project w).1 ≤ sends E w + 1
  unfolding with_missing save_then create_project post_project perform
  sends-with_missing i t project w = ground arith

  sends-with_existence :
      (ns : String) (i : KeptnInstance) (t : String) (project : KeptnProject) (b : Bool)
      (w : World E)
      → sends E (with_existence E ns i t project b w).1 ≤ sends E w + 1
  unfolding with_existence save_then perform
  sends-with_existence ns i t project false w = sends-with_missing i t project w
  sends-with_existence ns i t project true w =
      grind (arith, sends-with_shipyard, sends-create_shipyard)

  sends-with_live :
      (ns : String) (i : KeptnInstance) (t : String) (project : KeptnProject) (w : World E)
      → sends E (with_live E ns i t project w).1 ≤ sends E w + 1
  unfolding with_live
  sends-with_live ns i t project w =
      grind (arith, sends-with_existence, sends-check_keptn_project_exists)

  sends-register :
      (ns : String) (i : KeptnInstance) (t : String) (project : KeptnProject) (w : World E)
      → sends E (register E ns i t project w).1 ≤ sends E w + 1
  unfolding register perform
  sends-register ns i t project w =
      let p' : KeptnProject = record project {
        meta = record project.meta {
          finalizers = E.add_finalizer project.meta.finalizers finalizer;
        };
      } in
      ground (
        arith,
        sends-with_live ns i t project w,
        sends-with_live ns i t p' (perform (update keptn_project p') w).1,
      )

  sends-finalize :
      (i : KeptnInstance) (t : String) (project : KeptnProject) (w : World E)
      → sends E (finalize E i t project w).1 ≤ sends E w + 1
  unfolding finalize delete_keptn_project perform
  sends-finalize i t project w = ground arith

  sends-with_object :
      (req : NamespacedName) (i : KeptnInstance) (t : String) (r : Reply KeptnProject) (w : World E)
      → sends E (with_object E req i t r w).1 ≤ sends E w + 1
  unfolding with_object
  sends-with_object req i t (error (not_found m)) w = omega arith
  sends-with_object req i t (error (failed m)) w = omega arith
  sends-with_object req i t (value project) w =
      ground (arith, sends-register req.namespace i t project w, sends-finalize i t project w)

  sends-with_instance :
      (req : NamespacedName) (o : Outcome (Reply (KeptnInstance × String))) (w : World E)
      → sends E (continue o (with_instance E req) w).1 ≤ sends E w + 1
  unfolding with_instance perform
  sends-with_instance req (ended m) w = omega arith
  sends-with_instance req (returned (error e)) w = omega arith
  sends-with_instance req (returned (value (i, t))) w = grind (arith, sends-with_object)

  -- A run of Reconcile of the projects sends at most one request that creates or deletes
  -- something in the Keptn API.
  pub sends-reconcile_project :
      (req : NamespacedName) (w : World E) → sends E (reconcile E req w).1 ≤ sends E w + 1
  unfolding reconcile
  sends-reconcile_project req w = rw (← sends-get_keptn_instance E req.namespace w) (
      sends-with_instance req (get_keptn_instance E req.namespace w).0
        (get_keptn_instance E req.namespace w).1)
