-- ===== src/Operator/Project/Deletion.antt =====
-- The finalizer of a project under deletion.
use keptn_gitops_operator.Base.{◌+◌, ◌≤◌, String, ◌≡◌, true, arith, value}
use keptn_gitops_operator.Api.{NamespacedName, KeptnProject, KeptnInstance}
use keptn_gitops_operator.Cluster.{Env, World, perform}
use keptn_gitops_operator.Cluster.Trace.{count, is_answered, is_update}
use keptn_gitops_operator.Operator.Project.{with_object}

module _ (E : Env) where
  -- For a project under deletion, a run makes at most as many object updates as it has
  -- answered requests to the Keptn API: a run that removes the finalizer has had an answer
  -- to a request.
  pub deletion_first_of_project :
      (req : NamespacedName) (i : KeptnInstance) (t : String) (project : KeptnProject) (w : World E)
      → project.meta.deleting ≡ true
      → count is_update (with_object E req i t (value project) w).1.trace
          + count is_answered w.trace
        ≤ count is_update w.trace
          + count is_answered (with_object E req i t (value project) w).1.trace
  unfolding with_object perform
  deletion_first_of_project req i t project w gone = ground arith
