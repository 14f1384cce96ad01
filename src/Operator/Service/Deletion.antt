-- ===== src/Operator/Service/Deletion.antt =====
-- The finalizer of a service under deletion.
use keptn_gitops_operator.Base.{◌+◌, ◌≤◌, String, ◌≡◌, true, arith, value}
use keptn_gitops_operator.Api.{NamespacedName, KeptnService, KeptnInstance}
use keptn_gitops_operator.Cluster.{Env, World, perform}
use keptn_gitops_operator.Cluster.Trace.{count, is_answered, is_update}
use keptn_gitops_operator.Operator.Service.{with_object}

module _ (E : Env) where
  -- For a service under deletion, a run makes at most as many object updates as it has
  -- answered requests to the Keptn API: a run that removes the finalizer has had an answer
  -- to a request.
  pub deletion_first :
      (req : NamespacedName) (i : KeptnInstance) (t : String) (svc : KeptnService) (w : World E)
      → svc.meta.deleting ≡ true
      → count is_update (with_object E req i t (value svc) w).1.trace + count is_answered w.trace
        ≤ count is_update w.trace + count is_answered (with_object E req i t (value svc) w).1.trace
  unfolding with_object perform
  deletion_first req i t svc w gone = ground arith
