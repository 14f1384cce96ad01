-- ===== src/Operator/Shipyard/Tests.antt =====
-- A run for a shipyard that the small cluster does not have.
use keptn_gitops_operator.Base.{◌+◌, ◌≤◌}
use keptn_gitops_operator.Cluster.Sample.{sample_env, sample_world, key}
use keptn_gitops_operator.Operator.Shipyard.{reconcile}
use keptn_gitops_operator.Operator.Shipyard.Uploads.{updates, pushes, updates_after_push}

updates_after_push_example :
    updates sample_env (reconcile sample_env (key "podtato") sample_world).1 + 0
    ≤ 0 + pushes sample_env (reconcile sample_env (key "podtato") sample_world).1
updates_after_push_example = updates_after_push sample_env (key "podtato") sample_world
