-- ===== src/Operator/ScheduledExec/Tests.antt =====
-- A scheduled execution that has been started.
use keptn_gitops_operator.Base.{◌≡◌, refl}
use keptn_gitops_operator.Cluster.Sample.{sample_env, sample_world, key, scheduled}
use keptn_gitops_operator.Cluster.Sample.Laws.{scheduled_is_stored, scheduled_Stores}
use keptn_gitops_operator.Operator.ScheduledExec.{reconcile}
use keptn_gitops_operator.Operator.ScheduledExec.Starts.{creates, started_creates_nothing}

started_creates_nothing_example :
    creates sample_env (reconcile sample_env (key "nightly") sample_world).1 ≡ 0
started_creates_nothing_example =
    started_creates_nothing sample_env scheduled_Stores (key "nightly") scheduled sample_world
      scheduled_is_stored refl
