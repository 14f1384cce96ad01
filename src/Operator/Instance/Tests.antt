-- ===== src/Operator/Instance/Tests.antt =====
-- An instance whose token has been changed a short time after the last save.
use keptn_gitops_operator.Base.{◌≡◌, arith}
use keptn_gitops_operator.Cluster.Sample.{sample_env, sample_world, key, instance_}
use keptn_gitops_operator.Cluster.Sample.Laws.{instance_is_stored, instance_Stores}
use keptn_gitops_operator.Operator.Instance.{reconcile}
use keptn_gitops_operator.Operator.Instance.Refresh.{saves, IsEarly, fresh_token_not_saved}

early : IsEarly sample_env instance_Stores (key "default") instance_
early s = omega arith

fresh_token_not_saved_example :
    saves sample_env (reconcile sample_env (key "default") sample_world).1 ≡ 0
fresh_token_not_saved_example =
    fresh_token_not_saved sample_env instance_Stores (key "default") instance_ sample_world
      instance_is_stored early
