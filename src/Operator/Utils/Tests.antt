-- ===== src/Operator/Utils/Tests.antt =====
-- A project that the small cluster's Keptn API does not list.
use keptn_gitops_operator.Base.{String, ◌≢◌, false, none, arith, eq_iff, returned}
use keptn_gitops_operator.Cluster.Sample.{sample_env, sample_world}
use keptn_gitops_operator.Operator.Utils.{check_keptn_project_exists}
use keptn_gitops_operator.Operator.Utils.Existence.{missing_project_reported}

named : ◌≢◌ {A = String} "absent" ""
named e = ground (arith, (eq_iff "absent" "").1 e)

missing_project_reported_example :
    (check_keptn_project_exists sample_env "keptn" "absent" sample_world).0 ≢ returned (false, none)
missing_project_reported_example =
    missing_project_reported sample_env "absent" named "keptn" sample_world
