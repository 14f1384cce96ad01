-- ===== src/Operator/Utils/Existence.antt =====
-- What CheckKeptnProjectExists returns for a project that the Keptn API does not list.
use keptn_gitops_operator.Base.{
  String, ◌≢◌, false, none, arith, eq_iff, Reply, value, error, Outcome, returned, ended, List,
}
use keptn_gitops_operator.Api.{KeptnInstance}
use keptn_gitops_operator.Cluster.{Env, World, ModelProject, perform, get_all_projects, continue}
use keptn_gitops_operator.Operator.Utils.{
  exists_in, query_projects, get_keptn_instance, check_keptn_project_exists,
}

module _ (E : Env) (project : String) (named : project ≢ "") where
  exists_in-reported : (r : Reply (List ModelProject)) → exists_in E project r ≢ (false, none)
  exists_in-reported (error e) h = ground arith
  exists_in-reported (value l) h = ground (arith, eq_iff project "", named)

  query_projects-reported :
      (r : Reply (KeptnInstance × String)) (w : World E)
      → (query_projects E project r w).0 ≢ returned (false, none)
  unfolding query_projects perform
  query_projects-reported (error e) w h = ground arith
  query_projects-reported (value (i, t)) w h =
      exists_in-reported (E.respond (get_all_projects i.spec.api_url t) w.state).0 (ground arith)

  -- For a project name that is not empty CheckKeptnProjectExists never returns false without
  -- an error.
  pub missing_project_reported :
      (ns : String) (w : World E)
      → (check_keptn_project_exists E ns project w).0 ≢ returned (false, none)
  unfolding check_keptn_project_exists
  missing_project_reported ns w h = go (get_keptn_instance E ns w).0 (get_keptn_instance E ns w).1 h
    where
      go :
          (o : Outcome (Reply (KeptnInstance × String))) (w1 : World E)
          → (continue o (query_projects E project) w1).0 ≢ returned (false, none)
      go (ended m) w1 h = ground arith
      go (returned r) w1 h = query_projects-reported r w1 h
