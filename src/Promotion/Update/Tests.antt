-- ===== src/Promotion/Update/Tests.antt =====
-- A promotion of the small cluster's service.
use keptn_gitops_operator.Base.{some, value}
use keptn_gitops_operator.Cluster.{GitRepositoryConfig}
use keptn_gitops_operator.Cluster.Sample.{sample_env, sample_world}
use keptn_gitops_operator.Cluster.Pushing.{IsPushed}
use keptn_gitops_operator.Promotion.Values.{end}
use keptn_gitops_operator.Promotion.Update.{ValuesYaml, update_git_repo}
use keptn_gitops_operator.Promotion.Update.Pushes.{update_git_repo-IsPushed}

abbrev no_values : ValuesYaml
no_values = record { unmarshal_values = λ s. value (some end); marshal_values = λ m. value "{}" }

abbrev credentials : GitRepositoryConfig
credentials = record {
  remote_uri = "https://git/podtato";
  user = "keptn";
  token = "t";
  branch = "main";
}

update_git_repo-IsPushed_example :
    IsPushed sample_env 1 sample_world
      (update_git_repo sample_env no_values credentials "dev" "web" "1.2" "0" sample_world).0
      (update_git_repo sample_env no_values credentials "dev" "web" "1.2" "0" sample_world).1
update_git_repo-IsPushed_example =
    update_git_repo-IsPushed sample_env no_values credentials "dev" "web" "1.2" "0" sample_world
