-- ===== src/Gitops/Git/Tests.antt =====
-- A version is pushed, and its tag found.
use keptn_gitops_operator.Base.{false}
use keptn_gitops_operator.Cluster.Sample.{sample_env, sample_world}
use keptn_gitops_operator.Gitops.Git.{GoGitClient, commit_and_push_upstream}
use keptn_gitops_operator.Gitops.Git.Pushes.{commit_and_push_upstream-IsPushed}
use keptn_gitops_operator.Cluster.Pushing.{IsPushed}

abbrev client : GoGitClient
client = record {
  repo_config = record {
    remote_uri = "https://git/podtato";
    user = "keptn";
    token = "t";
    branch = "main";
  };
  repo = "/tmp/x";
}

commit_and_push_upstream-IsPushed_example :
    IsPushed sample_env 2 sample_world
      (commit_and_push_upstream sample_env client "web-1.2-0" false sample_world).0
      (commit_and_push_upstream sample_env client "web-1.2-0" false sample_world).1
commit_and_push_upstream-IsPushed_example =
    commit_and_push_upstream-IsPushed sample_env client "web-1.2-0" false sample_world
