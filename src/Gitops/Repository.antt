-- ===== src/Gitops/Repository.antt =====
-- gitops-operator/controllers/keptngitrepository_controller.go: the repository is cloned, its manifests
-- are applied, and the commit that was applied is kept in the status.

pub mod Runs
mod Tests
pub mod Outcomes
pub mod Unchanged
pub mod Recorded
pub mod Missing
pub mod Progress
use keptn_gitops_operator.Base.{
  ℕ, String, Bool, true, false, none, some, List, [], ◌∷◌, ◌==◌, not_found, failed, Reply, value,
  error, if◌then◌else◌,
}
use keptn_gitops_operator.Api.{no_meta, NamespacedName, KeptnGitRepository}
use keptn_gitops_operator.Cluster.{
  keptn_git_repository, GitRepositoryConfig, get_object, update_status, temp_dir, Env, Exec, pure,
  lift, perform, ◌>>=◌, ◌>>◌,
}
use keptn_gitops_operator.Operator.Result.{Result, result}
use keptn_gitops_operator.Gitops.Kinds.{
  check_create_instance, check_create_sequence, check_create_stage, check_create_project,
  check_create_service, check_create_sequence_execution, check_create_service_deployment,
}
use keptn_gitops_operator.Gitops.Credentials.{get_git_credentials}
use keptn_gitops_operator.Gitops.Git.{GoGitClient, get_client, get_last_commit_hash}
use keptn_gitops_operator.Gitops.Delivery.{deliver_artifacts}
use keptn_gitops_operator.Gitops.Manifests.{KeptnManifests, parse_keptn_manifests}

-- KeptnGitRepositoryPhaseSuccessful
abbrev pub successful : String
successful = "Successful"

abbrev pub sync_interval : ℕ
sync_interval = 30

abbrev pub reconcile_immediate_interval : ℕ
reconcile_immediate_interval = 1

abbrev or_default : String → String → String
or_default other s = if s == "" then other else s

-- The base directory and the branch of a repository that has none.
abbrev pub with_defaults : KeptnGitRepository → KeptnGitRepository
with_defaults repo = record repo {
  spec = record repo.spec {
    base_dir = or_default ".keptn" repo.spec.base_dir;
    branch = or_default "main" repo.spec.branch;
  };
}

abbrev pub no_repository : KeptnGitRepository
no_repository = record {
  meta = no_meta;
  spec = record { repository = ""; token = ""; username = ""; branch = ""; base_dir = "" };
  status = record { last_commit = ""; result = "" };
}

abbrev pub with_commit : KeptnGitRepository → String → KeptnGitRepository
with_commit repo hash = record repo { status = record { last_commit = hash; result = successful } }

module _ (E : Env) where
  -- The error of the update is logged.
  unfoldable pub update_status_result : KeptnGitRepository → String → Exec E Result
  update_status_result repo hash = do
    perform (update_status keptn_git_repository (with_commit repo hash))
    pure (result false sync_interval none)

  -- After a manifest: an error or a creation ends the run.
  abbrev pub next_manifest : Exec E Result → Reply Bool → Exec E Result
  next_manifest rest (error err) = pure (result false 0 (some err))
  next_manifest rest (value true) = pure (result true reconcile_immediate_interval none)
  next_manifest rest (value false) = rest

  -- The loop over the manifests of a kind, and what follows it.
  unfoldable pub check_all :
      {A : Type 0} → (A → Exec E (Reply Bool)) → List A → Exec E Result → Exec E Result
  check_all check [] rest = rest
  check_all check (x ∷ xs) rest = check x >>= next_manifest (check_all check xs rest)

  -- The loops after the delivery of the artifacts.
  unfoldable pub apply_deployments : KeptnGitRepository → KeptnManifests → String → Exec E Result
  unfolding check_all update_status_result
  apply_deployments repo manifests hash =
      check_all (check_create_service E repo) manifests.services (
        check_all (check_create_sequence_execution E repo) manifests.execution (
          check_all (check_create_service_deployment E repo) manifests.servicedeployments
            (update_status_result repo hash)))

  -- An error of the delivery is logged.
  unfoldable pub deliver_and_apply :
      KeptnGitRepository → String → String → KeptnManifests → String → Exec E Result
  unfolding apply_deployments deliver_artifacts
  deliver_and_apply repo namespace code_repo_dir manifests hash = do
    deliver_artifacts E namespace repo.spec.base_dir code_repo_dir
    apply_deployments repo manifests hash

  unfoldable pub apply_manifests :
      KeptnGitRepository → String → String → String → Reply KeptnManifests → Exec E Result
  unfolding check_all deliver_and_apply
  apply_manifests repo namespace code_repo_dir hash (error err) =
      pure (result false sync_interval (some err))
  apply_manifests repo namespace code_repo_dir hash (value manifests) =
      check_all (check_create_instance E repo) manifests.instances (
        check_all (check_create_sequence E repo) manifests.sequences (
          check_all (check_create_stage E repo) manifests.stages (
            check_all (check_create_project E repo) manifests.projects
              (deliver_and_apply repo namespace code_repo_dir manifests hash))))

  unfoldable pub with_hash : KeptnGitRepository → String → String → Reply String → Exec E Result
  unfolding apply_manifests parse_keptn_manifests
  with_hash repo namespace code_repo_dir (error err) = pure (result false sync_interval (some err))
  with_hash repo namespace code_repo_dir (value hash) =
      if hash == repo.status.last_commit then pure (result false sync_interval none) else (do
        manifests ← parse_keptn_manifests E code_repo_dir repo.spec.base_dir
        apply_manifests repo namespace code_repo_dir hash manifests)

  unfoldable pub with_client :
      KeptnGitRepository → String → String → Reply GoGitClient → Exec E Result
  unfolding with_hash get_last_commit_hash
  with_client repo namespace code_repo_dir (error err) =
      pure (result false sync_interval (some err))
  with_client repo namespace code_repo_dir (value source_git_client) = do
    code_repo_hash ← get_last_commit_hash E source_git_client
    with_hash repo namespace code_repo_dir code_repo_hash

  unfoldable pub with_config :
      KeptnGitRepository → String → String → Reply GitRepositoryConfig → Exec E Result
  unfolding with_client get_client
  with_config repo namespace code_repo_dir (error err) =
      pure (result false sync_interval (some err))
  with_config repo namespace code_repo_dir (value code_repo_config) = do
    source_git_client ← get_client E code_repo_config code_repo_dir
    with_client repo namespace code_repo_dir source_git_client

  unfoldable pub sync : KeptnGitRepository → String → Exec E Result
  unfolding with_config get_git_credentials
  sync repo namespace = do
    code_repo_dir ← perform (temp_dir "code_tmp_dir")
    code_repo_config ← lift (
        get_git_credentials E repo.spec.repository repo.spec.username repo.spec.token
          repo.spec.branch)
    with_config repo namespace code_repo_dir code_repo_config

  -- An error other than that there is no such object is overwritten, and the object is the zero one.
  unfoldable pub with_repository : String → Reply KeptnGitRepository → Exec E Result
  unfolding sync
  with_repository namespace (error (not_found _)) = pure (result false 0 none)
  with_repository namespace (error (failed _)) = sync (with_defaults no_repository) namespace
  with_repository namespace (value repo) = sync (with_defaults repo) namespace

  unfoldable pub reconcile : NamespacedName → Exec E Result
  unfolding with_repository
  reconcile req = do
    repo ← perform (get_object keptn_git_repository req)
    with_repository req.namespace repo
