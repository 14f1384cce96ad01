-- ===== src/Gitops/Delivery.antt =====
-- gitops-operator/controllers/utils_artifactdelivery.go: the artifacts of each service are copied to
-- the upstream repository and tagged with the service's version.
mod Tests
pub mod Skips
pub mod Overwrites
use keptn_gitops_operator.Base.{
  String, ◌<>◌, Bool, true, false, not, ◌&&◌, Option, none, some, List, [], ◌∷◌, ◌==◌, GoError,
  failed, error_text, Reply, value, error, if◌then◌else◌,
}
use keptn_gitops_operator.Cluster.{
  temp_dir, read_file, stat, copy_dir, visit_order, DirectoryData, KeptnArtifactMetadataSpec, Env,
  Exec, pure, perform, or_fail, wrapped, ◌>>=◌,
}
use keptn_gitops_operator.Base.Paths.{join}
use keptn_gitops_operator.Gitops.Files.{
  Services, cleanup_service_dirs, find_service_dirs, find_dirs,
}
use keptn_gitops_operator.Gitops.Git.{GoGitClient, get_client, tag_exists, commit_and_push_upstream}
use keptn_gitops_operator.Gitops.Credentials.{get_upstream_credentials}

-- The default of the configuration version.
abbrev or_zero : String → String
or_zero config_version = if config_version == "" then "0" else config_version

abbrev pub tag_of : DirectoryData → KeptnArtifactMetadataSpec → String
tag_of service metadata =
    service.directory_name
    <> ("-" <> (metadata.version <> ("-" <> or_zero metadata.config_version)))

-- What is done about a tag: whether the service is skipped.
abbrev pub would_not_overwrite : Bool → Option GoError → Bool
would_not_overwrite overwrite_tag none = false
would_not_overwrite overwrite_tag (some err) =
    error_text err == "tag was found" && not overwrite_tag

-- serviceTagExists, which is set and never reset.
abbrev pub flag_after : Bool → Option GoError → Bool
flag_after flag none = flag
flag_after flag (some err) = true

abbrev base_of : String → DirectoryData → List String → String
base_of dir service more = join (dir ∷ ("base" ∷ (service.directory_name ∷ more)))

module _ (E : Env) where
  -- `if err != nil { return err }`
  abbrev pub or_return : Option GoError → Exec E (Option GoError) → Exec E (Option GoError)
  or_return none next = next
  or_return (some err) next = pure (some err)

  -- `if err != nil { return fmt.Errorf("could not copy ..."+": %w", err) }`
  abbrev pub or_not_copied :
      DirectoryData → Option GoError → Exec E (Option GoError) → Exec E (Option GoError)
  or_not_copied service bad next =
      or_fail ("could not copy " <> (service.path <> " to tmp")) bad next

  unfoldable pub copy_if_there :
      DirectoryData → DirectoryData → String → Reply Bool → Exec E (Option GoError)
  unfolding join
  copy_if_there service stage dir (error _) = pure none
  copy_if_there service stage dir (value _) = perform (
      copy_dir (join (stage.path ∷ (service.directory_name ∷ [])))
        (join (dir ∷ ("stages" ∷ (stage.directory_name ∷ (service.directory_name ∷ []))))))

  -- The loop over the stages: those with data for the service are copied.
  unfoldable pub copy_stages : DirectoryData → String → List DirectoryData → Exec E (Option GoError)
  unfolding copy_if_there join
  copy_stages service dir [] = pure none
  copy_stages service dir (stage ∷ stages) = do
    there ← perform (stat (join (stage.path ∷ (service.directory_name ∷ []))))
    bad ← copy_if_there service stage dir there
    or_not_copied service bad (copy_stages service dir stages)

  unfoldable pub copy_chart : DirectoryData → String → String → Exec E (Option GoError)
  unfolding join
  copy_chart service chart_dir dir =
      if chart_dir == ""
      then pure none
      else perform
          (copy_dir chart_dir (base_of dir service ("helm" ∷ (service.directory_name ∷ []))))

  unfoldable pub compose_service :
      GoGitClient
      → String
      → List DirectoryData
      → Bool
      → DirectoryData
      → KeptnArtifactMetadataSpec
      → Exec E (Option GoError)
  unfolding copy_chart copy_stages cleanup_service_dirs commit_and_push_upstream join
  compose_service git_client dir stages flag service metadata = do
    not_clean ← cleanup_service_dirs E service.directory_name dir stages
    or_return not_clean do
      no_base ← perform (copy_dir service.path (base_of dir service []))
      or_not_copied service no_base do
        no_chart ← copy_chart service metadata.chart_dir dir
        or_not_copied service no_chart do
          no_stage ← copy_stages service dir stages
          or_return no_stage do
            not_pushed ← commit_and_push_upstream E git_client (tag_of service metadata) flag
            pure (wrapped "could not push to upstream" not_pushed)

  -- A service, and then those after it, which are given the flag.
  abbrev pub compose_or_skip :
      (Bool → Exec E (Option GoError))
      → (Bool → Exec E (Option GoError))
      → Bool
      → Bool
      → Option GoError
      → Exec E (Option GoError)
  compose_or_skip service next overwrite_tag flag found =
      if would_not_overwrite overwrite_tag found
      then next flag
      else (do bad ← service (flag_after flag found); or_return bad (next (flag_after flag found)))

  -- The loop over the services.
  unfoldable pub compose_each :
      GoGitClient → String → List DirectoryData → Services → Bool → Exec E (Option GoError)
  unfolding compose_service tag_exists
  compose_each git_client dir stages [] flag = pure none
  compose_each git_client dir stages ((service, metadata) ∷ services) flag =
      tag_exists E git_client (tag_of service metadata)
      >>= compose_or_skip (λ b. compose_service git_client dir stages b service metadata)
          (compose_each git_client dir stages services) metadata.overwrite_tag flag

  unfoldable pub compose_data :
      GoGitClient → String → Services → List DirectoryData → Exec E (Option GoError)
  unfolding compose_each
  compose_data git_client dir services stages = do
    visited ← perform (visit_order services)
    compose_each git_client dir stages visited false

  abbrev project_or_error : Reply String → Reply String
  project_or_error (error err) = error (failed ("could not unmarshal file: " <> error_text err))
  project_or_error (value project) = value project

  abbrev read_project : String × Option GoError → Reply String
  read_project (yaml_file, some err) = error (failed ("could not read file: " <> error_text err))
  read_project (yaml_file, none) = project_or_error (E.unmarshal_root_metadata yaml_file)

  unfoldable pub project_at : String → Reply Bool → Exec E (Reply String)
  project_at path (error _) = pure (error (failed "could not find a project"))
  project_at path (value _) = do file ← perform (read_file path); pure (read_project file)

  unfoldable pub get_artifact_project : String → Exec E (Reply String)
  unfolding project_at join
  get_artifact_project dir = do
    there ← perform (stat (join (dir ∷ ("projectmeta.yaml" ∷ []))))
    project_at (join (dir ∷ ("projectmeta.yaml" ∷ []))) there

  -- `if err != nil { return err }`
  abbrev pub and_then :
      {A : Type 0} → (A → Exec E (Option GoError)) → Reply A → Exec E (Option GoError)
  and_then next (error err) = pure (some err)
  and_then next (value a) = next a

  unfoldable pub deliver_named :
      String → String → String → String → String → Exec E (Option GoError)
  unfolding compose_data get_upstream_credentials find_service_dirs find_dirs get_client
  deliver_named namespace upstream_dir base_root stage_root project =
      get_upstream_credentials E project namespace
      >>= and_then λ upstream_repo.
        find_service_dirs E base_root "metadata.yaml"
        >>= and_then λ service_artifacts.
          find_dirs E stage_root
          >>= and_then λ stages.
            get_client E upstream_repo upstream_dir
            >>= and_then λ upstream_git_client.
              compose_data upstream_git_client upstream_dir service_artifacts stages

  -- A project that has a name is delivered.
  unfoldable pub deliver_project :
      String → String → String → String → String → Exec E (Option GoError)
  unfolding deliver_named
  deliver_project namespace upstream_dir base_root stage_root project =
      if project == ""
      then pure none
      else deliver_named namespace upstream_dir base_root stage_root project

  unfoldable pub deliver_artifacts : String → String → String → Exec E (Option GoError)
  unfolding deliver_project get_artifact_project join
  deliver_artifacts namespace base_dir code_repo_dir = do
    upstream_dir ← perform (temp_dir "upstream_tmp_dir")
    let base_root = join (code_repo_dir ∷ (base_dir ∷ ("base" ∷ [])))
    let stage_root = join (code_repo_dir ∷ (base_dir ∷ ("stages" ∷ [])))
    project ← get_artifact_project base_root
    and_then (deliver_project namespace upstream_dir base_root stage_root) project
