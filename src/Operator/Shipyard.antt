-- ===== src/Operator/Shipyard.antt =====
-- keptn-operator/controllers/keptnshipyardcontroller: a KeptnShipyard is pushed to the upstream git
-- repository of its project; a config map keeps the hash of what was pushed last. With it
-- CheckOutGitRepo and AddGit of pkg/utils/git.go.
mod Tests
pub mod Uploads
use keptn_gitops_operator.Base.{
  String, ◌<>◌, Bool, true, false, Option, none, some, [], ◌∷◌, ◌==◌, GoError, not_found, failed,
  Reply, value, error, if◌then◌else◌, insert, index,
}
use keptn_gitops_operator.Api.{no_meta, NamespacedName, KeptnShipyard, KeptnInstance, DataObject}
use keptn_gitops_operator.Base.Paths.{join}
use keptn_gitops_operator.Cluster.{
  ◌>>=◌, ◌>>◌, keptn_shipyard, config_map, of_shipyard_spec, GitRepositoryConfig, get_object,
  create, update, update_status, set_controller_reference, record_event, temp_dir, clone, head,
  write_file, worktree, git_add, commit, push, or_fail, wrapped, Env, Exec, pure, panic, perform,
}
use keptn_gitops_operator.Operator.Result.{Result, result, error_interval, success_interval}
use keptn_gitops_operator.Operator.Utils.{
  key_of, get_keptn_instance, check_keptn_project_exists, get_upstream_credentials,
}

abbrev pub shipyard_key : String → String
shipyard_key project = "shipyard-" <> project

module _ (E : Env) where
  head_of : GitRepositoryConfig → String → Exec E (Reply String)
  head_of config dir = do
    hash ← perform (head dir)
    pure (elim hash [
      | value h ↦ value h
      | error _ ↦
          error (failed ("Could not get hash of " <> (config.remote_uri <> ("/" <> config.branch))))
    ])

  -- The main branch, and if that cannot be cloned the master branch. fmt's suffix for the argument
  -- that the format does not use is left out.
  check_out_git_repo : GitRepositoryConfig → String → Exec E (Reply String)
  unfolding head_of
  check_out_git_repo config dir = do
    no_main ← perform (clone config "refs/heads/main" dir)
    elim no_main [
      | none ↦ head_of config dir
      | some _ ↦ do
        no_master ← perform (clone config "refs/heads/master" dir)
        elim no_master [
          | none ↦ head_of config dir
          | some _ ↦ pure (
              error
                (failed ("Could not checkout " <> (config.remote_uri <> ("/" <> config.branch)))))
        ]
    ]

  push_shipyard : GitRepositoryConfig → String → String → Exec E (Option GoError)
  push_shipyard config dir shipyard = do
    unwritten ← perform (write_file (join (dir ∷ ("shipyard.yaml" ∷ []))) shipyard)
    or_fail "could not write shipyard" unwritten do
      no_tree ← perform (worktree dir)
      or_fail "could not set worktree" no_tree do
        not_added ← perform (git_add dir)
        or_fail "could not add files" (wrapped "could not add files" not_added) do
          not_committed ← perform (commit dir "Push new version")
          or_fail "could not commit" not_committed do
            not_pushed ← perform (push config dir "refs/heads/*:refs/heads/*")
            pure (wrapped "could not push commit" not_pushed)

  with_credentials : String → String → Reply GitRepositoryConfig → Exec E (Option GoError)
  unfolding push_shipyard check_out_git_repo
  with_credentials dir shipyard (error err) = pure (some err)
  with_credentials dir shipyard (value config) = do
    repo ← check_out_git_repo config dir
    elim repo [ error err ↦ pure (some err) | value _ ↦ push_shipyard config dir shipyard ]

  update_upstream : String → String → String → Exec E (Option GoError)
  unfolding with_credentials
  update_upstream namespace project shipyard = do
    dir ← perform (temp_dir "upstream_tmp_dir")
    config ← get_upstream_credentials E project namespace
    with_credentials dir shipyard config

  abbrev retry : GoError → Result
  retry err = result true error_interval (some err)

  -- Writing to the nil map of a config map without data panics.
  store_hash : DataObject → String → Exec E Result
  store_hash version spec_hash = elim version.entries [
    | none ↦ panic "assignment to entry in nil map"
    | some data_ ↦ do
      bad ←
          perform
            (update config_map (record version { entries = some (insert "Hash" spec_hash data_) }))
      pure (elim bad [ some err ↦ retry err | none ↦ result false success_interval none ])
  ]

  upload : String → KeptnShipyard → DataObject → Reply String → Exec E Result
  unfolding store_hash update_upstream
  upload namespace shipyard version (error err) = pure (retry err)
  upload namespace shipyard version (value shipyard_string) = do
    bad ← update_upstream namespace shipyard.spec.project shipyard_string
    elim bad [
      | some err ↦ pure (retry err)
      | none ↦ store_hash version (E.hash (of_shipyard_spec shipyard.spec))
    ]

  abbrev with_project_exists : KeptnShipyard → Bool → KeptnShipyard
  with_project_exists shipyard exists = record shipyard {
    status = record shipyard.status { project_exists = exists };
  }

  save_then : KeptnShipyard → Exec E Result
  save_then shipyard = do
    bad ← perform (update_status keptn_shipyard shipyard)
    pure (elim bad [ some err ↦ retry err | none ↦ result true 0 none ])

  with_existence : String → KeptnShipyard → DataObject → Bool × Option GoError → Exec E Result
  unfolding upload save_then
  with_existence namespace shipyard version (_, some err) = pure (retry err)
  with_existence namespace shipyard version (false, none) = do
    perform (
        record_event "Warning" "KeptnProjectNotFound"
          ("Keptn project " <> (shipyard.spec.project <> " does not exist")))
    save_then (with_project_exists shipyard false)
  with_existence namespace shipyard version (true, none) =
      if shipyard.status.project_exists
      then upload namespace shipyard version (E.marshal_shipyard shipyard.spec.shipyard)
      else save_then (with_project_exists shipyard true)

  with_version : String → KeptnShipyard → DataObject → Exec E Result
  unfolding with_existence
  with_version namespace shipyard version =
      if E.hash (of_shipyard_spec shipyard.spec) == index version.entries "Hash"
      then pure (result false 30 none)
      else do
        exists ← check_keptn_project_exists E namespace shipyard.spec.project
        with_existence namespace shipyard version exists

  -- The config map starts with the hash "none".
  create_version : String → KeptnShipyard → Exec E Result
  create_version namespace shipyard = do
    let meta = record no_meta { name = shipyard_key shipyard.spec.project; namespace = namespace }
    owned ← perform (set_controller_reference shipyard.meta.name meta)
    elim owned [
      | error err ↦ pure (retry err)
      | value owners ↦ do
        bad ← perform (
            create config_map (record {
              meta = record meta { owners = owners };
              entries = some (("Hash", "none") ∷ []);
            }))
        pure (elim bad [ some err ↦ retry err | none ↦ result true 0 none ])
    ]

  with_config_map : String → KeptnShipyard → Reply DataObject → Exec E Result
  unfolding create_version with_version
  with_config_map namespace shipyard (error (not_found _)) = create_version namespace shipyard
  with_config_map namespace shipyard (error (failed _)) = pure (result true 0 none)
  with_config_map namespace shipyard (value version) = with_version namespace shipyard version

  with_object : NamespacedName → Reply KeptnShipyard → Exec E Result
  unfolding with_config_map
  with_object req (error (not_found _)) = pure (result false 0 none)
  with_object req (error (failed message)) = pure (retry (failed message))
  with_object req (value shipyard) = do
    version ←
        perform (get_object config_map (key_of req.namespace (shipyard_key shipyard.spec.project)))
    with_config_map req.namespace shipyard version

  with_instance : NamespacedName → Reply (KeptnInstance × String) → Exec E Result
  unfolding with_object
  with_instance req (error err) = pure (retry err)
  with_instance req (value _) = do
    found ← perform (get_object keptn_shipyard req)
    with_object req found

  pub reconcile : NamespacedName → Exec E Result
  unfolding with_instance
  reconcile req = do found ← get_keptn_instance E req.namespace; with_instance req found
