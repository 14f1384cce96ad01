-- ===== src/Promotion/Update.antt =====
-- promotion-service/pkg/utils/githandler.go: UpdateGitRepo, which moves the files of a tagged version
-- of a service onto the branch of a stage. What Walk gives to its function is listed when the walk
-- starts, which is the same where the destination is outside the walked tree.
mod Tests
pub mod Pushes
use keptn_gitops_operator.Base.{
  String, ◌<>◌, Option, none, some, List, [], ◌∷◌, GoError, failed, Reply, value, error,
  if◌then◌else◌,
}
use keptn_gitops_operator.Cluster.{
  ◌>>=◌, ◌>>◌, GitRepositoryConfig, temp_dir, clone, write_file, worktree, git_add, commit, push,
  read_file, remove_all, mkdir_all, rename, walk, WalkEntry, Env, Exec, pure, perform, wrapped,
}
use keptn_gitops_operator.Base.Paths.{join}
use keptn_gitops_operator.Base.Replace.{after_first, replace_all}
use keptn_gitops_operator.Promotion.Values.{Fields, merge_values}

-- yaml.v3 on values: the map that Unmarshal fills, which is nil for a null document, and Marshal.
pub record ValuesYaml : Type 0 where
  pub unmarshal_values : String → Reply (Option Fields)
  pub marshal_values : Fields → Reply String

abbrev image_version : String
image_version = "{{ keptn/ImageVersion }}"

-- Under which path a file of the service is moved, by the first occurrence of the service's name.
unfoldable pub new_path : String → String → String → Option String
unfolding after_first join
new_path destination service path = elim (after_first service path) [
  | none ↦ none
  | some sub ↦ some (join (destination ∷ (sub ∷ [])))
]

abbrev not_in_path : String → String → GoError
not_in_path service path = failed ("Service name " <> (service <> (" not found in path " <> path)))

abbrev values_in : String → String
values_in service = "helm/" <> (service <> "/values.yaml")

module _ (E : Env) where
  abbrev pub or_return : Option GoError → Exec E (Option GoError) → Exec E (Option GoError)
  or_return none next = next
  or_return (some err) next = pure (some err)

  -- What the function given to Walk does with a file or a directory.
  move_to : WalkEntry → Option String → String → Exec E (Option GoError)
  move_to entry none service = pure (some (not_in_path service entry.path))
  move_to entry (some target) service =
      if entry.is_dir then perform (mkdir_all target) else perform (rename entry.path target)

  move_entry : String → String → WalkEntry → Exec E (Option GoError)
  unfolding move_to new_path
  move_entry destination service entry =
      or_return entry.err (move_to entry (new_path destination service entry.path) service)

  unfoldable pub move_entries : String → String → List WalkEntry → Exec E (Option GoError)
  unfolding move_entry
  move_entries destination service [] = pure none
  move_entries destination service (entry ∷ entries) = do
    bad ← move_entry destination service entry
    or_return bad (move_entries destination service entries)

  unfoldable pub move_files : String → String → String → Exec E (Option GoError)
  unfolding move_entries
  move_files source destination service = do
    bad ← perform (mkdir_all source)
    or_return bad do entries ← perform (walk source); move_entries destination service entries

  unfoldable pub perform_file_move : String → String → String → String → Exec E (Option GoError)
  unfolding move_files join
  perform_file_move service stage source_dir destination_dir = do
    let destination = join (destination_dir ∷ (service ∷ []))
    bad ← move_files (join (source_dir ∷ ("base" ∷ (service ∷ [])))) destination service
    or_return bad
        (move_files (join (source_dir ∷ ("stages" ∷ (stage ∷ (service ∷ []))))) destination service)

  abbrev pub rewrite : String → String → String → String × Option GoError → Exec E (Option GoError)
  rewrite file search replacement (input, some err) =
      pure (some (failed "Couldn't open file:, err"))
  rewrite file search replacement (input, none) = do
    bad ← perform (write_file file (replace_all input search replacement))
    pure (elim bad [ none ↦ none | some err ↦ some (failed "Couldn't write file:, err") ])

  unfoldable pub replace_in_file : String → String → String → Exec E (Option GoError)
  unfolding replace_all
  replace_in_file file search replacement = do
    input ← perform (read_file file)
    rewrite file search replacement input

  module _ (Y : ValuesYaml) where
    abbrev parsed : String × Option GoError → Reply (Option Fields)
    parsed (input, some err) = error err
    parsed (input, none) = Y.unmarshal_values input

    unfoldable pub get_values : String → Exec E (Reply (Option Fields))
    get_values file = do input ← perform (read_file file); pure (parsed input)

    -- The error is logged, and the map beside it is nil.
    abbrev values_or_nil : Reply (Option Fields) → Option Fields
    values_or_nil (error _) = none
    values_or_nil (value values) = values

    unfoldable pub merge_files : String → String → Exec E (Reply Fields)
    unfolding get_values merge_values
    merge_files orig stage = do
      new_values ← get_values stage
      input_values ← get_values orig
      pure (merge_values (values_or_nil input_values) (values_or_nil new_values))

    write_values : String → Reply String → Exec E (Option GoError)
    write_values file (error err) = pure (wrapped "Could not create merged values file" (some err))
    write_values file (value out) = do
      bad ← perform (write_file file out)
      pure (elim bad [
        | none ↦ none
        | some err ↦ some (failed (E.errorf ("Could not write values file in " <> file) err))
      ])

    write_merged : String → Reply Fields → Exec E (Option GoError)
    unfolding write_values
    write_merged file (error err) = pure (some err)
    write_merged file (value values) = write_values file (Y.marshal_values values)

    unfoldable pub merge_helm_values : String → String → String → Exec E (Option GoError)
    unfolding merge_files write_merged join
    merge_helm_values service stage source_dir = do
      let base = join (source_dir ∷ ("base" ∷ (service ∷ (values_in service ∷ []))))
      let of_stage = join (source_dir ∷ ("stages" ∷ (stage ∷ (service ∷ (values_in service ∷ [])))))
      values ← merge_files base of_stage
      write_merged of_stage values

    -- The directories are removed by `defer`, which only a run that has pushed gets to.
    push_and_remove : GitRepositoryConfig → String → String → Exec E (Option GoError)
    push_and_remove credentials dir_master dir_stage = do
      bad ← perform (push credentials dir_stage "")
      or_return bad do perform (remove_all dir_stage); perform (remove_all dir_master); pure none

    -- From the files moved on: errors of the replacement and of `git add` are logged.
    commit_version :
        GitRepositoryConfig → String → String → String → String → String → Exec E (Option GoError)
    unfolding push_and_remove replace_in_file join
    commit_version credentials service version config_version dir_master dir_stage = do
      replace_in_file (join (dir_stage ∷ (service ∷ (values_in service ∷ [])))) image_version
          version
      perform (git_add dir_stage)
      bad ←
          perform (commit dir_stage ("Updated to version " <> (version <> ("-" <> config_version))))
      or_return bad (push_and_remove credentials dir_master dir_stage)

    -- The errors of removing the old files and of the merge are not returned.
    move_version :
        GitRepositoryConfig
        → String
        → String
        → String
        → String
        → String
        → String
        → Exec E (Option GoError)
    unfolding commit_version perform_file_move merge_helm_values join
    move_version credentials stage service version config_version dir_master dir_stage = do
      perform (remove_all (join (dir_stage ∷ (service ∷ []))))
      merge_helm_values service stage dir_master
      bad ← perform_file_move service stage dir_master dir_stage
      or_return bad (commit_version credentials service version config_version dir_master dir_stage)

    unfoldable pub update_git_repo :
        GitRepositoryConfig → String → String → String → String → Exec E (Option GoError)
    unfolding move_version
    update_git_repo credentials stage service version config_version = do
      dir_master ← perform (temp_dir "temp_dir_master")
      dir_stage ← perform (temp_dir ("temp_dir_" <> stage))
      no_master ← perform (
          clone credentials
            ("refs/tags/" <> (service <> ("-" <> (version <> ("-" <> config_version))))) dir_master)
      or_return no_master do
        no_stage ← perform (clone credentials ("refs/heads/" <> stage) dir_stage)
        or_return no_stage do
          no_tree ← perform (worktree dir_stage)
          or_return no_tree
              (move_version credentials stage service version config_version dir_master dir_stage)
