-- ===== src/Gitops/Files.antt =====
-- gitops-operator/controllers/fileutils.go: RemoveDir, cleanupServiceDirs, findServiceDirs and
-- findDirs. CopyFile and CopyDir are copied from elsewhere and are calls.
use keptn_gitops_operator.Base.{
  String, ◌<>◌, Bool, true, false, ◌&&◌, Option, none, some, List, [], ◌∷◌, ◌==◌, GoError, failed,
  error_text, Reply, value, error, if◌then◌else◌,
}
use keptn_gitops_operator.Cluster.{
  read_dir, read_file, stat, remove_all, DirEntry, DirectoryData, KeptnArtifactMetadataSpec, Env,
  Exec, pure, perform, or_fail, ◌>>=◌,
}
use keptn_gitops_operator.Base.Paths.{join, clean}

-- A map of directories with what their metadata says.
abbrev pub Services : Type 0
Services = List (DirectoryData × KeptnArtifactMetadataSpec)

abbrev is_directory : DirectoryData → DirectoryData → Bool
is_directory d d' = d.directory_name == d'.directory_name && d.path == d'.path

-- `metadata[dir] = spec`
unfoldable pub put_service : DirectoryData → KeptnArtifactMetadataSpec → Services → Services
put_service d spec [] = (d, spec) ∷ []
put_service d spec ((d', spec') ∷ services) =
    let rest = put_service d spec services in
    if is_directory d' d then (d, spec) ∷ services else (d', spec') ∷ rest

abbrev pub directory_in : String → DirEntry → DirectoryData
directory_in basedir dir = record {
  directory_name = dir.name;
  path = join (basedir ∷ (dir.name ∷ []));
}

unfoldable pub directories_in : String → List DirEntry → List DirectoryData
unfolding join
directories_in basedir [] = []
directories_in basedir (dir ∷ dirs) =
    let rest = directories_in basedir dirs in
    if dir.is_dir then directory_in basedir dir ∷ rest else rest

abbrev directories_or_error : String → Reply (List DirEntry) → Reply (List DirectoryData)
directories_or_error basedir (error err) =
    error (failed ("could not read directories: " <> error_text err))
directories_or_error basedir (value dirs) = value (directories_in basedir dirs)

module _ (E : Env) where
  remove_if_dir : String → Reply Bool → Exec E (Option GoError)
  remove_if_dir dir (error err) = pure (some err)
  remove_if_dir dir (value false) = pure (some (failed "dir is not a directory"))
  remove_if_dir dir (value true) = perform (remove_all dir)

  unfoldable pub remove_dir : String → Exec E (Option GoError)
  unfolding remove_if_dir clean
  remove_dir dir = do si ← perform (stat (clean dir)); remove_if_dir (clean dir) si

  -- The loop over the stages.
  unfoldable pub cleanup_stages : String → String → List DirectoryData → Exec E (Option GoError)
  unfolding join
  cleanup_stages servicename directory [] = pure none
  cleanup_stages servicename directory (stage ∷ stages) = do
    bad ←
        perform
          (remove_all (join (directory ∷ ("stages" ∷ (stage.directory_name ∷ (servicename ∷ []))))))
    or_fail "could not remove directory" bad (cleanup_stages servicename directory stages)

  unfoldable pub cleanup_service_dirs :
      String → String → List DirectoryData → Exec E (Option GoError)
  unfolding cleanup_stages join
  cleanup_service_dirs servicename directory stages = do
    bad ← perform (remove_all (join (directory ∷ ("base" ∷ (servicename ∷ [])))))
    or_fail "could not remove directory" bad (cleanup_stages servicename directory stages)

  abbrev spec_or_error : Reply KeptnArtifactMetadataSpec → Reply (Option KeptnArtifactMetadataSpec)
  spec_or_error (error err) = error (failed ("could not unmarshal file: " <> error_text err))
  spec_or_error (value spec) = value (some spec)

  abbrev read_metadata : String × Option GoError → Reply (Option KeptnArtifactMetadataSpec)
  read_metadata (yaml_file, some err) = error (failed ("could not read file: " <> error_text err))
  read_metadata (yaml_file, none) = spec_or_error (E.unmarshal_metadata yaml_file)

  -- Only a file that can be statted is read.
  unfoldable pub metadata_at :
      String → Reply Bool → Exec E (Reply (Option KeptnArtifactMetadataSpec))
  metadata_at path (error _) = pure (value none)
  metadata_at path (value _) = do file ← perform (read_file path); pure (read_metadata file)

  unfoldable pub metadata_of :
      String → String → DirEntry → Exec E (Reply (Option KeptnArtifactMetadataSpec))
  unfolding metadata_at join
  metadata_of basedir file_pattern dir =
      let path = join (basedir ∷ (dir.name ∷ (file_pattern ∷ []))) in
      if dir.is_dir
      then (do there ← perform (stat path); metadata_at path there)
      else pure (value none)

  abbrev pub with_metadata :
      (Services → Exec E (Reply Services))
      → DirectoryData
      → Services
      → Reply (Option KeptnArtifactMetadataSpec)
      → Exec E (Reply Services)
  with_metadata next dir metadata (error err) = pure (error err)
  with_metadata next dir metadata (value none) = next metadata
  with_metadata next dir metadata (value (some spec)) = next (put_service dir spec metadata)

  -- The loop over the directories, with the map so far.
  unfoldable pub find_in : String → String → List DirEntry → Services → Exec E (Reply Services)
  unfolding metadata_of put_service
  find_in basedir file_pattern [] metadata = pure (value metadata)
  find_in basedir file_pattern (dir ∷ dirs) metadata =
      metadata_of basedir file_pattern dir
      >>= with_metadata (find_in basedir file_pattern dirs) (directory_in basedir dir) metadata

  unfoldable pub find_listed : String → String → Reply (List DirEntry) → Exec E (Reply Services)
  unfolding find_in
  find_listed basedir file_pattern (error err) =
      pure (error (failed ("could not read directories: " <> error_text err)))
  find_listed basedir file_pattern (value dirs) = find_in basedir file_pattern dirs []

  unfoldable pub find_service_dirs : String → String → Exec E (Reply Services)
  unfolding find_listed
  find_service_dirs basedir file_pattern = do
    dirs ← perform (read_dir basedir)
    find_listed basedir file_pattern dirs

  unfoldable pub find_dirs : String → Exec E (Reply (List DirectoryData))
  unfolding directories_in
  find_dirs basedir = do dirs ← perform (read_dir basedir); pure (directories_or_error basedir dirs)
