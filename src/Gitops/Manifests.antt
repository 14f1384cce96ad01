-- ===== src/Gitops/Manifests.antt =====
-- gitops-operator/controllers/utils_manifest.go: the manifests that the YAML files of a directory
-- hold.
mod Tests
pub mod Reads
pub mod Collects
use keptn_gitops_operator.Base.{
  String, ◌<>◌, Bool, ◌||◌, Option, none, some, List, [], ◌∷◌, ◌++◌, ◌==◌, GoError, failed,
  error_text, Reply, value, error, if◌then◌else◌,
}
use keptn_gitops_operator.Api.{
  KeptnProject, KeptnService, KeptnStage, KeptnSequence, KeptnInstance, KeptnServiceDeployment,
  KeptnSequenceExecution, KeptnScheduledExec,
}
use keptn_gitops_operator.Cluster.{
  keptn_project, keptn_service, keptn_stage, keptn_sequence, keptn_instance,
  keptn_service_deployment, keptn_sequence_execution, keptn_scheduled_exec, read_dir, read_file,
  Decoded, decoded, DirEntry, Env, Exec, pure, perform, ◌>>=◌,
}
use keptn_gitops_operator.Base.Paths.{join, ext}

pub record KeptnManifests : Type 0 where
  pub projects : List KeptnProject
  pub services : List KeptnService
  pub stages : List KeptnStage
  pub sequences : List KeptnSequence
  pub execution : List KeptnSequenceExecution
  pub scheduledexec : List KeptnScheduledExec
  pub servicedeployments : List KeptnServiceDeployment
  pub instances : List KeptnInstance

abbrev pub no_manifests : KeptnManifests
no_manifests = record {
  projects = [];
  services = [];
  stages = [];
  sequences = [];
  execution = [];
  scheduledexec = [];
  servicedeployments = [];
  instances = [];
}

-- The switch over the type of an object: other types are left out.
unfoldable pub append_object : KeptnManifests → Decoded → KeptnManifests
append_object config (decoded keptn_service_deployment o) = record config {
  servicedeployments = config.servicedeployments ++ (o ∷ []);
}
append_object config (decoded keptn_project o) = record config {
  projects = config.projects ++ (o ∷ []);
}
append_object config (decoded keptn_instance o) = record config {
  instances = config.instances ++ (o ∷ []);
}
append_object config (decoded keptn_service o) = record config {
  services = config.services ++ (o ∷ []);
}
append_object config (decoded keptn_stage o) = record config { stages = config.stages ++ (o ∷ []) }
append_object config (decoded keptn_sequence o) = record config {
  sequences = config.sequences ++ (o ∷ []);
}
append_object config (decoded keptn_sequence_execution o) = record config {
  execution = config.execution ++ (o ∷ []);
}
append_object config (decoded keptn_scheduled_exec o) = record config {
  scheduledexec = config.scheduledexec ++ (o ∷ []);
}
append_object config _ = config

unfoldable pub append_objects : KeptnManifests → List Decoded → KeptnManifests
unfolding append_object
append_objects config [] = config
append_objects config (obj ∷ objs) = append_objects (append_object config obj) objs

abbrev pub is_manifest : String → DirEntry → Bool
is_manifest repo_path file =
    ext (repo_path <> file.name) == ".yaml" || ext (repo_path <> file.name) == ".yml"

abbrev onto : Reply String → Reply (List String) → Reply (List String)
onto (error err) rest = error err
onto (value s) (error err) = error err
onto (value s) (value rest) = value (s ∷ rest)

abbrev objects_with : Reply Decoded → List Decoded → List Decoded
objects_with (error _) objs = objs
objects_with (value obj) objs = obj ∷ objs

-- The first error of two, or of three.
abbrev or_first : Option GoError → Option GoError → Option GoError
or_first (some err) other = some err
or_first none other = other

module _ (E : Env) where
  -- The documents up to the first that cannot be read or marshalled.
  unfoldable pub split_documents : List (Reply E.Yaml) → Reply (List String)
  split_documents [] = value []
  split_documents (error err ∷ documents) = error err
  split_documents (value v ∷ documents) = onto (E.marshal_yaml v) (split_documents documents)

  unfoldable pub split_yaml : String → Reply (List String)
  unfolding split_documents
  split_yaml resources = split_documents (E.yaml_documents resources)

  -- Inputs that cannot be decoded are passed over.
  unfoldable pub decode_all : List String → List Decoded
  decode_all [] = []
  decode_all (input ∷ inputs) = objects_with (E.decode_object input) (decode_all inputs)

  abbrev scheme_error : Option GoError
  scheme_error =
      or_first (E.add_to_scheme "apps")
        (or_first (E.add_to_scheme "core") (E.add_to_scheme "keptnv1"))

  abbrev with_scheme : KeptnManifests → List String → Option GoError → Reply KeptnManifests
  with_scheme config split_input (some err) = error err
  with_scheme config split_input none = value (append_objects config (decode_all split_input))

  abbrev pub with_split : KeptnManifests → Reply (List String) → Reply KeptnManifests
  with_split config (error err) = error (failed ("could not split yaml: " <> error_text err))
  with_split config (value split_input) = with_scheme config split_input scheme_error

  abbrev pub parse_next :
      (KeptnManifests → Exec E (Reply KeptnManifests))
      → Reply KeptnManifests
      → Exec E (Reply KeptnManifests)
  parse_next next (error err) = pure (error err)
  parse_next next (value config) = next config

  -- A file with the manifests so far. The error of reading it is overwritten.
  unfoldable pub parse_file : String → DirEntry → KeptnManifests → Exec E (Reply KeptnManifests)
  unfolding split_yaml decode_all append_objects join ext
  parse_file repo_path file config =
      if is_manifest repo_path file
      then (do
        yaml_file ← perform (read_file (join (repo_path ∷ (file.name ∷ []))))
        pure (with_split config (split_yaml yaml_file.0)))
      else pure (value config)

  -- The loop over the files.
  unfoldable pub parse_files :
      String → List DirEntry → KeptnManifests → Exec E (Reply KeptnManifests)
  unfolding parse_file
  parse_files repo_path [] config = pure (value config)
  parse_files repo_path (file ∷ files) config =
      parse_file repo_path file config >>= parse_next (parse_files repo_path files)

  abbrev pub parse_listed : String → Reply (List DirEntry) → Exec E (Reply KeptnManifests)
  parse_listed repo_path (error err) = pure (error err)
  parse_listed repo_path (value files) = parse_files repo_path files no_manifests

  unfoldable pub parse_keptn_manifests : String → String → Exec E (Reply KeptnManifests)
  unfolding parse_files join
  parse_keptn_manifests dir basedir = do
    files ← perform (read_dir (join (dir ∷ (basedir ∷ []))))
    parse_listed (join (dir ∷ (basedir ∷ []))) files
