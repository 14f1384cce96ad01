-- ===== src/Cluster/Sample.antt =====
-- A small cluster with one sequence execution, one scheduled execution and one instance, and a Keptn
-- API with one project, on which the tests run.
pub mod Laws
use keptn_gitops_operator.Api.{KeptnShipyard}
use keptn_gitops_operator.Api.{KeptnProject, KeptnGitRepository}
use keptn_gitops_operator.Cluster.Files.{DirEntry, KeptnArtifactMetadataSpec}
use keptn_gitops_operator.Base.{
  String, Bool, true, false, ◌&&◌, Option, none, some, List, [], ◌∷◌, ◌==◌, not_found, failed,
  Reply, value, error, if◌then◌else◌,
}
use keptn_gitops_operator.Api.{
  ObjectMeta, no_meta, NamespacedName, KeptnStage, KeptnInstance, KeptnSequenceExecutionSpec,
  KeptnSequenceExecution, KeptnScheduledExec, DataObject,
}
use keptn_gitops_operator.Cluster.Calls.{
  keptn_instance, keptn_stage, keptn_project, keptn_shipyard, config_map, keptn_sequence_execution,
  keptn_scheduled_exec, core_secret, Hashed, of_shipyard_spec, Call, get_object, list_objects,
  create, update, update_status, set_controller_reference, record_event, now, get_all_projects,
  get_all_services, new_request, send, temp_dir, clone, head, write_file, worktree, git_add, commit,
  push, tag_objects, create_tag, delete_tag_object, push_delete, read_dir, read_file, stat,
  remove_all, mkdir_all, rename, walk, copy_dir, visit_order, generate_key, print,
  keptn_git_repository, decoded, encrypt_oaep, new_client, send_started, send_finished,
  update_git_repo, Resp,
}
use keptn_gitops_operator.Cluster.Monad.{Env, World}

abbrev pub meta : String → ObjectMeta
meta name = record no_meta { name = name; namespace = "keptn" }

abbrev pub key : String → NamespacedName
key name = record { name = name; namespace = "keptn" }

abbrev pub execution_spec : KeptnSequenceExecutionSpec
execution_spec = record {
  project = "podtato";
  service = "web";
  stage = "dev";
  event = "deployment";
  labels = some (("version", "1.2") ∷ []);
}

abbrev pub execution : KeptnSequenceExecution
execution = record {
  meta = meta "run";
  spec = execution_spec;
  status = record {
    project_exists = true;
    service_exists = true;
    keptn_context = "";
    last_applied_hash = "";
    update_pending = false;
  };
}

abbrev pub the_project : KeptnProject
the_project = record {
  meta = meta "podtato";
  spec = record {
    repository = "https://git/podtato";
    username = "keptn";
    password = "plain:text";
    initial_shipyard = "";
    default_branch = "";
  };
  project_exists = true;
}

abbrev pub the_shipyard : KeptnShipyard
the_shipyard = record {
  meta = meta "podtato";
  spec = record {
    project = "podtato";
    shipyard = record {
      api_version = "spec.keptn.sh/0.2.2";
      kind = "KeptnShipyard";
      metadata = "";
      stages = [];
    };
  };
  status = record { project_exists = true; last_applied_hash = ""; last_uploaded_hash = "" };
}

-- The config map that keeps the hash of the shipyard pushed last.
abbrev pub version_map : DataObject
version_map = record { meta = meta "shipyard-podtato"; entries = some (("Hash", "none") ∷ []) }

abbrev pub scheduled : KeptnScheduledExec
scheduled = record {
  meta = meta "nightly";
  spec = record { start_time = "10:00"; sequence_execution_template = execution_spec };
  started = true;
}

abbrev pub instance_ : KeptnInstance
instance_ = record {
  meta = meta "default";
  spec = record { api_url = "https://keptn/api"; token_type = "x-token"; token = "new" };
  status = record {
    auth_header = "x-token";
    current_token = "old";
    last_updated = 950;
    scheme = "https";
  };
}

pub record Objects : Type 0 where
  pub execution : KeptnSequenceExecution
  pub scheduled : KeptnScheduledExec
  pub instance_ : KeptnInstance
  pub stage : Option KeptnStage
  pub repository : KeptnGitRepository
  pub tags : List String

abbrev pub repository : KeptnGitRepository
repository = record {
  meta = meta "podtato";
  spec = record {
    repository = "https://git/podtato";
    token = "plain:text";
    username = "keptn";
    branch = "main";
    base_dir = "";
  };
  status = record { last_commit = ""; result = "" };
}

abbrev pub is_key : ObjectMeta → NamespacedName → Bool
is_key m k = m.name == k.name && m.namespace == k.namespace

abbrev pub one : {A : Type 0} → Bool → A → Option A
one true a = some a
one false a = none

-- The stage of that name, if the cluster has it.
abbrev pub stage_at : Option KeptnStage → NamespacedName → Option KeptnStage
stage_at none k = none
stage_at (some o) k = one (is_key o.meta k) o

abbrev pub found : {A : Type 0} → Option A → Reply A
found none = error (not_found "no such object")
found (some a) = value a

-- The only message that can be encrypted is "secret", with the one label.
abbrev pub encrypted : Bool → Reply String
encrypted true = value "box"
encrypted false = error (failed "message too long")

abbrev pub token_secret : DataObject
token_secret = record {
  meta = meta "keptn-api-token";
  entries = some (("keptn-api-token", "abc") ∷ []);
}

-- The git repository holds one manifest, a stage, and the artifacts of one service.
abbrev dir_entries : String → List DirEntry
dir_entries dir =
    if dir == "/tmp/x/.keptn"
    then record { name = "stage.yaml"; is_dir = false } ∷ []
    else record { name = "web"; is_dir = true } ∷ []

abbrev pub dev : KeptnStage
dev = record { meta = meta "dev"; spec = record { project = "podtato"; sequence = [] } }

abbrev pub web_metadata : KeptnArtifactMetadataSpec
web_metadata = record {
  version = "1.2";
  config_version = "";
  chart_dir = "";
  overwrite_tag = false;
  project = "podtato";
}

abbrev pub answer : (c : Call) → Objects → Resp c
answer (get_object keptn_sequence_execution k) s =
    found (one (is_key s.execution.meta k) s.execution)
answer (get_object keptn_scheduled_exec k) s = found (one (is_key s.scheduled.meta k) s.scheduled)
answer (get_object keptn_instance k) s = found (one (is_key s.instance_.meta k) s.instance_)
answer (get_object keptn_git_repository k) s = found (one (is_key s.repository.meta k) s.repository)
answer (get_object core_secret k) s = value token_secret
answer (get_object keptn_stage k) s = found (stage_at s.stage k)
answer (get_object keptn_project k) s = value the_project
answer (get_object keptn_shipyard k) s = value the_shipyard
answer (get_object config_map k) s = value version_map
answer (get_object _ k) s = error (not_found "no such object")
answer (list_objects k ns) s = value []
answer (create k o) s = none
answer (update k o) s = none
answer (update_status k o) s = none
answer (set_controller_reference owner m) s = value (owner ∷ [])
answer (record_event ty reason message) s = tt
answer now s = 1000
answer (get_all_projects url token) s =
    value (record { project_name = "podtato"; stages = "dev" ∷ [] } ∷ [])
answer (get_all_services url token project stage) s = value ("web" ∷ [])
answer (new_request method url) s = none
answer (send r) s = value (record { status_code = 200; body = some ("{}", none) })
answer (temp_dir prefix) s = "/tmp/x"
answer (clone c branch dir) s = none
answer (head dir) s = value "abc"
answer (write_file path content) s = none
answer (worktree dir) s = none
answer (git_add dir) s = none
answer (commit dir message) s = none
answer (push c dir refs) s = none
answer (tag_objects dir) s = value (s.tags, none)
answer (create_tag dir tag hash) s = none
answer (delete_tag_object dir tag) s = none
answer (push_delete dir tag) s = none
answer (read_dir dir) s = value (dir_entries dir)
answer (read_file path) s = (path, none)
answer (stat path) s = value true
answer (remove_all path) s = none
answer (mkdir_all path) s = none
answer (rename from to) s = none
answer (walk dir) s = record { path = dir; is_dir = true; err = none } ∷ []
answer (copy_dir from to) s = none
answer (visit_order services) s = services
answer (generate_key bits) s = value "pair"
answer (print line) s = tt
answer (encrypt_oaep hash k message label) s =
    encrypted (message == "secret" && label == "OAEP Encrypted")
answer new_client s = none
answer (send_started status) s = none
answer (send_finished status outcome message) s = none
answer (update_git_repo c stage service version config_version) s = none

abbrev pub after_status : Call → Objects → Objects
after_status (update_status keptn_sequence_execution o) s = record s { execution = o }
after_status (update_status keptn_scheduled_exec o) s = record s { scheduled = o }
after_status (update_status keptn_instance o) s = record s { instance_ = o }
-- The spec is not written with the status.
after_status (update_status keptn_git_repository o) s = record s {
  repository = record o { spec = s.repository.spec };
}
after_status _ s = s

abbrev pub stage_after : Call → Option KeptnStage → Option KeptnStage
stage_after (create keptn_stage o) old = some o
stage_after (update keptn_stage o) old = some o
stage_after _ old = old

abbrev pub after : Call → Objects → Objects
after c s = record (after_status c s) { stage = stage_after c s.stage }

abbrev pub hash_of : Hashed → String
hash_of (of_shipyard_spec s) = "h2"
hash_of _ = "h1"

abbrev pub sample_env : Env
sample_env = record {
  State = Objects;
  respond = λ c s. (answer c s, after c s);
  hash = hash_of;
  add_finalizer = λ l f. f ∷ l;
  remove_finalizer = λ l f. [];
  lookup_env = λ _. some "key";
  base64_decode = λ s. (if s == "c2VjcmV0" then "box" else s, none);
  pem_decode = λ s. some s;
  parse_private_key = λ s. value s;
  decrypt_oaep = λ hash k c label.
      if c == "box" && label == "OAEP Encrypted"
      then value "secret"
      else error (failed "decryption error");
  public_key = λ k. k;
  parse_time = λ _. value 100;
  parse_scheme = λ _. value "https";
  unmarshal_context = λ _. value "ctx";
  marshal_shipyard = λ _. value "shipyard";
  Yaml = String;
  yaml_documents = λ s. value s ∷ [];
  marshal_yaml = λ y. value y;
  add_to_scheme = λ _. none;
  decode_object = λ _. value (decoded keptn_stage dev);
  unmarshal_root_metadata = λ _. value "podtato";
  unmarshal_metadata = λ _. value web_metadata;
  errorf = λ text e. text;
  parse_public_key = λ s. value s;
  marshal_private_key = λ s. s;
  marshal_public_key = λ s. s;
  pem_encode = λ ty s. s;
  base64_encode = λ s. if s == "box" then "c2VjcmV0" else s;
  json_result = λ message ok. message;
}

abbrev pub sample_world : World sample_env
sample_world = record {
  state = record {
    execution = execution;
    scheduled = scheduled;
    instance_ = instance_;
    stage = none;
    repository = repository;
    tags = [];
  };
  trace = [];
}
