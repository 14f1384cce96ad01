-- ===== src/Cluster/Calls.antt =====
-- The calls that the operators make on code that is not theirs (the Kubernetes client, net/http,
-- go-git, the clock), with the type of each answer. The answers come from an `Env`.
use keptn_gitops_operator.Api.{KeptnScheduledExecSpec}
use keptn_gitops_operator.Base.{ℕ, String, Option, List, GoError, Reply, GoMap, Bool}
use keptn_gitops_operator.Cluster.Files.{
  DirEntry, WalkEntry, DirectoryData, KeptnArtifactMetadataSpec,
}
use keptn_gitops_operator.Api.{
  ObjectMeta, NamespacedName, KeptnProjectSpec, KeptnProject, KeptnServiceSpec, KeptnService,
  KeptnStageSpec, KeptnStage, Sequence, KeptnSequence, Shipyard, KeptnShipyardSpec, KeptnShipyard,
  KeptnInstanceSpec, KeptnInstance, KeptnServiceDeploymentSpec, KeptnServiceDeployment,
  KeptnSequenceExecutionSpec, KeptnSequenceExecution, KeptnScheduledExec, KeptnDeploymentContext,
  DataObject, KeptnGitRepository,
}

pub data Kind : Type 0 where
  keptn_project keptn_service keptn_stage keptn_sequence keptn_shipyard keptn_instance : Kind
  keptn_service_deployment keptn_sequence_execution keptn_scheduled_exec : Kind
  keptn_deployment_context config_map core_secret keptn_git_repository : Kind

abbrev pub Object : Kind → Type 0
Object keptn_project = KeptnProject
Object keptn_service = KeptnService
Object keptn_stage = KeptnStage
Object keptn_sequence = KeptnSequence
Object keptn_shipyard = KeptnShipyard
Object keptn_instance = KeptnInstance
Object keptn_service_deployment = KeptnServiceDeployment
Object keptn_sequence_execution = KeptnSequenceExecution
Object keptn_scheduled_exec = KeptnScheduledExec
Object keptn_deployment_context = KeptnDeploymentContext
Object config_map = DataObject
Object core_secret = DataObject
Object keptn_git_repository = KeptnGitRepository

-- The structs that GetHashStructure is applied to.
pub data Hashed : Type 0 where
  of_project : KeptnProjectSpec → Hashed
  of_service : KeptnServiceSpec → Hashed
  of_stage : KeptnStageSpec → Hashed
  of_sequence : Sequence → Hashed
  of_shipyard : Shipyard → Hashed
  of_shipyard_spec : KeptnShipyardSpec → Hashed
  of_instance : KeptnInstanceSpec → Hashed
  of_service_deployment : KeptnServiceDeploymentSpec → Hashed
  of_sequence_execution : KeptnSequenceExecutionSpec → Hashed
  of_scheduled_exec : KeptnScheduledExecSpec → Hashed

-- KeptnTriggerEvent of both trigger controllers; `labels` and the rest of its data are flat here.
-- `context` is empty where the struct has no such field.
pub record KeptnTriggerEvent : Type 0 where
  pub content_type : String
  pub project : String
  pub service : String
  pub stage : String
  pub image : String
  pub labels : GoMap
  pub source : String
  pub spec_version : String
  pub event_type : String
  pub context : String

-- What is marshalled into a request's body.
pub data Body : Type 0 where
  no_body : Body
  fields : List (String × String) → Body
  event : KeptnTriggerEvent → Body

pub record HttpRequest : Type 0 where
  pub method : String
  pub url : String
  pub content_type : String
  pub auth_header : String
  pub token : String
  pub body : Body

-- `body` is `none` for a nil body, and else the bytes that can be read with the error of reading.
pub record HttpResponse : Type 0 where
  pub status_code : ℕ
  pub body : Option (String × Option GoError)

-- models.Project, with the names of its stages, and models.Service of keptn/go-utils.
pub record ModelProject : Type 0 where
  pub project_name : String
  pub stages : List String

pub record GitRepositoryConfig : Type 0 where
  pub remote_uri : String
  pub user : String
  pub token : String
  pub branch : String

-- To compare kinds.
abbrev pub kind_id : Kind → ℕ
kind_id keptn_project = 0
kind_id keptn_service = 1
kind_id keptn_stage = 2
kind_id keptn_sequence = 3
kind_id keptn_shipyard = 4
kind_id keptn_instance = 5
kind_id keptn_service_deployment = 6
kind_id keptn_sequence_execution = 7
kind_id keptn_scheduled_exec = 8
kind_id keptn_deployment_context = 9
kind_id config_map = 10
kind_id core_secret = 11
kind_id keptn_git_repository = 12

abbrev pub meta_of : (k : Kind) → Object k → ObjectMeta
meta_of keptn_project o = o.meta
meta_of keptn_service o = o.meta
meta_of keptn_stage o = o.meta
meta_of keptn_sequence o = o.meta
meta_of keptn_shipyard o = o.meta
meta_of keptn_instance o = o.meta
meta_of keptn_service_deployment o = o.meta
meta_of keptn_sequence_execution o = o.meta
meta_of keptn_scheduled_exec o = o.meta
meta_of keptn_deployment_context o = o.meta
meta_of config_map o = o.meta
meta_of core_secret o = o.meta
meta_of keptn_git_repository o = o.meta

-- What a decoder of manifests gives: an object of a kind, or one of a type that is not looked at.
pub data Decoded : Type 0 where
  decoded : (k : Kind) → Object k → Decoded
  other_object : Decoded

-- keptnv2's status and result of a task.
pub data TaskStatus : Type 0 where
  status_succeeded status_errored : TaskStatus

pub data TaskResult : Type 0 where
  result_pass result_failed : TaskResult

pub data Call : Type 0 where
  get_object : Kind → NamespacedName → Call
  list_objects : Kind → Option String → Call
  create : (k : Kind) → Object k → Call
  update : (k : Kind) → Object k → Call
  update_status : (k : Kind) → Object k → Call
  -- controllerutil.SetControllerReference, by the owner's name: the new owner references
  set_controller_reference : String → ObjectMeta → Call
  -- the recorder: type, reason, message
  record_event : String → String → String → Call
  now : Call
  -- the Keptn API: url, token
  get_all_projects : String → String → Call
  get_all_services : String → String → String → String → Call
  new_request : String → String → Call
  send : HttpRequest → Call
  -- git, by way of go-git or the git command, and the file system
  temp_dir : String → Call
  clone : GitRepositoryConfig → String → String → Call
  head : String → Call
  write_file : String → String → Call
  worktree : String → Call
  git_add : String → Call
  commit : String → String → Call
  push : GitRepositoryConfig → String → String → Call
  -- TagObjects of a repository, CreateTag (tag, commit), DeleteTag, and `git push --delete`
  tag_objects : String → Call
  create_tag : String → String → String → Call
  delete_tag_object : String → String → Call
  push_delete : String → String → Call
  read_dir : String → Call
  read_file : String → Call
  stat : String → Call
  remove_all : String → Call
  mkdir_all : String → Call
  rename : String → String → Call
  walk : String → Call
  -- CopyDir (source, destination)
  copy_dir : String → String → Call
  -- the order in which `range` visits the entries of a map
  visit_order : List (DirectoryData × KeptnArtifactMetadataSpec) → Call
  -- rsa.GenerateKey, and a line on the standard output
  generate_key : ℕ → Call
  print : String → Call
  encrypt_oaep : String → String → String → String → Call
  -- the promotion service: a Kubernetes client, the events that it sends back, and its git handler
  -- (stage, service, version, configuration version)
  new_client : Call
  send_started : TaskStatus → Call
  send_finished : TaskStatus → TaskResult → String → Call
  update_git_repo : GitRepositoryConfig → String → String → String → String → Call

abbrev pub Resp : Call → Type 0
Resp (get_object k key) = Reply (Object k)
Resp (list_objects k ns) = Reply (List (Object k))
Resp (create k o) = Option GoError
Resp (update k o) = Option GoError
Resp (update_status k o) = Option GoError
Resp (set_controller_reference owner meta) = Reply (List String)
Resp (record_event ty reason message) = Unit {0}
Resp now = ℕ
Resp (get_all_projects url token) = Reply (List ModelProject)
Resp (get_all_services url token project stage) = Reply (List String)
Resp (new_request method url) = Option GoError
Resp (send r) = Reply HttpResponse
Resp (temp_dir prefix) = String
Resp (clone c branch dir) = Option GoError
Resp (head dir) = Reply String
Resp (write_file path content) = Option GoError
Resp (worktree dir) = Option GoError
Resp (git_add dir) = Option GoError
Resp (commit dir message) = Option GoError
Resp (push c dir refs) = Option GoError
-- the names of the tags, and the error that ends their iteration
Resp (tag_objects dir) = Reply (List String × Option GoError)
Resp (create_tag dir tag hash) = Option GoError
Resp (delete_tag_object dir tag) = Option GoError
Resp (push_delete dir tag) = Option GoError
Resp (read_dir dir) = Reply (List DirEntry)
-- the bytes that could be read, with the error
Resp (read_file path) = String × Option GoError
-- whether it is a directory
Resp (stat path) = Reply Bool
Resp (remove_all path) = Option GoError
Resp (mkdir_all path) = Option GoError
Resp (rename from to) = Option GoError
Resp (walk dir) = List WalkEntry
Resp (copy_dir from to) = Option GoError
Resp (visit_order services) = List (DirectoryData × KeptnArtifactMetadataSpec)
Resp (generate_key bits) = Reply String
Resp (print line) = Unit {0}
Resp (encrypt_oaep hash key message label) = Reply String
Resp new_client = Option GoError
Resp (send_started status) = Option GoError
Resp (send_finished status outcome message) = Option GoError
Resp (update_git_repo c stage service version config_version) = Option GoError
