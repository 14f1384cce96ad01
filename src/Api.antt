-- ===== src/Api.antt =====
-- The custom resources: keptn-operator/api/v1 and gitops-operator/api/v1, and the fields of
-- Kubernetes' own types that the operators read. TypeMeta is left out.
use keptn_gitops_operator.Base.{ℕ, String, Bool, false, none, List, [], GoMap}

-- The fields of metav1.ObjectMeta that the operators read or write. `deleting` says that
-- DeletionTimestamp is set.
pub record ObjectMeta : Type 0 where
  pub name : String
  pub generate_name : String
  pub namespace : String
  pub annotations : GoMap
  pub finalizers : List String
  pub owners : List String
  pub deleting : Bool

-- The zero ObjectMeta.
abbrev pub no_meta : ObjectMeta
no_meta = record {
  name = "";
  generate_name = "";
  namespace = "";
  annotations = none;
  finalizers = [];
  owners = [];
  deleting = false;
}

pub record NamespacedName : Type 0 where
  pub name : String
  pub namespace : String

pub record KeptnProjectSpec : Type 0 where
  pub repository : String
  pub username : String
  pub password : String
  pub initial_shipyard : String
  pub default_branch : String

pub record KeptnProject : Type 0 where
  pub meta : ObjectMeta
  pub spec : KeptnProjectSpec
  pub project_exists : Bool

pub record KeptnServiceSpec : Type 0 where
  pub service : String
  pub project : String
  pub version : String
  pub stage : String
  pub deployment_event : String

pub record KeptnService : Type 0 where
  pub meta : ObjectMeta
  pub spec : KeptnServiceSpec
  pub project_exists : Bool

pub record KeptnSequenceRefSpec : Type 0 where
  pub ref_type : String
  pub sequence_ref : String

pub record KeptnStageSpec : Type 0 where
  pub project : String
  pub sequence : List KeptnSequenceRefSpec

pub record KeptnStage : Type 0 where
  pub meta : ObjectMeta
  pub spec : KeptnStageSpec

pub record Trigger : Type 0 where
  pub event : String
  pub selector : GoMap

pub record Task : Type 0 where
  pub name : String
  pub triggered_after : String
  pub properties : GoMap

pub record Sequence : Type 0 where
  pub name : String
  pub triggered_on : List Trigger
  pub tasks : List Task

pub record KeptnSequence : Type 0 where
  pub meta : ObjectMeta
  pub sequence : Sequence

-- Shipyard, ShipyardSpec and Stage of shipyard_types.go; `metadata` holds its name.
pub record Stage : Type 0 where
  pub name : String
  pub sequences : List Sequence

pub record Shipyard : Type 0 where
  pub api_version : String
  pub kind : String
  pub metadata : String
  pub stages : List Stage

pub record KeptnShipyardSpec : Type 0 where
  pub project : String
  pub shipyard : Shipyard

pub record KeptnShipyardStatus : Type 0 where
  pub project_exists : Bool
  pub last_applied_hash : String
  pub last_uploaded_hash : String

pub record KeptnShipyard : Type 0 where
  pub meta : ObjectMeta
  pub spec : KeptnShipyardSpec
  pub status : KeptnShipyardStatus

-- `last_updated` is a number of seconds.
pub record KeptnInstanceSpec : Type 0 where
  pub api_url : String
  pub token_type : String
  pub token : String

pub record KeptnInstanceStatus : Type 0 where
  pub auth_header : String
  pub current_token : String
  pub last_updated : ℕ
  pub scheme : String

pub record KeptnInstance : Type 0 where
  pub meta : ObjectMeta
  pub spec : KeptnInstanceSpec
  pub status : KeptnInstanceStatus

pub record KeptnServiceDeploymentSpec : Type 0 where
  pub project : String
  pub service : String
  pub stage : String
  pub version : String
  pub config_version : String
  pub author : String
  pub source_commit_hash : String
  pub labels : GoMap

pub record KeptnServiceDeploymentPrerequisites : Type 0 where
  pub project_exists : Bool
  pub service_exists : Bool
  pub stage_exists : Bool

pub record KeptnServiceDeploymentProgress : Type 0 where
  pub artifact_available : Bool
  pub deployment_triggered : Bool

pub record KeptnServiceDeploymentStatus : Type 0 where
  pub deployed_version : String
  pub deployed_config_version : String
  pub update_pending : Bool
  pub keptn_context : String
  pub last_applied_hash : String
  pub prerequisites : KeptnServiceDeploymentPrerequisites
  pub progress : KeptnServiceDeploymentProgress

pub record KeptnServiceDeployment : Type 0 where
  pub meta : ObjectMeta
  pub spec : KeptnServiceDeploymentSpec
  pub status : KeptnServiceDeploymentStatus

pub record KeptnSequenceExecutionSpec : Type 0 where
  pub project : String
  pub service : String
  pub stage : String
  pub event : String
  pub labels : GoMap

pub record KeptnSequenceExecutionStatus : Type 0 where
  pub project_exists : Bool
  pub service_exists : Bool
  pub keptn_context : String
  pub last_applied_hash : String
  pub update_pending : Bool

pub record KeptnSequenceExecution : Type 0 where
  pub meta : ObjectMeta
  pub spec : KeptnSequenceExecutionSpec
  pub status : KeptnSequenceExecutionStatus

pub record KeptnScheduledExecSpec : Type 0 where
  pub start_time : String
  pub sequence_execution_template : KeptnSequenceExecutionSpec

pub record KeptnScheduledExec : Type 0 where
  pub meta : ObjectMeta
  pub spec : KeptnScheduledExecSpec
  pub started : Bool

pub record KeptnDeploymentContextSpec : Type 0 where
  pub project : String
  pub service : String
  pub version : String

pub record KeptnDeploymentContextStatus : Type 0 where
  pub last_applied_hash : GoMap
  pub keptn_context : String

pub record KeptnDeploymentContext : Type 0 where
  pub meta : ObjectMeta
  pub spec : KeptnDeploymentContextSpec
  pub status : KeptnDeploymentContextStatus

-- corev1.ConfigMap and corev1.Secret.
pub record DataObject : Type 0 where
  pub meta : ObjectMeta
  pub entries : GoMap

pub record KeptnGitRepositorySpec : Type 0 where
  pub repository : String
  pub token : String
  pub username : String
  pub branch : String
  pub base_dir : String

pub record KeptnGitRepositoryStatus : Type 0 where
  pub last_commit : String
  pub result : String

pub record KeptnGitRepository : Type 0 where
  pub meta : ObjectMeta
  pub spec : KeptnGitRepositorySpec
  pub status : KeptnGitRepositoryStatus
