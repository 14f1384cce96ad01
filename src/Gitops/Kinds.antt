-- ===== src/Gitops/Kinds.antt =====
-- The functions of gitops-operator/controllers/utils_keptn*.go: checkCreate for each kind of
-- resource, with its reconcile.
use keptn_gitops_operator.Base.{Bool, Reply}
use keptn_gitops_operator.Api.{
  KeptnProject, KeptnService, KeptnStage, KeptnSequence, KeptnInstance, KeptnServiceDeployment,
  KeptnSequenceExecution, KeptnScheduledExec, KeptnGitRepository,
}
use keptn_gitops_operator.Cluster.{Env, Exec}
use keptn_gitops_operator.Gitops.Parts.{
  project, service, stage, sequence_, instance_, service_deployment, sequence_execution,
  scheduled_exec,
}
use keptn_gitops_operator.Gitops.Apply.{check_create}

module _ (E : Env) where
  abbrev pub check_create_instance : KeptnGitRepository → KeptnInstance → Exec E (Reply Bool)
  check_create_instance = check_create E instance_

  abbrev pub check_create_sequence : KeptnGitRepository → KeptnSequence → Exec E (Reply Bool)
  check_create_sequence = check_create E sequence_

  abbrev pub check_create_stage : KeptnGitRepository → KeptnStage → Exec E (Reply Bool)
  check_create_stage = check_create E stage

  abbrev pub check_create_project : KeptnGitRepository → KeptnProject → Exec E (Reply Bool)
  check_create_project = check_create E project

  abbrev pub check_create_service : KeptnGitRepository → KeptnService → Exec E (Reply Bool)
  check_create_service = check_create E service

  abbrev pub check_create_sequence_execution :
      KeptnGitRepository → KeptnSequenceExecution → Exec E (Reply Bool)
  check_create_sequence_execution = check_create E sequence_execution

  abbrev pub check_create_service_deployment :
      KeptnGitRepository → KeptnServiceDeployment → Exec E (Reply Bool)
  check_create_service_deployment = check_create E service_deployment

  abbrev pub check_create_scheduled_execution :
      KeptnGitRepository → KeptnScheduledExec → Exec E (Reply Bool)
  check_create_scheduled_execution = check_create E scheduled_exec
