-- ===== src/Operator.antt =====
-- keptn-operator: the helpers of pkg/utils and the controllers.
pub mod Secrets
pub mod Utils
pub mod Result
pub mod SequenceExecution
pub mod ServiceDeployment
pub mod Service
pub mod Compose
pub mod Project
pub mod Stage
pub mod Shipyard
pub mod ScheduledExec
pub mod Instance
