-- ===== src/Gitops/Parts.antt =====
-- The kinds of custom resources that gitops-operator applies, and what its functions for each kind
-- differ in.
use keptn_gitops_operator.Base.{String, ◌≡◌, refl, Bool, true, false}
use keptn_gitops_operator.Api.{ObjectMeta}
use keptn_gitops_operator.Cluster.{
  Kind, Object, meta_of, keptn_project, keptn_service, keptn_stage, keptn_sequence, keptn_instance,
  keptn_service_deployment, keptn_sequence_execution, keptn_scheduled_exec, Hashed, of_project,
  of_service, of_stage, of_sequence, of_instance, of_service_deployment, of_sequence_execution,
  of_scheduled_exec,
}

pub data Part : Type 0 where
  project service stage sequence_ instance_ service_deployment sequence_execution scheduled_exec :
      Part

abbrev pub kind_of : Part → Kind
kind_of project = keptn_project
kind_of service = keptn_service
kind_of stage = keptn_stage
kind_of sequence_ = keptn_sequence
kind_of instance_ = keptn_instance
kind_of service_deployment = keptn_service_deployment
kind_of sequence_execution = keptn_sequence_execution
kind_of scheduled_exec = keptn_scheduled_exec

abbrev pub Resource : Part → Type 0
Resource p = Object (kind_of p)

-- Only the function for instances sets no controller reference.
abbrev pub is_owned : Part → Bool
is_owned instance_ = false
is_owned _ = true

abbrev pub with_meta : (p : Part) → ObjectMeta → Resource p → Resource p
with_meta project m o = record o { meta = m }
with_meta service m o = record o { meta = m }
with_meta stage m o = record o { meta = m }
with_meta sequence_ m o = record o { meta = m }
with_meta instance_ m o = record o { meta = m }
with_meta service_deployment m o = record o { meta = m }
with_meta sequence_execution m o = record o { meta = m }
with_meta scheduled_exec m o = record o { meta = m }

-- The object with the spec of the second.
abbrev pub with_spec : (p : Part) → Resource p → Resource p → Resource p
with_spec project o x = record o { spec = x.spec }
with_spec service o x = record o { spec = x.spec }
with_spec stage o x = record o { spec = x.spec }
with_spec sequence_ o x = record o { sequence = x.sequence }
with_spec instance_ o x = record o { spec = x.spec }
with_spec service_deployment o x = record o { spec = x.spec }
with_spec sequence_execution o x = record o { spec = x.spec }
with_spec scheduled_exec o x = record o { spec = x.spec }

abbrev pub hashed : (p : Part) → Resource p → Hashed
hashed project o = of_project o.spec
hashed service o = of_service o.spec
hashed stage o = of_stage o.spec
hashed sequence_ o = of_sequence o.sequence
hashed instance_ o = of_instance o.spec
hashed service_deployment o = of_service_deployment o.spec
hashed sequence_execution o = of_sequence_execution o.spec
hashed scheduled_exec o = of_scheduled_exec o.spec

-- The words of the message of an update.
abbrev pub change : Part → String × String
change project = ("project", "Project")
change service = ("service", "Service")
change stage = ("stage", "Stage")
change sequence_ = ("sequence", "KeptnSequence")
change instance_ = ("instance", "Instance")
change service_deployment = ("KeptnServiceDeployment", "KeptnServiceDeployment")
change sequence_execution = ("SequenceExecution", "SequenceExecution")
change scheduled_exec = ("scheduledExecution", "scheduledExecution")

pub meta_of-with_meta :
    (p : Part) (m : ObjectMeta) (o : Resource p) → meta_of (kind_of p) (with_meta p m o) ≡ m
meta_of-with_meta project m o = refl
meta_of-with_meta service m o = refl
meta_of-with_meta stage m o = refl
meta_of-with_meta sequence_ m o = refl
meta_of-with_meta instance_ m o = refl
meta_of-with_meta service_deployment m o = refl
meta_of-with_meta sequence_execution m o = refl
meta_of-with_meta scheduled_exec m o = refl

pub meta_of-with_spec :
    (p : Part) (o x : Resource p) → meta_of (kind_of p) (with_spec p o x) ≡ meta_of (kind_of p) o
meta_of-with_spec project o x = refl
meta_of-with_spec service o x = refl
meta_of-with_spec stage o x = refl
meta_of-with_spec sequence_ o x = refl
meta_of-with_spec instance_ o x = refl
meta_of-with_spec service_deployment o x = refl
meta_of-with_spec sequence_execution o x = refl
meta_of-with_spec scheduled_exec o x = refl

pub hashed-with_meta :
    (p : Part) (m : ObjectMeta) (o : Resource p) → hashed p (with_meta p m o) ≡ hashed p o
hashed-with_meta project m o = refl
hashed-with_meta service m o = refl
hashed-with_meta stage m o = refl
hashed-with_meta sequence_ m o = refl
hashed-with_meta instance_ m o = refl
hashed-with_meta service_deployment m o = refl
hashed-with_meta sequence_execution m o = refl
hashed-with_meta scheduled_exec m o = refl
