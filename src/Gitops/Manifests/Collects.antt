-- ===== src/Gitops/Manifests/Collects.antt =====
-- The manifests of a kind are the decoded objects of that kind, in the order of the files.
use keptn_gitops_operator.Base.{◌≡◌, refl, sym, ap, ◌∙◌, List, [], ◌∷◌, ◌++◌}
use keptn_gitops_operator.Cluster.{
  keptn_project, keptn_service, keptn_stage, keptn_sequence, keptn_instance,
  keptn_service_deployment, keptn_sequence_execution, keptn_scheduled_exec, Decoded, decoded,
}
use mathlib.Core.List.{append_assoc, append-nil}
use keptn_gitops_operator.Gitops.Parts.{
  Part, Resource, project, service, stage, sequence_, instance_, service_deployment,
  sequence_execution, scheduled_exec,
}
use keptn_gitops_operator.Gitops.Manifests.{KeptnManifests, append_object, append_objects}

-- The list of a kind.
abbrev pub of_kind : (p : Part) → KeptnManifests → List (Resource p)
of_kind project config = config.projects
of_kind service config = config.services
of_kind stage config = config.stages
of_kind sequence_ config = config.sequences
of_kind instance_ config = config.instances
of_kind service_deployment config = config.servicedeployments
of_kind sequence_execution config = config.execution
of_kind scheduled_exec config = config.scheduledexec

-- The object, if it is of the kind.
abbrev pub as_kind : (p : Part) → Decoded → List (Resource p)
as_kind project (decoded keptn_project o) = o ∷ []
as_kind service (decoded keptn_service o) = o ∷ []
as_kind stage (decoded keptn_stage o) = o ∷ []
as_kind sequence_ (decoded keptn_sequence o) = o ∷ []
as_kind instance_ (decoded keptn_instance o) = o ∷ []
as_kind service_deployment (decoded keptn_service_deployment o) = o ∷ []
as_kind sequence_execution (decoded keptn_sequence_execution o) = o ∷ []
as_kind scheduled_exec (decoded keptn_scheduled_exec o) = o ∷ []
as_kind p obj = []

-- The objects of the kind among all.
abbrev pub collect : (p : Part) → List Decoded → List (Resource p)
collect p [] = []
collect p (obj ∷ objs) = as_kind p obj ++ collect p objs

of_kind-append_object :
    (p : Part) (config : KeptnManifests) (obj : Decoded)
    → of_kind p (append_object config obj) ≡ of_kind p config ++ as_kind p obj
unfolding append_object
of_kind-append_object project config (decoded keptn_project o) = refl
of_kind-append_object project config _ = sym (append-nil (of_kind project config))
of_kind-append_object service config (decoded keptn_service o) = refl
of_kind-append_object service config _ = sym (append-nil (of_kind service config))
of_kind-append_object stage config (decoded keptn_stage o) = refl
of_kind-append_object stage config _ = sym (append-nil (of_kind stage config))
of_kind-append_object sequence_ config (decoded keptn_sequence o) = refl
of_kind-append_object sequence_ config _ = sym (append-nil (of_kind sequence_ config))
of_kind-append_object instance_ config (decoded keptn_instance o) = refl
of_kind-append_object instance_ config _ = sym (append-nil (of_kind instance_ config))
of_kind-append_object service_deployment config (decoded keptn_service_deployment o) = refl
of_kind-append_object service_deployment config _ =
    sym (append-nil (of_kind service_deployment config))
of_kind-append_object sequence_execution config (decoded keptn_sequence_execution o) = refl
of_kind-append_object sequence_execution config _ =
    sym (append-nil (of_kind sequence_execution config))
of_kind-append_object scheduled_exec config (decoded keptn_scheduled_exec o) = refl
of_kind-append_object scheduled_exec config _ = sym (append-nil (of_kind scheduled_exec config))

-- For each kind, the manifests of that kind after the loop over the decoded objects are those
-- before it, followed by the objects of that kind in their order.
pub of_kind-append_objects :
    (p : Part) (config : KeptnManifests) (objs : List Decoded)
    → of_kind p (append_objects config objs) ≡ of_kind p config ++ collect p objs
unfolding append_objects
of_kind-append_objects p config [] = sym (append-nil (of_kind p config))
of_kind-append_objects p config (obj ∷ objs) =
    of_kind-append_objects p (append_object config obj) objs
    ∙ (ap (λ l. l ++ collect p objs) (of_kind-append_object p config obj)
        ∙ append_assoc (of_kind p config) (as_kind p obj) (collect p objs))
