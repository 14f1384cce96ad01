-- ===== src/Gitops/Manifests/Tests.antt =====
-- The manifests of two objects.
use keptn_gitops_operator.Base.{◌≡◌, List, [], ◌∷◌}
use keptn_gitops_operator.Cluster.{keptn_project, keptn_stage, Decoded, decoded}
use keptn_gitops_operator.Cluster.Sample.{dev, the_project}
use keptn_gitops_operator.Gitops.Parts.{stage}
use keptn_gitops_operator.Gitops.Manifests.{append_objects, no_manifests}
use keptn_gitops_operator.Gitops.Manifests.Collects.{of_kind, of_kind-append_objects}

abbrev objects : List Decoded
objects = decoded keptn_project the_project ∷ (decoded keptn_stage dev ∷ [])

of_kind-append_objects_example : of_kind stage (append_objects no_manifests objects) ≡ dev ∷ []
of_kind-append_objects_example = of_kind-append_objects stage no_manifests objects
