-- ===== src/Operator/Project/Tests.antt =====
-- A project that is deleted.
use keptn_gitops_operator.Base.{◌+◌, ◌≤◌, true, refl, value, ◌∷◌, []}
use keptn_gitops_operator.Api.{KeptnProject}
use keptn_gitops_operator.Cluster.Trace.{count, is_answered, is_update}
use keptn_gitops_operator.Cluster.Sample.{sample_env, sample_world, key, instance_, the_project}
use keptn_gitops_operator.Operator.Utils.Traces.{sends}
use keptn_gitops_operator.Operator.Project.Sends.{sends-reconcile_project}
use keptn_gitops_operator.Operator.Project.{reconcile, with_object}
use keptn_gitops_operator.Operator.Project.Deletion.{deletion_first_of_project}

abbrev gone : KeptnProject
gone = record the_project {
  meta = record the_project.meta {
    deleting = true;
    finalizers = "keptnprojects.keptn.sh/finalizer" ∷ [];
  };
}

deletion_first_of_project_example :
    count is_update
        (with_object sample_env (key "podtato") instance_ "abc" (value gone) sample_world).1.trace
      + 0
    ≤ 0
      + count is_answered
          (with_object sample_env (key "podtato") instance_ "abc" (value gone) sample_world).1.trace
deletion_first_of_project_example =
    deletion_first_of_project sample_env (key "podtato") instance_ "abc" gone sample_world refl

sends-reconcile_project_example :
    sends sample_env (reconcile sample_env (key "podtato") sample_world).1 ≤ 1
sends-reconcile_project_example = sends-reconcile_project sample_env (key "podtato") sample_world
