-- ===== src/Gitops/Repository/Tests.antt =====
-- A git repository with one manifest on the small cluster: its stage is created, then the commit is
-- recorded.
use keptn_gitops_operator.Base.{sym, ap, Option, none, value, suc, ◌≡◌, refl, some, Outcome, lookup}
use keptn_gitops_operator.Api.{KeptnGitRepository}
use keptn_gitops_operator.Cluster.{get_object, keptn_git_repository, World, perform}
use keptn_gitops_operator.Operator.Result.{Result}
use keptn_gitops_operator.Cluster.Sample.{repository}
use keptn_gitops_operator.Gitops.Repository.{with_defaults}
use keptn_gitops_operator.Gitops.Repository.{with_commit}
use keptn_gitops_operator.Cluster.Written.{object_steps}
use keptn_gitops_operator.Cluster.Written.{written}
use keptn_gitops_operator.Cluster.Sample.{sample_env, sample_world, key}
use keptn_gitops_operator.Cluster.Written.{statuses}
use keptn_gitops_operator.Gitops.Repository.{reconcile}
use keptn_gitops_operator.Gitops.Repository.Outcomes.{reconcile-Reconciles, Reconciles}
use keptn_gitops_operator.Base.Paths.{clean}
use keptn_gitops_operator.Gitops.Git.{for_each_tag}
use keptn_gitops_operator.Gitops.Apply.{check_create}
use keptn_gitops_operator.Cluster.Trace.{key_of_object}
use keptn_gitops_operator.Cluster.Sample.{is_key, one}
use keptn_gitops_operator.Cluster.Sample.Laws.{is_key_refl}
use keptn_gitops_operator.Gitops.Repository.Recorded.{recorded_once, last_saved, KeepsStatus}

repository_KeepsStatus : KeepsStatus sample_env
repository_KeepsStatus = record {
  stored = λ s k. one (is_key s.repository.meta k) s.repository;
  saves_status =
      λ s o h. (record o { spec = s.repository.spec }, (rw (is_key_refl o.meta) refl, refl));
  serves = λ s k o h. rw h refl;
}

abbrev first : Outcome Result × World sample_env
first = reconcile sample_env (key "podtato") sample_world

reconcile-Reconciles_example : Reconciles sample_env sample_world first
reconcile-Reconciles_example = reconcile-Reconciles sample_env (key "podtato") sample_world

abbrev second : Outcome Result × World sample_env
second = reconcile sample_env (key "podtato") first.1

abbrev recorded : KeptnGitRepository
recorded = with_commit (with_defaults repository) "abc"

second_records : statuses second.1 ≡ suc (statuses first.1)
unfolding object_steps reconcile perform clean check_create lookup for_each_tag
second_records = refl

second_saves : last_saved second.1.trace ≡ some recorded
unfolding reconcile perform clean check_create lookup for_each_tag
second_saves = refl

abbrev or_repository : Option KeptnGitRepository → KeptnGitRepository
or_repository none = repository
or_repository (some o) = o

found_repository :
    (sample_env.respond (get_object keptn_git_repository (key "podtato")) first.1.state).0
    ≡ value repository
unfolding reconcile perform clean check_create lookup for_each_tag
found_repository = refl

same_spec :
    (o : KeptnGitRepository)
    → repository_KeepsStatus.stored second.1.state (key_of_object keptn_git_repository recorded)
      ≡ some o
    → o.spec ≡ repository.spec
unfolding repository_KeepsStatus reconcile perform clean check_create lookup for_each_tag
same_spec o here = sym (ap (λ r. (or_repository r).spec) here)

recorded_once_example :
    written (reconcile sample_env (key_of_object keptn_git_repository recorded) second.1).1
    ≡ written second.1
recorded_once_example =
    recorded_once sample_env repository_KeepsStatus recorded "abc" (key "podtato") repository
      (λ s c d config cloned. refl) first.1 found_repository second_records second_saves same_spec
