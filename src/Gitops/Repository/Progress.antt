-- ===== src/Gitops/Repository/Progress.antt =====
-- Each run over the same manifests gets closer to a cluster that has an object for every manifest.
mod Tests
use keptn_gitops_operator.Base.{
  ℕ, ◌+◌, ◌≤◌, ◌≡◌, refl, String, false, none, List, arith, value, Outcome, returned, ended,
}
use keptn_gitops_operator.Api.{KeptnGitRepository}
use keptn_gitops_operator.Cluster.{Env, World, Exec, continue, perform, ◌>>=◌}
use keptn_gitops_operator.Operator.Result.{Result, result}
use keptn_gitops_operator.Cluster.Written.{is_object_call}
use keptn_gitops_operator.Cluster.Within.{
  Calling, Calling-Within, Within-pure, Within-bind, Within-call,
}
use keptn_gitops_operator.Gitops.Parts.{
  Part, Resource, project, service, stage, sequence_, instance_, service_deployment,
  sequence_execution,
}
use keptn_gitops_operator.Gitops.Apply.{check_create}
use keptn_gitops_operator.Gitops.Apply.Stored.{KeepsObjects}
use keptn_gitops_operator.Gitops.Quiet.{Within-deliver_artifacts}
use keptn_gitops_operator.Gitops.Manifests.{KeptnManifests}
use keptn_gitops_operator.Gitops.Repository.{
  update_status_result, check_all, apply_deployments, deliver_and_apply, apply_manifests,
  sync_interval,
}
use keptn_gitops_operator.Gitops.Repository.Missing.{
  Progress, missing_of, Falling, Falling-missing_of, Progresses, Calling-check_all, Progress-weaken,
  Progresses-check_all,
}

module _ (E : Env) (S : KeepsObjects E) (repo : KeptnGitRepository) where
  -- A measure that nothing raises, and progress on it by code that makes calls.
  abbrev Advances : (World E → ℕ) → Exec E Result → Type 1
  Advances M m = Falling E S repo M × (Calling E m × Progresses E S repo M m)

  Advances-check_all :
      (M : World E → ℕ) (p : Part) (l : List (Resource p)) (rest : Exec E Result)
      → Advances M rest
      → Advances (λ w. missing_of E S repo p l w + M w) (check_all E (check_create E p repo) l rest)
  Advances-check_all M p l rest (falls, (calls, h)) = (
    (λ A m w c. omega (arith, Falling-missing_of E S repo p l A m w c, falls A m w c)),
    (
      Calling-check_all E S repo p l rest calls,
      Progresses-check_all E S repo M falls p rest calls l h,
    ),
  )

  Advances-after :
      (M : World E → ℕ) {A : Type 0} (m : Exec E A) (f : A → Exec E Result)
      → Calling E m
      → ((a : A) → Advances M (f a))
      → Falling E S repo M
      → Advances M (m >>= f)
  Advances-after M m f call h falls = (
    falls,
    (Within-bind E _ m f call (λ a. (h a).1.0), λ w. go w (m w).0 (m w).1 (falls _ m w call)),
  )
    where
      go :
          (w : World E) (o : Outcome _) (w1 : World E)
          → M w1 ≤ M w
          → (r : Result) → (continue o f w1).0 ≡ returned r
          → r.err ≡ none
          → Progress r.requeue (M w) (M (continue o f w1).1)
      go w (ended s) w1 le r ok fine = absurd (ground arith)
      go w (returned a) w1 le r ok fine =
          Progress-weaken r.requeue _ _ _ _ le refl ((h a).1.1 w1 r ok fine)

  Advances-update_status_result :
      (hash : String) → Advances (λ w. 0) (update_status_result E repo hash)
  unfolding update_status_result perform
  Advances-update_status_result hash = (
    (λ A m w c. omega arith),
    (
      Within-call E _ _ _ refl (λ r. Within-pure E _ (result false sync_interval none)),
      λ w r ok fine. (let same : r.requeue ≡ false = ground arith in rw same refl),
    ),
  )

  -- How many manifests have no object, of the kinds that a run applies.
  abbrev pub missing_deployments : KeptnManifests → World E → ℕ
  missing_deployments m w =
      missing_of E S repo service m.services w
      + (missing_of E S repo sequence_execution m.execution w
          + (missing_of E S repo service_deployment m.servicedeployments w + 0))

  abbrev pub missing : KeptnManifests → World E → ℕ
  missing m w =
      missing_of E S repo instance_ m.instances w
      + (missing_of E S repo sequence_ m.sequences w
          + (missing_of E S repo stage m.stages w
              + (missing_of E S repo project m.projects w + missing_deployments m w)))

  Advances-apply_deployments :
      (m : KeptnManifests) (h : String)
      → Advances (missing_deployments m) (apply_deployments E repo m h)
  unfolding apply_deployments
  Advances-apply_deployments m h = Advances-check_all _ service m.services _ (
      Advances-check_all _ sequence_execution m.execution _ (
        Advances-check_all _ service_deployment m.servicedeployments _
          (Advances-update_status_result h)))

  Advances-deliver_and_apply :
      (n d : String) (m : KeptnManifests) (h : String)
      → Advances (missing_deployments m) (deliver_and_apply E repo n d m h)
  unfolding deliver_and_apply
  Advances-deliver_and_apply n d m h =
      Advances-after _ _ _
        (Calling-Within E is_object_call _ (Within-deliver_artifacts E n repo.spec.base_dir d))
        (λ r. Advances-apply_deployments m h) (Advances-apply_deployments m h).0

  Advances-apply_manifests :
      (n d h : String) (m : KeptnManifests)
      → Advances (missing m) (apply_manifests E repo n d h (value m))
  unfolding apply_manifests
  Advances-apply_manifests n d h m = Advances-check_all _ instance_ m.instances _ (
      Advances-check_all _ sequence_ m.sequences _ (
        Advances-check_all _ stage m.stages _
          (Advances-check_all _ project m.projects _ (Advances-deliver_and_apply n d m h))))

  -- On an API server that keeps objects as documented, with no client that deletes them:
  -- where the application of the manifests of a repository, with the delivery of artifacts
  -- between, returns no error, either it asks to be run again and fewer manifests have no
  -- object than before, or it does not and every manifest has one; the manifests of
  -- scheduled executions aside.
  pub apply_manifests-Progresses :
      (n d h : String) (m : KeptnManifests) (w : World E) (r : Result)
      → (apply_manifests E repo n d h (value m) w).0 ≡ returned r
      → r.err ≡ none
      → Progress r.requeue (missing m w) (missing m (apply_manifests E repo n d h (value m) w).1)
  apply_manifests-Progresses n d h m = (Advances-apply_manifests n d h m).1.1
