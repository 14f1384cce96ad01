-- ===== src/Gitops/Repository/Runs.antt =====
-- What a run of Reconcile comes to: a creation, a recorded commit, an error or nothing.
use keptn_gitops_operator.Base.{
  suc, String, ◌≡◌, refl, ap, ◌∙◌, Bool, true, false, none, some, List, [], ◌∷◌, arith, GoError,
  Reply, value, error, Outcome, returned, ended,
}
use keptn_gitops_operator.Api.{KeptnGitRepository}
use keptn_gitops_operator.Cluster.{Env, World, Exec, continue, perform, ◌>>=◌}
use keptn_gitops_operator.Operator.Result.{Result, result}
use keptn_gitops_operator.Cluster.Written.{object_steps, written, creates, statuses, Quiet}
use keptn_gitops_operator.Gitops.Apply.Creations.{IsCheck, IsCheck-check_create}
use keptn_gitops_operator.Gitops.Parts.{
  project, service, stage, sequence_, instance_, service_deployment, sequence_execution,
}
use keptn_gitops_operator.Gitops.Quiet.{written-deliver_artifacts}
use keptn_gitops_operator.Gitops.Manifests.{KeptnManifests}
use keptn_gitops_operator.Gitops.Repository.{
  update_status_result, next_manifest, check_all, apply_deployments, deliver_and_apply,
  apply_manifests, reconcile_immediate_interval,
}
use keptn_gitops_operator.Cluster.Trace.{count, is_created, is_status_update}

module _ (E : Env) where
  -- A run that has got to the manifests has created an object and asks to be run again at once, or has
  -- written the status, or ends in an error.
  pub data IsRun (w : World E) (r : Result) (w' : World E) : Type 0 where
    creating :
        r ≡ result true reconcile_immediate_interval none
        → creates w' ≡ suc (creates w)
        → statuses w' ≡ statuses w
        → IsRun w r w'
    recording :
        (r.err ≡ none)
        → r.requeue ≡ false
        → creates w' ≡ creates w
        → statuses w' ≡ suc (statuses w)
        → IsRun w r w'
    failing :
        (e : GoError)
        → r.err ≡ some e
        → creates w' ≡ creates w
        → statuses w' ≡ statuses w
        → IsRun w r w'

  abbrev pub Ends : World E → Outcome Result × World E → Type 0
  Ends w (returned r, w') = IsRun w r w'
  Ends w (ended m, w') = (creates w' ≡ creates w) × (statuses w' ≡ statuses w)

  -- Code that ends like a run.
  abbrev pub Running : Exec E Result → Type 0
  Running m = (w : World E) → Ends w (m w)

  pub Ends-from :
      (w w1 : World E) (x : Outcome Result × World E)
      → creates w1 ≡ creates w
      → statuses w1 ≡ statuses w
      → Ends w1 x
      → Ends w x
  Ends-from w w1 (returned r, w') c s (creating h c' s') = creating h (ground arith) (s' ∙ s)
  Ends-from w w1 (returned r, w') c s (recording h q c' s') = recording h q (c' ∙ c) (ground arith)
  Ends-from w w1 (returned r, w') c s (failing e h c' s') = failing e h (ground arith) (s' ∙ s)
  Ends-from w w1 (ended m, w') c s (c', s') = (c' ∙ c, s' ∙ s)

  -- After a quiet function that returns no error value of its own.
  Ends-after :
      {A : Type 0} (m : Exec E A) (f : A → Exec E Result)
      → Quiet E m
      → ((a : A) → Running (f a))
      → Running (m >>= f)
  unfolding Quiet
  Ends-after m f quiet h w = go (m w).0 (m w).1 (quiet w)
    where
      go : (o : Outcome _) (w1 : World E) → written w1 ≡ written w → Ends w (continue o f w1)
      go (returned a) w1 same =
          Ends-from w w1 _ (ap (count is_created) same) (ap (count is_status_update) same) (h a w1)
      go (ended m) w1 same = (ap (count is_created) same, ap (count is_status_update) same)

  Ends-next_manifest :
      (rest : Exec E Result) (w : World E) (x : Outcome (Reply Bool) × World E)
      → Running rest
      → IsCheck E w x
      → Ends w (continue x.0 (next_manifest E rest) x.1)
  Ends-next_manifest rest w (returned (value true), w1) h (s, c) = creating refl c s
  Ends-next_manifest rest w (returned (value false), w1) h (s, c) = Ends-from w w1 _ c s (h w1)
  Ends-next_manifest rest w (returned (error e), w1) h (s, c) = failing e refl c s
  Ends-next_manifest rest w (ended m, w1) h (s, c) = (c, s)

  Ends-check_all :
      {A : Type 0} (check : A → Exec E (Reply Bool)) (l : List A) (rest : Exec E Result)
      → ((a : A) (w : World E) → IsCheck E w (check a w))
      → Running rest
      → Running (check_all E check l rest)
  unfolding check_all
  Ends-check_all check [] rest each h w = h w
  Ends-check_all check (x ∷ l) rest each h w =
      Ends-next_manifest _ w (check x w) (Ends-check_all check l rest each h) (each x w)

  Ends-update_status_result :
      (repo : KeptnGitRepository) (hash : String) → Running (update_status_result E repo hash)
  unfolding update_status_result perform object_steps
  Ends-update_status_result repo hash w = recording refl refl refl refl

  module _ (repo : KeptnGitRepository) where
    Ends-apply_deployments :
        (m : KeptnManifests) (h : String) → Running (apply_deployments E repo m h)
    unfolding apply_deployments
    Ends-apply_deployments m h =
        Ends-check_all _ m.services _ (IsCheck-check_create E service repo) (
          Ends-check_all _ m.execution _ (IsCheck-check_create E sequence_execution repo) (
            Ends-check_all _ m.servicedeployments _ (IsCheck-check_create E service_deployment repo)
              (Ends-update_status_result repo h)))

    Ends-deliver_and_apply :
        (n d : String) (m : KeptnManifests) (h : String)
        → Running (deliver_and_apply E repo n d m h)
    unfolding deliver_and_apply
    Ends-deliver_and_apply n d m h =
        Ends-after _ _ (written-deliver_artifacts E n repo.spec.base_dir d)
          λ r. Ends-apply_deployments m h

    pub Ends-apply_manifests :
        (n d h : String) (r : Reply KeptnManifests) → Running (apply_manifests E repo n d h r)
    unfolding apply_manifests
    Ends-apply_manifests n d h (error e) = λ w. failing e refl (omega arith) refl
    Ends-apply_manifests n d h (value m) =
        Ends-check_all _ m.instances _ (IsCheck-check_create E instance_ repo) (
          Ends-check_all _ m.sequences _ (IsCheck-check_create E sequence_ repo) (
            Ends-check_all _ m.stages _ (IsCheck-check_create E stage repo) (
              Ends-check_all _ m.projects _ (IsCheck-check_create E project repo)
                (Ends-deliver_and_apply n d m h))))
