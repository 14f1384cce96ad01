-- ===== src/Gitops/Repository/Outcomes.antt =====
-- The outcomes of a run of Reconcile for a git repository.
use keptn_gitops_operator.Base.{
  String, ◌≡◌, refl, ap, ◌∙◌, ◌⊎◌, inl, inr, Bool, true, false, none, arith, ◌==◌, not_found,
  failed, Reply, value, error, Outcome, returned, ended, if◌then◌else◌,
}
use keptn_gitops_operator.Api.{NamespacedName, KeptnGitRepository}
use keptn_gitops_operator.Cluster.{GitRepositoryConfig, Env, World, Exec, continue, ◌>>=◌}
use keptn_gitops_operator.Operator.Result.{Result}
use keptn_gitops_operator.Cluster.Trace.{count, is_created, is_status_update}
use keptn_gitops_operator.Cluster.Written.{
  written, creates, statuses, Quiet, Quiet-perform, Quiet-lift,
}
use keptn_gitops_operator.Gitops.Quiet.Git.{written-get_client, written-get_last_commit_hash}
use keptn_gitops_operator.Gitops.Git.{GoGitClient}
use keptn_gitops_operator.Gitops.Manifests.Reads.{written-parse_keptn_manifests}
use keptn_gitops_operator.Gitops.Repository.{
  with_hash, with_client, with_config, sync, with_repository, reconcile, with_defaults,
  no_repository,
}
use keptn_gitops_operator.Gitops.Repository.Runs.{
  IsRun, failing, Ends, Ends-from, Ends-apply_manifests,
}

module _ (E : Env) where
  -- A run without an error that has created and written nothing.
  abbrev pub IsIdle : World E → Result → World E → Type 0
  IsIdle w r w' = (r.err ≡ none) × ((r.requeue ≡ false) × (written w' ≡ written w))

  abbrev pub Reconciles : World E → Outcome Result × World E → Type 0
  Reconciles w (returned r, w') = IsRun E w r w' ⊎ IsIdle w r w'
  Reconciles w (ended m, w') = (creates w' ≡ creates w) × (statuses w' ≡ statuses w)

  Reconciles-Ends : (w : World E) (x : Outcome Result × World E) → Ends E w x → Reconciles w x
  Reconciles-Ends w (returned r, w') h = inl h
  Reconciles-Ends w (ended m, w') h = h

  Reconciles-from :
      (w w1 : World E) (x : Outcome Result × World E)
      → written w1 ≡ written w
      → Reconciles w1 x
      → Reconciles w x
  Reconciles-from w w1 (returned r, w') same (inl h) = inl (
      Ends-from E w w1 (returned r, w') (ap (count is_created) same)
        (ap (count is_status_update) same) h)
  Reconciles-from w w1 (returned r, w') same (inr (e, (q, h))) = inr (e, (q, h ∙ same))
  Reconciles-from w w1 (ended m, w') same (c, s) =
      (c ∙ ap (count is_created) same, s ∙ ap (count is_status_update) same)

  abbrev Reconciling : Exec E Result → Type 0
  Reconciling m = (w : World E) → Reconciles w (m w)

  Reconciles-after :
      {A : Type 0} (m : Exec E A) (f : A → Exec E Result)
      → Quiet E m
      → ((a : A) → Reconciling (f a))
      → Reconciling (m >>= f)
  unfolding Quiet
  Reconciles-after m f quiet h w = go (m w).0 (m w).1 (quiet w)
    where
      go : (o : Outcome _) (w1 : World E) → written w1 ≡ written w → Reconciles w (continue o f w1)
      go (returned a) w1 same = Reconciles-from w w1 _ same (h a w1)
      go (ended m) w1 same = (ap (count is_created) same, ap (count is_status_update) same)

  Reconciling-if :
      (b : Bool) (m n : Exec E Result)
      → Reconciling m
      → Reconciling n
      → Reconciling (if b then m else n)
  Reconciling-if true m n hm hn = hm
  Reconciling-if false m n hm hn = hn

  module _ (repo : KeptnGitRepository) where
    Reconciles-with_hash : (n d : String) (r : Reply String) → Reconciling (with_hash E repo n d r)
    unfolding with_hash
    Reconciles-with_hash n d (error e) = λ w. inl (failing e refl (omega arith) refl)
    Reconciles-with_hash n d (value h) =
        Reconciling-if (h == repo.status.last_commit) _ _ (λ w. inr (refl, (refl, refl)))
          (Reconciles-after _ _ (written-parse_keptn_manifests E d repo.spec.base_dir)
            λ r w. Reconciles-Ends w _ (Ends-apply_manifests E repo n d h r w))

    Reconciles-with_client :
        (n d : String) (r : Reply GoGitClient) → Reconciling (with_client E repo n d r)
    unfolding with_client
    Reconciles-with_client n d (error e) = λ w. inl (failing e refl (omega arith) refl)
    Reconciles-with_client n d (value gc) =
        Reconciles-after _ _ (written-get_last_commit_hash E gc) (Reconciles-with_hash n d)

    Reconciles-with_config :
        (n d : String) (r : Reply GitRepositoryConfig) → Reconciling (with_config E repo n d r)
    unfolding with_config
    Reconciles-with_config n d (error e) = λ w. inl (failing e refl (omega arith) refl)
    Reconciles-with_config n d (value c) =
        Reconciles-after _ _ (written-get_client E c d) (Reconciles-with_client n d)

    Reconciles-sync : (n : String) → Reconciling (sync E repo n)
    unfolding sync
    Reconciles-sync n =
        Reconciles-after _ _ (Quiet-perform E _ refl)
          λ d. Reconciles-after _ _ (Quiet-lift E _) (Reconciles-with_config n d)

  Reconciles-with_repository :
      (n : String) (r : Reply KeptnGitRepository) → Reconciling (with_repository E n r)
  unfolding with_repository
  Reconciles-with_repository n (error (not_found m)) = λ w. inr (refl, (refl, refl))
  Reconciles-with_repository n (error (failed m)) = Reconciles-sync (with_defaults no_repository) n
  Reconciles-with_repository n (value repo) = Reconciles-sync (with_defaults repo) n

  -- A run of Reconcile for a git repository that returns has created exactly one object, by
  -- a call that succeeded, asks to be run again after a second and calls no update of the
  -- status; or has created nothing and called the update of the status once, of which an
  -- error is only logged; or returns an error, with no object created and no status update
  -- called; or has made no call that creates or updates an object. One that does not return
  -- has created no object and called no update of the status.
  pub reconcile-Reconciles : (req : NamespacedName) (w : World E) → Reconciles w (reconcile E req w)
  unfolding reconcile
  reconcile-Reconciles req =
      Reconciles-after _ _ (Quiet-perform E _ refl) (Reconciles-with_repository req.namespace)
