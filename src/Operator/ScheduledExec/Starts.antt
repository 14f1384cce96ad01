-- ===== src/Operator/ScheduledExec/Starts.antt =====
-- When a sequence execution is created.
use keptn_gitops_operator.Base.{
  ℕ, ◌+◌, ◌≤◌, ◌≡◌, refl, ap, ◌∙◌, true, some, arith, not_found, failed, Reply, value, error,
}
use keptn_gitops_operator.Api.{NamespacedName, KeptnScheduledExec}
use keptn_gitops_operator.Cluster.{keptn_scheduled_exec, Env, World, perform}
use keptn_gitops_operator.Cluster.Trace.{count, is_create, Stores, read_is_stored}
use keptn_gitops_operator.Operator.ScheduledExec.{with_object, reconcile}

module _ (E : Env) where
  abbrev pub creates : World E → ℕ
  creates w = count is_create w.trace

  -- A run of Reconcile of the scheduled executions creates at most one object.
  pub creates-reconcile :
      (req : NamespacedName) (w : World E) → creates (reconcile E req w).1 ≤ creates w + 1
  unfolding reconcile perform
  creates-reconcile req w = ground arith

  module _ (S : Stores E keptn_scheduled_exec) (req : NamespacedName)
      (exec : KeptnScheduledExec) where
    creates-found :
        (r : Reply KeptnScheduledExec) (w : World E)
        → ((exec' : KeptnScheduledExec) → r ≡ value exec' → exec'.started ≡ true)
        → creates (with_object E req r w).1 ≡ creates w
    unfolding with_object perform
    creates-found (error (not_found m)) w h = refl
    creates-found (error (failed m)) w h = refl
    creates-found (value exec') w h = ground (arith, h exec' refl)

    -- On an API server that stores scheduled executions as documented, a run for a stored
    -- object that has been started creates nothing.
    pub started_creates_nothing :
        (w : World E)
        → S.stored w.state req ≡ some exec
        → exec.started ≡ true
        → creates (reconcile E req w).1 ≡ creates w
    unfolding reconcile perform
    started_creates_nothing w here started = creates-found _ _ (λ exec' e.
        let same : exec' ≡ exec = read_is_stored S w.state req exec exec' here e in
        ap (λ (x : KeptnScheduledExec). x.started) same ∙ started)
