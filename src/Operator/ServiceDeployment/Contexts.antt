-- ===== src/Operator/ServiceDeployment/Contexts.antt =====
-- The hashes that a deployment context keeps, one for each stage.
use keptn_gitops_operator.Base.{
  String, ◌≡◌, refl, ◌≢◌, false, arith, ◌==◌, eq_iff, eq_refl, if◌then◌else◌, lookup, lookup-insert,
  index,
}
use keptn_gitops_operator.Api.{KeptnServiceDeployment, KeptnDeploymentContext}
use keptn_gitops_operator.Cluster.{of_service_deployment, Env}
use keptn_gitops_operator.Operator.ServiceDeployment.{is_due, applied, applied_context}

module _ (E : Env) (ksd : KeptnServiceDeployment) (c : String)
    (context : KeptnDeploymentContext) where
  -- Once its hash has been recorded in the object and in the deployment context, a service
  -- deployment is not due.
  pub applied-settles : is_due E (applied E ksd c) (applied_context E ksd c context) ≡ false
  unfolding is_due applied applied_context
  applied-settles = rw (lookup-insert, eq_refl) (rw eq_refl refl)

  index-applied_context :
      (stage : String)
      → index (applied_context E ksd c context).status.last_applied_hash stage ≡ (
          if ksd.spec.stage == stage
          then E.hash (of_service_deployment ksd.spec)
          else index context.status.last_applied_hash stage)
  unfolding applied_context
  index-applied_context stage = rw lookup-insert (unfold lookup in ground arith)

  -- What is recorded in a deployment context for one stage does not change whether the
  -- deployment to another stage is due.
  pub applied_elsewhere :
      (other : KeptnServiceDeployment)
      → ksd.spec.stage ≢ other.spec.stage
      → is_due E other (applied_context E ksd c context) ≡ is_due E other context
  unfolding is_due
  applied_elsewhere other apart =
      rw (index-applied_context other.spec.stage)
        (ground (arith, eq_iff ksd.spec.stage other.spec.stage))
