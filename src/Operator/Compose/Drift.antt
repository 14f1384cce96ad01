-- ===== src/Operator/Compose/Drift.antt =====
-- The hash that is recorded and the hash that is compared are of different structs.
use keptn_gitops_operator.Base.{◌+◌, String, ◌≡◌, ◌≢◌, arith, eq_iff, value}
use keptn_gitops_operator.Api.{KeptnShipyard}
use keptn_gitops_operator.Cluster.{
  keptn_shipyard, of_shipyard, of_shipyard_spec, get_object, Env, World, perform,
}
use keptn_gitops_operator.Operator.Utils.{key_of}
use keptn_gitops_operator.Cluster.Trace.{count, is_update}
use keptn_gitops_operator.Operator.Compose.{refreshed, update_shipyard}

module _ (E : Env) where
  -- Where a shipyard and its spec have different hashes and the shipyard object can be read,
  -- UpdateShipyard with the hash that it recorded before updates the object once more.
  pub update_shipyard_again :
      (shipyard old current : KeptnShipyard) (ns : String) (w : World E)
      → E.hash (of_shipyard shipyard.spec.shipyard) ≢ E.hash (of_shipyard_spec shipyard.spec)
      → (E.respond (get_object keptn_shipyard (key_of ns shipyard.meta.name)) w.state).0
        ≡ value current
      → count is_update
          (update_shipyard E shipyard
            (refreshed E shipyard old).status.last_applied_hash
            ns
            w).1.trace
        ≡ count is_update w.trace + 1
  unfolding update_shipyard perform refreshed
  update_shipyard_again shipyard old current ns w apart found = ground (
    arith,
    eq_iff (E.hash (of_shipyard shipyard.spec.shipyard)) (E.hash (of_shipyard_spec shipyard.spec)),
  )
