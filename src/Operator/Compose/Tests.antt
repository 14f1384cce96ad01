-- ===== src/Operator/Compose/Tests.antt =====
-- A stage with one sequence, and the shipyard of the small cluster.
use keptn_gitops_operator.Base.{String, ◌↔◌, ◌≡◌, ◌≢◌, refl, ◌∷◌, [], value, arith, eq_iff, List}
use keptn_gitops_operator.Api.{KeptnStage, KeptnSequence, Stage, Sequence}
use keptn_gitops_operator.Cluster.Trace.{count, is_update}
use keptn_gitops_operator.Cluster.Sample.{sample_env, sample_world, meta, the_shipyard}
use keptn_gitops_operator.Operator.Compose.{compose_keptn_stage, update_shipyard, refreshed}
use keptn_gitops_operator.Operator.Compose.Resolution.{Resolves, compose_keptn_stage_iff}
use keptn_gitops_operator.Operator.Compose.Drift.{update_shipyard_again}

abbrev delivery : Sequence
delivery = record { name = "delivery"; triggered_on = []; tasks = [] }

abbrev available : List KeptnSequence
available = record { meta = meta "delivery"; sequence = delivery } ∷ []

abbrev stage : KeptnStage
stage = record {
  meta = meta "dev";
  spec = record {
    project = "podtato";
    sequence = record { ref_type = ""; sequence_ref = "delivery" } ∷ [];
  };
}

abbrev composed_stage : Stage
composed_stage = record { name = "dev"; sequences = delivery ∷ [] }

compose_keptn_stage_iff_example :
    (compose_keptn_stage stage available ≡ value composed_stage)
    ↔ ((composed_stage.name ≡ "dev") × Resolves available stage.spec.sequence (delivery ∷ []))
compose_keptn_stage_iff_example = compose_keptn_stage_iff stage available composed_stage

hashes_apart : ◌≢◌ {A = String} "h1" "h2"
hashes_apart e = ground (arith, (eq_iff "h1" "h2").1 e)

update_shipyard_again_example :
    count is_update
      (update_shipyard sample_env the_shipyard
        (refreshed sample_env the_shipyard the_shipyard).status.last_applied_hash
        "keptn"
        sample_world).1.trace
    ≡ 1
update_shipyard_again_example =
    update_shipyard_again sample_env the_shipyard the_shipyard the_shipyard "keptn" sample_world
      hashes_apart refl
