-- ===== src/Operator/Compose.antt =====
-- keptn-operator/pkg/utils/shipyard.go: a project's shipyard is composed of its KeptnStages and the
-- KeptnSequences that they refer to, and kept in a KeptnShipyard.
mod Tests
pub mod Resolution
pub mod Drift
use keptn_gitops_operator.Base.{
  String, ◌<>◌, Bool, true, false, Option, none, some, List, [], ◌∷◌, ◌==◌, GoError, failed,
  error_text, Reply, value, error, if◌then◌else◌,
}
use keptn_gitops_operator.Api.{
  no_meta, KeptnSequenceRefSpec, KeptnStage, Sequence, KeptnSequence, Stage, Shipyard,
  KeptnShipyard,
}
use keptn_gitops_operator.Cluster.{
  ◌>>=◌, ◌>>◌, keptn_stage, keptn_sequence, keptn_shipyard, of_shipyard, of_shipyard_spec,
  get_object, list_objects, update, Env, Exec, pure, perform,
}
use keptn_gitops_operator.Operator.Utils.{key_of}

-- The inner loop: the first available sequence of that name.
unfoldable pub find_sequence : List KeptnSequence → String → Option Sequence
find_sequence [] name = none
find_sequence (available ∷ items) name =
    let rest = find_sequence items name in
    if available.meta.name == name then some available.sequence else rest

unfoldable pub compose_sequences :
    List KeptnSequenceRefSpec → List KeptnSequence → Reply (List Sequence)
compose_sequences [] items = value []
compose_sequences (seq ∷ refs) items =
    let rest = compose_sequences refs items in
    elim (find_sequence items seq.sequence_ref) [
      | none ↦ error (failed "could not find sequence")
      | some sequence_ ↦ elim rest [
        | error err ↦ error err
        | value sequences ↦ value (sequence_ ∷ sequences)
      ]
    ]

unfoldable pub compose_keptn_stage : KeptnStage → List KeptnSequence → Reply Stage
unfolding compose_sequences find_sequence
compose_keptn_stage stage items = elim (compose_sequences stage.spec.sequence items) [
  | error err ↦ error err
  | value sequences ↦ value (record { name = stage.meta.name; sequences = sequences })
]

-- The loop of composeShipyard over the stages.
unfoldable pub compose_stages : List KeptnStage → List KeptnSequence → Reply (List Stage)
compose_stages [] items = value []
compose_stages (stg ∷ stages) items =
    let rest = compose_stages stages items in
    elim (compose_keptn_stage stg items) [
      | error err ↦ error err
      | value stage ↦ elim rest [
        | error err ↦ error err
        | value composed ↦ value (stage ∷ composed)
      ]
    ]

-- The loop of getKeptnStages.
unfoldable pub stages_of : String → List KeptnStage → List KeptnStage
stages_of project [] = []
stages_of project (stage ∷ items) =
    let rest = stages_of project items in
    if stage.spec.project == project then stage ∷ rest else rest

abbrev pub shipyard_of : List Stage → Shipyard
shipyard_of stages = record {
  api_version = "spec.keptn.sh/0.2.2";
  kind = "KeptnShipyard";
  metadata = "";
  stages = stages;
}

module _ (E : Env) where
  get_keptn_stages : String → Exec E (Reply (List KeptnStage))
  get_keptn_stages project = do
    items ← perform (list_objects keptn_stage none)
    pure (elim items [
      | error err ↦ error (failed ("could not get stages for project: " <> error_text err))
      | value l ↦ value (stages_of project l)
    ])

  get_keptn_sequence : Exec E (Reply (List KeptnSequence))
  get_keptn_sequence = do
    items ← perform (list_objects keptn_sequence none)
    pure (elim items [
      | error err ↦ error (failed ("could not get sequences for project: " <> error_text err))
      | value l ↦ value l
    ])

  abbrev composed : List KeptnStage → Reply (List KeptnSequence) → Reply Shipyard
  composed stages (error err) = error err
  composed stages (value sequences) = elim (compose_stages stages sequences) [
    | error err ↦ error err
    | value l ↦ value (shipyard_of l)
  ]

  compose_shipyard : String → Exec E (Reply Shipyard)
  unfolding get_keptn_stages get_keptn_sequence
  compose_shipyard project = do
    stages ← get_keptn_stages project
    elim stages [
      | error err ↦ pure (error err)
      | value l ↦ do sequences ← get_keptn_sequence; pure (composed l sequences)
    ]

  abbrev new_shipyard : String → Shipyard → KeptnShipyard
  new_shipyard project shipyard = record {
    meta = record no_meta { name = project };
    spec = record { project = project; shipyard = shipyard };
    status = record { project_exists = false; last_applied_hash = ""; last_uploaded_hash = "" };
  }

  unfoldable pub create_shipyard : String → Exec E (Reply KeptnShipyard)
  unfolding compose_shipyard
  create_shipyard project = do
    shipyard ← compose_shipyard project
    pure (elim shipyard [ error err ↦ error err | value s ↦ value (new_shipyard project s) ])

  -- The shipyard object of the cluster with its new spec, and the hash of that spec.
  unfoldable pub refreshed : KeptnShipyard → KeptnShipyard → KeptnShipyard
  refreshed shipyard current = record current {
    spec = shipyard.spec;
    status = record current.status { last_applied_hash = E.hash (of_shipyard_spec shipyard.spec) };
  }

  write_shipyard : KeptnShipyard → Reply KeptnShipyard → Exec E (Option GoError)
  unfolding refreshed
  write_shipyard shipyard (error err) =
      pure (some (failed ("could not get shipyard: " <> error_text err)))
  write_shipyard shipyard (value current) = do
    bad ← perform (update keptn_shipyard (refreshed shipyard current))
    pure (elim bad [
      | none ↦ none
      | some err ↦ some (failed ("could not update status of shipyard: " <> error_text err))
    ])

  -- The hash of the shipyard is compared with `shipyard_hash`, the one of the last update.
  unfoldable pub update_shipyard : KeptnShipyard → String → String → Exec E (Option GoError)
  unfolding write_shipyard
  update_shipyard shipyard shipyard_hash namespace =
      if E.hash (of_shipyard shipyard.spec.shipyard) == shipyard_hash then pure none else do
        current ← perform (get_object keptn_shipyard (key_of namespace shipyard.meta.name))
        write_shipyard shipyard current

  unfoldable pub check_keptn_shipyard : String → String → Exec E (Bool × String)
  check_keptn_shipyard namespace project = do
    found ← perform (get_object keptn_shipyard (key_of namespace project))
    pure (elim found [
      | error _ ↦ (false, "")
      | value shipyard ↦ (true, shipyard.status.last_applied_hash)
    ])
