-- ===== src/Operator/ServiceDeployment/Labels.antt =====
-- The labels of the deployment event.
use keptn_gitops_operator.Base.{
  String, ◌≡◌, refl, ◌≢◌, Option, none, some, List, [], ◌∷◌, arith, ◌==◌, eq_iff, if◌then◌else◌,
  lookup, insert, lookup-insert,
}
use keptn_gitops_operator.Api.{KeptnServiceDeploymentSpec}
use keptn_gitops_operator.Operator.ServiceDeployment.{insert_all, event_labels, or_zero, pairs_of}

-- Go's maps have each key once.
abbrev pub HasKey : String → List (String × String) → Type 0
HasKey k m = lookup k m ≢ none

abbrev pub DistinctKeys : List (String × String) → Type 0
DistinctKeys [] = Unit
DistinctKeys ((k, v) ∷ m) = (lookup k m ≡ none) × DistinctKeys m

abbrev first_of_both : Option String → Option String → Option String
first_of_both none o = o
first_of_both (some v) o = some v

lookup-insert_all :
    (k : String) (more labels : List (String × String))
    → DistinctKeys more
    → lookup k (insert_all more labels) ≡ first_of_both (lookup k more) (lookup k labels)
unfolding insert_all
lookup-insert_all k [] labels d = unfold lookup in refl
lookup-insert_all k ((j, v) ∷ more) labels (fresh, d) =
    rw (lookup-insert_all k more (insert j v labels) d, lookup-insert)
      (unfold lookup in ground (arith, eq_iff j k, fresh))

-- Where the spec's labels have each key once, a label of the event is the spec's label of that
-- key; else, for the keys "version" and "configVersion", the spec's versions; else there is
-- none.
pub lookup-event_labels :
    (spec : KeptnServiceDeploymentSpec) (k : String)
    → DistinctKeys (pairs_of spec.labels)
    → lookup k (event_labels spec)
      ≡ first_of_both (lookup k (pairs_of spec.labels)) (
          if k == "version"
          then some spec.version
          else if k == "configVersion"
          then some (or_zero spec.config_version)
          else none)
unfolding event_labels
lookup-event_labels spec k d = rw (lookup-insert_all k (pairs_of spec.labels) _ d) (
    unfold lookup in
    ground (
      arith,
      eq_iff "version" k,
      eq_iff "configVersion" k,
      eq_iff k "version",
      eq_iff k "configVersion",
    ))
