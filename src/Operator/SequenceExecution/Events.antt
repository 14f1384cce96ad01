-- ===== src/Operator/SequenceExecution/Events.antt =====
-- The event that is posted.
use keptn_gitops_operator.Base.{
  ap, sym, ◌∙◌, ◌<>◌, ◌≡◌, refl, ◌≢◌, inl, inr, ◌==◌, eq_iff, Bool-cases, index,
}
use keptn_gitops_operator.Api.{KeptnSequenceExecutionSpec}
use keptn_gitops_operator.Operator.SequenceExecution.{image_version, trigger_event}

-- With a version given, the image ends in another label.
image-trigger_event :
    (spec : KeptnSequenceExecutionSpec)
    → index spec.labels "version" ≢ ""
    → (trigger_event spec).image ≡ spec.service <> (":" <> index spec.labels "undefined")
unfolding trigger_event image_version
image-trigger_event spec given = elim (Bool-cases (index spec.labels "version" == "")) [
  | inl empty ↦ absurd (given ((eq_iff (index spec.labels "version") "").0 empty))
  | inr other ↦ rw other refl
]

-- Two specs with the same service and the same label "undefined", each with a label "version"
-- that is not empty, trigger events with the same image, whatever the two versions are.
pub version_is_lost :
    (a b : KeptnSequenceExecutionSpec)
    → a.service ≡ b.service
    → index a.labels "undefined" ≡ index b.labels "undefined"
    → index a.labels "version" ≢ ""
    → index b.labels "version" ≢ ""
    → (trigger_event a).image ≡ (trigger_event b).image
version_is_lost a b service label given_a given_b =
    image-trigger_event a given_a
    ∙ (ap (λ s. s <> (":" <> index a.labels "undefined")) service
        ∙ (ap (λ l. b.service <> (":" <> l)) label ∙ sym (image-trigger_event b given_b)))
