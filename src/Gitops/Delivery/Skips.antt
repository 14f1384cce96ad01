-- ===== src/Gitops/Delivery/Skips.antt =====
-- A version that has its tag is not delivered again.
use keptn_gitops_operator.Base.{
  String, ◌≡◌, refl, ap, ◌∙◌, Bool, true, false, Option, none, some, List, [], ◌∷◌, GoError, value,
  Outcome, returned, if◌then◌else◌,
}
use keptn_gitops_operator.Cluster.{
  tag_objects, visit_order, DirectoryData, Env, Step, did, World, Exec, continue, perform,
}
use keptn_gitops_operator.Gitops.Files.{Services}
use keptn_gitops_operator.Gitops.Git.{GoGitClient, tag_exists, tag_found}
use keptn_gitops_operator.Gitops.Git.Tags.{HasTag, tag_exists-HasTag, trace-tag_exists}
use keptn_gitops_operator.Gitops.Delivery.{
  compose_service, compose_each, compose_data, tag_of, compose_or_skip,
}

-- The calls that look at the tags and at the map of services.
abbrev pub is_look_up : Step → Bool
is_look_up (did (tag_objects dir) _) = true
is_look_up (did (visit_order services) _) = true
is_look_up _ = false

-- The calls of a trace that do anything else.
abbrev pub other_steps : List Step → List Step
other_steps [] = []
other_steps (step ∷ steps) = if is_look_up step then other_steps steps else step ∷ other_steps steps

module _ (E : Env) (gc : GoGitClient) where
  -- The upstream repository has a tag in every state.
  abbrev pub IsTagged : String → Type 0
  IsTagged tag =
      (s : E.State)
      → (tags : List String) × ((ended : Option GoError) × (((E.respond (tag_objects gc.repo) s).0
              ≡ value (tags, ended))
            × HasTag tag tags))

  -- Each service has its tag and does not overwrite it.
  abbrev pub AreDelivered : Services → Type 0
  AreDelivered [] = Unit
  AreDelivered ((service, metadata) ∷ services) =
      (metadata.overwrite_tag ≡ false)
      × (IsTagged (tag_of service metadata) × AreDelivered services)

  tag_exists-IsTagged :
      (tag : String) (w : World E)
      → IsTagged tag
      → (tag_exists E gc tag w).0 ≡ returned (some tag_found)
  tag_exists-IsTagged tag w h =
      let (tags, (ended, (e, there))) = h w.state in tag_exists-HasTag E gc tag tags ended w e there

  other_steps-tag_exists :
      (tag : String) (w : World E)
      → other_steps (tag_exists E gc tag w).1.trace ≡ other_steps w.trace
  unfolding perform
  other_steps-tag_exists tag w = rw (trace-tag_exists E gc tag w) refl

  module _ (d : String) (stages : List DirectoryData) where
    skip-continue :
        (service next : Bool → Exec E (Option GoError)) (overwrite flag : Bool)
        (o : Outcome (Option GoError)) (w : World E)
        → overwrite ≡ false
        → o ≡ returned (some tag_found)
        → continue o (compose_or_skip E service next overwrite flag) w ≡ next flag w
    skip-continue service next overwrite flag o w h e = rw (e, h) refl

    skip-compose_each :
        (l : Services) (flag : Bool) (w : World E)
        → AreDelivered l
        → ((compose_each E gc d stages l flag w).0 ≡ returned none)
          × (other_steps (compose_each E gc d stages l flag w).1.trace ≡ other_steps w.trace)
    unfolding compose_each
    skip-compose_each [] flag w h = (refl, refl)
    skip-compose_each ((service, metadata) ∷ l) flag w (keep, (tagged, rest)) =
        let tag = tag_of service metadata in
        let w1 = (tag_exists E gc tag w).1 in
        let skipped =
          skip-continue (λ b. compose_service E gc d stages b service metadata)
            (compose_each E gc d stages l) metadata.overwrite_tag flag _ w1 keep
            (tag_exists-IsTagged tag w tagged) in
        let (o, same) = skip-compose_each l flag w1 rest in
        (
          ap (λ x. x.0) skipped ∙ o,
          ap (λ x. other_steps x.1.trace) skipped ∙ (same ∙ other_steps-tag_exists tag w),
        )

    -- Where the upstream repository has the tag of every service's version, in whatever
    -- state, and no service's metadata says to overwrite it, composeData returns no error
    -- and makes no call but those that list the tags and visit the services.
    pub delivered_once :
        (services : Services) (w : World E)
        → AreDelivered (E.respond (visit_order services) w.state).0
        → ((compose_data E gc d services stages w).0 ≡ returned none)
          × (other_steps (compose_data E gc d services stages w).1.trace ≡ other_steps w.trace)
    unfolding compose_data perform
    delivered_once services w h =
        skip-compose_each (E.respond (visit_order services) w.state).0 false
          (perform (visit_order services) w).1 h
