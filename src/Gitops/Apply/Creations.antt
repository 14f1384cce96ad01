-- ===== src/Gitops/Apply/Creations.antt =====
-- What a run of checkCreate creates, by its outcome.
use keptn_gitops_operator.Gitops.Apply.{key_in}
use keptn_gitops_operator.Base.{
  suc, String, ◌≡◌, refl, Bool, true, false, Option, none, some, List, ◌∷◌, arith, GoError,
  not_found, failed, Reply, value, error, Outcome, returned, ended, if◌then◌else◌,
}
use keptn_gitops_operator.Api.{KeptnGitRepository}
use keptn_gitops_operator.Cluster.{
  meta_of, get_object, create, set_controller_reference, Env, did, World, pure, continue, perform,
  ◌>>=◌,
}
use keptn_gitops_operator.Cluster.Written.{object_steps, creates, statuses}
use keptn_gitops_operator.Gitops.Parts.{Part, kind_of, Resource, is_owned}
use keptn_gitops_operator.Gitops.Apply.{
  reconcile, compare_hashes, write, report_update, create_or_reconcile, look_up, with_owner,
  was_created, not_created, check_create, annotated,
}

module _ (E : Env) where
  -- After a check of one manifest, by its outcome: whether an object was created.
  abbrev pub Created : World E → Outcome (Reply Bool) → World E → Type 0
  Created w (returned (value true)) w' = creates w' ≡ suc (creates w)
  Created w (returned (value false)) w' = creates w' ≡ creates w
  Created w (returned (error e)) w' = creates w' ≡ creates w
  Created w (ended m) w' = creates w' ≡ creates w

  abbrev pub IsCheck : World E → Outcome (Reply Bool) × World E → Type 0
  IsCheck w r = (statuses r.1 ≡ statuses w) × Created w r.0 r.1

  module _ (p : Part) where
    written-reconcile :
        (repo : KeptnGitRepository) (x : Resource p) (w : World E)
        → (creates (reconcile E p repo x w).1 ≡ creates w)
          × (statuses (reconcile E p repo x w).1 ≡ statuses w)
    unfolding reconcile compare_hashes write report_update perform object_steps
    written-reconcile repo x w = (ground arith, ground arith)

    IsCheck-create_or_reconcile :
        (repo : KeptnGitRepository) (x : Resource p) (r : Reply (Resource p)) (w : World E)
        → IsCheck w (create_or_reconcile E p repo x r w)
    unfolding create_or_reconcile perform object_steps
    IsCheck-create_or_reconcile repo x (error (failed m)) w = (refl, omega arith)
    IsCheck-create_or_reconcile repo x (error (not_found m)) w = go _
      where
        go :
            (o : Option GoError)
            → IsCheck w (
              returned (was_created E o),
              record {
                state = (E.respond (create (kind_of p) x) w.state).1;
                trace = did (create (kind_of p) x) o ∷ w.trace;
              },
            )
        go none = (refl, refl)
        go (some e) = (refl, omega arith)
    IsCheck-create_or_reconcile repo x (value o) w =
        go (reconcile E p repo x w).0 (reconcile E p repo x w).1 (written-reconcile repo x w)
      where
        go :
            (o : Outcome (Option GoError)) (w1 : World E)
            → (creates w1 ≡ creates w) × (statuses w1 ≡ statuses w)
            → IsCheck w (continue o (λ bad. pure (not_created E bad)) w1)
        go (returned none) w1 (c, s) = (s, c)
        go (returned (some e)) w1 (c, s) = (s, omega (arith, c))
        go (ended m) w1 (c, s) = (s, c)

    IsCheck-look_up :
        (repo : KeptnGitRepository) (x : Resource p) (w : World E)
        → IsCheck w (look_up E p repo x w)
    unfolding look_up perform object_steps
    IsCheck-look_up repo x w =
        IsCheck-create_or_reconcile repo x
          (E.respond (get_object (kind_of p) (key_in p repo x)) w.state).0
          (perform (get_object (kind_of p) (key_in p repo x)) w).1

    IsCheck-with_owner :
        (repo : KeptnGitRepository) (x : Resource p) (r : Reply (List String)) (w : World E)
        → IsCheck w (with_owner E p repo x r w)
    unfolding with_owner
    IsCheck-with_owner repo x (error e) w = (refl, omega arith)
    IsCheck-with_owner repo x (value owners) w = IsCheck-look_up repo _ w

    IsCheck-owned :
        (b : Bool) (repo : KeptnGitRepository) (x : Resource p) (w : World E)
        → IsCheck w (
            (if b
                then (perform (set_controller_reference repo.meta.name (meta_of (kind_of p) x))
                    >>= with_owner E p repo x)
                else look_up E p repo x)
              w)
    unfolding perform object_steps
    IsCheck-owned true repo x w =
        let c = set_controller_reference repo.meta.name (meta_of (kind_of p) x) in
        IsCheck-with_owner repo x (E.respond c w.state).0 (perform c w).1
    IsCheck-owned false repo x w = IsCheck-look_up repo x w

    -- A run of checkCreate writes no status, and creates an object exactly where it says so.
    pub IsCheck-check_create :
        (repo : KeptnGitRepository) (x : Resource p) (w : World E)
        → IsCheck w (check_create E p repo x w)
    unfolding check_create
    IsCheck-check_create repo x w = IsCheck-owned (is_owned p) repo (annotated E p repo x) w
