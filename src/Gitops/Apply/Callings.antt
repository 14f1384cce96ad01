-- ===== src/Gitops/Apply/Callings.antt =====
-- A run of checkCreate consists of calls.
use keptn_gitops_operator.Base.{
  String, refl, Option, none, some, List, GoError, not_found, failed, Reply, value, error, ◌==◌,
  GoMap,
}
use keptn_gitops_operator.Api.{KeptnGitRepository}
use keptn_gitops_operator.Cluster.{Env}
use keptn_gitops_operator.Cluster.Within.{
  Calling, Within-pure, Within-panic, Within-bind, Within-call, Within-if,
}
use keptn_gitops_operator.Gitops.Parts.{Part, Resource, is_owned}
use keptn_gitops_operator.Gitops.Apply.{
  reconcile, compare_hashes, write, report_update, create_or_reconcile, look_up, with_owner,
  check_create, noted,
}

module _ (E : Env) (p : Part) (repo : KeptnGitRepository) where
  Calling-report_update : (x : Resource p) (r : Option GoError) → Calling E (report_update E p x r)
  unfolding report_update
  Calling-report_update x (some e) = Within-pure E _ _
  Calling-report_update x none = Within-call E _ _ _ refl λ r. Within-pure E _ _

  Calling-write : (x o : Resource p) (a : GoMap) → Calling E (write E p x o a)
  unfolding write
  Calling-write x o none = Within-panic E _ _ _
  Calling-write x o (some a) = Within-call E _ _ _ refl (Calling-report_update x)

  Calling-compare_hashes :
      (x : Resource p) (r : Reply (Resource p)) → Calling E (compare_hashes E p x r)
  unfolding compare_hashes
  Calling-compare_hashes x (error e) = Within-pure E _ _
  Calling-compare_hashes x (value o) =
      Within-if E _ (noted p x == noted p o) _ _ (Within-pure E _ _) (Calling-write x o _)

  Calling-reconcile : (x : Resource p) → Calling E (reconcile E p repo x)
  unfolding reconcile
  Calling-reconcile x = Within-call E _ _ _ refl (Calling-compare_hashes x)

  pub Calling-create_or_reconcile :
      (x : Resource p) (r : Reply (Resource p)) → Calling E (create_or_reconcile E p repo x r)
  unfolding create_or_reconcile
  Calling-create_or_reconcile x (error (not_found m)) =
      Within-call E _ _ _ refl λ r. Within-pure E _ _
  Calling-create_or_reconcile x (error (failed m)) = Within-pure E _ _
  Calling-create_or_reconcile x (value o) =
      Within-bind E _ _ _ (Calling-reconcile x) λ r. Within-pure E _ _

  Calling-look_up : (x : Resource p) → Calling E (look_up E p repo x)
  unfolding look_up
  Calling-look_up x = Within-call E _ _ _ refl (Calling-create_or_reconcile x)

  Calling-with_owner :
      (x : Resource p) (r : Reply (List String)) → Calling E (with_owner E p repo x r)
  unfolding with_owner
  Calling-with_owner x (error e) = Within-pure E _ _
  Calling-with_owner x (value owners) = Calling-look_up _

  pub Calling-check_create : (x : Resource p) → Calling E (check_create E p repo x)
  unfolding check_create
  Calling-check_create x =
      Within-if E _ (is_owned p) _ _ (Within-call E _ _ _ refl (Calling-with_owner _))
        (Calling-look_up _)
