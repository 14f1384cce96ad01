-- ===== src/Gitops/Apply/Settles.antt =====
-- What is applied is stored with the hash of its spec: one round of the functions for a kind.
use keptn_gitops_operator.Base.{
  String, ◌≡◌, refl, sym, ap, ◌∙◌, ◌⊎◌, inl, inr, Bool, true, false, Option, none, some, List,
  arith, ◌==◌, eq_iff, GoError, not_found, failed, Reply, value, error, Outcome, returned, ended,
  Bool-cases, lookup-insert, GoMap, index,
}
use keptn_gitops_operator.Api.{NamespacedName, KeptnGitRepository}
use keptn_gitops_operator.Cluster.{
  meta_of, Call, get_object, create, update, record_event, Env, World, pure, continue, perform,
}
use keptn_gitops_operator.Cluster.Trace.{writes, key_of_object}
use keptn_gitops_operator.Gitops.Parts.{
  Part, kind_of, Resource, hashed, meta_of-with_meta, meta_of-with_spec,
}
use keptn_gitops_operator.Gitops.Apply.{
  create_or_reconcile, reconcile, look_up, not_created, key_in, hash_key, noted, renewed,
  report_update, write, compare_hashes,
}
use keptn_gitops_operator.Gitops.Apply.Store.{KeepsAnnotations, IsApplied}

module _ (E : Env) (p : Part) (S : KeepsAnnotations E (kind_of p)) (key : NamespacedName)
    (hash : String) where
  noted-renewed :
      (x obj : Resource p) (annotations : List (String × String))
      → noted p (renewed E p x obj annotations) ≡ E.hash (hashed p x)
  unfolding renewed
  noted-renewed x obj annotations = rw (meta_of-with_spec, meta_of-with_meta, lookup-insert) refl

  key-renewed :
      (x obj : Resource p) (annotations : List (String × String))
      → key_of_object (kind_of p) (renewed E p x obj annotations) ≡ key_of_object (kind_of p) obj
  unfolding renewed
  key-renewed x obj annotations = rw (meta_of-with_spec, meta_of-with_meta) refl

  IsApplied-updated :
      (o : Resource p) (s : E.State)
      → noted p o ≡ hash
      → key_of_object (kind_of p) o ≡ key
      → (E.respond (update (kind_of p) o) s).0 ≡ none
      → IsApplied E p S key hash (E.respond (update (kind_of p) o) s).1
  IsApplied-updated o s marked named saved =
      let (o', (here, kept)) = S.updates s o saved in
      (o', (ground (arith, here, named), ap (λ a. index a hash_key) kept ∙ marked))

  IsApplied-created :
      (o : Resource p) (s : E.State)
      → noted p o ≡ hash
      → key_of_object (kind_of p) o ≡ key
      → (E.respond (create (kind_of p) o) s).0 ≡ none
      → IsApplied E p S key hash (E.respond (create (kind_of p) o) s).1
  IsApplied-created o s marked named saved =
      let (o', (here, kept)) = S.creates s o saved in
      (o', (ground (arith, here, named), ap (λ a. index a hash_key) kept ∙ marked))

  -- A call that writes no object of the kind keeps it applied.
  pub IsApplied-kept :
      (c : Call) (s : E.State)
      → writes (kind_of p) c ≡ false
      → IsApplied E p S key hash s
      → IsApplied E p S key hash (E.respond c s).1
  IsApplied-kept c s quiet (o, (here, marked)) = (o, (S.keeps s key c quiet ∙ here, marked))

  IsApplied-report_update :
      (x : Resource p) (r : Option GoError) (w : World E)
      → (r ≡ none → IsApplied E p S key hash w.state)
      → (report_update E p x r w).0 ≡ returned none
      → IsApplied E p S key hash (report_update E p x r w).1.state
  unfolding report_update perform
  IsApplied-report_update x (some e) w t ok = absurd (ground arith)
  IsApplied-report_update x none w t ok = IsApplied-kept (record_event _ _ _) w.state refl (t refl)

  IsApplied-write :
      (x obj : Resource p) (a : GoMap) (w : World E)
      → E.hash (hashed p x) ≡ hash
      → key_of_object (kind_of p) obj ≡ key
      → (write E p x obj a w).0 ≡ returned none
      → IsApplied E p S key hash (write E p x obj a w).1.state
  unfolding write perform
  IsApplied-write x obj none w same named ok = absurd (ground arith)
  IsApplied-write x obj (some l) w same named ok =
      let o = renewed E p x obj l in
      IsApplied-report_update x (E.respond (update (kind_of p) o) w.state).0 _
        (IsApplied-updated o w.state (noted-renewed x obj l ∙ same) (key-renewed x obj l ∙ named))
        ok

  IsApplied-compare_hashes :
      (x : Resource p) (r : Reply (Resource p)) (w : World E)
      → E.hash (hashed p x) ≡ hash
      → noted p x ≡ hash
      → ((o : Resource p)
          → r ≡ value o
          → (S.stored w.state key ≡ some o) × (key_of_object (kind_of p) o ≡ key))
      → (compare_hashes E p x r w).0 ≡ returned none
      → IsApplied E p S key hash (compare_hashes E p x r w).1.state
  unfolding compare_hashes
  IsApplied-compare_hashes x (error e) w same marked found ok = absurd (ground arith)
  IsApplied-compare_hashes x (value o) w same marked found ok =
      go (Bool-cases (noted p x == noted p o)) ok
    where
      go :
          ((noted p x == noted p o) ≡ true) ⊎ ((noted p x == noted p o) ≡ false)
          → (compare_hashes E p x (value o) w).0 ≡ returned none
          → IsApplied E p S key hash (compare_hashes E p x (value o) w).1.state
      go (inl e) ok =
          rw (compare_hashes, e)
            (o, ((found o refl).0, sym ((eq_iff (noted p x) (noted p o)).0 e) ∙ marked))
      go (inr e) ok =
          rw (compare_hashes, e)
            (IsApplied-write x o (meta_of (kind_of p) o).annotations w same (found o refl).1
              (rw (compare_hashes, e) at ok))

  module _ (repo : KeptnGitRepository) (x : Resource p) (same : E.hash (hashed p x) ≡ hash)
      (marked : noted p x ≡ hash) (named : key_of_object (kind_of p) x ≡ key)
      (at_key : key_in p repo x ≡ key) where
    IsApplied-reconcile :
        (w : World E)
        → (reconcile E p repo x w).0 ≡ returned none
        → IsApplied E p S key hash (reconcile E p repo x w).1.state
    unfolding reconcile perform
    IsApplied-reconcile w ok =
        let c = get_object (kind_of p) (key_in p repo x) in
        IsApplied-compare_hashes x (E.respond c w.state).0 (perform c w).1 same marked
          (λ o e. (
            S.keeps w.state key c refl
                ∙ (ap (S.stored w.state) (sym at_key) ∙ (S.reads w.state (key_in p repo x) o e).0),
            (S.reads w.state (key_in p repo x) o e).1 ∙ at_key,
          ))
          ok

    IsApplied-create_or_reconcile :
        (r : Reply (Resource p)) (b : Bool) (w : World E)
        → (create_or_reconcile E p repo x r w).0 ≡ returned (value b)
        → IsApplied E p S key hash (create_or_reconcile E p repo x r w).1.state
    unfolding create_or_reconcile perform
    IsApplied-create_or_reconcile (error (not_found m)) b w ok =
        IsApplied-created x w.state marked named (ground arith)
    IsApplied-create_or_reconcile (error (failed m)) b w ok = absurd (ground arith)
    IsApplied-create_or_reconcile (value o) b w ok =
        go (reconcile E p repo x w).0 (reconcile E p repo x w).1 (IsApplied-reconcile w) ok
      where
        go :
            (o : Outcome (Option GoError)) (w1 : World E)
            → (o ≡ returned none → IsApplied E p S key hash w1.state)
            → (continue o (λ bad. pure (not_created E bad)) w1).0 ≡ returned (value b)
            → IsApplied E p S key hash (continue o (λ bad. pure (not_created E bad)) w1).1.state
        go (ended m) w1 t ok = absurd (ground arith)
        go (returned (some e)) w1 t ok = absurd (ground arith)
        go (returned none) w1 t ok = t refl

    pub IsApplied-look_up :
        (b : Bool) (w : World E)
        → (look_up E p repo x w).0 ≡ returned (value b)
        → IsApplied E p S key hash (look_up E p repo x w).1.state
    unfolding look_up perform
    IsApplied-look_up b w ok = IsApplied-create_or_reconcile _ b _ ok
