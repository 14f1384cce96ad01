-- ===== src/Gitops/Apply/Stored.antt =====
-- Where a run of checkCreate succeeds, the cluster has an object under the manifest's name.
use keptn_gitops_operator.Base.{
  String, ◌≡◌, refl, sym, ap, ◌∙◌, Bool, true, false, none, List, arith, not_found, failed, Reply,
  value, error, returned, if◌then◌else◌,
}
use keptn_gitops_operator.Api.{NamespacedName, KeptnGitRepository}
use keptn_gitops_operator.Cluster.{
  Kind, Object, meta_of, Call, get_object, create, set_controller_reference, Env, World, Exec,
  perform, ◌>>=◌,
}
use keptn_gitops_operator.Cluster.Trace.{key_of_object}
use keptn_gitops_operator.Cluster.Within.{Within, Calling}
use keptn_gitops_operator.Gitops.Parts.{
  Part, kind_of, Resource, is_owned, with_meta, meta_of-with_meta,
}
use keptn_gitops_operator.Gitops.Apply.{
  create_or_reconcile, look_up, with_owner, check_create, annotated, key_in,
}
use keptn_gitops_operator.Gitops.Apply.Callings.{Calling-create_or_reconcile}

-- The API server as documented, with no client that deletes objects: there is an object under a name
-- where one is found and where one has been created, none where none is found, and no call takes it
-- away.
pub record KeepsObjects (E : Env) : Type 1 where
  pub stored : E.State → Kind → NamespacedName → Bool
  pub found :
      (s : E.State) (k : Kind) (key : NamespacedName) (o : Object k)
      → (E.respond (get_object k key) s).0 ≡ value o
      → stored s k key ≡ true
  pub absent :
      (s : E.State) (k : Kind) (key : NamespacedName) (m : String)
      → (E.respond (get_object k key) s).0 ≡ error (not_found m)
      → stored s k key ≡ false
  pub created :
      (s : E.State) (k : Kind) (o : Object k)
      → (E.respond (create k o) s).0 ≡ none
      → stored (E.respond (create k o) s).1 k (key_of_object k o) ≡ true
  pub kept :
      (s : E.State) (k : Kind) (key : NamespacedName) (c : Call)
      → stored s k key ≡ true
      → stored (E.respond c s).1 k key ≡ true

module _ (E : Env) (S : KeepsObjects E) where
  pub stored-Calling :
      {A : Type 0} (m : Exec E A) (k : Kind) (key : NamespacedName) (w : World E)
      → Calling E m
      → S.stored w.state k key ≡ true
      → S.stored (m w).1.state k key ≡ true
  unfolding Within perform
  stored-Calling m k key w h =
      h (λ w. S.stored w.state k key ≡ true) (λ c w q i. S.kept w.state k key c i) w

module _ (E : Env) (p : Part) (repo : KeptnGitRepository) where
  module _ (S : KeepsObjects E) where
    -- There is an object under the manifest's name.
    abbrev pub IsStored : Resource p → World E → Type 0
    IsStored x w = S.stored w.state (kind_of p) (key_in p repo x) ≡ true

    IsStored-create_or_reconcile :
        (x : Resource p) (r : Reply (Resource p)) (w : World E) (b : Bool)
        → key_of_object (kind_of p) x ≡ key_in p repo x
        → ((o : Resource p) → r ≡ value o → IsStored x w)
        → (create_or_reconcile E p repo x r w).0 ≡ returned (value b)
        → IsStored x (create_or_reconcile E p repo x r w).1
    unfolding create_or_reconcile perform
    IsStored-create_or_reconcile x (error (not_found m)) w b named there ok =
        ap (S.stored _ (kind_of p)) (sym named) ∙ S.created w.state (kind_of p) x (ground arith)
    IsStored-create_or_reconcile x (error (failed m)) w b named there ok = absurd (ground arith)
    IsStored-create_or_reconcile x (value o) w b named there ok =
        stored-Calling E S (create_or_reconcile E p repo x (value o)) (kind_of p) (key_in p repo x)
          w (Calling-create_or_reconcile E p repo x (value o)) (there o refl)

    IsStored-look_up :
        (x : Resource p) (w : World E) (b : Bool)
        → key_of_object (kind_of p) x ≡ key_in p repo x
        → (look_up E p repo x w).0 ≡ returned (value b)
        → IsStored x (look_up E p repo x w).1
    unfolding look_up perform
    IsStored-look_up x w b named ok =
        let k = key_in p repo x in
        IsStored-create_or_reconcile x (E.respond (get_object (kind_of p) k) w.state).0
          (perform (get_object (kind_of p) k) w).1 b named
          (λ o e. S.kept w.state (kind_of p) k _ (S.found w.state (kind_of p) k o e)) ok

    IsStored-with_owner :
        (x : Resource p) (r : Reply (List String)) (w : World E) (b : Bool)
        → key_of_object (kind_of p) x ≡ key_in p repo x
        → (with_owner E p repo x r w).0 ≡ returned (value b)
        → IsStored x (with_owner E p repo x r w).1
    unfolding with_owner
    IsStored-with_owner x (error e) w b named ok = absurd (ground arith)
    IsStored-with_owner x (value owners) w b named ok =
        let m = record (meta_of (kind_of p) x) { owners = owners } in
        let same : key_in p repo (with_meta p m x) ≡ key_in p repo x = rw meta_of-with_meta refl in
        ap (S.stored _ (kind_of p)) (sym same)
        ∙ IsStored-look_up (with_meta p m x) w b (rw meta_of-with_meta named) ok

    IsStored-owned :
        (c : Bool) (x : Resource p) (w : World E) (b : Bool)
        → key_of_object (kind_of p) x ≡ key_in p repo x
        → ((if c
              then (perform (set_controller_reference repo.meta.name (meta_of (kind_of p) x))
                  >>= with_owner E p repo x)
              else look_up E p repo x)
            w).0
          ≡ returned (value b)
        → IsStored x
            ((if c
                then (perform (set_controller_reference repo.meta.name (meta_of (kind_of p) x))
                    >>= with_owner E p repo x)
                else look_up E p repo x)
              w).1
    unfolding perform
    IsStored-owned true x w b named ok = IsStored-with_owner x _ _ b named ok
    IsStored-owned false x w b named ok = IsStored-look_up x w b named ok

    -- A run of checkCreate that returns no error leaves an object under the manifest's name.
    pub IsStored-check_create :
        (x : Resource p) (w : World E) (b : Bool)
        → (check_create E p repo x w).0 ≡ returned (value b)
        → IsStored x (check_create E p repo x w).1
    unfolding check_create annotated
    IsStored-check_create x w b ok =
        let same : key_in p repo (annotated E p repo x) ≡ key_in p repo x =
          rw meta_of-with_meta refl in
        ap (S.stored _ (kind_of p)) (sym same)
        ∙ IsStored-owned (is_owned p) (annotated E p repo x) w b (rw meta_of-with_meta refl) ok
