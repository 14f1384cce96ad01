-- ===== src/Gitops/Apply/Again.antt =====
-- An object that has been applied is not written again.
use keptn_gitops_operator.Base.{
  String, ◌≡◌, refl, sym, ap, ◌∙◌, ◌⊎◌, inl, inr, Bool, true, false, some, List, arith, eq_iff,
  not_found, failed, Reply, value, error, returned, Bool-cases, lookup,
}
use keptn_gitops_operator.Api.{NamespacedName, KeptnGitRepository}
use keptn_gitops_operator.Cluster.{
  meta_of, Call, get_object, set_controller_reference, Env, World, perform,
}
use keptn_gitops_operator.Cluster.Trace.{key_of_object}
use keptn_gitops_operator.Gitops.Parts.{
  hashed-with_meta, Part, kind_of, Resource, is_owned, with_meta, hashed, meta_of-with_meta,
}
use keptn_gitops_operator.Gitops.Apply.{
  check_create, annotated, with_owner, create_or_reconcile, reconcile, look_up, key_in, noted,
  compare_hashes,
}
use keptn_gitops_operator.Gitops.Apply.Store.{KeepsAnnotations, changes, IsApplied}
use keptn_gitops_operator.Gitops.Apply.Settles.{IsApplied-kept, IsApplied-look_up}

module _ (E : Env) (p : Part) (S : KeepsAnnotations E (kind_of p)) (key : NamespacedName)
    (hash : String) where
  -- What is read of an applied object.
  noted-read :
      (s : E.State) (o : Resource p)
      → IsApplied E p S key hash s
      → (E.respond (get_object (kind_of p) key) s).0 ≡ value o
      → noted p o ≡ hash
  noted-read s o (o', (here, marked)) e =
      let same : some o ≡ some o' = sym (S.reads s key o e).0 ∙ here in
      let o-same : o ≡ o' = cc in ap (noted p) o-same ∙ marked

  changes-compare_hashes :
      (x : Resource p) (r : Reply (Resource p)) (w : World E)
      → noted p x ≡ hash
      → ((o : Resource p) → r ≡ value o → noted p o ≡ hash)
      → changes E (compare_hashes E p x r w).1 ≡ changes E w
  unfolding compare_hashes
  changes-compare_hashes x (error e) w marked found = refl
  changes-compare_hashes x (value o) w marked found =
      ground (arith, eq_iff (noted p x) (noted p o), found o refl)

  module _ (repo : KeptnGitRepository) (x : Resource p) (marked : noted p x ≡ hash)
      (at_key : key_in p repo x ≡ key) where
    changes-reconcile :
        (w : World E)
        → IsApplied E p S key hash w.state
        → changes E (reconcile E p repo x w).1 ≡ changes E w
    unfolding reconcile perform
    changes-reconcile w t =
        let c = get_object (kind_of p) (key_in p repo x) in
        changes-compare_hashes x (E.respond c w.state).0 (perform c w).1 marked
          (λ o e. noted-read w.state o t (rw at_key at e))

    changes-create_or_reconcile :
        (r : Reply (Resource p)) (w : World E)
        → ((m : String) → r ≡ error (not_found m) → ⊥)
        → IsApplied E p S key hash w.state
        → changes E (create_or_reconcile E p repo x r w).1 ≡ changes E w
    unfolding create_or_reconcile
    changes-create_or_reconcile (error (not_found m)) w there t = absurd (there m refl)
    changes-create_or_reconcile (error (failed m)) w there t = refl
    changes-create_or_reconcile (value o) w there t = ground (arith, changes-reconcile w t)

    changes-look_up :
        (w : World E)
        → IsApplied E p S key hash w.state
        → changes E (look_up E p repo x w).1 ≡ changes E w
    unfolding look_up perform
    changes-look_up w t =
        let c = get_object (kind_of p) (key_in p repo x) in
        changes-create_or_reconcile (E.respond c w.state).0 (perform c w).1
          (λ m e. ground (arith, S.misses w.state key m (rw at_key at e), t.1.0))
          (IsApplied-kept E p S key hash c w.state refl t)

module _ (E : Env) (p : Part) (S : KeepsAnnotations E (kind_of p)) (repo : KeptnGitRepository)
    (x : Resource p) where
  abbrev pub spec_hash : String
  spec_hash = E.hash (hashed p x)

  key_in-annotated : key_of_object (kind_of p) (annotated E p repo x) ≡ key_in p repo x
  unfolding annotated
  key_in-annotated = rw meta_of-with_meta refl

  key_in-again : key_in p repo (annotated E p repo x) ≡ key_in p repo x
  unfolding annotated
  key_in-again = rw meta_of-with_meta refl

  noted-annotated : noted p (annotated E p repo x) ≡ spec_hash
  unfolding annotated lookup
  noted-annotated = rw meta_of-with_meta refl

  hashed-annotated : hashed p (annotated E p repo x) ≡ hashed p x
  unfolding annotated
  hashed-annotated = rw hashed-with_meta refl

  abbrev with_owners : List String → Resource p
  with_owners owners =
      with_meta p (record (meta_of (kind_of p) (annotated E p repo x)) { owners = owners })
        (annotated E p repo x)

  abbrev pub IsDone : World E → Type 0
  IsDone w = IsApplied E p S (key_in p repo x) spec_hash w.state

  IsDone-with_owner :
      (r : Reply (List String)) (b : Bool) (w : World E)
      → (with_owner E p repo (annotated E p repo x) r w).0 ≡ returned (value b)
      → IsDone (with_owner E p repo (annotated E p repo x) r w).1
  unfolding with_owner
  IsDone-with_owner (error e) b w ok = absurd (ground arith)
  IsDone-with_owner (value owners) b w ok =
      IsApplied-look_up E p S (key_in p repo x) spec_hash repo (with_owners owners)
        (ap E.hash (hashed-with_meta p _ (annotated E p repo x) ∙ hashed-annotated))
        (rw meta_of-with_meta noted-annotated) (rw meta_of-with_meta key_in-annotated)
        (rw meta_of-with_meta (key_in-again)) b w ok

  -- On an API server that stores objects of the kind with their annotations as documented, a
  -- run of checkCreate without an error leaves an object stored under the manifest's name in
  -- the repository's namespace whose hash annotation is the hash of the manifest's spec.
  pub check_create-IsDone :
      (b : Bool) (w : World E)
      → (check_create E p repo x w).0 ≡ returned (value b)
      → IsDone (check_create E p repo x w).1
  unfolding check_create perform
  check_create-IsDone b w ok = go (Bool-cases (is_owned p)) ok
    where
      go :
          (is_owned p ≡ true) ⊎ (is_owned p ≡ false)
          → (check_create E p repo x w).0 ≡ returned (value b)
          → IsDone (check_create E p repo x w).1
      go (inl e) ok = rw (check_create, e) (IsDone-with_owner _ b _ (rw (check_create, e) at ok))
      go (inr e) ok =
          rw (check_create, e)
            (IsApplied-look_up E p S (key_in p repo x) spec_hash repo (annotated E p repo x)
              (ap E.hash hashed-annotated) noted-annotated key_in-annotated key_in-again b w
              (rw (check_create, e) at ok))

  abbrev owner_call : Call
  owner_call = set_controller_reference repo.meta.name (meta_of (kind_of p) (annotated E p repo x))

  changes-with_owner :
      (r : Reply (List String)) (w : World E)
      → IsDone w
      → changes E (with_owner E p repo (annotated E p repo x) r w).1 ≡ changes E w
  unfolding with_owner
  changes-with_owner (error e) w t = refl
  changes-with_owner (value owners) w t =
      changes-look_up E p S (key_in p repo x) spec_hash repo (with_owners owners)
        (rw meta_of-with_meta noted-annotated) (rw meta_of-with_meta key_in-again) w t

  changes-check_create :
      (w : World E) → IsDone w → changes E (check_create E p repo x w).1 ≡ changes E w
  unfolding check_create perform
  changes-check_create w t = go (Bool-cases (is_owned p))
    where
      go :
          (is_owned p ≡ true) ⊎ (is_owned p ≡ false)
          → changes E (check_create E p repo x w).1 ≡ changes E w
      go (inl e) =
          rw (check_create, e)
            (changes-with_owner (E.respond owner_call w.state).0 (perform owner_call w).1
              (IsApplied-kept E p S (key_in p repo x) spec_hash owner_call w.state refl t))
      go (inr e) =
          rw (check_create, e)
            (changes-look_up E p S (key_in p repo x) spec_hash repo (annotated E p repo x)
              noted-annotated key_in-again w t)

  -- On an API server that stores objects of the kind with their annotations as documented, a
  -- second run of checkCreate for the same manifest and repository, started where a first
  -- one without an error ended, creates and updates nothing.
  pub check_create_once :
      (b : Bool) (w : World E)
      → (check_create E p repo x w).0 ≡ returned (value b)
      → changes E (check_create E p repo x (check_create E p repo x w).1).1
        ≡ changes E (check_create E p repo x w).1
  check_create_once b w ok = changes-check_create _ (check_create-IsDone b w ok)
