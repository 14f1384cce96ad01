-- ===== src/Gitops/Delivery/Overwrites.antt =====
-- The flag that a tag exists is kept for the services after it.
use keptn_gitops_operator.Base.{
  String, ◌≡◌, refl, Bool, true, Option, none, some, List, [], ◌∷◌, arith, GoError, Outcome,
  returned, ended,
}
use keptn_gitops_operator.Cluster.{
  delete_tag_object, copy_dir, DirectoryData, KeptnArtifactMetadataSpec, Env, World, Exec, pure,
  continue, perform, wrapped, ◌>>=◌,
}
use keptn_gitops_operator.Cluster.Fails.{Fails, Fails-after, Fails-or_fail}
use keptn_gitops_operator.Gitops.Files.{cleanup_service_dirs, Services}
use keptn_gitops_operator.Gitops.Git.{commit_and_push_upstream, GoGitClient, tag_exists}
use keptn_gitops_operator.Gitops.Git.Deletes.{Fails-commit_and_push_upstream}
use keptn_gitops_operator.Gitops.Delivery.{
  base_of, copy_chart, copy_stages, compose_each, compose_service, tag_of, compose_or_skip,
  or_return,
}

module _ (E : Env) (gc : GoGitClient) (service : DirectoryData)
    (metadata : KeptnArtifactMetadataSpec)
    (missing : (s : E.State)
      → (e : GoError) × ((E.respond (delete_tag_object gc.repo (tag_of service metadata)) s).0
          ≡ some e)) where
  Fails-or_return :
      (o : Option GoError) (m : Exec E (Option GoError)) → Fails E m → Fails E (or_return E o m)
  unfolding Fails
  Fails-or_return none m h = h
  Fails-or_return (some e) m h = λ w q. ground arith

  Fails-wrapped :
      (m : Exec E (Option GoError)) (p : String)
      → Fails E m
      → Fails E (m >>= λ bad. pure (wrapped p bad))
  unfolding Fails
  Fails-wrapped m p h w = go (m w).0 (m w).1 (h w)
    where
      go :
          (o : Outcome (Option GoError)) (w1 : World E)
          → (o ≡ returned none → ⊥)
          → (continue o (λ bad. pure (wrapped p bad)) w1).0 ≡ returned none
          → ⊥
      go (returned none) w1 h e = h refl
      go (returned (some err)) w1 h e = ground arith
      go (ended s) w1 h e = ground arith

  Fails-compose_service :
      (d : String) (stages : List DirectoryData)
      → Fails E (compose_service E gc d stages true service metadata)
  unfolding compose_service
  Fails-compose_service d stages =
      Fails-after E (cleanup_service_dirs E service.directory_name d stages) _ λ r.
        Fails-or_return r _ (
          Fails-after E (perform (copy_dir service.path (base_of d service []))) _ λ r.
            Fails-or_fail E _ r _ (
              Fails-after E (copy_chart E service metadata.chart_dir d) _ λ r.
                Fails-or_fail E _ r _ (
                  Fails-after E (copy_stages E service d stages) _ λ r. Fails-or_return r _ (
                    Fails-wrapped (commit_and_push_upstream E gc (tag_of service metadata) true) _
                      (Fails-commit_and_push_upstream E gc (tag_of service metadata) missing)))))

  Fails-returned :
      (m : Exec E (Option GoError)) (f : Option GoError → Exec E (Option GoError))
      → Fails E m
      → ((e : GoError) → Fails E (f (some e)))
      → Fails E (m >>= f)
  unfolding Fails
  Fails-returned m f h hf w = go (m w).0 (m w).1 (h w)
    where
      go :
          (o : Outcome (Option GoError)) (w1 : World E)
          → (o ≡ returned none → ⊥)
          → (continue o f w1).0 ≡ returned none
          → ⊥
      go (returned none) w1 h e = h refl
      go (returned (some err)) w1 h e = hf err w1 e
      go (ended s) w1 h e = ground arith

  Fails-new :
      (d : String) (stages : List DirectoryData) (next : Bool → Exec E (Option GoError)) (b : Bool)
      → Fails E (
          compose_or_skip E
            (λ b. compose_service E gc d stages b service metadata)
            next
            b
            true
            none)
  unfolding Fails
  Fails-new d stages next b =
      Fails-returned (compose_service E gc d stages true service metadata) _
        (Fails-compose_service d stages) λ e w q. ground arith

  -- Where deleting a service's tag fails in every state, and its tag is not found, the loop
  -- of composeData that comes to that service with the flag of an earlier overwritten tag
  -- returns no success.
  pub flag_blocks_new_tag :
      (d : String) (stages : List DirectoryData) (l : Services) (w : World E)
      → (tag_exists E gc (tag_of service metadata) w).0 ≡ returned none
      → (compose_each E gc d stages ((service, metadata) ∷ l) true w).0 ≡ returned none
      → ⊥
  unfolding compose_each Fails
  flag_blocks_new_tag d stages l w new =
      go (tag_exists E gc (tag_of service metadata) w).0
        (tag_exists E gc (tag_of service metadata) w).1 new
    where
      go :
          (o : Outcome (Option GoError)) (w1 : World E)
          → o ≡ returned none
          → (continue o
              (compose_or_skip E
                (λ b. compose_service E gc d stages b service metadata)
                (compose_each E gc d stages l)
                metadata.overwrite_tag
                true)
              w1).0
            ≡ returned none
          → ⊥
      go (returned none) w1 e h =
          Fails-new d stages (compose_each E gc d stages l) metadata.overwrite_tag w1 h
      go (returned (some err)) w1 e h = ground arith
      go (ended s) w1 e h = ground arith
