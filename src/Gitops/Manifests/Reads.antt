-- ===== src/Gitops/Manifests/Reads.antt =====
-- Parsing the manifests writes no object of the cluster.
use keptn_gitops_operator.Gitops.Manifests.{parse_listed}
use keptn_gitops_operator.Base.{String, refl, List, [], ◌∷◌, arith, Reply, value, error}
use keptn_gitops_operator.Cluster.{DirEntry, Env, Exec, perform}
use keptn_gitops_operator.Cluster.Written.{object_steps, Quiet, Quiet-bind, Quiet-call, Quiet-pure}
use keptn_gitops_operator.Gitops.Manifests.{
  KeptnManifests, parse_file, parse_files, parse_next, parse_keptn_manifests, no_manifests,
}

module _ (E : Env) where
  written-parse_file :
      (d : String) (f : DirEntry) (m : KeptnManifests) → Quiet E (parse_file E d f m)
  unfolding Quiet parse_file perform object_steps
  written-parse_file d f m w = ground arith

  Quiet-parse_next :
      (next : KeptnManifests → Exec E (Reply KeptnManifests)) (r : Reply KeptnManifests)
      → ((m : KeptnManifests) → Quiet E (next m))
      → Quiet E (parse_next E next r)
  Quiet-parse_next next (error e) h = Quiet-pure E _
  Quiet-parse_next next (value m) h = h m

  written-parse_files :
      (d : String) (l : List DirEntry) (m : KeptnManifests) → Quiet E (parse_files E d l m)
  unfolding parse_files
  written-parse_files d [] m = Quiet-pure E _
  written-parse_files d (f ∷ l) m =
      Quiet-bind E _ _ (written-parse_file d f m)
        λ r. Quiet-parse_next _ r (written-parse_files d l)

  written-parse_listed : (d : String) (r : Reply (List DirEntry)) → Quiet E (parse_listed E d r)
  written-parse_listed d (error e) = Quiet-pure E _
  written-parse_listed d (value l) = written-parse_files d l no_manifests

  pub written-parse_keptn_manifests : (d b : String) → Quiet E (parse_keptn_manifests E d b)
  unfolding parse_keptn_manifests
  written-parse_keptn_manifests d b = Quiet-call E _ _ refl (written-parse_listed _)
