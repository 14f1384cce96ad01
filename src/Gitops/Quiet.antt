-- ===== src/Gitops/Quiet.antt =====
-- The delivery of artifacts writes no object of the cluster.
pub mod Git
use keptn_gitops_operator.Base.{
  String, refl, Bool, false, Option, none, some, List, [], ◌∷◌, ◌==◌, GoError, Reply, value, error,
}
use keptn_gitops_operator.Api.{KeptnProject}
use keptn_gitops_operator.Cluster.{
  copy_dir, DirEntry, DirectoryData, KeptnArtifactMetadataSpec, Env, Exec, ◌>>=◌,
}
use keptn_gitops_operator.Gitops.Files.{put_service}
use keptn_gitops_operator.Base.Paths.{join}
use keptn_gitops_operator.Cluster.Written.{Quiet, is_object_call, Quiet-Within}
use keptn_gitops_operator.Cluster.Within.{
  Within, Within-bind, Within-call, Within-or_fail, Within-pure, Within-perform, Within-lift,
  Within-if,
}
use keptn_gitops_operator.Gitops.Files.{
  with_metadata, Services, cleanup_stages, cleanup_service_dirs, find_in, metadata_of, metadata_at,
  find_listed, find_service_dirs, find_dirs,
}
use keptn_gitops_operator.Gitops.Credentials.{get_upstream_credentials, with_project}
use keptn_gitops_operator.Gitops.Git.{GoGitClient}
use keptn_gitops_operator.Gitops.Delivery.{
  copy_stages, copy_if_there, copy_chart, compose_service, compose_each, compose_data,
  get_artifact_project, project_at, deliver_named, deliver_project, deliver_artifacts, and_then,
  compose_or_skip, or_return, would_not_overwrite, flag_after,
}
use keptn_gitops_operator.Gitops.Quiet.Git.{
  Within-commit_and_push_upstream, Within-get_client, Within-tag_exists,
}

module _ (E : Env) where
  Within-cleanup_stages :
      (s d : String) (stages : List DirectoryData)
      → Within E is_object_call (cleanup_stages E s d stages)
  unfolding cleanup_stages
  Within-cleanup_stages s d [] = Within-pure E _ _
  Within-cleanup_stages s d (stage ∷ stages) =
      Within-call E _ _ _ refl λ r. Within-or_fail E _ _ r _ (Within-cleanup_stages s d stages)

  Within-cleanup_service_dirs :
      (s d : String) (stages : List DirectoryData)
      → Within E is_object_call (cleanup_service_dirs E s d stages)
  unfolding cleanup_service_dirs
  Within-cleanup_service_dirs s d stages =
      Within-call E _ _ _ refl λ r. Within-or_fail E _ _ r _ (Within-cleanup_stages s d stages)

  Within-metadata_at : (d : String) (r : Reply Bool) → Within E is_object_call (metadata_at E d r)
  unfolding metadata_at
  Within-metadata_at d (error e) = Within-pure E _ _
  Within-metadata_at d (value b) = Within-call E _ _ _ refl λ r. Within-pure E _ _

  Within-metadata_of :
      (d p : String) (dir : DirEntry) → Within E is_object_call (metadata_of E d p dir)
  unfolding metadata_of
  Within-metadata_of d p dir =
      Within-if E _ dir.is_dir _ _ (Within-call E _ _ _ refl (Within-metadata_at _))
        (Within-pure E _ _)

  Within-with_metadata :
      (next : Services → Exec E (Reply Services)) (d : DirectoryData) (m : Services)
      (r : Reply (Option KeptnArtifactMetadataSpec))
      → ((m : Services) → Within E is_object_call (next m))
      → Within E is_object_call (with_metadata E next d m r)
  Within-with_metadata next d m (error e) h = Within-pure E _ _
  Within-with_metadata next d m (value none) h = h m
  Within-with_metadata next d m (value (some s)) h = h (put_service d s m)

  Within-find_in :
      (d p : String) (dirs : List DirEntry) (m : Services)
      → Within E is_object_call (find_in E d p dirs m)
  unfolding find_in
  Within-find_in d p [] m = Within-pure E _ _
  Within-find_in d p (dir ∷ dirs) m =
      Within-bind E _ _ _ (Within-metadata_of d p dir)
        λ r. Within-with_metadata _ _ m r (Within-find_in d p dirs)

  Within-find_listed :
      (d p : String) (r : Reply (List DirEntry)) → Within E is_object_call (find_listed E d p r)
  unfolding find_listed
  Within-find_listed d p (error e) = Within-pure E _ _
  Within-find_listed d p (value dirs) = Within-find_in d p dirs []

  Within-find_service_dirs : (d p : String) → Within E is_object_call (find_service_dirs E d p)
  unfolding find_service_dirs
  Within-find_service_dirs d p = Within-call E _ _ _ refl (Within-find_listed d p)

  Within-find_dirs : (d : String) → Within E is_object_call (find_dirs E d)
  unfolding find_dirs
  Within-find_dirs d = Within-call E _ _ _ refl λ r. Within-pure E _ _

  Within-copy_if_there :
      (s t : DirectoryData) (d : String) (r : Reply Bool)
      → Within E is_object_call (copy_if_there E s t d r)
  unfolding copy_if_there
  Within-copy_if_there s t d (error e) = Within-pure E _ _
  Within-copy_if_there s t d (value b) =
      Within-perform E _
        (copy_dir (join (t.path ∷ (s.directory_name ∷ [])))
          (join (d ∷ ("stages" ∷ (t.directory_name ∷ (s.directory_name ∷ []))))))
        refl

  Within-copy_stages :
      (s : DirectoryData) (d : String) (stages : List DirectoryData)
      → Within E is_object_call (copy_stages E s d stages)
  unfolding copy_stages
  Within-copy_stages s d [] = Within-pure E _ _
  Within-copy_stages s d (stage ∷ stages) = Within-call E _ _ _ refl λ r.
      Within-bind E _ _ _ (Within-copy_if_there s stage d r)
        λ o. Within-or_fail E _ _ o _ (Within-copy_stages s d stages)

  Within-copy_chart :
      (s : DirectoryData) (c d : String) → Within E is_object_call (copy_chart E s c d)
  unfolding copy_chart
  Within-copy_chart s c d = Within-if E _ (c == "") _ _ (Within-pure E _ _) (
      Within-perform E _
        (copy_dir c (join (d ∷ ("base" ∷ (s.directory_name ∷ ("helm" ∷ (s.directory_name ∷ [])))))))
        refl)

  Within-or_return :
      (o : Option GoError) (m : Exec E (Option GoError))
      → Within E is_object_call m
      → Within E is_object_call (or_return E o m)
  Within-or_return none m h = h
  Within-or_return (some e) m h = Within-pure E _ _

  Within-compose_service :
      (gc : GoGitClient) (d : String) (stages : List DirectoryData) (b : Bool) (s : DirectoryData)
      (m : KeptnArtifactMetadataSpec)
      → Within E is_object_call (compose_service E gc d stages b s m)
  unfolding compose_service
  Within-compose_service gc d stages b s m =
      Within-bind E _ _ _ (Within-cleanup_service_dirs s.directory_name d stages) λ o.
        Within-or_return o _ (
          Within-call E _ _ _ refl λ r. Within-or_fail E _ _ r _ (
            Within-bind E _ _ _ (Within-copy_chart s m.chart_dir d) λ r. Within-or_fail E _ _ r _ (
              Within-bind E _ _ _ (Within-copy_stages s d stages) λ r. Within-or_return r _ (
                Within-bind E _ _ _ (Within-commit_and_push_upstream E gc _ b)
                  λ r. Within-pure E _ _))))

  Within-compose_or_skip :
      (service next : Bool → Exec E (Option GoError)) (overwrite flag : Bool) (o : Option GoError)
      → ((b : Bool) → Within E is_object_call (service b))
      → ((b : Bool) → Within E is_object_call (next b))
      → Within E is_object_call (compose_or_skip E service next overwrite flag o)
  Within-compose_or_skip service next overwrite flag o hs hn =
      Within-if E _ (would_not_overwrite overwrite o) _ _ (hn flag) (
        Within-bind E _ _ _ (hs (flag_after flag o))
          λ r. Within-or_return r _ (hn (flag_after flag o)))

  Within-compose_each :
      (gc : GoGitClient) (d : String) (stages : List DirectoryData) (l : Services) (b : Bool)
      → Within E is_object_call (compose_each E gc d stages l b)
  unfolding compose_each
  Within-compose_each gc d stages [] b = Within-pure E _ _
  Within-compose_each gc d stages ((s, m) ∷ l) b =
      Within-bind E _ _ _ (Within-tag_exists E gc _) λ r.
        Within-compose_or_skip _ _ m.overwrite_tag b r
          (λ b. Within-compose_service gc d stages b s m) (Within-compose_each gc d stages l)

  Within-compose_data :
      (gc : GoGitClient) (d : String) (l : Services) (stages : List DirectoryData)
      → Within E is_object_call (compose_data E gc d l stages)
  unfolding compose_data
  Within-compose_data gc d l stages =
      Within-call E _ _ _ refl λ v. Within-compose_each gc d stages v false

  Within-with_project : (r : Reply KeptnProject) → Within E is_object_call (with_project E r)
  unfolding with_project
  Within-with_project (error e) = Within-pure E _ _
  Within-with_project (value o) = Within-lift E _ _

  Within-get_upstream_credentials :
      (p n : String) → Within E is_object_call (get_upstream_credentials E p n)
  unfolding get_upstream_credentials
  Within-get_upstream_credentials p n = Within-call E _ _ _ refl Within-with_project

  Within-project_at : (d : String) (r : Reply Bool) → Within E is_object_call (project_at E d r)
  unfolding project_at
  Within-project_at d (error e) = Within-pure E _ _
  Within-project_at d (value b) = Within-call E _ _ _ refl λ r. Within-pure E _ _

  Within-get_artifact_project : (d : String) → Within E is_object_call (get_artifact_project E d)
  unfolding get_artifact_project
  Within-get_artifact_project d = Within-call E _ _ _ refl (Within-project_at _)

  Within-and_then :
      {A : Type 0} (next : A → Exec E (Option GoError)) (r : Reply A)
      → ((a : A) → Within E is_object_call (next a))
      → Within E is_object_call (and_then E next r)
  Within-and_then next (error e) h = Within-pure E _ _
  Within-and_then next (value a) h = h a

  -- Calls whose errors are returned.
  Within-then :
      {A : Type 0} (m : Exec E (Reply A)) (next : A → Exec E (Option GoError))
      → Within E is_object_call m
      → ((a : A) → Within E is_object_call (next a))
      → Within E is_object_call (m >>= and_then E next)
  Within-then m next hm h = Within-bind E _ m (and_then E next) hm λ r. Within-and_then next r h

  Within-deliver_named : (n u b s p : String) → Within E is_object_call (deliver_named E n u b s p)
  unfolding deliver_named
  Within-deliver_named n u b s p = Within-then _ _ (Within-get_upstream_credentials p n) λ c.
      Within-then _ _ (Within-find_service_dirs b "metadata.yaml") λ services.
        Within-then _ _ (Within-find_dirs s) λ stages.
          Within-then _ _ (Within-get_client E c u) λ gc. Within-compose_data gc u services stages

  Within-deliver_project :
      (n u b s p : String) → Within E is_object_call (deliver_project E n u b s p)
  unfolding deliver_project
  Within-deliver_project n u b s p =
      Within-if E _ (p == "") _ _ (Within-pure E _ _) (Within-deliver_named n u b s p)

  -- The delivery of artifacts makes no call that creates or updates an object of the cluster.
  pub Within-deliver_artifacts :
      (n b d : String) → Within E is_object_call (deliver_artifacts E n b d)
  unfolding deliver_artifacts
  Within-deliver_artifacts n b d = Within-call E _ _ _ refl λ u.
      Within-bind E _ _ _ (Within-get_artifact_project _)
        λ r. Within-and_then _ r (Within-deliver_project n u _ _)

  -- The delivery of artifacts creates and updates no object of the cluster.
  pub written-deliver_artifacts : (n b d : String) → Quiet E (deliver_artifacts E n b d)
  written-deliver_artifacts n b d = Quiet-Within E _ (Within-deliver_artifacts n b d)
