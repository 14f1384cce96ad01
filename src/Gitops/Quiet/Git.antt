-- ===== src/Gitops/Quiet/Git.antt =====
-- The git client writes no object of the cluster.
use keptn_gitops_operator.Base.{
  String, refl, Bool, true, false, Option, none, some, ◌==◌, GoError, Reply, value, error,
}
use keptn_gitops_operator.Cluster.{GitRepositoryConfig, git_add, create_tag, Env}
use keptn_gitops_operator.Cluster.Written.{Quiet, is_object_call, Quiet-Within}
use keptn_gitops_operator.Cluster.Within.{
  Within, Within-bind, Within-call, Within-or_fail, Within-pure, Within-perform, Within-if,
}
use keptn_gitops_operator.Gitops.Git.{
  GoGitClient, get_last_commit_hash, tag_exists, checked_out, commit_and_push_upstream,
  tag_and_push, push_refs, set_tag, drop_tag, delete_tag, add_git, get_client, checkout,
}

module _ (E : Env) where
  Within-drop_tag :
      (gc : GoGitClient) (t : String) (b : Bool) → Within E is_object_call (drop_tag E gc t b)
  unfolding drop_tag delete_tag
  Within-drop_tag gc t false = Within-pure E _ _
  Within-drop_tag gc t true =
      Within-call E _ _ _ refl
        λ r. Within-or_fail E _ _ r _ (Within-call E _ _ _ refl λ r. Within-pure E _ _)

  Within-set_tag : (gc : GoGitClient) (t h : String) → Within E is_object_call (set_tag E gc t h)
  unfolding set_tag
  Within-set_tag gc t h =
      Within-if E _ (t == "") _ _ (Within-pure E _ _)
        (Within-perform E _ (create_tag gc.repo t h) refl)

  Within-push_refs : (gc : GoGitClient) → Within E is_object_call (push_refs E gc)
  unfolding push_refs
  Within-push_refs gc =
      Within-call E _ _ _ refl
        λ r. Within-or_fail E _ _ r _ (Within-call E _ _ _ refl λ r. Within-pure E _ _)

  Within-tag_and_push :
      (gc : GoGitClient) (t : String) (b : Bool) (r : Reply String)
      → Within E is_object_call (tag_and_push E gc t b r)
  unfolding tag_and_push
  Within-tag_and_push gc t b (error e) = Within-pure E _ _
  Within-tag_and_push gc t b (value h) = Within-bind E _ _ _ (Within-drop_tag gc t b) λ r.
      Within-or_fail E _ _ r _ (
        Within-bind E _ _ _ (Within-set_tag gc t h)
          λ r. Within-or_fail E _ _ r _ (Within-push_refs gc))

  pub Within-commit_and_push_upstream :
      (gc : GoGitClient) (t : String) (b : Bool)
      → Within E is_object_call (commit_and_push_upstream E gc t b)
  unfolding commit_and_push_upstream add_git
  Within-commit_and_push_upstream gc t b = Within-call E _ _ _ refl λ r. Within-or_fail E _ _ r _ (
      Within-bind E _ _ _ (Within-call E _ (git_add gc.repo) _ refl λ r. Within-pure E _ _) λ r.
        Within-or_fail E _ _ r _ (
          Within-call E _ _ _ refl
            λ r. Within-or_fail E _ _ r _ (Within-call E _ _ _ refl (Within-tag_and_push gc t b))))

  Within-checked_out :
      (c : GitRepositoryConfig) (d : String) (o : Option GoError)
      → Within E is_object_call (checked_out E c d o)
  Within-checked_out c d none = Within-pure E _ _
  Within-checked_out c d (some e) = Within-pure E _ _

  pub Within-get_client :
      (c : GitRepositoryConfig) (d : String) → Within E is_object_call (get_client E c d)
  unfolding get_client checkout
  Within-get_client c d = Within-call E _ _ _ refl (Within-checked_out c d)

  pub Within-tag_exists :
      (gc : GoGitClient) (t : String) → Within E is_object_call (tag_exists E gc t)
  unfolding tag_exists
  Within-tag_exists gc t = Within-call E _ _ _ refl λ r. Within-pure E _ _

  pub written-get_client : (c : GitRepositoryConfig) (d : String) → Quiet E (get_client E c d)
  written-get_client c d = Quiet-Within E _ (Within-get_client c d)

  pub written-get_last_commit_hash : (gc : GoGitClient) → Quiet E (get_last_commit_hash E gc)
  unfolding get_last_commit_hash
  written-get_last_commit_hash gc =
      Quiet-Within E _ (Within-call E _ _ _ refl λ r. Within-pure E _ _)
