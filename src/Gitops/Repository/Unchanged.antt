-- ===== src/Gitops/Repository/Unchanged.antt =====
-- A run for a repository whose last commit is recorded does nothing.
use keptn_gitops_operator.Base.{
  String, ◌<>◌, ◌≡◌, refl, ap, eq_refl, Option, none, some, GoError, Reply, value, error, Outcome,
  returned, ended,
}
use keptn_gitops_operator.Api.{KeptnGitRepository, KeptnGitRepositorySpec}
use keptn_gitops_operator.Cluster.{
  GitRepositoryConfig, clone, head, temp_dir, Env, World, continue, perform,
}
use keptn_gitops_operator.Cluster.Written.{object_steps, written}
use keptn_gitops_operator.Gitops.Credentials.{get_git_credentials}
use keptn_gitops_operator.Gitops.Git.{
  GoGitClient, checked_out, checkout, get_client, get_last_commit_hash,
}
use keptn_gitops_operator.Gitops.Repository.{with_hash, with_client, with_config, sync}

module _ (E : Env) where
  -- How the repository that a spec describes is cloned.
  abbrev pub IsConfigOf : GitRepositoryConfig → KeptnGitRepositorySpec → Type 0
  IsConfigOf c spec =
      get_git_credentials E spec.repository spec.username spec.token spec.branch
      ≡ returned (value c)

  -- Where the repository can be cloned, the clone's head is that commit right afterwards.
  abbrev pub HasCommit : KeptnGitRepositorySpec → String → Type 0
  HasCommit spec h =
      (s : E.State) (c : GitRepositoryConfig) (dir : String)
      → IsConfigOf c spec
      → (E.respond (clone c ("refs/heads/" <> c.branch) dir) s).0 ≡ none
      → (E.respond (head dir) (E.respond (clone c ("refs/heads/" <> c.branch) dir) s).1).0 ≡ value h

  module _ (repo : KeptnGitRepository) (h : String) (recorded : repo.status.last_commit ≡ h) where
    unchanged-with_hash : (n d : String) (w : World E) → (with_hash E repo n d (value h) w).1 ≡ w
    unfolding with_hash
    unchanged-with_hash n d w = rw (recorded, eq_refl h) refl

    unchanged-with_client :
        (n d : String) (gc : GoGitClient) (w : World E)
        → (E.respond (head gc.repo) w.state).0 ≡ value h
        → written (with_client E repo n d (value gc) w).1 ≡ written w
    unfolding with_client get_last_commit_hash perform object_steps
    unchanged-with_client n d gc w e = rw e (ap written (unchanged-with_hash n d _))

    unchanged-checked_out :
        (n d : String) (c : GitRepositoryConfig) (r : Option GoError) (w : World E)
        → (r ≡ none → (E.respond (head d) w.state).0 ≡ value h)
        → written
            (continue
              (checked_out E c d r w).0
              (with_client E repo n d)
              (checked_out E c d r w).1).1
          ≡ written w
    unfolding with_client
    unchanged-checked_out n d c (some e) w at = refl
    unchanged-checked_out n d c none w at =
        unchanged-with_client n d (record { repo_config = c; repo = d }) w (at refl)

    module _ (remote : HasCommit repo.spec h) where
      unchanged-with_config :
          (n d : String) (o : Outcome (Reply GitRepositoryConfig)) (w : World E)
          → get_git_credentials E repo.spec.repository repo.spec.username repo.spec.token
              repo.spec.branch
            ≡ o
          → written (continue o (with_config E repo n d) w).1 ≡ written w
      unfolding with_config get_client checkout perform object_steps
      unchanged-with_config n d (ended how) w e = refl
      unchanged-with_config n d (returned (error err)) w e = refl
      unchanged-with_config n d (returned (value c)) w e =
          let call = clone c ("refs/heads/" <> c.branch) d in
          unchanged-checked_out n d c (E.respond call w.state).0 (perform call w).1
            (λ r. remote w.state c d e r)

      pub written-sync : (n : String) (w : World E) → written (sync E repo n w).1 ≡ written w
      unfolding sync perform object_steps
      written-sync n w =
          unchanged-with_config n (E.respond (temp_dir "code_tmp_dir") w.state).0 _
            (perform (temp_dir "code_tmp_dir") w).1 refl
