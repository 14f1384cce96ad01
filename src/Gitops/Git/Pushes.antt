-- ===== src/Gitops/Git/Pushes.antt =====
-- What CommitAndPushUpstream has pushed when it returns.
use keptn_gitops_operator.Base.{String, refl, Bool, arith, Reply, value, error}
use keptn_gitops_operator.Cluster.{head, worktree, commit, Env, World, perform}
use keptn_gitops_operator.Gitops.Git.{
  GoGitClient, delete_tag, push_refs, drop_tag, set_tag, tag_and_push, commit_and_push_upstream,
  add_git,
}
use keptn_gitops_operator.Cluster.Pushing.{
  IsPushed, IsPushed-failed, Pushing, Pushing-or_fail, Pushing-after, Silent, Silent-call,
}

module _ (E : Env) where
  IsPushed-push_refs :
      (gc : GoGitClient) (w : World E) → IsPushed E 2 w (push_refs E gc w).0 (push_refs E gc w).1
  unfolding push_refs perform
  IsPushed-push_refs gc w = record {
    all = λ h. ground arith;
    fewer = λ e h. ground arith;
    returns = λ m h. ground arith;
  }

  Silent-drop_tag : (gc : GoGitClient) (t : String) (b : Bool) → Silent E (drop_tag E gc t b)
  unfolding drop_tag delete_tag perform
  Silent-drop_tag gc t b w = (ground arith, λ s h. ground arith)

  Silent-set_tag : (gc : GoGitClient) (t h : String) → Silent E (set_tag E gc t h)
  unfolding set_tag perform
  Silent-set_tag gc t h w = (ground arith, λ s e. ground arith)

  Silent-add_git : (d : String) → Silent E (add_git E d)
  unfolding add_git perform
  Silent-add_git d w = (ground arith, λ s e. ground arith)

  Pushing-tag_and_push :
      (gc : GoGitClient) (t : String) (b : Bool) (r : Reply String)
      → Pushing E 2 (tag_and_push E gc t b r)
  unfolding tag_and_push
  Pushing-tag_and_push gc t b (error e) = λ w. IsPushed-failed E 2 w w _ (omega arith)
  Pushing-tag_and_push gc t b (value hash) = Pushing-after E 2 _ _ (Silent-drop_tag gc t b) λ r.
      Pushing-or_fail E 2 _ r _ (omega arith) (
        Pushing-after E 2 _ _ (Silent-set_tag gc t hash)
          λ r. Pushing-or_fail E 2 _ r _ (omega arith) (IsPushed-push_refs gc))

  -- A run of CommitAndPushUpstream neither panics nor ends the process; it has pushed twice
  -- where it returns no error, and at most once where it returns one.
  pub commit_and_push_upstream-IsPushed :
      (gc : GoGitClient) (t : String) (b : Bool) (w : World E)
      → IsPushed E 2 w
          (commit_and_push_upstream E gc t b w).0
          (commit_and_push_upstream E gc t b w).1
  unfolding commit_and_push_upstream
  commit_and_push_upstream-IsPushed gc t b =
      Pushing-after E 2 _ _ (Silent-call E (worktree gc.repo) (λ r. refl)) λ r.
        Pushing-or_fail E 2 _ r _ (omega arith) (
          Pushing-after E 2 _ _ (Silent-add_git gc.repo) λ r.
            Pushing-or_fail E 2 _ r _ (omega arith) (
              Pushing-after E 2 _ _ (Silent-call E (commit gc.repo "Push new version") (λ r. refl))
                λ r. Pushing-or_fail E 2 _ r _ (omega arith) (
                  Pushing-after E 2 _ _ (Silent-call E (head gc.repo) (λ r. refl))
                    (Pushing-tag_and_push gc t b))))
