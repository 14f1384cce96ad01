-- ===== src/Gitops/Git/Deletes.antt =====
-- Overwriting a tag deletes it first.
use keptn_gitops_operator.Gitops.Git.{add_git}
use keptn_gitops_operator.Base.{
  String, ◌≡◌, refl, true, Option, none, some, arith, GoError, Reply, value, error, Outcome,
  returned, ended,
}
use keptn_gitops_operator.Cluster.{
  head, worktree, commit, delete_tag_object, Env, World, Exec, continue, perform, or_fail,
}
use keptn_gitops_operator.Cluster.Fails.{Fails, Fails-after, Fails-or_fail}
use keptn_gitops_operator.Gitops.Git.{
  GoGitClient, delete_tag, drop_tag, tag_and_push, commit_and_push_upstream,
}

module _ (E : Env) (gc : GoGitClient) (tag : String)
    (missing : (s : E.State)
      → (e : GoError) × ((E.respond (delete_tag_object gc.repo tag) s).0 ≡ some e)) where
  Fails-drop_tag : Fails E (drop_tag E gc tag true)
  unfolding Fails drop_tag delete_tag perform
  Fails-drop_tag w h = let (e, gone) = missing w.state in ground (arith, gone)

  Fails-dropped :
      (m : Exec E (Option GoError)) (o : Outcome (Option GoError)) (w : World E)
      → (o ≡ returned none → ⊥)
      → (continue o (λ r. or_fail "could not delete tag" r m) w).0 ≡ returned none
      → ⊥
  Fails-dropped m (returned none) w h e = h refl
  Fails-dropped m (returned (some err)) w h e = ground arith
  Fails-dropped m (ended s) w h e = ground arith

  Fails-tag_and_push : (r : Reply String) → Fails E (tag_and_push E gc tag true r)
  unfolding tag_and_push Fails
  Fails-tag_and_push (error e) w h = ground arith
  Fails-tag_and_push (value hash) w h =
      Fails-dropped _ (drop_tag E gc tag true w).0 (drop_tag E gc tag true w).1 (Fails-drop_tag w) h

  -- Where deleting the tag fails, CommitAndPushUpstream with a tag to overwrite fails.
  pub Fails-commit_and_push_upstream : Fails E (commit_and_push_upstream E gc tag true)
  unfolding commit_and_push_upstream
  Fails-commit_and_push_upstream = Fails-after E (perform (worktree gc.repo)) _ λ r.
      Fails-or_fail E _ r _ (
        Fails-after E (add_git E gc.repo) _ λ r. Fails-or_fail E _ r _ (
          Fails-after E (perform (commit gc.repo "Push new version")) _ λ r.
            Fails-or_fail E _ r _ (Fails-after E (perform (head gc.repo)) _ Fails-tag_and_push)))
