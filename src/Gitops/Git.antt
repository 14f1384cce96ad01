-- ===== src/Gitops/Git.antt =====
-- gitops-operator/controllers/common/git.go: the git client, with AddGit of utils_git.go.
-- A client has its repository by the directory that it was cloned to.
mod Tests
pub mod Pushes
pub mod Tags
pub mod Deletes
use keptn_gitops_operator.Base.{
  String, ◌<>◌, Bool, true, false, Option, none, some, List, [], ◌∷◌, ◌==◌, GoError, failed, Reply,
  value, error, if◌then◌else◌,
}
use keptn_gitops_operator.Cluster.{
  ◌>>=◌, ◌>>◌, GitRepositoryConfig, clone, head, worktree, git_add, commit, push, tag_objects,
  create_tag, delete_tag_object, push_delete, Env, Exec, pure, perform, or_fail, wrapped,
}

pub record GoGitClient : Type 0 where
  pub repo_config : GitRepositoryConfig
  pub repo : String

-- What the function given to ForEach returns for a tag.
abbrev pub tag_found : GoError
tag_found = failed "tag was found"

-- The tags up to the one that is looked for, or the error that ends the iteration.
unfoldable pub for_each_tag : String → List String → Option GoError → Option GoError
for_each_tag tag [] ended = ended
for_each_tag tag (t ∷ ts) ended =
    let rest = for_each_tag tag ts ended in if t == tag then some tag_found else rest

abbrev pub tags_or_error : String → Reply (List String × Option GoError) → Option GoError
tags_or_error tag (error err) = wrapped "get tags error" (some err)
tags_or_error tag (value (tags, ended)) = for_each_tag tag tags ended

module _ (E : Env) where
  -- `uri/branch` after a text
  abbrev about : String → GitRepositoryConfig → String
  about text config = text <> (config.remote_uri <> ("/" <> config.branch))

  abbrev pub checked_out :
      GitRepositoryConfig → String → Option GoError → Exec E (Reply GoGitClient)
  checked_out config dir none = pure (value (record { repo_config = config; repo = dir }))
  checked_out config dir (some err) =
      pure (error (failed (E.errorf (about "Could not checkout " config) err)))

  -- Checkout, on a client that is new.
  unfoldable pub checkout : GitRepositoryConfig → String → Exec E (Reply GoGitClient)
  checkout config dir = do
    bad ← perform (clone config ("refs/heads/" <> config.branch) dir)
    checked_out config dir bad

  unfoldable pub get_client : GitRepositoryConfig → String → Exec E (Reply GoGitClient)
  unfolding checkout
  get_client config dir = checkout config dir

  unfoldable pub tag_exists : GoGitClient → String → Exec E (Option GoError)
  tag_exists gc tag = do tags ← perform (tag_objects gc.repo); pure (tags_or_error tag tags)

  abbrev hash_or_error : GoGitClient → Reply String → Reply String
  hash_or_error gc (value hash) = value hash
  hash_or_error gc (error err) =
      error (failed (E.errorf (about "Could not get hash of " gc.repo_config) err))

  unfoldable pub get_last_commit_hash : GoGitClient → Exec E (Reply String)
  get_last_commit_hash gc = do hash ← perform (head gc.repo); pure (hash_or_error gc hash)

  unfoldable pub add_git : String → Exec E (Option GoError)
  add_git dir = do bad ← perform (git_add dir); pure (wrapped "Could not add files" bad)

  unfoldable pub delete_tag : GoGitClient → String → Exec E (Option GoError)
  delete_tag gc tag = do
    no_tag ← perform (delete_tag_object gc.repo tag)
    or_fail "could not remove local tag" no_tag do
      not_deleted ← perform (push_delete gc.repo tag)
      pure (wrapped "could not delete tag" not_deleted)

  unfoldable pub push_refs : GoGitClient → Exec E (Option GoError)
  push_refs gc = do
    no_heads ← perform (push gc.repo_config gc.repo "refs/heads/*:refs/heads/*")
    or_fail "could not push commit" no_heads do
      no_tags ← perform (push gc.repo_config gc.repo "refs/tags/*:refs/tags/*")
      pure (wrapped "could not push tags" no_tags)

  -- `if tagExists`
  unfoldable pub drop_tag : GoGitClient → String → Bool → Exec E (Option GoError)
  unfolding delete_tag
  drop_tag gc tag false = pure none
  drop_tag gc tag true = delete_tag gc tag

  -- `if tag != ""`
  unfoldable pub set_tag : GoGitClient → String → String → Exec E (Option GoError)
  set_tag gc tag hash = if tag == "" then pure none else perform (create_tag gc.repo tag hash)

  unfoldable pub tag_and_push : GoGitClient → String → Bool → Reply String → Exec E (Option GoError)
  unfolding drop_tag set_tag push_refs
  tag_and_push gc tag exists (error err) = pure (wrapped "could not get head" (some err))
  tag_and_push gc tag exists (value hash) = do
    kept ← drop_tag gc tag exists
    or_fail "could not delete tag" kept
        do untagged ← set_tag gc tag hash; or_fail "couldn't create a tag" untagged (push_refs gc)

  unfoldable pub commit_and_push_upstream : GoGitClient → String → Bool → Exec E (Option GoError)
  unfolding tag_and_push add_git
  commit_and_push_upstream gc tag exists = do
    no_tree ← perform (worktree gc.repo)
    or_fail "could not set worktree" no_tree do
      not_added ← add_git gc.repo
      or_fail "could not add files" not_added do
        not_committed ← perform (commit gc.repo "Push new version")
        or_fail "could not commit" not_committed
            do h ← perform (head gc.repo); tag_and_push gc tag exists h
